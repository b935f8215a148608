-- ===== src/Http/Response/Append.antt =====
-- `add_response_` on the text that the write buffer holds.
use linux_image_server.Base.{
  ℕ, ◌+◌, ◌-◌, ◌≤◌, ◌<◌, ◌≡◌, refl, sym, ap, ◌∙◌, true, false, List, [], ◌∷◌, ◌++◌, arith, length,
  take, length-append, length-take, take_of_length_le, inl, inr, ◌⊎◌, leb, Bool-cases,
}
use linux_image_server.CString.{splice}
use linux_image_server.CString.Laws.{length-splice, take-splice, take-splice_before}
use linux_image_server.Http.Types.{write_buffer_size}
use linux_image_server.Http.Response.{Writer, printed, add_response}

-- The text that the buffer holds.
abbrev pub written : Writer → List ℕ
written w = take w.write_idx w.write_buf

-- The buffer has its size, and the text and its NUL fit.
pub record IsRoomy (w : Writer) : Type 0 where
  pub size : length w.write_buf ≡ write_buffer_size
  pub below : w.write_idx < write_buffer_size

pub length-written : (w : Writer) → IsRoomy w → length (written w) ≡ w.write_idx
length-written w r = omega (arith, length-take w.write_idx w.write_buf)

pub printed-fits :
    (room : ℕ) (text : List ℕ) → length text < room → printed room text ≡ text ++ 0 ∷ []
unfolding printed
printed-fits room text h = ground (arith, take_of_length_le (room - 1) text)

length-printed-le : (room : ℕ) (text : List ℕ) → length (printed room text) ≤ room
unfolding printed
length-printed-le room text =
    ground (arith, length-append (take (room - 1) text) (0 ∷ []), length-take (room - 1) text)

abbrev pub appended : Writer → List ℕ → Writer
appended w text = record w {
  write_buf = splice w.write_idx (text ++ 0 ∷ []) w.write_buf;
  write_idx = w.write_idx + length text;
}

module _ (w : Writer) (text : List ℕ) where
  pub add_response-fits :
      w.write_idx + length text < write_buffer_size - 1
      → add_response w text ≡ (true, appended w text)
  unfolding add_response
  add_response-fits fits = ground (arith, printed-fits (write_buffer_size - 1 - w.write_idx) text)

  pub written-appended :
      IsRoomy w
      → w.write_idx + length text < write_buffer_size - 1
      → written (appended w text) ≡ written w ++ text
  written-appended r fits =
      take-splice w.write_idx (w.write_idx + length text) text (0 ∷ []) w.write_buf refl
        (omega (arith, r.size))

  pub appended-IsRoomy :
      IsRoomy w → w.write_idx + length text < write_buffer_size - 1 → IsRoomy (appended w text)
  appended-IsRoomy r fits = record {
    size = length-splice w.write_idx (text ++ 0 ∷ []) w.write_buf ∙ r.size;
    below = omega arith;
  }

-- On a buffer of its size with the index inside, every call keeps the size and leaves the index
-- inside, and the call either appends exactly the text or reports false, keeps the text that was
-- there and appends nothing.
pub add_response_lem :
    (w : Writer) (text : List ℕ)
    → IsRoomy w
    → IsRoomy (add_response w text).1
      × (((add_response w text).0 ≡ true)
            × (written (add_response w text).1 ≡ written w ++ text)
            × (w.write_idx + length text < write_buffer_size - 1)
          ⊎ ((add_response w text).0 ≡ false)
            × (written (add_response w text).1 ≡ written w)
            × (write_buffer_size - 1 ≤ w.write_idx + length text))
unfolding add_response
add_response_lem w text r =
    elim (Bool-cases (leb (write_buffer_size - 1) (w.write_idx + length text))) [
      | inl full ↦
          let room = write_buffer_size - 1 - w.write_idx in
          ground (
            arith,
            length-splice w.write_idx (printed room text) w.write_buf,
            take-splice_before w.write_idx w.write_idx (printed room text) w.write_buf,
          )
      | inr free ↦
          ground
            (arith, add_response-fits w text, written-appended w text r, appended-IsRoomy w text r)
    ]

-- `w` is `start` with another text in its buffer.
pub record Holds (start w : Writer) (text : List ℕ) : Type 0 where
  pub roomy : IsRoomy w
  pub holds : written w ≡ text
  pub same : w ≡ record start { write_buf = w.write_buf; write_idx = w.write_idx }

pub Holds-add_response :
    {start w : Writer} {t : List ℕ} (s : List ℕ)
    → Holds start w t
    → length (t ++ s) < write_buffer_size - 1
    → ((add_response w s).0 ≡ true) × Holds start (add_response w s).1 (t ++ s)
Holds-add_response {start} {w} {t} s h fits =
    let idx : length t ≡ w.write_idx = ap length (sym h.holds) ∙ length-written w h.roomy in
    let short : w.write_idx + length s < write_buffer_size - 1 = omega (arith, length-append t s) in
    rw (add_response-fits w s short) (
      refl,
      record {
        roomy = appended-IsRoomy w s h.roomy short;
        holds = written-appended w s h.roomy short ∙ ap (λ l. l ++ s) h.holds;
        same = ap (λ v. appended v s) h.same;
      },
    )
