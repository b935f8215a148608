-- ===== src/Log/Rotate.antt =====
-- The file that a line of a day belongs to, and the rotation that opens it.
use native.Mathlib.Nat.{div-add-mod, le-div_iff_mul-le, div-lt_iff_lt-mul, mod-lt, mod-eq_of_lt}
use linux_image_server.Base.{
  ℕ, zero, suc, ◌+◌, ◌*◌, ◌/◌, ◌%◌, ◌≤◌, ◌<◌, ◌≡◌, ◌≢◌, refl, sym, ap, ◌∙◌, arith, true, false,
  some, List, [], ◌∷◌, ◌++◌, length, ◌==◌, ==_iff, Bool-cases, inl, inr, dec_lt,
}
use linux_image_server.CString.Laws.{NoNul}
use linux_image_server.Log.{
  Now, Log, text_of, day_name, part_name, date_text, prefix, reopen, rotate, put_line, send_line,
  write_log,
}
use linux_image_server.Log.Lines.{line_of, format_line-made}

-- Counting one line further does not change the quotient but at a multiple.
div_next : (c s : ℕ) → 0 < s → (c + 1) % s ≢ 0 → (c + 1) / s ≡ c / s
div_next c s pos ne =
    let split = div-add-mod (c + 1) s in
    let low =
      (le-div_iff_mul-le {k = s} {x = (c + 1) / s} {y = c} pos).1 (omega (arith, split, ne)) in
    let high =
      (div-lt_iff_lt-mul {k = s} {x = c} {y = (c + 1) / s + 1} pos).1
        (omega (arith, split, mod-lt (c + 1) pos)) in
    omega (arith, low, high)

div_multiple : (c s : ℕ) → 0 < s → (c + 1) % s ≡ 0 → 0 < (c + 1) / s
div_multiple c s pos e =
    (le-div_iff_mul-le {k = s} {x = 1} {y = c + 1} pos).1 (by_size (dec_lt (c + 1) s))
  where
    by_size : Dec (c + 1 < s) → 1 * s ≤ c + 1
    by_size (yes p) = absurd (omega (arith, e, mod-eq_of_lt p))
    by_size (no p) = omega arith

-- A message, and when and how it is logged.
pub record Entry : Type 0 where
  pub now : Now
  pub level : ℕ
  pub text : List ℕ

pub record SameDay (t u : Now) : Type 0 where
  pub year : t.year ≡ u.year
  pub mon : t.mon ≡ u.mon
  pub mday : t.mday ≡ u.mday

abbrev pub entry_line : Entry → List ℕ
entry_line e = line_of (prefix e.now e.level) e.text

-- The file number `k` of the day of `t`.
unfoldable pub nth_name : List ℕ → List ℕ → Now → ℕ → List ℕ
unfolding day_name part_name
nth_name dir name t zero = day_name dir name t
nth_name dir name t (suc k) = part_name dir name t (suc k)

-- The line fits in the buffer.
pub record Fits (size : ℕ) (e : Entry) : Type 0 where
  pub head : length (prefix e.now e.level) < 48
  pub room : length (prefix e.now e.level) + length e.text + 2 ≤ size
  pub clean : NoNul e.text

-- A log that writes directly, with its names set.
pub record IsDirect (dir name : List ℕ) (l : Log) : Type 0 where
  pub direct : l.is_async ≡ false
  pub split : 0 < l.split_lines
  pub dir_text : text_of l.dir_name ≡ some dir
  pub name_text : text_of l.log_name ≡ some name

-- In the midst of the day of `t`, with the file open that the count of lines asks for.
pub record IsDay (dir name : List ℕ) (t : Now) (l : Log) : Type 0 where
  pub set : IsDirect dir name l
  pub day : l.today ≡ t.mday
  pub current : l.file ≡ some (nth_name dir name t (l.count / l.split_lines))

nth_name-part :
    (dir name : List ℕ) (t : Now) (k : ℕ) → 0 < k → nth_name dir name t k ≡ part_name dir name t k
unfolding nth_name
nth_name-part dir name t zero pos = absurd (omega arith)
nth_name-part dir name t (suc k) pos = refl

date_text-SameDay : (t u : Now) → SameDay t u → date_text t ≡ date_text u
date_text-SameDay t u d = rw d.year (rw d.mon (rw d.mday refl))

part_name-SameDay :
    (dir name : List ℕ) (k : ℕ) (t u : Now)
    → SameDay t u
    → part_name dir name t k ≡ part_name dir name u k
unfolding part_name
part_name-SameDay dir name k t u d = rw (date_text-SameDay t u d) refl

day_name-SameDay :
    (dir name : List ℕ) (t u : Now) → SameDay t u → day_name dir name t ≡ day_name dir name u
unfolding day_name
day_name-SameDay dir name t u d = rw (date_text-SameDay t u d) refl

-- The log once it has counted a line of the day.
abbrev pub counted : List ℕ → List ℕ → Now → Log → Log
counted dir name t l = record l {
  count = l.count + 1;
  file = some (nth_name dir name t ((l.count + 1) / l.split_lines));
}

pub not_== : (a b : ℕ) → a ≢ b → (a == b) ≡ false
not_== a b ne = ground (arith, ne)

pub rotate-IsDay :
    (dir name : List ℕ) (t u : Now) (l : Log)
    → IsDay dir name t l
    → SameDay t u
    → rotate u true l ≡ some (counted dir name t l)
unfolding rotate reopen
rotate-IsDay dir name t u l d same =
    let today : (l.today == u.mday) ≡ true = (==_iff l.today u.mday).1 (d.day ∙ same.mday) in
    let some_split : (l.split_lines == 0) ≡ false =
      not_== l.split_lines 0 (λ e. omega (arith, d.set.split, e)) in
    rw today (
      rw some_split (elim (Bool-cases ((l.count + 1) % l.split_lines == 0)) [
        | inl z ↦ rw z (
            rw d.current (
              rw d.set.dir_text (
                rw d.set.name_text (
                  ap (λ f. some (record l { count = l.count + 1; file = some f }))
                    (sym (part_name-SameDay dir name ((l.count + 1) / l.split_lines) t u same)
                      ∙ sym (
                          nth_name-part dir name t _ (
                            div_multiple l.count l.split_lines d.set.split ((==_iff _ 0).0 z))))))))
        | inr nz ↦ rw nz (
            ap (λ f. some (record l { count = l.count + 1; file = f }))
              (d.current
                ∙ ap (λ k. some (nth_name dir name t k))
                    (sym
                      (div_next l.count l.split_lines d.set.split (λ e. ground (arith, nz, e))))))
      ]))

-- The log once it has opened the first file of another day.
abbrev pub started : List ℕ → List ℕ → Now → Log → Log
started dir name u l = record l { count = 0; today = u.mday; file = some (nth_name dir name u 0) }

pub rotate_next_day :
    (dir name old : List ℕ) (u : Now) (l : Log)
    → IsDirect dir name l
    → l.today ≢ u.mday
    → l.file ≡ some old
    → rotate u true l ≡ some (started dir name u l)
unfolding rotate reopen nth_name
rotate_next_day dir name old u l set other has =
    rw (not_== l.today u.mday other) (rw has (rw set.dir_text (rw set.name_text refl)))

-- What follows the rotation.
pub write_log_rotated :
    (size : ℕ) (e : Entry) (f : List ℕ) (l l1 : Log)
    → rotate e.now true l ≡ some l1
    → l1.is_async ≡ false
    → l1.file ≡ some f
    → length l1.buf ≡ size
    → Fits size e
    → (b : List ℕ) × ((length b ≡ size)
        × (write_log e.now true e.level e.text l
            ≡ some (record l1 { buf = b; lines = l1.lines ++ (f, entry_line e) ∷ [] })))
unfolding write_log send_line put_line
write_log_rotated size e f l l1 rotated direct has sized fits =
    let (b, (r, (line, same))) =
      format_line-made e.now e.level e.text l1.buf fits.head fits.clean
        (omega (arith, fits.room, sized)) in
    (b, (same ∙ sized, rw rotated (rw r (rw direct (rw has (rw line refl))))))
