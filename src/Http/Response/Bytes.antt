-- ===== src/Http/Response/Bytes.antt =====
-- The bytes of a whole answer of `write_to_buffer_`.
use linux_image_server.Base.{
  ℕ, ◌-◌, ◌<◌, ◌≡◌, refl, sym, ap, subst, Bool, true, List, [], ◌++◌, arith, length, length-append,
}
use linux_image_server.CString.{codes}
use linux_image_server.CString.Decimal.{ℤ, pos}
use linux_image_server.Http.Types.{write_buffer_size}
use linux_image_server.Http.Response.{
  Writer, add_response, status_text, length_text, linger_text, add_status, add_content_length,
  add_linger, add_clrf, add_content, add_headers, text_answer, write_head_iov, finish_write,
}
use linux_image_server.Http.Response.Append.{IsRoomy, Holds, Holds-add_response}

-- The status line, the two headers and the empty line.
abbrev pub head_text : ℤ → List ℕ → ℤ → Bool → List ℕ
head_text status title n linger =
    ((status_text status title ++ length_text n) ++ linger_text linger) ++ codes "\r\n"

Holds-add_linger :
    {start w : Writer} {t : List ℕ}
    → Holds start w t
    → length (t ++ linger_text start.linger) < write_buffer_size - 1
    → Holds start (add_linger w).1 (t ++ linger_text start.linger)
unfolding add_linger
Holds-add_linger {start} {w} {t} h fits =
    subst (λ l. Holds start (add_response w (linger_text l)).1 (t ++ linger_text start.linger))
      (sym (ap (λ v. v.linger) h.same)) (Holds-add_response (linger_text start.linger) h fits).1

module _ {start : Writer} (r : IsRoomy start) (empty : start.write_idx ≡ 0) where
  start-Holds : Holds start start []
  start-Holds = record { roomy = r; holds = rw empty; same = refl }

  pub headed-Holds :
      (status : ℤ) (title : List ℕ) (n : ℤ)
      → length (head_text status title n start.linger) < write_buffer_size - 1
      → Holds start
          (add_headers (add_status start status title).1 n).1
          (head_text status title n start.linger)
  unfolding add_headers add_status add_content_length add_clrf
  headed-Holds status title n fits =
      let a = status_text status title in
      let b = length_text n in
      let c = linger_text start.linger in
      let d = codes "\r\n" in
      let e1 = length-append ((a ++ b) ++ c) d in
      let e2 = length-append (a ++ b) c in
      let h1 = Holds-add_response a start-Holds (omega (arith, e1, e2, length-append a b)) in
      let h2 = Holds-add_response b h1.1 (omega (arith, e1, e2)) in
      (Holds-add_response d (Holds-add_linger h2.1 (omega (arith, e1))) fits).1

-- An answer that fits is written whole, `m_iv[0]` covers exactly it, `m_iv_count` goes up by one,
-- and the number of bytes to send goes up by its length.
pub text_answer-Holds :
    {start : Writer} (status : ℤ) (title form : List ℕ)
    → IsRoomy start
    → start.write_idx ≡ 0
    → length (head_text status title (pos (length form)) start.linger ++ form)
      < write_buffer_size - 1
    → (w : Writer) × Holds start w (head_text status title (pos (length form)) start.linger ++ form)
      × (text_answer status title form start ≡ (true, write_head_iov w))
unfolding text_answer add_content finish_write
text_answer-Holds {start} status title form r empty fits =
    let h = head_text status title (pos (length form)) start.linger in
    let headed =
      headed-Holds r empty status title (pos (length form)) (omega (arith, length-append h form)) in
    let w =
      (add_response (add_headers (add_status start status title).1 (pos (length form))).1 form).1 in
    let (done, all) = Holds-add_response form headed fits in
    (w, all, ap (λ b. finish_write (b, w)) done)
