-- ===== src/Http/Response/Whole.antt =====
-- Every answer of `write_to_buffer_` as the bytes that the iovecs cover.
use linux_image_server.Base.{
  ℕ, ◌+◌, ◌-◌, ◌<◌, ◌≡◌, refl, sym, ap, subst, ◌∙◌, Bool, true, false, some, List, ◌++◌, arith,
  length, take, le→leb, if◌then◌else◌, inl, inr, Bool-cases, ◌==◌, ==_iff,
}
use linux_image_server.CString.{codes}
use linux_image_server.CString.Decimal.{pos, print_int, int_of_bits}
use linux_image_server.CString.Decimal.RoundTrip.{int_of_bits-pos}
use linux_image_server.Http.Types.{
  HttpState, error_format, error_accessfailed, error_filenotfound, internal_error,
  write_buffer_size,
}
use linux_image_server.Http.Response.{
  Writer, add_int, in_write_buf, status_text, length_text, linger_text, text_answer,
  write_to_buffer, write_head_iov, init_writer,
}
use linux_image_server.Http.Response.Append.{written, IsRoomy, Holds, length-written}
use linux_image_server.Http.Response.Bytes.{head_text, text_answer-Holds}
use linux_image_server.Http.Send.{gather, gather_count, iov_bytes, append_bytes}

-- The answers that the server gives to a request that it does not serve, byte by byte.
pub data Refused : HttpState → Type 0 where
  malformed : Refused error_format
  forbidden : Refused error_accessfailed
  missing : Refused error_filenotfound
  internal : Refused internal_error

abbrev pub connection : Bool → List ℕ
connection linger =
    codes "Connection:"
    ++ (if linger then codes "keep-alive" else codes "close")
    ++ codes "\r\n\r\n"

abbrev pub refusal_head : {st : HttpState} → Refused st → List ℕ
refusal_head malformed = codes "HTTP/1.1 400 Bad Request\r\nContent-Length:68\r\n"
refusal_head forbidden = codes "HTTP/1.1 403 Forbidden\r\nContent-Length:57\r\n"
refusal_head missing = codes "HTTP/1.1 404 Not Found\r\nContent-Length:49\r\n"
refusal_head internal = codes "HTTP/1.1 500 Internal Error\r\nContent-Length:55\r\n"

abbrev pub refusal_body : {st : HttpState} → Refused st → List ℕ
refusal_body malformed =
    codes "Your request has bad syntax or is inherently impossible to staisfy.\n"
refusal_body forbidden = codes "You do not have permission to get file form this server.\n"
refusal_body missing = codes "The requested file was not found on this server.\n"
refusal_body internal = codes "There was an unusual problem serving the request file.\n"

abbrev pub refusal : {st : HttpState} → Refused st → Bool → List ℕ
refusal r linger = refusal_head r ++ connection linger ++ refusal_body r

pub gather-one : (w : Writer) → w.iv_count ≡ 1 → gather w ≡ iov_bytes w w.iv0
unfolding gather
gather-one w e = ap (gather_count w) e

pub gather-two :
    (w : Writer) → w.iv_count ≡ 2 → gather w ≡ append_bytes (iov_bytes w w.iv0) (iov_bytes w w.iv1)
unfolding gather
gather-two w e = ap (gather_count w) e

-- The first iovec covers what the buffer holds.
pub iov_bytes-head :
    (w : Writer)
    → IsRoomy w
    → iov_bytes w (record { base = in_write_buf (pos 0); len = w.write_idx }) ≡ some (written w)
unfolding iov_bytes
iov_bytes-head w r = elim (Bool-cases (w.write_idx == 0)) [
  | inl z ↦ rw z (ap (λ n. some (take n w.write_buf)) (sym ((==_iff w.write_idx 0).0 z)))
  | inr nz ↦ rw nz (rw (le→leb (0 + w.write_idx) (length w.write_buf) (omega (arith, r.size))))
]

gather-head :
    {start w : Writer} {t : List ℕ}
    → Holds start w t
    → start.iv_count ≡ 0
    → gather (write_head_iov w) ≡ some t
unfolding write_head_iov
gather-head {start} {w} {t} h zero_count =
    gather-one (write_head_iov w) (omega (arith, ap (λ v. v.iv_count) h.same))
    ∙ iov_bytes-head (write_head_iov w) (record { size = h.roomy.size; below = h.roomy.below })
    ∙ ap some h.holds

abbrev status_of : {st : HttpState} → Refused st → ℕ
status_of malformed = 400
status_of forbidden = 403
status_of missing = 404
status_of internal = 500

abbrev title_of : {st : HttpState} → Refused st → List ℕ
title_of malformed = codes "Bad Request"
title_of forbidden = codes "Forbidden"
title_of missing = codes "Not Found"
title_of internal = codes "Internal Error"

abbrev made : {st : HttpState} → Refused st → Bool → List ℕ
made r linger =
    head_text (pos (status_of r)) (title_of r) (pos (length (refusal_body r))) linger
    ++ refusal_body r

made-eq-refusal :
    {st : HttpState} (r : Refused st) (linger : Bool) → made r linger ≡ refusal r linger
unfolding status_text length_text linger_text print_int
made-eq-refusal malformed true = refl
made-eq-refusal malformed false = refl
made-eq-refusal forbidden true = refl
made-eq-refusal forbidden false = refl
made-eq-refusal missing true = refl
made-eq-refusal missing false = refl
made-eq-refusal internal true = refl
made-eq-refusal internal false = refl

refusal-length :
    {st : HttpState} (r : Refused st) (linger : Bool)
    → length (refusal r linger) < write_buffer_size - 1
refusal-length malformed true = omega arith
refusal-length malformed false = omega arith
refusal-length forbidden true = omega arith
refusal-length forbidden false = omega arith
refusal-length missing true = omega arith
refusal-length missing false = omega arith
refusal-length internal true = omega arith
refusal-length internal false = omega arith

write_to_buffer-text :
    {st : HttpState} (r : Refused st) (start : Writer)
    → write_to_buffer st start ≡ text_answer (pos (status_of r)) (title_of r) (refusal_body r) start
unfolding write_to_buffer
write_to_buffer-text malformed start = refl
write_to_buffer-text forbidden start = refl
write_to_buffer-text missing start = refl
write_to_buffer-text internal start = refl

-- A writer as `init_` leaves it, with no iovec counted.
pub record IsFresh (w : Writer) : Type 0 where
  pub roomy : IsRoomy w
  pub empty : w.write_idx ≡ 0
  pub none_counted : w.iv_count ≡ 0
  pub none_sent : w.bytes_have_send ≡ 0
  pub none_left : w.bytes_to_send ≡ pos 0

-- What `write_to_fd_` is to send: the iovecs cover exactly the text, and it is counted.
pub record IsReady (w : Writer) (text : List ℕ) : Type 0 where
  pub covers : gather w ≡ some text
  pub to_send : w.bytes_to_send ≡ pos (length text)
  pub none_sent : w.bytes_have_send ≡ 0

head-IsReady :
    {start w : Writer} {t : List ℕ} → Holds start w t → IsFresh start → IsReady (write_head_iov w) t
unfolding write_head_iov
head-IsReady {start} {w} {t} h f = record {
  covers = gather-head h f.none_counted;
  to_send =
      ap (λ z. add_int z w.write_idx) (ap (λ v. v.bytes_to_send) h.same ∙ f.none_left)
      ∙ ap int_of_bits (omega (arith, length-written w h.roomy, ap length h.holds))
      ∙ int_of_bits-pos (length t)
          (omega (arith, h.roomy.below, length-written w h.roomy, ap length h.holds));
  none_sent = ap (λ v. v.bytes_have_send) h.same ∙ f.none_sent;
}

-- On a fresh writer each error state is answered by exactly its status line, a Content-Length that
-- is the length of the message, the connection header and the message, ready to be sent.
pub write_to_buffer-refusal :
    {st : HttpState} (r : Refused st) (start : Writer)
    → IsFresh start
    → (w : Writer) × (write_to_buffer st start ≡ (true, w))
      × IsReady w (refusal r start.linger)
      × (w.linger ≡ start.linger)
unfolding write_head_iov
write_to_buffer-refusal r start f =
    let eq = made-eq-refusal r start.linger in
    let (w, h, e) =
      text_answer-Holds (pos (status_of r)) (title_of r) (refusal_body r) f.roomy f.empty
        (rw eq (refusal-length r start.linger)) in
    (
      write_head_iov w,
      write_to_buffer-text r start ∙ e,
      subst (IsReady (write_head_iov w)) eq (head-IsReady h f),
      ap (λ v. v.linger) h.same,
    )

-- An answer after `init_` adds one to m_iv_count, which `init_` does not reset.
pub write_to_buffer-counts :
    {st : HttpState} (r : Refused st) (before : Writer)
    → (w : Writer) × (write_to_buffer st (init_writer before) ≡ (true, w))
      × (w.iv_count ≡ before.iv_count + 1)
unfolding write_head_iov init_writer
write_to_buffer-counts r before =
    let start = init_writer before in
    let (w, h, e) =
      text_answer-Holds {start = start} (pos (status_of r)) (title_of r) (refusal_body r)
        (record { size = refl; below = omega arith }) refl
        (rw (made-eq-refusal r true) (refusal-length r true)) in
    (write_head_iov w, write_to_buffer-text r start ∙ e, ap (λ v. v.iv_count + 1) h.same)
