-- ===== src/Http/Send/Partial.antt =====
-- `write_to_fd_` when the socket does not take everything at once, and on a handler whose
-- m_iv_count is left from earlier answers.
use linux_image_server.Base.{
  ℕ, zero, suc, ◌+◌, ◌≤◌, ◌<◌, ◌≡◌, refl, sym, ap, subst, ◌∙◌, true, false, some, none, List, [],
  ◌∷◌, ◌++◌, arith, length, take, drop, take-take, le→leb,
}
use linux_image_server.CString.Decimal.{ℤ, pos}
use linux_image_server.Http.Types.{HttpState}
use linux_image_server.Http.Response.{Writer, in_write_buf, write_to_buffer, init_writer}
use linux_image_server.Http.Response.Whole.{IsReady, Refused, gather-one, write_to_buffer-counts}
use linux_image_server.Http.Send.{
  gather, gather_count, iov_bytes, Event, took, again, fault, sub_ℕ, sub_int, not_positive,
  after_took, on_again, send_step, send_loop, write_to_fd,
}
use linux_image_server.Http.Send.Complete.{
  Done, noted, send_loop-last, finish_send-Done, sub_int-all,
}

send_loop-more :
    (w : Writer) (bytes : List ℕ) (n : ℕ) (later : List Event) (newadd : ℤ) (sent : List ℕ)
    → gather w ≡ some bytes
    → not_positive (sub_int w.bytes_to_send (suc n)) ≡ false
    → send_loop (took (suc n) ∷ later) w newadd sent
      ≡ send_loop later
          (noted w (suc n))
          (sub_ℕ (w.bytes_have_send + suc n) w.write_idx)
          (sent ++ take (suc n) bytes)
unfolding send_loop send_step after_took
send_loop-more w bytes n later newadd sent e h = rw (e, send_loop, send_step) (rw (h, after_took))

gather_count-none : (w : Writer) (c : ℕ) → 3 ≤ c → gather_count w c ≡ none
unfolding gather_count
gather_count-none w zero h = absurd (omega arith)
gather_count-none w (suc zero) h = absurd (omega arith)
gather_count-none w (suc (suc zero)) h = absurd (omega arith)
gather_count-none w (suc (suc (suc c))) h = refl

gather-none : (w : Writer) → 3 ≤ w.iv_count → gather w ≡ none
unfolding gather
gather-none w h = gather_count-none w w.iv_count h

counted-fault :
    (w : Writer) (n : ℕ) (later : List Event)
    → 3 ≤ w.iv_count
    → write_to_fd (took n ∷ later) w ≡ fault
unfolding write_to_fd send_loop send_step
counted-fault w n later h = rw (gather-none w h, send_loop, send_step)

-- The iovecs do not change with the counters.
gather_count-noted : (w : Writer) (n c : ℕ) → gather_count (noted w n) c ≡ gather_count w c
unfolding gather_count
gather_count-noted w n c = ground arith

gather-noted : (w : Writer) (n : ℕ) → gather (noted w n) ≡ gather w
unfolding gather
gather-noted w n = gather_count-noted w n w.iv_count

sub_int-short : (z : ℤ) (n k : ℕ) → z ≡ pos n → k < n → not_positive (sub_int z k) ≡ false
sub_int-short z n k e h = ap (λ y. not_positive (sub_int y k)) e ∙ go n h
  where
    go : (m : ℕ) → k < m → not_positive (sub_int (pos m) k) ≡ false
    go m lt = ground arith

sub_int-rest :
    (z : ℤ) (n k m : ℕ) → z ≡ pos n → n ≡ k + m → not_positive (sub_int (sub_int z k) m) ≡ true
sub_int-rest z n k m e s = ap (λ y. not_positive (sub_int (sub_int y k) m)) e ∙ go n s
  where
    go : (l : ℕ) → l ≡ k + m → not_positive (sub_int (sub_int (pos l) k) m) ≡ true
    go l eq = ground arith

-- A short write that is not followed by EAGAIN: the loop goes on with the same iovecs, so the
-- next call starts again at the first byte. After `k` and then the other `m` bytes the connection
-- ends as if all was sent, and the peer has the first `k` bytes and then the first `m` bytes.
pub short_write_resends :
    (w : Writer) (bytes : List ℕ) (k m : ℕ) (later : List Event)
    → IsReady w bytes
    → length bytes ≡ suc k + suc m
    → Done
        (write_to_fd (took (suc k) ∷ took (suc m) ∷ later) w)
        w.linger
        (take (suc k) bytes ++ take (suc m) bytes)
unfolding write_to_fd
short_write_resends w bytes k m later r e =
    let w1 = noted w (suc k) in
    let add1 = sub_ℕ (w.bytes_have_send + suc k) w.write_idx in
    let first =
      send_loop-more w bytes k (took (suc m) ∷ later) (pos 0) [] r.covers
        (sub_int-short w.bytes_to_send (length bytes) (suc k) r.to_send (omega arith)) in
    let second =
      send_loop-last w1 bytes m later add1 (take (suc k) bytes) (gather-noted w (suc k) ∙ r.covers)
        (sub_int-rest w.bytes_to_send (length bytes) (suc k) (suc m) r.to_send e) in
    subst (λ s. Done s w.linger (take (suc k) bytes ++ take (suc m) bytes)) (sym (first ∙ second))
      (finish_send-Done (noted w1 (suc m)) _ _ refl)

abbrev moved : Writer → ℕ → Writer
moved w n = record w { iv0 = record { base = in_write_buf (pos (suc n)); len = suc n } }

on_again-moved :
    (w : Writer) (n : ℕ)
    → w.iv0 ≡ record { base = in_write_buf (pos 0); len = suc n }
    → w.bytes_to_send ≡ pos (suc n)
    → w.bytes_have_send ≡ 0
    → on_again w (pos 0) ≡ moved w n
unfolding on_again
on_again-moved w n iv t h = ground arith

gather-moved :
    (w : Writer) (n : ℕ)
    → w.iv_count ≡ 1
    → suc n + suc n ≤ length w.write_buf
    → gather (moved w n) ≡ some (take (suc n) (drop (suc n) w.write_buf))
unfolding iov_bytes
gather-moved w n c fits =
    gather-one (moved w n) c ∙ ground (arith, le→leb (suc n + suc n) (length w.write_buf) fits)

-- For an answer in one iovec at the start of the write buffer, of which nothing is sent, and a
-- buffer of at least twice its length: EAGAIN before the first byte moves the iovec behind the
-- text, so a write that then takes all ends the connection with the peer having what stands
-- there, and none of the answer.
pub again_skips_answer :
    (w : Writer) (n : ℕ) (later : List Event)
    → w.iv0 ≡ record { base = in_write_buf (pos 0); len = suc n }
    → w.iv_count ≡ 1
    → w.bytes_to_send ≡ pos (suc n)
    → w.bytes_have_send ≡ 0
    → suc n + suc n ≤ length w.write_buf
    → Done
        (write_to_fd (again ∷ took (suc n) ∷ later) w)
        w.linger
        (take (suc n) (drop (suc n) w.write_buf))
unfolding write_to_fd send_loop send_step
again_skips_answer w n later iv c t h fits =
    let sent = take (suc n) (drop (suc n) w.write_buf) in
    let last =
      send_loop-last (moved w n) sent n later (pos 0) [] (gather-moved w n c fits)
        (sub_int-all w.bytes_to_send (suc n) t) in
    subst (λ s. Done s w.linger sent)
      (sym (
        ap (λ v. send_loop (took (suc n) ∷ later) v (pos 0) []) (on_again-moved w n iv t h) ∙ last))
      (finish_send-Done (noted (moved w n) (suc n)) _ sent
        (take-take (suc n) (drop (suc n) w.write_buf)))

-- After `init_` on a handler whose m_iv_count is at least 2, the next error answer is sent from
-- more iovecs than m_iv has, and its first write faults.
pub stale_count_faults :
    {st : HttpState} (r : Refused st) (before : Writer) (n : ℕ) (later : List Event)
    → 2 ≤ before.iv_count
    → write_to_fd (took n ∷ later) (write_to_buffer st (init_writer before)).1 ≡ fault
stale_count_faults {st} r before n later h =
    let (w, e, c) = write_to_buffer-counts r before in
    ap (λ q. write_to_fd (took n ∷ later) q.1) e ∙ counted-fault w n later (omega arith)
