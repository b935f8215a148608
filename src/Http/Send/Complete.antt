-- ===== src/Http/Send/Complete.antt =====
-- `write_to_fd_` when the socket takes everything at once: the peer receives exactly what the
-- iovecs cover.
use linux_image_server.Base.{
  ℕ, suc, ◌+◌, ◌<◌, ◌≤◌, ◌≡◌, refl, sym, ap, subst, ◌∙◌, Bool, true, false, some, none, List, [],
  ◌∷◌, ◌++◌, arith, length, take, take_of_length_le, inl, inr, Bool-cases,
}
use linux_image_server.CString.Decimal.{ℤ, pos}
use linux_image_server.Http.Types.{HttpState, finished_request}
use linux_image_server.Http.Response.{Writer, write_to_buffer}
use linux_image_server.Http.Response.Whole.{
  IsFresh, IsReady, Refused, malformed, forbidden, missing, internal, refusal,
  write_to_buffer-refusal,
}
use linux_image_server.Http.Response.File.{file_head, write_to_buffer-file}
use linux_image_server.Http.Send.{
  gather, Event, took, Sent, lingers, closes, unmap, sub_int, not_positive, after_took, send_step,
  send_loop, finish_send, write_to_fd,
}

-- How a connection ends that has received all: kept if m_linger is set, closed if not.
abbrev pub Done : Sent → Bool → List ℕ → Type 0
Done (lingers w sent) true bytes = (sent ≡ bytes) × (w.file ≡ none)
Done (closes w sent) false bytes = (sent ≡ bytes) × (w.file ≡ none)
Done _ linger bytes = ⊥

pub sub_int-all : (z : ℤ) (n : ℕ) → z ≡ pos n → not_positive (sub_int z n) ≡ true
sub_int-all z n e = ap (λ y. not_positive (sub_int y n)) e ∙ all n
  where
    all : (k : ℕ) → not_positive (sub_int (pos k) k) ≡ true
    all k = ground arith

pub finish_send-Done :
    (w : Writer) (out bytes : List ℕ) → out ≡ bytes → Done (finish_send w out) w.linger bytes
unfolding finish_send unmap
finish_send-Done w out bytes e = elim (Bool-cases w.linger) [
  | inl on ↦ rw on (e, refl)
  | inr off ↦ rw off (e, refl)
]

-- What the loop has noted after a call that took `n` bytes.
abbrev pub noted : Writer → ℕ → Writer
noted w n = record w {
  bytes_have_send = w.bytes_have_send + n;
  bytes_to_send = sub_int w.bytes_to_send n;
}

pub send_loop-last :
    (w : Writer) (bytes : List ℕ) (n : ℕ) (later : List Event) (newadd : ℤ) (sent : List ℕ)
    → gather w ≡ some bytes
    → not_positive (sub_int w.bytes_to_send (suc n)) ≡ true
    → send_loop (took (suc n) ∷ later) w newadd sent
      ≡ finish_send (noted w (suc n)) (sent ++ take (suc n) bytes)
unfolding send_loop send_step after_took
send_loop-last w bytes n later newadd sent e h = rw (e, send_loop, send_step) (rw (h, after_took))

-- One call that takes all the bytes ends the loop: the peer has exactly the text, in order, the
-- file is unmapped, and the connection is kept or closed as m_linger says.
pub write_to_fd-all :
    (w : Writer) (bytes : List ℕ) (later : List Event)
    → IsReady w bytes
    → 0 < length bytes
    → Done (write_to_fd (took (length bytes) ∷ later) w) w.linger bytes
unfolding write_to_fd
write_to_fd-all w [] later r h = absurd (omega arith)
write_to_fd-all w (b ∷ bs) later r h =
    let n = length bs in
    subst (λ s. Done s w.linger (b ∷ bs))
      (sym (
        send_loop-last w (b ∷ bs) n later (pos 0) [] r.covers
          (sub_int-all w.bytes_to_send (suc n) r.to_send)))
      (finish_send-Done (noted w (suc n)) (b ∷ take n bs) (b ∷ bs)
        (ap (◌∷◌ b) (take_of_length_le n bs (omega arith))))

refusal-pos : {st : HttpState} (r : Refused st) (linger : Bool) → 0 < length (refusal r linger)
refusal-pos malformed linger = omega arith
refusal-pos forbidden linger = omega arith
refusal-pos missing linger = omega arith
refusal-pos internal linger = omega arith

Done-written :
    {w : Writer} {linger : Bool} (bytes : List ℕ) (later : List Event) (p : Bool × Writer)
    → p ≡ (true, w)
    → IsReady w bytes
    → w.linger ≡ linger
    → 0 < length bytes
    → Done (write_to_fd (took (length bytes) ∷ later) p.1) linger bytes
Done-written {w} {linger} bytes later p e r l h =
    subst (λ q. Done (write_to_fd (took (length bytes) ∷ later) q.1) linger bytes) (sym e)
      (subst (λ b. Done (write_to_fd (took (length bytes) ∷ later) w) b bytes) l
        (write_to_fd-all w bytes later r h))

-- From a fresh writer each error state, when the socket takes all of it in the first write,
-- reaches the peer as exactly its answer: the status line, the headers with the length of the
-- message, and the message.
pub refusal_delivered :
    {st : HttpState} (r : Refused st) (start : Writer) (later : List Event)
    → IsFresh start
    → Done
        (write_to_fd (took (length (refusal r start.linger)) ∷ later) (write_to_buffer st start).1)
        start.linger
        (refusal r start.linger)
refusal_delivered {st} r start later f =
    let (w, e, ready, l) = write_to_buffer-refusal r start f in
    Done-written (refusal r start.linger) later (write_to_buffer st start) e ready l
      (refusal-pos r start.linger)

-- From a fresh writer with a mapped file of 1 byte or more, whose size is st_size and which makes at
-- most 0x7ffff000 bytes with its headers (the most that a writev takes), the answer reaches the peer as its headers and the file's bytes, when the socket takes all of it in
-- the first write.
pub file_delivered :
    (start : Writer) (content : List ℕ) (later : List Event)
    → IsFresh start
    → start.file ≡ some content
    → start.file_size ≡ length content
    → 0 < length content
    → length (file_head (length content) start.linger ++ content) ≤ 0x7ffff000
    → let bytes = file_head (length content) start.linger ++ content in
      Done
        (write_to_fd (took (length bytes) ∷ later) (write_to_buffer finished_request start).1)
        start.linger
        bytes
file_delivered start content later f mapped sized some_bytes small =
    let (w, e, ready, l) =
      write_to_buffer-file start content f mapped sized some_bytes (omega arith) in
    Done-written (file_head (length content) start.linger ++ content) later
      (write_to_buffer finished_request start) e ready l (omega arith)
