-- ===== src/Http/Send.antt =====
-- `write_to_fd_` of src/http/http_conn.cpp: the loop that hands the two iovecs to the socket. What
-- each call of writev (or of SSL_writev, which gathers the same bytes) returns is an event.
pub mod Complete
pub mod Partial
use linux_image_server.Base.{
  ℕ, zero, suc, ◌+◌, ◌-◌, ◌^◌, Bool, true, false, Option, none, some, List, [], ◌∷◌, ◌++◌, leb,
  ◌==◌, if◌then◌else◌, length, take, drop,
}
use linux_image_server.CString.Decimal.{ℤ, pos, negsuc}
use linux_image_server.Http.Response.{
  init_writer, Writer, Iov, IovBase, in_write_buf, in_file, wild, add_int,
}

-- The bytes of an array from an offset on; `none` is a read outside it.
unfoldable pub slice : List ℕ → ℤ → ℕ → Option (List ℕ)
slice mem (pos off) n = if leb (off + n) (length mem) then some (take n (drop off mem)) else none
slice mem (negsuc off) n = none

unfoldable pub base_bytes : Writer → IovBase → ℕ → Option (List ℕ)
unfolding slice
base_bytes w (in_write_buf off) n = slice w.write_buf off n
base_bytes w (in_file off) n = elim w.file [ none ↦ none | some mem ↦ slice mem off n ]
base_bytes w wild n = none

unfoldable pub iov_bytes : Writer → Iov → Option (List ℕ)
unfolding base_bytes
iov_bytes w v = if v.len == 0 then some [] else base_bytes w v.base v.len

unfoldable pub append_bytes : Option (List ℕ) → Option (List ℕ) → Option (List ℕ)
append_bytes (some a) (some b) = some (a ++ b)
append_bytes _ _ = none

-- What writev(fd, m_iv, m_iv_count) would send; m_iv has two entries.
unfoldable pub gather_count : Writer → ℕ → Option (List ℕ)
unfolding iov_bytes append_bytes
gather_count w zero = some []
gather_count w (suc zero) = iov_bytes w w.iv0
gather_count w (suc (suc zero)) = append_bytes (iov_bytes w w.iv0) (iov_bytes w w.iv1)
gather_count w (suc (suc (suc n))) = none

unfoldable pub gather : Writer → Option (List ℕ)
unfolding gather_count
gather w = gather_count w w.iv_count

pub data Event : Type 0 where
  -- So many bytes were taken; `temp` holds the number, since writev and SSL_write take at most
  -- 0x7ffff000 and 2^31 - 1 bytes.
  took : ℕ → Event
  -- -1 with errno EAGAIN.
  again : Event
  -- -1 with another errno.
  failed : Event

-- How the loop leaves the handler; the list is what the peer has received.
pub data Sent : Type 0 where
  -- All was sent, and `init_` has reset the fields or `close` is called.
  lingers closes : Writer → List ℕ → Sent
  -- A write failed, and `close` is called.
  broken : Writer → List ℕ → Sent
  -- The events are used up inside the loop.
  sending : Writer → List ℕ → Sent
  -- writev reads memory that is not the handler's.
  fault : Sent

unfoldable pub unmap : Writer → Writer
unmap w = record w { file = none }

abbrev pub sub_ℕ : ℕ → ℕ → ℤ
sub_ℕ a b = if leb b a then pos (a - b) else negsuc (b - a - 1)

-- z - n.
abbrev pub sub_int : ℤ → ℕ → ℤ
sub_int (pos a) n = sub_ℕ a n
sub_int (negsuc a) n = negsuc (a + n)

abbrev pub not_positive : ℤ → Bool
not_positive (pos n) = n == 0
not_positive (negsuc n) = true

-- An int assigned to a size_t.
unfoldable pub size_of_int : ℤ → ℕ
size_of_int (pos n) = n
size_of_int (negsuc n) = 2 ^ 64 - suc n

-- The bookkeeping on EAGAIN; `newadd` is the local variable of the loop.
unfoldable pub on_again : Writer → ℤ → Writer
unfolding size_of_int
on_again w newadd =
    if leb w.iv0.len w.bytes_have_send
    then record w {
      iv0 = record { base = w.iv0.base; len = 0 };
      iv1 = record { base = in_file newadd; len = size_of_int w.bytes_to_send };
    }
    else record w {
      iv0 = record { base = in_write_buf w.bytes_to_send; len = w.iv0.len - w.bytes_have_send };
    }

unfoldable pub finish_send : Writer → List ℕ → Sent
unfolding unmap init_writer
finish_send w sent =
    if w.linger then lingers (init_writer (unmap w)) sent else closes (unmap w) sent

unfoldable pub after_took : (Writer → ℤ → List ℕ → Sent) → ℕ → Writer → ℤ → List ℕ → List ℕ → Sent
unfolding finish_send
after_took continue zero w newadd sent bytes = continue w newadd sent
after_took continue (suc n) w newadd sent bytes =
    let have = w.bytes_have_send + suc n in
    let left = sub_int w.bytes_to_send (suc n) in
    let w' = record w { bytes_have_send = have; bytes_to_send = left } in
    let sent' = sent ++ take (suc n) bytes in
    if not_positive left then finish_send w' sent' else continue w' (sub_ℕ have w.write_idx) sent'

unfoldable pub send_step : (Writer → ℤ → List ℕ → Sent) → Event → Writer → ℤ → List ℕ → Sent
unfolding after_took on_again
send_step continue (took n) w newadd sent = elim (gather w) [
  | none ↦ fault
  | some bytes ↦ after_took continue n w newadd sent bytes
]
send_step continue again w newadd sent = continue (on_again w newadd) newadd sent
send_step continue failed w newadd sent = broken w sent

unfoldable pub send_loop : List Event → Writer → ℤ → List ℕ → Sent
unfolding send_step
send_loop [] w newadd sent = sending w sent
send_loop (e ∷ es) w newadd sent = send_step (send_loop es) e w newadd sent

unfoldable pub write_to_fd : List Event → Writer → Sent
unfolding send_loop
write_to_fd es w = send_loop es w (pos 0) []
