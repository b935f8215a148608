-- ===== src/Ssl.antt =====
-- `SSL_writev` of src/ssl/ssl.cpp: the iovecs copied into one buffer for SSL_write.
pub mod Gather
mod Tests
use linux_image_server.Base.{
  ℕ, zero, suc, ◌+◌, ◌-◌, ◌%◌, ◌^◌, Bool, true, false, Option, none, some, List, [], ◌∷◌, ◌++◌, leb,
  ◌==◌, if◌then◌else◌,
}
use linux_image_server.CString.Decimal.{ℤ, int_of_bits}
use linux_image_server.Http.Response.{Writer, Iov}
use linux_image_server.Http.Send.{base_bytes, append_bytes}

-- `min_`.
abbrev pub min_ : ℕ → ℕ → ℕ
min_ a b = if leb a b then a else b

-- `bytes`, a size_t.
unfoldable pub total_len : List Iov → ℕ
total_len [] = 0
total_len (v ∷ vs) = (v.len + total_len vs) % 2 ^ 64

-- What memcpy copies; of no bytes it reads nothing.
unfoldable pub copied : Writer → Iov → ℕ → Option (List ℕ)
unfolding base_bytes
copied w v n = if n == 0 then some [] else base_bytes w v.base n

-- The second loop, which stops when nothing is left to copy; the result is what it has put in the
-- buffer, and `none` a read outside the memory that an iovec points into.
unfoldable pub copy_loop : Writer → List Iov → ℕ → Option (List ℕ)
unfolding copied append_bytes
copy_loop w [] to_copy = some []
copy_loop w (v ∷ vs) to_copy =
    let copy = min_ v.len to_copy in
    let rest = append_bytes (copied w v copy) (copy_loop w vs (to_copy - copy)) in
    if (to_copy - copy) == 0 then copied w v copy else rest

-- A buffer with the length that goes with it.
unfoldable pub with_length : ℤ → Option (List ℕ) → Option (List ℕ × ℤ)
with_length n none = none
with_length n (some bytes) = some (bytes, n)

-- The buffer and the length that SSL_write is given; the length is an int. alloca gives the buffer.
unfoldable pub ssl_writev : Writer → List Iov → Option (List ℕ × ℤ)
unfolding total_len copy_loop int_of_bits with_length
ssl_writev w vs = with_length (int_of_bits (total_len vs)) (copy_loop w vs (total_len vs))
