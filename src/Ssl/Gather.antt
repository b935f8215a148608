-- ===== src/Ssl/Gather.antt =====
-- `SSL_writev` against writev: the same bytes.
use linux_image_server.Base.{
  ℕ, zero, suc, ◌+◌, ◌-◌, ◌^◌, ◌≤◌, ◌<◌, ◌≡◌, refl, sym, ap, ap₂, ◌∙◌, inl, inr, Bool-cases, Option,
  none, some, List, [], ◌∷◌, append-nil, ◌==◌, ==_iff, arith,
}
use linux_image_server.Http.Response.{Writer, Iov}
use linux_image_server.Http.Send.{iov_bytes, append_bytes, gather_count}
use linux_image_server.CString.Decimal.{pos, int_of_bits}
use linux_image_server.CString.Decimal.RoundTrip.{int_of_bits-pos}
use linux_image_server.Ssl.{min_, total_len, copied, copy_loop, with_length, ssl_writev}

-- What writev sends of any number of iovecs, one after the other.
unfoldable pub gather_all : Writer → List Iov → Option (List ℕ)
unfolding iov_bytes append_bytes
gather_all w [] = some []
gather_all w (v ∷ vs) = append_bytes (iov_bytes w v) (gather_all w vs)

-- The sum of the lengths, with no bound.
unfoldable pub sum_len : List Iov → ℕ
sum_len [] = 0
sum_len (v ∷ vs) = v.len + sum_len vs

total_len-sum_len : (vs : List Iov) → sum_len vs < 2 ^ 64 → total_len vs ≡ sum_len vs
unfolding total_len sum_len
total_len-sum_len [] h = refl
total_len-sum_len (v ∷ vs) h = omega (arith, total_len-sum_len vs (omega arith))

append_bytes-nil : (o : Option (List ℕ)) → append_bytes o (some []) ≡ o
unfolding append_bytes
append_bytes-nil none = refl
append_bytes-nil (some a) = ap some (append-nil a)

gather_all-empty : (w : Writer) (vs : List Iov) → sum_len vs ≡ 0 → gather_all w vs ≡ some []
unfolding gather_all sum_len iov_bytes append_bytes
gather_all-empty w [] e = refl
gather_all-empty w (v ∷ vs) e =
    rw (gather_all-empty w vs (omega arith)) (rw ((==_iff v.len 0).1 (omega arith)) refl)

min_rest : (a b : ℕ) → min_ a (a + b) ≡ a
min_rest a b = ground arith

copied-iov_bytes : (w : Writer) (v : Iov) → copied w v v.len ≡ iov_bytes w v
unfolding copied iov_bytes
copied-iov_bytes w v = refl

copy_loop-gather_all : (w : Writer) (vs : List Iov) → copy_loop w vs (sum_len vs) ≡ gather_all w vs
unfolding copy_loop gather_all sum_len iov_bytes copied
copy_loop-gather_all w [] = refl
copy_loop-gather_all w (v ∷ vs) = rw (min_rest v.len (sum_len vs)) (
    rw (rest_len v.len (sum_len vs)) (elim (Bool-cases (sum_len vs == 0)) [
      | inl z ↦ rw z (
          sym (
            ap (append_bytes (iov_bytes w v)) (gather_all-empty w vs ((==_iff (sum_len vs) 0).0 z))
            ∙ append_bytes-nil (iov_bytes w v)))
      | inr nz ↦ rw nz (ap (append_bytes (iov_bytes w v)) (copy_loop-gather_all w vs))
    ]))
  where
    rest_len : (a b : ℕ) → a + b - a ≡ b
    rest_len a b = omega arith

-- For any number of iovecs whose lengths sum to less than 2^31, SSL_writev hands SSL_write exactly
-- the bytes that writev would send, with that sum, and reads outside a memory exactly where writev would.
pub ssl_writev-gather_all :
    (w : Writer) (vs : List Iov)
    → sum_len vs < 2 ^ 31
    → ssl_writev w vs ≡ with_length (pos (sum_len vs)) (gather_all w vs)
unfolding ssl_writev
ssl_writev-gather_all w vs h =
    ap (λ n. with_length (int_of_bits n) (copy_loop w vs n)) (total_len-sum_len vs (omega arith))
    ∙ ap₂ with_length (int_of_bits-pos (sum_len vs) h) (copy_loop-gather_all w vs)

-- The first iovecs of m_iv.
abbrev pub counted : Writer → ℕ → List Iov
counted w zero = []
counted w (suc zero) = w.iv0 ∷ []
counted w (suc (suc n)) = w.iv0 ∷ w.iv1 ∷ []

-- For an HTTPS client SSL_write is given the bytes that an HTTP client is sent, with the sum of their
-- iovecs' lengths, for every m_iv_count that m_iv has room for and lengths that sum to less than 2^31.
pub ssl_writev-gather_count :
    (w : Writer) (count : ℕ)
    → count ≤ 2
    → w.iv0.len + w.iv1.len < 2 ^ 31
    → ssl_writev w (counted w count)
      ≡ with_length (pos (sum_len (counted w count))) (gather_count w count)
unfolding gather_count gather_all sum_len
ssl_writev-gather_count w zero le h = ssl_writev-gather_all w [] (omega arith)
ssl_writev-gather_count w (suc zero) le h =
    ssl_writev-gather_all w (w.iv0 ∷ []) (omega arith)
    ∙ ap (with_length (pos (sum_len (w.iv0 ∷ [])))) (append_bytes-nil (iov_bytes w w.iv0))
ssl_writev-gather_count w (suc (suc zero)) le h =
    ssl_writev-gather_all w (w.iv0 ∷ w.iv1 ∷ []) (omega arith)
    ∙ ap
        (λ b. with_length (pos (sum_len (w.iv0 ∷ w.iv1 ∷ []))) (append_bytes (iov_bytes w w.iv0) b))
        (append_bytes-nil (iov_bytes w w.iv1))
ssl_writev-gather_count w (suc (suc (suc n))) le h = absurd (omega arith)
