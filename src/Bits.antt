-- ===== src/Bits.antt =====
-- The binary digits of the flags that src/common/common.cpp and src/io/io.cpp turn on, off and test
-- with `|`, `&` and `~`: the native operations work digit by digit.
use Prim.Native.Nat.{max, bit_and, bit_or, bitwise, bit_and-bitwise, bit_or-bitwise, digits}
use linux_image_server.Base.{
  ℕ, zero, suc, ◌+◌, ◌-◌, ◌*◌, ◌/◌, ◌%◌, ◌^◌, ◌≤◌, ◌<◌, min, ◌≡◌, refl, ◌∙◌, ap, arith,
}

-- The digit of weight 2 ^ k.
unfoldable pub bit : ℕ → ℕ → ℕ
bit zero n = n % 2
bit (suc k) n = bit k (n / 2)

module _ (z : ℕ → ℕ) (f : ℕ → ℕ → ℕ) where
  enough : (n m a b : ℕ) → a ≤ n → a ≤ m → digits z f n a b ≡ digits z f m a b
  enough zero zero a b p q = refl
  enough (suc n) zero zero b p q = refl
  enough (suc n) zero (suc a) b p q = absurd (omega arith)
  enough zero (suc m) zero b p q = refl
  enough zero (suc m) (suc a) b p q = absurd (omega arith)
  enough (suc n) (suc m) zero b p q = refl
  enough (suc n) (suc m) (suc a) b p q =
      ap (λ rest. rest * 2 + f (suc a % 2) (b % 2))
        (enough n m (suc a / 2) (b / 2) (omega arith) (omega arith))

  by_digit :
      (a b : ℕ)
      → bitwise z f (suc a) b ≡ bitwise z f (suc a / 2) (b / 2) * 2 + f (suc a % 2) (b % 2)
  by_digit a b =
      ap (λ rest. rest * 2 + f (suc a % 2) (b % 2))
        (enough a (suc a / 2) (suc a / 2) (b / 2) (omega arith) (omega arith))

or_digit : (a b : ℕ) → bit_or a b ≡ bit_or (a / 2) (b / 2) * 2 + max (a % 2) (b % 2)
or_digit zero b = omega (arith, bit_or-bitwise 0 b, bit_or-bitwise 0 (b / 2))
or_digit (suc a) b =
    omega (
      arith,
      bit_or-bitwise (suc a) b,
      bit_or-bitwise (suc a / 2) (b / 2),
      by_digit (λ y. y) max a b,
    )

and_digit : (a b : ℕ) → bit_and a b ≡ bit_and (a / 2) (b / 2) * 2 + min (a % 2) (b % 2)
and_digit zero b = omega (arith, bit_and-bitwise 0 b, bit_and-bitwise 0 (b / 2))
and_digit (suc a) b = omega (
  arith,
  bit_and-bitwise (suc a) b,
  bit_and-bitwise (suc a / 2) (b / 2),
  by_digit (λ y. 0) min a b,
)

pub bit-or : (k a b : ℕ) → bit k (bit_or a b) ≡ max (bit k a) (bit k b)
unfolding bit
bit-or zero a b = omega (arith, or_digit a b)
bit-or (suc k) a b =
    let half : bit_or a b / 2 ≡ bit_or (a / 2) (b / 2) = omega (arith, or_digit a b) in
    ap (bit k) half ∙ bit-or k (a / 2) (b / 2)

pub bit-and : (k a b : ℕ) → bit k (bit_and a b) ≡ min (bit k a) (bit k b)
unfolding bit
bit-and zero a b = omega (arith, and_digit a b)
bit-and (suc k) a b =
    let half : bit_and a b / 2 ≡ bit_and (a / 2) (b / 2) = omega (arith, and_digit a b) in
    ap (bit k) half ∙ bit-and k (a / 2) (b / 2)

pub bit-binary : (k n : ℕ) → bit k n < 2
unfolding bit
bit-binary zero n = omega arith
bit-binary (suc k) n = bit-binary k (n / 2)

-- `~n` of w digits.
unfoldable pub complement : ℕ → ℕ → ℕ
complement w n = 2 ^ w - 1 - n

pub bit-complement : (w k n : ℕ) → k < w → n < 2 ^ w → bit k (complement w n) ≡ 1 - bit k n
unfolding bit complement
bit-complement zero k n lt le = absurd (omega arith)
bit-complement (suc w) zero n lt le = omega arith
bit-complement (suc w) (suc k) n lt le =
    let half : (2 ^ suc w - 1 - n) / 2 ≡ 2 ^ w - 1 - n / 2 = omega arith in
    ap (bit k) half ∙ bit-complement w k (n / 2) (omega arith) (omega arith)

pub bit-small : (w k n : ℕ) → w ≤ k → n < 2 ^ w → bit k n ≡ 0
unfolding bit
bit-small zero zero n le lt = omega arith
bit-small zero (suc k) n le lt = bit-small zero k (n / 2) (omega arith) (omega arith)
bit-small (suc w) zero n le lt = absurd (omega arith)
bit-small (suc w) (suc k) n le lt = bit-small w k (n / 2) (omega arith) (omega arith)

-- Flags that are among those of a mask.
pub bit-within : (a mask k : ℕ) → bit_and a mask ≡ a → bit k a ≤ bit k mask
bit-within a mask k e = omega (arith, bit-and k a mask, ap (bit k) e)
