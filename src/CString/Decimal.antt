-- ===== src/CString/Decimal.antt =====
-- Numbers as decimal text: the `%d` of the format strings of src/http/http_conn.cpp, the
-- conversion of a 64-bit value to int, and strtol in base 10.
pub mod RoundTrip
use linux_image_server.Base.{
  ℕ, zero, suc, ◌+◌, ◌-◌, ◌*◌, ◌/◌, ◌%◌, ◌^◌, Bool, true, false, ◌&&◌, List, [], ◌∷◌, ◌++◌, ltb,
  leb, ◌==◌, if◌then◌else◌,
}

-- `negsuc n` is -(n + 1).
pub data ℤ : Type 0 where
  pos : ℕ → ℤ
  negsuc : ℕ → ℤ

-- The digits of a number, before the ones that are there already; 20 rounds are enough for 64 bits.
unfoldable pub digits_onto : ℕ → ℕ → List ℕ → List ℕ
digits_onto zero n acc = acc
digits_onto (suc fuel) n acc =
    let rest = digits_onto fuel (n / 10) ((48 + n % 10) ∷ acc) in
    if ltb n 10 then (48 + n) ∷ acc else rest

unfoldable pub print_ℕ : ℕ → List ℕ
unfolding digits_onto
print_ℕ n = digits_onto 20 n []

-- `%d`.
unfoldable pub print_int : ℤ → List ℕ
unfolding print_ℕ
print_int (pos n) = print_ℕ n
print_int (negsuc n) = b'-' ∷ print_ℕ (suc n)

-- The int with the given bits: the conversion from a wider type keeps the low 32.
unfoldable pub int_of_bits : ℕ → ℤ
int_of_bits n = let w = n % 2 ^ 32 in if ltb w (2 ^ 31) then pos w else negsuc (2 ^ 32 - w - 1)

unfoldable pub is_digit : ℕ → Bool
is_digit c = leb 48 c && leb c 57

unfoldable pub is_space : ℕ → Bool
is_space c = if c == b' ' then true else leb 9 c && leb c 13

unfoldable pub skip_space : List ℕ → List ℕ
unfolding is_space
skip_space [] = []
skip_space (c ∷ cs) = let rest = skip_space cs in if is_space c then rest else c ∷ cs

-- The value of the digits at the head of the bytes, from the value read before them.
unfoldable pub read_digits : ℕ → List ℕ → ℕ
unfolding is_digit
read_digits acc [] = acc
read_digits acc (c ∷ cs) =
    let rest = read_digits (acc * 10 + (c - 48)) cs in if is_digit c then rest else acc

-- A magnitude with its sign, held to the range of long, then cut to an int.
unfoldable pub clamp_long : Bool → ℕ → ℤ
unfolding int_of_bits
clamp_long true n = if ltb (2 ^ 63) n then int_of_bits (2 ^ 63) else int_of_bits (2 ^ 64 - n)
clamp_long false n = if ltb n (2 ^ 63) then int_of_bits n else int_of_bits (2 ^ 63 - 1)

unfoldable pub read_signed : List ℕ → ℤ
unfolding clamp_long read_digits
read_signed [] = pos 0
read_signed (c ∷ cs) =
    if c == b'-'
    then clamp_long true (read_digits 0 cs)
    else if c == b'+'
    then clamp_long false (read_digits 0 cs)
    else clamp_long false (read_digits 0 (c ∷ cs))

-- (int) strtol(s, nullptr, 10).
unfoldable pub strtol : List ℕ → ℤ
unfolding skip_space read_signed
strtol s = read_signed (skip_space s)
