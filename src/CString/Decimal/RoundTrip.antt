-- ===== src/CString/Decimal/RoundTrip.antt =====
-- What `%d` prints, strtol reads back.
use linux_image_server.Base.{
  ℕ, zero, suc, ◌+◌, ◌-◌, ◌*◌, ◌/◌, ◌%◌, ◌^◌, ◌≤◌, ◌<◌, ◌≡◌, refl, sym, ap, inl, inr, false, List,
  [], ◌∷◌, arith, ltb, Bool-cases, ◌∙◌, length, lt→ltb,
}
use native.Mathlib.Nat.{pow-suc}
use linux_image_server.CString.Decimal.{
  pos, digits_onto, print_ℕ, print_int, int_of_bits, is_space, skip_space, read_digits, clamp_long,
  read_signed, strtol,
}

read_digits-digit :
    (a d : ℕ) (cs : List ℕ) → d < 10 → read_digits a ((48 + d) ∷ cs) ≡ read_digits (a * 10 + d) cs
unfolding read_digits
read_digits-digit a d cs h =
    let e : a * 10 + ((48 + d) - 48) ≡ a * 10 + d = omega arith in ground (arith, e)

digits_onto-last :
    (fuel n : ℕ) (acc : List ℕ) → n < 10 → digits_onto (suc fuel) n acc ≡ (48 + n) ∷ acc
unfolding digits_onto
digits_onto-last fuel n acc h = rw (lt→ltb n 10 h)

digits_onto-more :
    (fuel n : ℕ) (acc : List ℕ)
    → ltb n 10 ≡ false
    → digits_onto (suc fuel) n acc ≡ digits_onto fuel (n / 10) ((48 + n % 10) ∷ acc)
unfolding digits_onto
digits_onto-more fuel n acc h = rw h

read_digits-last :
    (fuel n : ℕ) (acc : List ℕ)
    → n < 10
    → read_digits 0 (digits_onto (suc fuel) n acc) ≡ read_digits n acc
read_digits-last fuel n acc h =
    ap (read_digits 0) (digits_onto-last fuel n acc h)
    ∙ read_digits-digit 0 n acc h
    ∙ ap (λ k. read_digits k acc) (omega arith)

-- Reading the printed digits gives the number back.
read_digits-digits_onto :
    (fuel n : ℕ) (acc : List ℕ)
    → n < 10 ^ suc fuel
    → read_digits 0 (digits_onto (suc fuel) n acc) ≡ read_digits n acc
read_digits-digits_onto zero n acc h = read_digits-last zero n acc (omega arith)
read_digits-digits_onto (suc fuel) n acc h = elim (Bool-cases (ltb n 10)) [
  | inl small ↦ read_digits-last (suc fuel) n acc (ground arith)
  | inr large ↦
      let whole = ap (read_digits 0) (digits_onto-more (suc fuel) n acc large) in
      let rest =
        read_digits-digits_onto fuel (n / 10) ((48 + n % 10) ∷ acc)
          (omega (arith, pow-suc 10 (suc fuel))) in
      whole
      ∙ rest
      ∙ read_digits-digit (n / 10) (n % 10) acc (omega arith)
      ∙ ap (λ k. read_digits k acc) (omega arith)
]

-- The printed text starts with a digit.
digits_onto-head :
    (fuel n : ℕ) (acc : List ℕ)
    → (d : ℕ) × (rest : List ℕ) × (d < 10) × (digits_onto (suc fuel) n acc ≡ (48 + d) ∷ rest)
digits_onto-head zero n acc = elim (Bool-cases (ltb n 10)) [
  | inl small ↦ (n, acc, ground arith, digits_onto-last zero n acc (ground arith))
  | inr large ↦ (n % 10, acc, omega arith, digits_onto-more zero n acc large ∙ last)
]
  where
    last : digits_onto zero (n / 10) ((48 + n % 10) ∷ acc) ≡ (48 + n % 10) ∷ acc
    last = unfold digits_onto in refl
digits_onto-head (suc fuel) n acc = elim (Bool-cases (ltb n 10)) [
  | inl small ↦ (n, acc, ground arith, digits_onto-last (suc fuel) n acc (ground arith))
  | inr large ↦
      let (d, rest, lt, e) = digits_onto-head fuel (n / 10) ((48 + n % 10) ∷ acc) in
      (d, rest, lt, digits_onto-more (suc fuel) n acc large ∙ e)
]

read_signed-digit :
    (d : ℕ) (cs : List ℕ)
    → d < 10
    → read_signed (skip_space ((48 + d) ∷ cs)) ≡ clamp_long false (read_digits 0 ((48 + d) ∷ cs))
unfolding read_signed skip_space is_space
read_signed-digit d cs h = ground arith

clamp_long-small : (n : ℕ) → n < 2 ^ 31 → clamp_long false n ≡ pos n
unfolding clamp_long int_of_bits
clamp_long-small n h = ground arith

pub int_of_bits-pos : (n : ℕ) → n < 2 ^ 31 → int_of_bits n ≡ pos n
unfolding int_of_bits
int_of_bits-pos n h = ground arith

pub print_int-int_of_bits : (n : ℕ) → n < 2 ^ 31 → print_int (int_of_bits n) ≡ print_ℕ n
unfolding print_int int_of_bits
print_int-int_of_bits n h = ground arith

-- For every length below 2^31 the text that `%d` prints for it is read by strtol as that length.
pub strtol-print_int : (n : ℕ) → n < 2 ^ 31 → strtol (print_int (pos n)) ≡ pos n
unfolding strtol print_int print_ℕ
strtol-print_int n h =
    let (d, rest, lt, e) = digits_onto-head 19 n [] in
    ap (λ s. read_signed (skip_space s)) e
    ∙ read_signed-digit d rest lt
    ∙ ap (λ s. clamp_long false (read_digits 0 s)) (sym e)
    ∙ ap (clamp_long false) (read_digits-digits_onto 19 n [] (omega arith))
    ∙ ap (clamp_long false) nil
    ∙ clamp_long-small n h
  where
    nil : read_digits n [] ≡ n
    nil = unfold read_digits in refl

pub length-digits_onto-le :
    (fuel n : ℕ) (acc : List ℕ) → length (digits_onto fuel n acc) ≤ fuel + length acc
unfolding digits_onto
length-digits_onto-le zero n acc = omega arith
length-digits_onto-le (suc fuel) n acc =
    ground (arith, length-digits_onto-le fuel (n / 10) ((48 + n % 10) ∷ acc))

pub length-print_ℕ-le : (n : ℕ) → length (print_ℕ n) ≤ 20
unfolding print_ℕ
length-print_ℕ-le n = omega (arith, length-digits_onto-le 20 n [])
