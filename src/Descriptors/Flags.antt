-- ===== src/Descriptors/Flags.antt =====
-- The flags of a descriptor: what `set_fl` and `clr_fl` leave, for a fcntl that does what its
-- documentation says.
use Prim.Native.Nat.{max, bit_and, bit_or}
use linux_image_server.Base.{
  ℕ, ◌-◌, ◌^◌, ◌≤◌, ◌<◌, min, ◌≡◌, refl, ◌∙◌, ap, ◌⊎◌, inl, inr, Option, none, some, ◌==◌, ltb,
  ltb→lt, if◌then◌else◌, arith, Bool-cases,
}
use linux_image_server.CString.Decimal.{ℤ, pos, negsuc}
use linux_image_server.Bits.{
  bit, bit-or, bit-and, bit-complement, bit-binary, bit-small, bit-within, complement,
}
use linux_image_server.Descriptors.{Kernel, set_fl, clr_fl, or_exit, or_exit_at}

-- O_APPEND, O_ASYNC, O_DIRECT, O_NOATIME and O_NONBLOCK.
abbrev pub settable : ℕ
settable = 0x46c00

-- F_SETFL that succeeds sets each flag that may be set, and leaves each other flag; F_GETFL gives
-- an int. EPOLL_CTL_ADD and EPOLL_CTL_MOD that succeed leave the events they are given in the list
-- `watched` of a descriptor of epoll.
pub record IsKernel {S : Type 0} (K : Kernel S) : Type 0 where
  pub int_flags : (fd m : ℕ) (s : S) → K.get_flags fd s ≡ pos m → m < 2 ^ 32
  pub kept :
      (fd v n m : ℕ) (s : S)
      → (K.set_flags fd v s).0 ≡ pos n
      → K.get_flags fd s ≡ pos m
      → (m' : ℕ) × ((K.get_flags fd (K.set_flags fd v s).1 ≡ pos m')
          × ((k : ℕ) → bit k m' ≡ (if bit k settable == 1 then bit k v else bit k m)))
  pub watched : ℕ → ℕ → S → Option ℕ
  pub added :
      (epollfd fd ev n : ℕ) (s : S)
      → (K.add_watch epollfd fd ev s).0 ≡ pos n
      → (watched epollfd fd (K.add_watch epollfd fd ev s).1 ≡ some ev)
        × (K.get_flags fd (K.add_watch epollfd fd ev s).1 ≡ K.get_flags fd s)
  pub changed :
      (epollfd fd ev n : ℕ) (s : S)
      → (K.mod_watch epollfd fd ev s).0 ≡ pos n
      → watched epollfd fd (K.mod_watch epollfd fd ev s).1 ≡ some ev

pub Result-cases : (z : ℤ) → ((n : ℕ) × (z ≡ pos n)) ⊎ ((n : ℕ) × (z ≡ negsuc n))
Result-cases (pos n) = inl (n, refl)
Result-cases (negsuc n) = inr (n, refl)

-- A call that returned an error.
abbrev pub IsFailed : ℤ → Type 0
IsFailed z = (n : ℕ) × (z ≡ negsuc n)

pub or_exit-pos : {S : Type 0} (r : ℤ × S) (n : ℕ) → r.0 ≡ pos n → or_exit r ≡ some r.1
or_exit-pos (z, s) n e = rw e refl

pub or_exit-negsuc : {S : Type 0} (r : ℤ × S) (n : ℕ) → r.0 ≡ negsuc n → or_exit r ≡ none
or_exit-negsuc (z, s) n e = rw e refl

or_digit :
    (k flags m v m' : ℕ)
    → bit k flags ≤ bit k settable
    → bit k v ≡ max (bit k m) (bit k flags)
    → bit k m' ≡ (if bit k settable == 1 then bit k v else bit k m)
    → bit k m' ≡ max (bit k m) (bit k flags)
or_digit k flags m v m' le e e' =
    let b1 = bit-binary k settable in
    let b2 = bit-binary k flags in let b3 = bit-binary k m in ground arith

and_digit :
    (k flags m v m' : ℕ)
    → bit k flags ≤ bit k settable
    → bit k v ≡ min (bit k m) (1 - bit k flags)
    → bit k m' ≡ (if bit k settable == 1 then bit k v else bit k m)
    → bit k m' ≡ min (bit k m) (1 - bit k flags)
and_digit k flags m v m' le e e' =
    let b1 = bit-binary k settable in
    let b2 = bit-binary k flags in let b3 = bit-binary k m in ground arith

masked :
    (k m flags : ℕ)
    → m < 2 ^ 32
    → flags < 2 ^ 32
    → bit k (bit_and m (complement 32 flags)) ≡ min (bit k m) (1 - bit k flags)
masked k m flags lt small = elim (Bool-cases (ltb k 32)) [
  | inl low ↦
      bit-and k m (complement 32 flags)
      ∙ ap (min (bit k m)) (bit-complement 32 k flags (ltb→lt k 32 low) small)
  | inr high ↦
      let none_left = bit-small 32 k m (ground arith) lt in
      bit-and k m (complement 32 flags) ∙ omega (arith, none_left)
]

module _ {S : Type 0} (K : Kernel S) (fd : ℕ) (s : S) where
  -- The flags are `m` before and `m'` after, of which each digit is the given one.
  abbrev pub HasTurned : S → (ℕ → ℕ → ℕ → Type 0) → Type 0
  HasTurned s1 P =
      (m : ℕ) × ((m' : ℕ) × ((K.get_flags fd s ≡ pos m)
          × ((K.get_flags fd s1 ≡ pos m') × ((k : ℕ) → P k (bit k m) (bit k m')))))

  -- A flag word that is read, changed and written: it ends with an error of one of the two calls, or
  -- the digits are turned.
  abbrev pub Writes : (ℕ → ℕ) → Option S → (ℕ → ℕ → ℕ → Type 0) → Type 0
  Writes change o P =
      ((o ≡ none)
        × (IsFailed (K.get_flags fd s) ⊎ ((m : ℕ) × IsFailed (K.set_flags fd (change m) s).0)))
      ⊎ ((s1 : S) × ((o ≡ some s1) × HasTurned s1 P))

  written :
      IsKernel K
      → (change : ℕ → ℕ) (P : ℕ → ℕ → ℕ → Type 0)
      → ((k m m' : ℕ)
          → m < 2 ^ 32
          → bit k m' ≡ (if bit k settable == 1 then bit k (change m) else bit k m)
          → P k (bit k m) (bit k m'))
      → Writes change
          (or_exit_at (K.get_flags fd s) (λ val. or_exit (K.set_flags fd (change val) s)))
          P
  written laws change P digit =
      let o = or_exit_at (K.get_flags fd s) (λ val. or_exit (K.set_flags fd (change val) s)) in
      elim (Result-cases (K.get_flags fd s)) as (λ x. Writes change o P) [
        | inr (n, bad) ↦ inl (rw bad refl, inl (n, bad))
        | inl (m, got) ↦
            elim (Result-cases (K.set_flags fd (change m) s).0) as (λ x. Writes change o P) [
              | inr (n, bad) ↦ inl (rw got (or_exit-negsuc _ n bad), inr (m, (n, bad)))
              | inl (n, set) ↦
                  let (m', (is, digits)) = laws.kept fd (change m) n m s set got in
                  inr (
                    (K.set_flags fd (change m) s).1,
                    (
                      rw got (or_exit-pos _ n set),
                      (
                        m,
                        (m', (got, (is, λ k. digit k m m' (laws.int_flags fd m s got) (digits k)))),
                      ),
                    ),
                  )
            ]
      ]

module _ {S : Type 0} (K : Kernel S) (laws : IsKernel K) (fd flags : ℕ) (s : S)
    (may_set : bit_and flags settable ≡ flags) where
  pub set_fl-turns_on :
      Writes K fd s (λ m. bit_or m flags) (set_fl K fd flags s) (λ k b b'. b' ≡ max b (bit k flags))
  unfolding set_fl
  set_fl-turns_on =
      written K fd s laws (λ m. bit_or m flags) (λ k b b'. b' ≡ max b (bit k flags))
        (λ k m m' small e.
          or_digit k flags m (bit_or m flags) m' (bit-within flags settable k may_set)
            (bit-or k m flags) e)

  pub clr_fl-turns_off :
      flags < 2 ^ 32
      → Writes K fd s
          (λ m. bit_and m (complement 32 flags))
          (clr_fl K fd flags s)
          (λ k b b'. b' ≡ min b (1 - bit k flags))
  unfolding clr_fl
  clr_fl-turns_off small =
      written K fd s laws (λ m. bit_and m (complement 32 flags))
        (λ k b b'. b' ≡ min b (1 - bit k flags))
        (λ k m m' lt e.
          and_digit k flags m (bit_and m (complement 32 flags)) m'
            (bit-within flags settable k may_set) (masked k m flags lt small) e)
