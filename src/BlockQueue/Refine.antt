-- ===== src/BlockQueue/Refine.antt =====
-- A valid queue behaves as the bounded first-in first-out list of its elements.
use native.Mathlib.Nat.{mod-add-mod, mod-eq_of_lt, mod-eq-sub-mod}
use native.Mathlib.Numerals.{add-one}
use linux_image_server.Base.{
  ℕ, zero, suc, ◌+◌, ◌-◌, ◌%◌, ◌<◌, ◌≡◌, ◌≢◌, refl, sym, ap, ap₂, ◌∙◌, Bool, true, false, Option,
  none, some, List, [], ◌∷◌, ◌++◌, arith, length, set, get_or, get_or-set_self, get_or-set_ne, ltb,
  if◌then◌else◌, dec_lt, lt→ltb,
}
use linux_image_server.BlockQueue.{at, Ring, item, next, push, take_front}
use linux_image_server.BlockQueue.Inv.{
  start, IsValid, next-lt, next_at, push-full, push-room, take_front-item, taken-IsValid,
}

-- The specification: a list of at most `cap` elements, oldest first.
module _ {ℓ} {A : Type ℓ} where
  unfoldable pub enqueue : ℕ → List A → A → Bool × List A
  enqueue cap xs x = if ltb (length xs) cap then (true, xs ++ x ∷ []) else (false, xs)

  unfoldable pub dequeue : List A → Option (A × List A)
  dequeue [] = none
  dequeue (x ∷ xs) = some (x, xs)

ge→not_ltb : (a b : ℕ) → ¬ (a < b) → ltb a b ≡ false
ge→not_ltb a b h = ground arith

-- Fewer steps than the array has slots do not come back to where they began.
skip-ne : (cap i k : ℕ) → i < cap → suc k < cap → (i + suc k) % cap ≢ i
skip-ne cap i k hi hk = elim (dec_lt (i + suc k) cap) [
  | yes p ↦ omega (arith, mod-eq_of_lt p)
  | no p ↦
      let once = mod-eq-sub-mod {n = i + suc k} {m = cap} (omega arith) in
      let small = mod-eq_of_lt {n = i + suc k - cap} {m = cap} (omega arith) in
      omega (arith, once, small)
]

module _ {ℓ} {A : Type ℓ} (blank : A) where
  -- `count` elements of the array, walking round from index `i`.
  abbrev pub walk : List A → ℕ → ℕ → ℕ → List A
  walk array cap i zero = []
  walk array cap i (suc count) = get_or array i blank ∷ walk array cap ((i + 1) % cap) count

  abbrev pub contents : Ring A → List A
  contents q = walk q.array q.max_size (start q) q.size

  length-walk : (array : List A) (cap i count : ℕ) → length (walk array cap i count) ≡ count
  length-walk array cap i zero = refl
  length-walk array cap i (suc count) = ap suc (length-walk array cap ((i + 1) % cap) count)

  pub length-contents : (q : Ring A) → length (contents q) ≡ q.size
  length-contents q = length-walk q.array q.max_size (start q) q.size

  -- The walk by one more step ends at the slot that lies `count` slots further.
  walk-write :
      (array : List A) (cap count i j : ℕ) (x : A)
      → length array ≡ cap
      → i < cap
      → count < cap
      → j ≡ (i + count) % cap
      → walk (set array j x) cap i (suc count) ≡ walk array cap i count ++ x ∷ []
  walk-write array cap zero i j x s hi hc e =
      let here : j ≡ i = e ∙ ap (λ k. k % cap) (omega arith) ∙ mod-eq_of_lt hi in
      ap (λ a. a ∷ [])
        (ap (λ k. get_or (set array k x) i blank) here
          ∙ get_or-set_self array i x blank (omega arith))
  walk-write array cap (suc count) i j x s hi hc e =
      let further : j ≢ i = rw e (skip-ne cap i count hi hc) in
      let from : j ≡ ((i + 1) % cap + count) % cap =
        e ∙ ap (λ k. k % cap) (omega arith) ∙ sym (mod-add-mod (i + 1) cap count) in
      ap₂ ◌∷◌ (get_or-set_ne array x blank further)
        (walk-write array cap count ((i + 1) % cap) j x s (omega arith) (omega arith) from)

  -- push reports true and appends exactly when there is room, and otherwise changes nothing.
  pub push_refines :
      (q : Ring A) (x : A)
      → IsValid q
      → let (done, q') = push q x in (done, contents q') ≡ enqueue q.max_size (contents q) x
  unfolding enqueue
  push_refines q x v = elim (dec_lt q.size q.max_size) [
    | yes p ↦ rw (push-room q x p) (
        ap (λ l. (true, l))
          (ap (walk (set q.array (next q.back q.max_size) x) q.max_size (start q)) (add-one q.size)
            ∙ walk-write q.array q.max_size q.size (start q) (next q.back q.max_size) x v.storage
                (next-lt q.front q.max_size v.room) p v.closes)
        ∙ sym (enqueue-room (omega (arith, length-contents q))))
    | no p ↦
        rw (push-full q x (omega arith)) (sym (enqueue-full (omega (arith, length-contents q))))
  ]
    where
      enqueue-room :
          length (contents q) < q.max_size
          → enqueue q.max_size (contents q) x ≡ (true, contents q ++ x ∷ [])
      enqueue-room h = rw (lt→ltb _ _ h)

      enqueue-full :
          ¬ (length (contents q) < q.max_size)
          → enqueue q.max_size (contents q) x ≡ (false, contents q)
      enqueue-full h = rw (ge→not_ltb _ _ h)

  walk-head :
      (array : List A) (cap i count n : ℕ) {x : A} {xs : List A}
      → count ≡ suc n
      → walk array cap i count ≡ x ∷ xs
      → (get_or array i blank ≡ x) × (walk array cap ((i + 1) % cap) (count - 1) ≡ xs)
  walk-head array cap i zero n s e = absurd (omega arith)
  walk-head array cap i (suc count) n s e =
      let less : suc count - 1 ≡ count = omega arith in
      (cc, ap (walk array cap ((i + 1) % cap)) less ∙ cc)

  pub take_front_refines :
      (q : Ring A) (x : A) (xs : List A)
      → IsValid q
      → contents q ≡ x ∷ xs
      → (q' : Ring A) × (take_front q ≡ item x q')
        × (contents q' ≡ xs)
        × IsValid q'
        × (q'.max_size ≡ q.max_size)
  take_front_refines q x xs v e =
      let full : q.size ≡ suc (length xs) = sym (length-contents q) ∙ ap length e in
      let parts = walk-head q.array q.max_size (start q) q.size (length xs) full e in
      (
        record q { front = at (start q); size = q.size - 1 },
        take_front-item blank v
            ∙ ap (λ a. item a (record q { front = at (start q); size = q.size - 1 })) parts.0,
        ap (λ k. walk q.array q.max_size k (q.size - 1)) (next_at (start q) q.max_size) ∙ parts.1,
        taken-IsValid q v (omega arith),
        refl,
      )
