-- ===== src/BlockQueue/Inv.antt =====
-- The representation invariant of the circular array.
use native.Mathlib.Nat.{mod-add-mod, add_assoc}
use linux_image_server.Base.{
  set, le→leb, leb, dec_lt, ◌∙◌, ℕ, ◌+◌, ◌-◌, ◌%◌, ◌≤◌, ◌<◌, ◌≡◌, refl, true, false, some, arith,
  length, length-set, length-replicate, ap, sym, get_or, get_elem?-eq-get_or,
}
use linux_image_server.BlockQueue.{
  Index, minus_one, at, Ring, item, next, create, clear, push, take_front,
}

-- The place of the newest element; -1 stands for none.
abbrev pub IsBack : Index → ℕ → ℕ → Type 0
IsBack minus_one size max_size = size ≡ 0
IsBack (at i) size max_size = i < max_size

module _ {ℓ} {A : Type ℓ} where
  -- The index of the oldest element.
  abbrev pub start : Ring A → ℕ
  start q = next q.front q.max_size

  pub record IsValid (q : Ring A) : Type ℓ where
    pub storage : length q.array ≡ q.max_size
    pub room : 0 < q.max_size
    pub fits : q.size ≤ q.max_size
    pub newest : IsBack q.back q.size q.max_size
    pub closes : next q.back q.max_size ≡ (start q + q.size) % q.max_size

pub next-lt : (i : Index) (n : ℕ) → 0 < n → next i n < n
unfolding next
next-lt minus_one n h = omega arith
next-lt (at i) n h = omega arith

lt→not_leb : (a b : ℕ) → b < a → leb a b ≡ false
lt→not_leb a b h = ground arith

pub next_at : (i n : ℕ) → next (at i) n ≡ (i + 1) % n
unfolding next
next_at i n = refl

module _ {ℓ} {A : Type ℓ} where
  -- A queue that the constructor accepts is valid.
  pub create-IsValid :
      (blank : A) (n : ℕ) {q : Ring A} → create blank n ≡ some q → IsValid q × (q.size ≡ 0)
  unfolding create next
  create-IsValid blank n e = grind (arith, length-replicate n blank)

  pub clear-IsValid : {q : Ring A} → IsValid q → IsValid (clear q)
  unfolding clear next
  clear-IsValid v = ground arith

  pub push-full : (q : Ring A) (x : A) → q.max_size ≤ q.size → push q x ≡ (false, q)
  unfolding push
  push-full q x h = rw (le→leb _ _ h)

  abbrev pub pushed : Ring A → A → Ring A
  pushed q x = record q {
    back = at (next q.back q.max_size);
    array = set q.array (next q.back q.max_size) x;
    size = q.size + 1;
  }

  pub push-room : (q : Ring A) (x : A) → q.size < q.max_size → push q x ≡ (true, pushed q x)
  unfolding push
  push-room q x h = rw (lt→not_leb q.max_size q.size h)

  pushed-IsValid : (q : Ring A) (x : A) → IsValid q → q.size < q.max_size → IsValid (pushed q x)
  unfolding next
  pushed-IsValid q x v h = record {
    storage = length-set q.array (next q.back q.max_size) x ∙ v.storage;
    room = v.room;
    fits = omega arith;
    newest = next-lt q.back q.max_size v.room;
    closes =
        ap (λ k. (k + 1) % q.max_size) v.closes
        ∙ mod-add-mod (start q + q.size) q.max_size 1
        ∙ ap (λ k. k % q.max_size) (add_assoc (start q) q.size 1);
  }

  -- A push keeps the invariant, whether or not there is room.
  pub push-IsValid : {q : Ring A} (x : A) → IsValid q → IsValid (push q x).1
  push-IsValid {q} x v = elim (dec_lt q.size q.max_size) [
    | yes p ↦ rw (push-room q x p) (pushed-IsValid q x v p)
    | no p ↦ rw (push-full q x (omega arith)) v
  ]

  pub take_front-item :
      {q : Ring A} (blank : A)
      → IsValid q
      → take_front q
        ≡ item
            (get_or q.array (start q) blank)
            (record q { front = at (start q); size = q.size - 1 })
  unfolding take_front
  take_front-item {q} blank v =
      ground (arith, get_elem?-eq-get_or q.array (start q) blank, next-lt q.front q.max_size)

  -- Taking the front of a queue that is not empty keeps the invariant.
  pub taken-IsValid :
      (q : Ring A)
      → IsValid q
      → 0 < q.size
      → IsValid (record q { front = at (start q); size = q.size - 1 })
  taken-IsValid q v h = record {
    storage = v.storage;
    room = v.room;
    fits = omega (arith, v.fits);
    newest = newest-taken q.back v.newest;
    closes =
        v.closes
        ∙ ap (λ k. k % q.max_size) (omega arith)
        ∙ sym (mod-add-mod (start q + 1) q.max_size (q.size - 1))
        ∙ ap (λ k. (k + (q.size - 1)) % q.max_size) (sym (next_at (start q) q.max_size));
  }
    where
      newest-taken : (b : Index) → IsBack b q.size q.max_size → IsBack b (q.size - 1) q.max_size
      newest-taken minus_one e = omega arith
      newest-taken (at i) lt = lt
