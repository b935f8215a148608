-- ===== src/BlockQueue/Front.antt =====
-- What `front` gives.
use linux_image_server.Base.{
  ℕ, suc, ◌-◌, ◌<◌, ◌≡◌, refl, sym, ap, ◌∙◌, some, List, ◌∷◌, arith, length, get_or,
  get_elem?-eq-get_or,
}
use linux_image_server.BlockQueue.{
  at, Ring, got, fault, item, read, front_value, push, take_front, create,
}
use linux_image_server.BlockQueue.Inv.{start, IsValid, next-lt, take_front-item}
use linux_image_server.BlockQueue.Refine.{contents, length-contents, take_front_refines}

module _ {ℓ} {A : Type ℓ} (blank : A) where
  read_at :
      (array : List A) (i : ℕ) → i < length array → read array (at i) ≡ got (get_or array i blank)
  unfolding read
  read_at array i h = rw (get_elem?-eq-get_or array i blank h, read)

  front_value_at :
      (q : Ring A) (i : ℕ)
      → q.front ≡ at i
      → i < length q.array
      → 0 < q.size
      → front_value q ≡ got (get_or q.array i blank)
  unfolding front_value
  front_value_at q i e h s = ground (arith, read_at q.array i h, ap (read q.array) e)

  -- After a `pop` that leaves elements behind, `front` gives the element that was popped, and not
  -- the oldest one left.
  pub front_value_stale :
      (q : Ring A) (x y : A) (xs : List A)
      → IsValid q
      → contents blank q ≡ x ∷ y ∷ xs
      → (q' : Ring A) × (take_front q ≡ item x q')
        × (contents blank q' ≡ y ∷ xs)
        × (front_value q' ≡ got x)
  front_value_stale q x y xs v e =
      let (q', took, rest, v', cap) = take_front_refines blank q x (y ∷ xs) v e in
      let taken = record q { front = at (start q); size = q.size - 1 } in
      let same : item x q' ≡ item (get_or q.array (start q) blank) taken =
        sym took ∙ take_front-item blank v in
      let head : get_or q.array (start q) blank ≡ x = cc same in
      let old : taken ≡ q' = cc same in
      let many : q.size ≡ suc (suc (length xs)) = sym (length-contents blank q) ∙ ap length e in
      (
        q',
        took,
        rest,
        ap front_value (sym old)
            ∙ front_value_at taken (start q) refl
                (omega (arith, next-lt q.front q.max_size v.room, v.storage)) (omega arith)
            ∙ ap got head,
      )

  -- On a queue just created, after one push, `front` reads the element before the array.
  pub front_value_before :
      (n : ℕ) (x : A) {q : Ring A} → create blank n ≡ some q → front_value (push q x).1 ≡ fault
  unfolding front_value create push read
  front_value_before n x e = grind arith
