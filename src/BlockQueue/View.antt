-- ===== src/BlockQueue/View.antt =====
-- The elements that a circular array of `BlockQueue` (src/include/block_queue.h) holds, oldest first,
-- apart from where they stand and what the free slots hold.
use mathlib.Core.HLevel.{Σ_prop_path}
use mathlib.Core.Quot
use mathlib.Core.Quot.{Quot}
use native.Mathlib.Bridge.{le_prop}
use linux_image_server.Base.{
  ℕ, ◌≤◌, ◌<◌, ◌≡◌, refl, ◌∙◌, Bool, false, List, [], ◌∷◌, length, arith, branch, leb, replicate,
  ◌==◌,
}
use linux_image_server.BlockQueue.{Ring, create, push, minus_one}
use linux_image_server.BlockQueue.Inv.{IsValid, create-IsValid, push-IsValid}
use linux_image_server.BlockQueue.Refine.{contents, length-contents}

not_zero : (n : ℕ) → 0 < n → (n == 0) ≡ false
not_zero n h = ground arith

module _ {A : Type 0} where
  push-max_size : (q : Ring A) (a : A) → (push q a).1.max_size ≡ q.max_size
  unfolding push
  push-max_size q a =
      branch {A = Bool × Ring A} (λ r. r.1.max_size ≡ q.max_size) (leb q.max_size q.size) _ _
        (λ full. refl) (λ room. refl)

module _ {A : Type 0} (setA : IsSet A) (blank : A) (cap : ℕ) where
  -- A queue of that capacity whose fields are in order.
  abbrev pub Queue : Type 0
  Queue = (q : Ring A) × (IsValid q × (q.max_size ≡ cap))

  abbrev pub SameContents : Queue → Queue → Type 0
  SameContents a b = contents blank a.0 ≡ contents blank b.0

  abbrev pub View : Type 0
  View = Quot SameContents

  abbrev pub Short : Type 0
  Short = (xs : List A) × (length xs ≤ cap)

  Short-ext : (a b : Short) → a.0 ≡ b.0 → a ≡ b
  Short-ext a b h = Σ_prop_path (λ xs. le_prop) h

  Short-set : IsSet Short
  Short-set = hlevel (le_prop)

  shown_by : Queue → Short
  shown_by (q, (v, e)) = (contents blank q, omega (arith, length-contents blank q, v.fits))

  pub shown : View → Short
  unfolding shown_by
  shown = Quot.lift Short-set shown_by (λ a b h. Short-ext (shown_by a) (shown_by b) h)

  -- The elements pushed one after the other.
  fill : List A → Queue → Queue
  fill [] x = x
  fill (a ∷ as') (q, (v, e)) = fill as' ((push q a).1, (push-IsValid a v, push-max_size q a ∙ e))

  module _ (room : 0 < cap) where
    made : Ring A
    made = record {
      array = replicate cap blank;
      size = 0;
      max_size = cap;
      front = minus_one;
      back = minus_one;
    }

    start : Queue
    unfolding made create
    start = (made, ((create-IsValid blank cap (rw (not_zero cap room) refl)).0, refl))

    stored : Short → View
    stored (xs, le) = Quot.mk (fill xs start)
