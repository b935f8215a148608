-- ===== src/BlockQueue/Wait.antt =====
-- The waiting of the two `pop`s.
use linux_image_server.Base.{
  ℕ, ◌+◌, ◌*◌, ◌%◌, ◌≡◌, false, List, [], ◌∷◌, arith, ◌==◌, Bool-cases, inl, inr, ==_iff,
}
use linux_image_server.BlockQueue.{
  Ring, Popped, refused, item, waiting, Wake, wait_failed, resumed, take_front, pop, wait_until,
}
use linux_image_server.BlockQueue.Inv.{IsValid, take_front-item, taken-IsValid}

module _ {ℓ} {A : Type ℓ} where
  abbrev pub WakeIsValid : Wake A → Type ℓ
  WakeIsValid (wait_failed q) = IsValid q
  WakeIsValid (resumed q) = IsValid q

  abbrev pub AllValid : List (Wake A) → Type ℓ
  AllValid [] = Unit
  AllValid (w ∷ ws) = WakeIsValid w × AllValid ws

  -- Nothing is read outside the array, the queue is left valid, and a thread waits on an empty
  -- queue only.
  pub data IsSafe : Popped A → Type ℓ where
    refused_safe : {q : Ring A} → IsValid q → IsSafe (refused q)
    item_safe : {x : A} {q : Ring A} → IsValid q → IsSafe (item x q)
    waiting_safe : {q : Ring A} → IsValid q → q.size ≡ 0 → IsSafe (waiting q)

  module _ (blank : A) where
    take_front-IsSafe : (q : Ring A) → IsValid q → (q.size == 0) ≡ false → IsSafe (take_front q)
    take_front-IsSafe q v e =
        rw (take_front-item blank v) (item_safe (taken-IsValid q v (ground arith)))

    -- Whatever other threads do while a thread waits, as long as they leave valid queues, `pop`
    -- reads inside the array, leaves a valid queue, and still waits on an empty queue only.
    pub pop-IsSafe :
        (wakes : List (Wake A)) (q : Ring A) → AllValid wakes → IsValid q → IsSafe (pop wakes q)
    unfolding pop
    pop-IsSafe [] q ws v = elim (Bool-cases (q.size == 0)) [
      | inl z ↦ rw z (waiting_safe v ((==_iff q.size 0).0 z))
      | inr nz ↦ rw nz (take_front-IsSafe q v nz)
    ]
    pop-IsSafe (wait_failed q' ∷ wakes) q ws v = elim (Bool-cases (q.size == 0)) [
      | inl z ↦ rw z (refused_safe ws.0)
      | inr nz ↦ rw nz (take_front-IsSafe q v nz)
    ]
    pop-IsSafe (resumed q' ∷ wakes) q ws v = elim (Bool-cases (q.size == 0)) [
      | inl z ↦ rw z (pop-IsSafe wakes q' ws.1 ws.0)
      | inr nz ↦ rw nz (take_front-IsSafe q v nz)
    ]

-- The deadline that `pop` with a timeout hands to pthread_cond_timedwait, in nanoseconds, is short
-- of the present second plus the timeout by 999,000 for each millisecond below a second.
pub wait_until_early :
    (now_sec ms_timeout : ℕ)
    → (wait_until now_sec ms_timeout).0 * 1000000000
        + (wait_until now_sec ms_timeout).1
        + ms_timeout % 1000 * 999000
      ≡ now_sec * 1000000000 + ms_timeout * 1000000
unfolding wait_until
wait_until_early now_sec ms_timeout = omega arith
