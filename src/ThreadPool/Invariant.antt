-- ===== src/ThreadPool/Invariant.antt =====
-- What holds of the pool however the threads are interleaved.
use linux_image_server.Base.{
  ℕ, ◌+◌, ◌≤◌, ◌<◌, ◌≡◌, refl, sym, ap, ◌∙◌, Option, some, List, [], ◌∷◌, ◌++◌, arith, length,
  length-append, append_assoc,
}
use linux_image_server.ThreadPool.{
  State, Spawn, create, append, post, wait, wait_failed, pop_front, take_request, Step, appends,
  posts, wakes, fails, takes, Reach, here, next,
}

-- Every queued request has its post, its unit of the semaphore or its woken worker; the list stays
-- within one over its limit; and what was accepted is what was taken and then what is queued.
pub record IsSound (s : State) : Type 0 where
  pub matched : length s.workqueue ≤ s.posting + s.queuestat + s.woken
  pub bounded : length s.workqueue ≤ s.max_requests + 1
  pub in_order : s.accepted ≡ s.taken ++ s.workqueue

-- A fresh pool is sound.
pub create-IsSound :
    (n m : ℕ) (threads : Spawn) {s : State} → create n m threads ≡ some s → IsSound s
unfolding create
create-IsSound n m threads e = grind arith

append-IsSound : (s : State) (r : Option ℕ) → IsSound s → IsSound (append s r).1
unfolding append
append-IsSound s r h = ground (
  arith,
  length-append s.workqueue (r ∷ []),
  append_assoc s.taken s.workqueue (r ∷ []),
  ap (λ l. l ++ r ∷ []) h.in_order,
)

pop_front-IsSound :
    (s : State) (q : List (Option ℕ))
    → s.workqueue ≡ q
    → IsSound s
    → 0 < s.woken
    → IsSound (pop_front s q).1
unfolding pop_front
pop_front-IsSound s [] e h w = record {
  matched = omega (arith, h.matched, ap length e);
  bounded = h.bounded;
  in_order = h.in_order;
}
pop_front-IsSound s (r ∷ q) e h w = record {
  matched = omega (arith, h.matched, ap length e);
  bounded = omega (arith, h.bounded, ap length e);
  in_order = h.in_order ∙ ap (◌++◌ s.taken) e ∙ sym (append_assoc s.taken (r ∷ []) q);
}

-- Every step of every thread keeps the pool sound.
pub Step-IsSound : {s t : State} → Step s t → IsSound s → IsSound t
unfolding post wait wait_failed take_request
Step-IsSound (appends s r) h = append-IsSound s r h
Step-IsSound (posts s p) h = record {
  matched = omega (arith, h.matched);
  bounded = h.bounded;
  in_order = h.in_order;
}
Step-IsSound (wakes s p) h = record {
  matched = omega (arith, h.matched);
  bounded = h.bounded;
  in_order = h.in_order;
}
Step-IsSound (fails s) h = record {
  matched = omega (arith, h.matched);
  bounded = h.bounded;
  in_order = h.in_order;
}
Step-IsSound (takes s p) h = pop_front-IsSound s s.workqueue refl h p

pub Reach-IsSound : {s t : State} → IsSound s → Reach s t → IsSound t
Reach-IsSound h here = h
Reach-IsSound h (next r st) = Step-IsSound st (Reach-IsSound h r)

-- Requests are taken in the order in which they were accepted, none twice and none lost: what was
-- accepted is what was taken followed by what is still queued, of which there are at most one more
-- than the limit.
pub requests_in_order :
    (n m : ℕ) (threads : Spawn) {s t : State}
    → create n m threads ≡ some s
    → Reach s t
    → (t.accepted ≡ t.taken ++ t.workqueue) × (length t.workqueue ≤ t.max_requests + 1)
requests_in_order n m threads e r =
    let h = Reach-IsSound (create-IsSound n m threads e) r in (h.in_order, h.bounded)
