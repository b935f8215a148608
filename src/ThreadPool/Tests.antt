-- ===== src/ThreadPool/Tests.antt =====
-- The theorems about the thread pool at concrete inputs.
use linux_image_server.Base.{◌+◌, ◌≤◌, ◌≡◌, some, none, [], ◌++◌, length, refl, arith}
use linux_image_server.ThreadPool.{
  State, create, append, post, wait, appends, posts, wakes, Reach, here, next,
}
use linux_image_server.ThreadPool.Drains.{posting}
use linux_image_server.ThreadPool.Invariant.{requests_in_order}

abbrev fresh : State
fresh = record {
  workqueue = [];
  max_requests = 4;
  queuestat = 0;
  posting = 0;
  woken = 0;
  accepted = [];
  taken = [];
}

fresh-created : create 2 4 (λ i. (0, 0)) ≡ some fresh
unfolding create
fresh-created = refl

abbrev busy : State
busy = wait (post (append (append fresh (some 1)).1 (some 2)).1)

busy-Reach : Reach fresh busy
unfolding append post
busy-Reach =
    next
      (next (next (next here (appends fresh (some 1))) (appends (append fresh (some 1)).1 (some 2)))
        (posts (append (append fresh (some 1)).1 (some 2)).1 (omega arith)))
      (wakes (post (append (append fresh (some 1)).1 (some 2)).1) (omega arith))

requests_in_order_example :
    (busy.accepted ≡ busy.taken ++ busy.workqueue) × (length busy.workqueue ≤ busy.max_requests + 1)
requests_in_order_example = requests_in_order 2 4 (λ i. (0, 0)) fresh-created busy-Reach

-- The second thread cannot be made.
no_second_thread : create 2 4 (λ i. (i, 0)) ≡ none
unfolding create
no_second_thread = refl
