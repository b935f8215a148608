-- ===== src/ThreadPool/Drains.antt =====
-- The work that is left when no request comes any more: however the threads of
-- src/include/threadpool.h are scheduled, they take all that was accepted.
use linux_image_server.Base.{ℕ, ◌+◌, ◌*◌, ◌<◌}
use linux_image_server.ThreadPool.{State, post, wait, wait_failed, take_request}

-- The steps that are neither of a new request nor of a wait that fails.
pub data Work : State → State → Type 0 where
  posting : (s : State) → 0 < s.posting → Work s (post s)
  waking : (s : State) → 0 < s.queuestat → Work s (wait s)
  taking : (s : State) → 0 < s.woken → Work s (take_request s).1

-- A run without new requests: its steps, and how many of them are waits that fail.
pub data Works (s : State) : ℕ → ℕ → State → Type 0 where
  done : Works s 0 0 s
  more : {n f : ℕ} {t u : State} → Works s n f t → Work t u → Works s (n + 1) f u
  interrupted : {n f : ℕ} {t : State} → Works s n f t → Works s (n + 1) (f + 1) (wait_failed t)

-- The steps that the requests in the list have before them.
unfoldable pub left : State → ℕ
left s = 3 * s.posting + 2 * s.queuestat + s.woken
