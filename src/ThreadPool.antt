-- ===== src/ThreadPool.antt =====
-- `ProcessThreadPool` (src/include/threadpool.h): producers append requests to a list behind a lock
-- and post a semaphore, workers wait for the semaphore and take from the list. What a thread does
-- between two points where another may come in is one function; `Step` interleaves them.
pub mod Invariant
pub mod Serving
pub mod Worker
pub mod Drains
mod Tests
mod WorkerTests
use linux_image_server.Base.{
  ℕ, zero, suc, ◌+◌, ◌-◌, ◌<◌, ◌≡◌, Bool, true, false, Option, none, some, List, [], ◌∷◌, ◌++◌, ltb,
  leb, ◌==◌, not, if◌then◌else◌, length,
}

-- A request is a pointer, which may be null. `posting` counts the producers between `unlock` and
-- `post`, `woken` the workers between `wait` and `lock`. `accepted` and `taken` are the histories
-- of what went into the list and came out of it.
pub record State : Type 0 where
  pub workqueue : List (Option ℕ)
  pub max_requests : ℕ
  pub queuestat : ℕ
  pub posting : ℕ
  pub woken : ℕ
  pub accepted : List (Option ℕ)
  pub taken : List (Option ℕ)

-- What pthread_create and pthread_detach return for the thread of each index; 0 is success.
abbrev pub Spawn : Type 0
Spawn = ℕ → ℕ × ℕ

-- The loop of the constructor, for so many threads from the index `i` on: whether it gets through.
unfoldable pub spawn : Spawn → ℕ → ℕ → Bool
spawn threads i zero = true
spawn threads i (suc n) =
    let rest = spawn threads (i + 1) n in
    if (threads i).0 == 0 then (if (threads i).1 == 0 then rest else false) else false

-- The constructor; `none` is a std::exception.
unfoldable pub create : ℕ → ℕ → Spawn → Option State
unfolding spawn
create thread_number max_requests threads =
    if leb thread_number 0
    then none
    else if leb max_requests 0
    then none
    else if not (spawn threads 0 thread_number)
    then none
    else some (record {
      workqueue = [];
      max_requests = max_requests;
      queuestat = 0;
      posting = 0;
      woken = 0;
      accepted = [];
      taken = [];
    })

-- `append` up to its last `unlock`.
unfoldable pub append : State → Option ℕ → Bool × State
append s request = if ltb s.max_requests (length s.workqueue) then (false, s) else (
  true,
  record s {
    workqueue = s.workqueue ++ request ∷ [];
    accepted = s.accepted ++ request ∷ [];
    posting = s.posting + 1;
  },
)

-- `m_queuestat.post()`.
unfoldable pub post : State → State
post s = record s { posting = s.posting - 1; queuestat = s.queuestat + 1 }

-- `m_queuestat.wait()` that gets a unit of the semaphore.
unfoldable pub wait : State → State
wait s = record s { queuestat = s.queuestat - 1; woken = s.woken + 1 }

-- `m_queuestat.wait()` that a signal interrupts: run does not look at its result.
unfoldable pub wait_failed : State → State
wait_failed s = record s { woken = s.woken + 1 }

unfoldable pub pop_front : State → List (Option ℕ) → Option (Option ℕ) × State
pop_front s [] = (none, record s { woken = s.woken - 1 })
pop_front s (r ∷ rest) =
    (some r, record s { workqueue = rest; woken = s.woken - 1; taken = s.taken ++ r ∷ [] })

-- The part of `run` under the lock; `none` is the list found empty, and `continue`.
unfoldable pub take_request : State → Option (Option ℕ) × State
unfolding pop_front
take_request s = pop_front s s.workqueue

-- What the threads do, in any order.
pub data Step : State → State → Type 0 where
  appends : (s : State) (request : Option ℕ) → Step s (append s request).1
  posts : (s : State) → 0 < s.posting → Step s (post s)
  wakes : (s : State) → 0 < s.queuestat → Step s (wait s)
  fails : (s : State) → Step s (wait_failed s)
  takes : (s : State) → 0 < s.woken → Step s (take_request s).1

pub data Reach (s : State) : State → Type 0 where
  here : Reach s s
  next : {t u : State} → Reach s t → Step t u → Reach s u
