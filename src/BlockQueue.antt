-- ===== src/BlockQueue.antt =====
-- `BlockQueue<T>` of src/include/block_queue.h: a circular array behind a mutex. A method holds the
-- mutex from its first line to its last, so it is one step on the fields; `pop` gives the mutex up
-- while it waits, and what it meets then is an argument.
pub mod Inv
pub mod Refine
pub mod Run
pub mod Wait
pub mod Front
pub mod View
mod Tests
use linux_image_server.Base.{
  ℕ, zero, suc, ◌+◌, ◌-◌, ◌*◌, ◌/◌, ◌%◌, Bool, true, false, Option, none, some, List, [], ◌∷◌, leb,
  ◌==◌, if◌then◌else◌, set, get_elem?, replicate,
}

-- An index of the array: m_front and m_back start at -1.
pub data Index : Type 0 where
  minus_one : Index
  at : ℕ → Index

-- The fields but the mutex and the condition variable.
pub record Ring {ℓ} (A : Type ℓ) : Type ℓ where
  pub array : List A
  pub size : ℕ
  pub max_size : ℕ
  pub front : Index
  pub back : Index

-- What front() and back() give: false with the argument left alone, true with an element, or a
-- read outside the array.
pub data Peek {ℓ} (A : Type ℓ) : Type ℓ where
  nothing : Peek A
  got : A → Peek A
  fault : Peek A

-- A return of pthread_cond_wait or pthread_cond_timedwait, with an error code (a timeout is one) or
-- with 0, and the fields as other threads left them.
pub data Wake {ℓ} (A : Type ℓ) : Type ℓ where
  wait_failed resumed : Ring A → Wake A

pub data Popped {ℓ} (A : Type ℓ) : Type ℓ where
  -- false is returned, true with the item, or an item is read outside the array.
  refused : Ring A → Popped A
  item : A → Ring A → Popped A
  stray : Popped A
  -- The thread still waits.
  waiting : Ring A → Popped A

-- `(i + 1) % m_max_size`.
unfoldable pub next : Index → ℕ → ℕ
next minus_one max_size = 0 % max_size
next (at i) max_size = (i + 1) % max_size

module _ {ℓ} {A : Type ℓ} where
  -- `none` is exit(-1); `blank` is what `new T[max_size]` puts into the array.
  unfoldable pub create : A → ℕ → Option (Ring A)
  create blank max_size =
      if max_size == 0
      then none
      else some (record {
        array = replicate max_size blank;
        size = 0;
        max_size = max_size;
        front = minus_one;
        back = minus_one;
      })

  unfoldable pub clear : Ring A → Ring A
  clear q = record q { size = 0; front = minus_one; back = minus_one }

  unfoldable pub full : Ring A → Bool
  full q = if leb q.max_size q.size then true else false

  unfoldable pub empty : Ring A → Bool
  empty q = if 0 == q.size then true else false

  unfoldable pub read : List A → Index → Peek A
  read array minus_one = fault
  read array (at i) = elim (get_elem? array i) [ none ↦ fault | some a ↦ got a ]

  unfoldable pub front_value : Ring A → Peek A
  unfolding read
  front_value q = if 0 == q.size then nothing else read q.array q.front

  unfoldable pub back_value : Ring A → Peek A
  unfolding read
  back_value q = if 0 == q.size then nothing else read q.array q.back

  unfoldable pub push : Ring A → A → Bool × Ring A
  unfolding next
  push q x = if leb q.max_size q.size then (false, q) else (
    true,
    record q {
      back = at (next q.back q.max_size);
      array = set q.array (next q.back q.max_size) x;
      size = q.size + 1;
    },
  )

  -- The end of both `pop`s.
  unfoldable pub take_front : Ring A → Popped A
  unfolding next
  take_front q = elim (get_elem? q.array (next q.front q.max_size)) [
    | none ↦ stray
    | some a ↦ item a (record q { front = at (next q.front q.max_size); size = q.size - 1 })
  ]

  -- `while (m_size <= 0)` with what the calls of pthread_cond_wait give.
  unfoldable pub pop : List (Wake A) → Ring A → Popped A
  unfolding take_front
  pop [] q = if q.size == 0 then waiting q else take_front q
  pop (wait_failed q' ∷ wakes) q = if q.size == 0 then refused q' else take_front q
  pop (resumed q' ∷ wakes) q = let rest = pop wakes q' in if q.size == 0 then rest else take_front q

  unfoldable pub after_timed_wait : Wake A → Popped A
  unfolding take_front
  after_timed_wait (wait_failed q') = refused q'
  after_timed_wait (resumed q') = if q'.size == 0 then refused q' else take_front q'

  -- `pop(item, ms_timeout)`; `wake` is what the one call of pthread_cond_timedwait gives.
  unfoldable pub pop_timeout : Wake A → Ring A → Popped A
  unfolding after_timed_wait take_front
  pop_timeout wake q = if q.size == 0 then after_timed_wait wake else take_front q

-- The time, in seconds and nanoseconds, that is handed to pthread_cond_timedwait.
unfoldable pub wait_until : ℕ → ℕ → ℕ × ℕ
wait_until now_sec ms_timeout = (now_sec + ms_timeout / 1000, ms_timeout % 1000 * 1000)
