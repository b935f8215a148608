-- ===== src/ClientPool/Begins.antt =====
-- From the constructor of `ClientPool` (src/client_pool/client_pool.cpp) on: the state that it leaves
-- is one from which every event keeps the timers in order.
use linux_image_server.Base.{
  ℕ, ◌+◌, ◌≤◌, ◌≡◌, refl, sym, subst, Option, none, some, [], through, arith, ◌∙◌,
}
use linux_image_server.TimerList.Chain.{nil}
use linux_image_server.ThreadPool as ThreadPool
use linux_image_server.ClientPool.{Pool, Event, handle_event}
use linux_image_server.ClientPool.Branches.{IsSound, StaysSound}
use linux_image_server.ClientPool.Sound.{IsFit, Reach, every_event-StaysSound}
use linux_image_server.ClientPool.Start.{
  System, Given, Started, or_error, fresh_pool, open_listeners, open_pipe, install, start, finish,
  after_create, after_listeners, after_alarm, after_int,
}

module _ {S : Type 0} {A B : Type 0} where
  through_error :
      (P : Option B → Type 0) (r : Option A × S) (f : A → S → Option B)
      → P none
      → ((a : A) (s : S) → P (f a s))
      → P (or_error r f)
  through_error P (none, s) f p q = p
  through_error P (some a, s) f p q = q a s

module _ {S : Type 0} (sys : System S) (given : Given) where
  -- The pool is as the constructor's body leaves its fields.
  abbrev IsFresh : Option (Started × S) → Type 0
  IsFresh none = Unit {0}
  IsFresh (some (st, s)) =
      (work : ThreadPool.State) × ((ssl_fd : ℕ) × ((listenfd : ℕ) × ((alarm_fd : ℕ) × ((int_fd : ℕ)
              × (st.pool ≡ fresh_pool given work ssl_fd listenfd alarm_fd int_fd)))))

  start-IsFresh : (s : S) → IsFresh (start sys given s)
  unfolding start after_create after_listeners after_alarm after_int
  start-IsFresh s = through IsFresh (ThreadPool.create 8 10000 sys.threads) _ tt (λ work e.
      through_error IsFresh (sys.epoll_create s) (after_create sys given work) tt (λ epollfd s1.
        through IsFresh (open_listeners sys given epollfd s1) _ tt (λ (fds, s2) e1.
          through IsFresh (open_pipe sys given epollfd s2) _ tt (λ (alarm, s3) e2.
            through IsFresh (open_pipe sys given epollfd s3) _ tt (λ (int, s4) e3.
              through IsFresh (install sys given s4) (finish sys given work epollfd fds alarm int)
                tt (λ t e4. (work, (fds.0, (fds.1, (alarm.0, (int.0, refl)))))))))))

  -- The constructor ends the process, or the timers of the pool that it leaves are in order.
  pub start-IsSound :
      (clock : ℕ) (s s' : S) (st : Started)
      → ((i : ℕ) → given.timer_of i ≡ none)
      → start sys given s ≡ some (st, s')
      → IsSound clock st.pool []
  start-IsSound clock s s' st zeroed e =
      let (work, (ssl_fd, (listenfd, (alarm_fd, (int_fd, is))))) =
        subst IsFresh e (start-IsFresh s) in
      subst (λ p. IsSound clock p []) (sym is)
        (record {
          linked = record { chain = nil refl; last = tt };
          sorted = tt;
          recent = tt;
          owned = λ i a has.
              absurd (let z = zeroed i in let bad : none ≡ some a = sym z ∙ has in ground arith);
          armed = λ i on. absurd (ground arith);
        })

  -- From the constructor on, in memory that was zero, every event leaves the timers in order,
  -- whichever branch handles it, each connection with its own: when each comes no earlier than the one
  -- before, epoll reports the constructor's four descriptors and those it was given, accept gives
  -- descriptors below MAX_FD, close what it documents, and the loops over the timers have fuel for one
  -- timer more than there were events.
  pub from_start-StaysSound :
      {fuel clock n c : ℕ} {t : Pool} (s s' : S) (st : Started) (ev : Event)
      → ((i : ℕ) → given.timer_of i ≡ none)
      → start sys given s ≡ some (st, s')
      → n ≤ fuel
      → Reach fuel clock st.pool n c t
      → c ≤ ev.time
      → IsFit ev t
      → StaysSound ev.time (n + 1) (handle_event fuel ev t)
  from_start-StaysSound {fuel} {clock} {n} {c} {t} s s' st ev zeroed e le run forth fit =
      subst (λ b. StaysSound ev.time b (handle_event fuel ev t)) (omega arith)
        (every_event-StaysSound {n = n} [] ev (start-IsSound clock s s' st zeroed e) (omega arith)
          run forth fit)
