-- ===== src/ClientPool/Sound.antt =====
-- What every event keeps: the timers in order, each connection with its own.
use linux_image_server.Base.{
  ℕ, suc, ◌+◌, subst, ◌≤◌, ◌<◌, ◌≡◌, refl, sym, Option, none, some, List, ◌==◌, true, false, length,
  arith, branch,
}
use linux_image_server.Http.Types.{ClientType, http_client, https_client}
use linux_image_server.TimerList.Chain.{Node}
use linux_image_server.ClientPool.{
  fault, exited, goes_on, Pool, Event, Outcome, Handshake, no_context, no_descriptor, rejected,
  accepted_with, max_fd, admit, add_client, with_ssl, add_ssl_client, user_event, handle_event,
}
use linux_image_server.ClientPool.Branches.{
  IsSound, StaysSound, same_timers, later, Documented, admit-StaysSound, alarm_event-StaysSound,
  readable_at-StaysSound, hung_up-StaysSound,
}

-- An event that epoll and the calls made for it may give: a free address for `new Timer`; from accept a
-- descriptor below the process's limit of descriptors (RLIMIT_NOFILE), which is at most MAX_FD; from
-- epoll a descriptor that was given to it and not taken back; and what close may return.
pub record IsFit (ev : Event) (s : Pool) : Type 0 where
  pub free : s.timers.store ev.timer ≡ none
  pub accepted : (i : ℕ) → ev.connfd ≡ some i → i < max_fd
  pub reported :
      ((ev.fd == s.listenfd) ≡ false)
      → ((ev.fd == s.ssl_fd) ≡ false)
      → ((ev.fd == s.alarm_fd) ≡ false)
      → ((ev.fd == s.int_fd) ≡ false)
      → s.watched ev.fd ≡ true
  pub closes : Documented ev

module _ (fuel : ℕ) (ev : Event) (s : Pool) (ns : List Node) where
  abbrev Stays : Outcome → Type 0
  Stays o = StaysSound ev.time (suc (length ns)) o

  accepting-StaysSound :
      IsSound ev.time s ns
      → length ns ≤ fuel
      → IsFit ev s
      → (connfd : Option ℕ) → connfd ≡ ev.connfd
      → Stays (add_client fuel ev connfd s) × Stays (add_ssl_client fuel ev connfd s)
  unfolding add_client add_ssl_client with_ssl
  accepting-StaysSound k le fit none e = ((ns, (k, omega arith)), (ns, (k, omega arith)))
  accepting-StaysSound k le fit (some i) e = (admitted http_client none, by_handshake ev.handshake)
    where
      admitted : (kind : ClientType) (content : Option ℕ) → Stays (admit fuel ev i kind content s)
      admitted kind content =
          admit-StaysSound fuel ev s ns i kind content k le fit.free (fit.accepted i (sym e))

      by_handshake : (shake : Handshake) → Stays (with_ssl fuel ev i shake s)
      by_handshake no_context =
          same_timers ev.time (suc (length ns)) s _ ns refl refl refl k (omega arith)
      by_handshake no_descriptor =
          same_timers ev.time (suc (length ns)) s _ ns refl refl refl k (omega arith)
      by_handshake rejected =
          same_timers ev.time (suc (length ns)) s _ ns refl refl refl k (omega arith)
      by_handshake (accepted_with content) = admitted https_client (some content)

  user_event-StaysSound :
      IsSound ev.time s ns
      → length ns ≤ fuel
      → Documented ev
      → (ev.fd < max_fd) × ((a : ℕ) × (s.timer_of ev.fd ≡ some a))
      → Stays (user_event fuel ev s)
  unfolding user_event
  user_event-StaysSound k le doc (small, (a, has)) =
      branch Stays ev.epollin _ _
        (λ inp. readable_at-StaysSound fuel ev s ns (s.timer_of ev.fd) a has k le refl)
        (λ no_in.
          branch Stays ev.epollout _ _ (λ out. (ns, (k, omega arith)))
            (λ no_out.
              branch Stays ev.epollerr _ _ (λ err. hung_up-StaysSound fuel ev s ns doc small)
                (λ no_err. (ns, (k, omega arith)))))

-- Every event, whichever branch handles it, leaves a sound pool sound when it comes no earlier than
-- the clock, is one that may come, and the loops over the timers have the fuel for all of them: no
-- null pointer is followed and users_ is not left, the process ends or the pool goes on, at the
-- event's time, with at most one timer more.
pub handle_event-StaysSound :
    (fuel clock : ℕ) (ev : Event) (s : Pool) (ns : List Node)
    → IsSound clock s ns
    → clock ≤ ev.time
    → length ns ≤ fuel
    → IsFit ev s
    → StaysSound ev.time (suc (length ns)) (handle_event fuel ev s)
unfolding handle_event
handle_event-StaysSound fuel clock ev s ns k0 forth le fit =
    let k = later clock ev.time s ns forth k0 in
    let P = StaysSound ev.time (suc (length ns)) in
    let accepting = accepting-StaysSound fuel ev s ns k le fit ev.connfd refl in
    branch P (ev.fd == s.listenfd) _ _ (λ y. accepting.0)
      (λ n1.
        branch P (ev.fd == s.ssl_fd) _ _ (λ y. accepting.1)
          (λ n2.
            branch P (ev.fd == s.alarm_fd) _ _
              (λ y. alarm_event-StaysSound fuel ev s ns k le fit.closes)
              (λ n3.
                branch P (ev.fd == s.int_fd) _ _
                  (λ y. same_timers ev.time (suc (length ns)) s _ ns refl refl refl k (omega arith))
                  (λ n4.
                    user_event-StaysSound fuel ev s ns k le fit.closes
                      (k.armed ev.fd (fit.reported n1 n2 n3 n4))))))

-- The states that `n` events lead to, each of which may come, the process going on after it, with the
-- time of the last one.
pub data Reach (fuel clock : ℕ) (s : Pool) : ℕ → ℕ → Pool → Type 0 where
  here : Reach fuel clock s 0 clock s
  next :
      {n c : ℕ} {t u : Pool} (ev : Event)
      → Reach fuel clock s n c t
      → c ≤ ev.time
      → IsFit ev t
      → handle_event fuel ev t ≡ goes_on u
      → Reach fuel clock s (n + 1) ev.time u

StaysSound-more :
    (clock bound more : ℕ) (o : Outcome)
    → bound ≤ more
    → StaysSound clock bound o
    → StaysSound clock more o
StaysSound-more clock bound more fault le k = k
StaysSound-more clock bound more exited le k = tt
StaysSound-more clock bound more (goes_on s) le (ns, (k, short)) = (ns, (k, omega arith))

Reach-IsSound :
    {fuel clock : ℕ} {s : Pool} {n c : ℕ} {t : Pool} (ns : List Node)
    → IsSound clock s ns
    → length ns + n ≤ fuel
    → Reach fuel clock s n c t
    → (ms : List Node) × (IsSound c t ms × (length ms ≤ length ns + n))
Reach-IsSound ns k le here = (ns, (k, omega arith))
Reach-IsSound {fuel} ns k le (next {n} {c} {t} {u} ev run forth fit went) =
    let (ms, (k1, short)) = Reach-IsSound ns k (omega arith) run in
    subst (StaysSound ev.time (length ns + (n + 1))) went (
      StaysSound-more ev.time (suc (length ms)) (length ns + (n + 1)) (handle_event fuel ev t)
        (omega arith) (handle_event-StaysSound fuel c ev t ms k1 forth (omega arith) fit))

-- In every state that events lead to from a sound pool, the next event, whichever branch handles it,
-- leaves the pool sound, when each event comes no earlier than the one before and is one that may
-- come, and the loops over the timers have fuel for the timers of the start and one for each event:
-- no null pointer is followed and users_ is not left, and the process ends or the pool goes on.
pub every_event-StaysSound :
    {fuel clock : ℕ} {s : Pool} {n c : ℕ} {t : Pool} (ns : List Node) (ev : Event)
    → IsSound clock s ns
    → length ns + n ≤ fuel
    → Reach fuel clock s n c t
    → c ≤ ev.time
    → IsFit ev t
    → StaysSound ev.time (length ns + (n + 1)) (handle_event fuel ev t)
every_event-StaysSound {fuel} {n = n} {c} {t} ns ev k le run forth fit =
    let (ms, (k1, short)) = Reach-IsSound ns k le run in
    StaysSound-more ev.time (suc (length ms)) (length ns + (n + 1)) (handle_event fuel ev t)
      (omega arith) (handle_event-StaysSound fuel c ev t ms k1 forth (omega arith) fit)
