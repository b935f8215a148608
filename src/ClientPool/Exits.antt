-- ===== src/ClientPool/Exits.antt =====
-- The end of the process at the first connection that is closed: `remove_fd` takes the 0 that close
-- returns for an error.
use linux_image_server.Base.{
  ℕ, ◌≤◌, ◌<◌, ◌≡◌, refl, ◌∙◌, inl, inr, Bool-cases, List, [], ◌∷◌, ltb, lt→ltb, ◌==◌, false, true,
  length, arith,
}
use linux_image_server.TimerList.{TimerList}
use linux_image_server.TimerList.Chain.{Node, IsLinked}
use linux_image_server.TimerList.Expiry.{expired, timeout-Expires}
use linux_image_server.ClientPool.{
  Pool, Event, exited, max_fd, close_users, alarm_event, hung_up, user_event, handle_event,
  of_timers, and_then,
}
use linux_image_server.ClientPool.Branches.{Documented, close_user-exits}

-- The event is of a connection, and only the error bits are set.
pub record IsHangUp (ev : Event) (s : Pool) : Type 0 where
  pub not_listen : (ev.fd == s.listenfd) ≡ false
  pub not_ssl : (ev.fd == s.ssl_fd) ≡ false
  pub not_alarm : (ev.fd == s.alarm_fd) ≡ false
  pub not_int : (ev.fd == s.int_fd) ≡ false
  pub user : ev.fd < max_fd
  pub no_in : ev.epollin ≡ false
  pub no_out : ev.epollout ≡ false
  pub error : ev.epollerr ≡ true

pub record IsAlarm (ev : Event) (s : Pool) : Type 0 where
  pub not_listen : (ev.fd == s.listenfd) ≡ false
  pub not_ssl : (ev.fd == s.ssl_fd) ≡ false
  pub alarm : (ev.fd == s.alarm_fd) ≡ true

-- For any return of close that its documentation allows, success included, the process ends when a
-- connection is reported to have failed.
pub hang_up-exits :
    (fuel : ℕ) (ev : Event) (s : Pool)
    → Documented ev
    → IsHangUp ev s
    → handle_event fuel ev s ≡ exited
unfolding handle_event user_event hung_up and_then
hang_up-exits fuel ev s doc h = rw h.not_listen (
    rw h.not_ssl (
      rw h.not_alarm (
        rw h.not_int (
          rw h.no_in (
            rw h.no_out (
              rw h.error
                (rw (lt→ltb ev.fd max_fd h.user) (rw (close_user-exits ev ev.fd s doc) refl))))))))

expired-first :
    (cur : ℕ) (n : Node) (ms : List Node)
    → n.1.1 ≤ cur
    → expired cur (n ∷ ms) ≡ n.1.0 ∷ expired cur ms
unfolding expired
expired-first cur n ms le = elim (Bool-cases (ltb cur n.1.1)) [
  | inl lt ↦ absurd (ground arith)
  | inr ge ↦ rw ge refl
]

-- For any return of close that its documentation allows, success included, the process ends when the
-- alarm finds the first timer of a well-formed list expired and the loop has fuel for the list.
pub alarm-exits :
    (fuel : ℕ) (ev : Event) (s : Pool) (n : Node) (ms : List Node)
    → IsLinked s.timers (n ∷ ms)
    → length (n ∷ ms) ≤ fuel
    → Documented ev
    → n.1.1 ≤ ev.time
    → IsAlarm ev s
    → handle_event fuel ev s ≡ exited
unfolding handle_event alarm_event of_timers close_users and_then
alarm-exits fuel ev s n ms k le doc late h =
    let l0 : TimerList = record s.timers { closed = [] } in
    let (l, (ran, (linked, closed))) =
      timeout-Expires (n ∷ ms) fuel ev.time l0 le (record { chain = k.chain; last = k.last }) in
    let first : l.closed ≡ n.1.0 ∷ expired ev.time ms = closed ∙ expired-first ev.time n ms late in
    rw h.not_listen (
      rw h.not_ssl (
        rw h.alarm
          (rw ran (rw first (rw (close_user-exits ev n.1.0 (record s { timers = l }) doc) refl)))))
