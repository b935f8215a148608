-- ===== src/ClientPool.antt =====
-- `ClientPool` (src/client_pool/client_pool.cpp, src/include/client_pool.h): the loop that hands
-- each event of epoll to a listening socket, the timers, or a handler, and through `append` to the thread pool.
pub mod Loop
pub mod Nodes
pub mod Branches
pub mod Sound
pub mod Exits
pub mod Follows
pub mod Stops
pub mod Start
pub mod Begins
pub mod Connector
pub mod Tests
mod StartTests
use linux_image_server.Base.{
  ℕ, zero, suc, ◌+◌, ◌*◌, Bool, true, false, ◌||◌, Option, none, some, List, [], ◌∷◌, ltb, ◌==◌,
  if◌then◌else◌,
}
use linux_image_server.CString.Decimal.{ℤ, pos, negsuc}
use linux_image_server.Http.Types.{ClientType, http_client, https_client}
use linux_image_server.Http.Life.{Conn, init, close}
use linux_image_server.TimerList.{
  Timer, Store, TimerList, put, add_timer, del_timer, postpone, timeout,
}
use linux_image_server.Descriptors.{remove_fd}
use linux_image_server.ThreadPool as ThreadPool

abbrev pub max_fd : ℕ
max_fd = 30000

abbrev pub timeslot : ℕ
timeslot = 5

pub data ServerState : Type 0 where
  stopped running sleeping : ServerState

-- `users` are the handlers of the array users_, by descriptor, whose count of users is the static
-- `m_user_count`; `timer_of` is each one's m_timer. `refused` are the descriptors closed at once,
-- `closed` the listening ones that are closed, `watched` those that `add_fd` of a handler's `init` gave
-- to epoll and remove_fd did not take back, `context_frees` counts the calls of SSL_CTX_free.
pub record Pool : Type 0 where
  pub server_state : ServerState
  pub listenfd : ℕ
  pub ssl_fd : ℕ
  pub alarm_fd : ℕ
  pub int_fd : ℕ
  pub timers : TimerList
  pub users : ℕ → Conn
  pub timer_of : ℕ → Option ℕ
  pub user_count : ℤ
  pub work : ThreadPool.State
  pub alarms : ℕ
  pub refused : List ℕ
  pub closed : List ℕ
  pub watched : ℕ → Bool
  pub context_frees : ℕ

-- SSL_new, SSL_set_fd and SSL_accept, up to the first that fails.
pub data Handshake : Type 0 where
  no_context no_descriptor rejected : Handshake
  accepted_with : ℕ → Handshake

abbrev pub sigalrm : ℕ
sigalrm = 14

abbrev pub sigterm : ℕ
sigterm = 15

-- `sig_handler`: the descriptor on which the byte that it sends arrives.
unfoldable pub sig_handler : ℕ → Pool → ℕ
sig_handler sig s = if sig == sigalrm then s.alarm_fd else s.int_fd

-- An event of epoll, and what the calls made for it give: accept, `new Timer`, time, the calls of
-- SSL, and for a descriptor epoll_ctl and close.
pub record Event : Type 0 where
  pub fd : ℕ
  pub epollin : Bool
  pub epollout : Bool
  pub epollerr : Bool
  pub connfd : Option ℕ
  pub timer : ℕ
  pub time : ℕ
  pub handshake : Handshake
  pub removed : ℕ → ℤ × ℤ

-- The process ends, or runs outside the model: a null pointer, an index outside users_.
pub data Outcome : Type 0 where
  fault exited : Outcome
  goes_on : Pool → Outcome

unfoldable pub of_timers : Option TimerList → (TimerList → Outcome) → Outcome
of_timers none f = fault
of_timers (some l) f = f l

unfoldable pub and_then : Outcome → (Pool → Outcome) → Outcome
and_then fault f = fault
and_then exited f = exited
and_then (goes_on s) f = f s

abbrev pub update {ℓ} : {A : Type ℓ} → ℕ → A → (ℕ → A) → ℕ → A
update i v f j = if i == j then v else f j

-- A method of the handler `i`, on the static count of users.
unfoldable pub with_user : ℕ → (Conn → Conn) → Pool → Pool
with_user i f s =
    let c = f (record (s.users i) { user_count = s.user_count }) in
    record s { users = update i c s.users; user_count = c.user_count }

unfoldable pub close_user : Event → ℕ → Pool → Outcome
unfolding with_user close remove_fd
close_user ev i s =
    if remove_fd (ev.removed i)
    then exited
    else goes_on (with_user i (close true) (record s { watched = update i false s.watched }))

-- The calls of `cb_func` for the timers that `timeout` takes off.
unfoldable pub close_users : Event → List ℕ → Pool → Outcome
unfolding close_user and_then
close_users ev [] s = goes_on s
close_users ev (i ∷ is) s = and_then (close_user ev i s) (close_users ev is)

abbrev pub is_max : ℤ → Bool
is_max (pos n) = n == max_fd
is_max (negsuc n) = false

abbrev new_timer : ℕ → ℕ → Timer
new_timer connfd time = record {
  data_of = connfd;
  expire = time + 3 * timeslot;
  prev = none;
  next = none;
}

-- `new Timer`, `add_timer`, and `init` of the handler.
unfoldable pub add_user : ℕ → Event → ℕ → ClientType → Option ℕ → Pool → Outcome
unfolding of_timers with_user add_timer put init
add_user fuel ev connfd kind content s =
    of_timers
      (add_timer fuel (some ev.timer)
        (record s.timers { store = put ev.timer (some (new_timer connfd ev.time)) s.timers.store }))
      (λ l. goes_on (
        with_user connfd (init (pos connfd) kind content) (record s {
          timers = l;
          timer_of = update connfd (some ev.timer) s.timer_of;
          watched = update connfd true s.watched;
        })))

-- From the test of the count on.
unfoldable pub admit : ℕ → Event → ℕ → ClientType → Option ℕ → Pool → Outcome
unfolding add_user
admit fuel ev connfd kind content s =
    let added = add_user fuel ev connfd kind content s in
    if is_max s.user_count
    then goes_on (record s { refused = connfd ∷ s.refused })
    else if ltb connfd max_fd
    then added
    else fault

unfoldable pub add_client : ℕ → Event → Option ℕ → Pool → Outcome
unfolding admit
add_client fuel ev none s = goes_on s
add_client fuel ev (some connfd) s = admit fuel ev connfd http_client none s

unfoldable pub with_ssl : ℕ → Event → ℕ → Handshake → Pool → Outcome
unfolding admit
with_ssl fuel ev connfd no_context s =
    goes_on (record s { closed = s.ssl_fd ∷ s.closed; context_frees = s.context_frees + 1 })
with_ssl fuel ev connfd no_descriptor s =
    goes_on (record s { closed = s.ssl_fd ∷ s.closed; context_frees = s.context_frees + 1 })
with_ssl fuel ev connfd rejected s =
    goes_on (record s { closed = s.ssl_fd ∷ s.closed; context_frees = s.context_frees + 1 })
with_ssl fuel ev connfd (accepted_with content) s =
    admit fuel ev connfd https_client (some content) s

unfoldable pub add_ssl_client : ℕ → Event → Option ℕ → Pool → Outcome
unfolding with_ssl
add_ssl_client fuel ev none s = goes_on s
add_ssl_client fuel ev (some connfd) s = with_ssl fuel ev connfd ev.handshake s

-- The event of the alarm's pipe.
unfoldable pub alarm_event : ℕ → Event → Pool → Outcome
unfolding of_timers timeout close_users and_then
alarm_event fuel ev s = of_timers (timeout fuel ev.time (record s.timers { closed = [] })) (λ l.
    and_then (close_users ev l.closed (record s { timers = l }))
      (λ s1. goes_on (record s1 { alarms = s1.alarms + 1 })))

-- `append`, and its `post`.
abbrev appended : ℕ → ThreadPool.State → ThreadPool.State
appended i work =
    let (done, work1) = ThreadPool.append work (some i) in
    if done then ThreadPool.post work1 else work1

unfoldable pub readable_at : ℕ → Event → Option ℕ → Pool → Outcome
unfolding of_timers postpone ThreadPool.append ThreadPool.post
readable_at fuel ev none s = fault
readable_at fuel ev (some timer) s =
    of_timers (postpone fuel timer (ev.time + 3 * timeslot) s.timers)
      (λ l. goes_on (record s { timers = l; work = appended ev.fd s.work }))

-- `close` of the handler, and `del_timer` of its timer.
unfoldable pub hung_up : Event → Pool → Outcome
unfolding close_user of_timers and_then del_timer
hung_up ev s =
    let closed = close_user ev ev.fd s in
    if ltb ev.fd max_fd
    then and_then closed (λ s1.
      of_timers (del_timer (s1.timer_of ev.fd) s1.timers) (λ l. goes_on (record s1 { timers = l })))
    else fault

-- The event of a connection.
unfoldable pub user_event : ℕ → Event → Pool → Outcome
unfolding readable_at hung_up
user_event fuel ev s =
    let readable = readable_at fuel ev (s.timer_of ev.fd) s in
    let hung = hung_up ev s in
    if ev.epollin
    then readable
    else if ev.epollout
    then goes_on s
    else if ev.epollerr
    then hung
    else goes_on s

-- The body of the `for` of `testing_`.
unfoldable pub handle_event : ℕ → Event → Pool → Outcome
unfolding add_client add_ssl_client alarm_event user_event
handle_event fuel ev s =
    let client = add_client fuel ev ev.connfd s in
    let ssl_client = add_ssl_client fuel ev ev.connfd s in
    let alarm = alarm_event fuel ev s in
    let user = user_event fuel ev s in
    if ev.fd == s.listenfd
    then client
    else if ev.fd == s.ssl_fd
    then ssl_client
    else if ev.fd == s.alarm_fd
    then alarm
    else if ev.fd == s.int_fd
    then goes_on (record s { server_state = stopped })
    else user
