-- ===== src/ClientPool/Start.antt =====
-- The constructor and the destructor of `ClientPool` (src/client_pool/client_pool.cpp,
-- src/include/client_pool.h): the listening sockets, the pipes of the signals, and the timers with
-- which the loop over the events starts.
use linux_image_server.Base.{ℕ, true, false, Option, none, some, List, [], ◌∷◌, ◌>>=◌}
use linux_image_server.CString.Decimal.{ℤ}
use linux_image_server.Http.Life.{Conn}
use linux_image_server.TimerList.{TimerList, Store}
use linux_image_server.ThreadPool as ThreadPool
use linux_image_server.Descriptors.{
  Kernel, Action, ignores, handles, o_nonblock, set_fl, add_fd, addsig,
}
use linux_image_server.Sockets.{
  Net, Opened, exits, returns, ssl_init, open_ssl_socket, open_listenfd,
}
use linux_image_server.ClientPool.{Pool, running, sigalrm, sigterm, timeslot}

abbrev sigpipe : ℕ
sigpipe = 13

-- The calls of the constructor; epoll_create and socketpair give -1 (`none`) or descriptors.
pub record System (S : Type 0) : Type 0 where
  pub threads : ThreadPool.Spawn
  pub kernel : Kernel S
  pub net : Net S
  pub epoll_create : S → Option ℕ × S
  pub socketpair : S → Option (ℕ × ℕ) × S
  pub sigaction : ℕ → Action → S → ℤ × S
  pub alarm : ℕ → S → S

-- What there is before: the arguments, the value of the variable `yes` of `open_ssl_socket`, the
-- memory of users_ and of timer_lst_, whose head and tail its constructor sets to null.
pub record Given : Type 0 where
  pub port : ℕ
  pub ssl_port : ℕ
  pub private_key : List ℕ
  pub cert : List ℕ
  pub reuse : ℕ
  pub users : ℕ → Conn
  pub timer_of : ℕ → Option ℕ
  pub user_count : ℤ
  pub store : Store

-- `handler_epollfd` is the static m_epollfd of the handlers.
pub record Started : Type 0 where
  pub pool : Pool
  pub epollfd : ℕ
  pub handler_epollfd : ℕ
  pub alarm_send : ℕ
  pub int_send : ℕ

module _ {S : Type 0} {A B : Type 0} where
  abbrev pub or_error : Option A × S → (A → S → Option B) → Option B
  or_error (none, s) f = none
  or_error (some a, s) f = f a s

module _ {S : Type 0} {B : Type 0} where
  abbrev pub of_opened : Opened S → (ℕ → S → Option B) → Option B
  of_opened (exits s) f = none
  of_opened (returns fd s) f = f fd s

abbrev empty_list : Store → TimerList
empty_list store = record { store = store; head = none; tail = none; closed = [] }

-- The fields when the body of the constructor has run, with the receiving ends of the two pipes.
abbrev pub fresh_pool : Given → ThreadPool.State → ℕ → ℕ → ℕ → ℕ → Pool
fresh_pool given work ssl_fd listenfd alarm_fd int_fd = record {
  server_state = running;
  listenfd = listenfd;
  ssl_fd = ssl_fd;
  alarm_fd = alarm_fd;
  int_fd = int_fd;
  timers = empty_list given.store;
  users = given.users;
  timer_of = given.timer_of;
  user_count = given.user_count;
  work = work;
  alarms = 1;
  refused = [];
  closed = [];
  watched = λ i. false;
  context_frees = 0;
}

module _ {S : Type 0} (sys : System S) (given : Given) where
  -- From the signals on.
  unfoldable pub install : S → Option S
  unfolding addsig
  install s =
      addsig sys.sigaction sigalrm handles false s
      >>= addsig sys.sigaction sigterm handles false
      >>= addsig sys.sigaction sigpipe ignores true
      >>= (λ t. some (sys.alarm timeslot t))

  -- The two pipes: the sending end does not block, and the receiving end is watched.
  unfoldable pub open_pipe : ℕ → S → Option ((ℕ × ℕ) × S)
  unfolding set_fl add_fd
  open_pipe epollfd s = or_error (sys.socketpair s) (λ (receive, send) s1.
      set_fl sys.kernel send o_nonblock s1
      >>= add_fd sys.kernel epollfd receive false false
      >>= (λ t. some ((receive, send), t)))

  -- The listening sockets: that of HTTPS, with its context, and that of HTTP.
  unfoldable pub open_listeners : ℕ → S → Option ((ℕ × ℕ) × S)
  unfolding ssl_init open_ssl_socket open_listenfd add_fd
  open_listeners epollfd s =
      of_opened (ssl_init sys.net given.private_key given.cert s) (λ ssl_context s1.
        of_opened (open_ssl_socket sys.net given.reuse given.ssl_port ssl_context s1) (λ ssl_fd s2.
          add_fd sys.kernel epollfd ssl_fd false true s2 >>= (λ s3.
            of_opened (open_listenfd sys.net given.port s3) (λ listenfd s4.
              add_fd sys.kernel epollfd listenfd false true s4
              >>= (λ t. some ((ssl_fd, listenfd), t))))))

  -- The steps of the constructor, the last one first.
  abbrev pub finish : ThreadPool.State → ℕ → ℕ × ℕ → ℕ × ℕ → ℕ × ℕ → S → Option (Started × S)
  finish work epollfd (ssl_fd, listenfd) (alarm_fd, alarm_send) (int_fd, int_send) t = some (
    record {
      pool = fresh_pool given work ssl_fd listenfd alarm_fd int_fd;
      epollfd = epollfd;
      handler_epollfd = epollfd;
      alarm_send = alarm_send;
      int_send = int_send;
    },
    t,
  )

  unfoldable pub after_int :
      ThreadPool.State → ℕ → ℕ × ℕ → ℕ × ℕ → (ℕ × ℕ) × S → Option (Started × S)
  unfolding install
  after_int work epollfd listeners alarm_pipe (int_pipe, s) =
      install s >>= finish work epollfd listeners alarm_pipe int_pipe

  unfoldable pub after_alarm : ThreadPool.State → ℕ → ℕ × ℕ → (ℕ × ℕ) × S → Option (Started × S)
  unfolding open_pipe after_int
  after_alarm work epollfd listeners (alarm_pipe, s) =
      open_pipe epollfd s >>= after_int work epollfd listeners alarm_pipe

  unfoldable pub after_listeners : ThreadPool.State → ℕ → (ℕ × ℕ) × S → Option (Started × S)
  unfolding open_pipe after_alarm
  after_listeners work epollfd (listeners, s) =
      open_pipe epollfd s >>= after_alarm work epollfd listeners

  unfoldable pub after_create : ThreadPool.State → ℕ → S → Option (Started × S)
  unfolding open_listeners after_listeners
  after_create work epollfd s = open_listeners epollfd s >>= after_listeners work epollfd

  -- The constructor; `none` is the end of the process, or an exception of the pool of threads.
  unfoldable pub start : S → Option (Started × S)
  unfolding ThreadPool.create after_create
  start s =
      ThreadPool.create 8 10000 sys.threads
      >>= (λ work. or_error (sys.epoll_create s) (after_create work))

-- The destructor: the descriptors that it closes, in their order.
unfoldable pub destroyed : Started → List ℕ
destroyed s =
    s.epollfd ∷ s.pool.listenfd ∷ s.alarm_send ∷ s.pool.alarm_fd ∷ s.int_send ∷ s.pool.int_fd ∷ []
