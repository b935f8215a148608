-- ===== src/ClientPool/StartTests.antt =====
-- The constructor of `ClientPool` at concrete inputs, with calls that all succeed and number the
-- descriptors from 3 on, and `ConnectHandler` at the limit of users.
use linux_image_server.Base.{false, ℕ, suc, ◌≡◌, refl, none, some, [], ◌∷◌, arith, inl}
use linux_image_server.CString.{codes}
use linux_image_server.CString.Decimal.{pos}
use linux_image_server.ThreadPool as ThreadPool
use linux_image_server.Descriptors.{set_fl, add_fd, addsig, prepared}
use linux_image_server.Sockets.{ssl_init, open_ssl_socket, open_listenfd}
use linux_image_server.ClientPool.{
  Pool, Event, Outcome, fault, exited, goes_on, handle_event, running,
}
use linux_image_server.ClientPool.Branches.{StaysSound}
use linux_image_server.ClientPool.Sound.{IsFit, here, next}
use linux_image_server.ClientPool.Start.{
  System, Given, Started, start, after_create, after_listeners, after_alarm, after_int,
  open_listeners, open_pipe, install, destroyed,
}
use linux_image_server.ClientPool.Begins.{from_start-StaysSound}
use linux_image_server.ClientPool.Tests.{idle, bytes_in}

-- The state is the next descriptor.
abbrev numbering : System ℕ
numbering = record {
  threads = λ i. (0, 0);
  kernel = record {
    get_flags = λ fd s. pos 2;
    set_flags = λ fd v s. (pos 0, s);
    add_watch = λ epollfd fd ev s. (pos 0, s);
    mod_watch = λ epollfd fd ev s. (pos 0, s);
  };
  net = record {
    socket = λ s. (pos s, suc s);
    set_reuse = λ fd v s. (pos 0, s);
    bind = λ fd p s. (pos 0, s);
    listen = λ fd n s. (pos 0, s);
    close = λ fd s. s;
    context_new = λ s. (some 1, s);
    use_key = λ c f s. (pos 1, s);
    use_certificate = λ c f s. (pos 1, s);
    context_free = λ c s. s;
  };
  epoll_create = λ s. (some s, suc s);
  socketpair = λ s. (some (s, suc s), suc (suc s));
  sigaction = λ sig action s. (pos 0, s);
  alarm = λ n s. s;
}

abbrev given : Given
given = record {
  port = 1234;
  ssl_port = 1235;
  private_key = codes "key";
  cert = codes "crt";
  reuse = 1;
  users = λ i. idle;
  timer_of = λ i. none;
  user_count = pos 0;
  store = λ a. none;
}

abbrev begun : Started
begun = record {
  pool = record {
    server_state = running;
    listenfd = 5;
    ssl_fd = 4;
    alarm_fd = 6;
    int_fd = 8;
    timers = record { store = λ a. none; head = none; tail = none; closed = [] };
    users = λ i. idle;
    timer_of = λ i. none;
    user_count = pos 0;
    work = record {
      workqueue = [];
      max_requests = 10000;
      queuestat = 0;
      posting = 0;
      woken = 0;
      accepted = [];
      taken = [];
    };
    alarms = 1;
    refused = [];
    closed = [];
    watched = λ i. false;
    context_frees = 0;
  };
  epollfd = 3;
  handler_epollfd = 3;
  alarm_send = 7;
  int_send = 9;
}

given-start : start numbering given 3 ≡ some (begun, 10)
unfolding start after_create after_listeners after_alarm after_int open_listeners open_pipe install
    ThreadPool.create set_fl add_fd addsig ssl_init open_ssl_socket open_listenfd prepared
given-start = refl

-- A client connects, and then sends bytes.
abbrev connects : Event
connects = record bytes_in { fd = 5; connfd = some 20; timer = 100; time = 5 }

abbrev sends : Event
sends = record bytes_in { fd = 20; timer = 101; time = 7 }

connects-IsFit : IsFit connects begun.pool
connects-IsFit = record {
  free = refl;
  accepted = λ i e. ground arith;
  reported = λ n1 n2 n3 n4. absurd (ground (arith, n1));
  closes = λ i. inl refl;
}

abbrev left_by : Outcome → Pool
left_by fault = begun.pool
left_by exited = begun.pool
left_by (goes_on s) = s

abbrev connected : Pool
connected = left_by (handle_event 2 connects begun.pool)

sends-IsFit : IsFit sends connected
unfolding handle_event
sends-IsFit = record {
  free = refl;
  accepted = λ i e. absurd (ground arith);
  reported = λ n1 n2 n3 n4. refl;
  closes = λ i. inl refl;
}

from_start-StaysSound_example : StaysSound 7 2 (handle_event 2 sends connected)
unfolding handle_event
from_start-StaysSound_example =
    from_start-StaysSound numbering given {fuel = 2} {clock = 0} {n = 1} 3 10 begun sends
      (λ i. refl) given-start (omega arith)
      (next {n = 0} connects here (omega arith) connects-IsFit refl) (omega arith) sends-IsFit

-- The socket of HTTPS, 4, stays open.
begun-destroyed : destroyed begun ≡ 3 ∷ 5 ∷ 7 ∷ 6 ∷ 9 ∷ 8 ∷ []
unfolding destroyed
begun-destroyed = refl

-- As many users as there may be.
abbrev crowded : Pool
crowded = record begun.pool { user_count = pos 30000 }
