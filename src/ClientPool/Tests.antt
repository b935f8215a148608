-- ===== src/ClientPool/Tests.antt =====
-- The theorems about the pool of clients at concrete inputs.
use linux_image_server.Base.{
  ◌≡◌, inl, refl, arith, true, false, none, some, List, [], ◌∷◌, replicate, ◌==◌, if◌then◌else◌,
}
use linux_image_server.CString.Decimal.{pos, negsuc}
use linux_image_server.Http.Types.{
  Parser, check_state_requestline, get, read_buffer_size, write_buffer_size, filename_len,
  invalid_client,
}
use linux_image_server.Http.Response.{Writer, wild}
use linux_image_server.Http.Life.{Conn}
use linux_image_server.TimerList.{Timer, TimerList}
use linux_image_server.TimerList.Chain.{Node, IsLinked, cons, nil}
use linux_image_server.ClientPool.{Pool, Event, handle_event, exited, rejected, running}
use linux_image_server.ClientPool.Exits.{alarm-exits}

abbrev pub idle_parser : Parser
idle_parser = record {
  read_buf = replicate read_buffer_size 0;
  read_idx = 0;
  check_state = check_state_requestline;
  checked_idx = 0;
  start_line = 0;
  method = get;
  cgi = false;
  url = none;
  version = none;
  linger = true;
  content_length = pos 0;
  host = none;
  useragent = none;
  origin = none;
  content_type = none;
  encoding = none;
  upgrade = none;
  accept = none;
  referer = none;
  language = none;
  content = none;
  real_file = replicate filename_len 0;
}

abbrev pub idle_writer : Writer
idle_writer = record {
  write_buf = replicate write_buffer_size 0;
  write_idx = 0;
  iv0 = record { base = wild; len = 0 };
  iv1 = record { base = wild; len = 0 };
  iv_count = 0;
  bytes_to_send = pos 0;
  bytes_have_send = 0;
  file = none;
  file_size = 0;
  linger = true;
}

abbrev pub idle : Conn
idle = record {
  sockfd = negsuc 0;
  user_count = pos 0;
  client_type = invalid_client;
  sslcontent = none;
  parser = idle_parser;
  writer = idle_writer;
  watched = [];
  dropped = [];
  freed = [];
}

-- One connection, at descriptor 9, whose timer at 1 expires at 30.
abbrev only_timer : Timer
only_timer = record { data_of = 9; expire = 30; prev = none; next = none }

abbrev one_timer : TimerList
one_timer = record {
  store = λ a. if a == 1 then some only_timer else none;
  head = some 1;
  tail = some 1;
  closed = [];
}

abbrev one_node : List Node
one_node = (1, (9, 30)) ∷ []

abbrev one_client : Pool
one_client = record {
  server_state = running;
  listenfd = 4;
  ssl_fd = 5;
  alarm_fd = 6;
  int_fd = 7;
  timers = one_timer;
  users = λ i. idle;
  timer_of = λ i. if i == 9 then some 1 else none;
  user_count = pos 1;
  work = record {
    workqueue = [];
    max_requests = 10;
    queuestat = 0;
    posting = 0;
    woken = 0;
    accepted = [];
    taken = [];
  };
  alarms = 0;
  refused = [];
  closed = [];
  watched = λ i. false;
  context_frees = 0;
}

one_timer-IsLinked : IsLinked one_timer one_node
one_timer-IsLinked = record {
  chain =
      cons {t = only_timer} refl (record { stored = refl; handler = refl; time = refl }) refl tt
        (nil refl);
  last = refl;
}

-- The connection has sent bytes.
abbrev pub bytes_in : Event
bytes_in = record {
  fd = 9;
  epollin = true;
  epollout = false;
  epollerr = false;
  connfd = none;
  timer = 2;
  time = 20;
  handshake = rejected;
  removed = λ i. (pos 0, pos 0);
}

abbrev told_to_stop : Event
told_to_stop = record bytes_in { fd = 7 }

-- The connection has failed.
abbrev failure : Event
failure = record bytes_in { epollin = false; epollerr = true }

abbrev late_alarm : Event
late_alarm = record bytes_in { fd = 6; time = 31 }

alarm-exits_example : handle_event 1 late_alarm one_client ≡ exited
alarm-exits_example =
    alarm-exits 1 late_alarm one_client (1, (9, 30)) [] one_timer-IsLinked (omega arith)
      (λ i. inl refl) (omega arith) (record { not_listen = refl; not_ssl = refl; alarm = refl })
