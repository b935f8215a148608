-- ===== src/ThreadPool/WorkerTests.antt =====
-- A worker of the thread pool at a concrete request: a line without a space.
use linux_image_server.Base.{◌≡◌, Bool, true, some, List, [], ◌∷◌, length, ℕ}
use linux_image_server.ConnectionPool.{Pool}
use linux_image_server.Http.Types.{line_open}
use linux_image_server.Http.Request.{Site}
use linux_image_server.Http.Response.Whole.{malformed, refusal}
use linux_image_server.Http.Send as Send
use linux_image_server.Http.Send.{took}
use linux_image_server.Http.Process as Process
use linux_image_server.Http.Process.{Processed}
use linux_image_server.Http.Process.Refusal.{parsed, Refuses, process-Refused}
use linux_image_server.ThreadPool.Worker.{Request, Lingers, outcome, run, answered_requests_drain}
use linux_image_server.Http.Samples.{
  nowhere, never, garbage, parsed_garbage, handling, silent, silent-IsFresh, garbage_parsed,
}

Refuses-Lingers :
    (site : Site) (einval : List ℕ → Bool) (o : Processed) (bytes : List ℕ)
    → Refuses site einval o true bytes
    → Lingers o
Refuses-Lingers site einval (Process.sent (Send.lingers w b)) bytes k = tt
Refuses-Lingers site einval (Process.sent (Send.closes w b)) bytes k = elim k [ ]
Refuses-Lingers site einval (Process.sent (Send.broken w b)) bytes k = elim k [ ]
Refuses-Lingers site einval (Process.sent (Send.sending w b)) bytes k = elim k [ ]
Refuses-Lingers site einval (Process.sent Send.fault) bytes k = elim k [ ]
Refuses-Lingers site einval (Process.dropped w) bytes k = elim k [ ]
Refuses-Lingers site einval Process.broken bytes k = elim k [ ]
Refuses-Lingers site einval Process.stuck bytes k = elim k [ ]

abbrev asking : Request
asking = record {
  events = took (length (refusal malformed true)) ∷ [];
  status = line_open;
  handler = handling garbage;
  writer = silent;
}

asking-Lingers : Lingers (outcome nowhere never asking)
asking-Lingers =
    Refuses-Lingers nowhere never (outcome nowhere never asking) (refusal malformed true) (
      process-Refused nowhere never malformed line_open (handling garbage) (handling parsed_garbage)
        silent [] (parsed garbage_parsed) silent-IsFresh)

abbrev two_idle : Pool
two_idle = record { conn_list = 1 ∷ 2 ∷ []; max_conn = 2; cur_conn = 0; free_conn = 2 }

-- Two requests are answered, and the pool of two connections is empty.
answered_requests_drain_example :
    (run nowhere never (some asking ∷ some asking ∷ []) two_idle).conn_list ≡ []
answered_requests_drain_example =
    answered_requests_drain nowhere never (asking ∷ asking ∷ []) two_idle
      (asking-Lingers, (asking-Lingers, tt))
