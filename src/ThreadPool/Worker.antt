-- ===== src/ThreadPool/Worker.antt =====
-- The body of the loop of `run` (src/include/threadpool.h) behind its lock, for the handler of
-- src/http/http_conn.cpp as the request: the connection that the pool gives is kept in the field
-- `mysql`, which `init_` sets to null.
use linux_image_server.Base.{
  ℕ, zero, suc, ◌≡◌, refl, ap, ◌∙◌, Bool, Option, none, some, List, [], ◌∷◌, drop, length, map,
}
use linux_image_server.ConnectionPool.{Pool, get_connection, take_first, release_connection}
use linux_image_server.Http.Types.{LineState}
use linux_image_server.Http.Request.{Site, Handler}
use linux_image_server.Http.Response.{Writer}
use linux_image_server.Http.Send.{Event, lingers, closes, sending, broken, fault}
use linux_image_server.Http.Process as Process
use linux_image_server.Http.Process.{Processed, sent, process}

-- A request as `process` finds it behind `read_`, and what the calls for its answer give.
pub record Request : Type 0 where
  pub events : List Event
  pub status : LineState
  pub handler : Handler
  pub writer : Writer

-- The field `mysql` behind `process`: `init_` is called where the whole answer was sent and the
-- connection is kept.
unfoldable pub mysql_after : Processed → Option ℕ → Option ℕ
mysql_after (sent (lingers w bytes)) mysql = none
mysql_after (sent (closes w bytes)) mysql = mysql
mysql_after (sent (broken w bytes)) mysql = mysql
mysql_after (sent (sending w bytes)) mysql = mysql
mysql_after (sent fault) mysql = mysql
mysql_after (Process.dropped w) mysql = mysql
mysql_after Process.broken mysql = mysql
mysql_after Process.stuck mysql = mysql

abbrev pub Lingers : Processed → Type 0
Lingers (sent (lingers w bytes)) = Unit {0}
Lingers _ = ⊥

Lingers-reset : (o : Processed) (mysql : Option ℕ) → Lingers o → mysql_after o mysql ≡ none
unfolding mysql_after
Lingers-reset (sent (lingers w bytes)) mysql l = refl
Lingers-reset (sent (closes w bytes)) mysql l = elim l [ ]
Lingers-reset (sent (broken w bytes)) mysql l = elim l [ ]
Lingers-reset (sent (sending w bytes)) mysql l = elim l [ ]
Lingers-reset (sent fault) mysql l = elim l [ ]
Lingers-reset (Process.dropped w) mysql l = elim l [ ]
Lingers-reset Process.broken mysql l = elim l [ ]
Lingers-reset Process.stuck mysql l = elim l [ ]

drop-nil : (n : ℕ) → drop {A = ℕ} n [] ≡ []
drop-nil zero = refl
drop-nil (suc n) = refl

drop-drop : (n : ℕ) (cs : List ℕ) → drop n (drop 1 cs) ≡ drop (suc n) cs
drop-drop n [] = drop-nil n
drop-drop n (c ∷ cs) = refl

module _ (site : Site) (einval : List ℕ → Bool) where
  abbrev pub outcome : Request → Processed
  outcome r = process site einval r.events r.status r.handler r.writer

  -- `none` is a null pointer in the queue.
  unfoldable pub run_body : Option Request → Pool → Pool
  unfolding get_connection release_connection mysql_after
  run_body none p = p
  run_body (some r) p =
      let (mysql, q) = get_connection p in (release_connection q (mysql_after (outcome r) mysql)).1

  -- One request after the other.
  unfoldable pub run : List (Option Request) → Pool → Pool
  unfolding run_body
  run [] p = p
  run (r ∷ rs) p = run rs (run_body r p)

  -- The answer of every request is sent whole, and its connection kept.
  abbrev pub AllLinger : List Request → Type 0
  AllLinger [] = Unit {0}
  AllLinger (r ∷ rs) = Lingers (outcome r) × AllLinger rs

  lingering :
      (r : Request) (p : Pool) → Lingers (outcome r) → run_body (some r) p ≡ (get_connection p).1
  unfolding run_body release_connection
  lingering r p l =
      ap (λ c. (release_connection (get_connection p).1 c).1)
        (Lingers-reset (outcome r) (get_connection p).0 l)

  taking-drop :
      (p : Pool) (cs : List ℕ) → p.conn_list ≡ cs → (take_first p cs).1.conn_list ≡ drop 1 cs
  unfolding take_first
  taking-drop p [] e = e
  taking-drop p (c ∷ cs) e = refl

  -- Each request whose answer is sent whole on a connection that is kept takes one connection from
  -- the pool for good: after any number of them, so many connections are gone from its front, all of
  -- them if there are no more; and a request that then finds none is processed with a null pointer.
  pub answered_requests_drain :
      (rs : List Request) (p : Pool)
      → AllLinger rs
      → (run (map some rs) p).conn_list ≡ drop (length rs) p.conn_list
  unfolding run
  answered_requests_drain [] p all_linger = refl
  answered_requests_drain (r ∷ rs) p (l, more) =
      answered_requests_drain rs (run_body (some r) p) more
      ∙ ap (drop (length rs))
          (ap (λ q. q.conn_list) (lingering r p l) ∙ taking-drop p p.conn_list refl)
      ∙ drop-drop (length rs) p.conn_list
