-- ===== src/Http/LoadTests.antt =====
-- The map of users after the server's start, at a concrete table.
use linux_image_server.Base.{ℕ, ◌≡◌, refl, ◌↔◌, arith, true, false, none, some, List, [], ◌∷◌}
use linux_image_server.CString.{codes}
use linux_image_server.ConnectionPool.{Pool, get_instance, get_connection}
use linux_image_server.Http.Request.{Users, login}
use linux_image_server.Http.Request.Load.{
  load_from, exited, loaded, initmysql_result, load_rows, last_row, whole, initmysql_result-login,
}
use linux_image_server.Http.Samples.{nowhere}

abbrev two_idle : Pool
two_idle = record { conn_list = 1 ∷ 2 ∷ []; max_conn = 2; cur_conn = 0; free_conn = 2 }

-- A name that stands in two rows.
abbrev table : List (List ℕ × List ℕ)
table = (codes "ann", codes "old") ∷ (codes "bob", codes "pw") ∷ (codes "ann", codes "new") ∷ []

initmysql_result-login_example :
    (us : Users) × ((initmysql_result
          (some two_idle)
          none
          (record { query_fails = false; result = some (whole table) })
          []
        ≡ loaded us (record two_idle { conn_list = 2 ∷ 1 ∷ [] }))
      × ((login nowhere us (codes "ann") (codes "new") ≡ codes "/welcome.html")
          ↔ (last_row (codes "ann") table ≡ some (codes "new"))))
initmysql_result-login_example =
    initmysql_result-login nowhere two_idle 1 (2 ∷ []) table (codes "ann") (codes "new") refl
      (omega arith) (omega arith)

last_wins : last_row (codes "ann") table ≡ some (codes "new")
unfolding last_row
last_wins = refl

null_field : load_rows ((some (codes "ann"), none) ∷ []) [] ≡ none
unfolding load_rows
null_field = refl

refused_query :
    initmysql_result (some two_idle) none (record { query_fails = true; result = none }) [] ≡ exited
unfolding initmysql_result get_instance get_connection load_from
refused_query = refl
