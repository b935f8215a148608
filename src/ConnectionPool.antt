-- ===== src/ConnectionPool.antt =====
-- `connectionPool` (src/CGImysql/sql_connection_pool.cpp): the idle database connections, in a list
-- that is served from the front. Each method holds the lock throughout, so it is one step. A
-- `MYSQL *` that is not null is a number; the unsigned counters have 32 bits.
pub mod Counts
pub mod Order
mod Tests
use linux_image_server.Base.{
  ℕ, ◌+◌, ◌-◌, ◌%◌, ◌^◌, Bool, true, false, Option, none, some, List, [], ◌∷◌, ◌++◌,
}

pub record Pool : Type 0 where
  pub conn_list : List ℕ
  pub max_conn : ℕ
  pub cur_conn : ℕ
  pub free_conn : ℕ

abbrev pub increment : ℕ → ℕ
increment n = (n + 1) % 2 ^ 32

abbrev pub decrement : ℕ → ℕ
decrement n = (n + 2 ^ 32 - 1) % 2 ^ 32

-- The loop of the constructor, over what mysql_real_connect gives; a null pointer ends the process
-- (`none`).
unfoldable pub connect_all : List (Option ℕ) → Pool → Option Pool
connect_all [] p = some p
connect_all (none ∷ cs) p = none
connect_all (some c ∷ cs) p =
    connect_all cs
      (record p { conn_list = p.conn_list ++ c ∷ []; free_conn = increment p.free_conn })

unfoldable pub connected : ℕ → Option Pool → Option Pool
connected max_conn none = none
connected max_conn (some p) = some (record p { max_conn = max_conn; cur_conn = 0 })

-- The constructor: `opened` has MaxConn results; FreeConn starts with whatever the memory holds.
unfoldable pub create : ℕ → ℕ → List (Option ℕ) → Option Pool
unfolding connect_all connected
create stale max_conn opened = connected max_conn (
    connect_all opened
      (record { conn_list = []; max_conn = max_conn; cur_conn = 0; free_conn = stale }))

-- `get_instance`: the pool that there is, and the one that the arguments make otherwise.
unfoldable pub get_instance : Option Pool → Option Pool → Option Pool
get_instance (some p) made = some p
get_instance none made = made

unfoldable pub take_first : Pool → List ℕ → Option ℕ × Pool
take_first p [] = (none, p)
take_first p (c ∷ rest) = (
  some c,
  record p { conn_list = rest; free_conn = decrement p.free_conn; cur_conn = increment p.cur_conn },
)

unfoldable pub get_connection : Pool → Option ℕ × Pool
unfolding take_first
get_connection p = take_first p p.conn_list

unfoldable pub release_connection : Pool → Option ℕ → Bool × Pool
release_connection p none = (false, p)
release_connection p (some c) = (
  true,
  record p {
    conn_list = p.conn_list ++ c ∷ [];
    free_conn = increment p.free_conn;
    cur_conn = decrement p.cur_conn;
  },
)

-- `_destroy_pool`, with the connections that it closes.
unfoldable pub close_all : Pool → List ℕ → List ℕ × Pool
close_all p [] = ([], p)
close_all p (c ∷ cs) = (c ∷ cs, record p { conn_list = []; cur_conn = 0; free_conn = 0 })

unfoldable pub destroy_pool : Pool → List ℕ × Pool
unfolding close_all
destroy_pool p = close_all p p.conn_list
