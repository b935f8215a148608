-- ===== src/ConnectionPool/Counts.antt =====
-- The counters of the pool against its list.
use linux_image_server.Base.{
  ℕ, ◌+◌, ◌-◌, ◌%◌, ◌^◌, ◌<◌, ◌≡◌, refl, sym, ap, ◌∙◌, Option, none, some, List, [], ◌∷◌, ◌++◌,
  arith, length, length-append, map, append-nil, append_assoc,
}
use linux_image_server.ConnectionPool.{
  Pool, increment, decrement, connect_all, connected, create, take_first, get_connection,
  release_connection,
}

-- FreeConn counts the list, and with CurConn it makes up MaxConn.
pub record IsCounted (p : Pool) : Type 0 where
  pub free : p.free_conn ≡ length p.conn_list
  pub total : p.cur_conn + length p.conn_list ≡ p.max_conn
  pub small : p.max_conn < 2 ^ 32

pub take_first-IsCounted :
    (p : Pool) (cs : List ℕ) → p.conn_list ≡ cs → IsCounted p → IsCounted (take_first p cs).1
unfolding take_first
take_first-IsCounted p [] e c = c
take_first-IsCounted p (x ∷ cs) e c = omega (arith, c.free, c.total, c.small, ap length e)

-- Taking a connection keeps the counters right, also when there is none.
pub get_connection-IsCounted : (p : Pool) → IsCounted p → IsCounted (get_connection p).1
unfolding get_connection
get_connection-IsCounted p c = take_first-IsCounted p p.conn_list refl c

-- Giving a connection or a null pointer back keeps the counters right, as long as one is out.
pub release_connection-IsCounted :
    (p : Pool) (c : Option ℕ) → IsCounted p → 0 < p.cur_conn → IsCounted (release_connection p c).1
unfolding release_connection
release_connection-IsCounted p none k h = k
release_connection-IsCounted p (some c) k h =
    omega (arith, k.free, k.total, k.small, length-append p.conn_list (c ∷ []))

-- A connection given to a pool from which none is out makes CurConn wrap to 2^32 - 1.
pub release_connection_wraps :
    (p : Pool) (c : ℕ)
    → p.cur_conn ≡ 0
    → ((release_connection p (some c)).1.cur_conn ≡ 2 ^ 32 - 1)
      × (length (release_connection p (some c)).1.conn_list ≡ length p.conn_list + 1)
unfolding release_connection
release_connection_wraps p c e = (omega (arith, ap decrement e), length-append p.conn_list (c ∷ []))

connect_all-list :
    (cs : List ℕ) (p : Pool)
    → (q : Pool) × (connect_all (map some cs) p ≡ some q)
      × (q.conn_list ≡ p.conn_list ++ cs)
      × (q.free_conn % 2 ^ 32 ≡ (p.free_conn + length cs) % 2 ^ 32)
unfolding connect_all
connect_all-list [] p = (p, refl, sym (append-nil p.conn_list), ap (λ n. n % 2 ^ 32) (omega arith))
connect_all-list (c ∷ cs) p =
    let (q, e, l, f) =
      connect_all-list cs
        (record p { conn_list = p.conn_list ++ c ∷ []; free_conn = increment p.free_conn }) in
    (q, e, l ∙ append_assoc p.conn_list (c ∷ []) cs, f ∙ omega arith)

-- The constructor keeps the connections in the order in which they were opened, with none out; but
-- FreeConn is never set to 0, so it counts from the value that the memory held before.
pub create_lem :
    (stale max_conn : ℕ) (cs : List ℕ)
    → (p : Pool) × (create stale max_conn (map some cs) ≡ some p)
      × (p.conn_list ≡ cs)
      × (p.cur_conn ≡ 0)
      × (p.free_conn % 2 ^ 32 ≡ (stale + length cs) % 2 ^ 32)
unfolding create connected
create_lem stale max_conn cs =
    let (q, e, l, f) =
      connect_all-list cs
        (record { conn_list = []; max_conn = max_conn; cur_conn = 0; free_conn = stale }) in
    (record q { max_conn = max_conn; cur_conn = 0 }, ap (connected max_conn) e, l, refl, f)
