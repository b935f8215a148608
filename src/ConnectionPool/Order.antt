-- ===== src/ConnectionPool/Order.antt =====
-- Which connection a caller gets.
use linux_image_server.Base.{
  ℕ, zero, suc, ◌^◌, ◌<◌, ◌≡◌, refl, ap, ap₂, ◌∙◌, true, Option, none, some, List, [], ◌∷◌, ◌++◌,
  arith, length, map,
}
use linux_image_server.ConnectionPool.{
  Pool, increment, decrement, take_first, get_connection, release_connection, destroy_pool,
  close_all,
}

-- So many calls of get_connection in a row, with what they give.
unfoldable pub get_many : ℕ → Pool → List (Option ℕ) × Pool
get_many zero p = ([], p)
get_many (suc n) p = let (c, q) = get_connection p in let (cs, r) = get_many n q in (c ∷ cs, r)

abbrev taken : Pool → List ℕ → Pool
taken p cs = record p {
  conn_list = cs;
  free_conn = decrement p.free_conn;
  cur_conn = increment p.cur_conn;
}

pub get_connection-cons :
    (p : Pool) (c : ℕ) (cs : List ℕ)
    → p.conn_list ≡ c ∷ cs
    → get_connection p ≡ (some c, taken p cs)
unfolding get_connection take_first
get_connection-cons p c cs e = ap (take_first p) e

get_connection-nil : (p : Pool) → p.conn_list ≡ [] → get_connection p ≡ (none, p)
unfolding get_connection take_first
get_connection-nil p e = ap (take_first p) e

get_many-list :
    (cs : List ℕ) (p : Pool)
    → p.conn_list ≡ cs
    → ((get_many (length cs) p).0 ≡ map some cs) × ((get_many (length cs) p).1.conn_list ≡ [])
unfolding get_many
get_many-list [] p e = (refl, e)
get_many-list (c ∷ cs) p e =
    let first = get_connection-cons p c cs e in
    let rest = get_many-list cs (taken p cs) refl in
    (
      ap (λ r. r.0 ∷ (get_many (length cs) r.1).0) first ∙ ap (◌∷◌ (some c)) rest.0,
      ap (λ r. (get_many (length cs) r.1).1.conn_list) first ∙ rest.1,
    )

-- As many calls as there are connections give every connection once, the first in the list first,
-- and leave none; the call after them gives a null pointer and changes nothing.
pub get_many-drains :
    (p : Pool)
    → let (got, q) = get_many (length p.conn_list) p in
      (got ≡ map some p.conn_list) × (q.conn_list ≡ []) × (get_connection q ≡ (none, q))
get_many-drains p =
    let drained = get_many-list p.conn_list p refl in
    (drained.0, drained.1, get_connection-nil (get_many (length p.conn_list) p).1 drained.1)

increment-decrement : (n : ℕ) → n < 2 ^ 32 → increment (decrement n) ≡ n
increment-decrement n h = omega arith

decrement-increment : (n : ℕ) → n < 2 ^ 32 → decrement (increment n) ≡ n
decrement-increment n h = omega arith

-- A connection that is taken and given back goes to the end of the list, and both counters return
-- to where they were.
pub release-get :
    (p : Pool) (c : ℕ) (cs : List ℕ)
    → p.conn_list ≡ c ∷ cs
    → p.free_conn < 2 ^ 32
    → p.cur_conn < 2 ^ 32
    → let (got, q) = get_connection p in
      release_connection q got ≡ (true, record p { conn_list = cs ++ c ∷ [] })
unfolding release_connection
release-get p c cs e hf hc =
    ap (λ r. release_connection r.1 r.0) (get_connection-cons p c cs e)
    ∙ ap₂ (λ f k. (true, record p { conn_list = cs ++ c ∷ []; free_conn = f; cur_conn = k }))
        (increment-decrement p.free_conn hf) (decrement-increment p.cur_conn hc)

-- Destroying closes the connections in the list, once each, and no other; one that is out stays open.
pub destroy_pool_lem :
    (p : Pool) → ((destroy_pool p).0 ≡ p.conn_list) × ((destroy_pool p).1.conn_list ≡ [])
unfolding destroy_pool
destroy_pool_lem p = closed p p.conn_list refl
  where
    closed :
        (q : Pool) (cs : List ℕ)
        → q.conn_list ≡ cs
        → ((close_all q cs).0 ≡ cs) × ((close_all q cs).1.conn_list ≡ [])
    closed q [] e = unfold close_all in (refl, e)
    closed q (c ∷ cs) e = unfold close_all in (refl, refl)
