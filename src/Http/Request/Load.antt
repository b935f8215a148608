-- ===== src/Http/Request/Load.antt =====
-- `initmysql_result` of src/http/http_conn.cpp: at its start the server copies the table of users to
-- the map that registration and login use.
use linux_image_server.Base.{
  ℕ, ◌<◌, ◌^◌, ◌≡◌, refl, sym, ap, ◌∙◌, ◌↔◌, Bool, true, false, Option, none, some, List, [], ◌∷◌,
  ◌++◌, map, if◌then◌else◌, Bool-cases, inl, inr, subst, arith,
}
use linux_image_server.CString.{codes}
use linux_image_server.ConnectionPool.{Pool, get_instance, get_connection, release_connection}
use linux_image_server.ConnectionPool.Order.{get_connection-cons, release-get}
use linux_image_server.Http.Request.{Site, Users, same_text, find_user, login}
use linux_image_server.Http.Request.Account.{login_lem, same_text_refl, same_text-≡}

-- `users[name] = password`.
unfoldable pub assign_user : List ℕ → List ℕ → Users → Users
assign_user name password [] = (name, password) ∷ []
assign_user name password ((n, pw) ∷ us) =
    let rest = assign_user name password us in
    if same_text n name then (n, password) ∷ us else (n, pw) ∷ rest

-- A row of two fields, which are null where the table holds NULL.
abbrev pub Row : Type 0
Row = Option (List ℕ) × Option (List ℕ)

-- The `while`; a std::string that is made from a null pointer is outside the model (`none`).
unfoldable pub load_rows : List Row → Users → Option Users
unfolding assign_user
load_rows [] us = some us
load_rows ((some name, some password) ∷ rows) us = load_rows rows (assign_user name password us)
load_rows ((none, password) ∷ rows) us = none
load_rows ((some name, none) ∷ rows) us = none

-- `exited`: the process has ended. `fault`: a null pointer is used.
pub data Loaded : Type 0 where
  exited fault : Loaded
  loaded : Users → Pool → Loaded

-- What mysql_query fails with and mysql_store_result gives, for a connection that is not null.
pub record Database : Type 0 where
  pub query_fails : Bool
  pub result : Option (List Row)

unfoldable pub finish_load : Option ℕ → Pool → Option Users → Loaded
unfolding release_connection
finish_load mysql p none = fault
finish_load mysql p (some us) = loaded us (release_connection p mysql).1

unfoldable pub load_result : Option ℕ → Pool → Option (List Row) → Users → Loaded
unfolding finish_load load_rows
load_result mysql p none us = fault
load_result mysql p (some rows) us = finish_load mysql p (load_rows rows us)

unfoldable pub load_from : Option ℕ → Pool → Database → Users → Loaded
unfolding load_result
load_from none p db us = fault
load_from (some c) p db us =
    let stored = load_result (some c) p db.result us in if db.query_fails then exited else stored

-- `get_instance`, with the pool that there is and the one that its arguments make.
unfoldable pub initmysql_result : Option Pool → Option Pool → Database → Users → Loaded
unfolding get_instance get_connection load_from
initmysql_result instance created db us = elim (get_instance instance created) [
  | none ↦ exited
  | some p ↦ let (mysql, q) = get_connection p in load_from mysql q db us
]

-- The password of the last row with the name.
unfoldable pub last_row : List ℕ → List (List ℕ × List ℕ) → Option (List ℕ)
last_row name [] = none
last_row name ((n, pw) ∷ rows) = elim (last_row name rows) [
  | some later ↦ some later
  | none ↦ if same_text n name then some pw else none
]

-- Rows without NULL.
abbrev pub whole : List (List ℕ × List ℕ) → List Row
whole = map (λ r. (some r.0, some r.1))

abbrev or_else : Option (List ℕ) → Option (List ℕ) → Option (List ℕ)
or_else (some pw) before = some pw
or_else none before = before

module _ {A : Type 0} where
  if_twice : (b : Bool) (x y z : A) → (if b then x else z) ≡ (if b then x else if b then y else z)
  if_twice true x y z = refl
  if_twice false x y z = refl

  if_swap :
      (a b : Bool) (x y z : A)
      → (a ≡ true → b ≡ true → ⊥)
      → (if a then x else if b then y else z) ≡ (if b then y else if a then x else z)
  if_swap true true x y z apart = absurd (apart refl refl)
  if_swap true false x y z apart = refl
  if_swap false b x y z apart = refl

find-assign :
    (name password other : List ℕ) (us : Users)
    → find_user other (assign_user name password us)
      ≡ (if same_text name other then some password else find_user other us)
unfolding find_user assign_user
find-assign name password other [] = refl
find-assign name password other ((n, pw) ∷ us) = elim (Bool-cases (same_text n name)) [
  | inl same ↦ rw same (rw (same_text-≡ n name same) (if_twice (same_text name other) _ _ _))
  | inr differ ↦ rw differ (
      rw (find-assign name password other us) (
        if_swap (same_text n other) (same_text name other) _ _ _ (λ a b.
          let n_is = same_text-≡ n other a in
          let name_is = same_text-≡ name other b in
          let bad : same_text n name ≡ true =
            subst (λ m. same_text n m ≡ true) (n_is ∙ sym name_is) (same_text_refl n) in
          absurd (ground arith))))
]

find-load :
    (rows : List (List ℕ × List ℕ)) (us : Users) (other : List ℕ)
    → (us' : Users) × ((load_rows (whole rows) us ≡ some us')
        × (find_user other us' ≡ or_else (last_row other rows) (find_user other us)))
unfolding load_rows last_row
find-load [] us other = (us, (refl, refl))
find-load ((n, pw) ∷ rows) us other =
    let (us', (ran, found)) = find-load rows (assign_user n pw us) other in
    (
      us',
      (
        ran,
        found
            ∙ ap (or_else (last_row other rows)) (find-assign n pw other us)
            ∙ later (last_row other rows) (same_text n other),
      ),
    )
  where
    later :
        (o : Option (List ℕ)) (b : Bool)
        → or_else o (if b then some pw else find_user other us)
          ≡ or_else
              (elim o [ some q ↦ some q | none ↦ if b then some pw else none ])
              (find_user other us)
    later (some q) b = refl
    later none true = refl
    later none false = refl

or_else-none : (o : Option (List ℕ)) → or_else o none ≡ o
or_else-none none = refl
or_else-none (some pw) = refl

load_from-some :
    (r : Option ℕ × Pool) (c : ℕ) (rows : List Row) (us us' : Users)
    → r.0 ≡ some c
    → load_rows rows us ≡ some us'
    → load_from r.0 r.1 (record { query_fails = false; result = some rows }) us
      ≡ loaded us' (release_connection r.1 r.0).1
unfolding load_from load_result finish_load
load_from-some (mysql, q) c rows us us' e ran = rw e (rw ran refl)

-- With a database that answers with rows without NULL, and a connection in the pool, whose counters
-- are below 2 ^ 32, `initmysql_result` gives the connection back, to the end of the list, and leaves
-- a map with which a login is welcomed exactly for the password of the last row with that name.
pub initmysql_result-login :
    (site : Site) (p : Pool) (c : ℕ) (cs : List ℕ) (rows : List (List ℕ × List ℕ))
    (name password : List ℕ)
    → p.conn_list ≡ c ∷ cs
    → p.free_conn < 2 ^ 32
    → p.cur_conn < 2 ^ 32
    → (us : Users) × ((initmysql_result
            (some p)
            none
            (record { query_fails = false; result = some (whole rows) })
            []
          ≡ loaded us (record p { conn_list = cs ++ c ∷ [] }))
        × ((login site us name password ≡ codes "/welcome.html")
            ↔ (last_row name rows ≡ some password)))
unfolding initmysql_result find_user
initmysql_result-login site p c cs rows name password e hf hc =
    let (us, (ran, found)) = find-load rows [] name in
    let held = found ∙ or_else-none (last_row name rows) in
    (
      us,
      (
        load_from-some (get_connection p) c (whole rows) [] us
              (ap (λ r. r.0) (get_connection-cons p c cs e)) ran
            ∙ ap (λ r. loaded us r.1) (release-get p c cs e hf hc),
        subst (λ o. (login site us name password ≡ codes "/welcome.html") ↔ (o ≡ some password))
            held (login_lem site us name password),
      ),
    )
