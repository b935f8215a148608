-- ===== src/Http/Request/Account.antt =====
-- Registration and login (src/http/http_conn.cpp, `do_request_`) as an account book: what a login
-- finds after a registration, and what a registration leaves alone.
use linux_image_server.Base.{
  ℕ, ◌+◌, true, false, Option, none, some, List, [], ◌∷◌, ◌++◌, ltb, length, Bool-cases,
  Option-cases, ◌≡◌, refl, ap, ◌↔◌, subst, inl, inr, arith, ◌≤◌, ◌<◌, lt→ltb, length-append,
  if◌then◌else◌,
}
use linux_image_server.CString.{codes}
use linux_image_server.Http.Request.{
  Site, Users, same_text, find_user, insert_user, insert_sql, register, login,
}

pub same_text_refl : (as' : List ℕ) → same_text as' as' ≡ true
same_text_refl [] = refl
same_text_refl (a ∷ as') = let rest = same_text_refl as' in ground arith

pub same_text-≡ : (as' bs : List ℕ) → same_text as' bs ≡ true → as' ≡ bs
same_text-≡ [] [] e = refl
same_text-≡ [] (b ∷ bs) e = absurd (ground arith)
same_text-≡ (a ∷ as') [] e = absurd (ground arith)
same_text-≡ (a ∷ as') (b ∷ bs) e = let rest = same_text-≡ as' bs in ground arith

-- A login is welcomed exactly where the map holds that password for that name.
pub login_lem :
    (site : Site) (users : Users) (name password : List ℕ)
    → (login site users name password ≡ codes "/welcome.html")
      ↔ (find_user name users ≡ some password)
unfolding login
login_lem site users name password = elim (Option-cases (find_user name users)) [
  | inl e ↦ rw (e) (ground arith)
  | inr (pw, e) ↦
      let good = same_text_refl password in
      let same = same_text-≡ pw password in rw (e) (ground arith)
]

login-head :
    (site : Site) (users : Users) (name password : List ℕ)
    → login site ((name, password) ∷ users) name password ≡ codes "/welcome.html"
unfolding login find_user
login-head site users name password =
    rw (same_text_refl name, login, find_user) (rw (same_text_refl password) refl)

insert_user-free :
    (users : Users) (name password : List ℕ)
    → find_user name users ≡ none
    → insert_user name password users ≡ (name, password) ∷ users
unfolding insert_user
insert_user-free users name password e = rw (e, insert_user) refl

clash : {A : Type 0} (o : Option A) (a : A) → o ≡ some a → o ≡ none → ⊥
clash none a e f = absurd (ground arith)
clash (some b) a e f = absurd (ground arith)

insert_user-keeps :
    (users : Users) (name password other pw : List ℕ)
    → find_user other users ≡ some pw
    → find_user other (insert_user name password users) ≡ some pw
unfolding insert_user find_user
insert_user-keeps users name password other pw e = elim (Option-cases (find_user name users)) [
  | inr (old, f) ↦ rw (f, insert_user) e
  | inl f ↦
      rw (f, insert_user)
        (elim (Bool-cases (same_text name other)) [
          | inl t ↦ absurd (
              clash (find_user other users) pw e
                (subst (λ n. find_user n users ≡ none) (same_text-≡ name other t) f))
          | inr t ↦ rw (t, find_user) e
        ])
]

length-insert_sql :
    (name password : List ℕ)
    → length (insert_sql name password) ≡ 49 + (length name + length password)
unfolding insert_sql
length-insert_sql name password = omega (
  arith,
  length-append name (39 ∷ 44 ∷ 32 ∷ 39 ∷ (password ++ 39 ∷ 41 ∷ [])),
  length-append password (39 ∷ 41 ∷ []),
)

register-free :
    (site : Site) (users : Users) (name password : List ℕ)
    → length (insert_sql name password) < 200
    → find_user name users ≡ none
    → register site users name password
      ≡ some (
        if site.query_fails (insert_sql name password)
            then codes "/registerError.html"
            else codes "/log.html",
        (name, password) ∷ users,
      )
unfolding register insert_user
register-free site users name password h e =
    rw (lt→ltb _ _ h, register)
      (rw (e, register)
        (ap
          (λ us. some (
            if site.query_fails (insert_sql name password)
                then codes "/registerError.html"
                else codes "/log.html",
            us,
          ))
          (insert_user-free users name password e)))

-- Registering a name that nobody has, with an insertion text that fits its 200 bytes, succeeds;
-- from then on a login with that name and password is welcomed, even when the database refused the
-- insertion, and what is found under any other name is what it was.
pub register-login :
    (site : Site) (users : Users) (name password : List ℕ)
    → length (insert_sql name password) < 200
    → find_user name users ≡ none
    → (page : List ℕ) × ((after : Users) × ((register site users name password ≡ some (page, after))
          × ((login site after name password ≡ codes "/welcome.html")
              × ((other : List ℕ)
                  → same_text name other ≡ false
                  → find_user other after ≡ find_user other users))))
unfolding find_user
register-login site users name password h e = (
  _,
  (
    (name, password) ∷ users,
    (
      register-free site users name password h e,
      (login-head site users name password, λ other o. rw (o, find_user) refl),
    ),
  ),
)

not_fits : (bs : List ℕ) → 200 ≤ length bs → ltb (length bs) 200 ≡ false
not_fits bs h = ground arith

-- A name and a password of 151 bytes together, which both arrays of 100 bytes have room for, make
-- the insertion text leave its array of 200 bytes, whoever is registered.
pub register_overflows :
    (site : Site) (users : Users) (name password : List ℕ)
    → 151 ≤ length name + length password
    → register site users name password ≡ none
unfolding register
register_overflows site users name password h =
    rw
      (
        not_fits (insert_sql name password) (omega (arith, length-insert_sql name password)),
        register,
      )
      refl

abbrev users_after : Users → Option (List ℕ × Users) → Users
users_after users none = users
users_after users (some (page, after)) = after

users_after-register :
    (site : Site) (users : Users) (name password : List ℕ)
    → ltb (length (insert_sql name password)) 200 ≡ true
    → users_after users (register site users name password) ≡ insert_user name password users
unfolding register insert_user
users_after-register site users name password h =
    rw (h, register)
      (elim (Option-cases (find_user name users)) [
        | inl f ↦ rw (f) refl
        | inr (old, f) ↦ rw (f, insert_user) refl
      ])

-- A registration that does not fault leaves every account as it was, also that of the same name.
pub register_keeps_accounts :
    (site : Site) (users after : Users) (name password other pw page : List ℕ)
    → register site users name password ≡ some (page, after)
    → find_user other users ≡ some pw
    → find_user other after ≡ some pw
unfolding register
register_keeps_accounts site users after name password other pw page r e =
    subst (λ us. find_user other us ≡ some pw) (ap (users_after users) r)
      (elim (Bool-cases (ltb (length (insert_sql name password)) 200)) [
        | inl t ↦
            rw (users_after-register site users name password t)
              (insert_user-keeps users name password other pw e)
        | inr f ↦ rw (f, register) e
      ])
