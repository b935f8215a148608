-- ===== src/Http/Request.antt =====
-- `do_request_` of src/http/http_conn.cpp, as it is compiled with SYNSQL (src/include/define.h):
-- login and registration against the map `users`, the choice of the file, and its opening. `none`
-- is an access outside an array or through a null pointer.
pub mod Account
pub mod Load
pub mod Path
use linux_image_server.Base.{
  ℕ, zero, suc, ◌+◌, ◌-◌, Bool, true, false, ◌&&◌, ◌||◌, Option, none, some, List, [], ◌∷◌, ◌++◌,
  ltb, leb, ◌==◌, if◌then◌else◌, ◌>>=◌, length, take, drop, get_or, replicate,
}
use linux_image_server.CString.{codes, cstr, index_of, last_index_of, store, strlen}
use linux_image_server.Http.Types.{
  Parser, filename_len, HttpState, error_format, error_accessfailed, error_filenotfound,
  finished_request, internal_error,
}

-- `m_file_stat`: st_size, S_IROTH of st_mode, and S_ISDIR.
pub record FileStat : Type 0 where
  pub size : ℕ
  pub others_read : Bool
  pub is_dir : Bool

-- What lies outside the program: __ROOTPATH__, mysql_query (true if it fails), and the results of
-- stat, open, mmap (the bytes mapped) and close on a path.
pub record Site : Type 0 where
  pub root : List ℕ
  pub query_fails : List ℕ → Bool
  pub stat : List ℕ → Option FileStat
  pub can_open : List ℕ → Bool
  pub map_file : List ℕ → Option (List ℕ)
  pub can_close : List ℕ → Bool

abbrev pub Users : Type 0
Users = List (List ℕ × List ℕ)

abbrev pub same_text : List ℕ → List ℕ → Bool
same_text [] [] = true
same_text [] (b ∷ bs) = false
same_text (a ∷ as') [] = false
same_text (a ∷ as') (b ∷ bs) = (a == b) && same_text as' bs

-- `users.find`, and `users.insert`, which changes nothing where the key is there.
unfoldable pub find_user : List ℕ → Users → Option (List ℕ)
find_user name [] = none
find_user name ((n, pw) ∷ us) = if same_text n name then some pw else find_user name us

unfoldable pub insert_user : List ℕ → List ℕ → Users → Users
unfolding find_user
insert_user name password us = elim (find_user name us) [
  | some old ↦ us
  | none ↦ (name, password) ∷ us
]

-- The handler's fields that the function changes, and the shared map.
pub record Handler : Type 0 where
  pub parser : Parser
  pub users : Users
  pub file_stat : Option FileStat
  pub file : Option (List ℕ)

abbrev check : Bool → Option (Unit {0})
check true = some tt
check false = none

infixl 5 ◌>>◌
abbrev ◌>>◌ {ℓ} : {B : Type ℓ} → Option (Unit {0}) → Option B → Option B
m >> k = m >>= λ _. k

-- A copy into m_real_file, and strcpy to m_url.
unfoldable pub write_real_file : Parser → ℕ → List ℕ → Option Parser
write_real_file p off bs = do file ← store off bs p.real_file; some (record p { real_file = file })

unfoldable pub write_url : Parser → ℕ → List ℕ → Option Parser
write_url p u page = do
  buf ← store u (page ++ 0 ∷ []) p.read_buf
  some (record p { read_buf = buf })

-- `name`: the bytes from `m_content + 5` up to `&`, with the offset of the `&`.
unfoldable pub read_name : Parser → ℕ → Option (List ℕ × ℕ)
read_name p content = do
  i ← index_of b'&' (drop (content + 5) p.read_buf)
  check (ltb i 100)
  some (take i (drop (content + 5) p.read_buf), content + 5 + i)

-- `password`: the string ten bytes behind the `&`.
unfoldable pub read_password : Parser → ℕ → Option (List ℕ)
read_password p amp = do
  i ← index_of 0 (drop (amp + 10) p.read_buf)
  check (ltb i 100)
  some (take i (drop (amp + 10) p.read_buf))

unfoldable pub insert_sql : List ℕ → List ℕ → List ℕ
insert_sql name password =
    codes "INSERT INTO user(username, passwd) VALUES('"
    ++ (name ++ (codes "', '" ++ (password ++ codes "')")))

module _ (site : Site) where
  -- `/* if register */`, with the C strings of the two arrays. `sql_insert` has 200 bytes.
  unfoldable pub register : Users → List ℕ → List ℕ → Option (List ℕ × Users)
  unfolding find_user insert_user insert_sql
  register users name password = do
    check (ltb (length (insert_sql name password)) 200)
    elim (find_user name users) [
      | some old ↦ some (codes "/registerError.html", users)
      | none ↦ some (
        if site.query_fails (insert_sql name password)
            then codes "/registerError.html"
            else codes "/log.html",
        insert_user name password users,
      )
    ]

  -- `/* if login */`.
  unfoldable pub login : Users → List ℕ → List ℕ → List ℕ
  unfolding find_user
  login users name password = elim (find_user name users) [
    | none ↦ codes "/logError.html"
    | some pw ↦ if same_text pw password then codes "/welcome.html" else codes "/logError.html"
  ]

  unfoldable pub account_page : ℕ → Users → List ℕ → List ℕ → Option (List ℕ × Users)
  unfolding register login
  account_page flag users name password =
      if flag == b'3' then register users name password else some (login users name password, users)

  -- `/* deal with CGI */`: `u` is m_url, `flag` the byte behind its last slash.
  unfoldable pub do_account : Handler → ℕ → ℕ → Option Handler
  unfolding write_real_file write_url read_name read_password account_page
  do_account h u flag = do
    let real_url = b'/' ∷ cstr (drop (u + 2) h.parser.read_buf)
    check (ltb (length real_url) 200)
    p ← write_real_file h.parser (strlen h.parser.real_file) (real_url ++ 0 ∷ [])
    content ← p.content
    (name, amp) ← read_name p content
    password ← read_password p amp
    (page, users) ← account_page flag h.users (cstr name) (cstr password)
    q ← write_url p u page
    some (record h { parser = q; users = users })

  -- The page that a digit behind the last slash stands for.
  unfoldable pub page_of : ℕ → Option (List ℕ)
  page_of c =
      if c == b'0'
      then some (codes "/register.html")
      else if c == b'1'
      then some (codes "/log.html")
      else if c == b'5'
      then some (codes "/picture.html")
      else if c == b'6'
      then some (codes "/video.html")
      else if c == b'7'
      then some (codes "/fans.html")
      else none

  -- strncpy: `n` bytes, of the string and then NULs.
  unfoldable pub strncpy_bytes : List ℕ → ℕ → List ℕ
  strncpy_bytes s n = take n (cstr s ++ replicate n 0)

  -- From `if (*(p + 1) == '0')` to the last `strncpy`; `flag_at` is `p + 1`.
  unfoldable pub choose_file : Parser → ℕ → ℕ → Option Parser
  unfolding page_of strncpy_bytes write_real_file
  choose_file p u flag_at =
      let len = length site.root in
      elim (page_of (get_or p.read_buf flag_at 0)) [
        | some page ↦ write_real_file p len page
        | none ↦ write_real_file p len (strncpy_bytes (drop u p.read_buf) (filename_len - len - 1))
      ]

  -- From `stat` on. The pointer that a failed mmap leaves is not null and no memory is behind it.
  unfoldable pub fetch_file : Handler → FileStat → List ℕ → HttpState × Handler
  fetch_file h st path =
      let seen = record h { file_stat = some st } in
      if st.others_read
      then (if st.is_dir
          then (error_format, seen)
          else if site.can_open path
          then (elim (site.map_file path) [
            | none ↦ (internal_error, record seen { file = some [] })
            | some bytes ↦
                let mapped = record seen { file = some bytes } in
                if site.can_close path then (finished_request, mapped) else (internal_error, mapped)
          ])
          else (error_accessfailed, seen))
      else (error_accessfailed, seen)

  unfoldable pub fetch : Handler → HttpState × Handler
  unfolding fetch_file
  fetch h =
      let path = cstr h.parser.real_file in
      elim (site.stat path) [ none ↦ (error_filenotfound, h) | some st ↦ fetch_file h st path ]

  unfoldable pub with_account : Handler → ℕ → ℕ → Option Handler
  unfolding do_account
  with_account h u flag =
      let done = do_account h u flag in
      if h.parser.cgi && ((flag == b'2') || (flag == b'3')) then done else some h

  unfoldable pub do_request : Handler → Option (HttpState × Handler)
  unfolding write_real_file with_account choose_file fetch
  do_request h = do
    p ← write_real_file h.parser 0 (site.root ++ 0 ∷ [])
    u ← p.url
    slash ← last_index_of b'/' (cstr (drop u p.read_buf))
    let flag_at = u + slash + 1
    h' ← with_account (record h { parser = p }) u (get_or p.read_buf flag_at 0)
    q ← choose_file h'.parser u flag_at
    some (fetch (record h' { parser = q }))
