-- ===== src/Http/RequestLine/Accept.antt =====
-- `parse_request_` on a well-formed request line.
use linux_image_server.Base.{
  ℕ, suc, ◌+◌, ◌<◌, ◌≡◌, refl, ap, ◌∙◌, true, false, some, List, [], ◌∷◌, ◌++◌, arith, length, drop,
  set, get_or, ◌==◌, ==_iff,
}
use linux_image_server.CString.{
  codes, cstr, strchr, strlen, eq_nocase, starts_nocase, to_lower, index_of,
}
use linux_image_server.CString.Laws.{
  Lacks, NoNul, cstr-append_nul, drop-behind, set-append, get_or-drop,
}
use linux_image_server.Http.Types.{Parser, get, post, head, parsering, check_state_header}
use linux_image_server.Http.Line.Complete.{strchr-skip, drop-set}
use linux_image_server.Http.RequestLine.{
  string_at, find_from, complete_url, request_finish, strip_scheme, request_path, request_version,
  request_method, parse_request,
}

-- A token that the server takes for a method, and what it sets m_cgi to.
pub data Token (p : Parser) : List ℕ → Parser → Type 0 where
  get_token :
      {m : List ℕ} → eq_nocase m (codes "GET") ≡ true → Token p m (record p { method = get })
  post_token :
      {m : List ℕ}
      → eq_nocase m (codes "POST") ≡ true
      → Token p m (record p { method = post; cgi = true })
  head_token :
      {m : List ℕ} → eq_nocase m (codes "HEAD") ≡ true → Token p m (record p { method = head })

post-not-get : (m : List ℕ) → eq_nocase m (codes "POST") ≡ true → eq_nocase m (codes "GET") ≡ false
unfolding eq_nocase
post-not-get [] h = cc
post-not-get (b ∷ m) h = ground arith

head-not-get : (m : List ℕ) → eq_nocase m (codes "HEAD") ≡ true → eq_nocase m (codes "GET") ≡ false
unfolding eq_nocase
head-not-get [] h = cc
head-not-get (b ∷ m) h = ground arith

head-not-post :
    (m : List ℕ) → eq_nocase m (codes "HEAD") ≡ true → eq_nocase m (codes "POST") ≡ false
unfolding eq_nocase
head-not-post [] h = cc
head-not-post (b ∷ m) h = ground arith

request_method-Token :
    (p : Parser) (text u : ℕ) {m : List ℕ} {q : Parser}
    → string_at p text ≡ m
    → Token p m q
    → request_method p text u ≡ request_version q u
unfolding request_method
request_method-Token p text u e (get_token h) = rw (e, h)
request_method-Token p text u e (post_token {m} h) = rw (e, post-not-get m h, h)
request_method-Token p text u e (head_token {m} h) = rw (e, head-not-get m h, head-not-post m h, h)

strchr-here : (c : ℕ) (t : List ℕ) → 0 < c → strchr c (c ∷ t) ≡ some 0
unfolding strchr cstr index_of
strchr-here c t h = ground arith

find_from-skip :
    (c : ℕ) (p : Parser) (i : ℕ) (s t : List ℕ)
    → drop i p.read_buf ≡ s ++ c ∷ t
    → NoNul s
    → Lacks c s
    → 0 < c
    → find_from c p i ≡ some (i + length s)
find_from-skip c p i s t e h l positive = rw (found, find_from)
  where
    found : strchr c (drop i p.read_buf) ≡ some (length s)
    found =
        ap (strchr c) e
        ∙ strchr-skip c s (c ∷ t) h l (strchr-here c t positive)
        ∙ ap some (omega arith)

-- A NUL put behind the text at an offset.
cut_at :
    (p : Parser) (i : ℕ) (s t : List ℕ) (c : ℕ)
    → drop i p.read_buf ≡ s ++ c ∷ t
    → drop i (set p.read_buf (i + length s) 0) ≡ s ++ 0 ∷ t
cut_at p i s t c e =
    drop-set i (i + length s) (length s) 0 p.read_buf refl
    ∙ ap (λ l. set l (length s) 0) e
    ∙ set-append s t c 0

strip_scheme-path :
    (p : Parser) (u x : ℕ) (rest : List ℕ)
    → string_at p u ≡ b'/' ∷ x ∷ rest
    → strip_scheme p u ≡ some u
unfolding strip_scheme starts_nocase to_lower
strip_scheme-path p u x rest e = rw e

longer_than_one : (n : ℕ) → ((suc (suc n)) == 1) ≡ false
longer_than_one n = ground arith

complete_url-long :
    (p : Parser) (u x : ℕ) (rest : List ℕ) → string_at p u ≡ b'/' ∷ x ∷ rest → complete_url p u ≡ p
unfolding complete_url strlen
complete_url-long p u x rest e = rw (ap (λ l. length l == 1) e ∙ longer_than_one (length rest))

request_path-accepts :
    (p : Parser) (u v : ℕ) (x : ℕ) (rest version : List ℕ)
    → get_or p.read_buf u 0 ≡ b'/'
    → string_at p u ≡ b'/' ∷ x ∷ rest
    → string_at p v ≡ version
    → eq_nocase version (codes "HTTP/1.1") ≡ true
    → request_path p v (some u)
      ≡ (parsering, record p { url = some u; check_state = check_state_header })
unfolding request_path request_finish
request_path-accepts p u v x rest version slash eu ev h =
    let q = record p { url = some u } in
    let same : complete_url q u ≡ q = complete_url-long q u x rest eu in
    let is_slash : (get_or p.read_buf u 0 == b'/') ≡ true = (==_iff _ _).1 slash in
    let is_version : eq_nocase (string_at p v) (codes "HTTP/1.1") ≡ true =
      ap (λ l. eq_nocase l (codes "HTTP/1.1")) ev ∙ h in
    rw (is_slash, is_version)
      (ap (λ r. (parsering, record r { check_state = check_state_header })) same)

abbrev versioned : Parser → ℕ → Parser
versioned p e = record p { read_buf = set p.read_buf e 0; version = some (e + 1) }

request_version-found :
    (p : Parser) (u e : ℕ)
    → find_from b' ' p u ≡ some e
    → request_version p u ≡ request_path (versioned p e) (e + 1) (strip_scheme (versioned p e) u)
unfolding request_version
request_version-found p u e found = rw (found, request_version)

request_version-path :
    (p : Parser) (u x : ℕ) (path rest v t : List ℕ)
    → drop u p.read_buf ≡ path ++ b' ' ∷ (v ++ 0 ∷ t)
    → NoNul path
    → Lacks b' ' path
    → path ≡ b'/' ∷ x ∷ rest
    → NoNul v
    → eq_nocase v (codes "HTTP/1.1") ≡ true
    → request_version p u ≡ (
      parsering,
      record p {
        read_buf = set p.read_buf (u + length path) 0;
        url = some u;
        version = some (u + length path + 1);
        check_state = check_state_header;
      },
    )
request_version-path p u x path rest v t e np lp ep nv ev =
    let q = versioned p (u + length path) in
    let split : drop u q.read_buf ≡ path ++ 0 ∷ (v ++ 0 ∷ t) =
      cut_at p u path (v ++ 0 ∷ t) b' ' e in
    let at_url : string_at q u ≡ b'/' ∷ x ∷ rest =
      ap cstr split ∙ cstr-append_nul path (v ++ 0 ∷ t) np ∙ ep in
    let at_version : string_at q (u + length path + 1) ≡ v =
      ap cstr (drop-behind u q.read_buf path (v ++ 0 ∷ t) 0 split) ∙ cstr-append_nul v t nv in
    let slash : get_or q.read_buf u 0 ≡ b'/' =
      get_or-drop u q.read_buf b'/' _ (split ∙ ap (λ l. l ++ 0 ∷ (v ++ 0 ∷ t)) ep) in
    request_version-found p u (u + length path)
      (find_from-skip b' ' p u path (v ++ 0 ∷ t) e np lp (omega arith))
    ∙ ap (request_path q (u + length path + 1)) (strip_scheme-path q u x rest at_url)
    ∙ request_path-accepts q u (u + length path + 1) x rest v slash at_url at_version ev

abbrev named_url : Parser → ℕ → Parser
named_url p e = record p { read_buf = set p.read_buf e 0; url = some (e + 1) }

parse_request-found :
    (p : Parser) (text e : ℕ)
    → find_from b' ' p text ≡ some e
    → parse_request p text ≡ request_method (named_url p e) text (e + 1)
unfolding parse_request
parse_request-found p text e found = rw (found, parse_request)

read_buf-Token : {p q : Parser} {m : List ℕ} → Token p m q → q.read_buf ≡ p.read_buf
read_buf-Token (get_token h) = refl
read_buf-Token (post_token h) = refl
read_buf-Token (head_token h) = refl

-- A request line `METHOD path HTTP/1.1`, ended by a NUL and with no other space or NUL in the
-- method and the path, with a method that is served, in any case of letters, and a path of at
-- least two bytes that begins with a slash, is accepted: the state goes on to the headers, the
-- method is noted, the URL pointer stands at the path and the version pointer at the version,
-- each ended by a NUL.
pub parse_request-accepts :
    (p : Parser) (text x : ℕ) (m path rest v t : List ℕ) {q : Parser}
    → drop text p.read_buf ≡ m ++ b' ' ∷ (path ++ b' ' ∷ (v ++ 0 ∷ t))
    → NoNul m
    → Lacks b' ' m
    → NoNul path
    → Lacks b' ' path
    → path ≡ b'/' ∷ x ∷ rest
    → NoNul v
    → eq_nocase v (codes "HTTP/1.1") ≡ true
    → Token (named_url p (text + length m)) m q
    → parse_request p text ≡ (
      parsering,
      record q {
        read_buf = set q.read_buf (text + length m + 1 + length path) 0;
        url = some (text + length m + 1);
        version = some (text + length m + 1 + length path + 1);
        check_state = check_state_header;
      },
    )
parse_request-accepts p text x m path rest v t {q} e nm lm np lp ep nv ev token =
    let line = path ++ b' ' ∷ (v ++ 0 ∷ t) in
    let p1 = named_url p (text + length m) in
    let split : drop text p1.read_buf ≡ m ++ 0 ∷ line = cut_at p text m line b' ' e in
    let at_method : string_at p1 text ≡ m = ap cstr split ∙ cstr-append_nul m line nm in
    let u = text + length m + 1 in
    parse_request-found p text (text + length m)
      (find_from-skip b' ' p text m line e nm lm (omega arith))
    ∙ request_method-Token p1 text u at_method token
    ∙ request_version-path q u x path rest v t
        (ap (drop u) (read_buf-Token token) ∙ drop-behind text p1.read_buf m line 0 split) np lp ep
        nv ev
