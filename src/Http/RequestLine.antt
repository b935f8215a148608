-- ===== src/Http/RequestLine.antt =====
-- `parse_request_` of src/http/http_conn.cpp: the request line at offset `text` of the read buffer,
-- which is cut into method, URL and version by NULs written in place.
pub mod Accept
use linux_image_server.Base.{
  ℕ, ◌+◌, Bool, true, false, Option, none, some, List, [], ◌∷◌, ◌++◌, ◌==◌, if◌then◌else◌, drop,
  set, get_or,
}
use linux_image_server.CString.{codes, cstr, strchr, strlen, eq_nocase, starts_nocase, splice}
use linux_image_server.Http.Types.{
  Parser, Method, get, post, head, HttpState, parsering, error_format, check_state_header,
}

-- The string at an offset of the read buffer.
abbrev pub string_at : Parser → ℕ → List ℕ
string_at p i = cstr (drop i p.read_buf)

abbrev pub find_from : ℕ → Parser → ℕ → Option ℕ
find_from c p i = elim (strchr c (drop i p.read_buf)) [ none ↦ none | some j ↦ some (i + j) ]

-- `strcat(m_url, "judge.html")`: the bytes go over the end of the URL and what follows it.
unfoldable pub complete_url : Parser → ℕ → Parser
complete_url p u =
    if strlen (drop u p.read_buf) == 1
    then record p { read_buf = splice (u + 1) (codes "judge.html" ++ 0 ∷ []) p.read_buf }
    else p

-- From `/* get version */` on.
unfoldable pub request_finish : Parser → ℕ → ℕ → HttpState × Parser
unfolding complete_url
request_finish p u v =
    if eq_nocase (string_at p v) (codes "HTTP/1.1")
    then (parsering, record (complete_url p u) { check_state = check_state_header })
    else (error_format, p)

-- The start of the path: behind the authority, if there is a scheme.
unfoldable pub strip_scheme : Parser → ℕ → Option ℕ
strip_scheme p u =
    if starts_nocase (codes "http://") (string_at p u)
    then find_from b'/' p (u + 7)
    else if starts_nocase (codes "https://") (string_at p u)
    then find_from b'/' p (u + 8)
    else some u

unfoldable pub request_path : Parser → ℕ → Option ℕ → HttpState × Parser
unfolding request_finish
request_path p v none = (error_format, record p { url = none })
request_path p v (some u) =
    if get_or p.read_buf u 0 == b'/'
    then request_finish (record p { url = some u }) u v
    else (error_format, record p { url = some u })

-- From `/* go locate version */` on.
unfoldable pub request_version : Parser → ℕ → HttpState × Parser
unfolding request_path strip_scheme
request_version p u = elim (find_from b' ' p u) [
  | none ↦ (error_format, record p { version = none })
  | some e ↦
      let q = record p { read_buf = set p.read_buf e 0; version = some (e + 1) } in
      request_path q (e + 1) (strip_scheme q u)
]

-- From `/* get method */` on.
unfoldable pub request_method : Parser → ℕ → ℕ → HttpState × Parser
unfolding request_version
request_method p text u =
    if eq_nocase (string_at p text) (codes "GET")
    then request_version (record p { method = get }) u
    else if eq_nocase (string_at p text) (codes "POST")
    then request_version (record p { method = post; cgi = true }) u
    else if eq_nocase (string_at p text) (codes "HEAD")
    then request_version (record p { method = head }) u
    else (error_format, p)

unfoldable pub parse_request : Parser → ℕ → HttpState × Parser
unfolding request_method
parse_request p text = elim (find_from b' ' p text) [
  | none ↦ (error_format, record p { url = none })
  | some e ↦
      request_method (record p { read_buf = set p.read_buf e 0; url = some (e + 1) }) text (e + 1)
]
