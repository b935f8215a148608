-- ===== src/Http/Tests.antt =====
-- The theorems about `HttpHandler` at concrete inputs.
use linux_image_server.Base.{
  ℕ, ◌∷◌, ◌++◌, ◌≡◌, ◌≢◌, refl, Bool, true, false, none, some, List, [], arith, length, drop,
}
use linux_image_server.CString.{codes, eq_nocase}
use linux_image_server.CString.Decimal.{pos}
use linux_image_server.CString.Laws.{NoNul, Lacks}
use linux_image_server.Http.Types.{
  Parser, get, parsering, check_state_requestline, check_state_header, line_open, line_ok,
}
use linux_image_server.Http.RequestLine.{parse_request}
use linux_image_server.Http.RequestLine.Accept.{get_token, parse_request-accepts}
use linux_image_server.Http.Line.{parse_line}
use linux_image_server.Http.Line.Complete.{parse_line-whole, IsLine}
use linux_image_server.Http.Parse.{parse, out_of_fuel}
use linux_image_server.Http.Parse.Terminates.{parse-ends}

abbrev request_line : List ℕ
request_line = codes "get /a HTTP/1.1"

-- A handler whose read buffer holds these bytes.
abbrev reading : List ℕ → Parser
reading bytes = record {
  read_buf = bytes;
  read_idx = length bytes;
  check_state = check_state_requestline;
  checked_idx = 0;
  start_line = 0;
  method = get;
  cgi = false;
  url = none;
  version = none;
  linger = true;
  content_length = pos 0;
  host = none;
  useragent = none;
  origin = none;
  content_type = none;
  encoding = none;
  upgrade = none;
  accept = none;
  referer = none;
  language = none;
  content = none;
  real_file = [];
}

abbrev cut_line : Parser
cut_line = reading (request_line ++ 0 ∷ 0 ∷ [])

abbrev no_einval : List ℕ → Bool
no_einval text = false

parse-ends_example :
    parse no_einval line_open (reading (request_line ++ codes "\r\n\r\n")) ≢ out_of_fuel
parse-ends_example = parse-ends no_einval line_open (reading (request_line ++ codes "\r\n\r\n"))

a-IsLine : IsLine (codes "a")
a-IsLine = ground arith

parse_line-whole_example :
    (q : Parser) × (parse_line (reading (codes "a\r\nb")) ≡ (line_ok, q))
    × (drop 0 q.read_buf ≡ codes "a" ++ 0 ∷ 0 ∷ codes "b")
    × (q ≡ record (reading (codes "a\r\nb")) { read_buf = q.read_buf; checked_idx = 3 })
parse_line-whole_example =
    parse_line-whole (reading (codes "a\r\nb")) (codes "a") (codes "b") refl a-IsLine (omega arith)

is_get : eq_nocase (codes "get") (codes "GET") ≡ true
unfolding eq_nocase
is_get = refl

is_version : eq_nocase (codes "HTTP/1.1") (codes "HTTP/1.1") ≡ true
unfolding eq_nocase
is_version = refl

clean_method : NoNul (codes "get") × Lacks b' ' (codes "get")
clean_method = ground arith

clean_path : NoNul (codes "/a") × Lacks b' ' (codes "/a")
clean_path = ground arith

clean_version : NoNul (codes "HTTP/1.1")
clean_version = ground arith

parse_request-accepts_example : parse_request cut_line 0 ≡ (
  parsering,
  record cut_line {
    read_buf = codes "get" ++ 0 ∷ (codes "/a" ++ 0 ∷ (codes "HTTP/1.1" ++ 0 ∷ 0 ∷ []));
    url = some 4;
    version = some 7;
    check_state = check_state_header;
  },
)
parse_request-accepts_example =
    parse_request-accepts cut_line 0 b'a' (codes "get") (codes "/a") [] (codes "HTTP/1.1") (0 ∷ [])
      refl clean_method.0 clean_method.1 clean_path.0 clean_path.1 refl clean_version is_version
      (get_token is_get)
