-- ===== src/Http/Headers.antt =====
-- `parse_headers_` of src/http/http_conn.cpp: one header line at offset `text` of the read buffer.
use linux_image_server.Base.{
  ℕ, ◌+◌, Bool, false, none, some, List, ◌==◌, if◌then◌else◌, drop, set, get_or, length,
}
use linux_image_server.CString.{codes, index_of_blank, starts_nocase, span_blank}
use linux_image_server.CString.Decimal.{ℤ, pos, strtol}
use linux_image_server.Http.Types.{
  Parser, HttpState, parsering, error_format, ready_request, check_state_content,
}
use linux_image_server.Http.RequestLine.{string_at}

-- `strncasecmp(text, name, n) == 0`.
abbrev pub named : Parser → ℕ → List ℕ → Bool
named p text name = starts_nocase name (string_at p text)

-- `text += n; text += strspn(text, " \t")`.
unfoldable pub value_at : Parser → ℕ → List ℕ → ℕ
value_at p text name = let v = text + length name in v + span_blank (drop v p.read_buf)

-- The end of the function: the text is cut at its first blank.
unfoldable pub cut_value : Parser → ℕ → HttpState × Parser
cut_value p text = elim (index_of_blank (string_at p text)) [
  | none ↦ (parsering, p)
  | some i ↦ (parsering, record p { read_buf = set p.read_buf (text + i) 0 })
]

abbrev pub is_zero_int : ℤ → Bool
is_zero_int (pos n) = n == 0
is_zero_int z = false

unfoldable pub headers_end : Parser → HttpState × Parser
headers_end p =
    if is_zero_int p.content_length
    then (ready_request, p)
    else (parsering, record p { check_state = check_state_content })

unfoldable pub set_connection : Parser → ℕ → Parser
set_connection p v =
    if starts_nocase (codes "close") (string_at p v) then record p { linger = false } else p

-- `einval` says whether errno is EINVAL after strtol has read the given text.
module _ (einval : List ℕ → Bool) where
  unfoldable pub set_content_length : Parser → ℕ → HttpState × Parser
  unfolding cut_value
  set_content_length p v =
      let q = record p { content_length = strtol (string_at p v) } in
      if einval (string_at p v) then (error_format, q) else cut_value q v

  -- The headers whose value is only pointed at.
  unfoldable pub plain_header : Parser → ℕ → HttpState × Parser
  unfolding cut_value value_at
  plain_header p text =
      let value = value_at p text in
      let is = named p text in
      if is (codes "Host:")
      then (let v = value (codes "Host:") in cut_value (record p { host = some v }) v)
      else if is (codes "User-Agent:")
      then (let v = value (codes "User-Agent:") in cut_value (record p { useragent = some v }) v)
      else if is (codes "Origin:")
      then (let v = value (codes "Origin:") in cut_value (record p { origin = some v }) v)
      else if is (codes "Content-Type:")
      then (let v = value (codes "Content-Type:") in
          cut_value (record p { content_type = some v }) v)
      else if is (codes "Accept-Encoding:")
      then (let v = value (codes "Accept-Encoding:") in
          cut_value (record p { encoding = some v }) v)
      else if is (codes "Upgrade-Insecure-Requests:")
      then (let v = value (codes "Upgrade-Insecure-Requests:") in
          cut_value (record p { upgrade = some v }) v)
      else if is (codes "Accept:")
      then (let v = value (codes "Accept:") in cut_value (record p { accept = some v }) v)
      else if is (codes "Referer:")
      then (let v = value (codes "Referer:") in cut_value (record p { referer = some v }) v)
      else if is (codes "Accept_Language:")
      then (let v = value (codes "Accept_Language:") in
          cut_value (record p { language = some v }) v)
      else cut_value p text

  unfoldable pub parse_headers : Parser → ℕ → HttpState × Parser
  unfolding headers_end set_connection set_content_length plain_header value_at
  parse_headers p text =
      if get_or p.read_buf text 0 == 0
      then headers_end p
      else if named p text (codes "Connection:")
      then (let v = value_at p text (codes "Connection:") in cut_value (set_connection p v) v)
      else if named p text (codes "Content-length:")
      then set_content_length p (value_at p text (codes "Content-length:"))
      else plain_header p text
