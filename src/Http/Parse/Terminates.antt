-- ===== src/Http/Parse/Terminates.antt =====
-- The loop of `parse_` ends: every round but the last moves m_checked_idx forward in the buffer.
use linux_image_server.Base.{
  ℕ, zero, suc, ◌+◌, ◌-◌, ◌<◌, ◌≡◌, ◌≢◌, refl, ◌∙◌, inl, inr, Bool, true, false, Option, none, some,
  List, arith, length, length-set, branch, get_or, ◌==◌, if◌then◌else◌, Option-cases, set,
}
use linux_image_server.CString.{codes, index_of_blank}
use linux_image_server.CString.Laws.{length-splice}
use linux_image_server.CString.Decimal.{strtol}
use linux_image_server.Http.Types.{
  Parser, get, post, head, ParseState, check_state_requestline, check_state_header,
  check_state_content, HttpState, error_format, ready_request, LineState, line_ok,
}
use linux_image_server.Http.Line.{parse_line, scans_stop}
use linux_image_server.Http.Line.Complete.{Keeps, parse_line-Advances}
use linux_image_server.Http.RequestLine.{
  find_from, string_at, complete_url, request_finish, request_path, strip_scheme, request_version,
  request_method, parse_request,
}
use linux_image_server.Http.Headers.{
  named, value_at, cut_value, headers_end, set_connection, set_content_length, plain_header,
  parse_headers,
}
use linux_image_server.Http.Parse.{
  Parsed, out_of_fuel, body_end, terminate_body, parse_content, after_line, parse_step,
  after_parse_line, parse_next_line, parse_condition, parse_loop, parse,
}

if_Keeps :
    {p : Parser} (b : Bool) (x y : HttpState × Parser)
    → Keeps p x.1
    → Keeps p y.1
    → Keeps p (if b then x else y).1
if_Keeps true x y k l = k
if_Keeps false x y k l = l

complete_url-Keeps : (p : Parser) (u : ℕ) → Keeps p (complete_url p u)
unfolding complete_url
complete_url-Keeps p u = ground (arith, length-splice (u + 1) (codes "judge.html\0") p.read_buf)

request_finish-Keeps : (p : Parser) (u v : ℕ) → Keeps p (request_finish p u v).1
unfolding request_finish
request_finish-Keeps p u v = ground (arith, complete_url-Keeps p u)

request_path-Keeps : (p : Parser) (v : ℕ) (o : Option ℕ) → Keeps p (request_path p v o).1
unfolding request_path
request_path-Keeps p v none = record { place = refl; size = refl }
request_path-Keeps p v (some u) =
    ground (arith, request_finish-Keeps (record p { url = some u }) u v)

Keeps-trans : {p q r : Parser} → Keeps p q → Keeps q r → Keeps p r
Keeps-trans a b = record { place = b.place ∙ a.place; size = b.size ∙ a.size }

request_version-Keeps : (p : Parser) (u : ℕ) → Keeps p (request_version p u).1
unfolding request_version
request_version-Keeps p u = elim (Option-cases (find_from b' ' p u)) [
  | inl e ↦ rw (e, request_version) (record { place = refl; size = refl })
  | inr (i, e) ↦
      let q = record p { read_buf = set p.read_buf i 0; version = some (i + 1) } in
      let kept : Keeps p q = record { place = refl; size = length-set p.read_buf i 0 } in
      rw (e, request_version) (Keeps-trans kept (request_path-Keeps q (i + 1) (strip_scheme q u)))
]

request_method-Keeps : (p : Parser) (text u : ℕ) → Keeps p (request_method p text u).1
unfolding request_method
request_method-Keeps p text u = ground (
  arith,
  request_version-Keeps (record p { method = get }) u,
  request_version-Keeps (record p { method = post; cgi = true }) u,
  request_version-Keeps (record p { method = head }) u,
)

parse_request-Keeps : (p : Parser) (text : ℕ) → Keeps p (parse_request p text).1
unfolding parse_request
parse_request-Keeps p text = elim (Option-cases (find_from b' ' p text)) [
  | inl e ↦ rw (e, parse_request) (record { place = refl; size = refl })
  | inr (i, e) ↦
      let q = record p { read_buf = set p.read_buf i 0; url = some (i + 1) } in
      let kept : Keeps p q = record { place = refl; size = length-set p.read_buf i 0 } in
      rw (e, parse_request) (Keeps-trans kept (request_method-Keeps q text (i + 1)))
]

cut_value-Keeps : {p : Parser} (q : Parser) (v : ℕ) → Keeps p q → Keeps p (cut_value q v).1
unfolding cut_value
cut_value-Keeps q v k = elim (Option-cases (index_of_blank (string_at q v))) [
  | inl e ↦ rw (e, cut_value) k
  | inr (i, e) ↦
      rw (e, cut_value)
        (Keeps-trans k (record { place = refl; size = length-set q.read_buf (v + i) 0 }))
]

module _ (einval : List ℕ → Bool) where
  plain_header-Keeps : (p : Parser) (text : ℕ) → Keeps p (plain_header einval p text).1
  unfolding plain_header
  plain_header-Keeps p text =
      let at = value_at p text in
      (if_Keeps (named p text (codes "Host:")) _ _
        (cut_value-Keeps (record p { host = some (at (codes "Host:")) }) (at (codes "Host:"))
          (record { place = refl; size = refl }))
        (if_Keeps (named p text (codes "User-Agent:")) _ _
          (cut_value-Keeps (record p { useragent = some (at (codes "User-Agent:")) })
            (at (codes "User-Agent:")) (record { place = refl; size = refl }))
          (if_Keeps (named p text (codes "Origin:")) _ _
            (cut_value-Keeps (record p { origin = some (at (codes "Origin:")) })
              (at (codes "Origin:")) (record { place = refl; size = refl }))
            (if_Keeps (named p text (codes "Content-Type:")) _ _
              (cut_value-Keeps (record p { content_type = some (at (codes "Content-Type:")) })
                (at (codes "Content-Type:")) (record { place = refl; size = refl }))
              (if_Keeps (named p text (codes "Accept-Encoding:")) _ _
                (cut_value-Keeps (record p { encoding = some (at (codes "Accept-Encoding:")) })
                  (at (codes "Accept-Encoding:")) (record { place = refl; size = refl }))
                (if_Keeps (named p text (codes "Upgrade-Insecure-Requests:")) _ _
                  (cut_value-Keeps
                    (record p { upgrade = some (at (codes "Upgrade-Insecure-Requests:")) })
                    (at (codes "Upgrade-Insecure-Requests:"))
                    (record { place = refl; size = refl }))
                  (if_Keeps (named p text (codes "Accept:")) _ _
                    (cut_value-Keeps (record p { accept = some (at (codes "Accept:")) })
                      (at (codes "Accept:")) (record { place = refl; size = refl }))
                    (if_Keeps (named p text (codes "Referer:")) _ _
                      (cut_value-Keeps (record p { referer = some (at (codes "Referer:")) })
                        (at (codes "Referer:")) (record { place = refl; size = refl }))
                      (if_Keeps (named p text (codes "Accept_Language:")) _ _
                        (cut_value-Keeps
                          (record p { language = some (at (codes "Accept_Language:")) })
                          (at (codes "Accept_Language:")) (record { place = refl; size = refl }))
                        (cut_value-Keeps p text (record { place = refl; size = refl })))))))))))

  set_content_length-Keeps : (p : Parser) (v : ℕ) → Keeps p (set_content_length einval p v).1
  unfolding set_content_length
  set_content_length-Keeps p v =
      let q = record p { content_length = strtol (string_at p v) } in
      let same : Keeps p q = record { place = refl; size = refl } in
      if_Keeps (einval (string_at p v)) _ _ same (cut_value-Keeps q v same)

  set_connection-Keeps : (p : Parser) (v : ℕ) → Keeps p (set_connection p v)
  unfolding set_connection
  set_connection-Keeps p v = ground arith

  headers_end-Keeps : (p : Parser) → Keeps p (headers_end p).1
  unfolding headers_end
  headers_end-Keeps p = ground arith

  parse_headers-Keeps : (p : Parser) (text : ℕ) → Keeps p (parse_headers einval p text).1
  unfolding parse_headers
  parse_headers-Keeps p text = if_Keeps (get_or p.read_buf text 0 == 0) _ _ (headers_end-Keeps p) (
      if_Keeps (named p text (codes "Connection:")) _ _
        (cut_value-Keeps (set_connection p (value_at p text (codes "Connection:")))
          (value_at p text (codes "Connection:"))
          (set_connection-Keeps p (value_at p text (codes "Connection:"))))
        (if_Keeps (named p text (codes "Content-length:")) _ _
          (set_content_length-Keeps p (value_at p text (codes "Content-length:")))
          (plain_header-Keeps p text)))

abbrev Ends : Parsed → Type 0
Ends r = r ≢ out_of_fuel

parse_content-Ends : (p : Parser) (text : ℕ) → Ends (parse_content p text)
unfolding parse_content
parse_content-Ends p text = ground (arith, terminated p text (body_end text p.content_length))
  where
    terminated : (q : Parser) (t : ℕ) (o : Option ℕ) → Ends (terminate_body q t o)
    terminated q t none = λ e. cc
    terminated q t (some i) = unfold terminate_body in ground arith

module _ (einval : List ℕ → Bool) (continue : Parser → Parsed) where
  after_line-Ends :
      (r : HttpState × Parser) → Ends (continue r.1) → Ends (after_line einval continue r)
  unfolding after_line
  after_line-Ends (error_format, p) h = λ e. cc
  after_line-Ends (ready_request, p) h = λ e. cc
  after_line-Ends (_, p) h = h

  parse_step-Ends :
      (s : ParseState) (p : Parser)
      → ((q : Parser) → Keeps p q → Ends (continue q))
      → Ends (parse_step einval continue s p)
  unfolding parse_step
  parse_step-Ends check_state_requestline p h =
      let k = parse_request-Keeps (record p { start_line = p.checked_idx }) p.start_line in
      after_line-Ends _ (h _ (record { place = k.place; size = k.size }))
  parse_step-Ends check_state_header p h =
      let k = parse_headers-Keeps einval (record p { start_line = p.checked_idx }) p.start_line in
      after_line-Ends _ (h _ (record { place = k.place; size = k.size }))
  parse_step-Ends check_state_content p h =
      parse_content-Ends (record p { start_line = p.checked_idx }) p.start_line

  after_parse_line-Ends :
      (l : LineState × Parser)
      → (l.0 ≡ line_ok → (q : Parser) → Keeps l.1 q → Ends (continue q))
      → Ends (after_parse_line einval continue l)
  unfolding after_parse_line
  after_parse_line-Ends (line_ok, p) h = parse_step-Ends p.check_state p (h refl)
  after_parse_line-Ends (_, p) h = λ e. cc

  parse_condition-Ends :
      (s : ParseState) (status : LineState) (p : Parser)
      → ((parse_line p).0 ≡ line_ok → (q : Parser) → Keeps (parse_line p).1 q → Ends (continue q))
      → Ends (parse_condition einval continue s status p)
  unfolding parse_condition parse_next_line
  parse_condition-Ends check_state_content line_ok p h =
      parse_content-Ends (record p { start_line = p.checked_idx }) p.start_line
  parse_condition-Ends _ _ p h =
      branch Ends (scans_stop p) _ _ (λ inside. after_parse_line-Ends (parse_line p) h)
        (λ out. λ e. cc)

module _ (einval : List ℕ → Bool) where
  -- A round is enough for each byte of the buffer that is not yet checked.
  parse_loop-Ends :
      (fuel : ℕ) (status : LineState) (p : Parser)
      → length p.read_buf - p.checked_idx < fuel
      → Ends (parse_loop einval fuel status p)
  unfolding parse_loop
  parse_loop-Ends zero status p h = absurd (omega arith)
  parse_loop-Ends (suc fuel) status p h =
      parse_condition-Ends einval (λ q. parse_loop einval fuel line_ok q) p.check_state status p
        λ ok q k.
          let a = parse_line-Advances p ok in
          parse_loop-Ends fuel line_ok q
            (omega (arith, a.further, a.inside, a.size, k.place, k.size))

  -- The loop ends on every buffer, in every state: the fuel is never used up.
  pub parse-ends : (status : LineState) (p : Parser) → parse einval status p ≢ out_of_fuel
  unfolding parse
  parse-ends status p = parse_loop-Ends (suc (length p.read_buf)) status p (omega arith)
