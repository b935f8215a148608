-- ===== src/Http/Parse.antt =====
-- `parse_` and `parse_content_` of src/http/http_conn.cpp. The loop gives back the state with which
-- it calls `do_request_`; Request.antt goes on from there.
pub mod Terminates
use linux_image_server.Base.{
  ℕ, zero, suc, ◌+◌, ◌-◌, Bool, true, false, Option, none, some, List, leb, ltb, if◌then◌else◌, set,
  length,
}
use linux_image_server.CString.Decimal.{ℤ, pos, negsuc}
use linux_image_server.Http.Types.{
  Parser, ParseState, check_state_requestline, check_state_header, check_state_content, HttpState,
  parsering, error_format, ready_request, LineState, line_ok, line_bad, line_open,
}
use linux_image_server.Http.Line.{parse_line, scans_stop}
use linux_image_server.Http.RequestLine.{parse_request}
use linux_image_server.Http.Headers.{parse_headers}

-- `text - m_read_buf + m_content_length <= m_read_idx`.
unfoldable pub body_fits : ℕ → ℤ → ℕ → Bool
body_fits text (pos n) read_idx = leb (text + n) read_idx
body_fits text (negsuc n) read_idx = leb text (read_idx + suc n)

-- The offset of `text[m_content_length]`, unless it lies before the buffer.
unfoldable pub body_end : ℕ → ℤ → Option ℕ
body_end text (pos n) = some (text + n)
body_end text (negsuc n) = if leb (suc n) text then some (text - suc n) else none

pub data Parsed : Type 0 where
  -- `parse_` returns this state.
  answer : HttpState → Parser → Parsed
  -- `parse_` calls `do_request_`.
  request : Parser → Parsed
  -- A byte outside the read buffer is read by `parse_line_`, or written.
  fault : Parsed
  out_of_fuel : Parsed

-- `*text = '\0'` at an offset.
unfoldable pub terminate_body : Parser → ℕ → Option ℕ → Parsed
terminate_body p text none = fault
terminate_body p text (some i) =
    if ltb i (length p.read_buf)
    then request (record p { read_buf = set p.read_buf i 0; content = some text })
    else fault

unfoldable pub parse_content : Parser → ℕ → Parsed
unfolding body_fits body_end terminate_body
parse_content p text =
    if body_fits text p.content_length p.read_idx
    then terminate_body p text (body_end text p.content_length)
    else answer error_format p

module _ (einval : List ℕ → Bool) where
  -- What a line of the request line or of a header makes of the loop, given how it goes on.
  unfoldable pub after_line : (Parser → Parsed) → HttpState × Parser → Parsed
  after_line continue (error_format, p) = answer error_format p
  after_line continue (ready_request, p) = request p
  after_line continue (_, p) = continue p

  -- The body of the loop on the line at m_start_line; `next` is the offset that comes to m_start_line.
  unfoldable pub parse_step : (Parser → Parsed) → ParseState → Parser → Parsed
  unfolding after_line parse_content
  parse_step continue check_state_requestline p =
      after_line continue (parse_request (record p { start_line = p.checked_idx }) p.start_line)
  parse_step continue check_state_header p =
      after_line continue
        (parse_headers einval (record p { start_line = p.checked_idx }) p.start_line)
  parse_step continue check_state_content p =
      parse_content (record p { start_line = p.checked_idx }) p.start_line

  -- The rest of the loop's condition: parse_line_ has run.
  unfoldable pub after_parse_line : (Parser → Parsed) → LineState × Parser → Parsed
  unfolding parse_step
  after_parse_line continue (line_ok, p) = parse_step continue p.check_state p
  after_parse_line continue (_, p) = answer error_format p

  -- `parse_line_`, when its scans stay inside the buffer.
  unfoldable pub parse_next_line : (Parser → Parsed) → Parser → Parsed
  unfolding after_parse_line scans_stop
  parse_next_line continue p =
      let line = after_parse_line continue (parse_line p) in if scans_stop p then line else fault

  unfoldable pub parse_condition : (Parser → Parsed) → ParseState → LineState → Parser → Parsed
  unfolding parse_next_line parse_step
  parse_condition continue check_state_content line_ok p = parse_step continue check_state_content p
  parse_condition continue _ _ p = parse_next_line continue p

  -- A round is entered with the line_status that the round before left; it is `line_ok` after every
  -- round that ends, since only such a round is run.
  unfoldable pub parse_loop : ℕ → LineState → Parser → Parsed
  unfolding parse_condition
  parse_loop zero status p = out_of_fuel
  parse_loop (suc fuel) status p =
      parse_condition (λ q. parse_loop fuel line_ok q) p.check_state status p

  -- `status` is the value that the uninitialised variable has on entry.
  unfoldable pub parse : LineState → Parser → Parsed
  unfolding parse_loop
  parse status p = parse_loop (suc (length p.read_buf)) status p
