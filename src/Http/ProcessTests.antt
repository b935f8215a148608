-- ===== src/Http/ProcessTests.antt =====
-- The theorems about `process` at concrete inputs: a line without a space, and a client that closes
-- its side.
use linux_image_server.Base.{inl, ◌++◌, ◌∷◌, ◌≡◌, refl, true, [], arith, length, replicate}
use linux_image_server.CString.{codes, store, strchr}
use linux_image_server.CString.Decimal.{pos}
use linux_image_server.Http.Types.{Parser, error_format, line_open}
use linux_image_server.Http.RequestLine.{parse_request}
use linux_image_server.Http.Line.{parse_line}
use linux_image_server.Http.Parse.{parse, answer}
use linux_image_server.Http.Request.{Handler}
use linux_image_server.Http.Response.Whole.{malformed, refusal}
use linux_image_server.Http.Send.{took}
use linux_image_server.Http.Process.{process}
use linux_image_server.Http.Process.Refusal.{parsed, Refuses, process-Refused}
use linux_image_server.Http.Read.{got, not_ready, loaded, read}
use linux_image_server.Http.Handle.{Calls, handle, ended}
use linux_image_server.Http.Handle.Ends.{total, Goes, handle-answers, hang_up_ends}
use linux_image_server.Http.Samples.{
  nowhere, never, garbage, parsed_garbage, handling, silent, silent-IsFresh, garbage_parsed,
}

process-Refused_example :
    Refuses nowhere never
      (process nowhere never
        (took (length (refusal malformed true)) ∷ [])
        line_open
        (handling garbage)
        silent)
      true
      (refusal malformed true)
process-Refused_example =
    process-Refused nowhere never malformed line_open (handling garbage) (handling parsed_garbage)
      silent [] (parsed garbage_parsed) silent-IsFresh

-- A handler that has read nothing, with room for eight bytes.
abbrev waiting_to_read : Handler
waiting_to_read = handling (record garbage { read_buf = replicate 8 0; read_idx = 0 })

-- A client sends three bytes and closes its side; epoll_ctl and close succeed.
abbrev leaving : Calls
leaving = record {
  received = got (codes "GET") ∷ got [] ∷ [];
  written = [];
  removed_reading = (pos 0, pos 0);
  removed_writing = (pos 0, pos 0);
  status = line_open;
}

hang_up_ends_example : handle nowhere never leaving waiting_to_read silent ≡ ended
unfolding total
hang_up_ends_example =
    hang_up_ends nowhere never leaving waiting_to_read silent (codes "GET" ∷ []) [] refl (inl refl)
      (omega arith)

-- A line without a space, behind which nine more bytes come and ten times nothing.
abbrev late : Parser
late = record garbage { read_buf = codes "x\r\n" ++ codes "yyyyyyyyy" }

abbrev late_parsed : Parser
late_parsed = record late {
  read_buf = b'x' ∷ 0 ∷ 0 ∷ codes "yyyyyyyyy";
  checked_idx = 3;
  start_line = 3;
}

abbrev asking : Calls
asking = record {
  received = got (codes "x\r\nyyyyyyyyy") ∷ replicate 10 not_ready;
  written = took (length (refusal malformed true)) ∷ [];
  removed_reading = (pos 0, pos 0);
  removed_writing = (pos 0, pos 0);
  status = line_open;
}

abbrev before_asking : Handler
before_asking = handling (record garbage { read_buf = replicate 12 0; read_idx = 0 })

late-read : read asking.received before_asking.parser ≡ loaded late
unfolding read store
late-read = refl

late-parse : parse never line_open late ≡ answer error_format late_parsed
unfolding parse parse_line strchr parse_request
late-parse = refl

handle-answers_example :
    Goes nowhere never asking before_asking silent true
      (refusal malformed true)
      (handle nowhere never asking before_asking silent)
handle-answers_example =
    handle-answers nowhere never asking before_asking silent {h' = handling late_parsed} malformed
      [] late-read (parsed late-parse) silent-IsFresh refl (inl refl)
