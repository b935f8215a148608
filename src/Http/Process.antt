-- ===== src/Http/Process.antt =====
-- `process` behind its `read_`, and `write_` (src/http/http_conn.cpp): parsing, the request and the
-- answer put together over the handler's shared fields.
pub mod Refusal
use linux_image_server.Base.{ℕ, Bool, true, false, Option, none, some, List}
use linux_image_server.Http.Types.{Parser, HttpState, LineState}
use linux_image_server.Http.Parse.{Parsed, answer, request, fault, out_of_fuel, parse}
use linux_image_server.Http.Request.{FileStat, Site, Handler, do_request}
use linux_image_server.Http.Response.{Writer, write_to_buffer}
use linux_image_server.Http.Send.{Event, Sent, write_to_fd}

-- `dropped`: the answer did not fit the write buffer, and `close` is called.
pub data Processed : Type 0 where
  sent : Sent → Processed
  dropped : Writer → Processed
  broken stuck : Processed

-- st_size of the last file that stat was asked for, which is left as it was where there is none.
abbrev pub size_of : Option FileStat → ℕ → ℕ
size_of none before = before
size_of (some st) before = st.size

-- m_linger, m_file_address and m_file_stat are fields that both sides use.
abbrev pub shared : Handler → Writer → Writer
shared h w = record w {
  linger = h.parser.linger;
  file = h.file;
  file_size = size_of h.file_stat w.file_size;
}

unfoldable pub write_result : List Event → Bool × Writer → Processed
write_result es (true, w) = sent (write_to_fd es w)
write_result es (false, w) = dropped w

unfoldable pub write : List Event → HttpState → Writer → Processed
unfolding write_result
write es ret w = write_result es (write_to_buffer ret w)

unfoldable pub after_request : List Event → Writer → Option (HttpState × Handler) → Processed
unfolding write
after_request es w none = broken
after_request es w (some (ret, h)) = write es ret (shared h w)

module _ (site : Site) (einval : List ℕ → Bool) where
  unfoldable pub after_parse : List Event → Handler → Writer → Parsed → Processed
  unfolding write after_request
  after_parse es h w (answer ret p) = write es ret (shared (record h { parser = p }) w)
  after_parse es h w (request p) = after_request es w (do_request site (record h { parser = p }))
  after_parse es h w fault = broken
  after_parse es h w out_of_fuel = stuck

  -- `status` is what the uninitialised line_status of `parse_` holds.
  unfoldable pub process : List Event → LineState → Handler → Writer → Processed
  unfolding after_parse
  process es status h w = after_parse es h w (parse einval status h.parser)
