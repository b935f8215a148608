-- ===== src/Http/Handle.antt =====
-- `process` of src/http/http_conn.cpp as a whole, for the build that defines DEBUG: `read_`, then
-- `parse_` and `write_`. `close` hands the descriptor to remove_fd, which may end the process of the
-- server.
pub mod Ends
use linux_image_server.Base.{
  ℕ, zero, suc, ◌+◌, ◌-◌, ◌≤◌, ◌<◌, ◌≡◌, refl, ◌∙◌, ap, sym, ◌⊎◌, Bool, true, false, List, [], ◌∷◌,
  ◌++◌, length, replicate, if◌then◌else◌, arith, ◌&&◌,
}
use linux_image_server.CString.{splice}
use linux_image_server.CString.Decimal.{ℤ, pos, negsuc}
use linux_image_server.Descriptors.{remove_fd}
use linux_image_server.Http.Types.{Parser, LineState, read_buffer_size}
use linux_image_server.Http.Request.{Site, Handler}
use linux_image_server.Http.Response.{Writer}
use linux_image_server.Http.Read.{
  Recv, got, not_ready, lost, Read, loaded, waiting, hung_up, underrun, overrun, read,
}
use linux_image_server.Http.Read.Rewind.{read_rewinds}
use linux_image_server.Http.Send as Send
use linux_image_server.Http.Send.{Event, lingers, closes, sending}
use linux_image_server.Http.Process as Process
use linux_image_server.Http.Process.{Processed, sent, dropped, stuck, process}

-- What the calls give: recv or SSL_read, writev or SSL_writev, and epoll_ctl and close for the
-- descriptor, in `read_` and in `write_`. `status` is what the uninitialised line_status of `parse_`
-- holds.
pub record Calls : Type 0 where
  pub received : List Recv
  pub written : List Event
  pub removed_reading : ℤ × ℤ
  pub removed_writing : ℤ × ℤ
  pub status : LineState

-- `ended`: the process of the server has exited. `reading`: recv is called again and again.
-- `outside`: the memory that is written is not the buffer's.
pub data Handled : Type 0 where
  handled : Processed → Handled
  ended reading outside : Handled

-- `write_` calls `close`.
unfoldable pub is_closing : Processed → Bool
is_closing (sent (lingers w bytes)) = false
is_closing (sent (closes w bytes)) = true
is_closing (sent (Send.broken w bytes)) = true
is_closing (sent (sending w bytes)) = false
is_closing (sent Send.fault) = false
is_closing (dropped w) = true
is_closing Process.broken = false
is_closing stuck = false

unfoldable pub settle : Calls → Processed → Handled
unfolding is_closing remove_fd
settle calls o = if is_closing o && remove_fd calls.removed_writing then ended else handled o

module _ (site : Site) (einval : List ℕ → Bool) where
  unfoldable pub parse_and_write : Calls → Handler → Writer → Parser → Handled
  unfolding process settle
  parse_and_write calls h w p =
      settle calls (process site einval calls.written calls.status (record h { parser = p }) w)

  unfoldable pub after_read : Calls → Handler → Writer → Read → Handled
  unfolding parse_and_write remove_fd
  after_read calls h w (loaded p) = parse_and_write calls h w p
  after_read calls h w (hung_up p) =
      let answered = parse_and_write calls h w p in
      if remove_fd calls.removed_reading then ended else answered
  after_read calls h w (waiting p tried) = reading
  after_read calls h w underrun = outside
  after_read calls h w overrun = outside

  unfoldable pub handle : Calls → Handler → Writer → Handled
  unfolding after_read read
  handle calls h w = after_read calls h w (read calls.received h.parser)
