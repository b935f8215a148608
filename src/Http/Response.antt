-- ===== src/Http/Response.antt =====
-- The answer of `HttpHandler` in its write buffer: `write_to_buffer_` and the `add_*` functions of
-- src/http/http_conn.cpp.
pub mod Append
pub mod Bytes
pub mod Whole
pub mod File
use linux_image_server.Base.{
  ℕ, suc, ◌+◌, ◌-◌, Bool, true, false, Option, none, some, List, [], ◌∷◌, ◌++◌, ltb, leb, ◌==◌,
  if◌then◌else◌, length, take, replicate,
}
use linux_image_server.CString.{codes, splice}
use linux_image_server.CString.Decimal.{ℤ, pos, negsuc, print_int, int_of_bits}
use linux_image_server.Http.Types.{
  HttpState, parsering, error_format, ready_request, error_accessfailed, error_filenotfound,
  finished_request, closed_connection, internal_error, write_buffer_size,
}

-- Where an iovec points: into m_write_buf, into the mapped file, or nowhere known.
pub data IovBase : Type 0 where
  in_write_buf in_file : ℤ → IovBase
  wild : IovBase

pub record Iov : Type 0 where
  pub base : IovBase
  pub len : ℕ

-- The fields that writing uses. `file` is the mapping at m_file_address, `file_size` is
-- m_file_stat.st_size. The `int` m_iv_count is not set by `init_`.
pub record Writer : Type 0 where
  pub write_buf : List ℕ
  pub write_idx : ℕ
  pub iv0 : Iov
  pub iv1 : Iov
  pub iv_count : ℕ
  pub bytes_to_send : ℤ
  pub bytes_have_send : ℕ
  pub file : Option (List ℕ)
  pub file_size : ℕ
  pub linger : Bool

-- The part of `init_` that concerns these fields: m_iv_count keeps its value.
unfoldable pub init_writer : Writer → Writer
init_writer w = record w {
  bytes_to_send = pos 0;
  bytes_have_send = 0;
  linger = true;
  write_idx = 0;
  write_buf = replicate write_buffer_size 0;
}

-- An int that goes past 2^31 - 1 wraps around.
abbrev pub add_int : ℤ → ℕ → ℤ
add_int (pos a) n = int_of_bits (a + n)
add_int (negsuc a) n = if leb n a then negsuc (a - n) else pos (n - suc a)

-- `vsnprintf` of `room` bytes: what fits is written, and a NUL if there is room at all.
unfoldable pub printed : ℕ → List ℕ → List ℕ
printed room text = if room == 0 then [] else take (room - 1) text ++ 0 ∷ []

-- `text` is the text that the format makes of its arguments.
unfoldable pub add_response : Writer → List ℕ → Bool × Writer
unfolding printed
add_response w text =
    if leb write_buffer_size w.write_idx
    then (false, w)
    else let room = write_buffer_size - 1 - w.write_idx in
      let buf = splice w.write_idx (printed room text) w.write_buf in
      if leb room (length text)
      then (false, record w { write_buf = buf })
      else (true, record w { write_buf = buf; write_idx = w.write_idx + length text })

unfoldable pub status_text : ℤ → List ℕ → List ℕ
status_text status title =
    codes "HTTP/1.1" ++ codes " " ++ print_int status ++ codes " " ++ title ++ codes "\r\n"

unfoldable pub length_text : ℤ → List ℕ
length_text n = codes "Content-Length:" ++ print_int n ++ codes "\r\n"

unfoldable pub linger_text : Bool → List ℕ
linger_text linger =
    codes "Connection:" ++ (if linger then codes "keep-alive" else codes "close") ++ codes "\r\n"

unfoldable pub add_status : Writer → ℤ → List ℕ → Bool × Writer
unfolding add_response
add_status w status title = add_response w (status_text status title)

unfoldable pub add_content_length : Writer → ℤ → Bool × Writer
unfolding add_response
add_content_length w n = add_response w (length_text n)

unfoldable pub add_linger : Writer → Bool × Writer
unfolding add_response
add_linger w = add_response w (linger_text w.linger)

unfoldable pub add_clrf : Writer → Bool × Writer
unfolding add_response
add_clrf w = add_response w (codes "\r\n")

unfoldable pub add_content : Writer → List ℕ → Bool × Writer
unfolding add_response
add_content w content = add_response w content

unfoldable pub add_content_type : Writer → Bool × Writer
unfolding add_response
add_content_type w = add_response w (codes "Content-Type:text/html\r\n")

-- The results of the three calls are dropped.
unfoldable pub add_headers : Writer → ℤ → Bool × Writer
unfolding add_content_length add_linger add_clrf
add_headers w n = (true, (add_clrf (add_linger (add_content_length w n).1).1).1)

abbrev pub ok_200_title : List ℕ
ok_200_title = codes "OK"

abbrev pub error_400_title : List ℕ
error_400_title = codes "Bad Request"

abbrev pub error_400_form : List ℕ
error_400_form = codes "Your request has bad syntax or is inherently impossible to staisfy.\n"

abbrev pub error_403_title : List ℕ
error_403_title = codes "Forbidden"

abbrev pub error_403_form : List ℕ
error_403_form = codes "You do not have permission to get file form this server.\n"

abbrev pub error_404_title : List ℕ
error_404_title = codes "Not Found"

abbrev pub error_404_form : List ℕ
error_404_form = codes "The requested file was not found on this server.\n"

abbrev pub error_500_title : List ℕ
error_500_title = codes "Internal Error"

abbrev pub error_500_form : List ℕ
error_500_form = codes "There was an unusual problem serving the request file.\n"

abbrev pub ok_string : List ℕ
ok_string = codes "<html><body></body></html>"

-- The last lines of the function: m_iv[0] is what the buffer holds.
unfoldable pub write_head_iov : Writer → Writer
write_head_iov w = record w {
  iv0 = record { base = in_write_buf (pos 0); len = w.write_idx };
  iv_count = w.iv_count + 1;
  bytes_to_send = add_int w.bytes_to_send w.write_idx;
}

unfoldable pub finish_write : Bool × Writer → Bool × Writer
unfolding write_head_iov
finish_write (true, w) = (true, write_head_iov w)
finish_write (false, w) = (false, w)

-- A status line, the headers for a text, and the text.
unfoldable pub text_answer : ℤ → List ℕ → List ℕ → Writer → Bool × Writer
unfolding add_status add_headers add_content finish_write
text_answer status title form w =
    let headed = (add_headers (add_status w status title).1 (pos (length form))).1 in
    finish_write (add_content headed form)

-- A status line and the headers for a file, which m_iv[1] is.
unfoldable pub file_answer : Writer → Bool × Writer
unfolding add_status add_headers finish_write
file_answer w =
    let size = int_of_bits w.file_size in
    let headed = (add_headers (add_status w (pos 200) ok_200_title).1 size).1 in
    finish_write (
      true,
      record headed {
        iv1 = record { base = in_file (pos 0); len = w.file_size };
        iv_count = headed.iv_count + 1;
        bytes_to_send = size;
      },
    )

unfoldable pub write_to_buffer : HttpState → Writer → Bool × Writer
unfolding text_answer file_answer
write_to_buffer internal_error w = text_answer (pos 500) error_500_title error_500_form w
write_to_buffer error_format w = text_answer (pos 400) error_400_title error_400_form w
write_to_buffer error_accessfailed w = text_answer (pos 403) error_403_title error_403_form w
write_to_buffer error_filenotfound w = text_answer (pos 404) error_404_title error_404_form w
write_to_buffer finished_request w =
    if w.file_size == 0 then text_answer (pos 200) ok_200_title ok_string w else file_answer w
write_to_buffer _ w = (false, w)
