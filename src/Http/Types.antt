-- ===== src/Http/Types.antt =====
-- The enumerations and the state of `HttpHandler` (src/include/http_conn.h). A `char *` into
-- m_read_buf is an offset; `none` is a null or never assigned pointer.
use linux_image_server.Base.{ℕ, Bool, true, false, Option, none, List, replicate}
use linux_image_server.CString.Decimal.{ℤ, pos}

abbrev pub filename_len : ℕ
filename_len = 200

abbrev pub read_buffer_size : ℕ
read_buffer_size = 2048

abbrev pub write_buffer_size : ℕ
write_buffer_size = 1024

pub data ClientType : Type 0 where
  invalid_client http_client https_client : ClientType

pub data Method : Type 0 where
  get post head put delete trace options connect path : Method

pub data ParseState : Type 0 where
  check_state_requestline check_state_header check_state_content : ParseState

pub data HttpState : Type 0 where
  parsering error_format ready_request : HttpState
  error_accessfailed error_filenotfound finished_request : HttpState
  closed_connection internal_error : HttpState

pub data LineState : Type 0 where
  line_ok line_bad line_open : LineState

-- The fields that reading and parsing use.
pub record Parser : Type 0 where
  pub read_buf : List ℕ
  pub read_idx : ℕ
  pub check_state : ParseState
  pub checked_idx : ℕ
  pub start_line : ℕ
  pub method : Method
  pub cgi : Bool
  pub url : Option ℕ
  pub version : Option ℕ
  pub linger : Bool
  pub content_length : ℤ
  pub host : Option ℕ
  pub useragent : Option ℕ
  pub origin : Option ℕ
  pub content_type : Option ℕ
  pub encoding : Option ℕ
  pub upgrade : Option ℕ
  pub accept : Option ℕ
  pub referer : Option ℕ
  pub language : Option ℕ
  pub content : Option ℕ
  pub real_file : List ℕ

-- The part of `init_` that concerns these fields; the header pointers but m_host keep their values.
unfoldable pub init_parser : Parser → Parser
init_parser p = record p {
  check_state = check_state_requestline;
  linger = true;
  method = get;
  url = none;
  version = none;
  content_length = pos 0;
  host = none;
  start_line = 0;
  checked_idx = 0;
  read_idx = 0;
  cgi = false;
  read_buf = replicate read_buffer_size 0;
  real_file = replicate filename_len 0;
}
