-- ===== src/Http/Samples.antt =====
-- A handler and a request for the tests of src/http/http_conn.cpp: a line without a space.
use linux_image_server.Base.{ℕ, ◌∷◌, ◌≡◌, refl, Bool, true, false, none, List, [], arith, replicate}
use linux_image_server.CString.{codes, strchr}
use linux_image_server.CString.Decimal.{pos}
use linux_image_server.Http.Types.{
  Parser, get, check_state_requestline, error_format, line_open, write_buffer_size,
}
use linux_image_server.Http.RequestLine.{parse_request}
use linux_image_server.Http.Line.{parse_line}
use linux_image_server.Http.Parse.{parse, answer}
use linux_image_server.Http.Request.{Site, Handler}
use linux_image_server.Http.Response.{Writer, wild}
use linux_image_server.Http.Response.Whole.{IsFresh}

abbrev pub nowhere : Site
nowhere = record {
  root = codes "/srv";
  query_fails = λ sql. false;
  stat = λ path. none;
  can_open = λ path. true;
  map_file = λ path. none;
  can_close = λ path. true;
}

abbrev pub never : List ℕ → Bool
never text = false

abbrev pub garbage : Parser
garbage = record {
  read_buf = codes "x\r\n";
  read_idx = 3;
  check_state = check_state_requestline;
  checked_idx = 0;
  start_line = 0;
  method = get;
  cgi = false;
  url = none;
  version = none;
  linger = true;
  content_length = pos 0;
  host = none;
  useragent = none;
  origin = none;
  content_type = none;
  encoding = none;
  upgrade = none;
  accept = none;
  referer = none;
  language = none;
  content = none;
  real_file = [];
}

abbrev pub parsed_garbage : Parser
parsed_garbage = record garbage { read_buf = b'x' ∷ 0 ∷ 0 ∷ []; checked_idx = 3; start_line = 3 }

abbrev pub handling : Parser → Handler
handling p = record { parser = p; users = []; file_stat = none; file = none }

abbrev pub silent : Writer
silent = record {
  write_buf = replicate write_buffer_size 0;
  write_idx = 0;
  iv0 = record { base = wild; len = 0 };
  iv1 = record { base = wild; len = 0 };
  iv_count = 0;
  bytes_to_send = pos 0;
  bytes_have_send = 0;
  file = none;
  file_size = 0;
  linger = true;
}

pub silent-IsFresh : IsFresh silent
silent-IsFresh = record {
  roomy = record { size = refl; below = omega arith };
  empty = refl;
  none_counted = refl;
  none_sent = refl;
  none_left = refl;
}

pub garbage_parsed : parse never line_open garbage ≡ answer error_format parsed_garbage
unfolding parse parse_line strchr parse_request
garbage_parsed = refl
