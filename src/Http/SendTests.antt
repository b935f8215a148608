-- ===== src/Http/SendTests.antt =====
-- The theorems about answering, reading and the accounts at concrete inputs.
use linux_image_server.Base.{
  ℕ, ◌+◌, ◌-◌, ◌∷◌, ◌++◌, ◌≡◌, ◌≤◌, ◌<◌, ◌⊎◌, refl, true, false, none, some, Option, List, [],
  arith, length, replicate, leb→le,
}
use linux_image_server.CString.{codes, splice}
use linux_image_server.CString.Decimal.{pos}
use linux_image_server.CString.Decimal.{print_ℕ}
use linux_image_server.Http.Types.{
  Parser, get, filename_len, check_state_requestline, error_filenotfound, finished_request,
  read_buffer_size, write_buffer_size,
}
use linux_image_server.Http.Response.{
  Writer, wild, in_write_buf, init_writer, write_to_buffer, add_response,
}
use linux_image_server.Http.Response.Append.{IsRoomy, written, add_response_lem}
use linux_image_server.Http.Response.Whole.{IsFresh, IsReady, missing}
use linux_image_server.Http.Response.File.{file_head}
use linux_image_server.Http.Send.{
  took, fault, gather, gather_count, iov_bytes, append_bytes, base_bytes, slice, write_to_fd,
}
use linux_image_server.Http.Send.Complete.{Done, file_delivered}
use linux_image_server.Http.Send.Partial.{short_write_resends, stale_count_faults}
use linux_image_server.Http.Request.{
  Handler, Site, Users, same_text, find_user, insert_user, insert_sql, register, login,
}
use linux_image_server.Http.Request.Account.{register-login}
use linux_image_server.Http.Read.{got, not_ready, loaded, read}
use linux_image_server.Http.Read.Rewind.{read_rewinds}

-- A handler just accepted, with this m_iv_count and this file mapped.
abbrev answering : ℕ → Option (List ℕ) → ℕ → Writer
answering count file size = record {
  write_buf = replicate write_buffer_size 0;
  write_idx = 0;
  iv0 = record { base = wild; len = 0 };
  iv1 = record { base = wild; len = 0 };
  iv_count = count;
  bytes_to_send = pos 0;
  bytes_have_send = 0;
  file = file;
  file_size = size;
  linger = true;
}

abbrev fresh : Writer
fresh = answering 0 none 0

abbrev with_file : Writer
with_file = answering 0 (some (codes "hello")) 5

fresh-IsRoomy : IsRoomy fresh
fresh-IsRoomy = record { size = refl; below = omega arith }

with_file-IsFresh : IsFresh with_file
with_file-IsFresh = record {
  roomy = record { size = refl; below = omega arith };
  empty = refl;
  none_counted = refl;
  none_sent = refl;
  none_left = refl;
}

file_delivered_example :
    Done
      (write_to_fd
        (took (length (file_head 5 true ++ codes "hello")) ∷ [])
        (write_to_buffer finished_request with_file).1)
      true
      (file_head 5 true ++ codes "hello")
unfolding print_ℕ
file_delivered_example =
    file_delivered with_file (codes "hello") [] with_file-IsFresh refl refl (omega arith)
      (omega arith)

add_response_lem_example :
    IsRoomy (add_response fresh (codes "ab")).1
    × (((add_response fresh (codes "ab")).0 ≡ true)
          × (written (add_response fresh (codes "ab")).1 ≡ written fresh ++ codes "ab")
          × (0 + length (codes "ab") < write_buffer_size - 1)
        ⊎ ((add_response fresh (codes "ab")).0 ≡ false)
          × (written (add_response fresh (codes "ab")).1 ≡ written fresh)
          × (write_buffer_size - 1 ≤ 0 + length (codes "ab")))
add_response_lem_example = add_response_lem fresh (codes "ab") fresh-IsRoomy

stale_count_faults_example :
    write_to_fd
      (took 5 ∷ [])
      (write_to_buffer error_filenotfound (init_writer (answering 2 none 0))).1
    ≡ fault
stale_count_faults_example = stale_count_faults missing (answering 2 none 0) 5 [] (omega arith)

-- One iovec over the first two bytes of a buffer that holds "abcd".
abbrev two_left : Writer
two_left = record fresh {
  write_buf = codes "abcd";
  write_idx = 2;
  iv0 = record { base = in_write_buf (pos 0); len = 2 };
  iv_count = 1;
  bytes_to_send = pos 2;
}

two_left-gather : gather two_left ≡ some (codes "ab")
unfolding gather gather_count iov_bytes append_bytes base_bytes slice
two_left-gather = refl

two_left-IsReady : IsReady two_left (codes "ab")
two_left-IsReady = record { covers = two_left-gather; to_send = refl; none_sent = refl }

short_write_resends_example :
    Done (write_to_fd (took 1 ∷ took 1 ∷ []) two_left) true (codes "a" ++ codes "a")
short_write_resends_example = short_write_resends two_left (codes "ab") 0 0 [] two_left-IsReady refl

abbrev site : Site
site = record {
  root = codes "/srv";
  query_fails = λ sql. false;
  stat = λ path. none;
  can_open = λ path. true;
  map_file = λ path. none;
  can_close = λ path. true;
}

abbrev accounts : Users
accounts = (codes "ann", codes "pw") ∷ []

bob_is_new : find_user (codes "bob") accounts ≡ none
unfolding find_user
bob_is_new = refl

ann_is_known : find_user (codes "ann") accounts ≡ some (codes "pw")
unfolding find_user
ann_is_known = refl

bob_fits : length (insert_sql (codes "bob") (codes "x")) < 200
unfolding insert_sql
bob_fits = omega arith

register-login_example :
    (page : List ℕ) × ((after : Users) × ((register site accounts (codes "bob") (codes "x")
          ≡ some (page, after))
        × ((login site after (codes "bob") (codes "x") ≡ codes "/welcome.html")
            × ((other : List ℕ)
                → same_text (codes "bob") other ≡ false
                → find_user other after ≡ find_user other accounts))))
register-login_example = register-login site accounts (codes "bob") (codes "x") bob_fits bob_is_new

bob_registered :
    register site accounts (codes "bob") (codes "x")
    ≡ some (codes "/log.html", (codes "bob", codes "x") ∷ accounts)
unfolding register insert_sql find_user insert_user
bob_registered = refl

abbrev listening : Parser
listening = record {
  read_buf = replicate read_buffer_size 0;
  read_idx = 0;
  check_state = check_state_requestline;
  checked_idx = 0;
  start_line = 0;
  method = get;
  cgi = false;
  url = none;
  version = none;
  linger = true;
  content_length = pos 0;
  host = none;
  useragent = none;
  origin = none;
  content_type = none;
  encoding = none;
  upgrade = none;
  accept = none;
  referer = none;
  language = none;
  content = none;
  real_file = replicate filename_len 0;
}

abbrev ten_bytes : List ℕ
ten_bytes = codes "GET / HTTP"

read_rewinds_example :
    read (got ten_bytes ∷ replicate 10 not_ready) listening
    ≡ loaded (record listening { read_buf = splice 0 ten_bytes listening.read_buf; read_idx = 1 })
read_rewinds_example =
    read_rewinds listening b'G' (codes "ET / HTTP") (omega arith) (omega arith)
      (leb→le 10 (length listening.read_buf) refl)

-- A request for a file.
abbrev asking : Parser
asking = record listening { read_buf = codes "/a.html" ++ replicate 2041 0; url = some 0 }

abbrev asker : Handler
asker = record { parser = asking; users = []; file_stat = none; file = none }
