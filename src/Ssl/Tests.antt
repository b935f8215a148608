-- ===== src/Ssl/Tests.antt =====
-- The theorems about `SSL_writev` at concrete inputs.
use linux_image_server.Base.{◌≡◌, some, ◌++◌, refl, arith, replicate, true}
use linux_image_server.CString.{codes}
use linux_image_server.CString.Decimal.{pos}
use linux_image_server.Http.Response.{Writer, in_write_buf, in_file}
use linux_image_server.Http.Send.{gather_count}
use linux_image_server.Ssl.{with_length, ssl_writev}
use linux_image_server.Ssl.Gather.{counted, sum_len, ssl_writev-gather_count}

-- A head of two bytes and a mapped file of five.
abbrev two_parts : Writer
two_parts = record {
  write_buf = codes "ab" ++ replicate 1022 0;
  write_idx = 2;
  iv0 = record { base = in_write_buf (pos 0); len = 2 };
  iv1 = record { base = in_file (pos 0); len = 5 };
  iv_count = 2;
  bytes_to_send = pos 7;
  bytes_have_send = 0;
  file = some (codes "hello");
  file_size = 5;
  linger = true;
}

two_parts_sent : ssl_writev two_parts (counted two_parts 2) ≡ some (codes "abhello", pos 7)
unfolding ssl_writev
two_parts_sent = refl

ssl_writev-gather_count_example :
    ssl_writev two_parts (counted two_parts 2) ≡ with_length (pos 7) (gather_count two_parts 2)
unfolding sum_len
ssl_writev-gather_count_example = ssl_writev-gather_count two_parts 2 (omega arith) (omega arith)
