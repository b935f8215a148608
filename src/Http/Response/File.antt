-- ===== src/Http/Response/File.antt =====
-- The answer of `write_to_buffer_` that serves a file: the headers are in the buffer, the file is
-- the second iovec.
use linux_image_server.Base.{
  ℕ, ◌+◌, ◌-◌, ◌^◌, ◌≤◌, ◌<◌, ◌≡◌, sym, ap, ap₂, subst, ◌∙◌, Bool, true, false, some, List, ◌++◌,
  arith, length, length-append, append_assoc, le→leb, ◌==◌, take_of_length_le,
}
use linux_image_server.CString.{codes}
use linux_image_server.CString.Decimal.{pos, print_ℕ, print_int, int_of_bits}
use linux_image_server.CString.Decimal.RoundTrip.{
  print_int-int_of_bits, int_of_bits-pos, length-print_ℕ-le,
}
use linux_image_server.Http.Types.{finished_request, write_buffer_size}
use linux_image_server.Http.Response.{
  Writer, add_int, in_file, status_text, length_text, linger_text, file_answer, write_to_buffer,
  write_head_iov, finish_write, add_headers, add_status, ok_200_title,
}
use linux_image_server.Http.Response.Append.{written, Holds, length-written}
use linux_image_server.Http.Response.Bytes.{head_text, headed-Holds}
use linux_image_server.Http.Response.Whole.{
  IsFresh, IsReady, connection, gather-two, iov_bytes-head,
}
use linux_image_server.Http.Send.{iov_bytes, slice, append_bytes}

-- The headers in front of a file of `n` bytes.
abbrev pub file_head : ℕ → Bool → List ℕ
file_head n linger =
    codes "HTTP/1.1 200 OK\r\nContent-Length:" ++ print_ℕ n ++ codes "\r\n" ++ connection linger

-- The same over any digits.
abbrev digits_head : List ℕ → Bool → List ℕ
digits_head d linger =
    codes "HTTP/1.1 200 OK\r\nContent-Length:" ++ d ++ codes "\r\n" ++ connection linger

regroup :
    (d : List ℕ) (linger : Bool)
    → ((status_text (pos 200) ok_200_title ++ (codes "Content-Length:" ++ d ++ codes "\r\n"))
          ++ linger_text linger)
        ++ codes "\r\n"
      ≡ digits_head d linger
unfolding status_text linger_text print_int
regroup d true = simp append_assoc
regroup d false = simp append_assoc

head_text-file :
    (n : ℕ) (linger : Bool)
    → n < 2 ^ 31
    → head_text (pos 200) ok_200_title (int_of_bits n) linger ≡ file_head n linger
unfolding length_text
head_text-file n linger h =
    ap
      (λ d.
        ((status_text (pos 200) ok_200_title ++ (codes "Content-Length:" ++ d ++ codes "\r\n"))
          ++ linger_text linger)
        ++ codes "\r\n")
      (print_int-int_of_bits n h)
    ∙ regroup (print_ℕ n) linger

length-digits_head : (d : List ℕ) (linger : Bool) → length (digits_head d linger) ≤ length d + 100
length-digits_head d true =
    omega
      (arith, length-append (d ++ codes "\r\n") (connection true), length-append d (codes "\r\n"))
length-digits_head d false =
    omega
      (arith, length-append (d ++ codes "\r\n") (connection false), length-append d (codes "\r\n"))

length-file_head : (n : ℕ) (linger : Bool) → length (file_head n linger) < write_buffer_size - 1
length-file_head n linger =
    omega (arith, length-digits_head (print_ℕ n) linger, length-print_ℕ-le n)

slice-whole : (mem : List ℕ) → slice mem (pos 0) (length mem) ≡ some mem
unfolding slice
slice-whole mem =
    rw (le→leb (0 + length mem) (length mem) (omega arith))
      (ap some (take_of_length_le (length mem) mem (omega arith)))

file_bytes :
    (w : Writer) (content : List ℕ)
    → w.file ≡ some content
    → 0 < length content
    → iov_bytes w (record { base = in_file (pos 0); len = length content }) ≡ some content
unfolding iov_bytes
file_bytes w content e h = ground (arith, slice-whole content)

abbrev with_file : Writer → ℕ → Writer
with_file w n = record w {
  iv1 = record { base = in_file (pos 0); len = n };
  iv_count = w.iv_count + 1;
  bytes_to_send = int_of_bits n;
}

write_to_buffer-served :
    (start : Writer) (n : ℕ)
    → start.file_size ≡ n
    → 0 < n
    → write_to_buffer finished_request start ≡ (
      true,
      write_head_iov
          (with_file (add_headers (add_status start (pos 200) ok_200_title).1 (int_of_bits n)).1 n),
    )
unfolding write_to_buffer file_answer finish_write
write_to_buffer-served start n e h = rw (lt→ne0 start.file_size (omega arith)) (
    ap
      (λ k. (
        true,
        write_head_iov (
            with_file (add_headers (add_status start (pos 200) ok_200_title).1 (int_of_bits k)).1
              k),
      ))
      e)
  where
    lt→ne0 : (k : ℕ) → 0 < k → (k == 0) ≡ false
    lt→ne0 k p = ground arith

with_file-IsReady :
    {start w : Writer} {t content : List ℕ}
    → IsFresh start
    → Holds start w t
    → start.file ≡ some content
    → 0 < length content
    → length (t ++ content) < 2 ^ 31
    → IsReady (write_head_iov (with_file w (length content))) (t ++ content)
unfolding write_head_iov
with_file-IsReady {start} {w} {t} {content} f h mapped some_bytes small =
    let v = write_head_iov (with_file w (length content)) in
    let mapped' = ap (λ u. u.file) h.same ∙ mapped in
    record {
      covers =
          gather-two v (omega (arith, ap (λ u. u.iv_count) h.same, f.none_counted))
          ∙ ap₂ append_bytes
              (iov_bytes-head v (record { size = h.roomy.size; below = h.roomy.below }))
              (file_bytes v content mapped' some_bytes)
          ∙ join;
      to_send =
          ap (λ z. add_int z w.write_idx)
            (int_of_bits-pos (length content) (omega (arith, length-append t content, small)))
          ∙ ap int_of_bits
              (omega (arith, length-append t content, length-written w h.roomy, ap length h.holds))
          ∙ int_of_bits-pos (length (t ++ content)) small;
      none_sent = ap (λ u. u.bytes_have_send) h.same ∙ f.none_sent;
    }
  where
    join : append_bytes (some (written w)) (some content) ≡ some (t ++ content)
    join = unfold append_bytes in ap (λ l. some (l ++ content)) h.holds

-- On a fresh writer a mapped file of 1 byte or more, whose size is st_size and which makes less than
-- 2^31 bytes with its headers, is served by its headers and then its bytes, both in the iovecs and counted: the length that the headers state
-- is that of the file.
pub write_to_buffer-file :
    (start : Writer) (content : List ℕ)
    → IsFresh start
    → start.file ≡ some content
    → start.file_size ≡ length content
    → 0 < length content
    → length (file_head (length content) start.linger ++ content) < 2 ^ 31
    → (w : Writer) × (write_to_buffer finished_request start ≡ (true, w))
      × IsReady w (file_head (length content) start.linger ++ content)
      × (w.linger ≡ start.linger)
unfolding write_head_iov
write_to_buffer-file start content f mapped sized some_bytes small =
    let n = length content in
    let in_int : n < 2 ^ 31 =
      omega (arith, length-append (file_head n start.linger) content, small) in
    let hl = head_text-file n start.linger in_int in
    let h =
      headed-Holds f.roomy f.empty (pos 200) ok_200_title (int_of_bits n) (
        subst (λ t. length t < write_buffer_size - 1) (sym hl) (length-file_head n start.linger)) in
    let headed = (add_headers (add_status start (pos 200) ok_200_title).1 (int_of_bits n)).1 in
    (
      write_head_iov (with_file headed n),
      write_to_buffer-served start n sized some_bytes,
      with_file-IsReady f (subst (Holds start headed) hl h) mapped some_bytes small,
      ap (λ v. v.linger) h.same,
    )
