-- ===== src/Log.antt =====
-- `Log` (src/log/log.cpp, src/include/log.h): the log file of a day, cut after `m_split_lines` lines,
-- the line buffer, and the queue of the thread that writes for the callers. `none` is a write
-- outside an array, a string without end, a use of a null FILE pointer, or a division by zero.
pub mod Lines
pub mod Rotate
pub mod Files
pub mod Saves
pub mod Async
pub mod Init
pub mod Destroy
pub mod Callers
pub mod Tests
mod CallerTests
use linux_image_server.Base.{
  ℕ, zero, suc, ◌+◌, ◌-◌, ◌/◌, ◌%◌, Bool, true, false, Option, none, some, List, [], ◌∷◌, ◌++◌, leb,
  ◌==◌, if◌then◌else◌, ◌>>=◌, length, take, drop, replicate,
}
use linux_image_server.BlockQueue as BlockQueue
use linux_image_server.BlockQueue.{Ring, Popped, refused, item, stray, waiting}
use linux_image_server.CString.{codes, cstr, index_of, last_index_of, store}
use linux_image_server.CString.Decimal.{print_ℕ}
use linux_image_server.Http.Response.{printed}

-- What localtime and gettimeofday give.
pub record Now : Type 0 where
  pub year : ℕ
  pub mon : ℕ
  pub mday : ℕ
  pub hour : ℕ
  pub min : ℕ
  pub sec : ℕ
  pub usec : ℕ

-- `file` is the name of the file at m_fp, `none` a null pointer. `lines` is the history of what was
-- given to fputs, each line with the name of the file that it went to.
pub record Log : Type 0 where
  pub count : ℕ
  pub is_async : Bool
  pub split_lines : ℕ
  pub buf : List ℕ
  pub dir_name : List ℕ
  pub log_name : List ℕ
  pub today : ℕ
  pub file : Option (List ℕ)
  pub log_queue : Option (Ring (List ℕ))
  pub lines : List (List ℕ × List ℕ)

-- `%02d` and `%06ld`.
abbrev pub padded : ℕ → ℕ → List ℕ
padded width n = replicate (width - length (print_ℕ n)) b'0' ++ print_ℕ n

-- `%d_%02d_%02d_`.
abbrev pub date_text : Now → List ℕ
date_text t =
    print_ℕ (t.year + 1900) ++ b'_' ∷ padded 2 (t.mon + 1) ++ b'_' ∷ padded 2 t.mday ++ b'_' ∷ []

-- `%s` of a char array.
unfoldable pub text_of : List ℕ → Option (List ℕ)
unfolding cstr index_of
text_of bytes = elim (index_of 0 bytes) [ none ↦ none | some i ↦ some (cstr bytes) ]

-- What fopen gives, by whether it can open the file.
abbrev pub fopen : Bool → List ℕ → Option (List ℕ)
fopen opened name = if opened then some name else none

-- The constructor, of an object that stands in zeroed memory.
unfoldable pub create : Log
create = record {
  count = 0;
  is_async = false;
  split_lines = 0;
  buf = [];
  dir_name = replicate 128 0;
  log_name = replicate 128 0;
  today = 0;
  file = none;
  log_queue = none;
  lines = [];
}

-- The part of `init` for asynchronous writing.
unfoldable pub init_queue : ℕ → Log → Option Log
unfolding BlockQueue.create
init_queue max_queue_size l =
    let queue = BlockQueue.create [] max_queue_size in
    if leb 1 max_queue_size
    then (queue >>= λ q. some (record l { is_async = true; log_queue = some q }))
    else some l

-- The split of the file name at its last `/`, and the name of the first file.
unfoldable pub init_names : List ℕ → Now → Log → Option (List ℕ × Log)
unfolding last_index_of store text_of
init_names file_name t l = elim (last_index_of b'/' file_name) [
  | none ↦ some (take 254 (date_text t ++ file_name), l)
  | some i ↦ store 0 (drop (i + 1) file_name ++ 0 ∷ []) l.log_name >>= λ name.
      store 0 (take (i + 1) file_name) l.dir_name >>= λ dir. text_of dir >>= λ dir_text.
      text_of name >>= λ name_text. some (
        take 254 (dir_text ++ date_text t ++ name_text),
        record l { log_name = name; dir_name = dir },
      )
]

unfoldable pub init : List ℕ → ℕ → ℕ → ℕ → Now → Bool → Log → Option (Bool × Log)
unfolding init_queue init_names
init file_name log_buf_size split_lines max_queue_size t opened l =
    init_queue max_queue_size l >>= λ l1.
    init_names file_name t (record l1 { buf = replicate log_buf_size 0; split_lines = split_lines })
    >>= λ named. some (opened, record named.1 { today = t.mday; file = fopen opened named.0 })

abbrev pub level_text : ℕ → List ℕ
level_text zero = codes "[debug]:"
level_text (suc zero) = codes "[info]:"
level_text (suc (suc zero)) = codes "[warn]:"
level_text (suc (suc (suc zero))) = codes "[erro]:"
level_text (suc (suc (suc (suc n)))) = codes "[info]:"

-- The names of the files of a day.
unfoldable pub day_name : List ℕ → List ℕ → Now → List ℕ
day_name dir name t = take 254 (dir ++ take 15 (date_text t) ++ name)

unfoldable pub part_name : List ℕ → List ℕ → Now → ℕ → List ℕ
part_name dir name t k = take 254 (dir ++ take 15 (date_text t) ++ name ++ b'.' ∷ print_ℕ k)

-- The body of the `if` that opens the next file.
unfoldable pub reopen : Now → Bool → Log → Option Log
unfolding text_of day_name part_name
reopen t opened l = l.file >>= λ old. text_of l.dir_name >>= λ dir. text_of l.log_name >>= λ name.
    if l.today == t.mday
    then some (record l { file = fopen opened (part_name dir name t (l.count / l.split_lines)) })
    else some (record l { file = fopen opened (day_name dir name t); today = t.mday; count = 0 })

-- The first locked part of `write_log`.
unfoldable pub rotate : Now → Bool → Log → Option Log
unfolding reopen
rotate t opened l =
    let counted = record l { count = l.count + 1 } in
    let reopened = reopen t opened counted in
    if l.today == t.mday
    then if l.split_lines == 0
      then none
      else if counted.count % l.split_lines == 0
      then reopened
      else some counted
    else reopened

-- `%d-%02d-%02d %02d:%02d:%02d.%06ld %s `.
abbrev pub prefix : Now → ℕ → List ℕ
prefix t level =
    print_ℕ (t.year + 1900)
    ++ b'-' ∷ padded 2 (t.mon + 1)
    ++ b'-' ∷ padded 2 t.mday
    ++ b' ' ∷ padded 2 t.hour
    ++ b':' ∷ padded 2 t.min
    ++ b':' ∷ padded 2 t.sec
    ++ b'.' ∷ padded 6 t.usec
    ++ b' ' ∷ level_text level
    ++ b' ' ∷ []

-- The second locked part: what stands in the buffer in the end, from the head's text and the
-- message's. `snprintf` and `vsnprintf` return the lengths that they would have liked to write.
unfoldable pub format_line : List ℕ → List ℕ → List ℕ → Option (List ℕ)
unfolding store printed
format_line head text buf = store 0 (printed 48 head) buf >>= λ b1.
    store (length head) (printed (length buf - 1) text) b1 >>= λ b2.
    store (length head + length text) (10 ∷ []) b2 >>= λ b3.
    store (length head + length text + 1) (0 ∷ []) b3

-- fputs.
unfoldable pub put_line : List ℕ → Log → Option Log
put_line line l = l.file >>= λ f. some (record l { lines = l.lines ++ (f, line) ∷ [] })

-- The last part: to the queue, or directly to the file.
unfoldable pub send_line : List ℕ → Log → Option Log
unfolding put_line BlockQueue.full BlockQueue.push
send_line line l =
    let direct = put_line line l in
    let queued = l.log_queue >>= λ q.
    if BlockQueue.full q
    then direct
    else some (record l { log_queue = some (BlockQueue.push q line).1 }) in
    if l.is_async then queued else direct

-- The turns of a call with no other call in between; Log/Callers has them one by one.
unfoldable pub write_log : Now → Bool → ℕ → List ℕ → Log → Option Log
unfolding rotate format_line send_line cstr
write_log t opened level text l = rotate t opened l >>= λ l1.
    format_line (prefix t level) text l1.buf >>= λ b. send_line (cstr b) (record l1 { buf = b })

-- One round of `async_write_log`, which waits when the queue is empty.
unfoldable pub write_popped : Log → Popped (List ℕ) → Option Log
unfolding put_line
write_popped l (refused q) = some (record l { log_queue = some q })
write_popped l (item line q) = put_line line (record l { log_queue = some q })
write_popped l stray = none
write_popped l (waiting q) = some l

unfoldable pub async_write_log : Log → Option Log
unfolding write_popped BlockQueue.pop
async_write_log l = l.log_queue >>= λ q. write_popped l (BlockQueue.pop [] q)

unfoldable pub flush : Log → Option Log
flush l = l.file >>= λ f. some l
