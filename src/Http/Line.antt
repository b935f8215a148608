-- ===== src/Http/Line.antt =====
-- `parse_line_` of src/http/http_conn.cpp: one line of the read buffer, cut off in place.
pub mod Complete
use linux_image_server.Base.{
  ℕ, ◌+◌, ◌-◌, ◌≡◌, Bool, true, false, Option, none, some, List, [], ◌∷◌, ◌&&◌, ◌||◌, ltb, ◌==◌,
  if◌then◌else◌, drop, set,
}
use linux_image_server.CString.{strchr}
use linux_image_server.Http.Types.{Parser, LineState, line_ok, line_bad, line_open}

-- A scan of strpbrk for one byte comes to it, or to a NUL, before the end of the array.
unfoldable pub scan_stops : ℕ → List ℕ → Bool
scan_stops c [] = false
scan_stops c (b ∷ bs) = let rest = scan_stops c bs in if (b == 0) || (b == c) then true else rest

-- Both scans of `parse_line_` stay inside the buffer.
unfoldable pub scans_stop : Parser → Bool
unfolding scan_stops
scans_stop p =
    let str = drop p.checked_idx p.read_buf in scan_stops b'\r' str && scan_stops b'\n' str

-- `p && (int)(p - str) <= m_read_idx - 1`: the offset is kept if it passes the test.
unfoldable pub within : ℕ → Option ℕ → Option ℕ
within read_idx none = none
within read_idx (some i) = if ltb i read_idx then some i else none

-- Both a carriage return and a newline were found, at offsets `r` and `n` from m_checked_idx.
unfoldable pub line_end : Parser → ℕ → ℕ → LineState × Parser
line_end p r n =
    if r + 1 == n
    then (
      line_ok,
      record p {
        checked_idx = p.checked_idx + (n + 1);
        read_buf = set (set p.read_buf (p.checked_idx + r) 0) (p.checked_idx + n) 0;
      },
    )
    else (line_bad, record p { checked_idx = p.checked_idx + (n + 1) })

unfoldable pub line_cases : Parser → Option ℕ → Option ℕ → LineState × Parser
unfolding line_end
line_cases p (some r) (some n) = line_end p r n
line_cases p none (some n) = (line_bad, record p { checked_idx = p.checked_idx + (n + 1) })
line_cases p (some r) none = (
  if r + 1 == p.read_idx then line_open else line_bad,
  record p { checked_idx = p.checked_idx + (r + 1) },
)
line_cases p none none = (line_open, record p { checked_idx = p.read_idx })

unfoldable pub parse_line : Parser → LineState × Parser
unfolding within line_cases
parse_line p =
    let str = drop p.checked_idx p.read_buf in
    line_cases p (within p.read_idx (strchr b'\r' str)) (within p.read_idx (strchr b'\n' str))
