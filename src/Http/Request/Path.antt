-- ===== src/Http/Request/Path.antt =====
-- Which file `do_request_` opens.
use linux_image_server.Base.{ℕ, ◌-◌, ◌≤◌, none, some, List, length, take, drop, get_or, replicate}
use linux_image_server.CString.{cstr, overlay}
use linux_image_server.CString.Laws.{NoNul}
use linux_image_server.Http.Types.{Parser, filename_len}
use linux_image_server.Http.Request.{Site, page_of}

-- What is asked for: the page of a digit, or the URL, cut to the room behind the root.
unfoldable pub wanted : Site → Parser → ℕ → ℕ → List ℕ
unfolding page_of
wanted site p u flag_at = elim (page_of site (get_or p.read_buf flag_at 0)) [
  | some page ↦ page
  | none ↦ take (filename_len - length site.root - 1) (cstr (drop u p.read_buf))
]

-- A page that a digit stands for is short and has no NUL.
abbrev IsPage : List ℕ → Type 0
IsPage page = NoNul page × (length page ≤ 14)

module _ (site : Site) where
  -- The parser whose m_real_file has the root and zeros behind it.
  abbrev rooted : Parser → Parser
  rooted p = record p { real_file = overlay site.root (replicate filename_len 0) }
