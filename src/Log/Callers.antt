-- ===== src/Log/Callers.antt =====
-- The calls of `write_log` (src/log/log.cpp) as they interleave: a call gives its mutex up between the
-- rotation, the line buffer, the test `full()` and the `push`, and others and the writing thread may
-- come in at each of these points.
pub mod Out
pub mod Queue
pub mod Turns
pub mod Kept
use linux_image_server.Base.{
  ℕ, ◌+◌, ◌<◌, ◌≡◌, Bool, not, ◌&&◌, Option, some, List, [], ◌∷◌, ◌++◌, length, if◌then◌else◌,
}
use linux_image_server.CString.{cstr}
use linux_image_server.BlockQueue.{Ring, full, push}
use linux_image_server.Log.{Log, prefix, rotate, format_line, put_line, async_write_log}
use linux_image_server.Log.Rotate.{Entry, entry_line, Fits}
use linux_image_server.Log.Saves.{saved}

-- `turned` are the messages of the calls behind the rotation, `made` the lines of those behind the
-- buffer, `pushing` of those that have found room in the queue, `putting` of those that go to the file.
-- `lost` are the lines whose push found no room, and `logged` the history of all that were made.
pub record Callers : Type 0 where
  pub log : Log
  pub turned : List Entry
  pub made : List (List ℕ)
  pub pushing : List (List ℕ)
  pub putting : List (List ℕ)
  pub lost : List (List ℕ)
  pub logged : List (List ℕ)

-- A log and its queue with no call under way; the history starts with what they hold.
abbrev pub idle : Log → Ring (List ℕ) → Callers
idle l q = record {
  log = l;
  turned = [];
  made = [];
  pushing = [];
  putting = [];
  lost = [];
  logged = saved l q;
}

-- The calls that are under way.
abbrev pub busy : Callers → ℕ
busy c = length c.turned + length c.made + length c.pushing + length c.putting

-- `m_is_async && !m_log_queue->full()`.
unfoldable pub ask : Callers → Ring (List ℕ) → List (List ℕ) → List ℕ → List (List ℕ) → Callers
ask c q before line behind =
    if c.log.is_async && not (full q)
    then record c { made = before ++ behind; pushing = line ∷ c.pushing }
    else record c { made = before ++ behind; putting = line ∷ c.putting }

-- `m_log_queue->push(log_str)`, whose result is not looked at.
unfoldable pub push_line :
    Callers → Ring (List ℕ) → List (List ℕ) → List ℕ → List (List ℕ) → Callers
push_line c q before line behind = record c {
  log = record c.log { log_queue = some (push q line).1 };
  pushing = before ++ behind;
  lost = if (push q line).0 then c.lost else line ∷ c.lost;
}

-- One turn of a call, or of the writing thread, when at most `k` calls are under way at a time.
pub data Move (k : ℕ) : Callers → Callers → Type 0 where
  enters :
      (c : Callers) (e : Entry) (opened : Bool) (l : Log)
      → busy c < k
      → rotate e.now opened c.log ≡ some l
      → Move k c (record c { log = l; turned = e ∷ c.turned })
  formats :
      (c : Callers) (before : List Entry) (e : Entry) (behind : List Entry) (b : List ℕ)
      → c.turned ≡ before ++ e ∷ behind
      → Fits (length c.log.buf) e
      → format_line (prefix e.now e.level) e.text c.log.buf ≡ some b
      → Move k c (record c {
        log = record c.log { buf = b };
        turned = before ++ behind;
        made = cstr b ∷ c.made;
        logged = entry_line e ∷ c.logged;
      })
  asks :
      (c : Callers) (q : Ring (List ℕ)) (before : List (List ℕ)) (line : List ℕ)
      (behind : List (List ℕ))
      → c.log.log_queue ≡ some q
      → c.made ≡ before ++ line ∷ behind
      → Move k c (ask c q before line behind)
  pushes :
      (c : Callers) (q : Ring (List ℕ)) (before : List (List ℕ)) (line : List ℕ)
      (behind : List (List ℕ))
      → c.log.log_queue ≡ some q
      → c.pushing ≡ before ++ line ∷ behind
      → Move k c (push_line c q before line behind)
  puts :
      (c : Callers) (before : List (List ℕ)) (line : List ℕ) (behind : List (List ℕ)) (l : Log)
      → c.putting ≡ before ++ line ∷ behind
      → put_line line c.log ≡ some l
      → Move k c (record c { log = l; putting = before ++ behind })
  wrote : (c : Callers) (l : Log) → async_write_log c.log ≡ some l → Move k c (record c { log = l })

pub data Reach (k : ℕ) (c : Callers) : Callers → Type 0 where
  here : Reach k c c
  next : {d e : Callers} → Reach k c d → Move k d e → Reach k c e
