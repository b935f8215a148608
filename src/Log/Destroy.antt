-- ===== src/Log/Destroy.antt =====
-- The destructor of `Log` (src/log/log.cpp).
use linux_image_server.Base.{
  ℕ, ◌+◌, ◌%◌, ◌/◌, ◌<◌, ◌≡◌, ◌≢◌, refl, arith, Bool, true, false, none, some, List, [], ◌∷◌, ◌++◌,
  length, ==_iff, if◌then◌else◌,
}
use linux_image_server.CString.{codes}
use linux_image_server.BlockQueue.{Ring, full, push}
use linux_image_server.BlockQueue.Refine.{contents}
use linux_image_server.Log.{Now, Log, rotate, send_line, write_log}
use linux_image_server.Log.Lines.{format_line-made}
use linux_image_server.Log.Rotate.{
  Entry, SameDay, entry_line, nth_name, Fits, IsDay, counted, not_==, rotate-IsDay,
  write_log_rotated,
}
use linux_image_server.Log.Saves.{IsAsync, contents-push}

-- The text of the last message, which ends a line itself.
abbrev closing_text : List ℕ
closing_text = codes "closing log system " ++ 10 ∷ []

abbrev pub closing : Now → Entry
closing t = record { now = t; level = 1; text = closing_text }

-- How the destructor ends: by an access that C++ does not define, by a return, or by the
-- std::terminate of ~thread, since nothing joins or detaches m_thread.
pub data Ended : Type 0 where
  fault : Ended
  closed terminated : Log → Ended

-- The body behind the message, and the members: m_log_queue is a pointer and stays.
unfoldable release : Log → Ended
release l =
    let left = record l { file = none; buf = [] } in
    if l.is_async then terminated left else closed left

unfoldable pub destroy_log : Now → Bool → Log → Ended
unfolding release write_log
destroy_log t opened l = elim (write_log t opened 1 closing_text l) [
  | none ↦ fault
  | some l1 ↦ release l1
]

-- A log without a queue, in the midst of a day, whose last message fits in its buffer: while fopen
-- succeeds the destructor returns, with that message as the last line of the file of its number.
destroy_log-closed :
    (dir name : List ℕ) (t u : Now) (l : Log)
    → IsDay dir name t l
    → SameDay t u
    → Fits (length l.buf) (closing u)
    → (l' : Log) × ((destroy_log u true l ≡ closed l')
        × (l'.lines
            ≡ l.lines
              ++ (nth_name dir name t ((l.count + 1) / l.split_lines), entry_line (closing u))
                ∷ []))
unfolding destroy_log release
destroy_log-closed dir name t u l d same fits =
    let l1 = counted dir name t l in
    let f = nth_name dir name t ((l.count + 1) / l.split_lines) in
    let (b, (sized, ran)) =
      write_log_rotated (length l.buf) (closing u) f l l1 (rotate-IsDay dir name t u l d same)
        d.set.direct refl refl fits in
    (
      record l1 { file = none; buf = []; lines = l.lines ++ (f, entry_line (closing u)) ∷ [] },
      (rw (ran, destroy_log) (rw (d.set.direct, release) refl), refl),
    )

-- No other file is due for the next line.
pub record IsMidFile (t : Now) (l : Log) : Type 0 where
  pub day : l.today ≡ t.mday
  pub split : 0 < l.split_lines
  pub within : (l.count + 1) % l.split_lines ≢ 0

rotate-IsMidFile :
    (t : Now) (opened : Bool) (l : Log)
    → IsMidFile t l
    → rotate t opened l ≡ some (record l { count = l.count + 1 })
unfolding rotate
rotate-IsMidFile t opened l m = rw ((==_iff l.today t.mday).1 m.day) (
    rw (not_== l.split_lines 0 (λ e. omega (arith, m.split, e)))
      (rw (not_== ((l.count + 1) % l.split_lines) 0 m.within) refl))

-- A log with a queue that has room, with no new file due and a buffer that the last message fits: the
-- destructor, with no turn of the writing thread in between, ends in std::terminate and writes nothing
-- to a file; the lines that waited, and the last message behind them, are still in the queue.
pub destroy_log-loses :
    (t : Now) (opened : Bool) (l : Log) (q : Ring (List ℕ))
    → IsAsync l q
    → full q ≡ false
    → IsMidFile t l
    → Fits (length l.buf) (closing t)
    → (l' : Log) × ((destroy_log t opened l ≡ terminated l')
        × ((l'.lines ≡ l.lines)
            × ((q' : Ring (List ℕ)) × ((l'.log_queue ≡ some q')
                  × (contents [] q' ≡ contents [] q ++ entry_line (closing t) ∷ [])))))
unfolding destroy_log release write_log send_line
destroy_log-loses t opened l q a room m fits =
    let line = entry_line (closing t) in
    let (b, (r, (made, same))) =
      format_line-made t 1 closing_text l.buf fits.head fits.clean fits.room in
    (
      record l {
        count = l.count + 1;
        is_async = true;
        file = none;
        buf = [];
        log_queue = some (push q line).1;
      },
      (
        rw (rotate-IsMidFile t opened l m, destroy_log)
            (rw r (rw a.async (rw a.queue (rw room (rw made refl))))),
        (refl, ((push q line).1, (refl, contents-push line q a.valid room))),
      ),
    )
