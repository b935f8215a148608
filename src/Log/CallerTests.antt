-- ===== src/Log/CallerTests.antt =====
-- Interleaved calls of `write_log` at a concrete log: one call, and two of which one loses its line.
use linux_image_server.Base.{ℕ, ◌<◌, ◌≡◌, refl, arith, true, Option, none, some, List, [], ◌∷◌}
use linux_image_server.CString.{cstr}
use linux_image_server.CString.Decimal.{print_ℕ}
use linux_image_server.BlockQueue.{Ring, push}
use linux_image_server.Log.{Log, prefix, rotate, format_line, write_log}
use linux_image_server.Log.Rotate.{entry_line}
use linux_image_server.Log.Callers.{
  Callers, idle, ask, push_line, Reach, here, next, enters, formats, asks, pushes,
}
use linux_image_server.Log.Tests.{queue_log, one_line, first, first-Fits}

abbrev log_of : Option Log → Log
log_of none = queue_log
log_of (some l) = l

abbrev turn : Log → Log
turn l = log_of (rotate first.now true l)

abbrev text_in : Option (List ℕ) → List ℕ
text_in none = []
text_in (some b) = b

abbrev filled : Log → List ℕ
filled l = text_in (format_line (prefix first.now first.level) first.text l.buf)

abbrev entered : Callers → Callers
entered c = record c { log = turn c.log; turned = first ∷ c.turned }

abbrev formatted : Callers → Callers
formatted c = record c {
  log = record c.log { buf = filled c.log };
  turned = [];
  made = cstr (filled c.log) ∷ c.made;
  logged = entry_line first ∷ c.logged;
}

-- The line as the buffer holds it.
abbrev line : Log → List ℕ
line l = cstr (filled l)

abbrev ready : Callers
ready = formatted (entered (idle queue_log one_line))

abbrev a_line : List ℕ
a_line = line (turn queue_log)

ready-Reach : (k : ℕ) → 0 < k → Reach k (idle queue_log one_line) ready
unfolding write_log print_ℕ
ready-Reach k some_call =
    next (next here (enters (idle queue_log one_line) first true (turn queue_log) some_call refl)) (
      formats (entered (idle queue_log one_line)) [] first [] (filled (turn queue_log)) refl
        first-Fits refl)

abbrev pushed : Callers
pushed = push_line (ask ready one_line [] a_line []) one_line [] a_line []

-- Two calls find the same free slot, and both push.
abbrev both_made : Callers
both_made = formatted (entered ready)

abbrev both_found : Callers
both_found =
    ask (ask both_made one_line [] (line (turn ready.log)) (a_line ∷ [])) one_line [] a_line []

abbrev one_pushed : Callers
one_pushed = push_line both_found one_line [] a_line (line (turn ready.log) ∷ [])

abbrev filled_queue : Ring (List ℕ)
filled_queue = (push one_line a_line).1

abbrev both_pushed : Callers
both_pushed = push_line one_pushed filled_queue [] (line (turn ready.log)) []

two_calls_run : Reach 2 (idle queue_log one_line) both_pushed
unfolding write_log print_ℕ ask push_line
two_calls_run =
    next
      (next
        (next
          (next
            (next
              (next (ready-Reach 2 (omega arith))
                (enters ready first true (turn ready.log) (omega arith) refl))
              (formats (entered ready) [] first [] (filled (turn ready.log)) refl first-Fits refl))
            (asks both_made one_line [] (line (turn ready.log)) (a_line ∷ []) refl refl))
          (asks (ask both_made one_line [] (line (turn ready.log)) (a_line ∷ [])) one_line [] a_line
            [] refl refl))
        (pushes both_found one_line [] a_line (line (turn ready.log) ∷ []) refl refl))
      (pushes one_pushed filled_queue [] (line (turn ready.log)) [] refl refl)

two_calls_lose : both_pushed.lost ≡ entry_line first ∷ []
unfolding write_log print_ℕ ask push_line
two_calls_lose = refl
