-- ===== src/Log/Tests.antt =====
-- The theorems about the log at concrete inputs.
use linux_image_server.Base.{
  ℕ, ◌+◌, ◌<◌, ◌≤◌, ◌≡◌, ◌⊎◌, refl, arith, true, false, none, some, List, [], ◌∷◌, ◌++◌, length,
  replicate,
}
use linux_image_server.CString.{codes, cstr}
use linux_image_server.CString.Decimal.{print_ℕ}
use linux_image_server.BlockQueue as BlockQueue
use linux_image_server.BlockQueue.{Ring}
use linux_image_server.BlockQueue.Inv.{IsValid}
use linux_image_server.BlockQueue.Refine.{contents}
use linux_image_server.Log.{Now, Log, create, text_of, prefix, format_line, write_log}
use linux_image_server.Log.Lines.{line_of, format_line_lem}
use linux_image_server.Log.Rotate.{Entry, SameDay, Fits, IsDirect, IsDay, nth_name, entry_line}
use linux_image_server.Log.Files.{write_all, filed, write_all-filed}
use linux_image_server.Log.Saves.{IsAsync}
use linux_image_server.Log.Async.{rounds, rounds-empty}
use linux_image_server.Log.Destroy.{
  fault, terminated, closing, destroy_log, IsMidFile, destroy_log-loses,
}

abbrev today : Now
today = record { year = 120; mon = 4; mday = 18; hour = 9; min = 5; sec = 7; usec = 42 }

-- A log that is cut after two lines.
abbrev short_log : Log
short_log = record {
  count = 0;
  is_async = false;
  split_lines = 2;
  buf = replicate 64 0;
  dir_name = codes "a/" ++ replicate 126 0;
  log_name = codes "log" ++ replicate 125 0;
  today = 18;
  file = some (nth_name (codes "a/") (codes "log") today 0);
  log_queue = none;
  lines = [];
}

short_log-IsDirect : IsDirect (codes "a/") (codes "log") short_log
unfolding text_of
short_log-IsDirect = record {
  direct = refl;
  split = omega arith;
  dir_text = refl;
  name_text = refl;
}

short_log-IsDay : IsDay (codes "a/") (codes "log") today short_log
short_log-IsDay = record { set = short_log-IsDirect; day = refl; current = refl }

abbrev pub first : Entry
first = record { now = today; level = 1; text = codes "up" }

abbrev second : Entry
second = record { now = today; level = 3; text = codes "down" }

pub first-Fits : Fits 64 first
unfolding print_ℕ
first-Fits = record {
  head = omega arith;
  room = omega arith;
  clean = (omega arith, (omega arith, tt));
}

second-Fits : Fits 64 second
unfolding print_ℕ
second-Fits = record {
  head = omega arith;
  room = omega arith;
  clean = (omega arith, (omega arith, (omega arith, (omega arith, tt))));
}

today-SameDay : SameDay today today
today-SameDay = record { year = refl; mon = refl; mday = refl }

format_line_lem_example :
    ((length (prefix today 1) + length (codes "up") + 2 ≤ length {A = ℕ} (replicate 64 0))
      × ((b : List ℕ) × ((format_line (prefix today 1) (codes "up") (replicate 64 0) ≡ some b)
            × ((cstr b ≡ line_of (prefix today 1) (codes "up"))
                × (length b ≡ length {A = ℕ} (replicate 64 0))))))
    ⊎ ((length {A = ℕ} (replicate 64 0) < length (prefix today 1) + length (codes "up") + 2)
        × (format_line (prefix today 1) (codes "up") (replicate 64 0) ≡ none))
format_line_lem_example =
    format_line_lem today 1 (codes "up") (replicate 64 0) first-Fits.head first-Fits.clean

write_all-filed_example :
    (l : Log) × ((write_all (first ∷ second ∷ []) short_log ≡ some l)
      × (l.lines
          ≡ [] ++ filed (nth_name (codes "a/") (codes "log") today) 2 1 (first ∷ second ∷ [])))
write_all-filed_example =
    write_all-filed (first ∷ second ∷ []) (codes "a/") (codes "log") today short_log short_log-IsDay
      ((today-SameDay, first-Fits), ((today-SameDay, second-Fits), tt))

-- A queue for two lines with one in it.
abbrev pub one_line : Ring (List ℕ)
one_line = record {
  array = codes "hi" ∷ [] ∷ [];
  size = 1;
  max_size = 2;
  front = BlockQueue.minus_one;
  back = BlockQueue.at 0;
}

one_line-IsValid : IsValid one_line
unfolding BlockQueue.next
one_line-IsValid = record {
  storage = refl;
  room = omega arith;
  fits = omega arith;
  newest = omega arith;
  closes = refl;
}

abbrev pub queue_log : Log
queue_log = record short_log { is_async = true; log_queue = some one_line }

pub queue_log-IsAsync : IsAsync queue_log one_line
queue_log-IsAsync = record { async = refl; queue = refl; valid = one_line-IsValid }

rounds-empty_example :
    (l : Log) × ((rounds 1 queue_log ≡ some l)
      × ((l.lines ≡ [] ++ (nth_name (codes "a/") (codes "log") today 0, codes "hi") ∷ [])
          × ((q : Ring (List ℕ)) × (IsAsync l q × (contents [] q ≡ [])))))
unfolding BlockQueue.next
rounds-empty_example =
    rounds-empty (codes "hi" ∷ []) queue_log one_line (nth_name (codes "a/") (codes "log") today 0)
      queue_log-IsAsync refl refl

closing-Fits : Fits 64 (closing today)
unfolding print_ℕ
closing-Fits = record {
  head = omega arith;
  room = omega arith;
  clean = (
    omega arith,
    (
      omega arith,
      (
        omega arith,
        (
          omega arith,
          (
            omega arith,
            (
              omega arith,
              (
                omega arith,
                (
                  omega arith,
                  (
                    omega arith,
                    (
                      omega arith,
                      (
                        omega arith,
                        (
                          omega arith,
                          (
                            omega arith,
                            (
                              omega arith,
                              (
                                omega arith,
                                (
                                  omega arith,
                                  (omega arith, (omega arith, (omega arith, (omega arith, tt)))),
                                ),
                              ),
                            ),
                          ),
                        ),
                      ),
                    ),
                  ),
                ),
              ),
            ),
          ),
        ),
      ),
    ),
  );
}

queue_log-IsMidFile : IsMidFile today queue_log
queue_log-IsMidFile = record { day = refl; split = omega arith; within = λ e. omega (arith, e) }

one_line-room : BlockQueue.full one_line ≡ false
unfolding BlockQueue.full
one_line-room = refl

destroy_log-loses_example :
    (l : Log) × ((destroy_log today true queue_log ≡ terminated l)
      × ((l.lines ≡ [])
          × ((q : Ring (List ℕ)) × ((l.log_queue ≡ some q)
                × (contents [] q ≡ contents [] one_line ++ entry_line (closing today) ∷ [])))))
destroy_log-loses_example =
    destroy_log-loses today true queue_log one_line queue_log-IsAsync one_line-room
      queue_log-IsMidFile closing-Fits

-- The end of a log that was made and not initialised, on a day of a month.
not_initialised : destroy_log today true create ≡ fault
unfolding destroy_log write_log create
not_initialised = refl
