-- ===== src/Log/Files.antt =====
-- The files that a log without a queue writes to on one day.
use native.Mathlib.Nat.{zero-div}
use linux_image_server.Base.{
  ℕ, ◌+◌, ◌/◌, ◌≡◌, ◌≢◌, refl, sym, ap, ◌∙◌, true, Option, some, List, [], ◌∷◌, ◌++◌, length,
  append-nil, append_assoc, ◌>>=◌,
}
use linux_image_server.Log.{Now, Log, write_log}
use linux_image_server.Log.Rotate.{
  Entry, SameDay, entry_line, nth_name, Fits, IsDirect, IsDay, rotate-IsDay, rotate_next_day,
  write_log_rotated, counted, started,
}

-- The calls of `write_log`, while fopen succeeds.
unfoldable pub write_all : List Entry → Log → Option Log
unfolding write_log
write_all [] l = some l
write_all (e ∷ es) l = write_log e.now true e.level e.text l >>= λ l'. write_all es l'

-- Where the entries go when the first is line number `k` of the day.
unfoldable pub filed : (ℕ → List ℕ) → ℕ → ℕ → List Entry → List (List ℕ × List ℕ)
filed names s k [] = []
filed names s k (e ∷ es) = (names (k / s), entry_line e) ∷ filed names s (k + 1) es

-- Every entry is of the day of `t` and fits in a buffer of `size` bytes.
abbrev pub AllOn : Now → ℕ → List Entry → Type 0
AllOn t size [] = Unit {0}
AllOn t size (e ∷ es) = (SameDay t e.now × Fits size e) × AllOn t size es

abbrev Files : List ℕ → List ℕ → Now → ℕ → List Entry → Log → Option Log → Type 0
Files dir name t k es l result =
    (l' : Log) × ((result ≡ some l')
      × (l'.lines ≡ l.lines ++ filed (nth_name dir name t) l.split_lines k es))

append_further :
    (names : ℕ → List ℕ) (s k : ℕ) (e : Entry) (es : List Entry) (ls : List (List ℕ × List ℕ))
    → (ls ++ (names (k / s), entry_line e) ∷ []) ++ filed names s (k + 1) es
      ≡ ls ++ filed names s k (e ∷ es)
unfolding filed
append_further names s k e es ls =
    append_assoc ls ((names (k / s), entry_line e) ∷ []) (filed names s (k + 1) es)

write_all-Files :
    (es : List Entry) (dir name : List ℕ) (t : Now) (l : Log) (size : ℕ)
    → IsDay dir name t l
    → length l.buf ≡ size
    → AllOn t size es
    → Files dir name t (l.count + 1) es l (write_all es l)
unfolding write_all filed
write_all-Files [] dir name t l size d sized all = (l, (refl, sym (append-nil l.lines)))
write_all-Files (e ∷ es) dir name t l size d sized all =
    let l1 = counted dir name t l in
    let (b, (sized', ran)) =
      write_log_rotated size e (nth_name dir name t ((l.count + 1) / l.split_lines)) l l1
        (rotate-IsDay dir name t e.now l d all.0.0) d.set.direct refl sized all.0.1 in
    let l2 : Log = record l1 {
      buf = b;
      lines = l1.lines ++ (nth_name dir name t ((l.count + 1) / l.split_lines), entry_line e) ∷ [];
    } in
    let d2 : IsDay dir name t l2 = record {
      set = record {
        direct = d.set.direct;
        split = d.set.split;
        dir_text = d.set.dir_text;
        name_text = d.set.name_text;
      };
      day = d.day;
      current = refl;
    } in
    let (l', (rest, lines)) = write_all-Files es dir name t l2 size d2 sized' all.1 in
    (
      l',
      (
        rw ran rest,
        lines ∙ append_further (nth_name dir name t) l.split_lines (l.count + 1) e es l.lines,
      ),
    )

-- A log without a queue in the midst of a day, whose file is the one that its count asks for, given
-- entries of that day whose lines fit in its buffer, while fopen succeeds: every line is written, in
-- order, and line number `k` of the day goes to the day's file number `k / m_split_lines`.
pub write_all-filed :
    (es : List Entry) (dir name : List ℕ) (t : Now) (l : Log)
    → IsDay dir name t l
    → AllOn t (length l.buf) es
    → (l' : Log) × ((write_all es l ≡ some l')
        × (l'.lines ≡ l.lines ++ filed (nth_name dir name t) l.split_lines (l.count + 1) es))
write_all-filed es dir name t l d all = write_all-Files es dir name t l (length l.buf) d refl all

-- The same on the next day: when the first entry is of a day of the month other than that of the
-- open file, its line is number 0 of the new day.
pub write_all_next_day :
    (e : Entry) (es : List Entry) (dir name old : List ℕ) (l : Log)
    → IsDirect dir name l
    → l.today ≢ e.now.mday
    → l.file ≡ some old
    → AllOn e.now (length l.buf) (e ∷ es)
    → (l' : Log) × ((write_all (e ∷ es) l ≡ some l')
        × (l'.lines ≡ l.lines ++ filed (nth_name dir name e.now) l.split_lines 0 (e ∷ es)))
unfolding write_all
write_all_next_day e es dir name old l set other has all =
    let l1 = started dir name e.now l in
    let first : nth_name dir name e.now 0 ≡ nth_name dir name e.now (0 / l.split_lines) =
      ap (nth_name dir name e.now) (sym (zero-div l.split_lines)) in
    let (b, (sized, ran)) =
      write_log_rotated (length l.buf) e (nth_name dir name e.now 0) l l1
        (rotate_next_day dir name old e.now l set other has) set.direct refl refl all.0.1 in
    let l2 : Log = record l1 {
      buf = b;
      lines = l1.lines ++ (nth_name dir name e.now 0, entry_line e) ∷ [];
    } in
    let d2 : IsDay dir name e.now l2 = record {
      set = record {
        direct = set.direct;
        split = set.split;
        dir_text = set.dir_text;
        name_text = set.name_text;
      };
      day = refl;
      current = ap some first;
    } in
    let (l', (rest, lines)) = write_all-Files es dir name e.now l2 (length l.buf) d2 sized all.1 in
    (
      l',
      (
        rw ran rest,
        lines
            ∙ ap
                (λ f.
                  (l.lines ++ (f, entry_line e) ∷ [])
                  ++ filed (nth_name dir name e.now) l.split_lines 1 es)
                first
            ∙ append_further (nth_name dir name e.now) l.split_lines 0 e es l.lines,
      ),
    )
