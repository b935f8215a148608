-- ===== src/Log/Saves.antt =====
-- What the steps of the log with a queue do to its lines and its queue.
use linux_image_server.Base.{
  ℕ, ◌+◌, ◌%◌, ◌<◌, ◌≡◌, refl, ap, ◌∙◌, arith, Bool, true, false, Option, none, some, List, [], ◌∷◌,
  ◌++◌, map, length, ◌==◌, lt→ltb, through, branch,
}
use linux_image_server.BlockQueue.{Ring, full, push, pop}
use linux_image_server.BlockQueue.Inv.{IsValid}
use linux_image_server.BlockQueue.Refine.{
  contents, length-contents, enqueue, push_refines, take_front_refines,
}
use linux_image_server.Log.{
  Now, Log, text_of, reopen, rotate, put_line, write_popped, async_write_log,
}

-- If there is a result, it has the lines, the queue and the buffer of the log.
abbrev pub Keeps : Log → Option Log → Type 0
Keeps l none = Unit {0}
Keeps l (some l1) =
    (l1.is_async ≡ l.is_async)
    × ((l1.log_queue ≡ l.log_queue) × ((l1.lines ≡ l.lines) × (l1.buf ≡ l.buf)))

reopen-Keeps : (t : Now) (opened : Bool) (l : Log) → Keeps l (reopen t opened l)
unfolding reopen
reopen-Keeps t opened l = through (Keeps l) l.file _ tt (λ f e.
    through (Keeps l) (text_of l.dir_name) _ tt (λ dir e1.
      through (Keeps l) (text_of l.log_name) _ tt (λ name e2.
        branch (Keeps l) (l.today == t.mday) _ _ (λ y. (refl, (refl, (refl, refl))))
          (λ n. (refl, (refl, (refl, refl)))))))

pub rotate-Keeps : (t : Now) (opened : Bool) (l : Log) → Keeps l (rotate t opened l)
unfolding rotate
rotate-Keeps t opened l =
    let reopened = reopen-Keeps t opened (record l { count = l.count + 1 }) in
    branch (Keeps l) (l.today == t.mday) _ _
      (λ same.
        branch (Keeps l) (l.split_lines == 0) _ _ (λ z. tt)
          (λ nz.
            branch (Keeps l) ((l.count + 1) % l.split_lines == 0) _ _ (λ m. reopened)
              (λ nm. (refl, (refl, (refl, refl))))))
      (λ other. reopened)

-- The lines that are in files, and those that wait in the queue.
abbrev pub saved : Log → Ring (List ℕ) → List (List ℕ)
saved l q = map (λ p. p.1) l.lines ++ contents [] q

pub record IsAsync (l : Log) (q : Ring (List ℕ)) : Type 0 where
  pub async : l.is_async ≡ true
  pub queue : l.log_queue ≡ some q
  pub valid : IsValid q

pub one_more :
    (ls : List (List ℕ × List ℕ)) (f line : List ℕ)
    → map (λ p. p.1) (ls ++ (f, line) ∷ []) ≡ map (λ p. p.1) ls ++ line ∷ []
one_more [] f line = refl
one_more (p ∷ ls) f line = ap (λ k. p.1 ∷ k) (one_more ls f line)

pub contents-push :
    (line : List ℕ) (q : Ring (List ℕ))
    → IsValid q
    → full q ≡ false
    → contents [] (push q line).1 ≡ contents [] q ++ line ∷ []
unfolding full enqueue
contents-push line q v room =
    let fits : q.size < q.max_size = ground arith in
    ap (λ p. p.1) (push_refines [] q line v)
    ∙ rw (lt→ltb (length (contents [] q)) q.max_size (omega (arith, length-contents [] q))) refl

-- The thread takes the oldest line of a queue that is not empty.
pub async_write_log-takes :
    (l : Log) (q : Ring (List ℕ)) (x : List ℕ) (xs : List (List ℕ))
    → IsAsync l q
    → contents [] q ≡ x ∷ xs
    → (q' : Ring (List ℕ)) × ((async_write_log l ≡ put_line x (record l { log_queue = some q' }))
        × ((contents [] q' ≡ xs) × (IsValid q' × (q'.max_size ≡ q.max_size))))
unfolding async_write_log write_popped pop
async_write_log-takes l q x xs a e =
    let (q', took, rest, valid, same) = take_front_refines [] q x xs a.valid e in
    let some_lines : (q.size == 0) ≡ false = ground (arith, length-contents [] q, ap length e) in
    (q', (rw a.queue (rw some_lines (rw took refl)), (rest, (valid, same))))

pub async_write_log-waits :
    (l : Log) (q : Ring (List ℕ)) → IsAsync l q → contents [] q ≡ [] → async_write_log l ≡ some l
unfolding async_write_log write_popped pop
async_write_log-waits l q a e =
    let no_lines : (q.size == 0) ≡ true = ground (arith, length-contents [] q, ap length e) in
    rw a.queue (rw no_lines refl)
