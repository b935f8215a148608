-- ===== src/Log/Async.antt =====
-- The log with a queue: what the writing thread takes out when nothing more is logged.
use linux_image_server.Base.{
  ℕ, zero, suc, ◌≡◌, refl, sym, ◌∙◌, Option, some, List, [], ◌∷◌, ◌++◌, map, length, append-nil,
  append_assoc, ◌>>=◌,
}
use linux_image_server.BlockQueue.{Ring}
use linux_image_server.BlockQueue.Refine.{contents}
use linux_image_server.Log.{Log, put_line, async_write_log}
use linux_image_server.Log.Saves.{IsAsync, async_write_log-takes}

put_line-open :
    (line f : List ℕ) (l : Log)
    → l.file ≡ some f
    → put_line line l ≡ some (record l { lines = l.lines ++ (f, line) ∷ [] })
unfolding put_line
put_line-open line f l has = through-open l.file has
  where
    through-open :
        (file : Option (List ℕ))
        → file ≡ some f
        → (file >>= λ g. some (record l { lines = l.lines ++ (g, line) ∷ [] }))
          ≡ some (record l { lines = l.lines ++ (f, line) ∷ [] })
    through-open file e = rw e refl

-- `n` rounds of the writing thread.
unfoldable pub rounds : ℕ → Log → Option Log
rounds zero l = some l
rounds (suc n) l = async_write_log l >>= λ l1. rounds n l1

-- While the file stays open and nothing more is logged, as many rounds as there are lines in the
-- queue empty it, and write its lines to the file, oldest first.
pub rounds-empty :
    (xs : List (List ℕ)) (l : Log) (q : Ring (List ℕ)) (f : List ℕ)
    → IsAsync l q
    → contents [] q ≡ xs
    → l.file ≡ some f
    → (l' : Log) × ((rounds (length xs) l ≡ some l')
        × ((l'.lines ≡ l.lines ++ map (λ x. (f, x)) xs)
            × ((q' : Ring (List ℕ)) × (IsAsync l' q' × (contents [] q' ≡ [])))))
unfolding rounds
rounds-empty [] l q f a e has = (l, (refl, (sym (append-nil l.lines), (q, (a, e)))))
rounds-empty (x ∷ xs) l q f a e has =
    let (q1, (ran, (rest, (valid, cap)))) = async_write_log-takes l q x xs a e in
    let l1 : Log = record l { log_queue = some q1; lines = l.lines ++ (f, x) ∷ [] } in
    let (l', (ran', (lines, done))) =
      rounds-empty xs l1 q1 f (record { async = a.async; queue = refl; valid = valid }) rest has in
    (
      l',
      (
        rw (ran ∙ put_line-open x f (record l { log_queue = some q1 }) has) ran',
        (lines ∙ append_assoc l.lines ((f, x) ∷ []) (map (λ y. (f, y)) xs), done),
      ),
    )
