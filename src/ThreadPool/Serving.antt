-- ===== src/ThreadPool/Serving.antt =====
-- The end of the body of `run` (src/include/threadpool.h): a worker takes a database connection for
-- its request and gives it back, and in between `init_` (src/http/http_conn.cpp) may set the pointer
-- to null; any number of workers do so in turns, each on a request of its own.
use mathlib.Core.List.{Perm, perm_middle}
use mathlib.Core.List.Perm
use linux_image_server.Base.{
  ℕ, suc, ◌≡◌, refl, sym, ap, ◌∙◌, subst, Option, none, some, List, [], ◌∷◌, ◌++◌, length,
  length-append, append_assoc, arith,
}
use linux_image_server.ConnectionPool.{Pool, take_first, get_connection, release_connection}
use linux_image_server.ConnectionPool.Counts.{
  IsCounted, take_first-IsCounted, release_connection-IsCounted,
}

-- The pool, the pointer `mysql` of each request that is being processed, and the connections whose
-- pointer `init_` has set to null before the worker gave them back.
pub record Serving : Type 0 where
  pub pool : Pool
  pub held : List (Option ℕ)
  pub lost : List ℕ

-- `request->mysql = m_connPool->get_connection()`.
unfoldable pub begin_request : Serving → Serving
unfolding get_connection
begin_request s = let (c, p) = get_connection s.pool in record s { pool = p; held = c ∷ s.held }

-- `m_connPool->release_connection(request->mysql)` of one of the requests.
unfoldable pub end_request : Serving → List (Option ℕ) → Option ℕ → List (Option ℕ) → Serving
unfolding release_connection
end_request s before c behind = record s {
  pool = (release_connection s.pool c).1;
  held = before ++ behind;
}

abbrev unreachable : Option ℕ → List ℕ → List ℕ
unreachable none lost = lost
unreachable (some c) lost = c ∷ lost

-- `mysql = NULL` in the `init_` of one of the requests, after its answer was sent.
unfoldable pub reset_request : Serving → List (Option ℕ) → Option ℕ → List (Option ℕ) → Serving
reset_request s before c behind = record s {
  held = before ++ none ∷ behind;
  lost = unreachable c s.lost;
}

pub data Serve : Serving → Serving → Type 0 where
  begins : (s : Serving) → Serve s (begin_request s)
  resets :
      (s : Serving) (before : List (Option ℕ)) (c : Option ℕ) (behind : List (Option ℕ))
      → s.held ≡ before ++ c ∷ behind
      → Serve s (reset_request s before c behind)
  ends :
      (s : Serving) (before : List (Option ℕ)) (c : Option ℕ) (behind : List (Option ℕ))
      → s.held ≡ before ++ c ∷ behind
      → Serve s (end_request s before c behind)

pub data Reach (s : Serving) : Serving → Type 0 where
  here : Reach s s
  next : {t u : Serving} → Reach s t → Serve t u → Reach s u

-- The connections among these pointers.
unfoldable pub connections : List (Option ℕ) → List ℕ
connections [] = []
connections (none ∷ cs) = connections cs
connections (some c ∷ cs) = c ∷ connections cs

connections-append :
    (xs ys : List (Option ℕ)) → connections (xs ++ ys) ≡ connections xs ++ connections ys
unfolding connections
connections-append [] ys = refl
connections-append (none ∷ xs) ys = connections-append xs ys
connections-append (some c ∷ xs) ys = ap (λ k. c ∷ k) (connections-append xs ys)

-- Those held and those lost.
abbrev pub out : List (Option ℕ) → List ℕ → List ℕ
out held lost = connections held ++ lost

-- The counters are right, and the idle connections, those held and those lost are all there were.
pub record IsFair (all : List ℕ) (s : Serving) : Type 0 where
  pub counted : IsCounted s.pool
  pub in_use : s.pool.cur_conn ≡ length (out s.held s.lost)
  pub kept : Perm (s.pool.conn_list ++ out s.held s.lost) all

taking-IsFair :
    (all : List ℕ) (s : Serving) (cs : List ℕ)
    → s.pool.conn_list ≡ cs
    → IsFair all s
    → IsFair all
        (record s { pool = (take_first s.pool cs).1; held = (take_first s.pool cs).0 ∷ s.held })
unfolding take_first connections
taking-IsFair all s [] e k = record { counted = k.counted; in_use = k.in_use; kept = k.kept }
taking-IsFair all s (c ∷ rest) e k = record {
  counted = take_first-IsCounted s.pool (c ∷ rest) e k.counted;
  in_use = omega (arith, k.in_use, k.counted.total, k.counted.small, ap length e);
  kept =
      Perm.trans (perm_middle rest (out s.held s.lost))
        (subst (λ l. Perm (l ++ out s.held s.lost) all) e k.kept);
}

module _ (before : List (Option ℕ)) (behind : List (Option ℕ)) (lost : List ℕ) where
  out-none : out (before ++ none ∷ behind) lost ≡ out (before ++ behind) lost
  unfolding connections
  out-none =
      ap (λ l. l ++ lost)
        (connections-append before (none ∷ behind) ∙ sym (connections-append before behind))

  out-split :
      (c : ℕ)
      → out (before ++ some c ∷ behind) lost
        ≡ connections before ++ c ∷ (connections behind ++ lost)
  unfolding connections
  out-split c =
      ap (λ l. l ++ lost) (connections-append before (some c ∷ behind))
      ∙ append_assoc (connections before) (c ∷ connections behind) lost

  out-joined : out (before ++ behind) lost ≡ connections before ++ (connections behind ++ lost)
  out-joined =
      ap (λ l. l ++ lost) (connections-append before behind)
      ∙ append_assoc (connections before) (connections behind) lost

  length-out :
      (c : ℕ)
      → length (out (before ++ some c ∷ behind) lost) ≡ suc (length (out (before ++ behind) lost))
  length-out c = omega (
    arith,
    ap length (out-split c),
    ap length out-joined,
    length-append (connections before) (c ∷ (connections behind ++ lost)),
    length-append (connections before) (connections behind ++ lost),
  )

  -- A pointer that is not null stands for one connection more, wherever it stands.
  out-some : (c : ℕ) → Perm (c ∷ out (before ++ behind) lost) (out (before ++ some c ∷ behind) lost)
  out-some c =
      subst (λ l. Perm (c ∷ out (before ++ behind) lost) l) (sym (out-split c))
        (subst (λ l. Perm (c ∷ l) (connections before ++ c ∷ (connections behind ++ lost)))
          (sym out-joined)
          (Perm.symm (perm_middle (connections before) (connections behind ++ lost))))

  -- The same with the connection among those lost.
  out-lost :
      (c : ℕ)
      → Perm (out (before ++ none ∷ behind) (c ∷ lost)) (out (before ++ some c ∷ behind) lost)
  out-lost c =
      Perm.trans (perm_middle (connections (before ++ none ∷ behind)) lost) (
        subst (λ l. Perm (c ∷ l) (out (before ++ some c ∷ behind) lost)) (sym out-none)
          (out-some c))

  length-out_lost :
      (c : ℕ)
      → length (out (before ++ none ∷ behind) (c ∷ lost))
        ≡ length (out (before ++ some c ∷ behind) lost)
  length-out_lost c = omega (
    arith,
    length-out c,
    ap length out-none,
    length-append (connections (before ++ none ∷ behind)) (c ∷ lost),
    length-append (connections (before ++ none ∷ behind)) lost,
  )

module _ (all : List ℕ) (s : Serving) (before : List (Option ℕ)) (behind : List (Option ℕ)) where
  resetting-IsFair :
      (c : Option ℕ)
      → s.held ≡ before ++ c ∷ behind
      → IsFair all s
      → IsFair all (reset_request s before c behind)
  unfolding reset_request
  resetting-IsFair none e k = record {
    counted = k.counted;
    in_use = k.in_use ∙ ap (λ h. length (out h s.lost)) e;
    kept = subst (λ h. Perm (s.pool.conn_list ++ out h s.lost) all) e k.kept;
  }
  resetting-IsFair (some c) e k = record {
    counted = k.counted;
    in_use =
        k.in_use ∙ ap (λ h. length (out h s.lost)) e ∙ sym (length-out_lost before behind s.lost c);
    kept =
        Perm.trans (Perm.append_left s.pool.conn_list (out-lost before behind s.lost c))
          (subst (λ h. Perm (s.pool.conn_list ++ out h s.lost) all) e k.kept);
  }

  ending-IsFair :
      (c : Option ℕ)
      → s.held ≡ before ++ c ∷ behind
      → IsFair all s
      → IsFair all (end_request s before c behind)
  unfolding end_request release_connection
  ending-IsFair none e k =
      let same = out-none before behind s.lost in
      record {
        counted = k.counted;
        in_use = k.in_use ∙ ap (λ h. length (out h s.lost)) e ∙ ap length same;
        kept =
            subst (λ l. Perm (s.pool.conn_list ++ l) all) (ap (λ h. out h s.lost) e ∙ same) k.kept;
      }
  ending-IsFair (some c) e k =
      let more = length-out before behind s.lost c in
      let used : s.pool.cur_conn ≡ suc (length (out (before ++ behind) s.lost)) =
        k.in_use ∙ ap (λ h. length (out h s.lost)) e ∙ more in
      record {
        counted = release_connection-IsCounted s.pool (some c) k.counted (omega (arith, used));
        in_use = omega (arith, used, k.counted.total, k.counted.small);
        kept =
            subst (λ l. Perm l all)
              (sym (append_assoc s.pool.conn_list (c ∷ []) (out (before ++ behind) s.lost)))
              (Perm.trans (Perm.append_left s.pool.conn_list (out-some before behind s.lost c))
                (subst (λ h. Perm (s.pool.conn_list ++ out h s.lost) all) e k.kept));
      }

-- Whatever the workers do, in any order and however many they are: the counters stay right, CurConn
-- is the number of connections that are not idle, and the idle connections, those that a request
-- holds, and those whose pointer `init_` has reset are, up to order, the connections that there were
-- at the start: none is handed out twice, and no other is lost.
pub serving-IsFair : {s t : Serving} (all : List ℕ) → IsFair all s → Reach s t → IsFair all t
unfolding begin_request
serving-IsFair all k here = k
serving-IsFair all k (next run (begins s)) =
    taking-IsFair all s s.pool.conn_list refl (serving-IsFair all k run)
serving-IsFair all k (next run (resets s before c behind e)) =
    resetting-IsFair all s before behind c e (serving-IsFair all k run)
serving-IsFair all k (next run (ends s before c behind e)) =
    ending-IsFair all s before behind c e (serving-IsFair all k run)
