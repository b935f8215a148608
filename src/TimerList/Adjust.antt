-- ===== src/TimerList/Adjust.antt =====
-- `adjust_timer` moves a timer, whose expiry was put off, back to its place.
use linux_image_server.Base.{
  ℕ, ◌≤◌, ◌≡◌, inl, inr, refl, sym, ap₂, ◌∙◌, subst, Option, none, some, List, [], ◌∷◌, ◌++◌,
  length, ltb, arith, Bool-cases, if◌then◌else◌,
}
use linux_image_server.TimerList.{
  Timer, Store, TimerList, put, points_to, add_behind, add_behind_of, set_prev_of, move_head,
  move_middle, adjust_at, adjust_timer,
}
use linux_image_server.TimerList.Chain.{
  Node, Absent, IsAt, Chain, nil, cons, IsTail, IsLinked, apart_sym, put_other, IsAt-put, IsAt-here,
  Chain-put, Chain-split, Chain-Away, Absent-behind, IsTail-behind, IsTail-append,
}
use linux_image_server.TimerList.Link.{set_next_at, set_prev_at}
use linux_image_server.TimerList.Insert.{
  insert, insert_before, insert_behind, Absent-insert, add_from-IsInserted,
}
use linux_image_server.TimerList.Unlink.{unlink-IsUnlinked, head_apart}
use linux_image_server.TimerList.Remove.{points_here, snoc_cases}

abbrev Moves : List Node → TimerList → Option TimerList → Type 0
Moves ns l r = (l' : TimerList) × ((r ≡ some l') × (IsLinked l' ns × (l'.closed ≡ l.closed)))

-- The timer in the middle of a chain.
Chain-lookup :
    {h : Store} {pv hd : Option ℕ} (xs : List Node) (n : Node) (ys : List Node)
    → Chain h pv hd (xs ++ n ∷ ys)
    → (t : Timer) × (IsAt h n t × Chain h (some n.0) t.next ys)
Chain-lookup [] n ys (cons {t} e at_n pr self rest) = (t, (at_n, rest))
Chain-lookup (x ∷ xs) n ys (cons e at_x pr self c) = Chain-lookup xs n ys c

move_head-Moves :
    (n m : Node) (ys : List Node) (fuel : ℕ) (l : TimerList)
    → length ys ≤ fuel
    → Chain l.store none l.head (n ∷ m ∷ ys)
    → IsTail l.tail (m ∷ ys)
    → Moves (m ∷ insert n ys) l (move_head fuel n.0 l)
unfolding move_head set_prev_of add_behind_of add_behind
move_head-Moves n m ys fuel l le
      (cons {t = tn} e at_n pr self (cons {t = tm} e2 at_m pr_m self_m rest)) last =
    let front = record tm { prev = none } in
    let moved = record tn { next = none } in
    let h1 : Store = put m.0 (some front) l.store in
    let h2 : Store = put n.0 (some moved) h1 in
    let mn = apart_sym n.0 m.0 self.0 in
    let lg : TimerList = record l { store = h2; head = some m.0 } in
    let at_front : IsAt h2 m front =
      IsAt-put n.0 _ self.0 (IsAt-here l.store at_m.handler at_m.time) in
    let (l', (ran, done)) =
      add_from-IsInserted ys fuel m n front moved lg le at_front
        (IsAt-here h1 at_n.handler at_n.time) mn self_m self.1
        (Chain-put ys n.0 _ self.1 (Chain-put ys m.0 _ self_m rest)) in
    (
      l',
      (
        rw at_n.stored (
            rw e2 (
              rw (set_prev_at m.0 none l.store tm at_m.stored) (
                rw (set_next_at n.0 none h1 tn (put_other m.0 n.0 _ l.store mn ∙ at_n.stored))
                  (rw at_front.stored ran)))),
        (
          record {
            chain =
                subst (λ p. Chain l'.store none p (m ∷ insert n ys)) (sym done.same_head)
                  done.chain;
            last = done.last last;
          },
          done.same_closed,
        ),
      ),
    )

-- The walk from the node behind the timer.
record IsWalked (n m : Node) (ys : List Node) (pv hd : Option ℕ) (l l' : TimerList) : Type 0 where
  chain : Chain l'.store pv hd (m ∷ insert n ys)
  same : (q : ℕ) → Absent q (n ∷ m ∷ ys) → l'.store q ≡ l.store q
  same_head : l'.head ≡ l.head
  last : IsTail l.tail (m ∷ ys) → IsTail l'.tail (m ∷ insert n ys)
  same_closed : l'.closed ≡ l.closed

add_behind-IsWalked :
    (n m : Node) (ys : List Node) (fuel : ℕ) (t : Timer) (l : TimerList) {pv hd : Option ℕ}
    → length ys ≤ fuel
    → IsAt l.store n t
    → Absent n.0 (m ∷ ys)
    → Chain l.store pv hd (m ∷ ys)
    → (l' : TimerList) × ((add_behind fuel n.0 m.0 l ≡ some l') × IsWalked n m ys pv hd l l')
unfolding add_behind
add_behind-IsWalked n m ys fuel t l {hd = hd} le at_n self (cons {t = tm} e at_m pr self_m rest) =
    let (l', (ran, done)) =
      add_from-IsInserted ys fuel m n tm t l le at_m at_n (apart_sym n.0 m.0 self.0) self_m self.1
        rest in
    (
      l',
      (
        rw at_m.stored ran,
        record {
          chain =
              subst (λ p. Chain l'.store p hd (m ∷ insert n ys)) pr
                (subst (λ p. Chain l'.store tm.prev p (m ∷ insert n ys)) (sym e) done.chain);
          same = λ q ab. done.frame q (apart_sym q m.0 ab.1.0) (apart_sym q n.0 ab.0) ab.1.1;
          same_head = done.same_head;
          last = done.last;
          same_closed = done.same_closed;
        },
      ),
    )

move_middle-Moves :
    (xs : List Node) (p n m : Node) (ys : List Node) (fuel : ℕ) (l : TimerList)
    → length ys ≤ fuel
    → IsLinked l ((xs ++ p ∷ []) ++ n ∷ m ∷ ys)
    → Moves ((xs ++ p ∷ []) ++ m ∷ insert n ys) l (move_middle fuel n.0 l)
unfolding move_middle add_behind_of
move_middle-Moves xs p n m ys fuel l le k =
    let zs = xs ++ p ∷ [] in
    let (g, cut) = unlink-IsUnlinked xs p n m ys k.chain in
    let self = Absent-behind n.0 zs (m ∷ ys) cut.outside in
    let (pv, (hd, (suffix, rebuild))) = Chain-split zs (m ∷ ys) cut.chain in
    let (l', (ran, done)) =
      add_behind-IsWalked n m ys fuel cut.timer (record l { store = g }) le cut.kept self suffix in
    let last = IsTail-behind l.tail zs n (m ∷ ys) k.last in
    (
      l',
      (
        rw cut.ran (rw cut.kept.stored (rw cut.points ran)),
        (
          record {
            chain =
                subst (λ h. Chain l'.store none h (zs ++ m ∷ insert n ys)) (sym done.same_head)
                  (rebuild l'.store (m ∷ insert n ys) (n ∷ m ∷ ys)
                    (Chain-Away zs (n ∷ m ∷ ys) k.chain) done.same
                    (λ q ab rest. (rest.0, Absent-insert q n ys ab.0 rest.1)) done.chain);
            last = IsTail-append l'.tail zs m (insert n ys) (done.last last);
          },
          done.same_closed,
        ),
      ),
    )

abbrev moved : ℕ → ℕ → TimerList → Option TimerList
moved fuel a l = if points_to l.head a then move_head fuel a l else move_middle fuel a l

first :
    {h : Store} {pv hd : Option ℕ} (n : Node) (ys : List Node)
    → Chain h pv hd (n ∷ ys)
    → hd ≡ some n.0
first n ys (cons e at_n pr self rest) = e

move-Moves :
    (xs : List Node) (n m : Node) (ys : List Node) (fuel : ℕ) (l : TimerList)
    → length ys ≤ fuel
    → IsLinked l (xs ++ n ∷ m ∷ ys)
    → Moves (xs ++ m ∷ insert n ys) l (moved fuel n.0 l)
move-Moves xs n m ys fuel l le k = elim (snoc_cases xs) [
  | inl e ↦
      let k' = subst (λ zs. IsLinked l (zs ++ n ∷ m ∷ ys)) e k in
      subst (λ zs. Moves (zs ++ m ∷ insert n ys) l (moved fuel n.0 l)) (sym e)
        (rw (points_here l.head n.0 (first n (m ∷ ys) k'.chain))
          (move_head-Moves n m ys fuel l le k'.chain k'.last))
  | inr (zs, (p, e)) ↦
      let k' = subst (λ ws. IsLinked l (ws ++ n ∷ m ∷ ys)) e k in
      subst (λ ws. Moves (ws ++ m ∷ insert n ys) l (moved fuel n.0 l)) (sym e)
        (rw (head_apart zs p n (m ∷ ys) k'.chain) (move_middle-Moves zs p n m ys fuel l le k'))
]

adjust_at-Moves :
    (xs : List Node) (n : Node) (ys : List Node) (fuel : ℕ) (t : Timer) (nx : Option ℕ)
    (l : TimerList)
    → length ys ≤ fuel
    → IsLinked l (xs ++ n ∷ ys)
    → IsAt l.store n t
    → Chain l.store (some n.0) nx ys
    → Moves (xs ++ insert n ys) l (adjust_at fuel n.0 t nx l)
unfolding adjust_at insert
adjust_at-Moves xs n [] fuel t nx l le k at_n (nil e) = (l, (rw e refl, (k, refl)))
adjust_at-Moves xs n (m ∷ ys) fuel t nx l le k at_n (cons {t = tm} e at_m pr self rest) =
    let same_test : ltb t.expire tm.expire ≡ ltb n.1.1 m.1.1 = ap₂ ltb at_n.time at_m.time in
    elim (Bool-cases (ltb n.1.1 m.1.1)) [
      | inl lt ↦ (
        l,
        (
          rw e (rw at_m.stored (rw (same_test ∙ lt) refl)),
          (subst (λ zs. IsLinked l (xs ++ zs)) (sym (insert_before n m ys lt)) k, refl),
        ),
      )
      | inr ge ↦
          let (l', (ran, (linked, closed))) = move-Moves xs n m ys fuel l (omega arith) k in
          (
            l',
            (
              rw e (rw at_m.stored (rw (same_test ∙ ge) ran)),
              (subst (λ zs. IsLinked l' (xs ++ zs)) (sym (insert_behind n m ys ge)) linked, closed),
            ),
          )
    ]

-- Adjusting a timer of a well-formed list, with enough fuel for the nodes behind it, does not fault:
-- it leaves a well-formed list in which the timers before it stand as they did, and the timer stands
-- before the first of those behind it that expires later; nothing is closed.
pub adjust_timer-moves :
    (xs : List Node) (n : Node) (ys : List Node) (fuel : ℕ) (l : TimerList)
    → length ys ≤ fuel
    → IsLinked l (xs ++ n ∷ ys)
    → (l' : TimerList) × ((adjust_timer fuel (some n.0) l ≡ some l')
        × (IsLinked l' (xs ++ insert n ys) × (l'.closed ≡ l.closed)))
unfolding adjust_timer
adjust_timer-moves xs n ys fuel l le k =
    let (t, (at_n, rest)) = Chain-lookup xs n ys k.chain in
    let (l', (ran, done)) = adjust_at-Moves xs n ys fuel t t.next l le k at_n rest in
    (l', (rw at_n.stored ran, done))
