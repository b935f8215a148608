-- ===== src/TimerList/Remove.antt =====
-- `del_timer` takes one timer out of the list, and frees it.
use linux_image_server.Base.{
  ℕ, ◌≡◌, ◌⊎◌, inl, inr, refl, sym, ap, ◌∙◌, subst, true, false, Option, none, some, List, [], ◌∷◌,
  ◌++◌, append-nil, append_assoc, ◌==◌, arith,
}
use linux_image_server.TimerList.{
  Timer, Store, TimerList, put, points_to, set_next_of, set_prev_of, del_head, del_tail, del_middle,
  del_timer,
}
use linux_image_server.TimerList.Chain.{
  Node, Absent, Chain, nil, cons, IsTail, IsLinked, apart_sym, put_other, put_same, IsAt-put,
  IsAt-here, Chain-put, Chain-split, Chain-Away, Absent-behind, Absent-append, IsTail-behind,
  IsTail-append,
}
use linux_image_server.TimerList.Link.{set_next_at, set_prev_at}
use linux_image_server.TimerList.Unlink.{unlink-IsUnlinked, head_apart, tail_apart, second_apart}

-- The timer at this address is gone, and the rest is as the list says.
abbrev Removes : ℕ → List Node → TimerList → Option TimerList → Type 0
Removes a ns l r =
    (l' : TimerList) × ((r ≡ some l')
      × (IsLinked l' ns × ((l'.store a ≡ none) × (l'.closed ≡ l.closed))))

pub points_here : (p : Option ℕ) (a : ℕ) → p ≡ some a → points_to p a ≡ true
points_here p a e = ap (λ q. points_to q a) e ∙ same a
  where
    same : (b : ℕ) → (b == b) ≡ true
    same b = ground arith

del_only :
    (n : Node) (l : TimerList) → IsLinked l (n ∷ []) → Removes n.0 [] l (del_timer (some n.0) l)
unfolding del_timer
del_only n l k = head_of k.chain
  where
    head_of : Chain l.store none l.head (n ∷ []) → Removes n.0 [] l (del_timer (some n.0) l)
    head_of (cons e at_n pr self rest) = (
      record l { store = put n.0 none l.store; head = none; tail = none },
      (
        rw (points_here l.head n.0 e) (rw (points_here l.tail n.0 k.last) refl),
        (record { chain = nil refl; last = tt }, (put_same n.0 none l.store, refl)),
      ),
    )

del_first :
    (n m : Node) (ys : List Node) (l : TimerList)
    → Chain l.store none l.head (n ∷ m ∷ ys)
    → IsTail l.tail (m ∷ ys)
    → Removes n.0 (m ∷ ys) l (del_timer (some n.0) l)
unfolding del_timer del_head set_prev_of
del_first n m ys l (cons {t = tn} e at_n pr self (cons {t = tm} e2 at_m pr_m self_m rest)) last = (
  record l {
    store = put n.0 none (put m.0 (some (record tm { prev = none })) l.store);
    head = tn.next;
  },
  (
    rw (points_here l.head n.0 e) (
        rw (tail_apart l.tail n m ys self last)
          (rw at_n.stored (rw e2 (rw (set_prev_at m.0 none l.store tm at_m.stored) refl)))),
    (
      record {
        chain =
            cons e2 (IsAt-put n.0 none self.0 (IsAt-here l.store at_m.handler at_m.time)) refl
              self_m (Chain-put ys n.0 none self.1 (Chain-put ys m.0 _ self_m rest));
        last = last;
      },
      (put_same n.0 none (put m.0 (some (record tm { prev = none })) l.store), refl),
    ),
  ),
)

-- The last two nodes of a list, when the last one goes.
record IsCutLast (p n : Node) (pv hd : Option ℕ) (h g : Store) : Type 0 where
  timer : Timer
  stored : h n.0 ≡ some timer
  apart : (n.0 == p.0) ≡ false
  before : timer.prev ≡ some p.0
  ran : set_next_of timer.prev none h ≡ some g
  chain : Chain g pv hd (p ∷ [])
  same : (q : ℕ) → Absent q (p ∷ n ∷ []) → g q ≡ h q

drop_last_lem :
    (p n : Node) {pv hd : Option ℕ} {h : Store}
    → Chain h pv hd (p ∷ n ∷ [])
    → (g : Store) × IsCutLast p n pv hd h g
unfolding set_next_of
drop_last_lem p n {h = h} (cons {t = tp} e at_p pr self (cons {t = tn} e1 at_n pr_n self_n rest)) =
    (
      put p.0 (some (record tp { next = none })) h,
      record {
        timer = tn;
        stored = at_n.stored;
        apart = apart_sym p.0 n.0 self.0;
        before = pr_n;
        ran = rw pr_n (set_next_at p.0 none h tp at_p.stored);
        chain = cons e (IsAt-here h at_p.handler at_p.time) pr tt (nil refl);
        same = λ q ab. put_other p.0 q _ h (apart_sym q p.0 ab.0);
      },
    )

del_last :
    (xs : List Node) (p n : Node) (l : TimerList)
    → IsLinked l ((xs ++ p ∷ []) ++ n ∷ [])
    → Removes n.0 (xs ++ p ∷ []) l (del_timer (some n.0) l)
unfolding del_timer del_tail
del_last xs p n l k =
    let c : Chain l.store none l.head (xs ++ p ∷ n ∷ []) =
      subst (λ ns. Chain l.store none l.head ns) (append_assoc xs (p ∷ []) (n ∷ [])) k.chain in
    let away = Chain-Away xs (p ∷ n ∷ []) c in
    let (pv, (hd, (suffix, rebuild))) = Chain-split xs (p ∷ n ∷ []) c in
    let (g, cut) = drop_last_lem p n suffix in
    let chain = rebuild g (p ∷ []) (p ∷ n ∷ []) away cut.same (λ q ab rest. (ab.0, tt)) cut.chain in
    (
      record l { store = put n.0 none g; tail = cut.timer.prev },
      (
        rw (head_apart xs p n [] k.chain) (
            rw (points_here l.tail n.0 (IsTail-behind l.tail (xs ++ p ∷ []) n [] k.last))
              (rw cut.stored (rw cut.ran refl))),
        (
          record {
            chain =
                Chain-put (xs ++ p ∷ []) n.0 none
                  (Absent-append n.0 xs (p ∷ []) (second_apart xs p n [] away) (cut.apart, tt))
                  chain;
            last = IsTail-append cut.timer.prev xs p [] cut.before;
          },
          (put_same n.0 none g, refl),
        ),
      ),
    )

del_between :
    (xs : List Node) (p n m : Node) (ys : List Node) (l : TimerList)
    → IsLinked l ((xs ++ p ∷ []) ++ n ∷ m ∷ ys)
    → Removes n.0 ((xs ++ p ∷ []) ++ m ∷ ys) l (del_timer (some n.0) l)
unfolding del_timer del_middle
del_between xs p n m ys l k =
    let (g, cut) = unlink-IsUnlinked xs p n m ys k.chain in
    let last = IsTail-behind l.tail (xs ++ p ∷ []) n (m ∷ ys) k.last in
    (
      record l { store = put n.0 none g },
      (
        rw (head_apart xs p n (m ∷ ys) k.chain) (
            rw
              (tail_apart l.tail n m ys (Absent-behind n.0 (xs ++ p ∷ []) (m ∷ ys) cut.outside)
                last)
              (rw cut.ran refl)),
        (
          record {
            chain = Chain-put ((xs ++ p ∷ []) ++ m ∷ ys) n.0 none cut.outside cut.chain;
            last = IsTail-append l.tail (xs ++ p ∷ []) m ys last;
          },
          (put_same n.0 none g, refl),
        ),
      ),
    )

pub snoc_cases :
    (xs : List Node) → (xs ≡ []) ⊎ ((ys : List Node) × ((p : Node) × (xs ≡ ys ++ p ∷ [])))
snoc_cases [] = inl refl
snoc_cases (x ∷ xs) = elim (snoc_cases xs) [
  | inl e ↦ inr ([], (x, ap (λ ys. x ∷ ys) e))
  | inr (ys, (p, e)) ↦ inr (x ∷ ys, (p, ap (λ zs. x ∷ zs) e))
]

del_front :
    (n : Node) (ys : List Node) (l : TimerList)
    → IsLinked l (n ∷ ys)
    → Removes n.0 ys l (del_timer (some n.0) l)
del_front n [] l k = del_only n l k
del_front n (m ∷ ys) l k = del_first n m ys l k.chain k.last

del_behind :
    (xs : List Node) (p n : Node) (ys : List Node) (l : TimerList)
    → IsLinked l ((xs ++ p ∷ []) ++ n ∷ ys)
    → Removes n.0 ((xs ++ p ∷ []) ++ ys) l (del_timer (some n.0) l)
del_behind xs p n [] l k =
    subst (λ ns. Removes n.0 ns l (del_timer (some n.0) l)) (sym (append-nil (xs ++ p ∷ [])))
      (del_last xs p n l k)
del_behind xs p n (m ∷ ys) l k = del_between xs p n m ys l k

-- Deleting any timer of a well-formed list does not fault: it frees the timer, closes nothing, and
-- leaves a well-formed list of the other timers in their order.
pub del_timer-removes :
    (xs : List Node) (n : Node) (ys : List Node) (l : TimerList)
    → IsLinked l (xs ++ n ∷ ys)
    → (l' : TimerList) × ((del_timer (some n.0) l ≡ some l')
        × (IsLinked l' (xs ++ ys) × ((l'.store n.0 ≡ none) × (l'.closed ≡ l.closed))))
del_timer-removes xs n ys l k = elim (snoc_cases xs) [
  | inl e ↦
      subst (λ zs. Removes n.0 (zs ++ ys) l (del_timer (some n.0) l)) (sym e)
        (del_front n ys l (subst (λ zs. IsLinked l (zs ++ n ∷ ys)) e k))
  | inr (zs, (p, e)) ↦
      subst (λ ws. Removes n.0 (ws ++ ys) l (del_timer (some n.0) l)) (sym e)
        (del_behind zs p n ys l (subst (λ ws. IsLinked l (ws ++ n ∷ ys)) e k))
]
