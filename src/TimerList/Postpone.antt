-- ===== src/TimerList/Postpone.antt =====
-- Putting off a timer keeps the list sorted.
use linux_image_server.Base.{
  ℕ, ◌≤◌, ◌≡◌, refl, ap, ◌∙◌, Option, some, List, [], ◌∷◌, ◌++◌, length, arith,
}
use linux_image_server.TimerList.{Timer, Store, TimerList, put, postpone, postpone_at}
use linux_image_server.TimerList.Chain.{
  Node, IsAt, Chain, cons, IsTail, IsLinked, apart_sym, put_other, IsAt-here, Chain-put,
  Chain-split, Chain-Away,
}
use linux_image_server.TimerList.Insert.{insert}
use linux_image_server.TimerList.Order.{NotBefore, Sorted, NotBefore-insert, insert-Sorted}
use linux_image_server.TimerList.Adjust.{adjust_timer-moves}

-- The node with another time of expiry.
abbrev pub at_time : Node → ℕ → Node
at_time n e = (n.0, (n.1.0, e))

NotBefore-later :
    (d : ℕ) (xs : List Node) (n : Node) (e : ℕ) (ys : List Node)
    → n.1.1 ≤ e
    → NotBefore d (xs ++ n ∷ ys)
    → NotBefore d (xs ++ insert (at_time n e) ys)
NotBefore-later d [] n e ys le nb = NotBefore-insert d (at_time n e) ys (omega (arith, nb.0)) nb.1
NotBefore-later d (x ∷ xs) n e ys le nb = (nb.0, NotBefore-later d xs n e ys le nb.1)

Sorted-later :
    (xs : List Node) (n : Node) (e : ℕ) (ys : List Node)
    → n.1.1 ≤ e
    → Sorted (xs ++ n ∷ ys)
    → Sorted (xs ++ insert (at_time n e) ys)
Sorted-later [] n e ys le s = insert-Sorted (at_time n e) ys s.1
Sorted-later (x ∷ xs) n e ys le s =
    (NotBefore-later x.1.1 xs n e ys le s.0, Sorted-later xs n e ys le s.1)

-- Writing the expiry of the first node of a chain.
rewrite_first :
    (n : Node) (ys : List Node) (e : ℕ) {pv hd : Option ℕ} {h : Store}
    → Chain h pv hd (n ∷ ys)
    → (t : Timer) × (IsAt h n t
        × (Chain (put n.0 (some (record t { expire = e })) h) pv hd (at_time n e ∷ ys)))
rewrite_first n ys e {h = h} (cons {t} e0 at_n pr self rest) =
    (t, (at_n, cons e0 (IsAt-here h at_n.handler refl) pr self (Chain-put ys n.0 _ self rest)))

last_kept :
    (tl : Option ℕ) (xs : List Node) (n : Node) (e : ℕ) (ys : List Node)
    → IsTail tl (xs ++ n ∷ ys)
    → IsTail tl (xs ++ at_time n e ∷ ys)
last_kept tl [] n e [] last = last
last_kept tl [] n e (y ∷ ys) last = last
last_kept tl (x ∷ []) n e ys last = last_kept tl [] n e ys last
last_kept tl (x ∷ y ∷ xs) n e ys last = last_kept tl (y ∷ xs) n e ys last

-- Putting a timer of a well-formed sorted list off to a time that is not before its own, with enough
-- fuel for the nodes behind it, does not fault: it leaves a well-formed sorted list in which that
-- timer alone has another expiry, and closes nothing.
pub postpone-Sorted :
    (xs : List Node) (n : Node) (ys : List Node) (fuel e : ℕ) (l : TimerList)
    → length ys ≤ fuel
    → n.1.1 ≤ e
    → IsLinked l (xs ++ n ∷ ys)
    → Sorted (xs ++ n ∷ ys)
    → (l' : TimerList) × ((postpone fuel n.0 e l ≡ some l')
        × (IsLinked l' (xs ++ insert (at_time n e) ys)
            × (Sorted (xs ++ insert (at_time n e) ys) × (l'.closed ≡ l.closed))))
unfolding postpone postpone_at
postpone-Sorted xs n ys fuel e l le later k s =
    let (pv, (hd, (suffix, rebuild))) = Chain-split xs (n ∷ ys) k.chain in
    let (t, (at_n, front)) = rewrite_first n ys e suffix in
    let h : Store = put n.0 (some (record t { expire = e })) l.store in
    let chain =
      rebuild h (at_time n e ∷ ys) (n ∷ ys) (Chain-Away xs (n ∷ ys) k.chain)
        (λ q ab. put_other n.0 q _ l.store (apart_sym q n.0 ab.0)) (λ q ab rest. rest) front in
    let (l', (ran, (linked, closed))) =
      adjust_timer-moves xs (at_time n e) ys fuel (record l { store = h }) le
        (record { chain = chain; last = last_kept l.tail xs n e ys k.last }) in
    (
      l',
      (
        ap (postpone_at fuel n.0 e l) at_n.stored ∙ ran,
        (linked, (Sorted-later xs n e ys later s, closed)),
      ),
    )
