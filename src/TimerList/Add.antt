-- ===== src/TimerList/Add.antt =====
-- `add_timer` as a whole.
use linux_image_server.Base.{
  ℕ, ◌≤◌, ◌≡◌, refl, sym, ap, ap₂, ◌∙◌, subst, Option, none, some, List, [], ◌∷◌, length, ltb,
  arith, Bool-cases, inl, inr,
}
use linux_image_server.TimerList.{
  Timer, Store, TimerList, put, link_head, add_behind, add_head, add_at, add_timer,
}
use linux_image_server.TimerList.Chain.{
  Node, Absent, IsAt, Chain, nil, cons, IsTail, IsLinked, apart_sym, IsAt-put, IsAt-here, Chain-put,
}
use linux_image_server.TimerList.Insert.{insert, insert_before, insert_behind, add_from-IsInserted}

-- The store after the two writes that put the timer before the head.
abbrev head_linked : ℕ → Timer → ℕ → Timer → Store → Store
head_linked a ta b tb h =
    put b (some (record tb { prev = some a })) (put a (some (record ta { next = some b })) h)

head_linked-Chain :
    (x n : Node) (ns : List Node) (t tn : Timer) (h : Store)
    → IsAt h x t
    → IsAt h n tn
    → t.prev ≡ none
    → Absent x.0 (n ∷ ns)
    → Absent n.0 ns
    → Chain h (some n.0) tn.next ns
    → Chain (head_linked x.0 t n.0 tn h) none (some x.0) (x ∷ n ∷ ns)
head_linked-Chain x n ns t tn h at_x at_n pr xns nns rest =
    cons refl (IsAt-put n.0 _ (apart_sym x.0 n.0 xns.0) (IsAt-here _ at_x.handler at_x.time)) pr xns
      (cons refl (IsAt-here _ at_n.handler at_n.time) refl nns
        (Chain-put ns n.0 _ nns (Chain-put ns x.0 _ xns.1 rest)))

abbrev Adds : Node → List Node → TimerList → Option TimerList → Type 0
Adds x ns l r =
    (l' : TimerList) × ((r ≡ some l') × (IsLinked l' (insert x ns) × (l'.closed ≡ l.closed)))

add_head-Adds :
    (n : Node) (ns : List Node) (fuel : ℕ) (x : Node) (t tn : Timer) (l : TimerList)
    → length ns ≤ fuel
    → IsAt l.store x t
    → t.prev ≡ none
    → IsAt l.store n tn
    → tn.prev ≡ none
    → Absent x.0 (n ∷ ns)
    → Absent n.0 ns
    → Chain l.store (some n.0) tn.next ns
    → l.head ≡ some n.0
    → IsTail l.tail (n ∷ ns)
    → Adds x (n ∷ ns) l (add_head fuel x.0 n.0 l)
unfolding add_head add_behind link_head
add_head-Adds n ns fuel x t tn l le at_x pr_x at_n pr_n xns nns rest e last =
    let same_test : ltb t.expire tn.expire ≡ ltb x.1.1 n.1.1 = ap₂ ltb at_x.time at_n.time in
    elim (Bool-cases (ltb x.1.1 n.1.1)) [
      | inl lt ↦
          let l' = record l { store = head_linked x.0 t n.0 tn l.store; head = some x.0 } in
          (
            l',
            (
              rw at_x.stored (rw at_n.stored (rw (same_test ∙ lt) (rw xns.0 refl))),
              (
                subst (λ ys. IsLinked l' ys) (sym (insert_before x n ns lt))
                    (record {
                      chain = head_linked-Chain x n ns t tn l.store at_x at_n pr_x xns nns rest;
                      last = last;
                    }),
                refl,
              ),
            ),
          )
      | inr ge ↦
          let (l', (ran, done)) =
            add_from-IsInserted ns fuel n x tn t l le at_n at_x (apart_sym x.0 n.0 xns.0) nns xns.1
              rest in
          (
            l',
            (
              rw at_x.stored (rw at_n.stored (rw (same_test ∙ ge) ran)),
              (
                subst (λ ys. IsLinked l' ys) (sym (insert_behind x n ns ge))
                    (record {
                      chain =
                          subst (λ hd. Chain l'.store none hd (n ∷ insert x ns))
                            (sym (done.same_head ∙ e))
                            (subst (λ pv. Chain l'.store pv (some n.0) (n ∷ insert x ns)) pr_n
                              done.chain);
                      last = done.last last;
                    }),
                done.same_closed,
              ),
            ),
          )
    ]

add_at-Adds :
    (ns : List Node) (fuel : ℕ) (x : Node) (t : Timer) (l : TimerList) (hd : Option ℕ)
    → length ns ≤ fuel
    → IsAt l.store x t
    → t.prev ≡ none
    → t.next ≡ none
    → Absent x.0 ns
    → l.head ≡ hd
    → Chain l.store none hd ns
    → IsTail l.tail ns
    → Adds x ns l (add_at fuel x.0 hd l)
unfolding add_at insert
add_at-Adds [] fuel x t l hd le at_x pr free xns same (nil e) last = (
  record l { head = some x.0; tail = some x.0 },
  (
    ap (λ p. add_at fuel x.0 p l) e,
    (record { chain = cons refl at_x pr tt (nil free); last = refl }, refl),
  ),
)
add_at-Adds (n ∷ ns) fuel x t l hd le at_x pr free xns same (cons {t = tn} e at_n pr_n nns rest)
      last =
    let (l', (ran, done)) =
      add_head-Adds n ns fuel x t tn l (omega arith) at_x pr at_n pr_n xns nns rest (same ∙ e)
        last in
    (l', (ap (λ p. add_at fuel x.0 p l) e ∙ ran, done))

-- Adding a timer whose node is new and whose `prev` and `next` are null, to a well-formed list with
-- enough fuel for its nodes, does not fault: it puts the timer before the first that expires later,
-- closes nothing, and leaves a well-formed list with the others as they were.
pub add_timer-inserts :
    (ns : List Node) (fuel : ℕ) (x : Node) (t : Timer) (l : TimerList)
    → length ns ≤ fuel
    → IsAt l.store x t
    → t.prev ≡ none
    → t.next ≡ none
    → Absent x.0 ns
    → IsLinked l ns
    → (l' : TimerList) × ((add_timer fuel (some x.0) l ≡ some l')
        × (IsLinked l' (insert x ns) × (l'.closed ≡ l.closed)))
unfolding add_timer
add_timer-inserts ns fuel x t l le at_x pr free xns k =
    add_at-Adds ns fuel x t l l.head le at_x pr free xns refl k.chain k.last
