-- ===== src/TimerList/Insert.antt =====
-- `add_timer` as the insertion into a list that is sorted by expiry.
use linux_image_server.Base.{
  ℕ, zero, suc, ◌≤◌, ◌≡◌, refl, sym, ap₂, ◌∙◌, subst, true, false, some, List, [], ◌∷◌, length, ltb,
  ◌==◌, if◌then◌else◌, arith, Bool-cases, inl, inr,
}
use linux_image_server.TimerList.{Timer, TimerList, add_from}
use linux_image_server.TimerList.Chain.{
  Node, Absent, IsAt, Chain, nil, cons, IsTail, apart_sym, put_other, IsAt-frame, IsAt-put,
  IsAt-here, Chain-put,
}
use linux_image_server.TimerList.Link.{last_linked, link_last_lem, between_linked, link_between_lem}

-- Before the first node that expires later.
unfoldable pub insert : Node → List Node → List Node
insert x [] = x ∷ []
insert x (n ∷ ns) = if ltb x.1.1 n.1.1 then x ∷ n ∷ ns else n ∷ insert x ns

-- What the walk from the node `p` achieves: the new node `x` is in its place among the nodes behind
-- `p`, and nothing else has changed.
pub record IsInserted (p x : Node) (tp : Timer) (ns : List Node) (l l' : TimerList) : Type 0 where
  pub chain : Chain l'.store tp.prev (some p.0) (p ∷ insert x ns)
  pub frame :
      (q : ℕ) → (p.0 == q) ≡ false → (x.0 == q) ≡ false → Absent q ns → l'.store q ≡ l.store q
  pub same_head : l'.head ≡ l.head
  pub last : IsTail l.tail (p ∷ ns) → IsTail l'.tail (p ∷ insert x ns)
  pub same_closed : l'.closed ≡ l.closed

pub Absent-insert :
    (q : ℕ) (x : Node) (ns : List Node) → (q == x.0) ≡ false → Absent q ns → Absent q (insert x ns)
unfolding insert
Absent-insert q x [] e ab = (e, tt)
Absent-insert q x (n ∷ ns) e ab = elim (Bool-cases (ltb x.1.1 n.1.1)) [
  | inl lt ↦ rw lt (e, ab)
  | inr ge ↦ rw ge (ab.0, Absent-insert q x ns e ab.1)
]

pub insert_before :
    (x n : Node) (ns : List Node) → ltb x.1.1 n.1.1 ≡ true → insert x (n ∷ ns) ≡ x ∷ n ∷ ns
unfolding insert
insert_before x n ns lt = rw lt refl

pub insert_behind :
    (x n : Node) (ns : List Node) → ltb x.1.1 n.1.1 ≡ false → insert x (n ∷ ns) ≡ n ∷ insert x ns
unfolding insert
insert_behind x n ns ge = rw ge refl

last-IsInserted :
    (p x : Node) (tp t : Timer) (l : TimerList)
    → IsAt l.store p tp
    → IsAt l.store x t
    → (p.0 == x.0) ≡ false
    → IsInserted p x tp [] l
        (record l { store = last_linked p.0 tp x.0 t l.store; tail = some x.0 })
unfolding insert
last-IsInserted p x tp t l at_p at_x px =
    let xp = apart_sym p.0 x.0 px in
    record {
      chain =
          cons refl (IsAt-put x.0 _ xp (IsAt-put x.0 _ xp (IsAt-here _ at_p.handler at_p.time)))
            refl (px, tt) (cons refl (IsAt-here _ at_x.handler at_x.time) refl tt (nil refl));
      frame = λ q pq xq ab.
          put_other x.0 q _ _ xq ∙ put_other x.0 q _ _ xq ∙ put_other p.0 q _ l.store pq;
      same_head = refl;
      last = λ e. refl;
      same_closed = refl;
    }

between-IsInserted :
    (p x n : Node) (ns : List Node) (tp t tn : Timer) (l : TimerList)
    → IsAt l.store p tp
    → IsAt l.store x t
    → IsAt l.store n tn
    → (p.0 == x.0) ≡ false
    → Absent p.0 (n ∷ ns)
    → Absent x.0 (n ∷ ns)
    → Absent n.0 ns
    → Chain l.store (some n.0) tn.next ns
    → ltb x.1.1 n.1.1 ≡ true
    → IsInserted p x tp (n ∷ ns) l (record l { store = between_linked p.0 tp x.0 t n.0 tn l.store })
between-IsInserted p x n ns tp t tn l at_p at_x at_n px pns xns nns rest lt =
    let xp = apart_sym p.0 x.0 px in
    let np = apart_sym p.0 n.0 pns.0 in
    record {
      chain =
          subst
            (λ ys. Chain (between_linked p.0 tp x.0 t n.0 tn l.store) tp.prev (some p.0) (p ∷ ys))
            (sym (insert_before x n ns lt))
            (cons refl
              (IsAt-put x.0 _ xp
                (IsAt-put n.0 _ np (IsAt-put x.0 _ xp (IsAt-here _ at_p.handler at_p.time))))
              refl (px, pns)
              (cons refl (IsAt-here _ at_x.handler at_x.time) refl xns (
                cons refl (IsAt-put x.0 _ xns.0 (IsAt-here _ at_n.handler at_n.time)) refl nns (
                  Chain-put ns x.0 _ xns.1 (
                    Chain-put ns n.0 _ nns
                      (Chain-put ns x.0 _ xns.1 (Chain-put ns p.0 _ pns.1 rest)))))));
      frame = λ q pq xq ab.
          put_other x.0 q _ _ xq
          ∙ put_other n.0 q _ _ (apart_sym q n.0 ab.0)
          ∙ put_other x.0 q _ _ xq
          ∙ put_other p.0 q _ l.store pq;
      same_head = refl;
      last = λ e. subst (λ ys. IsTail l.tail (p ∷ ys)) (sym (insert_before x n ns lt)) e;
      same_closed = refl;
    }

walked :
    (p x n : Node) (ns : List Node) (tp tn : Timer) (l l' : TimerList)
    → IsAt l.store p tp
    → (p.0 == x.0) ≡ false
    → Absent p.0 (n ∷ ns)
    → tp.next ≡ some n.0
    → tn.prev ≡ some p.0
    → ltb x.1.1 n.1.1 ≡ false
    → IsInserted n x tn ns l l'
    → IsInserted p x tp (n ∷ ns) l l'
walked p x n ns tp tn l l' at_p px pns e pr ge done = record {
  chain =
      subst (λ ys. Chain l'.store tp.prev (some p.0) (p ∷ ys)) (sym (insert_behind x n ns ge))
        (cons refl
          (IsAt-frame (done.frame p.0 (apart_sym p.0 n.0 pns.0) (apart_sym p.0 x.0 px) pns.1) at_p)
          refl (pns.0, Absent-insert p.0 x ns px pns.1)
          (subst (λ hd. Chain l'.store (some p.0) hd (n ∷ insert x ns)) (sym e)
            (subst (λ pv. Chain l'.store pv (some n.0) (n ∷ insert x ns)) pr done.chain)));
  frame = λ q pq xq ab. done.frame q (apart_sym q n.0 ab.0) xq ab.1;
  same_head = done.same_head;
  last = λ tl. subst (λ ys. IsTail l'.tail (p ∷ ys)) (sym (insert_behind x n ns ge)) (done.last tl);
  same_closed = done.same_closed;
}

-- The walk from `p` over the nodes behind it.
pub add_from-IsInserted :
    (ns : List Node) (fuel : ℕ) (p x : Node) (tp t : Timer) (l : TimerList)
    → length ns ≤ fuel
    → IsAt l.store p tp
    → IsAt l.store x t
    → (p.0 == x.0) ≡ false
    → Absent p.0 ns
    → Absent x.0 ns
    → Chain l.store (some p.0) tp.next ns
    → (l' : TimerList) × ((add_from fuel x.0 p.0 tp.next l ≡ some l') × IsInserted p x tp ns l l')
unfolding add_from
add_from-IsInserted [] fuel p x tp t l le at_p at_x px pns xns (nil e) = (
  _,
  (
    rw e (rw (link_last_lem p.0 x.0 tp t l.store at_p.stored at_x.stored px) refl),
    last-IsInserted p x tp t l at_p at_x px,
  ),
)
add_from-IsInserted (n ∷ ns) zero p x tp t l le at_p at_x px pns xns c = absurd (omega arith)
add_from-IsInserted (n ∷ ns) (suc fuel) p x tp t l le at_p at_x px pns xns
      (cons {t = tn} e at_n pr nns rest) =
    let same_test : ltb t.expire tn.expire ≡ ltb x.1.1 n.1.1 = ap₂ ltb at_x.time at_n.time in
    elim (Bool-cases (ltb x.1.1 n.1.1)) [
      | inl lt ↦ (
        _,
        (
          rw e (
              rw at_x.stored (
                rw at_n.stored (
                  rw (same_test ∙ lt) (
                    rw
                      (link_between_lem p.0 x.0 n.0 tp t tn l.store at_p.stored at_x.stored
                        at_n.stored px pns.0 xns.0)
                      refl)))),
          between-IsInserted p x n ns tp t tn l at_p at_x at_n px pns xns nns rest lt,
        ),
      )
      | inr ge ↦
          let (l', (ran, done)) =
            add_from-IsInserted ns fuel n x tn t l (omega arith) at_n at_x (apart_sym x.0 n.0 xns.0)
              nns xns.1 rest in
          (
            l',
            (
              rw e (rw at_x.stored (rw at_n.stored (rw (same_test ∙ ge) ran))),
              walked p x n ns tp tn l l' at_p px pns e pr ge done,
            ),
          )
    ]
