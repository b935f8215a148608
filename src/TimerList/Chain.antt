-- ===== src/TimerList/Chain.antt =====
-- The doubly linked list of a store of timers, as a list of nodes.
use linux_image_server.Base.{
  ℕ, ◌≡◌, refl, ◌∙◌, false, Option, none, some, List, [], ◌∷◌, ◌++◌, ◌==◌, arith,
}
use linux_image_server.TimerList.{Timer, Store, TimerList, put}

-- A node as the list sees it: its address, its handler and when it expires.
abbrev pub Node : Type 0
Node = ℕ × (ℕ × ℕ)

abbrev pub Absent : ℕ → List Node → Type 0
Absent a [] = Unit {0}
Absent a (n ∷ ns) = ((a == n.0) ≡ false) × Absent a ns

-- None of the first nodes is at the address of one of the others.
abbrev pub Away : List Node → List Node → Type 0
Away [] fp = Unit {0}
Away (n ∷ ns) fp = Absent n.0 fp × Away ns fp

-- The timer `t` stands at this node.
pub record IsAt (h : Store) (n : Node) (t : Timer) : Type 0 where
  pub stored : h n.0 ≡ some t
  pub handler : t.data_of ≡ n.1.0
  pub time : t.expire ≡ n.1.1

-- From the pointer `hd` the `next` fields lead through exactly these nodes, all different, to a null
-- pointer; the `prev` of the first is `pv`, and that of each other the node before it.
pub data Chain (h : Store) : Option ℕ → Option ℕ → List Node → Type 0 where
  nil : {pv hd : Option ℕ} → hd ≡ none → Chain h pv hd []
  cons :
      {pv hd : Option ℕ} {n : Node} {ns : List Node} {t : Timer}
      → hd ≡ some n.0
      → IsAt h n t
      → t.prev ≡ pv
      → Absent n.0 ns
      → Chain h (some n.0) t.next ns
      → Chain h pv hd (n ∷ ns)

-- The pointer to the last node, which means nothing for an empty list.
abbrev pub IsTail : Option ℕ → List Node → Type 0
IsTail tl [] = Unit {0}
IsTail tl (n ∷ []) = tl ≡ some n.0
IsTail tl (n ∷ m ∷ ns) = IsTail tl (m ∷ ns)

pub record IsLinked (l : TimerList) (ns : List Node) : Type 0 where
  pub chain : Chain l.store none l.head ns
  pub last : IsTail l.tail ns

pub apart_sym : (a b : ℕ) → (a == b) ≡ false → (b == a) ≡ false
apart_sym a b e = ground arith

pub put_other : (a b : ℕ) (v : Option Timer) (h : Store) → (a == b) ≡ false → put a v h b ≡ h b
unfolding put
put_other a b v h e = rw e refl

pub put_same : (a : ℕ) (v : Option Timer) (h : Store) → put a v h a ≡ v
unfolding put
put_same a v h = ground arith

pub IsAt-frame : {h g : Store} {n : Node} {t : Timer} → g n.0 ≡ h n.0 → IsAt h n t → IsAt g n t
IsAt-frame e at_n = record { stored = e ∙ at_n.stored; handler = at_n.handler; time = at_n.time }

pub IsAt-put :
    {h : Store} {n : Node} {t : Timer} (a : ℕ) (v : Option Timer)
    → (a == n.0) ≡ false
    → IsAt h n t
    → IsAt (put a v h) n t
IsAt-put {h} {n} a v e at_n = IsAt-frame (put_other a n.0 v h e) at_n

pub IsAt-here :
    (h : Store) {n : Node} {t : Timer}
    → t.data_of ≡ n.1.0
    → t.expire ≡ n.1.1
    → IsAt (put n.0 (some t) h) n t
IsAt-here h {n} {t} d e = record { stored = put_same n.0 (some t) h; handler = d; time = e }

pub Absent-behind : (a : ℕ) (xs rest : List Node) → Absent a (xs ++ rest) → Absent a rest
Absent-behind a [] rest ab = ab
Absent-behind a (x ∷ xs) rest ab = Absent-behind a xs rest ab.1

Absent-splice :
    (a : ℕ) (xs rest after : List Node)
    → (Absent a rest → Absent a after)
    → Absent a (xs ++ rest)
    → Absent a (xs ++ after)
Absent-splice a [] rest after change ab = change ab
Absent-splice a (x ∷ xs) rest after change ab = (ab.0, Absent-splice a xs rest after change ab.1)

pub Chain-put :
    {h : Store} {pv hd : Option ℕ} (ns : List Node) (a : ℕ) (v : Option Timer)
    → Absent a ns
    → Chain h pv hd ns
    → Chain (put a v h) pv hd ns
Chain-put [] a v ab (nil e) = nil e
Chain-put (n ∷ ns) a v ab (cons e at_n pr self rest) =
    cons e (IsAt-put a v ab.0 at_n) pr self (Chain-put ns a v ab.1 rest)

-- The nodes in front are away from those behind.
pub Chain-Away :
    {h : Store} {pv hd : Option ℕ} (xs rest : List Node) → Chain h pv hd (xs ++ rest) → Away xs rest
Chain-Away [] rest c = tt
Chain-Away (n ∷ xs) rest (cons e at_n pr self c) =
    (Absent-behind n.0 xs rest self, Chain-Away xs rest c)

-- A chain taken apart: the rest of it, and how it is put together again with another end, in a store
-- that spares the nodes in front.
pub Chain-split :
    {h : Store} {pv hd : Option ℕ} (xs rest : List Node)
    → Chain h pv hd (xs ++ rest)
    → (pv' : Option ℕ) × ((hd' : Option ℕ) × (Chain h pv' hd' rest
          × ((g : Store) (after fp : List Node)
              → Away xs fp
              → ((q : ℕ) → Absent q fp → g q ≡ h q)
              → ((q : ℕ) → Absent q fp → Absent q rest → Absent q after)
              → Chain g pv' hd' after
              → Chain g pv hd (xs ++ after))))
Chain-split {pv} {hd} [] rest c = (pv, (hd, (c, λ g after fp away same out c'. c')))
Chain-split (n ∷ xs) rest (cons e at_n pr self c) =
    let (pv', (hd', (c', rebuild))) = Chain-split xs rest c in
    (
      pv',
      (
        hd',
        (
          c',
          λ g after fp away same out c''.
              cons e (IsAt-frame (same n.0 away.0) at_n) pr
                (Absent-splice n.0 xs rest after (out n.0 away.0) self)
                (rebuild g after fp away.1 same out c''),
        ),
      ),
    )

pub Absent-append : (a : ℕ) (xs ys : List Node) → Absent a xs → Absent a ys → Absent a (xs ++ ys)
Absent-append a [] ys ab bb = bb
Absent-append a (x ∷ xs) ys ab bb = (ab.0, Absent-append a xs ys ab.1 bb)

pub IsTail-behind :
    (tl : Option ℕ) (xs : List Node) (n : Node) (ns : List Node)
    → IsTail tl (xs ++ n ∷ ns)
    → IsTail tl (n ∷ ns)
IsTail-behind tl [] n ns e = e
IsTail-behind tl (x ∷ []) n ns e = e
IsTail-behind tl (x ∷ y ∷ xs) n ns e = IsTail-behind tl (y ∷ xs) n ns e

pub IsTail-append :
    (tl : Option ℕ) (xs : List Node) (n : Node) (ns : List Node)
    → IsTail tl (n ∷ ns)
    → IsTail tl (xs ++ n ∷ ns)
IsTail-append tl [] n ns e = e
IsTail-append tl (x ∷ []) n ns e = e
IsTail-append tl (x ∷ y ∷ xs) n ns e = IsTail-append tl (y ∷ xs) n ns e
