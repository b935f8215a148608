-- ===== src/ClientPool/Nodes.antt =====
-- Which timers are in a list, and until when its timers last.
use linux_image_server.Base.{
  ℕ, suc, ◌≤◌, ◌≡◌, refl, sym, ap, ◌∙◌, ◌⊎◌, inl, inr, Bool-cases, Option, none, some, List, [],
  ◌∷◌, ◌++◌, ltb, ◌==◌, ==_iff, false, true, length, arith,
}
use linux_image_server.TimerList.{Store}
use linux_image_server.TimerList.Chain.{Node, Absent, Chain, nil, cons}
use linux_image_server.TimerList.Insert.{insert}
use linux_image_server.TimerList.Postpone.{at_time}
use linux_image_server.TimerList.Order.{length-insert}

-- A timer at this address, of this handler, is in the list.
unfoldable pub HasNode : ℕ → ℕ → List Node → Type 0
HasNode a i [] = ⊥
HasNode a i (n ∷ ns) = ((n.0 ≡ a) × (n.1.0 ≡ i)) ⊎ HasNode a i ns

-- No timer of the list lasts longer than `d`.
abbrev pub UpTo : ℕ → List Node → Type 0
UpTo d [] = Unit {0}
UpTo d (n ∷ ns) = (n.1.1 ≤ d) × UpTo d ns

pub UpTo-later : (d e : ℕ) (ns : List Node) → d ≤ e → UpTo d ns → UpTo e ns
UpTo-later d e [] le up = tt
UpTo-later d e (n ∷ ns) le up = (omega (arith, up.0), UpTo-later d e ns le up.1)

pub UpTo-insert : (d : ℕ) (x : Node) (ns : List Node) → x.1.1 ≤ d → UpTo d ns → UpTo d (insert x ns)
unfolding insert
UpTo-insert d x [] le up = (le, tt)
UpTo-insert d x (n ∷ ns) le up = elim (Bool-cases (ltb x.1.1 n.1.1)) [
  | inl lt ↦ rw lt (le, up)
  | inr ge ↦ rw ge (up.0, UpTo-insert d x ns le up.1)
]

pub UpTo-moved :
    (d : ℕ) (xs : List Node) (n : Node) (ys : List Node) (e : ℕ)
    → e ≤ d
    → UpTo d (xs ++ n ∷ ys)
    → UpTo d (xs ++ insert (at_time n e) ys)
UpTo-moved d [] n ys e le up = UpTo-insert d (at_time n e) ys le up.1
UpTo-moved d (x ∷ xs) n ys e le up = (up.0, UpTo-moved d xs n ys e le up.1)

pub UpTo-at :
    (d : ℕ) (xs : List Node) (n : Node) (ys : List Node) → UpTo d (xs ++ n ∷ ys) → n.1.1 ≤ d
UpTo-at d [] n ys up = up.0
UpTo-at d (x ∷ xs) n ys up = UpTo-at d xs n ys up.1

-- What is inserted is in the list, and what was in it still is.
pub HasNode-insert :
    (a i : ℕ) (x : Node) (ns : List Node)
    → ((x.0 ≡ a) × (x.1.0 ≡ i)) ⊎ HasNode a i ns
    → HasNode a i (insert x ns)
unfolding insert HasNode
HasNode-insert a i x [] h = h
HasNode-insert a i x (n ∷ ns) h = elim (Bool-cases (ltb x.1.1 n.1.1)) [
  | inl lt ↦ rw lt h
  | inr ge ↦ rw ge (elim h [
    | inl here ↦ inr (HasNode-insert a i x ns (inl here))
    | inr (inl first) ↦ inl first
    | inr (inr later) ↦ inr (HasNode-insert a i x ns (inr later))
  ])
]

pub HasNode-moved :
    (a i : ℕ) (xs : List Node) (n : Node) (ys : List Node) (e : ℕ)
    → HasNode a i (xs ++ n ∷ ys)
    → HasNode a i (xs ++ insert (at_time n e) ys)
unfolding HasNode
HasNode-moved a i [] n ys e h = HasNode-insert a i (at_time n e) ys h
HasNode-moved a i (x ∷ xs) n ys e (inl here) = inl here
HasNode-moved a i (x ∷ xs) n ys e (inr h) = inr (HasNode-moved a i xs n ys e h)

pub length-moved :
    (xs : List Node) (n : Node) (ys : List Node) (e : ℕ)
    → length (xs ++ insert (at_time n e) ys) ≡ length (xs ++ n ∷ ys)
length-moved [] n ys e = length-insert (at_time n e) ys
length-moved (x ∷ xs) n ys e = ap suc (length-moved xs n ys e)

pub length-behind : (xs : List Node) (n : Node) (ys : List Node) → length ys ≤ length (xs ++ n ∷ ys)
length-behind [] n ys = omega arith
length-behind (x ∷ xs) n ys = omega (arith, length-behind xs n ys)

-- Where the timer stands.
pub HasNode-split :
    (a i : ℕ) (ns : List Node)
    → HasNode a i ns
    → (xs : List Node) × ((n : Node) × ((ys : List Node) × ((ns ≡ xs ++ n ∷ ys) × (n.0 ≡ a))))
unfolding HasNode
HasNode-split a i [] h = absurd h
HasNode-split a i (n ∷ ns) (inl here) = ([], (n, (ns, (refl, here.0))))
HasNode-split a i (n ∷ ns) (inr h) =
    let (xs, (m, (ys, (e, at_a)))) = HasNode-split a i ns h in
    (n ∷ xs, (m, (ys, (ap (λ zs. n ∷ zs) e, at_a))))

-- A free address is none of the list's.
pub free-Absent :
    {h : Store} {pv hd : Option ℕ} (a : ℕ) (ns : List Node)
    → h a ≡ none
    → Chain h pv hd ns
    → Absent a ns
free-Absent a [] free (nil e) = tt
free-Absent {h} a (n ∷ ns) free (cons {t} e at_n pr self rest) =
    (differ (Bool-cases (a == n.0)), free-Absent a ns free rest)
  where
    differ : ((a == n.0) ≡ true) ⊎ ((a == n.0) ≡ false) → (a == n.0) ≡ false
    differ (inl equal) =
        let same : a ≡ n.0 = (==_iff a n.0).0 equal in
        let taken : none ≡ some t = sym free ∙ ap h same ∙ at_n.stored in absurd (ground arith)
    differ (inr other) = other
