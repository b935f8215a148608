-- ===== src/TimerList/Order.antt =====
-- The order of the list of timers: `add_timer` keeps it, and `timeout` relies on it.
use linux_image_server.Base.{
  ℕ, suc, ◌≤◌, ◌≡◌, refl, ap, false, none, some, List, [], ◌∷◌, length, ltb, ltb→lt, arith,
  Bool-cases, inl, inr,
}
use linux_image_server.TimerList.{Timer, TimerList, add_timer, timeout}
use linux_image_server.TimerList.Chain.{Node, Absent, IsAt, IsLinked}
use linux_image_server.TimerList.Expiry.{unexpired, timeout-Expires}
use linux_image_server.TimerList.Insert.{insert}
use linux_image_server.TimerList.Add.{add_timer-inserts}

-- No node of the list expires before this time.
abbrev pub NotBefore : ℕ → List Node → Type 0
NotBefore e [] = Unit {0}
NotBefore e (n ∷ ns) = (e ≤ n.1.1) × NotBefore e ns

abbrev pub Sorted : List Node → Type 0
Sorted [] = Unit {0}
Sorted (n ∷ ns) = NotBefore n.1.1 ns × Sorted ns

pub NotBefore-insert :
    (e : ℕ) (x : Node) (ns : List Node) → e ≤ x.1.1 → NotBefore e ns → NotBefore e (insert x ns)
unfolding insert
NotBefore-insert e x [] le nb = (le, tt)
NotBefore-insert e x (n ∷ ns) le nb = elim (Bool-cases (ltb x.1.1 n.1.1)) [
  | inl lt ↦ rw lt (le, nb)
  | inr ge ↦ rw ge (nb.0, NotBefore-insert e x ns le nb.1)
]

NotBefore-earlier : (d e : ℕ) (ns : List Node) → d ≤ e → NotBefore e ns → NotBefore d ns
NotBefore-earlier d e [] le nb = tt
NotBefore-earlier d e (n ∷ ns) le nb = (omega (arith, nb.0), NotBefore-earlier d e ns le nb.1)

not_ltb : (a b : ℕ) → ltb a b ≡ false → b ≤ a
not_ltb a b h = ground arith

pub insert-Sorted : (x : Node) (ns : List Node) → Sorted ns → Sorted (insert x ns)
unfolding insert
insert-Sorted x [] s = (tt, tt)
insert-Sorted x (n ∷ ns) s = elim (Bool-cases (ltb x.1.1 n.1.1)) [
  | inl lt ↦
      let le : x.1.1 ≤ n.1.1 = omega (arith, ltb→lt x.1.1 n.1.1 lt) in
      rw lt ((le, NotBefore-earlier x.1.1 n.1.1 ns le s.0), s)
  | inr ge ↦
      rw ge (NotBefore-insert n.1.1 x ns (not_ltb x.1.1 n.1.1 ge) s.0, insert-Sorted x ns s.1)
]

pub length-insert : (x : Node) (ns : List Node) → length (insert x ns) ≡ suc (length ns)
unfolding insert
length-insert x [] = refl
length-insert x (n ∷ ns) = elim (Bool-cases (ltb x.1.1 n.1.1)) [
  | inl lt ↦ rw lt refl
  | inr ge ↦ rw ge (ap suc (length-insert x ns))
]

-- All timers left expire after this time.
unexpired-NotBefore :
    (cur : ℕ) (ns : List Node) → Sorted ns → NotBefore (suc cur) (unexpired cur ns)
unfolding unexpired
unexpired-NotBefore cur [] s = tt
unexpired-NotBefore cur (n ∷ ns) s = elim (Bool-cases (ltb cur n.1.1)) [
  | inl lt ↦
      let le : suc cur ≤ n.1.1 = omega (arith, ltb→lt cur n.1.1 lt) in
      rw lt (le, NotBefore-earlier (suc cur) n.1.1 ns le s.0)
  | inr ge ↦ rw ge (unexpired-NotBefore cur ns s.1)
]

unexpired-Sorted : (cur : ℕ) (ns : List Node) → Sorted ns → Sorted (unexpired cur ns)
unfolding unexpired
unexpired-Sorted cur [] s = tt
unexpired-Sorted cur (n ∷ ns) s = elim (Bool-cases (ltb cur n.1.1)) [
  | inl lt ↦ rw lt s
  | inr ge ↦ rw ge (unexpired-Sorted cur ns s.1)
]

-- On a well-formed list that is sorted by expiry, with enough fuel for its nodes, `timeout` leaves a
-- well-formed sorted list of which every timer expires after the present time.
pub timeout_clears :
    (ns : List Node) (fuel cur : ℕ) (l : TimerList)
    → length ns ≤ fuel
    → IsLinked l ns
    → Sorted ns
    → (l' : TimerList) × ((timeout fuel cur l ≡ some l')
        × ((rest : List Node) × (IsLinked l' rest × (NotBefore (suc cur) rest × Sorted rest))))
timeout_clears ns fuel cur l le k s =
    let (l', (ran, (linked, closed))) = timeout-Expires ns fuel cur l le k in
    (
      l',
      (
        ran,
        (unexpired cur ns, (linked, (unexpired-NotBefore cur ns s, unexpired-Sorted cur ns s))),
      ),
    )

-- Adding a timer whose node is new and whose `prev` and `next` are null to a well-formed list that is
-- sorted by expiry, with enough fuel for its nodes, leaves a well-formed sorted list of one node more.
pub add_timer-Sorted :
    (ns : List Node) (fuel : ℕ) (x : Node) (t : Timer) (l : TimerList)
    → length ns ≤ fuel
    → IsAt l.store x t
    → t.prev ≡ none
    → t.next ≡ none
    → Absent x.0 ns
    → IsLinked l ns
    → Sorted ns
    → (l' : TimerList) × ((add_timer fuel (some x.0) l ≡ some l')
        × ((after : List Node) × (IsLinked l' after
              × (Sorted after × (length after ≡ suc (length ns))))))
add_timer-Sorted ns fuel x t l le at_x pr free xns k s =
    let (l', (ran, (linked, same))) = add_timer-inserts ns fuel x t l le at_x pr free xns k in
    (l', (ran, (insert x ns, (linked, (insert-Sorted x ns s, length-insert x ns)))))
