-- ===== src/TimerList/Expiry.antt =====
-- `timeout` on a linked list: which timers it takes off, and what is left.
use linux_image_server.Base.{
  ℕ, zero, suc, ◌≤◌, ◌≡◌, refl, sym, ap, ◌∙◌, Option, none, some, List, [], ◌∷◌, ◌++◌, length, ltb,
  if◌then◌else◌, arith, Bool-cases, inl, inr, append-nil, append_assoc,
}
use linux_image_server.TimerList.{
  Timer, Store, TimerList, put, set_prev, cut_prev, expire_from, timeout,
}
use linux_image_server.TimerList.Chain.{
  Node, Absent, Chain, nil, cons, IsTail, IsLinked, put_same, put_other, apart_sym, Chain-put,
}

-- Clearing the `prev` of the first node makes it the front of a list.
pub cut_prev-Chain :
    {h : Store} {pv hd : Option ℕ} (ns : List Node)
    → Chain h pv hd ns
    → (h' : Store) × ((cut_prev hd h ≡ some h')
        × (Chain h' none hd ns × ((q : ℕ) → Absent q ns → h' q ≡ h q)))
unfolding cut_prev set_prev
cut_prev-Chain {h} [] (nil e) = (h, (rw e refl, (nil e, λ q ab. refl)))
cut_prev-Chain {h} (n ∷ ns) (cons {t} e at_n pr self rest) = (
  put n.0 (some (record t { prev = none })) h,
  (
    rw e (rw at_n.stored refl),
    (
      cons e
          (record {
            stored = put_same n.0 (some (record t { prev = none })) h;
            handler = at_n.handler;
            time = at_n.time;
          })
          refl self (Chain-put ns n.0 (some (record t { prev = none })) self rest),
      λ q ab. put_other n.0 q (some (record t { prev = none })) h (apart_sym q n.0 ab.0),
    ),
  ),
)

IsTail-rest : (tl : Option ℕ) (n : Node) (ns : List Node) → IsTail tl (n ∷ ns) → IsTail tl ns
IsTail-rest tl n [] e = tt
IsTail-rest tl n (m ∷ ns) e = e

-- The timers that are still to come: those from the first on that has not expired.
unfoldable pub unexpired : ℕ → List Node → List Node
unexpired cur [] = []
unexpired cur (n ∷ ns) = if ltb cur n.1.1 then n ∷ ns else unexpired cur ns

unfoldable pub expired : ℕ → List Node → List ℕ
expired cur [] = []
expired cur (n ∷ ns) = if ltb cur n.1.1 then [] else n.1.0 ∷ expired cur ns

abbrev Expires : ℕ → ℕ → Option ℕ → TimerList → List Node → Type 0
Expires fuel cur hd l ns =
    (l' : TimerList) × ((expire_from fuel cur hd l ≡ some l')
      × (IsLinked l' (unexpired cur ns) × (l'.closed ≡ l.closed ++ expired cur ns)))

abbrev taken : TimerList → Timer → ℕ → Store → TimerList
taken l t a h = record {
  store = put a none h;
  head = t.next;
  tail = l.tail;
  closed = l.closed ++ t.data_of ∷ [];
}

expire_from-Expires :
    (ns : List Node) (fuel cur : ℕ) (hd : Option ℕ) (l : TimerList)
    → length ns ≤ fuel
    → l.head ≡ hd
    → Chain l.store none hd ns
    → IsTail l.tail ns
    → Expires fuel cur hd l ns
unfolding expire_from unexpired expired
expire_from-Expires [] fuel cur hd l le same (nil e) last =
    (l, (rw e refl, (record { chain = nil (same ∙ e); last = tt }, sym (append-nil l.closed))))
expire_from-Expires (n ∷ ns) zero cur hd l le same c last = absurd (omega arith)
expire_from-Expires (n ∷ ns) (suc fuel) cur hd l le same (cons {t} e at_n pr self rest) last =
    elim (Bool-cases (ltb cur n.1.1)) [
      | inl keep ↦ (
        l,
        (
          rw e (rw at_n.stored (rw (ap (ltb cur) at_n.time ∙ keep) refl)),
          (
            rw keep (record { chain = cons (same ∙ e) at_n pr self rest; last = last }),
            rw keep (sym (append-nil l.closed)),
          ),
        ),
      )
      | inr drop ↦
          let (h', (cut, (ch, other))) = cut_prev-Chain ns rest in
          let (l', (ran, (linked, closed))) =
            expire_from-Expires ns fuel cur t.next (taken l t n.0 h') (omega arith) refl
              (Chain-put ns n.0 none self ch) (IsTail-rest l.tail n ns last) in
          (
            l',
            (
              rw e (rw at_n.stored (rw (ap (ltb cur) at_n.time ∙ drop) (rw cut ran))),
              (
                rw drop linked,
                rw drop (
                    closed
                    ∙ append_assoc l.closed (t.data_of ∷ []) (expired cur ns)
                    ∙ ap (λ z. l.closed ++ z ∷ expired cur ns) at_n.handler),
              ),
            ),
          )
    ]

-- On a well-formed list with enough fuel for its nodes, `timeout` does not fault: it closes the
-- handlers of the timers in front that have expired, first to last, and leaves the rest in order, as
-- a well-formed list.
pub timeout-Expires :
    (ns : List Node) (fuel cur : ℕ) (l : TimerList)
    → length ns ≤ fuel
    → IsLinked l ns
    → (l' : TimerList) × ((timeout fuel cur l ≡ some l')
        × (IsLinked l' (unexpired cur ns) × (l'.closed ≡ l.closed ++ expired cur ns)))
unfolding timeout
timeout-Expires ns fuel cur l le k = expire_from-Expires ns fuel cur l.head l le refl k.chain k.last
