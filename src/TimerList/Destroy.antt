-- ===== src/TimerList/Destroy.antt =====
-- The destructor of `SortedTimerList` (src/timer/lst_timer.cpp).
use linux_image_server.Base.{
  ℕ, zero, suc, ◌≤◌, ◌≡◌, refl, ap, ◌∙◌, Option, none, some, List, [], ◌∷◌, length, ◌>>=◌, arith,
}
use linux_image_server.TimerList.{Store, TimerList, put}
use linux_image_server.TimerList.Chain.{
  Node, Absent, Chain, nil, cons, IsLinked, apart_sym, put_other, put_same, Chain-put,
}

-- The `while`, from the node `tmp`; `none` is an access through a freed pointer, or the end of the
-- fuel.
unfoldable pub free_from : ℕ → Option ℕ → Store → Option Store
unfolding put
free_from fuel none h = some h
free_from zero (some a) h = none
free_from (suc fuel) (some a) h = h a >>= λ t. free_from fuel t.next (put a none h)

unfoldable pub destroy : ℕ → TimerList → Option TimerList
unfolding free_from
destroy fuel l = free_from fuel l.head l.store >>= λ h. some (record l { store = h; head = none })

-- The addresses of the nodes are free.
abbrev pub AllFree : Store → List Node → Type 0
AllFree h [] = Unit {0}
AllFree h (n ∷ ns) = (h n.0 ≡ none) × AllFree h ns

-- What the loop leaves.
abbrev Frees : Store → List Node → Option Store → Type 0
Frees h ns o = (g : Store) × ((o ≡ some g) × (((q : ℕ) → Absent q ns → g q ≡ h q) × AllFree g ns))

free_from-Frees :
    (ns : List Node) (fuel : ℕ) {pv hd : Option ℕ} (h : Store)
    → length ns ≤ fuel
    → Chain h pv hd ns
    → Frees h ns (free_from fuel hd h)
unfolding free_from
free_from-Frees [] fuel h le (nil e) = (h, (rw e refl, (λ q ab. refl, tt)))
free_from-Frees (n ∷ ns) zero h le c = absurd (omega arith)
free_from-Frees (n ∷ ns) (suc fuel) h le (cons {t = t} e at_n pr self rest) =
    let (g, (ran, (same, free))) =
      free_from-Frees ns fuel (put n.0 none h) (omega arith) (Chain-put ns n.0 none self rest) in
    (
      g,
      (
        rw e (ap (λ o. o >>= λ t. free_from fuel t.next (put n.0 none h)) at_n.stored ∙ ran),
        (
          λ q ab. same q ab.1 ∙ put_other n.0 q none h (apart_sym q n.0 ab.0),
          (same n.0 self ∙ put_same n.0 none h, free),
        ),
      ),
    )

-- With fuel for the timers of a well-formed list, the destructor comes to its end without touching a
-- timer that it has freed; every timer of the list is freed then, and nothing else.
pub destroy-frees :
    (ns : List Node) (fuel : ℕ) (l : TimerList)
    → length ns ≤ fuel
    → IsLinked l ns
    → (l' : TimerList) × ((destroy fuel l ≡ some l')
        × ((l'.head ≡ none)
            × (((q : ℕ) → Absent q ns → l'.store q ≡ l.store q) × AllFree l'.store ns)))
unfolding destroy
destroy-frees ns fuel l le k =
    let (g, (ran, (same, free))) = free_from-Frees ns fuel l.store le k.chain in
    (
      record l { store = g; head = none },
      (ap (λ o. o >>= λ h. some (record l { store = h; head = none })) ran, (refl, (same, free))),
    )
