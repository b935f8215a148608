-- ===== src/TimerList/Tests.antt =====
-- The theorems about the list of timers at concrete inputs.
use linux_image_server.Base.{ℕ, ◌≡◌, some, none, List, [], ◌∷◌, refl, arith, ◌==◌, if◌then◌else◌}
use linux_image_server.TimerList.{TimerList, Timer, del_timer, postpone}
use linux_image_server.TimerList.Insert.{insert}
use linux_image_server.TimerList.Order.{Sorted}
use linux_image_server.TimerList.Destroy.{destroy, AllFree, destroy-frees}
use linux_image_server.TimerList.Chain.{Node, Absent, IsLinked, cons, nil}
use linux_image_server.TimerList.Remove.{del_timer-removes}
use linux_image_server.TimerList.Postpone.{at_time, postpone-Sorted}

-- Two timers, at 1 and 2, which expire at 10 and 20.
abbrev first_timer : Timer
first_timer = record { data_of = 5; expire = 10; prev = none; next = some 2 }

abbrev second_timer : Timer
second_timer = record { data_of = 6; expire = 20; prev = some 1; next = none }

abbrev two_timers : TimerList
two_timers = record {
  store = λ a. if a == 1 then some first_timer else if a == 2 then some second_timer else none;
  head = some 1;
  tail = some 2;
  closed = [];
}

abbrev two_nodes : List Node
two_nodes = (1, (5, 10)) ∷ (2, (6, 20)) ∷ []

two_timers-IsLinked : IsLinked two_timers two_nodes
two_timers-IsLinked = record {
  chain =
      cons {t = first_timer} refl (record { stored = refl; handler = refl; time = refl }) refl
        (refl, tt)
        (cons {t = second_timer} refl (record { stored = refl; handler = refl; time = refl }) refl
          tt (nil refl));
  last = refl;
}

two_nodes-Sorted : Sorted two_nodes
two_nodes-Sorted = ((omega arith, tt), (tt, tt))

del_timer-removes_example :
    (l : TimerList) × ((del_timer (some 2) two_timers ≡ some l)
      × (IsLinked l ((1, (5, 10)) ∷ []) × ((l.store 2 ≡ none) × (l.closed ≡ []))))
del_timer-removes_example =
    del_timer-removes ((1, (5, 10)) ∷ []) (2, (6, 20)) [] two_timers two_timers-IsLinked

postpone-Sorted_example :
    (l : TimerList) × ((postpone 1 1 30 two_timers ≡ some l)
      × (IsLinked l (insert (at_time (1, (5, 10)) 30) ((2, (6, 20)) ∷ []))
          × (Sorted (insert (at_time (1, (5, 10)) 30) ((2, (6, 20)) ∷ [])) × (l.closed ≡ []))))
postpone-Sorted_example =
    postpone-Sorted [] (1, (5, 10)) ((2, (6, 20)) ∷ []) 1 30 two_timers (omega arith) (omega arith)
      two_timers-IsLinked two_nodes-Sorted

destroy-frees_example :
    (l : TimerList) × ((destroy 2 two_timers ≡ some l)
      × ((l.head ≡ none)
          × (((q : ℕ) → Absent q two_nodes → l.store q ≡ two_timers.store q)
              × AllFree l.store two_nodes)))
destroy-frees_example = destroy-frees two_nodes 2 two_timers (omega arith) two_timers-IsLinked
