-- ===== src/TimerList.antt =====
-- `SortedTimerList` (src/timer/lst_timer.cpp, src/include/lst_timer.h): timers are nodes of a store,
-- by address. `none` is an access through a null or freed pointer, or a loop that outruns its fuel.
pub mod Chain
pub mod Expiry
pub mod Link
pub mod Insert
pub mod Add
pub mod Order
pub mod Unlink
pub mod Remove
pub mod Adjust
pub mod Postpone
pub mod Destroy
mod Tests
use linux_image_server.Base.{
  ℕ, zero, suc, Bool, true, false, Option, none, some, List, [], ◌∷◌, ◌++◌, ltb, ◌&&◌, ◌==◌,
  if◌then◌else◌, ◌>>=◌,
}

-- `data` stands for the handler that `cb_func` closes.
pub record Timer : Type 0 where
  pub data_of : ℕ
  pub expire : ℕ
  pub prev : Option ℕ
  pub next : Option ℕ

abbrev pub Store : Type 0
Store = ℕ → Option Timer

-- `closed` is the history of the handlers closed by `cb_func`.
pub record TimerList : Type 0 where
  pub store : Store
  pub head : Option ℕ
  pub tail : Option ℕ
  pub closed : List ℕ

-- A write to an address; `none` frees it.
unfoldable pub put : ℕ → Option Timer → Store → Store
put a t h b = if a == b then t else h b

-- `a->next = n` and `a->prev = p`.
unfoldable pub set_next : ℕ → Option ℕ → Store → Option Store
unfolding put
set_next a n h = h a >>= λ t. some (put a (some (record t { next = n })) h)

unfoldable pub set_prev : ℕ → Option ℕ → Store → Option Store
unfolding put
set_prev a p h = h a >>= λ t. some (put a (some (record t { prev = p })) h)

-- `if(head) head->prev = NULL`.
unfoldable pub cut_prev : Option ℕ → Store → Option Store
unfolding set_prev
cut_prev none h = some h
cut_prev (some b) h = set_prev b none h

-- The loop of `timeout`, from the node `tmp`.
unfoldable pub expire_from : ℕ → ℕ → Option ℕ → TimerList → Option TimerList
unfolding cut_prev put
expire_from fuel cur none l = some l
expire_from zero cur (some a) l = none
expire_from (suc fuel) cur (some a) l = l.store a >>= λ t.
    let rest = cut_prev t.next l.store >>= λ h. expire_from fuel cur t.next (record {
      store = put a none h;
      head = t.next;
      tail = l.tail;
      closed = l.closed ++ t.data_of ∷ [];
    }) in
    if ltb cur t.expire then some l else rest

unfoldable pub timeout : ℕ → ℕ → TimerList → Option TimerList
unfolding expire_from
timeout fuel cur l = expire_from fuel cur l.head l

-- The four writes that put the timer `a` between `p` and `b`.
unfoldable pub link_between : ℕ → ℕ → ℕ → Store → Option Store
unfolding set_next set_prev
link_between p a b h = set_next p (some a) h >>= λ h1.
    set_next a (some b) h1 >>= λ h2. set_prev b (some a) h2 >>= λ h3. set_prev a (some p) h3

-- The three writes that put it behind the last node.
unfoldable pub link_last : ℕ → ℕ → Store → Option Store
unfolding set_next set_prev
link_last p a h =
    set_next p (some a) h >>= λ h1. set_prev a (some p) h1 >>= λ h2. set_next a none h2

-- The loop of `_add_timer` from `prev` and `tmp`, and what follows it.
unfoldable pub add_from : ℕ → ℕ → ℕ → Option ℕ → TimerList → Option TimerList
unfolding link_between link_last
add_from fuel a p none l =
    link_last p a l.store >>= λ h. some (record l { store = h; tail = some a })
add_from zero a p (some b) l = none
add_from (suc fuel) a p (some b) l = l.store a >>= λ t. l.store b >>= λ tmp.
    let rest = add_from fuel a b tmp.next l in
    if ltb t.expire tmp.expire
    then (link_between p a b l.store >>= λ h. some (record l { store = h }))
    else rest

-- `_add_timer`.
unfoldable pub add_behind : ℕ → ℕ → ℕ → TimerList → Option TimerList
unfolding add_from
add_behind fuel a lst_head l = l.store lst_head >>= λ p. add_from fuel a lst_head p.next l

-- The two writes that put it before the head `b`.
unfoldable pub link_head : ℕ → ℕ → Store → Option Store
unfolding set_next set_prev
link_head a b h = set_next a (some b) h >>= λ h1. set_prev b (some a) h1

-- Before the head, if it expires later.
unfoldable pub add_head : ℕ → ℕ → ℕ → TimerList → Option TimerList
unfolding link_head add_behind
add_head fuel a b l = l.store a >>= λ t. l.store b >>= λ first.
    let behind = add_behind fuel a b l in
    if ltb t.expire first.expire
    then (link_head a b l.store >>= λ h. some (record l { store = h; head = some a }))
    else behind

-- `add_timer` of a timer that is not null; the third argument is the list's head.
unfoldable pub add_at : ℕ → ℕ → Option ℕ → TimerList → Option TimerList
unfolding add_head
add_at fuel a none l = some (record l { head = some a; tail = some a })
add_at fuel a (some b) l = add_head fuel a b l

unfoldable pub add_timer : ℕ → Option ℕ → TimerList → Option TimerList
unfolding add_at
add_timer fuel none l = some l
add_timer fuel (some a) l = add_at fuel a l.head l

-- `p == a` for a pointer and a timer that is not null.
abbrev pub points_to : Option ℕ → ℕ → Bool
points_to none a = false
points_to (some b) a = b == a

-- `p->next = n` and `p->prev = n` for a pointer that may be null.
unfoldable pub set_next_of : Option ℕ → Option ℕ → Store → Option Store
unfolding set_next
set_next_of none n h = none
set_next_of (some p) n h = set_next p n h

unfoldable pub set_prev_of : Option ℕ → Option ℕ → Store → Option Store
unfolding set_prev
set_prev_of none n h = none
set_prev_of (some p) n h = set_prev p n h

-- `timer->prev->next = timer->next; timer->next->prev = timer->prev`.
unfoldable pub unlink : ℕ → Store → Option Store
unfolding set_next_of set_prev_of
unlink a h =
    h a >>= λ t. set_next_of t.prev t.next h >>= λ h1. h1 a >>= λ t1. set_prev_of t1.next t1.prev h1

-- The three ways of `del_timer` to take a timer from a list of more than one.
unfoldable pub del_head : ℕ → TimerList → Option TimerList
unfolding set_prev_of put
del_head a l = l.store a >>= λ t.
    set_prev_of t.next none l.store >>= λ h. some (record l { store = put a none h; head = t.next })

unfoldable pub del_tail : ℕ → TimerList → Option TimerList
unfolding set_next_of put
del_tail a l = l.store a >>= λ t.
    set_next_of t.prev none l.store >>= λ h. some (record l { store = put a none h; tail = t.prev })

unfoldable pub del_middle : ℕ → TimerList → Option TimerList
unfolding unlink put
del_middle a l = unlink a l.store >>= λ h. some (record l { store = put a none h })

unfoldable pub del_timer : Option ℕ → TimerList → Option TimerList
unfolding del_head del_tail del_middle put
del_timer none l = some l
del_timer (some a) l =
    if points_to l.head a && points_to l.tail a
    then some (record l { store = put a none l.store; head = none; tail = none })
    else if points_to l.head a
    then del_head a l
    else if points_to l.tail a
    then del_tail a l
    else del_middle a l

-- `_add_timer(timer, p)`.
unfoldable pub add_behind_of : ℕ → ℕ → Option ℕ → TimerList → Option TimerList
unfolding add_behind
add_behind_of fuel a none l = none
add_behind_of fuel a (some p) l = add_behind fuel a p l

-- The two ways of `adjust_timer` to move a timer.
unfoldable pub move_head : ℕ → ℕ → TimerList → Option TimerList
unfolding set_prev_of set_next add_behind_of
move_head fuel a l = l.store a >>= λ t. set_prev_of t.next none l.store >>= λ h1.
    set_next a none h1 >>= λ h2.
    add_behind_of fuel a t.next (record l { store = h2; head = t.next })

unfoldable pub move_middle : ℕ → ℕ → TimerList → Option TimerList
unfolding unlink add_behind_of
move_middle fuel a l =
    unlink a l.store >>= λ h. h a >>= λ t. add_behind_of fuel a t.next (record l { store = h })

-- `adjust_timer` from the timer's `next` on.
unfoldable pub adjust_at : ℕ → ℕ → Timer → Option ℕ → TimerList → Option TimerList
unfolding move_head move_middle
adjust_at fuel a t none l = some l
adjust_at fuel a t (some b) l = l.store b >>= λ tmp.
    let moved = if points_to l.head a then move_head fuel a l else move_middle fuel a l in
    if ltb t.expire tmp.expire then some l else moved

unfoldable pub adjust_timer : ℕ → Option ℕ → TimerList → Option TimerList
unfolding adjust_at
adjust_timer fuel none l = some l
adjust_timer fuel (some a) l = l.store a >>= λ t. adjust_at fuel a t t.next l

-- `adjust_timer` of a handler's timer (src/include/http_conn.h) and then of the list: the new expiry
-- is written before the timer is moved.
unfoldable pub postpone_at : ℕ → ℕ → ℕ → TimerList → Option Timer → Option TimerList
unfolding put adjust_timer
postpone_at fuel a expire l none = none
postpone_at fuel a expire l (some t) =
    adjust_timer fuel (some a)
      (record l { store = put a (some (record t { expire = expire })) l.store })

unfoldable pub postpone : ℕ → ℕ → ℕ → TimerList → Option TimerList
unfolding postpone_at
postpone fuel a expire l = postpone_at fuel a expire l (l.store a)
