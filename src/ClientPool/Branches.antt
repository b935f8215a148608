-- ===== src/ClientPool/Branches.antt =====
-- The timers of a pool and its handlers: what each branch of an event keeps.
use linux_image_server.Base.{
  ℕ, suc, ◌+◌, ◌*◌, ◌≤◌, ◌<◌, ◌≡◌, refl, sym, ap, ◌∙◌, subst, inl, inr, Bool, true, Bool-cases,
  Option, none, some, List, [], ◌∷◌, ◌++◌, ltb, lt→ltb, ◌==◌, ==_iff, length, arith, if◌then◌else◌,
  branch,
}
use linux_image_server.Http.Types.{ClientType}
use linux_image_server.TimerList.{Store, TimerList, put, postpone}
use linux_image_server.TimerList.Chain.{Node, IsAt-here, Chain-put, IsLinked}
use linux_image_server.TimerList.Insert.{insert}
use linux_image_server.TimerList.Add.{add_timer-inserts}
use linux_image_server.TimerList.Order.{Sorted, insert-Sorted, length-insert}
use linux_image_server.TimerList.Postpone.{at_time, postpone-Sorted}
use linux_image_server.TimerList.Expiry.{expired, unexpired, timeout-Expires}
use linux_image_server.Descriptors.Remove.{IsClose, remove_fd-exits}
use linux_image_server.ClientPool
use linux_image_server.ClientPool.{
  Pool, Event, Outcome, fault, exited, goes_on, Handshake, no_context, no_descriptor, rejected,
  accepted_with, stopped, max_fd, timeslot, close_user, close_users, new_timer, add_user, admit,
  add_client, with_ssl, add_ssl_client, alarm_event, readable_at, hung_up, user_event, handle_event,
  of_timers, and_then, with_user, update,
}
use linux_image_server.ClientPool.Nodes.{
  HasNode, UpTo, UpTo-later, UpTo-insert, UpTo-moved, UpTo-at, HasNode-insert, HasNode-moved,
  HasNode-split, length-moved, length-behind, free-Absent,
}

-- The timers stand in a well-formed list, sorted, none of which lasts more than three slots from
-- `clock`, the timer of each handler that has one is in it, and each that epoll watches is of users_ and
-- has one.
pub record IsSound (clock : ℕ) (s : Pool) (ns : List Node) : Type 0 where
  pub linked : IsLinked s.timers ns
  pub sorted : Sorted ns
  pub recent : UpTo (clock + 3 * timeslot) ns
  pub owned : (i a : ℕ) → s.timer_of i ≡ some a → HasNode a i ns
  pub armed : (i : ℕ) → s.watched i ≡ true → (i < max_fd) × ((a : ℕ) × (s.timer_of i ≡ some a))

-- The process has not left the model, and if it goes on it is sound.
abbrev pub StaysSound : ℕ → ℕ → Outcome → Type 0
StaysSound clock bound fault = ⊥
StaysSound clock bound exited = Unit {0}
StaysSound clock bound (goes_on s) = (ns : List Node) × (IsSound clock s ns × (length ns ≤ bound))

-- What is not about the timers may change.
pub same_timers :
    (clock bound : ℕ) (s s' : Pool) (ns : List Node)
    → s'.timers ≡ s.timers
    → s'.timer_of ≡ s.timer_of
    → s'.watched ≡ s.watched
    → IsSound clock s ns
    → length ns ≤ bound
    → StaysSound clock bound (goes_on s')
same_timers clock bound s s' ns e e' e'' k le = (
  ns,
  (
    record {
      linked = subst (λ l. IsLinked l ns) (sym e) k.linked;
      sorted = k.sorted;
      recent = k.recent;
      owned = λ i a has. k.owned i a (sym (ap (λ f. f i) e') ∙ has);
      armed = λ i on.
          let (small, (a, has)) = k.armed i (sym (ap (λ f. f i) e'') ∙ on) in
          (small, (a, ap (λ f. f i) e' ∙ has));
    },
    le,
  ),
)

pub later :
    (clock clock' : ℕ) (s : Pool) (ns : List Node)
    → clock ≤ clock'
    → IsSound clock s ns
    → IsSound clock' s ns
later clock clock' s ns le k = record {
  linked = k.linked;
  sorted = k.sorted;
  recent = UpTo-later (clock + 3 * timeslot) (clock' + 3 * timeslot) ns (omega arith) k.recent;
  owned = k.owned;
  armed = k.armed;
}

abbrev updated : ℕ → ℕ → (ℕ → Option ℕ) → ℕ → Option ℕ
updated i a f j = if i == j then some a else f j

owned-updated :
    (i a : ℕ) (f : ℕ → Option ℕ) (x : Node) (ns : List Node)
    → x.0 ≡ a
    → x.1.0 ≡ i
    → ((j b : ℕ) → f j ≡ some b → HasNode b j ns)
    → (j b : ℕ) → updated i a f j ≡ some b
    → HasNode b j (insert x ns)
owned-updated i a f x ns e e' own j b has = elim (Bool-cases (i == j)) [
  | inl same ↦ HasNode-insert b j x ns (
      inl (
        let is_a : a ≡ b = (let found = rw same at has in cc) in
        let is_i = (==_iff i j).0 same in (e ∙ is_a, e' ∙ is_i)))
  | inr other ↦ HasNode-insert b j x ns (inr (own j b (rw other at has)))
]

-- Each watched descriptor is of users_ and has a timer.
abbrev Armed : (ℕ → Bool) → (ℕ → Option ℕ) → Type 0
Armed watched timer_of =
    (i : ℕ) → watched i ≡ true → (i < max_fd) × ((a : ℕ) × (timer_of i ≡ some a))

update-Armed :
    (i a : ℕ) (s : Pool)
    → i < max_fd
    → Armed s.watched s.timer_of
    → Armed (update i true s.watched) (updated i a s.timer_of)
update-Armed i a s small arms j on = elim (Bool-cases (i == j)) [
  | inl same ↦
      let is_i = (==_iff i j).0 same in (subst (λ m. m < max_fd) is_i small, (a, rw same refl))
  | inr other ↦ let (low, (b, has)) = arms j (rw other at on) in (low, (b, rw other has))
]

pub add_user-StaysSound :
    (fuel : ℕ) (ev : Event) (connfd : ℕ) (kind : ClientType) (content : Option ℕ) (s : Pool)
    (ns : List Node)
    → IsSound ev.time s ns
    → length ns ≤ fuel
    → s.timers.store ev.timer ≡ none
    → connfd < max_fd
    → StaysSound ev.time (suc (length ns)) (add_user fuel ev connfd kind content s)
unfolding add_user of_timers with_user
add_user-StaysSound fuel ev connfd kind content s ns k le free small =
    let x : Node = (ev.timer, (connfd, ev.time + 3 * timeslot)) in
    let absent = free-Absent ev.timer ns free k.linked.chain in
    let h : Store = put ev.timer (some (new_timer connfd ev.time)) s.timers.store in
    let l0 : TimerList = record s.timers { store = h } in
    let (l, (ran, (linked, same))) =
      add_timer-inserts ns fuel x (new_timer connfd ev.time) l0 le
        (IsAt-here s.timers.store {n = x} refl refl) refl refl absent
        (record {
          chain = Chain-put ns ev.timer (some (new_timer connfd ev.time)) absent k.linked.chain;
          last = k.linked.last;
        }) in
    rw ran (
      insert x ns,
      (
        record {
          linked = linked;
          sorted = insert-Sorted x ns k.sorted;
          recent = UpTo-insert (ev.time + 3 * timeslot) x ns (omega arith) k.recent;
          owned = owned-updated connfd ev.timer s.timer_of x ns refl refl k.owned;
          armed = update-Armed connfd ev.timer s small k.armed;
        },
        omega (arith, length-insert x ns),
      ),
    )

-- close returns what its documentation says.
abbrev pub Documented : Event → Type 0
Documented ev = (i : ℕ) → IsClose (ev.removed i)

pub close_user-exits : (ev : Event) (i : ℕ) (s : Pool) → Documented ev → close_user ev i s ≡ exited
unfolding close_user
close_user-exits ev i s doc = rw (remove_fd-exits (ev.removed i) (doc i)) refl

expired-none : (cur : ℕ) (ns : List Node) → expired cur ns ≡ [] → unexpired cur ns ≡ ns
unfolding expired unexpired
expired-none cur [] e = refl
expired-none cur (n ∷ ns) e = elim (Bool-cases (ltb cur n.1.1)) [
  | inl lt ↦ rw lt refl
  | inr ge ↦ absurd (let bad = rw ge at e in ground arith)
]

module _ (fuel : ℕ) (ev : Event) (s : Pool) (ns : List Node) where
  pub admit-StaysSound :
      (connfd : ℕ) (kind : ClientType) (content : Option ℕ)
      → IsSound ev.time s ns
      → length ns ≤ fuel
      → s.timers.store ev.timer ≡ none
      → connfd < max_fd
      → StaysSound ev.time (suc (length ns)) (admit fuel ev connfd kind content s)
  unfolding admit
  admit-StaysSound connfd kind content k le free small =
      let P = StaysSound ev.time (suc (length ns)) in
      branch P (ClientPool.is_max s.user_count) _ _
        (λ full. same_timers ev.time (suc (length ns)) s _ ns refl refl refl k (omega arith))
        (λ room.
          branch P (ltb connfd max_fd) _ _
            (λ in_range. add_user-StaysSound fuel ev connfd kind content s ns k le free small)
            (λ out. absurd (let bad = lt→ltb connfd max_fd small in ground arith)))

  -- `alarm_event`, of which every timer that has expired ends the process.
  pub alarm_event-StaysSound :
      IsSound ev.time s ns
      → length ns ≤ fuel
      → Documented ev
      → StaysSound ev.time (suc (length ns)) (alarm_event fuel ev s)
  unfolding alarm_event of_timers close_users and_then
  alarm_event-StaysSound k le doc =
      let l0 : TimerList = record s.timers { closed = [] } in
      let (l, (ran, (linked, closed))) =
        timeout-Expires ns fuel ev.time l0 le
          (record { chain = k.linked.chain; last = k.linked.last }) in
      rw ran (by_closed l linked l.closed closed)
    where
      by_closed :
          (l : TimerList)
          → IsLinked l (unexpired ev.time ns)
          → (is : List ℕ) → is ≡ expired ev.time ns
          → StaysSound ev.time (suc (length ns)) (
              and_then
                (close_users ev is (record s { timers = l }))
                (λ s1. goes_on (record s1 { alarms = s1.alarms + 1 })))
      by_closed l linked [] e = (
        ns,
        (
          record {
            linked = subst (λ ms. IsLinked l ms) (expired-none ev.time ns (sym e)) linked;
            sorted = k.sorted;
            recent = k.recent;
            owned = k.owned;
            armed = k.armed;
          },
          omega arith,
        ),
      )
      by_closed l linked (i ∷ is) e = rw (close_user-exits ev i (record s { timers = l }) doc) tt

  pub readable_at-StaysSound :
      (timer : Option ℕ) (a : ℕ)
      → timer ≡ some a
      → IsSound ev.time s ns
      → length ns ≤ fuel
      → s.timer_of ev.fd ≡ timer
      → StaysSound ev.time (suc (length ns)) (readable_at fuel ev timer s)
  unfolding readable_at of_timers
  readable_at-StaysSound none a e k le has = absurd (ground arith)
  readable_at-StaysSound (some b) a e k le has =
      let (xs, (n, (ys, (split, at_b)))) = HasNode-split b ev.fd ns (k.owned ev.fd b has) in
      let expiry : ℕ = ev.time + 3 * timeslot in
      let up = subst (UpTo expiry) split k.recent in
      let (l, (ran, (linked, (sorted, closed)))) =
        postpone-Sorted xs n ys fuel expiry s.timers
          (omega (arith, length-behind xs n ys, ap length split)) (UpTo-at expiry xs n ys up)
          (subst (IsLinked s.timers) split k.linked) (subst Sorted split k.sorted) in
      let ran_b : postpone fuel b expiry s.timers ≡ some l =
        subst (λ c. postpone fuel c expiry s.timers ≡ some l) at_b ran in
      rw ran_b (
        xs ++ insert (at_time n expiry) ys,
        (
          record {
            linked = linked;
            sorted = sorted;
            recent = UpTo-moved expiry xs n ys expiry (omega arith) up;
            owned = λ i c own.
                HasNode-moved c i xs n ys expiry (subst (HasNode c i) split (k.owned i c own));
            armed = k.armed;
          },
          omega (arith, length-moved xs n ys expiry, ap length split),
        ),
      )

  pub hung_up-StaysSound :
      Documented ev → ev.fd < max_fd → StaysSound ev.time (suc (length ns)) (hung_up ev s)
  unfolding hung_up and_then
  hung_up-StaysSound doc small =
      rw (lt→ltb ev.fd max_fd small) (rw (close_user-exits ev ev.fd s doc) tt)
