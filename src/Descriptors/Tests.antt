-- ===== src/Descriptors/Tests.antt =====
-- Concrete runs of src/common/common.cpp, for a kernel that keeps O_NONBLOCK and a list of epoll.
use Prim.Native.Nat.{bit_and}
use linux_image_server.Base.{
  ℕ, min, ◌-◌, ◌≡◌, refl, ◌^◌, ◌<◌, ◌≤◌, ◌⊎◌, inl, inr, Bool, true, false, Option, none, some, ◌==◌,
  ==_iff, Bool-cases, subst, ap, if◌then◌else◌, arith,
}
use linux_image_server.CString.Decimal.{ℤ, pos, negsuc}
use linux_image_server.Bits.{bit, complement, bit-within, bit-binary}
use linux_image_server.Descriptors.{
  Kernel, handles, addsig, o_nonblock, set_fl, clr_fl, add_fd, set_nonblocking, prepared,
}
use linux_image_server.Descriptors.Flags.{IsKernel, Writes, settable, clr_fl-turns_off}
use linux_image_server.Descriptors.Watch.{IsRegistered, IsRefused, add_fd-registers}

record Table : Type 0 where
  nonblocking : ℕ → Bool
  list : ℕ → ℕ → Option ℕ

abbrev flag_of : Bool → ℕ
flag_of b = if b then o_nonblock else 0

abbrev set_to : ℕ → ℕ → Table → ℤ × Table
set_to fd v s =
    if v == o_nonblock
    then (pos 0, record s { nonblocking = λ i. if i == fd then true else s.nonblocking i })
    else if v == 0
    then (pos 0, record s { nonblocking = λ i. if i == fd then false else s.nonblocking i })
    else (negsuc 0, s)

abbrev watch_for : ℕ → ℕ → ℕ → Table → ℤ × Table
watch_for epollfd fd ev s = (
  pos 0,
  record s {
    list = λ i j. if i == epollfd then (if j == fd then some ev else s.list i j) else s.list i j;
  },
)

abbrev table : Kernel Table
table = record {
  get_flags = λ fd s. pos (flag_of (s.nonblocking fd));
  set_flags = set_to;
  add_watch = watch_for;
  mod_watch = watch_for;
}

same_fd : (i : ℕ) → (i == i) ≡ true
same_fd i = ground arith

mixed :
    (k v m : ℕ)
    → bit k v ≤ bit k settable
    → bit k m ≤ bit k settable
    → bit k v ≡ (if bit k settable == 1 then bit k v else bit k m)
mixed k v m le le' = let b = bit-binary k settable in ground arith

within : (b : Bool) (k : ℕ) → bit k (flag_of b) ≤ bit k settable
within true k = bit-within o_nonblock settable k refl
within false k = bit-within 0 settable k refl

value_of : ℤ → ℕ
value_of (pos n) = n
value_of (negsuc n) = n

pos-inj : (a b : ℕ) → pos a ≡ pos b → a ≡ b
unfolding value_of
pos-inj a b e = ap value_of e

small_flags : (b : Bool) → flag_of b < 2 ^ 32
small_flags true = omega arith
small_flags false = omega arith

table-keeps :
    (fd v n m : ℕ) (s : Table)
    → (set_to fd v s).0 ≡ pos n
    → table.get_flags fd s ≡ pos m
    → (m' : ℕ) × ((table.get_flags fd (set_to fd v s).1 ≡ pos m')
        × ((k : ℕ) → bit k m' ≡ (if bit k settable == 1 then bit k v else bit k m)))
table-keeps fd v n m s e e' = elim (Bool-cases (v == o_nonblock)) [
  | inl on ↦
      let is_on = (==_iff v o_nonblock).0 on in
      (
        o_nonblock,
        (
          rw on (rw (same_fd fd) refl),
          λ k. rw is_on (mixed k o_nonblock m (within true k) (was k)),
        ),
      )
  | inr not_on ↦ elim (Bool-cases (v == 0)) [
    | inl off ↦
        let is_off = (==_iff v 0).0 off in
        (
          0,
          (
            rw not_on (rw off (rw (same_fd fd) refl)),
            λ k. rw is_off (mixed k 0 m (within false k) (was k)),
          ),
        )
    | inr bad ↦ absurd (let e0 = rw not_on at e in let e1 = rw bad at e0 in ground arith)
  ]
]
  where
    was : (k : ℕ) → bit k m ≤ bit k settable
    was k = subst (λ x. bit k x ≤ bit k settable) (pos-inj _ m e') (within (s.nonblocking fd) k)

table-IsKernel : IsKernel table
table-IsKernel = record {
  int_flags = λ fd m s e. subst (λ x. x < 2 ^ 32) (pos-inj _ m e) (small_flags (s.nonblocking fd));
  kept = λ fd v n m s. table-keeps fd v n m s;
  watched = λ epollfd fd s. s.list epollfd fd;
  added = λ epollfd fd ev n s e. (rw (same_fd epollfd) (rw (same_fd fd) refl), refl);
  changed = λ epollfd fd ev n s e. rw (same_fd epollfd) (rw (same_fd fd) refl);
}

abbrev blocking : Table
blocking = record { nonblocking = λ i. false; list = λ i j. none }

-- The listening sockets are added with LT, the descriptors of connections once and without LT.
add_fd-registers_example :
    ((add_fd table 3 7 true false blocking ≡ none)
      × IsRefused table table-IsKernel 3 7 true false blocking)
    ⊎ ((s1 : Table) × ((add_fd table 3 7 true false blocking ≡ some s1)
          × IsRegistered table table-IsKernel 3 7 true false blocking s1))
add_fd-registers_example = add_fd-registers table table-IsKernel 3 7 true false blocking

clr_fl-turns_off_example :
    Writes table 7 blocking
      (λ m. bit_and m (complement 32 o_nonblock))
      (clr_fl table 7 o_nonblock blocking)
      (λ k b b'. b' ≡ min b (1 - bit k o_nonblock))
clr_fl-turns_off_example =
    clr_fl-turns_off table table-IsKernel 7 o_nonblock blocking refl (omega arith)

is_nonblocking : Option Table → ℕ → Bool
is_nonblocking none i = false
is_nonblocking (some s) i = s.nonblocking i

edge_sets : is_nonblocking (add_fd table 3 7 true false blocking) 7 ≡ true
unfolding is_nonblocking add_fd prepared set_fl
edge_sets = refl

level_leaves : is_nonblocking (add_fd table 3 7 false true blocking) 7 ≡ false
unfolding is_nonblocking add_fd prepared set_fl
level_leaves = refl

cleared : Option Table → Option Table
unfolding clr_fl
cleared none = none
cleared (some s) = clr_fl table 7 o_nonblock s

clears : is_nonblocking (cleared (set_fl table 7 o_nonblock blocking)) 7 ≡ false
unfolding is_nonblocking cleared set_fl clr_fl
clears = refl

set_nonblocking-old : (set_nonblocking table 7 blocking).0 ≡ pos 0
unfolding set_nonblocking
set_nonblocking-old = refl

refused_signal : addsig (λ sig action s. (negsuc 0, s)) 14 handles false blocking ≡ none
unfolding addsig
refused_signal = refl
