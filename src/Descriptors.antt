-- ===== src/Descriptors.antt =====
-- src/common/common.cpp: the calls of fcntl, epoll_ctl and sigaction that the server makes for its
-- descriptors. CONSOLE_LOG_ERROR of src/include/logger.h ends the process.
pub mod Flags
pub mod Watch
pub mod Remove
mod Tests
use Prim.Native.Nat.{bit_and, bit_or}
use linux_image_server.Base.{
  ℕ, zero, suc, ◌+◌, ◌*◌, ◌%◌, ◌^◌, Bool, true, false, ◌||◌, Option, none, some, ltb, if◌then◌else◌,
  ◌>>=◌,
}
use linux_image_server.CString.Decimal.{ℤ, pos, negsuc}
use linux_image_server.Bits.{complement}

abbrev pub o_nonblock : ℕ
o_nonblock = 0x800

abbrev pub epollin : ℕ
epollin = 1

abbrev pub epollrdhup : ℕ
epollrdhup = 0x2000

abbrev pub epolloneshot : ℕ
epolloneshot = 2 ^ 30

abbrev pub epollet : ℕ
epollet = 2 ^ 31

abbrev sa_restart : ℕ
sa_restart = 0x10000000

-- The calls on a descriptor: what fcntl answers to F_GETFL, and what F_SETFL, EPOLL_CTL_ADD and
-- EPOLL_CTL_MOD return and leave. The last two take the descriptor of epoll first.
pub record Kernel (S : Type 0) : Type 0 where
  pub get_flags : ℕ → S → ℤ
  pub set_flags : ℕ → ℕ → S → ℤ × S
  pub add_watch : ℕ → ℕ → ℕ → S → ℤ × S
  pub mod_watch : ℕ → ℕ → ℕ → S → ℤ × S

abbrev pub is_negative : ℤ → Bool
is_negative (pos n) = false
is_negative (negsuc n) = true

-- `close(fd) <= 1`.
abbrev at_most_one : ℤ → Bool
at_most_one (pos n) = ltb n 2
at_most_one (negsuc n) = true

-- `remove_fd`: whether it exits, by what epoll_ctl and close return.
unfoldable pub remove_fd : ℤ × ℤ → Bool
remove_fd (deleted, closed) = is_negative deleted || at_most_one closed

-- The handlers that the server installs: SIG_IGN and `sig_handler`.
pub data Disposition : Type 0 where
  ignores handles : Disposition

-- What sigaction is told: the mask is of every signal.
pub record Action : Type 0 where
  pub handler : Disposition
  pub flags : ℕ
  pub masks_all : Bool

abbrev pub unless_minus_one {ℓ} : {S : Type ℓ} → ℤ × S → Option S
unless_minus_one (pos n, s) = some s
unless_minus_one (negsuc zero, s) = none
unless_minus_one (negsuc (suc n), s) = some s

-- `addsig`; `assert` ends the process when sigaction returns -1.
unfoldable pub addsig :
    {S : Type 0} (sigaction : ℕ → Action → S → ℤ × S) → ℕ → Disposition → Bool → S → Option S
addsig sigaction sig handler restart s =
    let action : Action = record {
      handler = handler;
      flags = if restart then bit_or 0 sa_restart else 0;
      masks_all = true;
    } in
    unless_minus_one (sigaction sig action s)

-- The bits of an int.
abbrev bits_of_int : ℤ → ℕ
bits_of_int (pos n) = n
bits_of_int (negsuc n) = complement 32 n

module _ {S : Type 0} where
  -- CONSOLE_LOG_ERROR for a result below 0.
  abbrev pub or_exit : ℤ × S → Option S
  or_exit (pos n, s) = some s
  or_exit (negsuc n, s) = none

  abbrev pub or_exit_at : ℤ → (ℕ → Option S) → Option S
  or_exit_at (pos n) f = f n
  or_exit_at (negsuc n) f = none

-- `event.events` of `mod_fd`.
unfoldable pub rearmed : ℕ → ℕ
rearmed ev = bit_or (bit_or (bit_or ev epollet) epolloneshot) epollrdhup

-- `event.events` of `add_fd`.
unfoldable pub events_for : Bool → Bool → ℕ
events_for one_shot lt =
    let events =
      (if lt then bit_or epollin epollrdhup else bit_or (bit_or epollin epollet) epollrdhup) in
    if one_shot then bit_or events epolloneshot else events

module _ {S : Type 0} (K : Kernel S) where
  unfoldable pub set_nonblocking : ℕ → S → ℤ × S
  unfolding complement
  set_nonblocking fd s =
      let old_option = K.get_flags fd s in
      (old_option, (K.set_flags fd (bit_or (bits_of_int old_option) o_nonblock) s).1)

  unfoldable pub set_fl : ℕ → ℕ → S → Option S
  set_fl fd flags s =
      or_exit_at (K.get_flags fd s) (λ val. or_exit (K.set_flags fd (bit_or val flags) s))

  unfoldable pub clr_fl : ℕ → ℕ → S → Option S
  unfolding complement
  clr_fl fd flags s =
      or_exit_at (K.get_flags fd s)
        (λ val. or_exit (K.set_flags fd (bit_and val (complement 32 flags)) s))

  -- `set_fl(fd, O_NONBLOCK)` in the branch without LT.
  unfoldable pub prepared : Bool → ℕ → S → Option S
  unfolding set_fl
  prepared true fd s = some s
  prepared false fd s = set_fl fd o_nonblock s

  unfoldable pub add_fd : ℕ → ℕ → Bool → Bool → S → Option S
  unfolding events_for prepared
  add_fd epollfd fd one_shot lt s =
      prepared lt fd s >>= (λ s1. or_exit (K.add_watch epollfd fd (events_for one_shot lt) s1))

  -- What epoll_ctl returns is not looked at.
  unfoldable pub mod_fd : ℕ → ℕ → ℕ → S → S
  unfolding rearmed
  mod_fd epollfd fd ev s = (K.mod_watch epollfd fd (rearmed ev) s).1
