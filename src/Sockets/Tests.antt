-- ===== src/Sockets/Tests.antt =====
-- Concrete runs of src/io/io.cpp and of `ssl_init`, for sockets of which one port is taken.
use linux_image_server.Base.{
  ℕ, ◌≡◌, refl, ap, inl, inr, Bool, true, false, not, Option, none, some, List, ◌==◌, if◌then◌else◌,
  Bool-cases, arith,
}
use linux_image_server.CString.{codes}
use linux_image_server.CString.Decimal.{ℤ, pos, negsuc}
use linux_image_server.Sockets.{
  Net, Opened, exits, returns, open_listenfd, open_ssl_socket, ssl_init, print_epollevent,
}
use linux_image_server.Sockets.Listen.{IsNet, Opens, open_listenfd-listens, open_ssl_socket-listens}
use linux_image_server.Sockets.Context.{IsTls, Loads, ssl_init-Loads}

record Table : Type 0 where
  is_open : ℕ → Bool
  reuse : ℕ → Bool
  port : ℕ → Option ℕ
  backlog : ℕ → Option ℕ
  freed : ℕ → Bool
  key : ℕ → Option (List ℕ)
  certificate : ℕ → Option (List ℕ)

abbrev set_at {ℓ} : {A : Type ℓ} → ℕ → A → (ℕ → A) → ℕ → A
set_at i v f j = if j == i then v else f j

abbrev taken : ℕ
taken = 80

abbrev bound : ℕ → ℕ → Table → ℤ × Table
bound fd p s =
    if p == taken then (negsuc 0, s) else (pos 0, record s { port = set_at fd (some p) s.port })

-- The socket is always 7, and the context 1.
abbrev net : Net Table
net = record {
  socket = λ s. (pos 7, record s { is_open = set_at 7 true s.is_open });
  set_reuse = λ fd v s. (pos 0, record s { reuse = set_at fd (not (v == 0)) s.reuse });
  bind = bound;
  listen = λ fd n s. (pos 0, record s { backlog = set_at fd (some n) s.backlog });
  close = λ fd s. record s { is_open = set_at fd false s.is_open };
  context_new = λ s. (some 1, s);
  use_key = λ c f s. (pos 1, record s { key = set_at c (some f) s.key });
  use_certificate = λ c f s. (pos 1, record s { certificate = set_at c (some f) s.certificate });
  context_free = λ c s. record s { freed = set_at c true s.freed };
}

same : (i : ℕ) → (i == i) ≡ true
same i = ground arith

value_of : ℤ → ℕ
value_of (pos n) = n
value_of (negsuc n) = n

seven : (fd : ℕ) → pos 7 ≡ pos fd → (fd == 7) ≡ true
unfolding value_of
seven fd e = let e' : 7 ≡ fd = ap value_of e in ground arith

net-binds :
    (fd p n : ℕ) (s : Table)
    → (bound fd p s).0 ≡ pos n
    → ((bound fd p s).1.is_open fd ≡ s.is_open fd)
      × (((bound fd p s).1.reuse fd ≡ s.reuse fd) × ((bound fd p s).1.port fd ≡ some p))
net-binds fd p n s e = elim (Bool-cases (p == taken)) [
  | inl bad ↦ absurd (let e' = rw bad at e in ground arith)
  | inr free ↦ rw free (refl, (refl, rw (same fd) refl))
]

net-IsNet : IsNet net
net-IsNet = record {
  is_open = λ fd s. s.is_open fd;
  reuse = λ fd s. s.reuse fd;
  port = λ fd s. s.port fd;
  backlog = λ fd s. s.backlog fd;
  freed = λ c s. s.freed c;
  opens = λ fd s e. rw (seven fd e) refl;
  reuses = λ fd v n s e. (refl, rw (same fd) refl);
  binds = net-binds;
  listens = λ fd m n s e. (refl, (refl, (refl, rw (same fd) refl)));
  closes = λ fd s. rw (same fd) refl;
  frees = λ c s. rw (same c) refl;
  free_keeps = λ c fd s. refl;
}

net-IsTls : IsTls net
net-IsTls = record {
  key = λ c s. s.key c;
  certificate = λ c s. s.certificate c;
  gone = λ c s. s.freed c;
  key_result = λ c f s. inr refl;
  certificate_result = λ c f s. inr refl;
  keyed = λ c f s e. rw (same c) refl;
  belongs = λ k f. true;
  certified = λ c f k s e has. (rw (same c) refl, has);
  frees = λ c s. rw (same c) refl;
}

abbrev start : Table
start = record {
  is_open = λ i. false;
  reuse = λ i. false;
  port = λ i. none;
  backlog = λ i. none;
  freed = λ i. false;
  key = λ i. none;
  certificate = λ i. none;
}

open_listenfd-listens_example :
    Opens net net-IsNet 1 8080 (λ t. Unit {0}) start (open_listenfd net 8080 start)
open_listenfd-listens_example = open_listenfd-listens net net-IsNet 8080 start

-- The variable that is never set holds 0 here.
open_ssl_socket-listens_example :
    Opens net net-IsNet 0 4433
      (λ t. net-IsNet.freed 1 t ≡ true)
      start
      (open_ssl_socket net 0 4433 1 start)
open_ssl_socket-listens_example = open_ssl_socket-listens net net-IsNet 0 4433 1 start

ssl_init-Loads_example :
    Loads net net-IsTls
      (codes "key")
      (codes "crt")
      start
      (ssl_init net (codes "key") (codes "crt") start)
ssl_init-Loads_example = ssl_init-Loads net net-IsTls (codes "key") (codes "crt") start

ended : Opened Table → Option Table
ended (exits s) = some s
ended (returns fd s) = none

closed_at_end : Option Table → Bool
closed_at_end none = false
closed_at_end (some s) = not (s.is_open 7)

port_taken : closed_at_end (ended (open_listenfd net 80 start)) ≡ true
unfolding closed_at_end ended open_listenfd
port_taken = refl

high_port : ended (open_listenfd net 65616 start) ≡ ended (open_listenfd net 80 start)
unfolding ended open_listenfd
high_port = refl

one_shot_line : print_epollevent 0x40000000 ≡ codes "3) epoll event: EPOLLET "
unfolding print_epollevent
one_shot_line = refl

first_only : print_epollevent 9 ≡ codes "3) epoll event: EPOLLIN "
unfolding print_epollevent
first_only = refl
