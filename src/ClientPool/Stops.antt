-- ===== src/ClientPool/Stops.antt =====
-- The end of the loop of `testing_` after SIGTERM.
use linux_image_server.Base.{ℕ, ◌≡◌, ◌⊎◌, List, [], ◌∷◌, ◌==◌, false}
use linux_image_server.ClientPool.{Pool, Event, Outcome, fault, exited, goes_on, stopped}
use linux_image_server.ClientPool.Follows.{Follows}

-- One of the events is that of the pipe of SIGTERM.
abbrev pub HasStop : ℕ → List Event → Type 0
HasStop fd [] = ⊥
HasStop fd (ev ∷ evs) = (ev.fd ≡ fd) ⊎ HasStop fd evs

-- The descriptor of that pipe is none of the other three.
abbrev pub IsApart : Pool → Type 0
IsApart s =
    ((s.int_fd == s.listenfd) ≡ false)
    × (((s.int_fd == s.ssl_fd) ≡ false) × ((s.int_fd == s.alarm_fd) ≡ false))

-- If the process goes on, the loop is told to stop.
abbrev pub Stopped : Outcome → Type 0
Stopped fault = Unit {0}
Stopped exited = Unit {0}
Stopped (goes_on s) = s.server_state ≡ stopped
