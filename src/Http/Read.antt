-- ===== src/Http/Read.antt =====
-- `read_` of src/http/http_conn.cpp: what recv or SSL_read answers, call by call, is the list of
-- events. The subtraction of -1 at m_read_idx 0 ends the run as `underrun`, and `overrun` is a recv
-- that writes more than the room it is given.
pub mod Rewind
use linux_image_server.Base.{
  ℕ, zero, suc, ◌+◌, ◌-◌, Option, none, some, List, [], ◌∷◌, leb, ◌==◌, if◌then◌else◌, length,
}
use linux_image_server.CString.{store}
use linux_image_server.Http.Types.{Parser, read_buffer_size}

-- The bytes received (none where recv answers 0), EAGAIN or EWOULDBLOCK, and another error.
pub data Recv : Type 0 where
  got : List ℕ → Recv
  not_ready lost : Recv

-- `waiting`: the loop goes on with this `tried_times`; `hung_up`: the function calls close and
-- returns.
pub data Read : Type 0 where
  loaded hung_up : Parser → Read
  waiting : Parser → ℕ → Read
  underrun overrun : Read

unfoldable pub receive : Parser → List ℕ → ℕ → Read
receive p [] tried = hung_up p
receive p (b ∷ bs) tried = elim (store p.read_idx (b ∷ bs) p.read_buf) [
  | none ↦ overrun
  | some buf ↦ waiting (record p { read_buf = buf; read_idx = p.read_idx + length (b ∷ bs) }) tried
]

-- EAGAIN while tries are left falls through to `m_read_idx += bytes_read`, with -1.
unfoldable pub rewind : Parser → ℕ → ℕ → Read
rewind p zero tried = underrun
rewind p (suc i) tried = waiting (record p { read_idx = i }) tried

unfoldable pub on_event : Recv → Parser → ℕ → Read
unfolding receive rewind
on_event (got bytes) p tried = receive p bytes tried
on_event not_ready p tried = if (tried - 1) == 0 then loaded p else rewind p p.read_idx (tried - 1)
on_event lost p tried = hung_up p

unfoldable pub go_on : (Parser → ℕ → Read) → Read → Read
go_on k (loaded p) = loaded p
go_on k (waiting p tried) = k p tried
go_on k (hung_up p) = hung_up p
go_on k underrun = underrun
go_on k overrun = overrun

unfoldable pub read_loop : List Recv → Parser → ℕ → Read
unfolding on_event go_on
read_loop [] p tried = waiting p tried
read_loop (e ∷ es) p tried = go_on (read_loop es) (on_event e p tried)

unfoldable pub read : List Recv → Parser → Read
unfolding read_loop
read events p = if leb read_buffer_size p.read_idx then hung_up p else read_loop events p 10
