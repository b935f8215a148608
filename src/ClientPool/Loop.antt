-- ===== src/ClientPool/Loop.antt =====
-- The loop of `testing_` (src/client_pool/client_pool.cpp) over the returns of epoll_wait.
use linux_image_server.Base.{ℕ, Bool, true, false, List, [], ◌∷◌, if◌then◌else◌}
use linux_image_server.ClientPool.{
  Pool, ServerState, stopped, running, sleeping, Event, Outcome, goes_on, and_then, handle_event,
}

unfoldable pub handle_events : ℕ → List Event → Pool → Outcome
unfolding handle_event and_then
handle_events fuel [] s = goes_on s
handle_events fuel (ev ∷ evs) s = and_then (handle_event fuel ev s) (handle_events fuel evs)

-- A return of epoll_wait: an error, after which no event is looked at, or events.
pub data Waited : Type 0 where
  failed : Waited
  got : List Event → Waited

unfoldable pub after_wait : ℕ → Waited → Pool → Outcome
unfolding handle_events
after_wait fuel failed s = goes_on s
after_wait fuel (got evs) s = handle_events fuel evs s

abbrev pub is_running : ServerState → Bool
is_running running = true
is_running stopped = false
is_running sleeping = false

-- The `while` of `testing_`, on the returns of epoll_wait; at their end the loop waits on.
unfoldable pub testing : ℕ → List Waited → Pool → Outcome
unfolding after_wait and_then
testing fuel [] s = goes_on s
testing fuel (w ∷ ws) s =
    let rest = and_then (after_wait fuel w s) (testing fuel ws) in
    if is_running s.server_state then rest else goes_on s
