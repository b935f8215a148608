-- ===== src/ClientPool/Connector.antt =====
-- `ConnectHandler::process` of src/include/connector.h: the accepting of a client as a task of its
-- own, beside `add_client_` of src/client_pool/client_pool.cpp.
use linux_image_server.Base.{ℕ, ◌≡◌, refl, false, Option, none, some, ◌∷◌, ltb, if◌then◌else◌}
use linux_image_server.Http.Types.{http_client}
use linux_image_server.ClientPool.{
  Pool, Event, Outcome, fault, exited, and_then, is_max, max_fd, add_user, admit, add_client,
}

-- The descriptor is closed at the limit of users, but the function goes on with it.
unfoldable pub turn_away : ℕ → Pool → Pool
turn_away connfd s = if is_max s.user_count then record s { refused = connfd ∷ s.refused } else s

-- A failed accept leaves -1, with which the array of handlers is indexed. The `add_fd` of `init` ends
-- the process when the descriptor is closed already.
unfoldable pub connect : ℕ → Event → Option ℕ → Pool → Outcome
unfolding turn_away add_user and_then
connect fuel ev none s = fault
connect fuel ev (some connfd) s =
    let added = add_user fuel ev connfd http_client none (turn_away connfd s) in
    let lost = and_then added (λ t. exited) in
    if ltb connfd max_fd then (if is_max s.user_count then lost else added) else fault

module _ (fuel : ℕ) (ev : Event) (connfd : ℕ) (s : Pool) where
  -- Below the limit of users, a client is taken in as `add_client_` does it.
  pub connect-add_client :
      is_max s.user_count ≡ false
      → connect fuel ev (some connfd) s ≡ add_client fuel ev (some connfd) s
  unfolding connect add_client admit turn_away
  connect-add_client room = rw room refl
