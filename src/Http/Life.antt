-- ===== src/Http/Life.antt =====
-- The life of a connection in src/http/http_conn.cpp: `init` and `close`, with the calls of SSL_free
-- and remove_fd that they make.
use linux_image_server.Base.{
  ℕ, zero, suc, ◌≡◌, refl, Bool, true, false, List, ◌∷◌, Option, none, some, if◌then◌else◌,
}
use linux_image_server.CString.Decimal.{ℤ, pos, negsuc}
use linux_image_server.Http.Types.{
  ClientType, invalid_client, http_client, https_client, Parser, init_parser,
}
use linux_image_server.Http.Response.{Writer, init_writer}

-- `watched`, `dropped` and `freed` are the descriptors given to add_fd and remove_fd and the
-- contexts given to SSL_free, the last one first.
pub record Conn : Type 0 where
  pub sockfd : ℤ
  pub user_count : ℤ
  pub client_type : ClientType
  pub sslcontent : Option ℕ
  pub parser : Parser
  pub writer : Writer
  pub watched : List ℤ
  pub dropped : List ℤ
  pub freed : List ℕ

abbrev is_https : ClientType → Bool
is_https https_client = true
is_https http_client = false
is_https invalid_client = false

abbrev succ : ℤ → ℤ
succ (pos n) = pos (suc n)
succ (negsuc zero) = pos 0
succ (negsuc (suc n)) = negsuc n

abbrev pred : ℤ → ℤ
pred (pos zero) = negsuc 0
pred (pos (suc n)) = pos n
pred (negsuc n) = negsuc (suc n)

-- SSL_free of a context that is not null.
abbrev free_content : Option ℕ → List ℕ → List ℕ
free_content none freed = freed
free_content (some content) freed = content ∷ freed

unfoldable pub init : ℤ → ClientType → Option ℕ → Conn → Conn
unfolding init_parser init_writer
init fd kind content c = record c {
  watched = fd ∷ c.watched;
  sockfd = fd;
  user_count = succ c.user_count;
  client_type = kind;
  sslcontent = content;
  parser = init_parser c.parser;
  writer = init_writer c.writer;
}

-- The test of m_type comes after the assignment to it.
unfoldable pub close : Bool → Conn → Conn
close false c = c
close true c =
    let closed = record c {
      dropped = c.sockfd ∷ c.dropped;
      sockfd = negsuc 0;
      user_count = pred c.user_count;
      client_type = invalid_client;
    } in
    record closed {
      freed = if is_https closed.client_type then free_content c.sslcontent c.freed else c.freed;
      sslcontent = none;
    }

pred-succ : (z : ℤ) → pred (succ z) ≡ z
pred-succ (pos n) = refl
pred-succ (negsuc zero) = refl
pred-succ (negsuc (suc n)) = refl

-- Closing a connection just accepted restores the count of users, hands the descriptor that `init`
-- watched to remove_fd, and gives no SSL context to SSL_free, whatever the client's type.
pub close-init :
    (fd : ℤ) (kind : ClientType) (content : Option ℕ) (c : Conn)
    → let closed = close true (init fd kind content c) in
      (closed.user_count ≡ c.user_count)
      × ((closed.dropped ≡ fd ∷ c.dropped)
          × ((closed.sslcontent ≡ none) × (closed.freed ≡ c.freed)))
unfolding close init
close-init fd kind content c = (pred-succ c.user_count, (refl, (refl, refl)))
