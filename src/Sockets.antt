-- ===== src/Sockets.antt =====
-- src/io/io.cpp: how the server opens its two listening sockets, and the line it prints for an event
-- of epoll. `ssl_init` of src/ssl/ssl.cpp makes the context that one of them is opened with.
pub mod Listen
pub mod Context
pub mod Print
mod Tests
use Prim.Native.Nat.{bit_and}
use linux_image_server.Base.{
  ℕ, zero, suc, ◌+◌, ◌%◌, ◌^◌, Bool, true, false, not, Option, none, some, List, [], ◌∷◌, ◌++◌,
  ◌==◌, if◌then◌else◌,
}
use linux_image_server.CString.{codes}
use linux_image_server.CString.Decimal.{ℤ, pos, negsuc}

-- The calls for sockets, and those of OpenSSL for a context. `bind` is given the port before htons.
pub record Net (S : Type 0) : Type 0 where
  pub socket : S → ℤ × S
  pub set_reuse : ℕ → ℕ → S → ℤ × S
  pub bind : ℕ → ℕ → S → ℤ × S
  pub listen : ℕ → ℕ → S → ℤ × S
  pub close : ℕ → S → S
  pub context_new : S → Option ℕ × S
  pub use_key : ℕ → List ℕ → S → ℤ × S
  pub use_certificate : ℕ → List ℕ → S → ℤ × S
  pub context_free : ℕ → S → S

-- The process ends, or the function returns.
pub data Opened (S : Type 0) : Type 0 where
  exits : S → Opened S
  returns : ℕ → S → Opened S

module _ {S : Type 0} where
  -- A result below 0 ends the process, after what `tidy` does.
  abbrev pub or_end : ℤ × S → (S → S) → (ℕ → S → Opened S) → Opened S
  or_end (pos n, s) tidy f = f n s
  or_end (negsuc n, s) tidy f = exits (tidy s)

  -- So does the result 0 of OpenSSL.
  abbrev pub or_end_at_zero : ℤ × S → (S → S) → (S → Opened S) → Opened S
  or_end_at_zero (pos zero, s) tidy f = exits (tidy s)
  or_end_at_zero (pos (suc n), s) tidy f = f s
  or_end_at_zero (negsuc n, s) tidy f = f s

  abbrev pub or_end_null : Option ℕ × S → (ℕ → S → Opened S) → Opened S
  or_end_null (none, s) f = exits s
  or_end_null (some c, s) f = f c s

-- The port is cut to 16 bits.
abbrev pub port_bits : ℕ → ℕ
port_bits port = port % 2 ^ 16

module _ {S : Type 0} (N : Net S) where
  unfoldable pub open_listenfd : ℕ → S → Opened S
  open_listenfd port s =
      or_end (N.socket s) (λ t. t)
        (λ listenfd s1.
          or_end (N.set_reuse listenfd 1 s1) (λ t. t)
            (λ n s2. or_end (N.bind listenfd (port_bits port) s2) (N.close listenfd) (λ n s3.
              or_end (N.listen listenfd 5 s3) (N.close listenfd) (λ n s4. returns listenfd s4))))

  -- `reuse` is what stands in the variable `yes`, which is never set.
  unfoldable pub open_ssl_socket : ℕ → ℕ → ℕ → S → Opened S
  open_ssl_socket reuse port ssl_context s =
      or_end (N.socket s) (N.context_free ssl_context) (λ ssl_socket s1.
        or_end (N.set_reuse ssl_socket reuse s1) (λ t. t)
          (λ n s2.
            or_end (N.bind ssl_socket (port_bits port) s2)
              (λ t. N.context_free ssl_context (N.close ssl_socket t))
              (λ n s3.
                or_end (N.listen ssl_socket 5 s3)
                  (λ t. N.context_free ssl_context (N.close ssl_socket t))
                  (λ n s4. returns ssl_socket s4))))

  unfoldable pub ssl_init : List ℕ → List ℕ → S → Opened S
  ssl_init private_key cert s = or_end_null (N.context_new s) (λ ssl_context s1.
      or_end_at_zero (N.use_key ssl_context private_key s1) (N.context_free ssl_context) (λ s2.
        or_end_at_zero (N.use_certificate ssl_context cert s2) (N.context_free ssl_context)
          (λ s3. returns ssl_context s3)))

abbrev pub has_bit : ℕ → ℕ → Bool
has_bit event flag = not (bit_and event flag == 0)

-- The tests of `print_epollevent`, in their order, each with its flag.
abbrev pub event_names : List (ℕ × List ℕ)
event_names =
    (1, codes "EPOLLIN ")
    ∷ (4, codes "EPOLLOUT ")
    ∷ (0x2000, codes "EPOLLRDHUP ")
    ∷ (2, codes "EPOLLPRI ")
    ∷ (8, codes "EPOLLERR ")
    ∷ (0x80000000, codes "EPOLLET ")
    ∷ (0x40000000, codes "EPOLLET ")
    ∷ (0x20000000, codes "EPOLLWAKEUP ")
    ∷ (0x10, codes "EPOLLHUP ")
    ∷ []

-- The first that holds.
unfoldable pub name_of : List (ℕ × List ℕ) → ℕ → List ℕ
name_of [] event = []
name_of ((flag, name) ∷ names) event =
    let rest = name_of names event in if has_bit event flag then name else rest

unfoldable pub print_epollevent : ℕ → List ℕ
unfolding name_of
print_epollevent event = codes "3) epoll event: " ++ name_of event_names event
