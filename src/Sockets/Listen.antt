-- ===== src/Sockets/Listen.antt =====
-- What `open_listenfd` and `open_ssl_socket` return, for sockets that do what their documentation
-- says.
use linux_image_server.Base.{
  ℕ, Bool, true, false, not, Option, some, ◌==◌, ◌≡◌, refl, ◌∙◌, ◌⊎◌, inl, inr,
}
use linux_image_server.CString.Decimal.{ℤ, pos, negsuc}
use linux_image_server.Descriptors.Flags.{IsFailed}
use linux_image_server.Sockets.{
  Net, Opened, exits, returns, or_end, port_bits, open_listenfd, open_ssl_socket,
}

-- What the calls leave, seen by a descriptor: whether it is open, its SO_REUSEADDR, the port that it
-- is bound to and the length of its queue; and whether a context is freed.
pub record IsNet {S : Type 0} (N : Net S) : Type 0 where
  pub is_open : ℕ → S → Bool
  pub reuse : ℕ → S → Bool
  pub port : ℕ → S → Option ℕ
  pub backlog : ℕ → S → Option ℕ
  pub freed : ℕ → S → Bool
  pub opens : (fd : ℕ) (s : S) → (N.socket s).0 ≡ pos fd → is_open fd (N.socket s).1 ≡ true
  pub reuses :
      (fd v n : ℕ) (s : S)
      → (N.set_reuse fd v s).0 ≡ pos n
      → (is_open fd (N.set_reuse fd v s).1 ≡ is_open fd s)
        × (reuse fd (N.set_reuse fd v s).1 ≡ not (v == 0))
  pub binds :
      (fd p n : ℕ) (s : S)
      → (N.bind fd p s).0 ≡ pos n
      → (is_open fd (N.bind fd p s).1 ≡ is_open fd s)
        × ((reuse fd (N.bind fd p s).1 ≡ reuse fd s) × (port fd (N.bind fd p s).1 ≡ some p))
  pub listens :
      (fd m n : ℕ) (s : S)
      → (N.listen fd m s).0 ≡ pos n
      → (is_open fd (N.listen fd m s).1 ≡ is_open fd s)
        × ((reuse fd (N.listen fd m s).1 ≡ reuse fd s)
            × ((port fd (N.listen fd m s).1 ≡ port fd s)
                × (backlog fd (N.listen fd m s).1 ≡ some m)))
  pub closes : (fd : ℕ) (s : S) → is_open fd (N.close fd s) ≡ false
  pub frees : (c : ℕ) (s : S) → freed c (N.context_free c s) ≡ true
  pub free_keeps : (c fd : ℕ) (s : S) → is_open fd (N.context_free c s) ≡ is_open fd s

module _ {S : Type 0} where
  -- A call that fails ends the process with what `tidy` leaves, and one that does not goes on.
  pub or_end-cases :
      (P : Opened S → Type 0) (r : ℤ × S) (tidy : S → S) (f : ℕ → S → Opened S)
      → ((n : ℕ) → r.0 ≡ negsuc n → P (exits (tidy r.1)))
      → ((n : ℕ) → r.0 ≡ pos n → P (f n r.1))
      → P (or_end r tidy f)
  or_end-cases P (pos n, s) tidy f bad good = good n refl
  or_end-cases P (negsuc n, s) tidy f bad good = bad n refl

module _ {S : Type 0} (N : Net S) (laws : IsNet N) where
  pub record IsListening (port_number queue : ℕ) (reuses : Bool) (fd : ℕ) (s : S) : Type 0 where
    pub is_open : laws.is_open fd s ≡ true
    pub reuse : laws.reuse fd s ≡ reuses
    pub port : laws.port fd s ≡ some port_number
    pub backlog : laws.backlog fd s ≡ some queue

  -- What the calls before `bind`, and before `listen`, leave.
  abbrev pub before_bind : ℕ → ℕ → S → S
  before_bind v fd s = (N.set_reuse fd v (N.socket s).1).1

  abbrev pub before_listen : ℕ → ℕ → ℕ → S → S
  before_listen v p fd s = (N.bind fd (port_bits p) (before_bind v fd s)).1

  -- How an opening of a socket ends. It ends the process only when a call failed: `socket`, the
  -- setting of SO_REUSEADDR, `bind`, or `listen` after a `bind` that did not; and but for SO_REUSEADDR
  -- the descriptor, if there is one, is closed, and `Q` holds of what is left.
  abbrev pub Opens : ℕ → ℕ → (S → Type 0) → S → Opened S → Type 0
  Opens v p Q s o =
      ((s1 : S) × ((o ≡ exits s1)
          × ((IsFailed (N.socket s).0 × Q s1)
              ⊎ ((fd : ℕ) × (((N.socket s).0 ≡ pos fd)
                    × (IsFailed (N.set_reuse fd v (N.socket s).1).0
                        ⊎ ((IsFailed (N.bind fd (port_bits p) (before_bind v fd s)).0
                              ⊎ IsFailed (N.listen fd 5 (before_listen v p fd s)).0)
                            × ((laws.is_open fd s1 ≡ false) × Q s1))))))))
      ⊎ ((fd : ℕ) × ((s1 : S) × ((o ≡ returns fd s1)
              × IsListening (port_bits p) 5 (not (v == 0)) fd s1)))

  module _ (v p : ℕ) (Q : S → Type 0) (t0 : S → S) (t1 : ℕ → S → S) (tidy0 : (s : S) → Q (t0 s))
      (tidy1 : (fd : ℕ) (s : S) → (laws.is_open fd (t1 fd s) ≡ false) × Q (t1 fd s)) where
    ends_closed :
        (fd : ℕ) (s t : S)
        → (N.socket s).0 ≡ pos fd
        → IsFailed (N.bind fd (port_bits p) (before_bind v fd s)).0
          ⊎ IsFailed (N.listen fd 5 (before_listen v p fd s)).0
        → Opens v p Q s (exits (t1 fd t))
    ends_closed fd s t got failed = inl (t1 fd t, (refl, inr (fd, (got, inr (failed, tidy1 fd t)))))

    listening :
        (fd n1 n2 n3 : ℕ) (s : S)
        → (N.socket s).0 ≡ pos fd
        → (let s1 = (N.socket s).1 in (N.set_reuse fd v s1).0 ≡ pos n1)
        → (let s2 = (N.set_reuse fd v (N.socket s).1).1 in (N.bind fd (port_bits p) s2).0 ≡ pos n2)
        → (let s3 = (N.bind fd (port_bits p) (N.set_reuse fd v (N.socket s).1).1).1 in
            (N.listen fd 5 s3).0 ≡ pos n3)
        → (let s3 = (N.bind fd (port_bits p) (N.set_reuse fd v (N.socket s).1).1).1 in
            IsListening (port_bits p) 5 (not (v == 0)) fd (N.listen fd 5 s3).1)
    listening fd n1 n2 n3 s got set bound listens =
        let (o1, r1) = laws.reuses fd v n1 (N.socket s).1 set in
        let (o2, (r2, p2)) =
          laws.binds fd (port_bits p) n2 (N.set_reuse fd v (N.socket s).1).1 bound in
        let (o3, (r3, (p3, b3))) =
          laws.listens fd 5 n3 (N.bind fd (port_bits p) (N.set_reuse fd v (N.socket s).1).1).1
            listens in
        record {
          is_open = o3 ∙ o2 ∙ o1 ∙ laws.opens fd s got;
          reuse = r3 ∙ r2 ∙ r1;
          port = p3 ∙ p2;
          backlog = b3;
        }

    socket-Opens :
        (s : S)
        → Opens v p Q s (
            or_end (N.socket s) t0 (λ fd s1.
              or_end
                (N.set_reuse fd v s1)
                (λ t. t)
                (λ n s2.
                  or_end
                    (N.bind fd (port_bits p) s2)
                    (t1 fd)
                    (λ n s3. or_end (N.listen fd 5 s3) (t1 fd) (λ n s4. returns fd s4)))))
    socket-Opens s =
        let P = Opens v p Q s in
        or_end-cases P (N.socket s) t0 _
          (λ n bad. inl (t0 (N.socket s).1, (refl, inl ((n, bad), tidy0 _))))
          (λ fd got.
            or_end-cases P (N.set_reuse fd v _) (λ t. t) _
              (λ n bad. inl (_, (refl, inr (fd, (got, inl (n, bad))))))
              (λ n1 set.
                or_end-cases P (N.bind fd (port_bits p) _) (t1 fd) _
                  (λ n bad. ends_closed fd s _ got (inl (n, bad)))
                  (λ n2 bound.
                    or_end-cases P (N.listen fd 5 _) (t1 fd) _
                      (λ n bad. ends_closed fd s _ got (inr (n, bad)))
                      (λ n3 listens.
                        inr (fd, (_, (refl, listening fd n1 n2 n3 s got set bound listens)))))))

  -- `open_listenfd` ends the process only when one of its calls fails, and the descriptor is closed
  -- then unless SO_REUSEADDR failed. Otherwise it returns an open descriptor, with SO_REUSEADDR, bound to
  -- the low 16 bits of the port and listening with a queue of 5. The calls do what they document.
  pub open_listenfd-listens : (p : ℕ) (s : S) → Opens 1 p (λ t. Unit {0}) s (open_listenfd N p s)
  unfolding open_listenfd
  open_listenfd-listens p s =
      socket-Opens 1 p (λ t. Unit {0}) (λ t. t) N.close (λ t. tt) (λ fd t. (laws.closes fd t, tt)) s

  -- `open_ssl_socket` does so too, only when one of its calls fails, and frees the context when it ends the process, unless
  -- SO_REUSEADDR failed; but the option it sets is whether the variable `yes`, which it never sets,
  -- holds other than 0.
  pub open_ssl_socket-listens :
      (v p c : ℕ) (s : S) → Opens v p (λ t. laws.freed c t ≡ true) s (open_ssl_socket N v p c s)
  unfolding open_ssl_socket
  open_ssl_socket-listens v p c s =
      socket-Opens v p (λ t. laws.freed c t ≡ true) (N.context_free c)
        (λ fd t. N.context_free c (N.close fd t)) (laws.frees c)
        (λ fd t.
          (laws.free_keeps c fd (N.close fd t) ∙ laws.closes fd t, laws.frees c (N.close fd t)))
        s
