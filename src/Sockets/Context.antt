-- ===== src/Sockets/Context.antt =====
-- What `ssl_init` of src/ssl/ssl.cpp returns, for calls of OpenSSL that do what their documentation
-- says.
use linux_image_server.Base.{
  ℕ, Bool, true, Option, none, some, List, ◌≡◌, refl, ◌⊎◌, inl, inr, if◌then◌else◌,
}
use linux_image_server.CString.Decimal.{ℤ, pos}
use linux_image_server.Sockets.{Net, Opened, exits, returns, or_end_at_zero, or_end_null, ssl_init}

-- What a context has: its private key and its certificate, by the names of their files, and whether
-- it is freed.
pub record IsTls {S : Type 0} (N : Net S) : Type 0 where
  pub key : ℕ → S → Option (List ℕ)
  pub certificate : ℕ → S → Option (List ℕ)
  pub gone : ℕ → S → Bool
  pub key_result :
      (c : ℕ) (f : List ℕ) (s : S) → ((N.use_key c f s).0 ≡ pos 0) ⊎ ((N.use_key c f s).0 ≡ pos 1)
  pub certificate_result :
      (c : ℕ) (f : List ℕ) (s : S)
      → ((N.use_certificate c f s).0 ≡ pos 0) ⊎ ((N.use_certificate c f s).0 ≡ pos 1)
  pub keyed :
      (c : ℕ) (f : List ℕ) (s : S)
      → (N.use_key c f s).0 ≡ pos 1
      → key c (N.use_key c f s).1 ≡ some f
  -- A key that is there already stays if it belongs to the certificate, and is dropped without an
  -- error if not.
  pub belongs : List ℕ → List ℕ → Bool
  pub certified :
      (c : ℕ) (f k : List ℕ) (s : S)
      → (N.use_certificate c f s).0 ≡ pos 1
      → key c s ≡ some k
      → (certificate c (N.use_certificate c f s).1 ≡ some f)
        × (key c (N.use_certificate c f s).1 ≡ (if belongs k f then some k else none))
  pub frees : (c : ℕ) (s : S) → gone c (N.context_free c s) ≡ true

module _ {S : Type 0} (P : Opened S → Type 0) where
  at_null :
      (r : Option ℕ × S) (f : ℕ → S → Opened S)
      → (r.0 ≡ none → P (exits r.1))
      → ((c : ℕ) → r.0 ≡ some c → P (f c r.1))
      → P (or_end_null r f)
  at_null (none, s) f bad good = bad refl
  at_null (some c, s) f bad good = good c refl

  at_zero :
      (r : ℤ × S) (tidy : S → S) (f : S → Opened S)
      → (r.0 ≡ pos 0) ⊎ (r.0 ≡ pos 1)
      → (r.0 ≡ pos 0 → P (exits (tidy r.1)))
      → (r.0 ≡ pos 1 → P (f r.1))
      → P (or_end_at_zero r tidy f)
  at_zero (z, s) tidy f (inl e) bad good = rw e (bad e)
  at_zero (z, s) tidy f (inr e) bad good = rw e (good e)

module _ {S : Type 0} (N : Net S) (laws : IsTls N) where
  -- A call of OpenSSL failed.
  abbrev pub Refuses : ℕ → List ℕ → List ℕ → S → Type 0
  Refuses c private_key cert s =
      ((N.use_key c private_key s).0 ≡ pos 0)
      ⊎ ((N.use_certificate c cert (N.use_key c private_key s).1).0 ≡ pos 0)

  -- How the making of a context ends.
  abbrev pub Loads : List ℕ → List ℕ → S → Opened S → Type 0
  Loads private_key cert s o =
      ((s1 : S) × ((o ≡ exits s1)
          × (((N.context_new s).0 ≡ none)
              ⊎ ((c : ℕ) × (((N.context_new s).0 ≡ some c)
                    × (Refuses c private_key cert (N.context_new s).1
                        × (laws.gone c s1 ≡ true)))))))
      ⊎ ((c : ℕ) × ((s1 : S) × ((o ≡ returns c s1)
              × (((N.context_new s).0 ≡ some c)
                  × ((laws.key c s1
                        ≡ (if laws.belongs private_key cert then some private_key else none))
                      × (laws.certificate c s1 ≡ some cert))))))

  -- `ssl_init` ends the process only when no context can be made, or when the key or the certificate
  -- is refused, and then the context is freed. Otherwise the context it returns has the certificate of
  -- its file, and the key of the other file when it belongs to that certificate, and no key when it does
  -- not. The calls do what they document.
  pub ssl_init-Loads :
      (private_key cert : List ℕ) (s : S) → Loads private_key cert s (ssl_init N private_key cert s)
  unfolding ssl_init
  ssl_init-Loads private_key cert s =
      at_null (Loads private_key cert s) (N.context_new s) _ (λ bad. inl (_, (refl, inl bad)))
        (λ c new.
          at_zero (Loads private_key cert s) (N.use_key c private_key _) (N.context_free c) _
            (laws.key_result c private_key _)
            (λ bad. inl (_, (refl, inr (c, (new, (inl bad, laws.frees c _))))))
            (λ keyed.
              at_zero (Loads private_key cert s) (N.use_certificate c cert _) (N.context_free c) _
                (laws.certificate_result c cert _)
                (λ bad. inl (_, (refl, inr (c, (new, (inr bad, laws.frees c _))))))
                (λ certified.
                  let (has, kept) =
                    laws.certified c cert private_key _ certified
                      (laws.keyed c private_key _ keyed) in
                  inr (c, (_, (refl, (new, (kept, has))))))))
