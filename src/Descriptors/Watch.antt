-- ===== src/Descriptors/Watch.antt =====
-- What `add_fd` and `mod_fd` leave in the list of epoll.
use Prim.Native.Nat.{bit_or, max}
use linux_image_server.Base.{
  ℕ, Bool, true, false, Bool-cases, subst, Option, none, some, ◌≡◌, refl, ◌∙◌, sym, ap, ◌⊎◌, inl,
  inr, if◌then◌else◌, ◌>>=◌,
}
use linux_image_server.CString.Decimal.{pos}
use linux_image_server.Bits.{bit}
use linux_image_server.Descriptors.{
  Kernel, o_nonblock, epollin, add_fd, mod_fd, events_for, rearmed, prepared, or_exit,
}
use linux_image_server.Descriptors.Flags.{
  IsKernel, IsFailed, HasTurned, Result-cases, or_exit-pos, or_exit-negsuc, set_fl-turns_on,
}

-- The digits of the events, for each way to add a descriptor.
events_for-digits :
    (one_shot lt : Bool)
    → (bit 0 (events_for one_shot lt) ≡ 1)
      × ((bit 2 (events_for one_shot lt) ≡ 0)
          × ((bit 13 (events_for one_shot lt) ≡ 1)
              × ((bit 30 (events_for one_shot lt) ≡ (if one_shot then 1 else 0))
                  × (bit 31 (events_for one_shot lt) ≡ (if lt then 0 else 1)))))
unfolding bit events_for
events_for-digits true true = (refl, (refl, (refl, (refl, refl))))
events_for-digits true false = (refl, (refl, (refl, (refl, refl))))
events_for-digits false true = (refl, (refl, (refl, (refl, refl))))
events_for-digits false false = (refl, (refl, (refl, (refl, refl))))

module _ {S : Type 0} (K : Kernel S) (laws : IsKernel K) (epollfd fd : ℕ) (one_shot lt : Bool)
    (s : S) where
  -- The events that are watched for, and the flags.
  pub record IsRegistered (s1 : S) : Type 0 where
    pub events : ℕ
    pub watching : laws.watched epollfd fd s1 ≡ some events
    pub readable : bit 0 events ≡ 1
    pub not_writable : bit 2 events ≡ 0
    pub peer_closed : bit 13 events ≡ 1
    pub once : bit 30 events ≡ (if one_shot then 1 else 0)
    pub edge : bit 31 events ≡ (if lt then 0 else 1)
    pub mode :
        ((lt ≡ true) × (K.get_flags fd s1 ≡ K.get_flags fd s))
        ⊎ ((lt ≡ false) × HasTurned K fd s s1 (λ k b b'. b' ≡ max b (bit k o_nonblock)))

  -- One of the calls of `add_fd` failed.
  abbrev pub IsRefused : Type 0
  IsRefused =
      IsFailed (K.get_flags fd s)
      ⊎ (((m : ℕ) × IsFailed (K.set_flags fd (bit_or m o_nonblock) s).0)
          ⊎ ((s0 : S) × IsFailed (K.add_watch epollfd fd (events_for one_shot lt) s0).0))

  abbrev Registers : Option S → Type 0
  Registers o = ((o ≡ none) × IsRefused) ⊎ ((s1 : S) × ((o ≡ some s1) × IsRegistered s1))

  watched_after :
      (s0 : S)
      → ((lt ≡ true) × (K.get_flags fd s0 ≡ K.get_flags fd s))
        ⊎ ((lt ≡ false) × HasTurned K fd s s0 (λ k b b'. b' ≡ max b (bit k o_nonblock)))
      → Registers (or_exit (K.add_watch epollfd fd (events_for one_shot lt) s0))
  watched_after s0 mode =
      let ev = events_for one_shot lt in
      elim (Result-cases (K.add_watch epollfd fd ev s0).0)
        as (λ x. Registers (or_exit (K.add_watch epollfd fd ev s0))) [
          | inr (n, bad) ↦ inl (or_exit-negsuc _ n bad, inr (inr (s0, (n, bad))))
          | inl (n, done) ↦
              let (is, same) = laws.added epollfd fd ev n s0 done in
              let (d0, (d2, (d13, (d30, d31)))) = events_for-digits one_shot lt in
              inr (
                (K.add_watch epollfd fd ev s0).1,
                (
                  or_exit-pos _ n done,
                  record {
                    events = ev;
                    watching = is;
                    readable = d0;
                    not_writable = d2;
                    peer_closed = d13;
                    once = d30;
                    edge = d31;
                    mode = elim mode [
                      | inl (e, kept) ↦ inl (e, same ∙ kept)
                      | inr (e, (m, (m', (was, (now, digits))))) ↦
                          inr (e, (m, (m', (was, (same ∙ now, digits)))))
                    ];
                  },
                ),
              )
        ]

  adds :
      (s0 : S)
      → prepared K lt fd s ≡ some s0
      → add_fd K epollfd fd one_shot lt s
        ≡ or_exit (K.add_watch epollfd fd (events_for one_shot lt) s0)
  unfolding add_fd
  adds s0 e = ap (λ o. o >>= (λ s1. or_exit (K.add_watch epollfd fd (events_for one_shot lt) s1))) e

  exits : prepared K lt fd s ≡ none → add_fd K epollfd fd one_shot lt s ≡ none
  unfolding add_fd
  exits e = ap (λ o. o >>= (λ s1. or_exit (K.add_watch epollfd fd (events_for one_shot lt) s1))) e

  -- `add_fd` exits when one of its calls failed. Otherwise epoll watches the descriptor for input and
  -- for the end of the peer, not for output, edge-triggered unless LT is asked for and once if
  -- one_shot is, and without LT the descriptor has O_NONBLOCK, its other flags being kept; with LT
  -- its flags are kept. The kernel's calls do what they document.
  pub add_fd-registers :
      ((add_fd K epollfd fd one_shot lt s ≡ none) × IsRefused)
      ⊎ ((s1 : S) × ((add_fd K epollfd fd one_shot lt s ≡ some s1) × IsRegistered s1))
  unfolding prepared
  add_fd-registers = elim (Bool-cases lt) [
    | inl level ↦
        subst Registers (sym (adds s (ap (λ b. prepared K b fd s) level)))
          (watched_after s (inl (level, refl)))
    | inr edge ↦
        let same = ap (λ b. prepared K b fd s) edge in
        elim (set_fl-turns_on K laws fd o_nonblock s refl) [
          | inl (stops, inl bad) ↦ inl (exits (same ∙ stops), inl bad)
          | inl (stops, inr bad) ↦ inl (exits (same ∙ stops), inr (inl bad))
          | inr (s0, (ran, turned)) ↦
              subst Registers (sym (adds s0 (same ∙ ran))) (watched_after s0 (inr (edge, turned)))
        ]
  ]

  -- `mod_fd` with EPOLLIN leaves the events that `add_fd` with one_shot and without LT gave, which
  -- EPOLLONESHOT has disabled in between.
  pub mod_fd-add_fd :
      (n : ℕ)
      → (K.mod_watch epollfd fd (rearmed epollin) s).0 ≡ pos n
      → laws.watched epollfd fd (mod_fd K epollfd fd epollin s) ≡ some (events_for true false)
  unfolding mod_fd events_for
  mod_fd-add_fd n done = laws.changed epollfd fd (rearmed epollin) n s done
