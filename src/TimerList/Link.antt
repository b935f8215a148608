-- ===== src/TimerList/Link.antt =====
-- What the writes of `_add_timer` do to the store.
use linux_image_server.Base.{ℕ, ◌≡◌, refl, ◌∙◌, false, Option, none, some, ◌==◌}
use linux_image_server.TimerList.{Timer, Store, put, set_prev, set_next, link_between, link_last}
use linux_image_server.TimerList.Chain.{put_other, put_same, apart_sym}

pub set_next_at :
    (a : ℕ) (n : Option ℕ) (h : Store) (t : Timer)
    → h a ≡ some t
    → set_next a n h ≡ some (put a (some (record t { next = n })) h)
unfolding set_next
set_next_at a n h t e = rw e refl

pub set_prev_at :
    (a : ℕ) (p : Option ℕ) (h : Store) (t : Timer)
    → h a ≡ some t
    → set_prev a p h ≡ some (put a (some (record t { prev = p })) h)
unfolding set_prev
set_prev_at a p h t e = rw e refl

-- The store after the writes of `link_last` and of `link_between`.
abbrev pub last_linked : ℕ → Timer → ℕ → Timer → Store → Store
last_linked p tp a ta h =
    put a (some (record ta { prev = some p; next = none }))
      (put a (some (record ta { prev = some p })) (put p (some (record tp { next = some a })) h))

pub link_last_lem :
    (p a : ℕ) (tp ta : Timer) (h : Store)
    → h p ≡ some tp
    → h a ≡ some ta
    → (p == a) ≡ false
    → link_last p a h ≡ some (last_linked p tp a ta h)
unfolding link_last
link_last_lem p a tp ta h at_p at_a apart =
    let h1 : Store = put p (some (record tp { next = some a })) h in
    let h2 : Store = put a (some (record ta { prev = some p })) h1 in
    rw (set_next_at p (some a) h tp at_p) (
      rw (set_prev_at a (some p) h1 ta (put_other p a _ h apart ∙ at_a))
        (set_next_at a none h2 (record ta { prev = some p }) (put_same a _ h1)))

abbrev pub between_linked : ℕ → Timer → ℕ → Timer → ℕ → Timer → Store → Store
between_linked p tp a ta b tb h = put a (some (record ta { next = some b; prev = some p })) (
    put b (some (record tb { prev = some a }))
      (put a (some (record ta { next = some b })) (put p (some (record tp { next = some a })) h)))

pub link_between_lem :
    (p a b : ℕ) (tp ta tb : Timer) (h : Store)
    → h p ≡ some tp
    → h a ≡ some ta
    → h b ≡ some tb
    → (p == a) ≡ false
    → (p == b) ≡ false
    → (a == b) ≡ false
    → link_between p a b h ≡ some (between_linked p tp a ta b tb h)
unfolding link_between
link_between_lem p a b tp ta tb h at_p at_a at_b pa pb ab =
    let h1 : Store = put p (some (record tp { next = some a })) h in
    let h2 : Store = put a (some (record ta { next = some b })) h1 in
    let h3 : Store = put b (some (record tb { prev = some a })) h2 in
    rw (set_next_at p (some a) h tp at_p) (
      rw (set_next_at a (some b) h1 ta (put_other p a _ h pa ∙ at_a)) (
        rw (set_prev_at b (some a) h2 tb (put_other a b _ h1 ab ∙ put_other p b _ h pb ∙ at_b)) (
          set_prev_at a (some p) h3 (record ta { next = some b })
            (put_other b a _ h2 (apart_sym a b ab) ∙ put_same a _ h1))))
