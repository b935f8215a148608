-- ===== src/Locker.antt =====
-- src/lock/locker.cpp: the classes `sem`, `locker` and `cond` around a semaphore, a mutex, and a
-- condition variable with a mutex of its own.
mod Tests
use linux_image_server.Base.{
  ℕ, zero, suc, ◌+◌, Bool, ◌==◌, ◌≡◌, refl, ◌∙◌, ap, ◌⊎◌, inl, inr, arith, if◌then◌else◌, true,
  false, branch,
}

-- The calls of the library of threads; 0 is success.
pub record Threads (S : Type 0) : Type 0 where
  pub sem_init : S → ℕ × S
  pub sem_destroy : S → S
  pub sem_wait : S → ℕ × S
  pub sem_post : S → ℕ × S
  pub mutex_init : S → ℕ × S
  pub mutex_destroy : S → S
  pub mutex_lock : S → ℕ × S
  pub mutex_unlock : S → ℕ × S
  pub cond_init : S → ℕ × S
  pub cond_destroy : S → S
  pub cond_wait : S → ℕ × S
  pub cond_signal : S → ℕ × S

-- A constructor gives an object or throws std::exception.
pub data Made (S : Type 0) : Type 0 where
  thrown : S → Made S
  made : S → Made S

module _ {S : Type 0} where
  abbrev succeeded : ℕ × S → Bool × S
  succeeded (n, s) = (n == 0, s)

  abbrev pub or_throw : ℕ × S → (S → S) → (S → Made S) → Made S
  or_throw (n, s) tidy f = if n == 0 then f s else thrown (tidy s)

module _ {S : Type 0} (T : Threads S) where
  unfoldable pub create_sem : S → Made S
  create_sem s = or_throw (T.sem_init s) (λ t. t) made

  unfoldable pub destroy_sem : S → S
  destroy_sem s = T.sem_destroy s

  unfoldable pub wait_sem : S → Bool × S
  wait_sem s = succeeded (T.sem_wait s)

  unfoldable pub post_sem : S → Bool × S
  post_sem s = succeeded (T.sem_post s)

  unfoldable pub create_locker : S → Made S
  create_locker s = or_throw (T.mutex_init s) (λ t. t) made

  unfoldable pub destroy_locker : S → S
  destroy_locker s = T.mutex_destroy s

  unfoldable pub lock : S → Bool × S
  lock s = succeeded (T.mutex_lock s)

  unfoldable pub unlock : S → Bool × S
  unlock s = succeeded (T.mutex_unlock s)

  unfoldable pub create_cond : S → Made S
  create_cond s =
      or_throw (T.mutex_init s) (λ t. t) (λ s1. or_throw (T.cond_init s1) T.mutex_destroy made)

  unfoldable pub destroy_cond : S → S
  destroy_cond s = T.cond_destroy (T.mutex_destroy s)

  unfoldable pub wait_cond : S → Bool × S
  wait_cond s = let (n, s1) = T.cond_wait (T.mutex_lock s).1 in (n == 0, (T.mutex_unlock s1).1)

  unfoldable pub signal_cond : S → Bool × S
  signal_cond s = succeeded (T.cond_signal s)

-- The mutexes and the condition variables that are alive.
pub record IsThreads {S : Type 0} (T : Threads S) : Type 0 where
  pub mutexes : S → ℕ
  pub conds : S → ℕ
  pub mutex_made :
      (s : S)
      → (conds (T.mutex_init s).1 ≡ conds s)
        × (mutexes (T.mutex_init s).1
            ≡ (if (T.mutex_init s).0 == 0 then suc (mutexes s) else mutexes s))
  pub cond_made :
      (s : S)
      → (mutexes (T.cond_init s).1 ≡ mutexes s)
        × (conds (T.cond_init s).1 ≡ (if (T.cond_init s).0 == 0 then suc (conds s) else conds s))
  pub mutex_gone :
      (s : S) (n : ℕ)
      → mutexes s ≡ suc n
      → (mutexes (T.mutex_destroy s) ≡ n) × (conds (T.mutex_destroy s) ≡ conds s)
  pub cond_gone :
      (s : S) (n : ℕ)
      → conds s ≡ suc n
      → (conds (T.cond_destroy s) ≡ n) × (mutexes (T.cond_destroy s) ≡ mutexes s)

counted : (n : ℕ) (b : Bool) → b ≡ true → (if b then suc n else n) ≡ suc n
counted n b e = rw e refl

kept : (n : ℕ) (b : Bool) → b ≡ false → (if b then suc n else n) ≡ n
kept n b e = rw e refl

module _ {S : Type 0} (T : Threads S) (laws : IsThreads T) where
  -- The two counts are the given ones.
  abbrev pub Alive : ℕ → ℕ → S → Type 0
  Alive m c s = (laws.mutexes s ≡ m) × (laws.conds s ≡ c)

  -- How the constructor of `cond` ends.
  abbrev pub Creates : S → Made S → Type 0
  Creates s o =
      ((s1 : S) × ((o ≡ thrown s1) × Alive (laws.mutexes s) (laws.conds s) s1))
      ⊎ ((s1 : S) × ((o ≡ made s1)
            × (Alive (suc (laws.mutexes s)) (suc (laws.conds s)) s1
                × Alive (laws.mutexes s) (laws.conds s) (destroy_cond T s1))))

  pub or_throw-cases :
      (P : Made S → Type 0) (r : ℕ × S) (tidy : S → S) (f : S → Made S)
      → ((r.0 == 0) ≡ true → P (f r.1))
      → ((r.0 == 0) ≡ false → P (thrown (tidy r.1)))
      → P (or_throw r tidy f)
  or_throw-cases P (n, s) tidy f good bad = branch P (n == 0) (f s) (thrown (tidy s)) good bad

  -- The constructor of `cond` throws with no more mutexes or condition variables alive than before,
  -- or gives an object with one of each, which its destructor releases. The calls do what they
  -- document.
  pub create_cond-releases : (s : S) → Creates s (create_cond T s)
  unfolding create_cond destroy_cond
  create_cond-releases s =
      let P = Creates s in
      let (c1, m1) = laws.mutex_made s in
      or_throw-cases P (T.mutex_init s) (λ t. t)
        (λ t. or_throw (T.cond_init t) T.mutex_destroy made)
        (λ ok.
          let m1' : laws.mutexes (T.mutex_init s).1 ≡ suc (laws.mutexes s) =
            m1 ∙ counted (laws.mutexes s) _ ok in
          let (m2, c2) = laws.cond_made (T.mutex_init s).1 in
          or_throw-cases P (T.cond_init (T.mutex_init s).1) T.mutex_destroy made
            (λ ok'.
              let s2 = (T.cond_init (T.mutex_init s).1).1 in
              let mutex : laws.mutexes s2 ≡ suc (laws.mutexes s) = m2 ∙ m1' in
              let cond : laws.conds s2 ≡ suc (laws.conds s) =
                c2 ∙ counted (laws.conds (T.mutex_init s).1) _ ok' ∙ ap suc c1 in
              let (m3, c3) = laws.mutex_gone s2 (laws.mutexes s) mutex in
              let (c4, m4) = laws.cond_gone (T.mutex_destroy s2) (laws.conds s) (c3 ∙ cond) in
              inr (s2, (refl, ((mutex, cond), (m4 ∙ m3, c4)))))
            (λ bad.
              let s2 = (T.cond_init (T.mutex_init s).1).1 in
              let (m3, c3) = laws.mutex_gone s2 (laws.mutexes s) (m2 ∙ m1') in
              inl (
                T.mutex_destroy s2,
                (refl, (m3, c3 ∙ c2 ∙ kept (laws.conds (T.mutex_init s).1) _ bad ∙ c1)),
              )))
        (λ bad. inl ((T.mutex_init s).1, (refl, (m1 ∙ kept (laws.mutexes s) _ bad, c1))))
