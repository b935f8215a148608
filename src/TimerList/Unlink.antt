-- ===== src/TimerList/Unlink.antt =====
-- Taking a node out from between two others, as `del_timer` and `adjust_timer` do.
use linux_image_server.Base.{
  ℕ, ◌≡◌, refl, sym, ◌∙◌, subst, false, Option, none, some, List, [], ◌∷◌, ◌++◌, append_assoc, ◌==◌,
}
use linux_image_server.TimerList.{Timer, Store, put, points_to, set_next_of, set_prev_of, unlink}
use linux_image_server.TimerList.Chain.{
  Node, Absent, Away, IsAt, Chain, cons, IsTail, apart_sym, put_other, IsAt-put, IsAt-here,
  Chain-put, Chain-split, Chain-Away, Absent-behind, Absent-append,
}
use linux_image_server.TimerList.Link.{set_next_at, set_prev_at}

abbrev pub unlinked : ℕ → Timer → ℕ → Timer → Store → Store
unlinked p tp m tm h =
    put m (some (record tm { prev = some p })) (put p (some (record tp { next = some m })) h)

unlink_lem :
    (p n m : ℕ) (tp tn tm : Timer) (h : Store)
    → h p ≡ some tp
    → h n ≡ some tn
    → h m ≡ some tm
    → tn.prev ≡ some p
    → tn.next ≡ some m
    → (p == n) ≡ false
    → (p == m) ≡ false
    → unlink n h ≡ some (unlinked p tp m tm h)
unfolding unlink set_next_of set_prev_of
unlink_lem p n m tp tn tm h at_p at_n at_m pr nx pn pm =
    let h1 : Store = put p (some (record tp { next = some m })) h in
    rw at_n (
      rw pr (
        rw nx (
          rw (set_next_at p (some m) h tp at_p) (
            rw (put_other p n (some (record tp { next = some m })) h pn ∙ at_n)
              (rw pr (rw nx (set_prev_at m (some p) h1 tm (put_other p m _ h pm ∙ at_m))))))))

-- The same for a chain that begins at the node before.
record IsCut (p n m : Node) (ys : List Node) (pv hd : Option ℕ) (h g : Store) : Type 0 where
  ran : unlink n.0 h ≡ some g
  chain : Chain g pv hd (p ∷ m ∷ ys)
  outside : Absent n.0 (p ∷ m ∷ ys)
  timer : Timer
  kept : IsAt g n timer
  points : timer.next ≡ some m.0
  same : (q : ℕ) → Absent q (p ∷ n ∷ m ∷ ys) → g q ≡ h q

unlink-IsCut :
    (p n m : Node) (ys : List Node) {pv hd : Option ℕ} {h : Store}
    → Chain h pv hd (p ∷ n ∷ m ∷ ys)
    → (g : Store) × IsCut p n m ys pv hd h g
unlink-IsCut p n m ys {h = h}
      (cons {t = tp} e at_p pr self
        (cons {t = tn} e1 at_n pr_n self_n (cons {t = tm} e2 at_m pr_m self_m rest))) =
    let mp = apart_sym p.0 m.0 self.1.0 in
    (
      unlinked p.0 tp m.0 tm h,
      record {
        ran =
            unlink_lem p.0 n.0 m.0 tp tn tm h at_p.stored at_n.stored at_m.stored pr_n e2 self.0
              self.1.0;
        chain = cons e (IsAt-put m.0 _ mp (IsAt-here h at_p.handler at_p.time)) pr self.1 (
            cons refl (IsAt-here _ at_m.handler at_m.time) refl self_m
              (Chain-put ys m.0 _ self_m (Chain-put ys p.0 _ self.1.1 rest)));
        outside = (apart_sym p.0 n.0 self.0, self_n);
        timer = tn;
        kept = IsAt-put m.0 _ (apart_sym n.0 m.0 self_n.0) (IsAt-put p.0 _ self.0 at_n);
        points = e2;
        same = λ q ab.
            put_other m.0 q _ _ (apart_sym q m.0 ab.1.1.0)
            ∙ put_other p.0 q _ h (apart_sym q p.0 ab.0);
      },
    )

-- The list without the node, the store in which the node still points to the next one.
pub record IsUnlinked (xs : List Node) (p n m : Node) (ys : List Node) (hd : Option ℕ) (h g : Store)
    : Type 0 where
  pub ran : unlink n.0 h ≡ some g
  pub chain : Chain g none hd ((xs ++ p ∷ []) ++ m ∷ ys)
  pub outside : Absent n.0 ((xs ++ p ∷ []) ++ m ∷ ys)
  pub timer : Timer
  pub kept : IsAt g n timer
  pub points : timer.next ≡ some m.0

pub second_apart :
    (xs : List Node) (p n : Node) (fp : List Node) → Away xs (p ∷ n ∷ fp) → Absent n.0 xs
second_apart [] p n fp away = tt
second_apart (x ∷ xs) p n fp away = (apart_sym x.0 n.0 away.0.1.0, second_apart xs p n fp away.1)

pub unlink-IsUnlinked :
    (xs : List Node) (p n m : Node) (ys : List Node) {hd : Option ℕ} {h : Store}
    → Chain h none hd ((xs ++ p ∷ []) ++ n ∷ m ∷ ys)
    → (g : Store) × IsUnlinked xs p n m ys hd h g
unlink-IsUnlinked xs p n m ys {hd} {h} c =
    let c1 : Chain h none hd (xs ++ p ∷ n ∷ m ∷ ys) =
      subst (λ l. Chain h none hd l) (append_assoc xs (p ∷ []) (n ∷ m ∷ ys)) c in
    let away = Chain-Away xs (p ∷ n ∷ m ∷ ys) c1 in
    let (pv', (hd', (suffix, rebuild))) = Chain-split xs (p ∷ n ∷ m ∷ ys) c1 in
    let (g, cut) = unlink-IsCut p n m ys suffix in
    let joined = sym (append_assoc xs (p ∷ []) (m ∷ ys)) in
    (
      g,
      record {
        ran = cut.ran;
        chain =
            subst (λ l. Chain g none hd l) joined
              (rebuild g (p ∷ m ∷ ys) (p ∷ n ∷ m ∷ ys) away cut.same (λ q ab rest. (ab.0, ab.1.1))
                cut.chain);
        outside =
            subst (λ l. Absent n.0 l) joined
              (Absent-append n.0 xs (p ∷ m ∷ ys) (second_apart xs p n (m ∷ ys) away) cut.outside);
        timer = cut.timer;
        kept = cut.kept;
        points = cut.points;
      },
    )

pub head_apart :
    {h : Store} {pv hd : Option ℕ} (xs : List Node) (p n : Node) (ys : List Node)
    → Chain h pv hd ((xs ++ p ∷ []) ++ n ∷ ys)
    → points_to hd n.0 ≡ false
head_apart [] p n ys (cons e at_p pr self rest) = rw e self.0
head_apart (x ∷ xs) p n ys (cons e at_x pr self rest) =
    rw e (Absent-behind x.0 (xs ++ p ∷ []) (n ∷ ys) self).0

pub tail_apart :
    (tl : Option ℕ) (n m : Node) (ys : List Node)
    → Absent n.0 (m ∷ ys)
    → IsTail tl (m ∷ ys)
    → points_to tl n.0 ≡ false
tail_apart tl n m [] ab e = rw e (apart_sym n.0 m.0 ab.0)
tail_apart tl n m (y ∷ ys) ab e = tail_apart tl n y ys ab.1 e
