-- ===== src/Log/Callers/Out.antt =====
-- Taking one line out of where it stands, and what a push and a line for the file do.
use mathlib.Core.List.{Perm, perm_middle}
use mathlib.Core.List.Perm
use linux_image_server.Base.{
  ℕ, suc, ◌+◌, ◌≤◌, ◌<◌, ◌≡◌, refl, sym, arith, subst, Bool, true, false, not, ◌&&◌, Bool-cases,
  ◌⊎◌, inl, inr, Option, none, some, List, [], ◌∷◌, ◌++◌, map, length, length-append, append_assoc,
  leb, through,
}
use linux_image_server.BlockQueue.{Ring, full, push}
use linux_image_server.Log.{Log, put_line}
use linux_image_server.Log.Saves.{one_more}

module _ {A : Type 0} where
  pub deeper :
      {xs ys : List A} {x : A} (zs : List A) → Perm xs (x ∷ ys) → Perm (zs ++ xs) (x ∷ (zs ++ ys))
  deeper zs p = Perm.trans (Perm.append_left zs p) (perm_middle zs _)

  pub out_of :
      (before : List A) (x : A) (behind rest : List A)
      → Perm ((before ++ x ∷ behind) ++ rest) (x ∷ ((before ++ behind) ++ rest))
  out_of before x behind rest = Perm.append_right rest (perm_middle before behind)

  -- The same element taken out of two lists.
  pub swapped :
      {xs ys zs logged : List A} {x : A}
      → Perm xs logged
      → Perm xs (x ∷ zs)
      → Perm ys (x ∷ zs)
      → Perm ys logged
  swapped k p r = Perm.trans r (Perm.trans (Perm.symm p) k)

  pub length-out_of :
      (before : List A) (x : A) (behind : List A)
      → length (before ++ x ∷ behind) ≡ suc (length (before ++ behind))
  length-out_of before x behind =
      omega (arith, length-append before (x ∷ behind), length-append before behind)

pub push-cases :
    (q : Ring (List ℕ)) (x : List ℕ)
    → ((full q ≡ true) × ((push q x).0 ≡ false) × ((push q x).1 ≡ q))
      ⊎ ((full q ≡ false)
          × ((push q x).0 ≡ true)
          × ((push q x).1.size ≡ q.size + 1)
          × ((push q x).1.max_size ≡ q.max_size))
unfolding full push
push-cases q x = elim (Bool-cases (leb q.max_size q.size)) [
  | inl e ↦ rw e (inl (refl, refl, refl))
  | inr e ↦ rw e (inr (refl, refl, refl, refl))
]

pub full-filled : (q : Ring (List ℕ)) → full q ≡ true → q.max_size ≤ q.size
unfolding full
full-filled q e = ground arith

pub full-room : (q : Ring (List ℕ)) → full q ≡ false → q.size < q.max_size
unfolding full
full-room q e = ground arith

pub not_full : (a f : Bool) → (a && not f) ≡ true → f ≡ false
not_full true true e = sym e
not_full true false e = refl
not_full false f e = absurd (ground arith)

unfoldable pub Puts : List ℕ → Log → Option Log → Type 0
Puts line l none = Unit {0}
Puts line l (some l') =
    (map (λ p. p.1) l'.lines ≡ map (λ p. p.1) l.lines ++ line ∷ [])
    × ((l'.log_queue ≡ l.log_queue) × (l'.is_async ≡ l.is_async))

pub put_line-Puts : (line : List ℕ) (l : Log) → Puts line l (put_line line l)
unfolding put_line Puts
put_line-Puts line l =
    through (Puts line l) l.file _ tt (λ f e. (one_more l.lines f line, (refl, refl)))

-- A line that is put is saved, whatever stands behind.
pub put-Perm :
    (ml cs : List (List ℕ)) (line : List ℕ) (rest : List (List ℕ))
    → Perm (((ml ++ line ∷ []) ++ cs) ++ rest) (line ∷ ((ml ++ cs) ++ rest))
put-Perm ml cs line rest = Perm.append_right rest (
    subst (λ xs. Perm xs (line ∷ (ml ++ cs))) (sym (append_assoc ml (line ∷ []) cs))
      (perm_middle ml cs))
