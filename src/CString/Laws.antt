-- ===== src/CString/Laws.antt =====
-- Laws of the byte arrays and searches of CString.
use linux_image_server.Base.{
  replicate, ℕ, zero, suc, ◌+◌, ◌≤◌, ◌<◌, ◌≡◌, refl, ap, ◌≢◌, ◌∙◌, set, none, some, List, [], ◌∷◌,
  ◌++◌, arith, le→leb, length, take, drop, get_or,
}
use linux_image_server.Base.{Option-cases, inl, inr}
use linux_image_server.CString.{cstr, index_of, overlay, splice, store}

pub length-overlay : (bs buf : List ℕ) → length (overlay bs buf) ≡ length buf
unfolding overlay
length-overlay [] buf = refl
length-overlay (b ∷ bs) [] = refl
length-overlay (b ∷ bs) (x ∷ buf) = ap suc (length-overlay bs buf)

pub length-splice : (off : ℕ) (bs buf : List ℕ) → length (splice off bs buf) ≡ length buf
unfolding splice
length-splice zero bs buf = length-overlay bs buf
length-splice (suc n) bs [] = refl
length-splice (suc n) bs (x ∷ buf) = ap suc (length-splice n bs buf)

take-overlay :
    (n : ℕ) (bs rest buf : List ℕ)
    → n ≡ length bs
    → length bs ≤ length buf
    → take n (overlay (bs ++ rest) buf) ≡ bs
unfolding overlay
take-overlay zero [] rest buf e h = refl
take-overlay (suc n) [] rest buf e h = absurd (omega arith)
take-overlay zero (b ∷ bs) rest buf e h = absurd (omega arith)
take-overlay (suc n) (b ∷ bs) rest [] e h = absurd (omega arith)
take-overlay (suc n) (b ∷ bs) rest (x ∷ buf) e h =
    ap (◌∷◌ b) (take-overlay n bs rest buf (omega arith) (omega arith))

-- The array up to the end of what was written is the old array up to the offset, and the bytes.
pub take-splice :
    (off n : ℕ) (bs rest buf : List ℕ)
    → n ≡ off + length bs
    → off + length bs ≤ length buf
    → take n (splice off (bs ++ rest) buf) ≡ take off buf ++ bs
unfolding splice
take-splice zero n bs rest buf e h = take-overlay n bs rest buf (omega arith) (omega arith)
take-splice (suc off) zero bs rest buf e h = absurd (omega arith)
take-splice (suc off) (suc n) bs rest [] e h = absurd (omega arith)
take-splice (suc off) (suc n) bs rest (x ∷ buf) e h =
    ap (◌∷◌ x) (take-splice off n bs rest buf (omega arith) (omega arith))

-- What stands before the offset is left alone.
pub take-splice_before :
    (n off : ℕ) (bs buf : List ℕ) → n ≤ off → take n (splice off bs buf) ≡ take n buf
unfolding splice
take-splice_before zero off bs buf h = refl
take-splice_before (suc n) zero bs buf h = absurd (omega arith)
take-splice_before (suc n) (suc off) bs [] h = refl
take-splice_before (suc n) (suc off) bs (x ∷ buf) h =
    ap (◌∷◌ x) (take-splice_before n off bs buf (omega arith))

-- What stands behind the written bytes is left alone.
drop-overlay : (n : ℕ) (bs buf : List ℕ) → length bs ≤ n → drop n (overlay bs buf) ≡ drop n buf
unfolding overlay
drop-overlay n [] buf h = refl
drop-overlay n (b ∷ bs) [] h = refl
drop-overlay zero (b ∷ bs) (x ∷ buf) h = absurd (omega arith)
drop-overlay (suc n) (b ∷ bs) (x ∷ buf) h = drop-overlay n bs buf (omega arith)

pub drop-splice :
    (off n : ℕ) (bs buf : List ℕ) → off + length bs ≤ n → drop n (splice off bs buf) ≡ drop n buf
unfolding splice
drop-splice zero n bs buf h = drop-overlay n bs buf (omega arith)
drop-splice (suc off) zero bs buf h = absurd (omega arith)
drop-splice (suc off) (suc n) bs [] h = refl
drop-splice (suc off) (suc n) bs (x ∷ buf) h = drop-splice off n bs buf (omega arith)

pub drop-splice_at :
    (off : ℕ) (bs buf : List ℕ) → drop off (splice off bs buf) ≡ overlay bs (drop off buf)
unfolding splice overlay
drop-splice_at zero bs buf = refl
drop-splice_at (suc off) [] [] = refl
drop-splice_at (suc off) (b ∷ bs) [] = refl
drop-splice_at (suc off) bs (x ∷ buf) = drop-splice_at off bs buf

-- A string laid over an array with its NUL is read back.
abbrev pub NoNul : List ℕ → Type 0
NoNul [] = Unit {0}
NoNul (b ∷ bs) = (0 < b) × NoNul bs

pub cstr-overlay :
    (s rest buf : List ℕ) → NoNul s → length s < length buf → cstr (overlay (s ++ 0 ∷ rest) buf) ≡ s
unfolding cstr overlay
cstr-overlay [] rest [] p h = absurd (omega arith)
cstr-overlay [] rest (x ∷ buf) p h = refl
cstr-overlay (b ∷ s) rest [] p h = absurd (omega arith)
cstr-overlay (b ∷ s) rest (x ∷ buf) p h = ground (arith, cstr-overlay s rest buf p.1 (omega arith))

pub cstr-append_nul : (s rest : List ℕ) → NoNul s → cstr (s ++ 0 ∷ rest) ≡ s
unfolding cstr
cstr-append_nul [] rest p = refl
cstr-append_nul (b ∷ s) rest p = ground (arith, cstr-append_nul s rest p.1)

-- The first occurrence of a byte splits a string.
abbrev pub Lacks : ℕ → List ℕ → Type 0
Lacks c [] = Unit {0}
Lacks c (b ∷ bs) = (b ≢ c) × Lacks c bs

pub index_of-append :
    (c : ℕ) (s rest : List ℕ) → Lacks c s → index_of c (s ++ c ∷ rest) ≡ some (length s)
unfolding index_of
index_of-append c [] rest p = ground arith
index_of-append c (b ∷ s) rest p = ground (arith, index_of-append c s rest p.1)

pub index_of-Lacks : (c : ℕ) (s : List ℕ) → Lacks c s → index_of c s ≡ none
unfolding index_of
index_of-Lacks c [] p = refl
index_of-Lacks c (b ∷ s) p = ground (arith, index_of-Lacks c s p.1)

pub index_of-lt : (c : ℕ) (s : List ℕ) {i : ℕ} → index_of c s ≡ some i → i < length s
unfolding index_of
index_of-lt c [] h = cc
index_of-lt c (b ∷ s) h = elim (Option-cases (index_of c s)) [
  | inl e ↦ ground arith
  | inr (j, e) ↦ ground (arith, index_of-lt c s e)
]

pub store-some :
    (off : ℕ) (bs buf : List ℕ)
    → off + length bs ≤ length buf
    → store off bs buf ≡ some (splice off bs buf)
unfolding store
store-some off bs buf h = rw (le→leb _ _ h)

pub drop-drop : (a b n : ℕ) (xs : List ℕ) → n ≡ a + b → drop n xs ≡ drop b (drop a xs)
drop-drop zero b n xs e = ap (λ k. drop k xs) (omega arith)
drop-drop (suc a) b zero xs e = absurd (omega arith)
drop-drop (suc a) zero (suc n) [] e = refl
drop-drop (suc a) (suc b) (suc n) [] e = refl
drop-drop (suc a) b (suc n) (x ∷ xs) e = drop-drop a b n xs (omega arith)

pub drop-append_cons : (s t : List ℕ) (c n : ℕ) → n ≡ length s + 1 → drop n (s ++ c ∷ t) ≡ t
drop-append_cons [] t c zero e = absurd (omega arith)
drop-append_cons [] t c (suc n) e = let z : n ≡ 0 = omega arith in ap (λ k. drop k t) z
drop-append_cons (b ∷ s) t c zero e = absurd (omega arith)
drop-append_cons (b ∷ s) t c (suc n) e = drop-append_cons s t c n (omega arith)

-- Behind a text and one more byte.
pub drop-behind :
    (i : ℕ) (buf s t : List ℕ) (c : ℕ) → drop i buf ≡ s ++ c ∷ t → drop (i + length s + 1) buf ≡ t
drop-behind i buf s t c e =
    drop-drop i (length s + 1) (i + length s + 1) buf (omega arith)
    ∙ ap (drop (length s + 1)) e
    ∙ drop-append_cons s t c (length s + 1) refl

pub set-append : (s t : List ℕ) (c v : ℕ) → set (s ++ c ∷ t) (length s) v ≡ s ++ v ∷ t
set-append [] t c v = refl
set-append (b ∷ s) t c v = ap (◌∷◌ b) (set-append s t c v)

pub get_or-drop : (i : ℕ) (xs : List ℕ) (c : ℕ) (t : List ℕ) → drop i xs ≡ c ∷ t → get_or xs i 0 ≡ c
get_or-drop zero [] c t e = cc
get_or-drop zero (x ∷ xs) c t e = cc
get_or-drop (suc i) [] c t e = cc
get_or-drop (suc i) (x ∷ xs) c t e = get_or-drop i xs c t e

-- Bytes laid over zeros have a NUL behind them.
pub overlay-zeros :
    (n : ℕ) (s : List ℕ)
    → length s < n
    → overlay (s ++ 0 ∷ []) (replicate n 0) ≡ overlay s (replicate n 0)
unfolding overlay
overlay-zeros zero s h = absurd (omega arith)
overlay-zeros (suc n) [] h = refl
overlay-zeros (suc n) (b ∷ s) h = ap (λ k. b ∷ k) (overlay-zeros n s (omega arith))
