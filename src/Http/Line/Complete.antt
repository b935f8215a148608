-- ===== src/Http/Line/Complete.antt =====
-- `parse_line_`: how far it moves, and what it makes of a whole line.
use linux_image_server.Base.{
  ℕ, zero, suc, ◌+◌, ◌≤◌, ◌<◌, ◌≡◌, refl, ap, ap₂, ◌∙◌, inl, inr, Option, none, some, List, [], ◌∷◌,
  ◌++◌, arith, length, length-set, length-drop, drop, set, lt→ltb, ◌==◌, ==_iff, Bool-cases,
}
use linux_image_server.CString.{strchr, cstr, index_of}
use linux_image_server.CString.Laws.{index_of-lt, Lacks, NoNul}
use linux_image_server.Http.Types.{Parser, line_ok}
use linux_image_server.Http.Line.{within, line_end, line_cases, parse_line}

-- `q` looks at the same buffer from the same place.
pub record Keeps (p q : Parser) : Type 0 where
  pub place : q.checked_idx ≡ p.checked_idx
  pub size : length q.read_buf ≡ length p.read_buf

-- `q` has gone on inside the buffer.
pub record Advances (p q : Parser) : Type 0 where
  pub further : p.checked_idx < q.checked_idx
  pub inside : q.checked_idx ≤ length q.read_buf
  pub size : length q.read_buf ≡ length p.read_buf

length-cstr-le : (bs : List ℕ) → length (cstr bs) ≤ length bs
unfolding cstr
length-cstr-le [] = omega arith
length-cstr-le (b ∷ bs) = ground (arith, length-cstr-le bs)

strchr-lt : (c : ℕ) (bs : List ℕ) {i : ℕ} → strchr c bs ≡ some i → i < length bs
unfolding strchr
strchr-lt c bs e = omega (arith, index_of-lt c (cstr bs) e, length-cstr-le bs)

within-some : (n : ℕ) (o : Option ℕ) {i : ℕ} → within n o ≡ some i → (o ≡ some i) × (i < n)
unfolding within
within-some n none e = cc
within-some n (some j) e = ground arith

line_end-Advances :
    (p : Parser) (r n : ℕ)
    → p.checked_idx + n < length p.read_buf
    → (line_end p r n).0 ≡ line_ok
    → Advances p (line_end p r n).1
unfolding line_end
line_end-Advances p r n h = elim (Bool-cases (r + 1 == n)) [
  | inl y ↦ rw y λ e. record { further = omega arith; inside = omega (arith, size); size = size }
  | inr x ↦ rw x λ e. absurd (cc)
]
  where
    size :
        length (set (set p.read_buf (p.checked_idx + r) 0) (p.checked_idx + n) 0)
        ≡ length p.read_buf
    size =
        length-set (set p.read_buf (p.checked_idx + r) 0) (p.checked_idx + n) 0
        ∙ length-set p.read_buf (p.checked_idx + r) 0

line_cases-Advances :
    (p : Parser) (r n : Option ℕ)
    → ((k : ℕ) → n ≡ some k → p.checked_idx + k < length p.read_buf)
    → (line_cases p r n).0 ≡ line_ok
    → Advances p (line_cases p r n).1
unfolding line_cases
line_cases-Advances p (some r) (some n) h = line_end-Advances p r n (h n refl)
line_cases-Advances p none (some n) h = λ e. absurd (cc)
line_cases-Advances p (some r) none h = λ e. absurd (ground arith)
line_cases-Advances p none none h = λ e. absurd (cc)

-- A whole line moves `m_checked_idx` forward and leaves it inside the buffer, whose size it keeps.
pub parse_line-Advances : (p : Parser) → (parse_line p).0 ≡ line_ok → Advances p (parse_line p).1
unfolding parse_line
parse_line-Advances p =
    let str = drop p.checked_idx p.read_buf in
    line_cases-Advances p (within p.read_idx (strchr b'\r' str))
      (within p.read_idx (strchr b'\n' str))
      λ k e. omega (
        arith,
        strchr-lt b'\n' str (within-some p.read_idx (strchr b'\n' str) e).0,
        length-drop p.checked_idx p.read_buf,
      )

-- A text with none of the three bytes that end a line.
abbrev pub IsLine : List ℕ → Type 0
IsLine s = Lacks b'\r' s × Lacks b'\n' s × NoNul s

cstr-line : (s rest : List ℕ) → NoNul s → cstr (s ++ rest) ≡ s ++ cstr rest
unfolding cstr
cstr-line [] rest h = refl
cstr-line (b ∷ s) rest h = ground (arith, cstr-line s rest h.1)

index_of-skip :
    (c : ℕ) (s t : List ℕ) {k : ℕ}
    → Lacks c s
    → index_of c t ≡ some k
    → index_of c (s ++ t) ≡ some (length s + k)
unfolding index_of
index_of-skip c [] t {k} h e = e ∙ ap some (omega arith)
index_of-skip c (b ∷ s) t {k} h e = ground (arith, index_of-skip c s t h.1 e)

-- A byte behind a text that lacks it and holds no NUL is found.
pub strchr-skip :
    (c : ℕ) (s t : List ℕ) {k : ℕ}
    → NoNul s
    → Lacks c s
    → strchr c t ≡ some k
    → strchr c (s ++ t) ≡ some (length s + k)
unfolding strchr
strchr-skip c s t h l e = ap (index_of c) (cstr-line s t h) ∙ index_of-skip c s (cstr t) l e

strchr-return : (rest : List ℕ) → strchr b'\r' (b'\r' ∷ b'\n' ∷ rest) ≡ some 0
unfolding strchr cstr index_of
strchr-return rest = refl

strchr-newline : (rest : List ℕ) → strchr b'\n' (b'\r' ∷ b'\n' ∷ rest) ≡ some 1
unfolding strchr cstr index_of
strchr-newline rest = refl

pub drop-set : (n j i v : ℕ) (xs : List ℕ) → j ≡ n + i → drop n (set xs j v) ≡ set (drop n xs) i v
drop-set zero j i v xs e = ap (λ k. set xs k v) (omega arith)
drop-set (suc n) zero i v xs e = absurd (omega arith)
drop-set (suc n) (suc j) i v [] e = refl
drop-set (suc n) (suc j) i v (x ∷ xs) e = drop-set n j i v xs (omega arith)

set-line :
    (s rest : List ℕ) (i j : ℕ)
    → i ≡ length s
    → j ≡ length s + 1
    → set (set (s ++ b'\r' ∷ b'\n' ∷ rest) i 0) j 0 ≡ s ++ 0 ∷ 0 ∷ rest
set-line [] rest zero zero e f = absurd (omega arith)
set-line [] rest zero (suc zero) e f = refl
set-line [] rest zero (suc (suc j)) e f = absurd (omega arith)
set-line [] rest (suc i) j e f = absurd (omega arith)
set-line (b ∷ s) rest zero j e f = absurd (omega arith)
set-line (b ∷ s) rest (suc i) zero e f = absurd (omega arith)
set-line (b ∷ s) rest (suc i) (suc j) e f =
    ap (◌∷◌ b) (set-line s rest i j (omega arith) (omega arith))

within-lt : (n i : ℕ) → i < n → within n (some i) ≡ some i
unfolding within
within-lt n i h = rw (lt→ltb i n h)

abbrev cut : Parser → ℕ → Parser
cut p n = record p {
  checked_idx = p.checked_idx + (n + 1 + 1);
  read_buf = set (set p.read_buf (p.checked_idx + n) 0) (p.checked_idx + (n + 1)) 0;
}

line_end-cut : (p : Parser) (n : ℕ) → line_end p n (n + 1) ≡ (line_ok, cut p n)
unfolding line_end
line_end-cut p n = rw ((==_iff (n + 1) (n + 1)).1 refl)

parse_line-cut :
    (p : Parser) (n : ℕ)
    → strchr b'\r' (drop p.checked_idx p.read_buf) ≡ some n
    → strchr b'\n' (drop p.checked_idx p.read_buf) ≡ some (n + 1)
    → n + 1 < p.read_idx
    → parse_line p ≡ (line_ok, cut p n)
unfolding parse_line line_cases
parse_line-cut p n er en h =
    ap₂ (λ a b. line_cases p (within p.read_idx a) (within p.read_idx b)) er en
    ∙ ap₂ (line_cases p) (within-lt p.read_idx n (omega arith)) (within-lt p.read_idx (n + 1) h)
    ∙ line_end-cut p n

-- A line without CR, LF or NUL that ends in CR LF and is shorter than m_read_idx by two at least
-- is recognised: it is cut off by two NULs written over the CR LF, nothing behind it changes, and
-- `m_checked_idx` stands behind it.
pub parse_line-whole :
    (p : Parser) (s rest : List ℕ)
    → drop p.checked_idx p.read_buf ≡ s ++ b'\r' ∷ b'\n' ∷ rest
    → IsLine s
    → length s + 1 < p.read_idx
    → (q : Parser) × (parse_line p ≡ (line_ok, q))
      × (drop p.checked_idx q.read_buf ≡ s ++ 0 ∷ 0 ∷ rest)
      × (q ≡ record p { read_buf = q.read_buf; checked_idx = p.checked_idx + (length s + 2) })
parse_line-whole p s rest e h read =
    let n = length s in
    let er : strchr b'\r' (drop p.checked_idx p.read_buf) ≡ some n =
      ap (strchr b'\r') e
      ∙ strchr-skip b'\r' s _ h.2 h.0 (strchr-return rest)
      ∙ ap some (omega arith) in
    let en : strchr b'\n' (drop p.checked_idx p.read_buf) ≡ some (n + 1) =
      ap (strchr b'\n') e ∙ strchr-skip b'\n' s _ h.2 h.1 (strchr-newline rest) in
    (
      cut p n,
      parse_line-cut p n er en read,
      drop-set p.checked_idx (p.checked_idx + (n + 1)) (n + 1) 0 _ refl
          ∙ ap (λ l. set l (n + 1) 0)
              (drop-set p.checked_idx (p.checked_idx + n) n 0 p.read_buf refl)
          ∙ ap (λ l. set (set l n 0) (n + 1) 0) e
          ∙ set-line s rest n (n + 1) refl refl,
      ap (λ k. record p { read_buf = (cut p n).read_buf; checked_idx = k }) (omega arith),
    )
