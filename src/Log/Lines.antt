-- ===== src/Log/Lines.antt =====
-- The line that `write_log` makes in its buffer: what it holds, and when it leaves the buffer.
use linux_image_server.Base.{
  ℕ, zero, suc, ◌+◌, ◌-◌, ◌≤◌, ◌<◌, ◌≡◌, refl, ap, ◌∙◌, Option, none, some, List, [], ◌∷◌, ◌++◌,
  arith, length, take, length-append, inl, inr, Bool-cases, ◌>>=◌, dec_lt, ◌⊎◌, ◌/◌, ◌%◌, ltb,
  replicate,
}
use linux_image_server.CString.{cstr, store, splice}
use linux_image_server.CString.Laws.{NoNul, take-splice, length-splice, store-some}
use linux_image_server.Http.Response.{printed}
use linux_image_server.Http.Response.Append.{printed-fits}
use linux_image_server.CString.Decimal.{digits_onto, print_ℕ}
use linux_image_server.Log.{Now, format_line, padded, level_text, prefix}

cstr-take : (n : ℕ) (s buf : List ℕ) → NoNul s → take n buf ≡ s ++ 0 ∷ [] → cstr buf ≡ s
unfolding cstr
cstr-take zero [] buf p e = absurd (ground arith)
cstr-take zero (x ∷ s) buf p e = absurd (ground arith)
cstr-take (suc n) [] [] p e = absurd (ground arith)
cstr-take (suc n) (x ∷ s) [] p e = absurd (ground arith)
cstr-take (suc n) [] (b ∷ buf) p e = ground arith
cstr-take (suc n) (x ∷ s) (b ∷ buf) p e =
    let rest : take n buf ≡ s ++ 0 ∷ [] = cc in
    let same : b ≡ x = cc in rw same (ground (arith, p.0, cstr-take n s buf p.1 rest))

-- The array of `size` bytes begins with `s`.
record Holds (size : ℕ) (s buf : List ℕ) : Type 0 where
  pub size_of : length buf ≡ size
  pub text : take (length s) buf ≡ s

-- A store right behind the text adds its bytes to the text.
store-Holds :
    (size off : ℕ) (s bs rest buf : List ℕ)
    → Holds size s buf
    → off ≡ length s
    → off + length (bs ++ rest) ≤ size
    → (buf' : List ℕ) × ((store off (bs ++ rest) buf ≡ some buf') × Holds size (s ++ bs) buf')
store-Holds size off s bs rest buf h e fits = (
  splice off (bs ++ rest) buf,
  (
    store-some off (bs ++ rest) buf (omega (arith, h.size_of)),
    record {
      size_of = length-splice off (bs ++ rest) buf ∙ h.size_of;
      text =
          take-splice off (length (s ++ bs)) bs rest buf (omega (arith, length-append s bs))
            (omega (arith, h.size_of, length-append bs rest))
          ∙ ap (λ k. take k buf ++ bs) e
          ∙ ap (λ t. t ++ bs) h.text;
    },
  ),
)

store-none : (off : ℕ) (bs buf : List ℕ) → length buf < off + length bs → store off bs buf ≡ none
unfolding store
store-none off bs buf h = ground arith

store-length :
    (off : ℕ) (bs buf : List ℕ) {b : List ℕ} → store off bs buf ≡ some b → length b ≡ length buf
unfolding store
store-length off bs buf e = grind (arith, length-splice off bs buf)

bind-none :
    {A B : Type 0} (o : Option A) (f : A → Option B)
    → ((a : A) → o ≡ some a → f a ≡ none)
    → (o >>= f) ≡ none
bind-none none f h = refl
bind-none (some a) f h = h a refl

abbrev pub line_of : List ℕ → List ℕ → List ℕ
line_of head text = (head ++ text) ++ 10 ∷ []

format_line-fits :
    (head text buf : List ℕ)
    → length head < 48
    → length head + length text + 2 ≤ length buf
    → NoNul (line_of head text)
    → (b : List ℕ) × ((format_line head text buf ≡ some b)
        × ((cstr b ≡ line_of head text) × (length b ≡ length buf)))
unfolding format_line
format_line-fits head text buf short fits clean =
    let size = length buf in
    let both = length-append head text in
    let (b1, (r1, h1)) =
      store-Holds size 0 [] head (0 ∷ []) buf (record { size_of = refl; text = refl }) refl
        (omega (arith, length-append head (0 ∷ []))) in
    let (b2, (r2, h2)) =
      store-Holds size (length head) head text (0 ∷ []) b1 h1 refl
        (omega (arith, length-append text (0 ∷ []))) in
    let (b3, (r3, h3)) =
      store-Holds size (length head + length text) (head ++ text) (10 ∷ []) [] b2 h2
        (omega (arith, both)) (omega arith) in
    let (b4, (r4, h4)) =
      store-Holds size (length head + length text + 1) (line_of head text) (0 ∷ []) [] b3 h3
        (omega (arith, both, length-append (head ++ text) (10 ∷ []))) (omega arith) in
    (
      b4,
      (
        rw (printed-fits 48 head short)
            (rw r1 (rw (printed-fits (size - 1) text (omega arith)) (rw r2 (rw r3 r4)))),
        (cstr-take _ (line_of head text) b4 clean h4.text, h4.size_of),
      ),
    )

format_line-overruns :
    (head text buf : List ℕ)
    → length buf < length head + length text + 2
    → format_line head text buf ≡ none
unfolding format_line
format_line-overruns head text buf long = bind-none (store 0 (printed 48 head) buf) _ (λ b1 e1.
    bind-none (store (length head) (printed (length buf - 1) text) b1) _ (λ b2 e2.
      bind-none (store (length head + length text) (10 ∷ []) b2) _ (λ b3 e3.
        store-none (length head + length text + 1) (0 ∷ []) b3 (
          omega (
            arith,
            store-length 0 (printed 48 head) buf e1,
            store-length (length head) (printed (length buf - 1) text) b1 e2,
            store-length (length head + length text) (10 ∷ []) b2 e3,
          )))))

NoNul-append : (s t : List ℕ) → NoNul s → NoNul t → NoNul (s ++ t)
NoNul-append [] t p q = q
NoNul-append (b ∷ s) t p q = (p.0, NoNul-append s t p.1 q)

NoNul-digits_onto : (fuel n : ℕ) (acc : List ℕ) → NoNul acc → NoNul (digits_onto fuel n acc)
unfolding digits_onto
NoNul-digits_onto zero n acc p = p
NoNul-digits_onto (suc fuel) n acc p = elim (Bool-cases (ltb n 10)) [
  | inl lt ↦ rw lt (omega arith, p)
  | inr ge ↦ rw ge (NoNul-digits_onto fuel (n / 10) ((48 + n % 10) ∷ acc) (omega arith, p))
]

NoNul-print_ℕ : (n : ℕ) → NoNul (print_ℕ n)
unfolding print_ℕ
NoNul-print_ℕ n = NoNul-digits_onto 20 n [] tt

NoNul-zeros : (n : ℕ) → NoNul (replicate n b'0')
NoNul-zeros zero = tt
NoNul-zeros (suc n) = (omega arith, NoNul-zeros n)

NoNul-padded : (width n : ℕ) → NoNul (padded width n)
NoNul-padded width n =
    NoNul-append (replicate (width - length (print_ℕ n)) b'0') (print_ℕ n) (NoNul-zeros _)
      (NoNul-print_ℕ n)

NoNul-level_text : (level : ℕ) → NoNul (level_text level)
NoNul-level_text zero = ground arith
NoNul-level_text (suc zero) = ground arith
NoNul-level_text (suc (suc zero)) = ground arith
NoNul-level_text (suc (suc (suc zero))) = ground arith
NoNul-level_text (suc (suc (suc (suc n)))) = ground arith

NoNul-join : (s : List ℕ) (b : ℕ) (t : List ℕ) → NoNul s → 0 < b → NoNul t → NoNul (s ++ b ∷ t)
NoNul-join s b t p pos q = NoNul-append s (b ∷ t) p (pos, q)

-- A number of two or six digits behind a separator.
NoNul-field : (s : List ℕ) (b width n : ℕ) → NoNul s → 0 < b → NoNul (s ++ b ∷ padded width n)
NoNul-field s b width n p pos = NoNul-join s b (padded width n) p pos (NoNul-padded width n)

NoNul-prefix : (t : Now) (level : ℕ) → NoNul (prefix t level)
NoNul-prefix t level =
    NoNul-join _ b' ' []
      (NoNul-join _ b' ' (level_text level)
        (NoNul-field _ b'.' 6 t.usec
          (NoNul-field _ b':' 2 t.sec
            (NoNul-field _ b':' 2 t.min
              (NoNul-field _ b' ' 2 t.hour
                (NoNul-field _ b'-' 2 t.mday
                  (NoNul-field (print_ℕ (t.year + 1900)) b'-' 2 (t.mon + 1)
                    (NoNul-print_ℕ (t.year + 1900)) (omega arith))
                  (omega arith))
                (omega arith))
              (omega arith))
            (omega arith))
          (omega arith))
        (omega arith) (NoNul-level_text level))
      (omega arith) tt

-- The line of a head of less than 48 bytes and a message without NUL.
pub format_line-made :
    (t : Now) (level : ℕ) (text buf : List ℕ)
    → length (prefix t level) < 48
    → NoNul text
    → length (prefix t level) + length text + 2 ≤ length buf
    → (b : List ℕ) × ((format_line (prefix t level) text buf ≡ some b)
        × ((cstr b ≡ line_of (prefix t level) text) × (length b ≡ length buf)))
format_line-made t level text buf short clean fits =
    format_line-fits (prefix t level) text buf short fits (
      NoNul-append (prefix t level ++ text) (10 ∷ [])
        (NoNul-append (prefix t level) text (NoNul-prefix t level) clean) (omega arith, tt))

-- For a head of less than 48 bytes and a message without NUL: either head, message, line end and NUL
-- fit in the buffer, and the line is head, message and line end, and the buffer keeps its size; or
-- they do not fit, and something is written behind the buffer.
pub format_line_lem :
    (t : Now) (level : ℕ) (text buf : List ℕ)
    → length (prefix t level) < 48
    → NoNul text
    → ((length (prefix t level) + length text + 2 ≤ length buf)
        × ((b : List ℕ) × ((format_line (prefix t level) text buf ≡ some b)
              × ((cstr b ≡ line_of (prefix t level) text) × (length b ≡ length buf)))))
      ⊎ ((length buf < length (prefix t level) + length text + 2)
          × (format_line (prefix t level) text buf ≡ none))
format_line_lem t level text buf short clean =
    elim (dec_lt (length buf) (length (prefix t level) + length text + 2)) [
      | yes long ↦ inr (long, format_line-overruns (prefix t level) text buf long)
      | no fits ↦ inl (omega arith, format_line-made t level text buf short clean (omega arith))
    ]
