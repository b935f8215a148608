-- ===== src/CString.antt =====
-- C strings and byte arrays, as src/http/http_conn.cpp uses them through <string.h>: an array is
-- the list of its bytes, a pointer into it an offset, and a string ends at the first NUL.
pub mod Laws
pub mod Decimal
use Prim.Native.Char.{code}
use Prim.Native.String.{String}
use linux_image_server.Base.{
  ℕ, zero, suc, ◌+◌, Bool, true, false, ◌&&◌, Option, none, some, List, [], ◌∷◌, ltb, leb, ◌==◌,
  if◌then◌else◌, length,
}

-- The bytes of a text literal.
abbrev pub codes : String → List ℕ
codes String.[] = []
codes (String.◌∷◌ c s) = code c ∷ codes s

-- The string that starts at the head of the bytes.
unfoldable pub cstr : List ℕ → List ℕ
cstr [] = []
cstr (b ∷ bs) = if b == 0 then [] else b ∷ cstr bs

unfoldable pub strlen : List ℕ → ℕ
unfolding cstr
strlen bs = length (cstr bs)

-- The offset of the first byte `c`: strpbrk with one character on a string, and strchr.
unfoldable pub index_of : ℕ → List ℕ → Option ℕ
index_of c [] = none
index_of c (b ∷ bs) =
    let rest = index_of c bs in
    if b == c then some 0 else elim rest [ none ↦ none | some i ↦ some (suc i) ]

unfoldable pub strchr : ℕ → List ℕ → Option ℕ
unfolding cstr index_of
strchr c bs = index_of c (cstr bs)

-- The first space or tab: strpbrk(text, " \t").
unfoldable pub index_of_blank : List ℕ → Option ℕ
index_of_blank [] = none
index_of_blank (b ∷ bs) =
    let rest = index_of_blank bs in
    if b == b' '
    then some 0
    else if b == 9
    then some 0
    else elim rest [ none ↦ none | some i ↦ some (suc i) ]

-- The last byte `c`: strrchr on a string.
unfoldable pub last_index_of : ℕ → List ℕ → Option ℕ
last_index_of c [] = none
last_index_of c (b ∷ bs) = elim (last_index_of c bs) [
  | some i ↦ some (suc i)
  | none ↦ if b == c then some 0 else none
]

-- strspn(text, " \t").
unfoldable pub span_blank : List ℕ → ℕ
span_blank [] = 0
span_blank (b ∷ bs) =
    let rest = suc (span_blank bs) in if b == b' ' then rest else if b == 9 then rest else 0

unfoldable pub to_lower : ℕ → ℕ
to_lower c = if leb b'A' c && leb c b'Z' then c + 32 else c

-- strcasecmp(a, b) == 0.
unfoldable pub eq_nocase : List ℕ → List ℕ → Bool
unfolding to_lower
eq_nocase [] [] = true
eq_nocase [] (b ∷ bs) = false
eq_nocase (a ∷ as') [] = false
eq_nocase (a ∷ as') (b ∷ bs) = (to_lower a == to_lower b) && eq_nocase as' bs

-- strncasecmp(s, lit, strlen(lit)) == 0.
unfoldable pub starts_nocase : List ℕ → List ℕ → Bool
unfolding to_lower
starts_nocase [] s = true
starts_nocase (l ∷ lit) [] = false
starts_nocase (l ∷ lit) (b ∷ s) = (to_lower l == to_lower b) && starts_nocase lit s

-- The bytes laid over the front of an array; what does not fit is dropped.
unfoldable pub overlay : List ℕ → List ℕ → List ℕ
overlay [] buf = buf
overlay (b ∷ bs) [] = []
overlay (b ∷ bs) (x ∷ buf) = b ∷ overlay bs buf

unfoldable pub splice : ℕ → List ℕ → List ℕ → List ℕ
unfolding overlay
splice zero bs buf = overlay bs buf
splice (suc n) bs [] = []
splice (suc n) bs (x ∷ buf) = x ∷ splice n bs buf

-- A copy of bytes to an offset; `none` is a write that leaves the array.
unfoldable pub store : ℕ → List ℕ → List ℕ → Option (List ℕ)
unfolding splice
store off bs buf = if leb (off + length bs) (length buf) then some (splice off bs buf) else none
