-- ===== src/CText.antt =====
-- The C string functions that the programs call, on strings as lists of bytes with no NUL.
pub mod Decimal
pub mod Scan
pub mod Search
pub mod Places
use Prim.Native.Char.{code}
use Prim.Native.String
use hust_network_programming.Base.{
  ℕ, zero, suc, ◌≤◌, ◌≡◌, ◌≢◌, ◌↔◌, Bool-cases, inl, inr, refl, ap, arith, length, length-take, ◌+◌,
  ◌-◌, String, Bool, true, false, not, ◌&&◌, ◌||◌, Option, none, some, List, [], ◌∷◌, ◌++◌, ◌==◌,
  leb, take, if◌then◌else◌,
}

abbrev pub Bytes : Type 0
Bytes = List ℕ

-- The bytes of an ASCII literal.
unfoldable pub codes : String → Bytes
codes String.[] = []
codes (String.◌∷◌ c s) = code c ∷ codes s

-- The part of a text before the first byte that a test accepts, and the text from that byte on.
abbrev pub before : (ℕ → Bool) → Bytes → Bytes
before p [] = []
before p (c ∷ cs) = if p c then [] else c ∷ before p cs

abbrev pub from : (ℕ → Bool) → Bytes → Bytes
from p [] = []
from p (c ∷ cs) = if p c then c ∷ cs else from p cs

-- `strcmp(a, b) == 0`
unfoldable pub str_eq : Bytes → Bytes → Bool
str_eq [] [] = true
str_eq (x ∷ a) (y ∷ b) = x == y && str_eq a b
str_eq _ _ = false

unfoldable pub to_lower : ℕ → ℕ
to_lower c = if leb b'A' c && leb c b'Z' then c + 32 else c

-- `strcasecmp(a, b) == 0`
unfoldable pub str_case_eq : Bytes → Bytes → Bool
unfolding to_lower
str_case_eq [] [] = true
str_case_eq (x ∷ a) (y ∷ b) = to_lower x == to_lower y && str_case_eq a b
str_case_eq _ _ = false

-- `strncpy(dst, src, n)` into a zeroed array of more than `n` bytes.
unfoldable pub strncpy : ℕ → Bytes → Bytes
strncpy n s = take n s

pub length-strncpy : (n : ℕ) (s : Bytes) → length (strncpy n s) ≤ n
unfolding strncpy
length-strncpy n s = omega (arith, length-take n s)

-- A text that fits is copied whole.
pub strncpy_short : (n : ℕ) (s : Bytes) → length s ≤ n → strncpy n s ≡ s
unfolding strncpy
strncpy_short zero [] h = refl
strncpy_short zero (c ∷ s) h = absurd (omega arith)
strncpy_short (suc n) [] h = refl
strncpy_short (suc n) (c ∷ s) h =
    ap (λ t. c ∷ t) (unfold strncpy in strncpy_short n s (omega arith))

-- What `isspace` accepts.
abbrev pub is_space : ℕ → Bool
is_space c = leb 9 c && leb c 13 || c == 32

abbrev pub is_line_end : ℕ → Bool
is_line_end c = c == b'\n' || c == b'\r' || c == 0

-- The text after the white space that a directive of `sscanf` skips.
unfoldable pub skip_space : Bytes → Bytes
skip_space s = from (λ c. not (is_space c)) s

-- The word that `%s` reads from a text, and what stands behind it.
unfoldable pub scan_word : Bytes → Bytes × Bytes
unfolding skip_space
scan_word s = (before is_space (skip_space s), from is_space (skip_space s))

-- `strchr`: the text from the first byte `c` on.
abbrev pub strchr : ℕ → Bytes → Option Bytes
strchr c [] = none
strchr c (x ∷ s) = if x == c then some (x ∷ s) else strchr c s

-- The text before the last byte `c`, where `strrchr(s, c)` points.
unfoldable pub before_last : ℕ → Bytes → Option Bytes
before_last c [] = none
before_last c (x ∷ s) = elim (before_last c s) [
  | some r ↦ some (x ∷ r)
  | none ↦ if x == c then some [] else none
]

-- No byte of the text is `c`.
abbrev pub Avoids : ℕ → Bytes → Type 0
Avoids c [] = Unit
Avoids c (x ∷ s) = ((x == c) ≡ false) × Avoids c s

pub str_eq_iff : (a b : Bytes) → (str_eq a b ≡ true) ↔ (a ≡ b)
unfolding str_eq
str_eq_iff (x ∷ a) (y ∷ b) = ground (arith, str_eq_iff a b)
str_eq_iff _ _ = ground arith

-- No byte of the text passes the test.
abbrev pub None : (ℕ → Bool) → Bytes → Type 0
None p [] = Unit
None p (c ∷ s) = (p c ≡ false) × None p s

pub before-append :
    (p : ℕ → Bool) (s : Bytes) (c : ℕ) (rest : Bytes)
    → None p s
    → p c ≡ true
    → before p (s ++ (c ∷ rest)) ≡ s
before-append p [] c rest h e = rw e refl
before-append p (x ∷ s) c rest h e = rw h.0 (ap (λ t. x ∷ t) (before-append p s c rest h.1 e))

pub from-append :
    (p : ℕ → Bool) (s : Bytes) (c : ℕ) (rest : Bytes)
    → None p s
    → p c ≡ true
    → from p (s ++ (c ∷ rest)) ≡ c ∷ rest
from-append p [] c rest h e = rw e refl
from-append p (x ∷ s) c rest h e = rw h.0 (from-append p s c rest h.1 e)

pub before_all : (p : ℕ → Bool) (s : Bytes) → None p s → before p s ≡ s
before_all p [] h = refl
before_all p (x ∷ s) h = rw h.0 (ap (λ t. x ∷ t) (before_all p s h.1))

pub from_all : (p : ℕ → Bool) (s : Bytes) → None p s → from p s ≡ []
from_all p [] h = refl
from_all p (x ∷ s) h = rw h.0 (from_all p s h.1)

pub None-append : (p : ℕ → Bool) (s t : Bytes) → None p s → None p t → None p (s ++ t)
None-append p [] t h g = g
None-append p (c ∷ s) t h g = (h.0, None-append p s t h.1 g)

-- A literal is tested byte by byte.
abbrev pub passes_none : (ℕ → Bool) → Bytes → Bool
passes_none p [] = true
passes_none p (c ∷ s) = not (p c) && passes_none p s

pub None-passes_none : (p : ℕ → Bool) (s : Bytes) → passes_none p s ≡ true → None p s
None-passes_none p [] h = tt
None-passes_none p (c ∷ s) h = elim (Bool-cases (p c)) [
  | inl e ↦ absurd (ground (arith, e, h))
  | inr e ↦ (e, None-passes_none p s (rw e at h))
]

-- No piece that arrives is empty.
abbrev pub Nonempty : List Bytes → Type 0
Nonempty [] = Unit
Nonempty (s ∷ pieces) = (s ≢ []) × Nonempty pieces
