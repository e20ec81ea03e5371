-- ===== src/CText/Decimal.antt =====
-- `%d`: decimal output and input.
use hust_network_programming.Base.{
  ℕ, zero, suc, ◌+◌, ◌-◌, ◌*◌, ◌/◌, ◌%◌, ◌^◌, ◌≤◌, ◌<◌, ◌≡◌, refl, ap, ◌∙◌, Bool, true, false, ◌&&◌,
  Option, none, some, [], ◌∷◌, ◌++◌, append_assoc, arith, ◌==◌, leb, ltb, if◌then◌else◌, ℤ, pos,
  negsuc, Bool-cases, ltb→lt, inl, inr, length, length-append,
}
use native.Mathlib.Nat.{pow-suc}
use hust_network_programming.CText.{Bytes, None, None-append, skip_space}
use hust_network_programming.Outcome.{Outcome, done, undefined}

decimal_fuel : ℕ → ℕ → Bytes
decimal_fuel zero n = []
decimal_fuel (suc f) n =
    let higher = decimal_fuel f (n / 10) in
    if ltb n 10 then (48 + n) ∷ [] else higher ++ (48 + n % 10) ∷ []

-- `%d` of a number that is not negative
unfoldable pub decimal : ℕ → Bytes
unfolding decimal_fuel
decimal n = decimal_fuel (suc n) n

unfoldable pub int_text : ℤ → Bytes
int_text (pos n) = decimal n
int_text (negsuc n) = b'-' ∷ decimal (suc n)

abbrev pub is_digit : ℕ → Bool
is_digit c = leb 48 c && leb c 57

-- The digits at the start of a text, read behind the digits of `acc`.
unfoldable pub scan_digits : ℕ → Bytes → ℕ × Bytes
scan_digits acc [] = (acc, [])
scan_digits acc (c ∷ cs) =
    let rest = scan_digits (acc * 10 + (c - 48)) cs in if is_digit c then rest else (acc, c ∷ cs)

-- A number of an `int`; a value out of range is undefined behaviour of `sscanf`.
in_int : Bool → ℕ × Bytes → Outcome (Option (ℤ × Bytes))
in_int minus (n, rest) =
    if ltb n (if minus then 2 ^ 31 + 1 else 2 ^ 31)
    then done (
        some
          (elim minus [ false ↦ pos n | true ↦ elim n [ zero ↦ pos 0 | suc m ↦ negsuc m ] ], rest))
    else undefined

-- At least one digit.
unsigned : Bool → Bytes → Outcome (Option (ℤ × Bytes))
unfolding in_int scan_digits
unsigned minus [] = done none
unsigned minus (c ∷ cs) = if is_digit c then in_int minus (scan_digits 0 (c ∷ cs)) else done none

signed : Bytes → Outcome (Option (ℤ × Bytes))
unfolding unsigned
signed [] = done none
signed (c ∷ cs) =
    if c == b'-'
    then unsigned true cs
    else if c == b'+'
    then unsigned false cs
    else unsigned false (c ∷ cs)

-- The directive `%d`: the number and the text behind it, or `none` for no match.
unfoldable pub scan_int : Bytes → Outcome (Option (ℤ × Bytes))
unfolding signed skip_space
scan_int s = signed (skip_space s)

scan_digits-digit :
    (acc d : ℕ) (rest : Bytes)
    → d < 10
    → scan_digits acc ((48 + d) ∷ rest) ≡ scan_digits (acc * 10 + d) rest
unfolding scan_digits
scan_digits-digit acc d rest h = let e : 48 + d - 48 ≡ d = omega arith in rw e (ground arith)

-- Enough fuel prints the whole number: reading it back goes on from `n`.
scan_digits-decimal_fuel :
    (f n : ℕ) (rest : Bytes) → n < f → scan_digits 0 (decimal_fuel f n ++ rest) ≡ scan_digits n rest
unfolding decimal_fuel
scan_digits-decimal_fuel zero n rest h = absurd (omega arith)
scan_digits-decimal_fuel (suc f) n rest h = elim (Bool-cases (ltb n 10)) [
  | inl small ↦
      rw small
        (scan_digits-digit 0 n rest (ground arith) ∙ ap (λ m. scan_digits m rest) (omega arith))
  | inr big ↦ rw big (
      rw append_assoc (
        scan_digits-decimal_fuel f (n / 10) ((48 + n % 10) ∷ rest) (ground arith)
        ∙ scan_digits-digit (n / 10) (n % 10) rest (omega arith)
        ∙ ap (λ m. scan_digits m rest) (omega arith)))
]

-- The first byte of a number is a digit.
decimal_fuel-first :
    (f n : ℕ) → n < f → (c : ℕ) × (cs : Bytes) × (decimal_fuel f n ≡ c ∷ cs) × (48 ≤ c) × (c ≤ 57)
unfolding decimal_fuel
decimal_fuel-first zero n h = absurd (omega arith)
decimal_fuel-first (suc f) n h = elim (Bool-cases (ltb n 10)) [
  | inl small ↦ (48 + n, [], rw small refl, omega arith, ground arith)
  | inr big ↦
      let (c, cs, e, lo, hi) = decimal_fuel-first f (n / 10) (ground arith) in
      (c, cs ++ (48 + n % 10) ∷ [], rw (big, e) refl, lo, hi)
]

-- What stands behind a printed number must not go on with a digit.
abbrev pub Ends : Bytes → Type 0
Ends [] = Unit
Ends (c ∷ cs) = is_digit c ≡ false

scan_digits-Ends : (n : ℕ) (rest : Bytes) → Ends rest → scan_digits n rest ≡ (n, rest)
unfolding scan_digits
scan_digits-Ends n [] h = refl
scan_digits-Ends n (c ∷ cs) h = rw h

unsigned-digit :
    (c : ℕ) (cs : Bytes) (n : ℕ) (rest : Bytes)
    → 48 ≤ c
    → c ≤ 57
    → scan_digits 0 (c ∷ cs) ≡ (n, rest)
    → n < 2 ^ 31
    → scan_int (c ∷ cs) ≡ done (some (pos n, rest))
unfolding scan_int
unsigned-digit c cs n rest lo hi e small = ground arith

-- `%d` reads back what `%d` printed.
pub scan_int-decimal :
    (n : ℕ) (rest : Bytes)
    → n < 2 ^ 31
    → Ends rest
    → scan_int (decimal n ++ rest) ≡ done (some (pos n, rest))
unfolding decimal
scan_int-decimal n rest small h =
    let (c, cs, e, lo, hi) = decimal_fuel-first (suc n) n (omega arith) in
    let read = scan_digits-decimal_fuel (suc n) n rest (omega arith) ∙ scan_digits-Ends n rest h in
    rw e (unsigned-digit c (cs ++ rest) n rest lo hi (rw e at read) small)

length-decimal_fuel : (f n k : ℕ) → n < 10 ^ suc k → length (decimal_fuel f n) ≤ suc k
unfolding decimal_fuel
length-decimal_fuel zero n k h = omega arith
length-decimal_fuel (suc f) n zero h = ground arith
length-decimal_fuel (suc f) n (suc k) h =
    let below : n / 10 < 10 ^ suc k = omega (arith, pow-suc 10 (suc k)) in
    ground (
      arith,
      length-decimal_fuel f (n / 10) k below,
      length-append (decimal_fuel f (n / 10)) ((48 + n % 10) ∷ []),
    )

-- A number with at most `k + 1` digits is printed in as many bytes.
pub length-decimal : (n k : ℕ) → n < 10 ^ suc k → length (decimal n) ≤ suc k
unfolding decimal
length-decimal n k h = length-decimal_fuel (suc n) n k h

-- A test that accepts no digit accepts no byte of a printed number.
None-decimal_fuel :
    (p : ℕ → Bool) → ((d : ℕ) → d < 10 → p (48 + d) ≡ false) → (f n : ℕ) → None p (decimal_fuel f n)
unfolding decimal_fuel
None-decimal_fuel p h zero n = tt
None-decimal_fuel p h (suc f) n = elim (Bool-cases (ltb n 10)) [
  | inl small ↦ rw small (h n (ltb→lt n 10 small), tt)
  | inr big ↦ rw big (
      None-append p (decimal_fuel f (n / 10)) ((48 + n % 10) ∷ [])
        (None-decimal_fuel p h f (n / 10)) (h (n % 10) (omega arith), tt))
]

pub None-decimal :
    (p : ℕ → Bool) → ((d : ℕ) → d < 10 → p (48 + d) ≡ false) → (n : ℕ) → None p (decimal n)
unfolding decimal
None-decimal p h n = None-decimal_fuel p h (suc n) n
