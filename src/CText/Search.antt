-- ===== src/CText/Search.antt =====
-- `strncmp(s, p, strlen(p)) == 0` and `strstr`.
use hust_network_programming.Base.{
  ℕ, suc, ◌-◌, ◌≤◌, ◌≡◌, refl, sym, ap, ◌∙◌, Bool, true, false, ◌&&◌, [], ◌∷◌, ◌++◌, Option, none,
  some, ◌⊎◌, ◌==◌, ==_iff, arith, length, length-append, take, drop, if◌then◌else◌, Bool-cases, inl,
  inr,
}
use hust_network_programming.CText.{Bytes, Avoids}

abbrev pub starts_with : Bytes → Bytes → Bool
starts_with [] s = true
starts_with (x ∷ p) [] = false
starts_with (x ∷ p) (y ∷ s) = x == y && starts_with p s

-- `strstr(s, p)`: the text from the first place on where `p` stands.
unfoldable pub strstr : Bytes → Bytes → Option Bytes
strstr [] p = if starts_with p [] then some [] else none
strstr (c ∷ s) p = let later = strstr s p in if starts_with p (c ∷ s) then some (c ∷ s) else later

-- The part of a text in front of what `strstr` found in it.
abbrev pub in_front : Bytes → Bytes → Bytes
in_front s found = take (length s - length found) s

pub ==_self : (c : ℕ) → (c == c) ≡ true
==_self c = (==_iff c c).1 refl

pub starts_with-append : (p t : Bytes) → starts_with p (p ++ t) ≡ true
starts_with-append [] t = refl
starts_with-append (x ∷ p) t = rw (==_self x) (starts_with-append p t)

-- What stands behind a text that is long enough does not matter.
pub starts_with_longer :
    (p s t : Bytes) → length p ≤ length s → starts_with p (s ++ t) ≡ starts_with p s
starts_with_longer [] s t h = refl
starts_with_longer (x ∷ p) [] t h = absurd (omega (arith, h))
starts_with_longer (x ∷ p) (y ∷ s) t h =
    ap (λ b. x == y && b) (starts_with_longer p s t (omega (arith, h)))

pub length-starts_with : (p s : Bytes) → starts_with p s ≡ true → length p ≤ length s
length-starts_with [] s h = omega arith
length-starts_with (x ∷ p) [] h = cc h
length-starts_with (x ∷ p) (y ∷ s) h = elim (Bool-cases (x == y)) [
  | inl e ↦ omega (arith, length-starts_with p s (rw e at h))
  | inr e ↦ absurd (ground (arith, e, h))
]

-- A text without `c` does not reach over a `c`.
pub starts_with_before :
    (p s : Bytes) (c : ℕ) (t : Bytes)
    → Avoids c p
    → starts_with p (s ++ (c ∷ t)) ≡ true
    → starts_with p s ≡ true
starts_with_before [] s c t h e = refl
starts_with_before (x ∷ p) [] c t h e = absurd (ground (arith, h.0, e))
starts_with_before (x ∷ p) (y ∷ s) c t h e = elim (Bool-cases (x == y)) [
  | inl same ↦ rw same (starts_with_before p s c t h.1 (rw same at e))
  | inr other ↦ absurd (ground (arith, other, e))
]

-- What `strstr` finds starts with what it looks for.
pub length-strstr : (s p r : Bytes) → strstr s p ≡ some r → length p ≤ length r
unfolding strstr
length-strstr [] [] r h = omega arith
length-strstr [] (x ∷ p) r h = cc h
length-strstr (c ∷ s) p r h = elim (Bool-cases (starts_with p (c ∷ s))) [
  | inl e ↦
      let same : c ∷ s ≡ r = cc (rw e at h) in
      omega (arith, ap length same, length-starts_with p (c ∷ s) e)
  | inr e ↦ length-strstr s p r (rw e at h)
]

pub length-strstr_le : (s p r : Bytes) → strstr s p ≡ some r → length r ≤ length s
unfolding strstr
length-strstr_le [] [] r h = let e : [] ≡ r = cc h in omega (arith, ap length e)
length-strstr_le [] (x ∷ p) r h = cc h
length-strstr_le (c ∷ s) p r h = elim (Bool-cases (starts_with p (c ∷ s))) [
  | inl e ↦ let same : c ∷ s ≡ r = cc (rw e at h) in omega (arith, ap length same)
  | inr e ↦ omega (arith, length-strstr_le s p r (rw e at h))
]

strstr_nil : (t : Bytes) → strstr t [] ≡ some t
unfolding strstr
strstr_nil [] = refl
strstr_nil (c ∷ t) = refl

-- A match stays the first one with more behind it.
pub strstr-append : (s t p r : Bytes) → strstr s p ≡ some r → strstr (s ++ t) p ≡ some (r ++ t)
unfolding strstr
strstr-append [] t [] r h = let e : [] ≡ r = cc h in rw (sym e) (strstr_nil t)
strstr-append [] t (x ∷ p) r h = cc h
strstr-append (c ∷ s) t p r h = elim (Bool-cases (starts_with p (c ∷ s))) [
  | inl e ↦
      let same : c ∷ s ≡ r = cc (rw e at h) in
      rw (starts_with_longer p (c ∷ s) t (length-starts_with p (c ∷ s) e))
        (rw e (ap (λ u. some (u ++ t)) same))
  | inr e ↦
      let found = rw e at h in
      rw
        (starts_with_longer p (c ∷ s) t
          (omega (arith, length-strstr s p r found, length-strstr_le s p r found)))
        (rw e (strstr-append s t p r found))
]

-- There is no match where the first byte does not stand.
pub strstr_skip :
    (s t : Bytes) (c : ℕ) (p : Bytes) → Avoids c s → strstr (s ++ t) (c ∷ p) ≡ strstr t (c ∷ p)
unfolding strstr
strstr_skip [] t c p h = refl
strstr_skip (x ∷ s) t c p h =
    let other : (c == x) ≡ false = ground (arith, h.0) in rw other (strstr_skip s t c p h.1)

pub strstr_here : (p t : Bytes) → strstr (p ++ t) p ≡ some (p ++ t)
unfolding strstr
strstr_here [] t = strstr_nil t
strstr_here (x ∷ p) t = rw (starts_with-append (x ∷ p) t) refl

pub strstr-none :
    (x : ℕ) (s p : Bytes)
    → strstr (x ∷ s) p ≡ none
    → (starts_with p (x ∷ s) ≡ false) × (strstr s p ≡ none)
unfolding strstr
strstr-none x s p h = elim (Bool-cases (starts_with p (x ∷ s))) [
  | inl e ↦ absurd (cc (rw e at h))
  | inr e ↦ (e, rw e at h)
]

starts_with_inside :
    (c : ℕ) (p : Bytes) (x : ℕ) (s t : Bytes)
    → Avoids c p
    → starts_with (c ∷ p) (x ∷ s) ≡ false
    → starts_with (c ∷ p) (x ∷ s ++ (c ∷ t)) ≡ false
starts_with_inside c p x s t h e = elim (Bool-cases (starts_with p (s ++ (c ∷ t)))) [
  | inl reaches ↦
      let here = starts_with_before p s c t h reaches in
      ap (λ b. c == x && b) (reaches ∙ sym here) ∙ e
  | inr short ↦ rw short (elim (Bool-cases (c == x)) [ inl a ↦ rw a refl | inr a ↦ rw a refl ])
]

-- A text without a match, and a match behind it: that is the first one, where the first byte stands
-- only at the start of the text that is looked for.
pub strstr_first :
    (s : Bytes) (c : ℕ) (p t : Bytes)
    → Avoids c p
    → strstr s (c ∷ p) ≡ none
    → strstr (s ++ (c ∷ (p ++ t))) (c ∷ p) ≡ some (c ∷ (p ++ t))
unfolding strstr
strstr_first [] c p t h none_in = strstr_here (c ∷ p) t
strstr_first (x ∷ s) c p t h none_in =
    let (here, later) = strstr-none x s (c ∷ p) none_in in
    rw (starts_with_inside c p x s (p ++ t) h here) (strstr_first s c p t h later)

pub take_all : (s t : Bytes) → take (length s) (s ++ t) ≡ s
take_all [] t = refl
take_all (x ∷ s) t = ap (λ u. x ∷ u) (take_all s t)

-- The part in front of a match.
pub in_front-append : (s t : Bytes) → in_front (s ++ t) t ≡ s
in_front-append s t =
    let front : length (s ++ t) - length t ≡ length s = omega (arith, length-append s t) in
    ap (λ n. take n (s ++ t)) front ∙ take_all s t

-- The first match is at the start, or it is the first one of the rest.
pub strstr-cases :
    (c : ℕ) (s p r : Bytes)
    → strstr (c ∷ s) p ≡ some r
    → ((starts_with p (c ∷ s) ≡ true) × (c ∷ s ≡ r))
      ⊎ ((starts_with p (c ∷ s) ≡ false) × (strstr s p ≡ some r))
unfolding strstr
strstr-cases c s p r h = elim (Bool-cases (starts_with p (c ∷ s))) [
  | inl e ↦ inl (e, cc (rw e at h))
  | inr e ↦ inr (e, rw e at h)
]

pub in_front-cons :
    (c : ℕ) (s r : Bytes) → length r ≤ length s → in_front (c ∷ s) r ≡ c ∷ in_front s r
in_front-cons c s r h =
    let n : suc (length s) - length r ≡ suc (length s - length r) = omega (arith, h) in
    ap (λ k. take k (c ∷ s)) n

pub in_front_self : (s : Bytes) → in_front s s ≡ []
in_front_self s = let n : length s - length s ≡ 0 = omega arith in ap (λ k. take k s) n

pub in_front-strstr : (s p r : Bytes) → strstr s p ≡ some r → in_front s r ++ r ≡ s
unfolding strstr
in_front-strstr [] [] r h = let e : [] ≡ r = cc h in sym (ap (λ t. in_front [] t ++ t) e)
in_front-strstr [] (x ∷ p) r h = cc h
in_front-strstr (c ∷ s) p r h = elim (strstr-cases c s p r h) [
  | inl (_, e) ↦ rw (sym e) (ap (λ t. t ++ (c ∷ s)) (in_front_self (c ∷ s)))
  | inr (_, found) ↦
      ap (λ t. t ++ r) (in_front-cons c s r (length-strstr_le s p r found))
      ∙ ap (λ t. c ∷ t) (in_front-strstr s p r found)
]

pub drop_all : (s t : Bytes) → drop (length s) (s ++ t) ≡ t
drop_all [] t = refl
drop_all (x ∷ s) t = drop_all s t
