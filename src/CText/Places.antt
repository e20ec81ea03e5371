-- ===== src/CText/Places.antt =====
-- Where the first place of a text for `strstr` lies.
use hust_network_programming.Base.{
  ℕ, ◌≡◌, refl, true, false, [], ◌∷◌, ◌++◌, none, ◌==◌, arith, Bool-cases, inl, inr,
}
use hust_network_programming.CText.{Bytes, Avoids}
use hust_network_programming.CText.Search.{starts_with, strstr, starts_with_before, strstr-none}

no_longer :
    (p s : Bytes) (c : ℕ) (t : Bytes)
    → Avoids c p
    → starts_with p s ≡ false
    → starts_with p (s ++ (c ∷ t)) ≡ false
no_longer p s c t h e = elim (Bool-cases (starts_with p (s ++ (c ∷ t)))) [
  | inl more ↦ absurd (cc (starts_with_before p s c t h more, e))
  | inr less ↦ less
]

starts_with_last :
    (p s : Bytes) (c : ℕ) (t : Bytes)
    → Avoids c p
    → starts_with (p ++ (c ∷ [])) (s ++ (c ∷ t)) ≡ true
    → starts_with (p ++ (c ∷ [])) (s ++ (c ∷ [])) ≡ true
starts_with_last [] [] c t h e = e
starts_with_last [] (y ∷ s) c t h e = e
starts_with_last (x ∷ p) [] c t h e = absurd (ground (arith, h.0, e))
starts_with_last (x ∷ p) (y ∷ s) c t h e = elim (Bool-cases (x == y)) [
  | inl same ↦ rw same (starts_with_last p s c t h.1 (rw same at e))
  | inr other ↦ absurd (ground (arith, other, e))
]

no_longer_last :
    (p s : Bytes) (c : ℕ) (t : Bytes)
    → Avoids c p
    → starts_with (p ++ (c ∷ [])) (s ++ (c ∷ [])) ≡ false
    → starts_with (p ++ (c ∷ [])) (s ++ (c ∷ t)) ≡ false
no_longer_last p s c t h e = elim (Bool-cases (starts_with (p ++ (c ∷ [])) (s ++ (c ∷ t)))) [
  | inl more ↦ absurd (cc (starts_with_last p s c t h more, e))
  | inr less ↦ less
]

-- A text without a match is passed over up to a byte that no match reaches.
pub strstr_past :
    (s : Bytes) (c : ℕ) (x : ℕ) (p t : Bytes)
    → Avoids c (x ∷ p)
    → strstr s (x ∷ p) ≡ none
    → strstr (s ++ (c ∷ t)) (x ∷ p) ≡ strstr t (x ∷ p)
unfolding strstr
strstr_past [] c x p t h none_in = let other : (x == c) ≡ false = h.0 in rw other refl
strstr_past (y ∷ s) c x p t h none_in =
    let (here, later) = strstr-none y s (x ∷ p) none_in in
    rw (no_longer (x ∷ p) (y ∷ s) c t h here) (strstr_past s c x p t h later)

-- The same up to the last byte of a match.
pub strstr_past_last :
    (s : Bytes) (c : ℕ) (p t : Bytes)
    → Avoids c p
    → strstr (s ++ (c ∷ [])) (p ++ (c ∷ [])) ≡ none
    → strstr (s ++ (c ∷ t)) (p ++ (c ∷ [])) ≡ strstr t (p ++ (c ∷ []))
unfolding strstr
strstr_past_last [] c p t h none_in =
    let (here, later) = strstr-none c [] (p ++ (c ∷ [])) none_in in
    rw (no_longer_last p [] c t h here) refl
strstr_past_last (y ∷ s) c p t h none_in =
    let (here, later) = strstr-none y (s ++ (c ∷ [])) (p ++ (c ∷ [])) none_in in
    rw (no_longer_last p (y ∷ s) c t h here) (strstr_past_last s c p t h later)

starts_with_front :
    (p s : Bytes) (c : ℕ) → starts_with p s ≡ false → starts_with (p ++ (c ∷ [])) s ≡ false
starts_with_front [] s c h = cc h
starts_with_front (x ∷ p) [] c h = refl
starts_with_front (x ∷ p) (y ∷ s) c h = elim (Bool-cases (x == y)) [
  | inl e ↦ rw e (starts_with_front p s c (rw e at h))
  | inr e ↦ rw e refl
]

-- Without a match there is none of a longer text.
pub strstr_front : (s p : Bytes) (c : ℕ) → strstr s p ≡ none → strstr s (p ++ (c ∷ [])) ≡ none
unfolding strstr
strstr_front [] [] c h = refl
strstr_front [] (x ∷ p) c h = refl
strstr_front (y ∷ s) p c h =
    let (here, later) = strstr-none y s p h in
    rw (starts_with_front p (y ∷ s) c here) (strstr_front s p c later)
