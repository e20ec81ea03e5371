-- ===== src/HttpServer/Decoding.antt =====
-- The two programs' ways to decode a path.
use hust_network_programming.Base.{
  ℕ, zero, suc, ◌<◌, ◌≡◌, refl, sym, ap, ◌∙◌, true, false, [], ◌∷◌, ◌++◌, none, some, arith, length,
  length-append, length-drop, drop, Bool-cases, Option-cases, inl, inr,
}
use hust_network_programming.CText.{Bytes}
use hust_network_programming.CText.Search.{
  starts_with, strstr, in_front, strstr-cases, strstr-none, in_front-cons, in_front_self,
  in_front-strstr, length-strstr, length-strstr_le, starts_with_before, starts_with_longer,
  length-starts_with,
}
use hust_network_programming.HttpUpload.{code_20, decode_from, decode_url}
use hust_network_programming.HttpServer.{decode_round, decode_path}

decode_from-drop : (k : ℕ) (s : Bytes) → decode_from k s ≡ decode_from 0 (drop k s)
unfolding decode_from
decode_from-drop zero s = refl
decode_from-drop (suc k) [] = refl
decode_from-drop (suc k) (c ∷ s) = decode_from-drop k s

decode_from-code :
    (c : ℕ) (s : Bytes)
    → starts_with code_20 (c ∷ s) ≡ true
    → decode_from 0 (c ∷ s) ≡ b' ' ∷ decode_from 0 (drop 2 s)
unfolding decode_from
decode_from-code c s h = rw h (ap (λ t. b' ' ∷ t) (decode_from-drop 2 s))

decode_from-other :
    (c : ℕ) (s : Bytes)
    → starts_with code_20 (c ∷ s) ≡ false
    → decode_from 0 (c ∷ s) ≡ c ∷ decode_from 0 s
unfolding decode_from
decode_from-other c s h = rw h refl

-- Without a code the path stays.
decode_from-none : (s : Bytes) → strstr s code_20 ≡ none → decode_from 0 s ≡ s
decode_from-none [] h = unfold decode_from in refl
decode_from-none (c ∷ s) h =
    let (here, later) = strstr-none c s code_20 h in
    decode_from-other c s here ∙ ap (λ t. c ∷ t) (decode_from-none s later)

-- The new space makes no new code.
no_new_code :
    (c : ℕ) (s r t : Bytes)
    → strstr s code_20 ≡ some r
    → starts_with code_20 (c ∷ s) ≡ false
    → starts_with code_20 (c ∷ (in_front s r ++ (b' ' ∷ t))) ≡ false
no_new_code c s r t found h =
    elim (Bool-cases (starts_with code_20 (c ∷ (in_front s r ++ (b' ' ∷ t))))) [
      | inl e ↦
          let here =
            starts_with_before code_20 (c ∷ in_front s r) b' ' t (refl, (refl, (refl, tt))) e in
          let whole : starts_with code_20 (c ∷ (in_front s r ++ r))
              ≡ starts_with code_20 (c ∷ in_front s r) =
            starts_with_longer code_20 (c ∷ in_front s r) r
              (length-starts_with code_20 (c ∷ in_front s r) here) in
          absurd (
            cc (
              ap (λ u. starts_with code_20 (c ∷ u)) (in_front-strstr s code_20 r found),
              whole,
              here,
              h,
            ))
      | inr e ↦ e
    ]

decode_from-step :
    (s r : Bytes)
    → strstr s code_20 ≡ some r
    → decode_from 0 s ≡ decode_from 0 (in_front s r ++ (b' ' ∷ drop 3 r))
decode_from-step [] r h = absurd (unfold strstr in cc h)
decode_from-step (c ∷ s) r h = elim (strstr-cases c s code_20 r h) [
  | inl (here, e) ↦
      decode_from-code c s here
      ∙ sym (decode_from-other b' ' (drop 2 s) refl)
      ∙ ap (λ u. decode_from 0 (u ++ (b' ' ∷ drop 2 s))) (sym (in_front_self (c ∷ s)))
      ∙ ap (λ u. decode_from 0 (in_front (c ∷ s) u ++ (b' ' ∷ drop 3 u))) e
  | inr (here, found) ↦
      decode_from-other c s here
      ∙ ap (λ u. c ∷ u) (decode_from-step s r found)
      ∙ sym (
          decode_from-other c (in_front s r ++ (b' ' ∷ drop 3 r))
            (no_new_code c s r (drop 3 r) found here))
      ∙ ap (λ u. decode_from 0 (u ++ (b' ' ∷ drop 3 r)))
          (sym (in_front-cons c s r (length-strstr_le s code_20 r found)))
]

shorter :
    (s r : Bytes)
    → strstr s code_20 ≡ some r
    → length (in_front s r ++ (b' ' ∷ drop 3 r)) < length s
shorter s r h = omega (
  arith,
  length-append (in_front s r) (b' ' ∷ drop 3 r),
  length-append (in_front s r) r,
  ap length (in_front-strstr s code_20 r h),
  length-drop 3 r,
  length-strstr s code_20 r h,
)

decode_path-enough :
    (fuel : ℕ) (s : Bytes) → length s < fuel → decode_path fuel s ≡ some (decode_from 0 s)
unfolding decode_path
decode_path-enough zero s h = absurd (omega (arith, h))
decode_path-enough (suc fuel) s h = elim (Option-cases (strstr s code_20)) [
  | inl e ↦ ap (decode_round (decode_path fuel) s) e ∙ ap some (sym (decode_from-none s e))
  | inr (r, e) ↦
      ap (decode_round (decode_path fuel) s) e
      ∙ decode_path-enough fuel (in_front s r ++ (b' ' ∷ drop 3 r))
          (omega (arith, shorter s r e, h))
      ∙ ap some (sym (decode_from-step s r e))
]

-- The loop of np20.c that replaces the first `%20` of a path again and again ends after at most as
-- many rounds as the path has bytes, and one more that finds none, with the result of the single
-- pass of http_upload.c.
pub decode_path-decode_url :
    (path : Bytes) (fuel : ℕ) → length path < fuel → decode_path fuel path ≡ some (decode_url path)
unfolding decode_url
decode_path-decode_url path fuel h = decode_path-enough fuel path h
