-- ===== src/CText/Scan.antt =====
-- The directive `%s` of `sscanf`, into an array.
use hust_network_programming.Base.{
  ℕ, ◌+◌, ◌<◌, ◌≡◌, ◌≢◌, refl, ap, ◌∙◌, sym, Bool, [], ◌∷◌, ◌++◌, append-nil, Option, none, some,
  length, lt→ltb, ◌==◌, false, arith, true,
}
use mathlib.Core.Path.{ap₂}
use hust_network_programming.CText.{
  Bytes, before, from, is_space, skip_space, scan_word, None, before-append, from-append,
  before_all, from_all,
}
use hust_network_programming.CText.Decimal.{scan_int}
use hust_network_programming.Outcome.{Outcome, done, undefined, fit}

abbrev kept : Outcome Bytes → Bytes → Outcome (Option (Bytes × Bytes))
kept undefined rest = undefined
kept (done w) rest = done (some (w, rest))

abbrev pub matched : ℕ → Bytes × Bytes → Outcome (Option (Bytes × Bytes))
matched room ([], rest) = done none
matched room (c ∷ w, rest) = kept (fit room (c ∷ w)) rest

-- The word and the text behind it; `none` where no word is left. A word that does not fit the array
-- is undefined.
unfoldable pub word : ℕ → Bytes → Outcome (Option (Bytes × Bytes))
word room s = matched room (scan_word s)

abbrev pub is_nul : ℕ → Bool
is_nul c = c == 0

pub digit_no_space : (d : ℕ) → d < 10 → is_space (48 + d) ≡ false
digit_no_space d h = ground arith

pub digit_no_nul : (d : ℕ) → d < 10 → is_nul (48 + d) ≡ false
digit_no_nul d h = ground arith

-- A word for an array of `room` bytes.
pub record IsWord (w : Bytes) (room : ℕ) : Type 0 where
  pub nonempty : w ≢ []
  pub no_space : None is_space w
  pub no_nul : None is_nul w
  pub fits : length w < room

-- White space in front of a word or a number is skipped.
pub word-space : (room : ℕ) (s : Bytes) → word room (b' ' ∷ s) ≡ word room s
unfolding word scan_word skip_space
word-space room s = refl

pub scan_int-space : (s : Bytes) → scan_int (b' ' ∷ s) ≡ scan_int s
unfolding scan_int skip_space
scan_int-space s = refl

skip_space_word : (w rest : Bytes) → w ≢ [] → None is_space w → skip_space (w ++ rest) ≡ w ++ rest
unfolding skip_space
skip_space_word [] rest ne h = absurd (ne refl)
skip_space_word (c ∷ w) rest ne h = rw h.0 refl

matched-word :
    (room : ℕ) (w rest : Bytes)
    → w ≢ []
    → length w < room
    → matched room (w, rest) ≡ done (some (w, rest))
matched-word room [] rest ne h = absurd (ne refl)
matched-word room (c ∷ w) rest ne h = rw (lt→ltb (length (c ∷ w)) room h) refl

-- A word is read up to the white space behind it, or up to the end.
pub word-append_at :
    (room : ℕ) (w : Bytes) (c : ℕ) (rest : Bytes)
    → IsWord w room
    → is_space c ≡ true
    → word room (w ++ (c ∷ rest)) ≡ done (some (w, c ∷ rest))
unfolding word scan_word
word-append_at room w c rest h space =
    ap (λ t. matched room (before is_space t, from is_space t))
      (skip_space_word w (c ∷ rest) h.nonempty h.no_space)
    ∙ ap (matched room) (
        ap₂ (λ a b. (a, b)) (before-append is_space w c rest h.no_space space)
          (from-append is_space w c rest h.no_space space))
    ∙ matched-word room w (c ∷ rest) h.nonempty h.fits

pub word-append :
    (room : ℕ) (w rest : Bytes)
    → IsWord w room
    → word room (w ++ (b' ' ∷ rest)) ≡ done (some (w, b' ' ∷ rest))
word-append room w rest h = word-append_at room w b' ' rest h refl

-- A word that ends the text.
pub scan_word_all : {room : ℕ} (w : Bytes) → IsWord w room → scan_word w ≡ (w, [])
unfolding scan_word
scan_word_all w h =
    ap (λ t. (before is_space t, from is_space t))
      (sym (ap skip_space (append-nil w))
        ∙ skip_space_word w [] h.nonempty h.no_space
        ∙ append-nil w)
    ∙ ap₂ (λ a b. (a, b)) (before_all is_space w h.no_space) (from_all is_space w h.no_space)

pub word_all : (room : ℕ) (w : Bytes) → IsWord w room → word room w ≡ done (some (w, []))
unfolding word
word_all room w h = ap (matched room) (scan_word_all w h) ∙ matched-word room w [] h.nonempty h.fits
