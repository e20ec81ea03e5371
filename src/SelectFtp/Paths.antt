-- ===== src/SelectFtp/Paths.antt =====
-- The shared folder of np22.c: how CWD and CDUP change it.
use mathlib.Core.Path.{subst}
use hust_network_programming.Base.{
  ltb, ltb→lt, ℕ, zero, suc, ◌+◌, ◌≤◌, ◌<◌, ◌≡◌, ◌⊎◌, refl, sym, ap, ◌∙◌, Bool, true, false, [],
  ◌∷◌, ◌++◌, ◌==◌, arith, length, length-append, if◌then◌else◌, Bool-cases, inl, inr,
}
use hust_network_programming.CText.{Bytes, codes, str_eq, Avoids}
use hust_network_programming.Outcome.{Outcome, done, undefined, fit, fit-done, Outcome-cases}
use hust_network_programming.HttpUpload.{last_or}
use hust_network_programming.SelectFtp.{
  drop_last, trim, is_line_byte, no_slash, folder_of, joined, enter_folder, without_slash,
  parent_folder,
}

-- Every byte of the text passes the test.
abbrev pub All : (ℕ → Bool) → Bytes → Type 0
All p [] = Unit
All p (c ∷ s) = (p c ≡ true) × All p s

last_or-append : (d : ℕ) (s : Bytes) (c : ℕ) (w : Bytes) → last_or d (s ++ (c ∷ w)) ≡ last_or c w
last_or-append d [] c w = refl
last_or-append d (x ∷ s) c w = last_or-append x s c w

drop_last-append :
    (s : Bytes) (c d : ℕ) (w : Bytes) → drop_last (s ++ (c ∷ d ∷ w)) ≡ s ++ (c ∷ drop_last (d ∷ w))
drop_last-append [] c d w = refl
drop_last-append (x ∷ []) c d w = refl
drop_last-append (x ∷ y ∷ s) c d w = ap (λ t. x ∷ t) (drop_last-append (y ∷ s) c d w)

All-drop_last : (p : ℕ → Bool) (w : Bytes) → All p w → All p (drop_last w)
All-drop_last p [] h = tt
All-drop_last p (c ∷ []) h = tt
All-drop_last p (c ∷ d ∷ w) h = (h.0, All-drop_last p (d ∷ w) h.1)

All-last_or : (p : ℕ → Bool) (d : ℕ) (w : Bytes) → All p (d ∷ w) → p (last_or d w) ≡ true
All-last_or p d [] h = h.0
All-last_or p d (c ∷ w) h = All-last_or p c w h.1

pub length-drop_last : (c : ℕ) (s : Bytes) → length (drop_last (c ∷ s)) ≡ length s
length-drop_last c [] = refl
length-drop_last c (d ∷ s) = ap suc (length-drop_last d s)

-- The loop stops at the last byte that does not pass.
trim-append :
    (p : ℕ → Bool) (empty : Outcome Bytes) (fuel : ℕ) (s : Bytes) (c : ℕ) (w : Bytes)
    → p c ≡ false
    → All p w
    → length w < fuel
    → trim p empty fuel (s ++ (c ∷ w)) ≡ done (s ++ (c ∷ []))
unfolding trim
trim-append p empty zero s c w stop h enough = absurd (omega (arith, enough))
trim-append p empty (suc fuel) [] c [] stop h enough = rw stop refl
trim-append p empty (suc fuel) (x ∷ s) c [] stop h enough =
    rw (last_or-append x s c []) (rw stop refl)
trim-append p empty (suc fuel) [] c (d ∷ w) stop h enough = rw (All-last_or p d w h) (
    trim-append p empty fuel [] c (drop_last (d ∷ w)) stop (All-drop_last p (d ∷ w) h)
      (omega (arith, enough, length-drop_last d w)))
trim-append p empty (suc fuel) (x ∷ s) c (d ∷ w) stop h enough = rw (last_or-append x s c (d ∷ w)) (
    rw (All-last_or p d w h) (
      ap (trim p empty fuel) (drop_last-append (x ∷ s) c d w)
      ∙ trim-append p empty fuel (x ∷ s) c (drop_last (d ∷ w)) stop (All-drop_last p (d ∷ w) h)
          (omega (arith, enough, length-drop_last d w))))

Avoids-All : (s : Bytes) → Avoids b'/' s → All no_slash s
Avoids-All [] h = tt
Avoids-All (c ∷ s) h = (rw h.0 refl, Avoids-All s h.1)

-- A folder that CWD can be left again by CDUP: it is the root, or it does not end with a slash.
abbrev pub IsFolder : Bytes → Type 0
IsFolder root =
    (root ≡ b'/' ∷ []) ⊎ ((c : ℕ) × (s : Bytes) × (root ≡ c ∷ s) × ((last_or c s == b'/') ≡ false))

not_empty : (s : Bytes) → str_eq (s ++ (b'/' ∷ [])) [] ≡ false
unfolding str_eq
not_empty [] = refl
not_empty (x ∷ s) = refl

pub drop_last_snoc : (s : Bytes) (c : ℕ) → drop_last (s ++ (c ∷ [])) ≡ s
drop_last_snoc [] c = refl
drop_last_snoc (x ∷ []) c = refl
drop_last_snoc (x ∷ y ∷ s) c = ap (λ t. x ∷ t) (drop_last_snoc (y ∷ s) c)

longer_than_root : (c : ℕ) (s : Bytes) → str_eq (c ∷ (s ++ (b'/' ∷ []))) (codes "/") ≡ false
unfolding str_eq codes
longer_than_root c s = elim (Bool-cases (c == b'/')) [
  | inl e ↦ rw e (not_empty s)
  | inr e ↦ rw e refl
]

parent_folder-root : (w : Bytes) → Avoids b'/' w → parent_folder (b'/' ∷ w) ≡ done (b'/' ∷ [])
unfolding parent_folder codes str_eq
parent_folder-root w h =
    ap without_slash (
      trim-append no_slash undefined (suc (length w)) [] b'/' w refl (Avoids-All w h) (omega arith))

parent_folder-below :
    (c : ℕ) (s w : Bytes) → Avoids b'/' w → parent_folder ((c ∷ s) ++ (b'/' ∷ w)) ≡ done (c ∷ s)
unfolding parent_folder
parent_folder-below c s w h =
    let cut =
      trim-append no_slash undefined (length ((c ∷ s) ++ (b'/' ∷ w))) (c ∷ s) b'/' w refl
        (Avoids-All w h) (omega (arith, length-append s (b'/' ∷ w))) in
    ap without_slash cut
    ∙ ap (λ b. done (if b then (c ∷ s) ++ (b'/' ∷ []) else drop_last ((c ∷ s) ++ (b'/' ∷ []))))
        (longer_than_root c s)
    ∙ ap done (drop_last_snoc (c ∷ s) b'/')

folder_of-line :
    (s : Bytes) (c : ℕ)
    → is_line_byte c ≡ false
    → folder_of (s ++ (c ∷ b'\r' ∷ b'\n' ∷ [])) ≡ done (s ++ (c ∷ []))
unfolding folder_of
folder_of-line s c h =
    trim-append is_line_byte (done []) (length (s ++ (c ∷ b'\r' ∷ b'\n' ∷ []))) s c
      (b'\r' ∷ b'\n' ∷ []) h (refl, (refl, tt))
      (omega (arith, length-append s (c ∷ b'\r' ∷ b'\n' ∷ [])))

-- The first byte is a slash.
abbrev pub IsAbsolute : Bytes → Type 0
IsAbsolute [] = ⊥
IsAbsolute (c ∷ s) = c ≡ b'/'

-- A folder that is entered is left by CDUP.
pub parent_folder-enter_folder :
    (root s : Bytes) (c : ℕ)
    → IsFolder root
    → Avoids b'/' (s ++ (c ∷ []))
    → is_line_byte c ≡ false
    → length root + length s < 1022
    → (path : Bytes) × (enter_folder root (s ++ (c ∷ b'\r' ∷ b'\n' ∷ [])) ≡ done path)
      × (parent_folder path ≡ done root)
unfolding enter_folder
parent_folder-enter_folder root s c (inl e) h line short = (
  b'/' ∷ (s ++ (c ∷ [])),
  ap (λ r. joined r (folder_of (s ++ (c ∷ b'\r' ∷ b'\n' ∷ [])))) e
      ∙ ap (joined (b'/' ∷ [])) (folder_of-line s c line)
      ∙ fit-done 1024 (b'/' ∷ (s ++ (c ∷ []))) (omega (arith, short, length-append s (c ∷ []))),
  parent_folder-root (s ++ (c ∷ [])) h ∙ ap done (sym e),
)
parent_folder-enter_folder root s c (inr (d, t, e, other)) h line short = (
  (d ∷ t) ++ (b'/' ∷ (s ++ (c ∷ []))),
  ap (λ r. joined r (folder_of (s ++ (c ∷ b'\r' ∷ b'\n' ∷ [])))) e
      ∙ ap (joined (d ∷ t)) (folder_of-line s c line)
      ∙ ap (λ b. fit 1024 ((d ∷ t) ++ (if b then s ++ (c ∷ []) else b'/' ∷ (s ++ (c ∷ []))))) other
      ∙ fit-done 1024 ((d ∷ t) ++ (b'/' ∷ (s ++ (c ∷ [])))) (
          omega (
            arith,
            short,
            length-append s (c ∷ []),
            length-append t (b'/' ∷ (s ++ (c ∷ []))),
            ap length e,
          )),
  parent_folder-below d t (s ++ (c ∷ [])) h ∙ ap done (sym e),
)

-- What the loop of CDUP leaves of an absolute path.
record IsCut (s p : Bytes) : Type 0 where
  absolute : IsAbsolute p
  short : length p ≤ length s

trim-IsAbsolute :
    (fuel : ℕ) (s : Bytes)
    → IsAbsolute s
    → length s ≤ fuel
    → (p : Bytes) × (trim no_slash undefined fuel s ≡ done p) × IsCut s p
unfolding trim
trim-IsAbsolute zero [] h enough = elim h [ ]
trim-IsAbsolute (suc fuel) [] h enough = elim h [ ]
trim-IsAbsolute zero (c ∷ s) h enough = absurd (omega (arith, enough))
trim-IsAbsolute (suc fuel) (c ∷ []) h enough =
    let slash : no_slash c ≡ false = ground (arith, h) in
    (c ∷ [], rw slash refl, record { absolute = h; short = omega arith })
trim-IsAbsolute (suc fuel) (c ∷ d ∷ s) h enough = elim (Bool-cases (no_slash (last_or d s))) [
  | inl more ↦
      let (p, e, cut) =
        trim-IsAbsolute fuel (c ∷ drop_last (d ∷ s)) h
          (omega (arith, enough, length-drop_last d s)) in
      let shorter = cut.short in
      (
        p,
        rw more e,
        record { absolute = cut.absolute; short = omega (arith, shorter, length-drop_last d s) },
      )
  | inr stop ↦ (c ∷ d ∷ s, rw stop refl, record { absolute = h; short = omega arith })
]

without_slash-IsAbsolute :
    (p : Bytes)
    → IsAbsolute p
    → (q : Bytes) × (without_slash (done p) ≡ done q) × IsAbsolute q × (length q ≤ length p)
unfolding str_eq codes
without_slash-IsAbsolute [] h = elim h [ ]
without_slash-IsAbsolute (c ∷ []) h =
    let root : (c == b'/') ≡ true = ground (arith, h) in (c ∷ [], rw root refl, h, omega arith)
without_slash-IsAbsolute (c ∷ d ∷ s) h =
    let root : (c == b'/') ≡ true = ground (arith, h) in
    (c ∷ drop_last (d ∷ s), rw root refl, h, omega (arith, length-drop_last d s))

fitted-IsAbsolute :
    (c : ℕ) (s path : Bytes)
    → c ≡ b'/'
    → fit 1024 (c ∷ s) ≡ done path
    → IsAbsolute path × (length path < 1024)
fitted-IsAbsolute c s path h e = elim (Bool-cases (ltb (length (c ∷ s)) 1024)) [
  | inl fits ↦
      let same : c ∷ s ≡ path = cc (rw fits at e) in
      (subst IsAbsolute same h, omega (arith, ap length same, ltb→lt (length (c ∷ s)) 1024 fits))
  | inr long ↦ absurd (cc (rw long at e))
]

pub parent_folder-IsAbsolute :
    (s : Bytes)
    → IsAbsolute s
    → (p : Bytes) × (parent_folder s ≡ done p) × IsAbsolute p × (length p ≤ length s)
unfolding parent_folder
parent_folder-IsAbsolute s h =
    let (p, e, cut) = trim-IsAbsolute (length s) s h (omega arith) in
    let (q, f, a, l) = without_slash-IsAbsolute p cut.absolute in
    let shorter = cut.short in (q, ap without_slash e ∙ f, a, omega (arith, l, shorter))

pub enter_folder-IsAbsolute :
    (root rest path : Bytes)
    → IsAbsolute root
    → enter_folder root rest ≡ done path
    → IsAbsolute path × (length path < 1024)
unfolding enter_folder
enter_folder-IsAbsolute [] rest path h e = elim h [ ]
enter_folder-IsAbsolute (c ∷ root) rest path h e = elim (Outcome-cases (folder_of rest)) [
  | inl u ↦ absurd (cc (ap (joined (c ∷ root)) u, e))
  | inr (folder, d) ↦
      fitted-IsAbsolute c (root ++ (if last_or c root == b'/' then folder else b'/' ∷ folder)) path
        h (sym (ap (joined (c ∷ root)) d) ∙ e)
]
