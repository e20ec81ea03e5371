-- ===== src/Account/Storage.antt =====
-- The file of accounts: what is saved is read back.
use hust_network_programming.Base.{
  ℕ, zero, suc, ◌+◌, ◌-◌, ◌<◌, ◌≤◌, ◌≡◌, ◌≢◌, refl, sym, ap, ◌∙◌, Bool, true, false, not, List, [],
  ◌∷◌, ◌++◌, arith, length, length-append, append_assoc, append-nil, ◌==◌, leb, some, pos,
}
use mathlib.Core.Path.{ap₂}
use hust_network_programming.CText.{
  Bytes, codes, from, is_line_end, strncpy_short, before-append, from-append, before_all, from_all,
  None, None-append,
}
use hust_network_programming.Account.{
  Account, stored, fgets, strtok, token, tail, is_colon, parse_line, load_loop, load_accounts,
  save_accounts, account_line, account_lines, first_header, second_header, max_accounts,
  append_parsed, is_skipped,
}

-- A text that can stand between two colons of a line.
pub record IsField (s : Bytes) (room : ℕ) : Type 0 where
  pub no_colon : None is_colon s
  pub no_end : None is_line_end s
  pub nonempty : s ≢ []
  pub fits : length s ≤ room

abbrev starts_comment : Bytes → Bool
starts_comment [] = false
starts_comment (c ∷ s) = c == b'#'

pub record IsStorable (a : Account) : Type 0 where
  pub username_field : IsField a.username 63
  pub no_comment : starts_comment a.username ≡ false
  pub password_field : IsField a.password 63
  pub root_dir_field : IsField a.root_dir 255

-- `fgets` takes a line of at most `n` bytes whole, with its newline.
fgets-append :
    (n : ℕ) (s rest : Bytes)
    → None is_line_end s
    → length s < n
    → fgets n (s ++ (b'\n' ∷ rest)) ≡ (s ++ b'\n' ∷ [], rest)
unfolding fgets
fgets-append zero s rest h l = absurd (omega arith)
fgets-append (suc n) [] rest h l = refl
fgets-append (suc n) (c ∷ s) rest h l = rw (fgets-append n s rest h.1 (omega arith)) (ground arith)

skip_no_colon :
    (c : ℕ) (s : Bytes) → is_colon c ≡ false → from (λ x. not (is_colon x)) (c ∷ s) ≡ c ∷ s
skip_no_colon c s h = ground arith

strtok-append :
    (s rest : Bytes) → None is_colon s → s ≢ [] → strtok (s ++ (b':' ∷ rest)) ≡ some (s, rest)
unfolding strtok
strtok-append [] rest h ne = absurd (ne refl)
strtok-append (c ∷ s) rest h ne =
    ap token (skip_no_colon c (s ++ (b':' ∷ rest)) h.0)
    ∙ ap₂ (λ a b. some (a, tail b)) (before-append is_colon (c ∷ s) b':' rest h refl)
        (from-append is_colon (c ∷ s) b':' rest h refl)

strtok_last : (s : Bytes) → None is_colon s → s ≢ [] → strtok s ≡ some (s, [])
unfolding strtok
strtok_last [] h ne = absurd (ne refl)
strtok_last (c ∷ s) h ne =
    ap token (skip_no_colon c s h.0)
    ∙ ap₂ (λ a b. some (a, tail b)) (before_all is_colon (c ∷ s) h) (from_all is_colon (c ∷ s) h)

abbrev content_of : Account → Bytes
content_of a = a.username ++ (b':' ∷ (a.password ++ (b':' ∷ a.root_dir)))

account_line-content : (a : Account) → account_line a ≡ content_of a ++ b'\n' ∷ []
account_line-content a = simp append_assoc

None-content : (a : Account) → IsStorable a → None is_line_end (content_of a)
None-content a h = None-append is_line_end a.username _ h.username_field.no_end (
  refl,
  None-append is_line_end a.password _ h.password_field.no_end (refl, h.root_dir_field.no_end),
)

length-content : (a : Account) → IsStorable a → length (content_of a) < 511
length-content a h = omega (
  arith,
  length-append a.username (b':' ∷ (a.password ++ (b':' ∷ a.root_dir))),
  length-append a.password (b':' ∷ a.root_dir),
  h.username_field.fits,
  h.password_field.fits,
  h.root_dir_field.fits,
)

is_skipped-content :
    (u rest : Bytes) → u ≢ [] → starts_comment u ≡ false → is_skipped (u ++ rest) ≡ false
unfolding is_skipped
is_skipped-content [] rest ne h = absurd (ne refl)
is_skipped-content (c ∷ u) rest ne h = h

stored_lem : (a : Account) → IsStorable a → stored a.username a.password a.root_dir ≡ a
stored_lem a h = ground (
  arith,
  strncpy_short 63 a.username h.username_field.fits,
  strncpy_short 63 a.password h.password_field.fits,
  strncpy_short 255 a.root_dir h.root_dir_field.fits,
)

-- The line that is saved for an account is read as that account.
parse_line-account_line :
    (a : Account) → IsStorable a → parse_line (content_of a ++ b'\n' ∷ []) ≡ some a
unfolding parse_line
parse_line-account_line a h =
    rw (before-append is_line_end (content_of a) b'\n' [] (None-content a h) refl) (
      ground (
        arith,
        is_skipped-content a.username (b':' ∷ (a.password ++ (b':' ∷ a.root_dir)))
            h.username_field.nonempty h.no_comment,
        strtok-append a.username (a.password ++ (b':' ∷ a.root_dir)) h.username_field.no_colon
            h.username_field.nonempty,
        strtok-append a.password a.root_dir h.password_field.no_colon h.password_field.nonempty,
        strtok_last a.root_dir h.root_dir_field.no_colon h.root_dir_field.nonempty,
        stored_lem a h,
      ))

fgets-account_line :
    (a : Account) (rest : Bytes)
    → IsStorable a
    → fgets 511 (account_line a ++ rest) ≡ (content_of a ++ b'\n' ∷ [], rest)
fgets-account_line a rest h =
    ap (fgets 511)
      (ap (λ t. t ++ rest) (account_line-content a) ∙ append_assoc (content_of a) (b'\n' ∷ []) rest)
    ∙ fgets-append 511 (content_of a) rest (None-content a h) (length-content a h)

load_loop-step :
    (fuel : ℕ) (table : List Account) (content line rest : Bytes)
    → 0 < length content
    → leb max_accounts (length table) ≡ false
    → fgets 511 content ≡ (line, rest)
    → load_loop (suc fuel) table content
      ≡ load_loop fuel (append_parsed table (parse_line line)) rest
unfolding load_loop
load_loop-step fuel table [] line rest p h e = absurd (omega arith)
load_loop-step fuel table (c ∷ content) line rest p h e = rw (h, e) refl

load_loop-nil : (fuel : ℕ) (table : List Account) → load_loop fuel table [] ≡ table
unfolding load_loop
load_loop-nil zero table = refl
load_loop-nil (suc fuel) table = refl

abbrev pub AllStorable : List Account → Type 0
AllStorable [] = Unit
AllStorable (a ∷ table) = IsStorable a × AllStorable table

length-account_line : (a : Account) (rest : Bytes) → length rest < length (account_line a ++ rest)
length-account_line a rest = omega (
  arith,
  length-append (account_line a) rest,
  length-append a.username (b':' ∷ (a.password ++ (b':' ∷ (a.root_dir ++ b'\n' ∷ [])))),
)

load_loop-account_lines :
    (fuel : ℕ) (table more : List Account)
    → AllStorable more
    → length table + length more ≤ max_accounts
    → length (account_lines more) ≤ fuel
    → load_loop fuel table (account_lines more) ≡ table ++ more
load_loop-account_lines fuel table [] h fits enough =
    load_loop-nil fuel table ∙ sym (append-nil table)
load_loop-account_lines zero table (a ∷ more) h fits enough =
    absurd (omega (arith, length-account_line a (account_lines more)))
load_loop-account_lines (suc fuel) table (a ∷ more) h fits enough =
    load_loop-step fuel table (account_lines (a ∷ more)) _ _
      (omega (arith, length-account_line a (account_lines more))) (ground arith)
      (fgets-account_line a (account_lines more) h.0)
    ∙ ap (λ o. load_loop fuel (append_parsed table o) (account_lines more))
        (parse_line-account_line a h.0)
    ∙ load_loop-account_lines fuel (table ++ a ∷ []) more h.1
        (omega (arith, length-append table (a ∷ [])))
        (omega (arith, length-account_line a (account_lines more)))
    ∙ append_assoc table (a ∷ []) more

load_loop-header :
    (fuel : ℕ) (rest : Bytes)
    → load_loop (suc (suc (suc fuel))) [] (first_header ++ (second_header ++ (b'\n' ∷ rest)))
      ≡ load_loop fuel [] rest
unfolding load_loop codes fgets parse_line is_skipped
load_loop-header fuel rest = refl

abbrev saved : List Account → Bytes
saved table = first_header ++ (second_header ++ (b'\n' ∷ account_lines table))

length-saved : (table : List Account) → 3 + length (account_lines table) ≤ length (saved table)
unfolding codes
length-saved table = omega arith

load_loop-saved :
    (table : List Account)
    → AllStorable table
    → length table ≤ max_accounts
    → load_loop (length (saved table)) [] (saved table) ≡ table
load_loop-saved table h fits =
    let f = length (saved table) - 3 in
    let e : length (saved table) ≡ suc (suc (suc f)) = omega (arith, length-saved table) in
    ap (λ n. load_loop n [] (saved table)) e
    ∙ load_loop-header f (account_lines table)
    ∙ load_loop-account_lines f [] table h (omega arith) (omega (arith, length-saved table))

-- A table of at most 100 accounts is read back from the file that it was saved to. The texts of
-- each account are not empty, fit in their arrays, and hold no colon, CR, LF or zero, and no user
-- name begins with `#`.
pub load_accounts-save_accounts :
    (table old : List Account) (content : Bytes)
    → AllStorable table
    → length table ≤ max_accounts
    → (save_accounts true table).1 ≡ some content
    → load_accounts (some content) old ≡ (pos (length table), table)
unfolding load_accounts save_accounts
load_accounts-save_accounts table old content h fits e =
    let e' : content ≡ saved table = cc e in rw (e', load_loop-saved table h fits) refl
