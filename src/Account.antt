-- ===== src/Account.antt =====
-- FTP-client-server/server/src/account.c: the table of accounts and its file.
pub mod Login
pub mod Storage
mod Tests
use hust_network_programming.Base.{
  ℕ, zero, suc, ◌+◌, ◌-◌, Bool, true, false, not, ◌&&◌, ◌||◌, List, [], ◌∷◌, ◌++◌, Option, none,
  some, ◌==◌, leb, length, if◌then◌else◌, ℤ, pos, minus_one,
}
use hust_network_programming.CText.{Bytes, codes, strncpy, str_eq, before, from, is_line_end}

abbrev pub max_accounts : ℕ
max_accounts = 100

abbrev pub max_username : ℕ
max_username = 64

abbrev pub max_password : ℕ
max_password = 64

abbrev pub max_path_len : ℕ
max_path_len = 256

-- What `strncpy` leaves of each text in its zeroed array.
pub record Account : Type 0 where
  pub username : Bytes
  pub password : Bytes
  pub root_dir : Bytes

abbrev pub stored : Bytes → Bytes → Bytes → Account
stored u p r = record {
  username = strncpy (max_username - 1) u;
  password = strncpy (max_password - 1) p;
  root_dir = strncpy (max_path_len - 1) r;
}

-- `fgets` with room for `n` bytes before the zero: the line with its newline, and the rest.
unfoldable pub fgets : ℕ → Bytes → Bytes × Bytes
fgets zero s = ([], s)
fgets (suc n) [] = ([], [])
fgets (suc n) (c ∷ s) =
    let (line, rest) = fgets n s in if c == b'\n' then (c ∷ [], s) else (c ∷ line, rest)

abbrev pub is_colon : ℕ → Bool
is_colon c = c == b':'

abbrev pub tail : Bytes → Bytes
tail [] = []
tail (c ∷ s) = s

abbrev pub token : Bytes → Option (Bytes × Bytes)
token [] = none
token (c ∷ s) = some (before is_colon (c ∷ s), tail (from is_colon (c ∷ s)))

-- `strtok` with ":" on what is left of the line: delimiters in front are skipped.
unfoldable pub strtok : Bytes → Option (Bytes × Bytes)
strtok s = token (from (λ c. not (is_colon c)) s)

unfoldable pub is_skipped : Bytes → Bool
is_skipped [] = true
is_skipped (c ∷ s) = c == b'#'

-- The body of the loop: the account that a line holds.
unfoldable pub parse_line : Bytes → Option Account
unfolding is_skipped
parse_line raw =
    let line = before is_line_end raw in
    if is_skipped line then none else elim (strtok line) [
      | none ↦ none
      | some (u, after_u) ↦ elim (strtok after_u) [
        | none ↦ none
        | some (p, after_p) ↦ elim (strtok after_p) [
          | none ↦ none
          | some (r, _) ↦ some (stored u p r)
        ]
      ]
    ]

abbrev pub append_parsed : List Account → Option Account → List Account
append_parsed table none = table
append_parsed table (some a) = table ++ a ∷ []

-- The loop reads at least one byte a round, so the length of the file is enough fuel.
unfoldable pub load_loop : ℕ → List Account → Bytes → List Account
load_loop zero table content = table
load_loop (suc fuel) table [] = table
load_loop (suc fuel) table (c ∷ content) =
    let (line, rest) = fgets 511 (c ∷ content) in
    let next = load_loop fuel (append_parsed table (parse_line line)) rest in
    if leb max_accounts (length table) then table else next

-- The file is given by its bytes, or `none` if it cannot be opened; returns the result and the table.
unfoldable pub load_accounts : Option Bytes → List Account → ℤ × List Account
unfolding load_loop
load_accounts none table = (minus_one, table)
load_accounts (some content) table =
    let loaded = load_loop (length content) [] content in (pos (length loaded), loaded)

abbrev pub account_line : Account → Bytes
account_line a = a.username ++ (b':' ∷ (a.password ++ (b':' ∷ (a.root_dir ++ b'\n' ∷ []))))

abbrev pub account_lines : List Account → Bytes
account_lines [] = []
account_lines (a ∷ table) = account_line a ++ account_lines table

abbrev pub first_header : Bytes
first_header = codes "# Danh sach tai khoan FTP\n"

abbrev pub second_header : Bytes
second_header = codes "# Format: username:password:root_directory\n"

-- What is written, if the file can be opened.
unfoldable pub save_accounts : Bool → List Account → ℤ × Option Bytes
save_accounts false table = (minus_one, none)
save_accounts true table =
    (pos 0, some (first_header ++ (second_header ++ (b'\n' ∷ account_lines table))))

unfoldable pub has_username : Bytes → List Account → Bool
has_username u [] = false
has_username u (a ∷ table) = str_eq a.username u || has_username u table

unfoldable pub add_account : Bytes → Bytes → Bytes → List Account → ℤ × List Account
add_account u p r table =
    if leb max_accounts (length table)
    then (minus_one, table)
    else if has_username u table
    then (minus_one, table)
    else (pos 0, table ++ stored u p r ∷ [])

-- The index of the account; -1 is `none`.
unfoldable pub validate_login : Bytes → Bytes → List Account → Option ℕ
validate_login u p [] = none
validate_login u p (a ∷ table) = elim (str_eq a.username u && str_eq a.password p) [
  | true ↦ some 0
  | false ↦ elim (validate_login u p table) [ none ↦ none | some i ↦ some (suc i) ]
]

-- NULL is `none`.
unfoldable pub get_user_root_dir : Bytes → List Account → Option Bytes
get_user_root_dir u [] = none
get_user_root_dir u (a ∷ table) =
    let later = get_user_root_dir u table in if str_eq a.username u then some a.root_dir else later
