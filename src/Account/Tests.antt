-- ===== src/Account/Tests.antt =====
-- Tests of the account table on concrete tables.
use hust_network_programming.Base.{◌≡◌, refl, arith, [], ◌∷◌, ◌++◌, some, pos}
use hust_network_programming.CText.{Bytes, str_eq, strncpy}
use hust_network_programming.Account.{
  Account, add_account, load_accounts, save_accounts, validate_login, has_username, account_lines,
  first_header, second_header,
}
use hust_network_programming.Account.Login.{
  Validates, validate_login_lem, answer, add_account_login, add_account_keeps,
}
use hust_network_programming.Account.Storage.{IsStorable, IsField, load_accounts-save_accounts}

abbrev admin : Bytes
admin = b'a' ∷ b'd' ∷ b'm' ∷ b'i' ∷ b'n' ∷ []

abbrev root : Bytes
root = b'/' ∷ b't' ∷ b'm' ∷ b'p' ∷ []

abbrev admin_account : Account
admin_account = record { username = admin; password = admin; root_dir = root }

abbrev bob : Bytes
bob = b'b' ∷ b'o' ∷ b'b' ∷ []

validate_login_lem_example :
    Validates admin admin (admin_account ∷ []) (validate_login admin admin (admin_account ∷ []))
validate_login_lem_example = validate_login_lem admin admin (admin_account ∷ [])

add_account_login_example :
    answer (add_account bob bob root (admin_account ∷ [])).1 bob bob ≡ (some 1, some root)
unfolding add_account has_username str_eq strncpy
add_account_login_example =
    add_account_login bob bob root (admin_account ∷ [])
      (add_account bob bob root (admin_account ∷ [])).1 (omega arith) (omega arith) (omega arith)
      refl

add_account_keeps_example :
    answer (add_account admin bob root (admin_account ∷ [])).1 admin admin
    ≡ answer (admin_account ∷ []) admin admin
unfolding validate_login str_eq
add_account_keeps_example = add_account_keeps admin bob root admin admin 0 (admin_account ∷ []) refl

admin-IsField : IsField admin 63
admin-IsField = record {
  no_colon = (refl, (refl, (refl, (refl, (refl, tt)))));
  no_end = (refl, (refl, (refl, (refl, (refl, tt)))));
  nonempty = ground arith;
  fits = omega arith;
}

root-IsField : IsField root 255
root-IsField = record {
  no_colon = (refl, (refl, (refl, (refl, tt))));
  no_end = (refl, (refl, (refl, (refl, tt))));
  nonempty = ground arith;
  fits = omega arith;
}

admin_account-IsStorable : IsStorable admin_account
admin_account-IsStorable = record {
  username_field = admin-IsField;
  no_comment = refl;
  password_field = admin-IsField;
  root_dir_field = root-IsField;
}

-- The file of the table with one account.
abbrev saved_file : Bytes
saved_file = first_header ++ (second_header ++ (b'\n' ∷ account_lines (admin_account ∷ [])))

load_accounts-save_accounts_example :
    load_accounts (some saved_file) [] ≡ (pos 1, admin_account ∷ [])
unfolding save_accounts
load_accounts-save_accounts_example =
    load_accounts-save_accounts (admin_account ∷ []) [] saved_file (admin_account-IsStorable, tt)
      (omega arith) refl
