-- ===== src/FtpServer/Invariant.antt =====
-- The invariant of a session, kept by every command.
use hust_network_programming.Base.{
  ℕ, ◌+◌, ◌≤◌, ◌<◌, ◌≡◌, refl, Bool, true, false, List, [], ◌∷◌, arith, length, ◌==◌, if◌then◌else◌,
  ℤ, pos, negsuc, is_positive, some, Bool-cases, Option-cases, inl, inr,
}
use hust_network_programming.CText.{Bytes, strncpy, length-strncpy, strncpy_short, before_last}
use hust_network_programming.Account.{Account, validate_login, get_user_root_dir}
use mathlib.Core.List.{Memᴰ}
use hust_network_programming.Account.Login.{
  Matches, validate_login-Matches, validate_login_has_root,
}
use hust_network_programming.Outcome.{Outcome-cases, Outcome, done}
use hust_network_programming.System.{
  Os, World, Event, History, created, accepted, closed, file_opened, file_closed, dir_opened,
  dir_closed, Ensures,
}
use hust_network_programming.FtpServer.{
  ClientSession, starts_with_slash, new_path, parent_dir, handle_user, handle_pass, handle_syst,
  handle_feat, handle_pwd, handle_cwd, handle_cdup, handle_type, handle_quit,
}

-- The calls that gave, and that gave back, descriptor `n`.
abbrev pub is_fd : ℕ → ℤ → ℕ
is_fd n (pos m) = if m == n then 1 else 0
is_fd n (negsuc m) = 0

abbrev pub opening : ℕ → Event → ℕ
opening n (created fd) = is_fd n fd
opening n (accepted _ fd) = is_fd n fd
opening n _ = 0

abbrev pub closing : ℕ → Event → ℕ
closing n (closed fd) = is_fd n fd
closing n _ = 0

abbrev pub opens : ℕ → History → ℕ
opens n [] = 0
opens n (e ∷ h) = opening n e + opens n h

abbrev pub closes : ℕ → History → ℕ
closes n [] = 0
closes n (e ∷ h) = closing n e + closes n h

-- The calls that opened, and that closed, a file or a directory.
abbrev pub file_opening : Event → ℕ
file_opening (file_opened path) = 1
file_opening (dir_opened path) = 1
file_opening _ = 0

abbrev pub file_closing : Event → ℕ
file_closing (file_closed path) = 1
file_closing (dir_closed path) = 1
file_closing _ = 0

abbrev pub file_opens : History → ℕ
file_opens [] = 0
file_opens (e ∷ h) = file_opening e + file_opens h

abbrev pub file_closes : History → ℕ
file_closes [] = 0
file_closes (e ∷ h) = file_closing e + file_closes h

-- One of the tried passwords is that of an account with this name, and the root directory is that of
-- the first account with the name.
pub record Granted (accounts : List Account) (tried : List Bytes) (username root_dir : Bytes)
    : Type 0 where
  pub password : Bytes
  pub was_tried : Memᴰ password tried
  pub account : Account
  pub is_account : Memᴰ account accounts
  pub matches : Matches username password account
  pub root : Bytes
  pub found : get_user_root_dir username accounts ≡ some root
  pub copied : root_dir ≡ strncpy 511 root

abbrev pub LoginOk : List Account → List Bytes → Bool → Bytes → Bytes → Type 0
LoginOk accounts tried false username root_dir = Unit
LoginOk accounts tried true username root_dir = Granted accounts tried username root_dir

LoginOk-cons :
    (accounts : List Account) (password : Bytes) (tried : List Bytes) (b : Bool) (u r : Bytes)
    → LoginOk accounts tried b u r
    → LoginOk accounts (password ∷ tried) b u r
LoginOk-cons accounts password tried false u r h = tt
LoginOk-cons accounts password tried true u r h = record {
  password = h.password;
  was_tried = Memᴰ.tail h.was_tried;
  account = h.account;
  is_account = h.is_account;
  matches = h.matches;
  root = h.root;
  found = h.found;
  copied = h.copied;
}

-- With `k` files open.
pub record IsLoose (accounts : List Account) (tried : List Bytes) (n k : ℕ)
    (w : World ClientSession) : Type 0 where
  pub username_fits : length w.state.username ≤ 63
  pub root_fits : length w.state.root_dir ≤ 511
  pub dir_fits : length w.state.current_dir ≤ 511
  pub dir_absolute : starts_with_slash w.state.current_dir ≡ true
  pub port_low : 10000 ≤ w.state.pasv_port
  pub port_high : w.state.pasv_port ≤ 65000
  pub login : LoginOk accounts tried w.state.logged_in w.state.username w.state.root_dir
  pub balanced :
      opens n w.history
      ≡ closes n w.history + is_fd n w.state.pasv_listen_socket + is_fd n w.state.data_socket
  pub files : file_opens w.history ≡ file_closes w.history + k

-- Between commands no data connection and no file is open.
pub record IsValid (accounts : List Account) (tried : List Bytes) (n : ℕ) (w : World ClientSession)
    : Type 0 where
  pub loose : IsLoose accounts tried n 0 w
  pub no_data : is_positive w.state.data_socket ≡ false

pub new_path-done :
    (current_dir path target : Bytes)
    → new_path current_dir path ≡ done target
    → starts_with_slash current_dir ≡ true
    → (starts_with_slash target ≡ true) × (length target ≤ 511)
unfolding new_path
new_path-done [] path target e h = cc h
new_path-done (c ∷ s) path target e h = ground arith

before_last-slash :
    (c : ℕ) (s : Bytes) (r : Bytes) → before_last b'/' (c ∷ s) ≡ some r → length r ≤ length s
unfolding before_last
before_last-slash c [] r e = ground arith
before_last-slash c (d ∷ s) r e = elim (Option-cases (before_last b'/' (d ∷ s))) [
  | inl n ↦ ground (arith, n)
  | inr (q, f) ↦ ground (arith, f, before_last-slash d s q f)
]

pub parent_dir-absolute :
    (d : Bytes) → starts_with_slash d ≡ true → starts_with_slash (parent_dir d) ≡ true
unfolding parent_dir before_last
parent_dir-absolute [] h = refl
parent_dir-absolute (c ∷ s) h = ground arith

pub length-parent_dir : (d : Bytes) → starts_with_slash d ≡ true → length (parent_dir d) ≤ length d
unfolding parent_dir
length-parent_dir [] h = cc h
length-parent_dir (c ∷ s) h = elim (Option-cases (before_last b'/' (c ∷ s))) [
  | inl e ↦ ground (arith, e)
  | inr (r, e) ↦ ground (arith, e, before_last-slash c s r e)
]

module _ (os : Os) (accounts : List Account) (tried : List Bytes) (n : ℕ) (n_pos : 0 < n) where
  abbrev Stays : Outcome (Unit {0} × World ClientSession) → Type 0
  Stays = Ensures (λ _ w. IsValid accounts tried n w)

  pub handle_user-IsValid :
      (username : Bytes) (w : World ClientSession)
      → IsValid accounts tried n w
      → Ensures (λ _ w'. IsValid accounts [] n w') (handle_user os username w)
  unfolding handle_user
  handle_user-IsValid username w h = ground (arith, length-strncpy 63 username)

  pub handle_syst-IsValid :
      (w : World ClientSession) → IsValid accounts tried n w → Stays (handle_syst os w)
  unfolding handle_syst
  handle_syst-IsValid w h = ground arith

  pub handle_pwd-IsValid :
      (w : World ClientSession) → IsValid accounts tried n w → Stays (handle_pwd os w)
  unfolding handle_pwd
  handle_pwd-IsValid w h = ground arith

  pub handle_quit-IsValid :
      (w : World ClientSession) → IsValid accounts tried n w → Stays (handle_quit os w)
  unfolding handle_quit
  handle_quit-IsValid w h = ground arith

  pub handle_cwd-IsValid :
      (path : Bytes) (w : World ClientSession)
      → IsValid accounts tried n w
      → Stays (handle_cwd os path w)
  unfolding handle_cwd
  handle_cwd-IsValid path w h = elim (Bool-cases w.state.logged_in) [
    | inl e ↦ elim (Outcome-cases (new_path w.state.current_dir path)) [
      | inl u ↦ rw (e, u) tt
      | inr (target, d) ↦
          rw (e, d)
            (ground (
              arith,
              new_path-done w.state.current_dir path target d h.loose.dir_absolute,
              strncpy_short 511 target,
            ))
    ]
    | inr e ↦ rw e (ground arith)
  ]

  pub handle_cdup-IsValid :
      (w : World ClientSession) → IsValid accounts tried n w → Stays (handle_cdup os w)
  unfolding handle_cdup
  handle_cdup-IsValid w h = ground (
    arith,
    parent_dir-absolute w.state.current_dir h.loose.dir_absolute,
    length-parent_dir w.state.current_dir,
  )

  more_tried :
      (password : Bytes) (w : World ClientSession)
      → IsValid accounts tried n w
      → IsValid accounts (password ∷ tried) n w
  more_tried password w h = record {
    loose = record {
      username_fits = h.loose.username_fits;
      root_fits = h.loose.root_fits;
      dir_fits = h.loose.dir_fits;
      dir_absolute = h.loose.dir_absolute;
      port_low = h.loose.port_low;
      port_high = h.loose.port_high;
      login =
          LoginOk-cons accounts password tried w.state.logged_in w.state.username w.state.root_dir
            h.loose.login;
      balanced = h.loose.balanced;
      files = h.loose.files;
    };
    no_data = h.no_data;
  }

  pub handle_pass-IsValid :
      (password : Bytes) (w : World ClientSession)
      → IsValid accounts tried n w
      → Ensures
          (λ _ w'. IsValid accounts (password ∷ tried) n w')
          (handle_pass os accounts password w)
  unfolding handle_pass
  handle_pass-IsValid password w valid =
      let h = more_tried password w valid in
      elim (Option-cases (validate_login w.state.username password accounts)) [
        | inl e ↦ rw e (ground arith)
        | inr (i, e) ↦
            let (root, f) = validate_login_has_root w.state.username password accounts i e in
            let (account, is_account, matches) =
              validate_login-Matches w.state.username password accounts i e in
            let g : Granted accounts (password ∷ tried) w.state.username (strncpy 511 root) =
              record {
                password = password;
                was_tried = Memᴰ.head refl;
                account = account;
                is_account = is_account;
                matches = matches;
                root = root;
                found = f;
                copied = refl;
              } in
            rw (e, f) (ground (arith, length-strncpy 511 root))
      ]

  pub handle_feat-IsValid :
      (w : World ClientSession) → IsValid accounts tried n w → Stays (handle_feat os w)
  unfolding handle_feat
  handle_feat-IsValid w h = ground arith

  pub handle_type-IsValid :
      (w : World ClientSession) → IsValid accounts tried n w → Stays (handle_type os w)
  unfolding handle_type
  handle_type-IsValid w h = ground arith
