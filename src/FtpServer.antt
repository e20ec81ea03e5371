-- ===== src/FtpServer.antt =====
-- FTP-client-server/server/src/ftp_server.c: the session of a client and the commands that need no
-- data connection.
pub mod Transfer
pub mod Thread
pub mod Main
pub mod Guard
pub mod Invariant
pub mod DataConnection
pub mod Transfers
pub mod Session
pub mod Directory
pub mod Bounds
pub mod Parsing
pub mod Ports
pub mod Transmission
pub mod Delivery
mod Tests
use hust_network_programming.Base.{
  ℕ, ◌+◌, ◌%◌, ◌/◌, Bool, true, false, not, List, [], ◌∷◌, ◌++◌, Option, none, some, ◌==◌, ltb,
  length, take, if◌then◌else◌, ℤ, is_neg, is_positive, minus_one,
}
use hust_network_programming.CText.{Bytes, codes, strncpy, str_eq, before_last}
use hust_network_programming.CText.Decimal.{int_text, decimal, scan_int}
use hust_network_programming.Account.{Account, validate_login, get_user_root_dir}
use hust_network_programming.Outcome.{Outcome, done, undefined, fit}
use hust_network_programming.System.{
  Os, Exec, World, ◌>>=◌, ◌>>◌, pure, skip, get, modify, lift, sprintf, call, close, socket, bind,
  send, stat, Stat,
}

-- `logged_in` is the flag; the arrays are zeroed at first, so a text of at most size - 1 bytes is
-- all that they hold.
pub record ClientSession : Type 0 where
  pub ctrl_socket : ℤ
  pub data_socket : ℤ
  pub pasv_listen_socket : ℤ
  pub logged_in : Bool
  pub username : Bytes
  pub root_dir : Bytes
  pub current_dir : Bytes
  pub client_ip : Bytes
  pub pasv_port : ℕ

abbrev pub Handler : Type 0
Handler = Exec ClientSession (Unit {0})

abbrev pub slash : Bytes
slash = b'/' ∷ []

abbrev pub crlf : Bytes
crlf = b'\r' ∷ b'\n' ∷ []

abbrev pub starts_with_slash : Bytes → Bool
starts_with_slash [] = false
starts_with_slash (c ∷ s) = c == b'/'

-- A text without a `/` that ends it, if it is longer than that.
unfoldable pub drop_last_slash : Bytes → Bytes
drop_last_slash [] = []
drop_last_slash (c ∷ []) = c ∷ []
drop_last_slash (c ∷ d ∷ []) = if d == b'/' then c ∷ [] else c ∷ d ∷ []
drop_last_slash (c ∷ d ∷ e ∷ s) = c ∷ drop_last_slash (d ∷ e ∷ s)

-- Every caller's array has 1024 bytes.
unfoldable pub get_absolute_path : ClientSession → Outcome Bytes
unfolding drop_last_slash
get_absolute_path s =
    let path =
      if starts_with_slash s.current_dir
      then s.root_dir ++ s.current_dir
      else s.root_dir ++ (slash ++ s.current_dir) in
    if ltb (length path) 1024 then done (drop_last_slash path) else undefined

unfoldable pub please_login : Bytes
please_login = codes "530 Please login first\r\n"

-- The directory that CWD asks for. A text of 511 bytes or more is left without its zero by
-- `strncpy`, and is then read past the end of `new_path`.
unfoldable pub new_path : Bytes → Bytes → Outcome Bytes
new_path current_dir path =
    if starts_with_slash path
    then fit 511 path
    else if str_eq current_dir slash
    then fit 512 (slash ++ path)
    else fit 512 (current_dir ++ (slash ++ path))

abbrev pub is_directory : Option Stat → Bool
is_directory none = false
is_directory (some st) = st.is_dir

-- The directory above: what stands before the last `/`, unless that is the first byte.
unfoldable pub parent_dir : Bytes → Bytes
parent_dir current_dir = elim (before_last b'/' current_dir) [
  | none ↦ slash
  | some [] ↦ slash
  | some (c ∷ s) ↦ c ∷ s
]

-- The reply to PWD.
abbrev pub pwd_response : Bytes → Bytes
pwd_response dir = codes "257 \"" ++ (dir ++ codes "\" is current directory\r\n")

module _ (os : Os) where
  abbrev pub send_response : Bytes → Handler
  send_response response = do s ← get; send os s.ctrl_socket response; skip

  -- The guard that most commands begin with.
  abbrev pub when_logged_in : Handler → Handler
  when_logged_in handler = do s ← get; if s.logged_in then handler else send_response please_login

  unfoldable pub handle_user : Bytes → Handler
  handle_user username = do
    modify (λ s. record s { username = strncpy 63 username; logged_in = false })
    response ← sprintf 128 (codes "331 Password required for " ++ (username ++ crlf))
    send_response response

  abbrev pub root_or_tmp : Option Bytes → Bytes
  root_or_tmp none = codes "/tmp"
  root_or_tmp (some root) = strncpy 511 root

  abbrev pub log_in : List Account → Option ℕ → Handler
  log_in accounts none = send_response (codes "530 Login incorrect\r\n")
  log_in accounts (some i) = do
    modify (λ s. record s {
      logged_in = true;
      root_dir = root_or_tmp (get_user_root_dir s.username accounts);
      current_dir = slash;
    })
    s ← get
    response ← sprintf 128 (codes "230 User " ++ (s.username ++ codes " logged in\r\n"))
    send_response response

  unfoldable pub handle_pass : List Account → Bytes → Handler
  handle_pass accounts password = do
    s ← get
    log_in accounts (validate_login s.username password accounts)

  unfoldable pub handle_syst : Handler
  handle_syst = send_response (codes "215 UNIX Type: L8\r\n")

  unfoldable pub handle_feat : Handler
  handle_feat = send_response (codes "211-Features:\r\n PASV\r\n SIZE\r\n MDTM\r\n211 End\r\n")

  unfoldable pub handle_pwd : Handler
  handle_pwd =
      when_logged_in
        do s ← get; response ← sprintf 512 (pwd_response s.current_dir); send_response response

  unfoldable pub handle_cwd : Bytes → Handler
  handle_cwd path = when_logged_in do
    s ← get
    target ← lift (new_path s.current_dir path)
    abs_path ← sprintf 1024 (s.root_dir ++ target)
    found ← stat os abs_path
    if is_directory found
        then (do
          modify (λ t. record t { current_dir = strncpy 511 target })
          send_response (codes "250 Directory changed\r\n"))
        else send_response (codes "550 Directory not found\r\n")

  unfoldable pub handle_cdup : Handler
  handle_cdup = when_logged_in do
    modify (λ s. record s { current_dir = parent_dir s.current_dir })
    send_response (codes "250 Directory changed to parent\r\n")

  unfoldable pub handle_type : Handler
  handle_type = send_response (codes "200 Type set\r\n")

  unfoldable pub handle_quit : Handler
  handle_quit = do
    send_response (codes "221 Goodbye\r\n")
    modify (λ s. record s { logged_in = false })
