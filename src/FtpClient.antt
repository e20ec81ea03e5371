-- ===== src/FtpClient.antt =====
-- FTP-client-server/client/src/ftp_client.c: the control connection of the client.
pub mod Data
pub mod Shell
pub mod Replies
mod Tests
use hust_network_programming.Base.{
  ℕ, zero, suc, ◌+◌, ◌-◌, ◌*◌, ◌%◌, ◌^◌, Bool, true, false, not, ◌&&◌, ◌||◌, List, [], ◌∷◌, ◌++◌,
  Option, none, some, ltb, leb, ◌==◌, length, if◌then◌else◌, ℤ, pos, negsuc, is_neg, is_positive,
  minus_one,
}
use hust_network_programming.CText.{Bytes, codes, strncpy, strchr, before}
use hust_network_programming.CText.Decimal.{int_text, scan_int}
use hust_network_programming.Outcome.{Outcome, done, undefined}
use hust_network_programming.System.{
  Os, Exec, World, ◌>>=◌, ◌>>◌, pure, skip, get, modify, lift, call, close, socket, connect, send,
  recv,
}

pub record FtpSession : Type 0 where
  pub ctrl_socket : ℤ
  pub data_socket : ℤ
  pub server_ip : Bytes
  pub server_port : ℕ
  pub current_dir : Bytes
  pub logged_in : Bool

abbrev pub Client : Type 0 → Type 0
Client A = Exec FtpSession A

-- `code == n`, for a result of `int`.
abbrev pub is_code : ℕ → ℤ → Bool
is_code n (pos m) = m == n
is_code n (negsuc m) = false

-- `snprintf` into an array of `n` bytes.
abbrev pub snprintf : ℕ → Bytes → Bytes
snprintf n s = strncpy (n - 1) s

abbrev pub response_size : ℕ
response_size = 4096

-- `int code = 0; sscanf(buffer, "%d", &code)`
abbrev code_or_zero : Outcome (Option (ℤ × Bytes)) → Outcome ℤ
code_or_zero undefined = undefined
code_or_zero (done none) = done (pos 0)
code_or_zero (done (some (code, _))) = done code

-- The code and the text of what was received; a result of `recv` that is not positive gives -1.
unfoldable pub response_of : Bytes → Outcome (ℤ × Bytes)
response_of [] = done (minus_one, [])
response_of (c ∷ s) =
    let text = before (λ x. x == 0) (c ∷ s) in
    elim (code_or_zero (scan_int text)) [ undefined ↦ undefined | done code ↦ done (code, text) ]

-- The path between the first two quotes. The caller's array has 512 bytes.
abbrev pub path_after : Option Bytes → Outcome (Option Bytes)
path_after none = done none
path_after (some []) = done none
path_after (some (q ∷ start)) = elim (strchr b'"' start) [
  | none ↦ done none
  | some _ ↦
      if ltb (length (before (λ c. c == b'"') start)) 512
      then done (some (before (λ c. c == b'"') start))
      else undefined
]

unfoldable pub path_of : Bytes → Outcome (Option Bytes)
path_of response = path_after (strchr b'"' response)

module _ (os : Os) where
  unfoldable pub ftp_disconnect : Client (Unit {0})
  ftp_disconnect w = elim (is_positive w.state.data_socket) [
    | true ↦
        (close w.state.data_socket
            >> modify (λ t. record t { data_socket = minus_one })
            >> close_ctrl)
          w
    | false ↦ close_ctrl w
  ]
    where
      close_ctrl : Client (Unit {0})
      close_ctrl v =
          if is_positive v.state.ctrl_socket
          then (close v.state.ctrl_socket >> modify (λ t. record t { ctrl_socket = minus_one })) v
          else done (tt, v)

  abbrev pub ftp_send_command : Bytes → Client ℤ
  ftp_send_command cmd = do
    s ← get
    send os s.ctrl_socket (snprintf response_size (cmd ++ b'\r' ∷ b'\n' ∷ []))

  abbrev pub ftp_recv_response : Client (ℤ × Bytes)
  ftp_recv_response = do
    s ← get
    received ← recv os s.ctrl_socket (response_size - 1)
    lift (response_of received)

  abbrev pub ftp_execute : Bytes → Client (ℤ × Bytes)
  ftp_execute cmd = do ftp_send_command cmd; ftp_recv_response

  -- A NULL password is `none`; printing it is undefined.
  abbrev password_text : Option Bytes → Outcome Bytes
  password_text none = undefined
  password_text (some p) = done p

  logged : Client ℤ
  logged = do modify (λ s. record s { logged_in = true }); pure (pos 0)

  send_password : Option Bytes → Client ℤ
  send_password password = do
    p ← lift (password_text password)
    reply ← ftp_execute (snprintf 256 (codes "PASS " ++ p))
    if is_code 230 reply.0 then logged else pure minus_one

  unfoldable pub ftp_login : Bytes → Option Bytes → Client ℤ
  unfolding logged send_password
  ftp_login username password = do
    reply ← ftp_execute (snprintf 256 (codes "USER " ++ username))
    if is_code 331 reply.0
        then send_password password
        else (if is_code 230 reply.0 then logged else pure minus_one)

  unfoldable pub ftp_pwd : Client (Option Bytes)
  ftp_pwd = do
    reply ← ftp_execute (codes "PWD")
    if is_code 257 reply.0 then lift (path_of reply.1) else pure none

  unfoldable pub ftp_cwd : Bytes → Client ℤ
  ftp_cwd path = do
    reply ← ftp_execute (snprintf 512 (codes "CWD " ++ path))
    if is_code 250 reply.0 then pure (pos 0) else pure minus_one

  unfoldable pub ftp_quit : Client ℤ
  unfolding ftp_disconnect
  ftp_quit = do ftp_execute (codes "QUIT"); ftp_disconnect; pure (pos 0)

  connect_to : Bytes → ℕ → Client ℤ
  connect_to ip port = do
    modify (λ s. record s { server_ip = strncpy 31 ip; server_port = port })
    s ← get
    r ← connect os s.ctrl_socket ip port
    if is_neg r
        then (do close s.ctrl_socket; pure minus_one)
        else (do ftp_recv_response; pure (pos 0))

  -- What `gethostbyname` finds for the host is the first argument, the dotted address.
  host_found : Option Bytes → ℕ → Client ℤ
  unfolding connect_to
  host_found none port = do s ← get; close s.ctrl_socket; pure minus_one
  host_found (some ip) port = connect_to ip port

  abbrev pub zeroed : FtpSession
  zeroed = record {
    ctrl_socket = pos 0;
    data_socket = minus_one;
    server_ip = [];
    server_port = 0;
    current_dir = [];
    logged_in = false;
  }

  unfoldable pub ftp_connect : Option Bytes → ℕ → Client ℤ
  unfolding host_found
  ftp_connect address port = do
    modify (λ _. zeroed)
    fd ← socket os
    modify (λ s. record s { ctrl_socket = fd })
    if is_neg fd then pure minus_one else host_found address port
