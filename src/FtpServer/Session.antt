-- ===== src/FtpServer/Session.antt =====
-- A session as a whole: what holds after any commands, and when its thread has ended.
use hust_network_programming.Base.{
  ℕ, ◌+◌, ◌≤◌, ◌<◌, ◌≡◌, Bool, List, [], ◌∷◌, arith, ℤ, Option, ◌⊎◌, inl, inr, Bool-cases,
}
use hust_network_programming.CText.{Bytes}
use hust_network_programming.Account.{Account}
use hust_network_programming.Outcome.{Outcome, done, undefined}
use hust_network_programming.System.{
  Os, World, Ensures, Ensures-bind, Ensures-lift, ◌>>=◌, stat, Stat, pure,
}
use hust_network_programming.FtpServer.{ClientSession}
use hust_network_programming.FtpServer.Transfer.{file_path}
use hust_network_programming.FtpServer.Thread.{
  Command, user, pass, syst, feat, pwd, cwd, cdup, type, pasv, list, retr, stor, quit, opts, noop,
  size, other, command_of, split_command, line_of, dispatch, handle_size, size_response,
  handle_buffer, run_command, is_quit, take_command, new_session,
}
use hust_network_programming.FtpServer.Guard.{NeedsLogin, refused, dispatch_refuses}
use hust_network_programming.FtpServer.Invariant.{
  file_opens, file_closes, Granted, IsValid, is_fd, opens, closes, handle_user-IsValid,
  handle_pass-IsValid, handle_syst-IsValid, handle_feat-IsValid, handle_type-IsValid,
  handle_pwd-IsValid, handle_cwd-IsValid, handle_cdup-IsValid, handle_quit-IsValid,
}
use hust_network_programming.FtpServer.Transfers.{
  handle_pasv-IsValid, handle_list-IsValid, handle_retr-IsValid, handle_stor-IsValid,
}

-- The descriptor was closed as often as it was opened, that of the control connection, which the
-- thread was given, once more; and as many files and directories were closed as opened.
abbrev pub IsClosed : ℕ → World ClientSession → Type 0
IsClosed n w =
    (closes n w.history ≡ opens n w.history + is_fd n w.state.ctrl_socket)
    × (file_opens w.history ≡ file_closes w.history)

-- The passwords that were tried since the last USER, behind one more command.
abbrev pub tried_after : Command → Bytes → List Bytes → List Bytes
tried_after user param tried = []
tried_after pass param tried = param ∷ tried
tried_after _ param tried = tried

abbrev pub tried_words : Outcome (Bytes × Bytes) → List Bytes → List Bytes
tried_words undefined tried = tried
tried_words (done words) tried = tried_after (command_of words.0) words.1 tried

abbrev pub tried_by : Bytes → List Bytes → List Bytes
tried_by buffer tried = tried_words (split_command (line_of buffer)) tried

module _ (os : Os) (accounts : List Account) (server_ip : Bytes) (tried : List Bytes) (n : ℕ)
    (n_pos : 0 < n) where
  abbrev Valid : Unit {0} → World ClientSession → Type 0
  Valid _ w = IsValid accounts tried n w

  size_response-IsValid :
      (found : Option Stat) (w : World ClientSession)
      → IsValid accounts tried n w
      → Ensures Valid (size_response os found w)
  unfolding size_response
  size_response-IsValid found w h = ground arith

  handle_size-IsValid :
      (param : Bytes) (w : World ClientSession)
      → IsValid accounts tried n w
      → Ensures Valid (handle_size os param w)
  unfolding handle_size
  handle_size-IsValid param w h =
      Ensures-lift Valid (file_path w.state param) (λ path. stat os path >>= size_response os) w
        (λ path _. size_response-IsValid _ _ (ground arith))

  -- Each command, whatever its parameter and the results of the calls, keeps the invariant of a
  -- session.
  pub dispatch-IsValid :
      (c : Command) (param : Bytes) (w : World ClientSession)
      → IsValid accounts tried n w
      → Ensures
          (λ _ w'. IsValid accounts (tried_after c param tried) n w')
          (dispatch os accounts server_ip c param w)
  unfolding dispatch
  dispatch-IsValid user param w h = handle_user-IsValid os accounts tried n n_pos param w h
  dispatch-IsValid pass param w h = handle_pass-IsValid os accounts tried n n_pos param w h
  dispatch-IsValid syst param w h = handle_syst-IsValid os accounts tried n n_pos w h
  dispatch-IsValid feat param w h = handle_feat-IsValid os accounts tried n n_pos w h
  dispatch-IsValid pwd param w h = handle_pwd-IsValid os accounts tried n n_pos w h
  dispatch-IsValid cwd param w h = handle_cwd-IsValid os accounts tried n n_pos param w h
  dispatch-IsValid cdup param w h = handle_cdup-IsValid os accounts tried n n_pos w h
  dispatch-IsValid type param w h = handle_type-IsValid os accounts tried n n_pos w h
  dispatch-IsValid pasv param w h = handle_pasv-IsValid os accounts tried n n_pos server_ip w h
  dispatch-IsValid list param w h = handle_list-IsValid os accounts tried n n_pos w h
  dispatch-IsValid retr param w h = handle_retr-IsValid os accounts tried n n_pos param w h
  dispatch-IsValid stor param w h = handle_stor-IsValid os accounts tried n n_pos param w h
  dispatch-IsValid quit param w h = handle_quit-IsValid os accounts tried n n_pos w h
  dispatch-IsValid opts param w h = ground arith
  dispatch-IsValid noop param w h = ground arith
  dispatch-IsValid size param w h = handle_size-IsValid param w h
  dispatch-IsValid other param w h = ground arith

  run_command-IsValid :
      (c : Command) (param : Bytes) (w : World ClientSession)
      → IsValid accounts tried n w
      → Ensures
          (λ _ w'. IsValid accounts (tried_after c param tried) n w')
          (run_command os accounts server_ip c param w)
  unfolding run_command
  run_command-IsValid c param w h =
      Ensures-bind (dispatch os accounts server_ip c param w) (λ _. pure (is_quit c))
        (dispatch-IsValid c param w h) (λ _. record { at = λ w' h'. h' })

  pub handle_buffer-IsValid :
      (buffer : Bytes) (w : World ClientSession)
      → IsValid accounts tried n w
      → Ensures
          (λ _ w'. IsValid accounts (tried_by buffer tried) n w')
          (handle_buffer os accounts server_ip buffer w)
  unfolding handle_buffer
  handle_buffer-IsValid buffer w h =
      Ensures-lift (λ _ w'. IsValid accounts (tried_by buffer tried) n w')
        (split_command (line_of buffer)) _ _
        (λ words e. rw e (run_command-IsValid (command_of words.0) words.1 _ (ground arith)))

  pub take_command-IsValid :
      (buffer : Bytes) (w : World ClientSession)
      → IsValid accounts tried n w
      → Ensures
          (λ _ w'. IsValid accounts (tried_by buffer tried) n w')
          (take_command os accounts server_ip buffer w)
  unfolding take_command
  take_command-IsValid buffer w h = handle_buffer-IsValid buffer _ (ground arith)

abbrev pub initial_world : ℤ → Bytes → ℕ → World ClientSession
initial_world fd ip port = record { state = new_session fd ip port; history = [] }

new_session-IsValid :
    (accounts : List Account) (n : ℕ) (fd : ℤ) (ip : Bytes) (port : ℕ)
    → 10000 ≤ port
    → port ≤ 65000
    → IsValid accounts [] n (initial_world fd ip port)
new_session-IsValid accounts n fd ip port low high = ground arith

-- The worlds that a session comes to after some rounds.
pub data Reachable (os : Os) (accounts : List Account) (server_ip : Bytes)
    (start : World ClientSession) : World ClientSession → Type 0 where
  begin : Reachable os accounts server_ip start start
  round :
      {w w' : World ClientSession} {left : Bool} (buffer : Bytes)
      → Reachable os accounts server_ip start w
      → take_command os accounts server_ip buffer w ≡ done (left, w')
      → Reachable os accounts server_ip start w'

-- The passwords that were received since the last USER.
unfoldable pub passwords :
    {os : Os} {accounts : List Account} {server_ip : Bytes} {start w : World ClientSession}
    → Reachable os accounts server_ip start w
    → List Bytes
passwords begin = []
passwords (round buffer r e) = tried_by buffer (passwords r)

module _ (os : Os) (accounts : List Account) (server_ip : Bytes) (fd : ℤ) (ip : Bytes) (port : ℕ)
    (low : 10000 ≤ port) (high : port ≤ 65000) where
  -- After any rounds of a new session whose port is between 10000 and 65000, whatever was received and
  -- whatever the calls returned, the session is valid: its texts fit their arrays and the directory is
  -- absolute, the port is between 10000 and 65000, no data connection and no file is open, and each
  -- descriptor other than 0 that `socket` or `accept` gave was closed or is the listening socket. If it is
  -- logged in, a password that was received since the last USER is the one of an account with its user
  -- name, and its root directory is that of the first account with that name, cut at 511 bytes.
  pub Reachable-IsValid :
      (n : ℕ)
      → 0 < n
      → {w : World ClientSession} (r : Reachable os accounts server_ip (initial_world fd ip port) w)
      → IsValid accounts (passwords r) n w
  unfolding passwords
  Reachable-IsValid n n_pos begin = new_session-IsValid accounts n fd ip port low high
  Reachable-IsValid n n_pos (round {w = w} buffer r e) = rw e at (
      take_command-IsValid os accounts server_ip (passwords r) n n_pos buffer w
        (Reachable-IsValid n n_pos r))

  -- After any rounds of a new session whose port is between 10000 and 65000, either a password that was
  -- received since the last USER is the one of an account with the session's user name, and the root
  -- directory is that of the first account with the name, cut at 511 bytes; or each of PWD, CWD, CDUP,
  -- PASV, LIST, RETR and STOR is refused: it sends the reply 530 and does nothing else.
  pub Reachable-Granted :
      {w : World ClientSession} (r : Reachable os accounts server_ip (initial_world fd ip port) w)
      (c : Command) (param : Bytes)
      → NeedsLogin c
      → Granted accounts (passwords r) w.state.username w.state.root_dir
        ⊎ (dispatch os accounts server_ip c param w ≡ done (tt, refused os w))
  Reachable-Granted {w} r c param needs = elim (Bool-cases w.state.logged_in) [
    | inl e ↦ inl (rw e at ((Reachable-IsValid 1 (omega arith) r).loose.login))
    | inr e ↦ inr (dispatch_refuses os accounts server_ip c param w needs e)
  ]
