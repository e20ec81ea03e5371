-- ===== src/FtpServer/Thread.antt =====
-- FTP-client-server/server/src/server.c: the thread of a client, which reads commands and calls
-- their handlers, and the port that each session starts from.
use hust_network_programming.Base.{
  ℕ, ◌+◌, String, Bool, true, false, List, [], ◌∷◌, ◌++◌, Option, none, some, ◌==◌, ◌||◌, ltb,
  if◌then◌else◌, ℤ, is_positive, minus_one,
}
use hust_network_programming.CText.{
  Bytes, codes, before, is_line_end, str_case_eq, scan_word, skip_space,
}
use hust_network_programming.CText.Decimal.{decimal}
use hust_network_programming.Account.{Account}
use hust_network_programming.Outcome.{Outcome, done, undefined, fit}
use hust_network_programming.System.{
  Os, Exec, ◌>>=◌, ◌>>◌, pure, skip, get, lift, sprintf, call, close, print, stat, Stat, received,
}
use hust_network_programming.FtpServer.{
  ClientSession, Handler, slash, crlf, send_response, handle_user, handle_pass, handle_syst,
  handle_feat, handle_pwd, handle_cwd, handle_cdup, handle_type, handle_quit,
}
use hust_network_programming.FtpServer.Transfer.{
  file_path, handle_pasv, handle_list, handle_retr, handle_stor,
}

-- What is read under the mutex: the port of this session, and the counter for the next.
unfoldable pub take_port : ℕ → ℕ × ℕ
take_port counter = (counter, if ltb 60000 (counter + 100) then 10000 else counter + 100)

abbrev pub new_session : ℤ → Bytes → ℕ → ClientSession
new_session fd ip port = record {
  ctrl_socket = fd;
  data_socket = minus_one;
  pasv_listen_socket = minus_one;
  logged_in = false;
  username = [];
  root_dir = [];
  current_dir = slash;
  client_ip = ip;
  pasv_port = port;
}

-- The commands that the chain of `strcasecmp` tells apart.
pub data Command : Type 0 where
  user pass syst feat pwd cwd cdup type pasv list retr stor quit opts noop size other : Command

abbrev is : Bytes → String → Bool
is name word = str_case_eq name (codes word)

unfoldable pub command_of : Bytes → Command
command_of name =
    if is name "USER"
    then user
    else if is name "PASS"
    then pass
    else if is name "SYST"
    then syst
    else if is name "FEAT"
    then feat
    else if is name "PWD" || is name "XPWD"
    then pwd
    else if is name "CWD" || is name "XCWD"
    then cwd
    else if is name "CDUP" || is name "XCUP"
    then cdup
    else if is name "TYPE"
    then type
    else if is name "PASV"
    then pasv
    else if is name "LIST" || is name "NLST"
    then list
    else if is name "RETR"
    then retr
    else if is name "STOR"
    then stor
    else if is name "QUIT"
    then quit
    else if is name "OPTS"
    then opts
    else if is name "NOOP"
    then noop
    else if is name "SIZE"
    then size
    else other

-- The command after which the thread leaves the loop.
abbrev pub is_quit : Command → Bool
is_quit quit = true
is_quit _ = false

abbrev pub both : Outcome Bytes → Outcome Bytes → Outcome (Bytes × Bytes)
both undefined param = undefined
both (done name) undefined = undefined
both (done name) (done param) = done (name, param)

-- `sscanf(buffer, "%s %[^\n]", command, param)` into arrays of 16 and of 4096 bytes, which are empty at
-- first.
unfoldable pub split_command : Bytes → Outcome (Bytes × Bytes)
split_command line =
    let (name, rest) = scan_word line in
    both (fit 16 name) (fit 4096 (before (λ c. c == b'\n') (skip_space rest)))

-- The line that a received buffer holds; the buffer was cleared before.
abbrev pub line_of : Bytes → Bytes
line_of buffer = before is_line_end buffer

unfoldable pub close_if_open : ℤ → Handler
close_if_open fd = if is_positive fd then close fd else skip

unfoldable pub clean_up : Handler
unfolding close_if_open
clean_up = do
  s ← get
  close_if_open s.data_socket
  close_if_open s.pasv_listen_socket
  close s.ctrl_socket

-- After a round: `break`, or the rounds that follow.
abbrev pub next_round : Bool → Handler → Handler
next_round true rest = clean_up
next_round false rest = rest

module _ (os : Os) where
  abbrev log_command : Bytes → Bytes → Handler
  log_command command ip w =
      print (os.time_text w.history ++ (b' ' ∷ (command ++ (b' ' ∷ (ip ++ b'\n' ∷ []))))) w

  unfoldable pub size_response : Option Stat → Handler
  size_response none = send_response os (codes "550 File not found\r\n")
  size_response (some st) = do
    response ← sprintf 64 (codes "213 " ++ (decimal st.size ++ crlf))
    send_response os response

  unfoldable pub handle_size : Bytes → Handler
  handle_size param = do
    s ← get
    path ← lift (file_path s param)
    found ← stat os path
    size_response found

  module _ (accounts : List Account) (server_ip : Bytes) where
    -- The handler that the chain calls.
    unfoldable pub dispatch : Command → Bytes → Handler
    dispatch user param = handle_user os param
    dispatch pass param = handle_pass os accounts param
    dispatch syst param = handle_syst os
    dispatch feat param = handle_feat os
    dispatch pwd param = handle_pwd os
    dispatch cwd param = handle_cwd os param
    dispatch cdup param = handle_cdup os
    dispatch type param = handle_type os
    dispatch pasv param = handle_pasv os server_ip
    dispatch list param = handle_list os
    dispatch retr param = handle_retr os param
    dispatch stor param = handle_stor os param
    dispatch quit param = handle_quit os
    dispatch opts param = send_response os (codes "200 OK\r\n")
    dispatch noop param = send_response os (codes "200 NOOP OK\r\n")
    dispatch size param = handle_size param
    dispatch other param = send_response os (codes "502 Command not implemented\r\n")

    unfoldable pub run_command : Command → Bytes → Exec ClientSession Bool
    run_command c param = do dispatch c param; pure (is_quit c)

    -- The body of the loop for a received buffer; says whether the thread leaves the loop.
    unfoldable pub handle_buffer : Bytes → Exec ClientSession Bool
    handle_buffer buffer = do
      let line = line_of buffer
      s ← get
      log_command line s.client_ip
      words ← lift (split_command line)
      run_command (command_of words.0) words.1

    -- One round: the positive result of `recv`, and the body of the loop.
    unfoldable pub take_command : Bytes → Exec ClientSession Bool
    take_command buffer = do
      s ← get
      call (received s.ctrl_socket (buffer ∷ []))
      handle_buffer buffer

    -- The loop and what follows it, for the successive results of `recv` that are positive; behind
    -- the last stands the one that is not.
    unfoldable pub serve : List Bytes → Handler
    unfolding clean_up
    serve [] = do
      s ← get
      call (received s.ctrl_socket [])
      print (codes "Client " ++ (s.client_ip ++ codes " da ngat ket noi\n"))
      clean_up
    serve (buffer ∷ buffers) = do left ← take_command buffer; next_round left (serve buffers)

    unfoldable pub client_thread : List Bytes → Handler
    client_thread buffers = do
      send_response os (codes "220 Simple FTP Server Ready\r\n")
      serve buffers
