-- ===== src/SelectFtp.antt =====
-- np/np22.c: the FTP server that serves all its clients in one loop over `select`. They share one
-- folder, one data connection and one port. The results of `listen` and what is printed are left out.
pub mod Paths
pub mod Commands
pub mod Loop
mod Tests
use Prim.Native.Nat.{Ordering}
use hust_network_programming.Base.{
  ◌^◌, ℕ, zero, suc, ◌+◌, ◌/◌, ◌%◌, Bool, true, false, not, ◌||◌, List, [], ◌∷◌, ◌++◌, Option, none,
  some, ◌==◌, ltb, length, drop, if◌then◌else◌, ℤ, pos, negsuc, is_positive, minus_one,
}
use hust_network_programming.CText.{Bytes, codes, str_eq, before}
use hust_network_programming.CText.Decimal.{decimal}
use hust_network_programming.CText.Scan.{is_nul}
use hust_network_programming.CText.Search.{starts_with}
use hust_network_programming.Outcome.{Outcome, done, undefined, fit}
use hust_network_programming.System.{
  Os, Exec, ◌>>=◌, ◌>>◌, skip, get, modify, lift, sprintf, close, socket, bind, accept, send, recv,
}
use hust_network_programming.HttpUpload.{Entry, append_all, compare_entries, dt_dir, last_or}

-- The global variables.
pub record Shared : Type 0 where
  pub clients : List ℤ
  pub root_path : Bytes
  pub data_socket : ℤ
  pub pasv_port : ℕ

-- What they hold before the loop.
abbrev pub initial : Shared
initial = record { clients = []; root_path = b'/' ∷ []; data_socket = minus_one; pasv_port = 10000 }

abbrev pub Server : Type 0
Server = Exec Shared (Unit {0})

abbrev entry_texts : Entry → List Bytes
entry_texts e =
    (if e.d_type == dt_dir
      then codes "drwxrwxrwx 0 0 0 0 Dec 15 2025 "
      else codes "-rwxrwxrwx 0 0 0 0 Dec 15 2025 ")
    ∷ e.d_name
    ∷ codes "\r\n"
    ∷ []

-- `CreateLIST`, for what `scandir` gives; without entries the output stays a null pointer.
unfoldable pub create_list : List Entry → Option Bytes → Option Bytes
create_list [] output = output
create_list (e ∷ entries) output = create_list entries (append_all output (entry_texts e))

-- `s[strlen(s) - 1] = 0`
abbrev pub drop_last : Bytes → Bytes
drop_last [] = []
drop_last (c ∷ []) = []
drop_last (c ∷ d ∷ s) = c ∷ drop_last (d ∷ s)

-- A loop that drops the last byte while it passes the test, where `empty` is what an empty text
-- gives. A round drops a byte, so the length is enough fuel.
unfoldable pub trim : (ℕ → Bool) → Outcome Bytes → ℕ → Bytes → Outcome Bytes
trim p empty zero s = empty
trim p empty (suc fuel) [] = empty
trim p empty (suc fuel) (c ∷ s) =
    let rest = trim p empty fuel (drop_last (c ∷ s)) in
    if p (last_or c s) then rest else done (c ∷ s)

abbrev pub is_line_byte : ℕ → Bool
is_line_byte c = c == b'\r' || c == b'\n'

abbrev pub no_slash : ℕ → Bool
no_slash c = not (c == b'/')

-- The folder of a CWD, for the text from the fifth byte on. The byte in front of an empty folder is in
-- the buffer, and what is written there does not matter.
unfoldable pub folder_of : Bytes → Outcome Bytes
folder_of text = trim is_line_byte (done []) (length text) text

abbrev pub joined : Bytes → Outcome Bytes → Outcome Bytes
joined [] folder = undefined
joined (c ∷ root) undefined = undefined
joined (c ∷ root) (done folder) =
    fit 1024 ((c ∷ root) ++ (if last_or c root == b'/' then folder else b'/' ∷ folder))

-- The path behind CWD, in its array of 1024 bytes.
unfoldable pub enter_folder : Bytes → Bytes → Outcome Bytes
enter_folder root text = joined root (folder_of text)

-- `pasvPort++` on an int
abbrev pub next_port : ℕ → Outcome ℕ
next_port port = if ltb (port + 1) (2 ^ 31) then done (port + 1) else undefined

abbrev pub without_slash : Outcome Bytes → Outcome Bytes
without_slash undefined = undefined
without_slash (done path) = done (if str_eq path (codes "/") then path else drop_last path)

-- The path behind CDUP; without a slash its loop would read in front of the array.
unfoldable pub parent_folder : Bytes → Outcome Bytes
parent_folder root = without_slash (trim no_slash undefined (length root) root)

pub data FtpCommand : Type 0 where
  user : FtpCommand
  pass : FtpCommand
  syst : FtpCommand
  feat : FtpCommand
  opts : FtpCommand
  pwd : FtpCommand
  type : FtpCommand
  pasv : FtpCommand
  list : FtpCommand
  cwd : FtpCommand
  cdup : FtpCommand
  other : FtpCommand

-- The tests in their order; HELP and QUIT are answered like an unknown command.
unfoldable pub command_of : Bytes → FtpCommand
command_of s =
    if starts_with (codes "USER") s
    then user
    else if starts_with (codes "PASS") s
    then pass
    else if starts_with (codes "SYST") s
    then syst
    else if starts_with (codes "HELP") s
    then other
    else if starts_with (codes "FEAT") s
    then feat
    else if starts_with (codes "OPTS") s
    then opts
    else if starts_with (codes "PWD") s
    then pwd
    else if starts_with (codes "TYPE") s
    then type
    else if starts_with (codes "PASV") s
    then pasv
    else if starts_with (codes "LIST") s
    then list
    else if starts_with (codes "QUIT") s
    then other
    else if starts_with (codes "CWD") s
    then cwd
    else if starts_with (codes "CDUP") s
    then cdup
    else other

module _ (os : Os) (scandir : (Entry → Entry → Ordering) → Bytes → List Entry) where
  unfoldable pub reply : ℤ → Bytes → Server
  reply c text = do send os c text; skip

  -- `Send`
  unfoldable pub send_all : ℕ → ℤ → Bytes → Server
  send_all zero fd s = skip
  send_all (suc fuel) fd [] = skip
  send_all (suc fuel) fd (c ∷ s) = do
    sent ← send os fd (c ∷ s)
    elim sent [ pos zero ↦ skip | pos (suc k) ↦ send_all fuel fd (drop k s) | negsuc k ↦ skip ]

  unfoldable pub handle_pwd : ℤ → Server
  handle_pwd c = do
    s ← get
    response ← sprintf 2048 (codes "257 \"" ++ (s.root_path ++ codes "\" OK\r\n"))
    reply c response

  unfoldable pub handle_pasv : ℤ → Server
  handle_pasv c = do
    s ← get
    response ← sprintf 1024 (
        codes "227 OK (172,20,38,136,"
        ++ (decimal (s.pasv_port / 256 % 256)
            ++ (b',' ∷ (decimal (s.pasv_port % 256) ++ codes ")\r\n"))))
    reply c response
    fd ← socket os
    bound ← bind os fd (s.pasv_port % 65536)
    elim bound [
      | pos zero ↦ do d ← accept os fd; modify (λ t. record t { data_socket = d }); close fd
      | pos (suc k) ↦ close fd
      | negsuc k ↦ close fd
    ]
    t ← get
    port ← lift (next_port t.pasv_port)
    modify (λ t. record t { pasv_port = port })

  abbrev pub some_text : Option Bytes → Outcome Bytes
  some_text none = undefined
  some_text (some s) = done s

  abbrev pub end_list : ℤ → ℤ → Server
  end_list c fd = do
    reply c (codes "226 OK\r\n")
    close fd
    modify (λ t. record t { data_socket = minus_one })

  -- The list on the data connection, which is closed then.
  unfoldable pub send_list : ℤ → ℤ → Bytes → Server
  send_list c fd text = do send_all (length text) fd text; end_list c fd

  unfoldable pub handle_list : ℤ → Server
  handle_list c = do
    s ← get
    if is_positive s.data_socket
        then (do
          reply c (codes "150 OK\r\n")
          text ← lift (some_text (create_list (scandir compare_entries s.root_path) none))
          send_list c s.data_socket text)
        else reply c (codes "425 Failed to open data connection\r\n")

  unfoldable pub handle_cwd : ℤ → Bytes → Server
  handle_cwd c text = do
    s ← get
    path ← lift (enter_folder s.root_path text)
    modify (λ t. record t { root_path = path })
    reply c (codes "200 OK\r\n")

  unfoldable pub handle_cdup : ℤ → Server
  handle_cdup c = do
    s ← get
    path ← lift (parent_folder s.root_path)
    modify (λ t. record t { root_path = path })
    reply c (codes "200 OK\r\n")

  unfoldable pub run_command : ℤ → Bytes → FtpCommand → Server
  run_command c received user = reply c (codes "331 OK\r\n")
  run_command c received pass = reply c (codes "230 OK\r\n")
  run_command c received syst = reply c (codes "215 UNIX Type: L8\r\n")
  run_command c received feat = reply c (
      codes
        "211-Features:\r\n EPRT\r\n EPSV\r\n MDTM\r\n PASV\r\n REST STREAM\r\n SIZE\r\n TVFS\r\n211 End\r\n")
  run_command c received opts = reply c (codes "200 OK\r\n")
  run_command c received pwd = handle_pwd c
  run_command c received type = reply c (codes "200 OK\r\n")
  run_command c received pasv = handle_pasv c
  run_command c received list = handle_list c
  run_command c received cwd = handle_cwd c (before is_nul (drop 4 received))
  run_command c received cdup = handle_cdup c
  run_command c received other = reply c (codes "202 Command not implemented\r\n")

  -- What is done with the received bytes.
  abbrev pub handle_data : ℤ → Bytes → Server
  handle_data c received = run_command c received (command_of (before is_nul received))

  -- A client that `select` reports: the buffer of 1024 bytes has zeros behind what is received.
  unfoldable pub serve_client : ℤ → Server
  serve_client c = do received ← recv os c 1023; handle_data c received

  -- The loop over the clients, of which `ready` says which ones `select` reports.
  unfoldable pub serve_clients : (ℤ → Bool) → List ℤ → Server
  serve_clients ready [] = skip
  serve_clients ready (c ∷ cs) = do if ready c then serve_client c else skip; serve_clients ready cs

  -- A new client, for an array of 1024 places.
  unfoldable pub admit_client : ℤ → Server
  admit_client listener = do
    c ← accept os listener
    s ← get
    if ltb (length s.clients) 1024
        then modify (λ t. record t { clients = t.clients ++ c ∷ [] })
        else lift undefined
    reply c (codes "220 MY FTP SERVER\r\n")

  -- A round of the loop in `main`.
  unfoldable pub round : ℤ → Bool → (ℤ → Bool) → Server
  round listener connecting ready = do
    if connecting then admit_client listener else skip
    s ← get
    serve_clients ready s.clients
