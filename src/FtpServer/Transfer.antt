-- ===== src/FtpServer/Transfer.antt =====
-- FTP-client-server/server/src/ftp_server.c: PASV and the commands with a data connection.
use hust_network_programming.Base.{
  ℕ, zero, suc, ◌+◌, ◌-◌, ◌/◌, ◌%◌, Bool, true, false, List, [], ◌∷◌, ◌++◌, Option, none, some, ltb,
  length, take, drop, replicate, ◌==◌, if◌then◌else◌, ℤ, pos, negsuc, is_neg, is_positive,
  minus_one,
}
use hust_network_programming.CText.{Bytes, codes}
use hust_network_programming.CText.Decimal.{int_text, decimal, scan_int}
use hust_network_programming.Outcome.{Outcome, done, undefined}
use hust_network_programming.System.{
  Os, Exec, ◌>>=◌, ◌>>◌, pure, skip, get, modify, lift, sprintf, call, close, socket, bind, accept,
  send, stream, stat, opendir, open_read, open_write, Stat, dir_closed, file_closed, wrote,
}
use hust_network_programming.FtpServer.{
  ClientSession, Handler, slash, crlf, get_absolute_path, send_response, when_logged_in,
}

abbrev pub buffer_size : ℕ
buffer_size = 4096

abbrev pub comma : Bytes
comma = b',' ∷ []

-- `sscanf(server_ip, "%d.%d.%d.%d", …)`: the numbers that are not read stay uninitialised, and
-- printing them is undefined.
dot_next : Bytes → Outcome Bytes
dot_next [] = undefined
dot_next (c ∷ s) = if c == b'.' then done s else undefined

read_int : Bytes → Outcome (ℤ × Bytes)
read_int s = elim (scan_int s) [
  | undefined ↦ undefined
  | done none ↦ undefined
  | done (some r) ↦ done r
]

infixl 5 ◌>>?◌
abbrev ◌>>?◌ : {A B : Type 0} → Outcome A → (A → Outcome B) → Outcome B
done a >>? f = f a
undefined >>? f = undefined

unfoldable pub parse_ip : Bytes → Outcome (ℤ × ℤ × ℤ × ℤ)
unfolding dot_next read_int
parse_ip s = read_int s >>? λ (ip1, s1). dot_next s1 >>? λ t1. read_int t1 >>? λ (ip2, s2).
    dot_next s2 >>? λ t2. read_int t2 >>? λ (ip3, s3).
    dot_next s3 >>? λ t3. read_int t3 >>? λ (ip4, s4). done (ip1, ip2, ip3, ip4)

-- `(port >> 8) & 0xFF` and `port & 0xFF`
abbrev pub high_byte : ℕ → ℕ
high_byte port = port / 256 % 256

abbrev pub low_byte : ℕ → ℕ
low_byte port = port % 256

unfoldable pub pasv_response : ℤ × ℤ × ℤ × ℤ → ℕ → Bytes
pasv_response (ip1, ip2, ip3, ip4) port =
    codes "227 Entering Passive Mode ("
    ++ (int_text ip1
        ++ (comma
            ++ (int_text ip2
                ++ (comma
                    ++ (int_text ip3
                        ++ (comma
                            ++ (int_text ip4
                                ++ (comma
                                    ++ (decimal (high_byte port)
                                        ++ (comma
                                            ++ (decimal (low_byte port) ++ codes ")\r\n")))))))))))

unfoldable pub next_pasv_port : ℕ → ℕ
next_pasv_port port = if ltb 65000 (port + 1) then 10000 else port + 1

abbrev pub cannot_open_data : Bytes
cannot_open_data = codes "425 Cannot open data connection\r\n"

-- The text of 1024 bytes that RETR, STOR and SIZE build.
abbrev pub file_path : ClientSession → Bytes → Outcome Bytes
file_path s filename = elim (get_absolute_path s) [
  | undefined ↦ undefined
  | done dir ↦
      if ltb (length (dir ++ (slash ++ filename))) 1024
      then done (dir ++ (slash ++ filename))
      else undefined
]

-- The successive results of `fread` on a file: full blocks, then what is left. A round reads a byte
-- at least, so the length of the file is enough fuel.
unfoldable pub blocks_of : ℕ → Bytes → List Bytes
blocks_of zero s = []
blocks_of (suc fuel) [] = []
blocks_of (suc fuel) (c ∷ s) = take buffer_size (c ∷ s) ∷ blocks_of fuel (drop buffer_size (c ∷ s))

unfoldable pub close_old_listener : Handler
close_old_listener = do
  s ← get
  if is_positive s.pasv_listen_socket
      then (do
        close s.pasv_listen_socket
        modify (λ t. record t { pasv_listen_socket = minus_one }))
      else skip

unfoldable pub close_data : Handler
close_data = do s ← get; close s.data_socket; modify (λ t. record t { data_socket = minus_one })

-- `%10ld`
pad_left : ℕ → Bytes → Bytes
pad_left width s = replicate (width - length s) b' ' ++ s

unfoldable pub list_line : Stat → Bytes → Bytes
unfolding pad_left
list_line st name =
    (if st.is_dir then codes "drwxr-xr-x 1 ftp ftp " else codes "-rw-r--r-- 1 ftp ftp ")
    ++ (pad_left 10 (decimal st.size) ++ (b' ' ∷ (st.mtime ++ (b' ' ∷ (name ++ crlf)))))

unfoldable pub add_line : Bytes → Bytes → Option Stat → Exec ClientSession Bytes
add_line buffer name none = pure buffer
add_line buffer name (some st) = do
  line ← sprintf 512 (list_line st name)
  sprintf 8192 (buffer ++ line)

unfoldable pub write_blocks : {S : Type 0} → Bytes → List Bytes → Exec S (Unit {0})
write_blocks path [] = skip
write_blocks path (block ∷ blocks) = do call (wrote path block); write_blocks path blocks

-- Whether `accept` gave a data connection.
abbrev pub when_connected : Handler → Handler → Handler
when_connected failed connected = do s ← get; if is_neg s.data_socket then failed else connected

module _ (os : Os) where
  unfoldable pub announce : Bytes → Handler
  announce server_ip = do
    s ← get
    ip ← lift (parse_ip server_ip)
    response ← sprintf 128 (pasv_response ip s.pasv_port)
    send_response os response
    modify (λ t. record t { pasv_port = next_pasv_port t.pasv_port })

  -- `setsockopt` and `listen` are called for their effect on the socket alone.
  unfoldable pub listen_on : Bytes → ℤ → Handler
  listen_on server_ip fd = do
    s ← get
    r ← bind os fd s.pasv_port
    if is_neg r
        then (do close fd; send_response os cannot_open_data)
        else (do modify (λ t. record t { pasv_listen_socket = fd }); announce server_ip)

  unfoldable pub open_listener : Bytes → Handler
  open_listener server_ip = do
    fd ← socket os
    if is_neg fd then send_response os cannot_open_data else listen_on server_ip fd

  unfoldable pub handle_pasv : Bytes → Handler
  handle_pasv server_ip = when_logged_in os (close_old_listener >> open_listener server_ip)

  abbrev pub when_listening : Handler → Handler
  when_listening handler = do
    s ← get
    if is_positive s.pasv_listen_socket
        then handler
        else send_response os (codes "425 Use PASV first\r\n")

  -- The one client of the listening socket, which is closed again.
  unfoldable pub accept_data : Handler
  accept_data = do
    s ← get
    fd ← accept os s.pasv_listen_socket
    close s.pasv_listen_socket
    modify (λ t. record t { data_socket = fd; pasv_listen_socket = minus_one })

  -- The loop over `readdir`; entries that `stat` refuses are left out.
  unfoldable pub list_entries : Bytes → List Bytes → Bytes → Exec ClientSession Bytes
  list_entries abs_path [] buffer = pure buffer
  list_entries abs_path (name ∷ names) buffer = do
    filepath ← sprintf 1280 (abs_path ++ (slash ++ name))
    found ← stat os filepath
    longer ← add_line buffer name found
    list_entries abs_path names longer

  unfoldable pub finish_list : Bytes → Bytes → Handler
  finish_list abs_path listing = do
    call (dir_closed abs_path)
    s ← get
    send os s.data_socket listing
    close_data
    send_response os (codes "226 Transfer complete\r\n")

  unfoldable pub send_list : Bytes → Option (List Bytes) → Handler
  send_list abs_path none = do send_response os (codes "550 Cannot open directory\r\n"); close_data
  send_list abs_path (some names) = do
    listing ← list_entries abs_path names []
    finish_list abs_path listing

  -- LIST with its data connection.
  unfoldable pub transfer_list : Handler
  transfer_list = do
    send_response os (codes "150 Opening data connection for LIST\r\n")
    s ← get
    abs_path ← lift (get_absolute_path s)
    names ← opendir os abs_path
    send_list abs_path names

  unfoldable pub handle_list : Handler
  handle_list = when_logged_in os (
      when_listening
        do accept_data; when_connected (send_response os cannot_open_data) transfer_list)

  -- The inner loop over `send`: it goes on behind what was sent, and gives up at a result that is
  -- not positive. Each round sends a byte at least, so the length of the data is enough fuel.
  unfoldable pub send_rounds : {S : Type 0} → ℕ → Bytes → ℤ → Exec S (Unit {0})
  send_rounds zero rest fd = skip
  send_rounds (suc fuel) [] fd = skip
  send_rounds (suc fuel) (c ∷ rest) fd = do
    n ← send os fd (c ∷ rest)
    elim n [ pos zero ↦ skip | pos (suc k) ↦ send_rounds fuel (drop k rest) fd | negsuc _ ↦ skip ]

  -- The outer loop over `fread`, which goes on after the inner loop gave up.
  unfoldable pub send_blocks : {S : Type 0} → List Bytes → ℤ → Exec S (Unit {0})
  unfolding send_rounds
  send_blocks [] fd = skip
  send_blocks (block ∷ blocks) fd = do send_rounds (length block) block fd; send_blocks blocks fd

  -- The end of RETR and STOR.
  unfoldable pub finish_file : Bytes → Handler
  finish_file path = do
    call (file_closed path)
    close_data
    send_response os (codes "226 Transfer complete\r\n")

  -- RETR with its data connection.
  unfoldable pub transfer_file : Bytes → Bytes → Handler
  transfer_file path content = do
    send_response os (codes "150 Opening data connection for file transfer\r\n")
    s ← get
    send_blocks (blocks_of (length content) content) s.data_socket
    finish_file path

  unfoldable pub retrieve : Bytes → Option Bytes → Handler
  retrieve path none = send_response os (codes "550 File not found\r\n")
  retrieve path (some content) = do
    accept_data
    when_connected (do call (file_closed path); send_response os cannot_open_data)
        (transfer_file path content)

  unfoldable pub handle_retr : Bytes → Handler
  handle_retr filename = when_logged_in os (
      when_listening do
        s ← get
        path ← lift (file_path s filename)
        content ← open_read os path
        retrieve path content)

  unfoldable pub receive_opened : Bytes → Bool → Handler
  receive_opened path false = do send_response os (codes "550 Cannot create file\r\n"); close_data
  receive_opened path true = do
    send_response os (codes "150 Opening data connection for file upload\r\n")
    s ← get
    blocks ← stream os s.data_socket
    write_blocks path blocks
    finish_file path

  -- STOR with its data connection.
  unfoldable pub receive_file : Bytes → Handler
  receive_file path = do opened ← open_write os path; receive_opened path opened

  unfoldable pub handle_stor : Bytes → Handler
  handle_stor filename = when_logged_in os (
      when_listening do
        s ← get
        path ← lift (file_path s filename)
        accept_data
        when_connected (send_response os cannot_open_data) (receive_file path))
