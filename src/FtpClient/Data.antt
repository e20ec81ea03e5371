-- ===== src/FtpClient/Data.antt =====
-- FTP-client-server/client/src/ftp_client.c: the data connection and the transfers of the client.
use mathlib.Core.List.{flatten}
use hust_network_programming.Base.{
  ℕ, ◌+◌, ◌-◌, ◌*◌, ◌%◌, ◌^◌, Bool, true, false, ◌&&◌, ◌||◌, [], ◌∷◌, ◌++◌, Option, none, some, ltb,
  ◌==◌, length, take, if◌then◌else◌, ℤ, pos, negsuc, is_neg, minus_one,
}
use hust_network_programming.CText.{Bytes, codes, strchr, before}
use hust_network_programming.CText.Decimal.{int_text, scan_int}
use hust_network_programming.Outcome.{Outcome, done, undefined, ◌>>?◌}
use hust_network_programming.System.{
  Os, ◌>>=◌, ◌>>◌, pure, get, modify, lift, call, close, print, socket, connect, stream, open_read,
  open_write, file_closed,
}
use hust_network_programming.FtpServer.Transfer.{send_blocks, write_blocks, blocks_of}
use hust_network_programming.FtpClient.{Client, is_code, snprintf, ftp_execute, ftp_recv_response}

-- The six numbers of "(%d,%d,%d,%d,%d,%d)".
pub record Address : Type 0 where
  pub h1 : ℤ
  pub h2 : ℤ
  pub h3 : ℤ
  pub h4 : ℤ
  pub p1 : ℤ
  pub p2 : ℤ

-- A literal byte of the format, and then a `%d`; `none` ends the scan.
unfoldable pub scan_after : ℕ → Bytes → Outcome (Option (ℤ × Bytes))
scan_after c [] = done none
scan_after c (x ∷ s) = if x == c then scan_int s else done none

-- The result is `none` unless all six numbers are read.
unfoldable pub scan_address : Bytes → Outcome (Option Address)
scan_address s = scan_after b'(' s >>? λ (a, s1). scan_after b',' s1 >>? λ (b, s2).
    scan_after b',' s2 >>? λ (c, s3). scan_after b',' s3 >>? λ (d, s4).
    scan_after b',' s4 >>? λ (e, s5). scan_after b',' s5 >>? λ (f, _).
    done (some (record { h1 = a; h2 = b; h3 = c; h4 = d; p1 = e; p2 = f }))

abbrev from_paren : Option Bytes → Outcome (Option Address)
from_paren none = done none
from_paren (some start) = scan_address start

unfoldable pub address_of : Bytes → Outcome (Option Address)
address_of response = from_paren (strchr b'(' response)

abbrev times_256 : ℤ → ℤ
times_256 (pos n) = pos (n * 256)
times_256 (negsuc n) = negsuc (n * 256 + 255)

-- The sum of two integers.
abbrev plus : ℤ → ℤ → ℤ
plus (pos m) (pos n) = pos (m + n)
plus (negsuc m) (negsuc n) = negsuc (m + n + 1)
plus (pos m) (negsuc n) = if ltb n m then pos (m - n - 1) else negsuc (n - m)
plus (negsuc m) (pos n) = if ltb m n then pos (n - m - 1) else negsuc (m - n)

in_int_range : ℤ → Bool
in_int_range (pos n) = ltb n (2 ^ 31)
in_int_range (negsuc n) = ltb n (2 ^ 31)

-- The 16 bits that `htons` takes from an `int`.
abbrev pub to_u16 : ℤ → ℕ
to_u16 (pos n) = n % 65536
to_u16 (negsuc n) = 65535 - n % 65536

-- `p1 * 256 + p2`; a value out of range is undefined.
unfoldable pub data_port : Address → Outcome ℤ
unfolding in_int_range
data_port a =
    if in_int_range (times_256 a.p1) && in_int_range (plus (times_256 a.p1) a.p2)
    then done (plus (times_256 a.p1) a.p2)
    else undefined

abbrev dot : Bytes
dot = b'.' ∷ []

unfoldable pub data_ip : Address → Bytes
data_ip a = snprintf 32 (
    int_text a.h1 ++ (dot ++ (int_text a.h2 ++ (dot ++ (int_text a.h3 ++ (dot ++ int_text a.h4))))))

module _ (os : Os) where
  unfoldable pub close_data : Client (Unit {0})
  close_data = do s ← get; close s.data_socket; modify (λ t. record t { data_socket = minus_one })

  unfoldable pub connect_data : Bytes → ℕ → Client ℤ
  connect_data ip port = do
    fd ← socket os
    modify (λ s. record s { data_socket = fd })
    if is_neg fd then pure minus_one else (do
      r ← connect os fd ip port
      if is_neg r then (do close_data; pure minus_one) else pure fd)

  open_data : Option Address → Client ℤ
  open_data none = pure minus_one
  open_data (some a) = do port ← lift (data_port a); connect_data (data_ip a) (to_u16 port)

  unfoldable pub ftp_pasv : Client ℤ
  unfolding open_data
  ftp_pasv = do
    reply ← ftp_execute os (codes "PASV")
    if is_code 227 reply.0
        then (do address ← lift (address_of reply.1); open_data address)
        else pure minus_one

  -- Whether the server starts a transfer.
  abbrev pub starts : ℤ → Bool
  starts code = is_code 150 code || is_code 125 code

  -- The listing that is received, of which the array holds 16383 bytes and `%s` prints the text up to a zero.
  receive_listing : Client ℤ
  receive_listing = do
    s ← get
    blocks ← stream os s.data_socket
    print (before (λ c. c == 0) (take 16383 (flatten blocks)))
    close_data
    ftp_recv_response os
    pure (pos 0)

  give_up : Client ℤ
  give_up = do close_data; pure minus_one

  unfoldable pub ftp_list : Client ℤ
  unfolding receive_listing give_up close_data
  ftp_list = do
    data_fd ← ftp_pasv
    if is_neg data_fd then pure minus_one else (do
      reply ← ftp_execute os (codes "LIST")
      if starts reply.0 then receive_listing else give_up)

  receive_file : Bytes → Bool → Client ℤ
  receive_file local_file false = give_up
  receive_file local_file true = do
    s ← get
    blocks ← stream os s.data_socket
    write_blocks local_file blocks
    call (file_closed local_file)
    close_data
    ftp_recv_response os
    pure (pos 0)

  unfoldable pub ftp_download : Bytes → Bytes → Client ℤ
  unfolding receive_file give_up close_data
  ftp_download remote_file local_file = do
    data_fd ← ftp_pasv
    if is_neg data_fd then pure minus_one else (do
      reply ← ftp_execute os (snprintf 512 (codes "RETR " ++ remote_file))
      if starts reply.0
          then (do opened ← open_write os local_file; receive_file local_file opened)
          else give_up)

  send_content : Bytes → Bytes → Client ℤ
  send_content local_file content = do
    s ← get
    send_blocks os (blocks_of (length content) content) s.data_socket
    call (file_closed local_file)
    close_data
    ftp_recv_response os
    pure (pos 0)

  upload : Bytes → Bytes → Option Bytes → Client ℤ
  upload local_file remote_file none = pure minus_one
  upload local_file remote_file (some content) = do
    data_fd ← ftp_pasv
    if is_neg data_fd then (do call (file_closed local_file); pure minus_one) else (do
      reply ← ftp_execute os (snprintf 512 (codes "STOR " ++ remote_file))
      if starts reply.0
          then send_content local_file content
          else (do call (file_closed local_file); give_up))

  unfoldable pub ftp_upload : Bytes → Bytes → Client ℤ
  unfolding upload send_content give_up close_data
  ftp_upload local_file remote_file = do
    content ← open_read os local_file
    upload local_file remote_file content
