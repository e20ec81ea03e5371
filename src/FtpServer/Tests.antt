-- ===== src/FtpServer/Tests.antt =====
-- Runs of the server on concrete sessions, against a system in which every call succeeds.
use mathlib.Core.List.{flatten}
use hust_network_programming.Base.{
  ℕ, ◌≤◌, ◌≡◌, ◌≢◌, ◌↔◌, refl, arith, Bool, true, false, List, [], ◌∷◌, ◌++◌, some, pos, length,
  minus_one,
}
use hust_network_programming.CText.{
  Bytes, codes, str_eq, str_case_eq, to_lower, skip_space, scan_word, strncpy,
}
use hust_network_programming.Account.{Account, validate_login, get_user_root_dir}
use hust_network_programming.Outcome.{Outcome, done, undefined}
use hust_network_programming.System.{Os, World, ◌>>◌}
use hust_network_programming.FtpServer.{
  ClientSession, crlf, get_absolute_path, new_path, handle_user, handle_pass, handle_pwd,
  handle_cwd, handle_cdup,
}
use hust_network_programming.FtpServer.Transfer.{handle_retr, handle_stor}
use hust_network_programming.FtpServer.Thread.{
  pwd, command_of, split_command, dispatch, handle_buffer, take_port, take_command, run_command,
}
use hust_network_programming.FtpServer.Main.{session_ports}
use hust_network_programming.FtpServer.Guard.{dispatch_refuses, refused}
use hust_network_programming.FtpServer.Invariant.{IsValid, Granted}
use hust_network_programming.FtpServer.Session.{
  Reachable, begin, round, Reachable-IsValid, Reachable-Granted, initial_world, passwords,
}
use hust_network_programming.FtpServer.Directory.{handle_cwd-handle_cdup, down_and_up}
use hust_network_programming.FtpServer.Bounds.{handle_user-undefined, handle_pwd-undefined}
use hust_network_programming.FtpServer.Parsing.{handle_buffer_first_line, split_command-append}
use hust_network_programming.FtpServer.Ports.{session_ports_differ}
use hust_network_programming.FtpServer.Delivery.{handle_retr-delivers, handle_stor-stores, written}
use hust_network_programming.FtpServer.Transmission.{Progresses, transmitted}
use hust_network_programming.Base.{◌⊎◌}

abbrev content : Bytes
content = b'h' ∷ b'e' ∷ b'l' ∷ b'l' ∷ b'o' ∷ []

-- `send` takes one byte at a time.
abbrev calm : Os
calm = record {
  socket = λ h. pos 5;
  bind = λ h fd port. pos 0;
  connect = λ h fd ip port. pos 0;
  accept = λ h fd. pos 6;
  send = λ h fd s. pos 1;
  recv = λ h fd n. [];
  stream = λ h fd. (b'a' ∷ b'b' ∷ []) ∷ (b'c' ∷ []) ∷ [];
  stat = λ h path. some (record { is_dir = true; size = 5; mtime = [] });
  opendir = λ h path. some [];
  open_read = λ h path. some content;
  open_write = λ h path. true;
  time_text = λ h. [];
}

abbrev admin : Bytes
admin = b'a' ∷ b'd' ∷ []

abbrev ip : Bytes
ip = b'1' ∷ b'.' ∷ b'2' ∷ b'.' ∷ b'3' ∷ b'.' ∷ b'4' ∷ []

abbrev accounts : List Account
accounts = record { username = admin; password = admin; root_dir = b'/' ∷ b'r' ∷ [] } ∷ []

-- A session before its login, and one that is logged in and listens.
abbrev fresh : World ClientSession
fresh = initial_world (pos 4) ip 10000

abbrev listening : World ClientSession
listening = record {
  state = record {
    ctrl_socket = pos 4;
    data_socket = minus_one;
    pasv_listen_socket = pos 5;
    logged_in = true;
    username = admin;
    root_dir = b'/' ∷ b'r' ∷ [];
    current_dir = b'/' ∷ [];
    client_ip = ip;
    pasv_port = 10001;
  };
  history = [];
}

abbrev file : Bytes
file = b'f' ∷ []

abbrev path : Bytes
path = b'/' ∷ b'r' ∷ b'/' ∷ b'f' ∷ []

calm-Progresses : Progresses calm (pos 6)
calm-Progresses h c s = (0, refl, omega arith)

handle_retr-delivers_example :
    (w' : World ClientSession) × (handle_retr calm file listening ≡ done (tt, w'))
    × (w'.state
        ≡ record listening.state { data_socket = minus_one; pasv_listen_socket = minus_one })
    × (transmitted (pos 6) w'.history ≡ content)
unfolding get_absolute_path
handle_retr-delivers_example =
    handle_retr-delivers calm (pos 6) file path content listening calm-Progresses refl refl refl
      refl refl refl refl

handle_stor-stores_example :
    (w' : World ClientSession) × (handle_stor calm file listening ≡ done (tt, w'))
    × (w'.state
        ≡ record listening.state { data_socket = minus_one; pasv_listen_socket = minus_one })
    × (written path w'.history ≡ flatten ((b'a' ∷ b'b' ∷ []) ∷ (b'c' ∷ []) ∷ []))
unfolding get_absolute_path
handle_stor-stores_example =
    handle_stor-stores calm (pos 6) file path ((b'a' ∷ b'b' ∷ []) ∷ (b'c' ∷ []) ∷ []) listening refl
      refl refl refl refl refl refl

dispatch_refuses_example : dispatch calm accounts ip pwd [] fresh ≡ done (tt, refused calm fresh)
dispatch_refuses_example = dispatch_refuses calm accounts ip pwd [] fresh tt refl

abbrev world_of : Outcome (Bool × World ClientSession) → World ClientSession
world_of undefined = fresh
world_of (done (_, w)) = w

abbrev user_line : Bytes
user_line = b'U' ∷ b'S' ∷ b'E' ∷ b'R' ∷ b' ' ∷ b'a' ∷ b'd' ∷ b'\r' ∷ b'\n' ∷ []

abbrev pass_line : Bytes
pass_line = b'P' ∷ b'A' ∷ b'S' ∷ b'S' ∷ b' ' ∷ b'a' ∷ b'd' ∷ b'\r' ∷ b'\n' ∷ []

abbrev after_user : World ClientSession
after_user = world_of (take_command calm accounts ip user_line fresh)

abbrev after_pass : World ClientSession
after_pass = world_of (take_command calm accounts ip pass_line after_user)

after_pass-Reachable : Reachable calm accounts ip fresh after_pass
unfolding take_command handle_buffer run_command dispatch split_command scan_word skip_space
    command_of str_case_eq to_lower handle_user handle_pass validate_login get_user_root_dir str_eq
    strncpy codes
after_pass-Reachable =
    round {w = after_user} {left = false} pass_line
      (round {w = fresh} {left = false} user_line begin refl) refl

-- The password that was received, and the session that is logged in with it.
Reachable-IsValid_example : IsValid accounts (admin ∷ []) 4 after_pass
unfolding take_command handle_buffer run_command dispatch split_command scan_word skip_space
    command_of str_case_eq to_lower handle_user handle_pass validate_login get_user_root_dir str_eq
    strncpy codes passwords after_pass-Reachable
Reachable-IsValid_example =
    Reachable-IsValid calm accounts ip (pos 4) ip 10000 (omega arith) (omega arith) 4 (omega arith)
      {w = after_pass} after_pass-Reachable

Reachable-Granted_example :
    Granted accounts (admin ∷ []) admin (b'/' ∷ b'r' ∷ [])
    ⊎ (dispatch calm accounts ip pwd [] after_pass ≡ done (tt, refused calm after_pass))
unfolding take_command handle_buffer run_command dispatch split_command scan_word skip_space
    command_of str_case_eq to_lower handle_user handle_pass validate_login get_user_root_dir str_eq
    strncpy codes passwords after_pass-Reachable
Reachable-Granted_example =
    Reachable-Granted calm accounts ip (pos 4) ip 10000 (omega arith) (omega arith) {w = after_pass}
      after_pass-Reachable pwd [] tt

handle_cwd-handle_cdup_example :
    (handle_cwd calm file >> handle_cdup calm) listening
    ≡ done (tt, down_and_up calm (b'/' ∷ b'f' ∷ []) listening)
unfolding new_path str_eq
handle_cwd-handle_cdup_example =
    handle_cwd-handle_cdup calm file (b'/' ∷ b'f' ∷ []) listening refl refl (omega arith) (refl, tt)
      refl refl

handle_user-undefined_example : (handle_user calm admin fresh ≡ undefined) ↔ (100 ≤ length admin)
handle_user-undefined_example = handle_user-undefined calm admin fresh

handle_pwd-undefined_example :
    (handle_pwd calm listening ≡ undefined) ↔ (483 ≤ length listening.state.current_dir)
handle_pwd-undefined_example = handle_pwd-undefined calm listening refl

handle_buffer_first_line_example :
    handle_buffer calm accounts ip (file ++ (crlf ++ file)) fresh
    ≡ handle_buffer calm accounts ip (file ++ crlf) fresh
handle_buffer_first_line_example =
    handle_buffer_first_line calm accounts ip file file fresh (refl, tt)

split_command-append_example :
    split_command ((b'C' ∷ b'D' ∷ []) ++ (b' ' ∷ b'f' ∷ [])) ≡ done (b'C' ∷ b'D' ∷ [], b'f' ∷ [])
split_command-append_example =
    split_command-append b'C' (b'D' ∷ []) b'f' [] (refl, (refl, tt)) refl (refl, tt) (omega arith)
      (omega arith)

session_ports_differ_example : ◌≢◌ {A = ℕ} 10000 10200
unfolding session_ports take_port
session_ports_differ_example =
    session_ports_differ 3 0 2 10000 10200 (omega arith) (omega arith) (omega arith) refl refl
