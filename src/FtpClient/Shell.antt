-- ===== src/FtpClient/Shell.antt =====
-- FTP-client-server/client/src/client.c: the login and the loop over the user's commands. What it
-- prints on the terminal is left out.
use hust_network_programming.Base.{
  ℕ, Bool, true, false, ◌||◌, List, [], ◌∷◌, Option, ◌==◌, length, if◌then◌else◌, ℤ, pos, negsuc,
}
use hust_network_programming.CText.{
  Bytes, codes, before, from, skip_space, scan_word, str_eq, str_case_eq, is_line_end,
}
use hust_network_programming.Outcome.{Outcome, done, undefined, fit}
use hust_network_programming.System.{Os, ◌>>=◌, ◌>>◌, pure, skip, lift}
use hust_network_programming.FtpClient.{
  Client, ftp_login, ftp_pwd, ftp_cwd, ftp_quit, ftp_disconnect,
}
use hust_network_programming.FtpClient.Data.{ftp_list, ftp_download, ftp_upload}

pub data UserCommand : Type 0 where
  quit : UserCommand
  help : UserCommand
  pwd : UserCommand
  ls : UserCommand
  cd : UserCommand
  get_file : UserCommand
  put_file : UserCommand
  unknown : UserCommand

abbrev is_any : List Bytes → Bytes → Bool
is_any [] cmd = false
is_any (name ∷ names) cmd = str_case_eq cmd name || is_any names cmd

unfoldable pub user_command : Bytes → UserCommand
user_command cmd =
    if is_any (codes "quit" ∷ codes "exit" ∷ []) cmd
    then quit
    else if str_case_eq cmd (codes "help") || str_eq cmd (codes "?")
    then help
    else if str_case_eq cmd (codes "pwd")
    then pwd
    else if is_any (codes "ls" ∷ codes "dir" ∷ codes "list" ∷ []) cmd
    then ls
    else if str_case_eq cmd (codes "cd")
    then cd
    else if is_any (codes "get" ∷ codes "download" ∷ codes "retr" ∷ []) cmd
    then get_file
    else if is_any (codes "put" ∷ codes "upload" ∷ codes "stor" ∷ []) cmd
    then put_file
    else unknown

-- `sscanf(line, "%s %[^\n]", cmd, param)` into arrays of 64 and 256 bytes.
unfoldable pub parse_line : Bytes → Outcome (Bytes × Bytes)
parse_line line = elim (fit 64 (scan_word line).0) [
  | undefined ↦ undefined
  | done cmd ↦ elim (fit 256 (before (λ c. c == b'\n') (skip_space (scan_word line).1))) [
    | undefined ↦ undefined
    | done param ↦ done (cmd, param)
  ]
]

-- The two file names of a parameter, cut at its first space; one name stands for both.
abbrev is_blank : ℕ → Bool
is_blank c = c == b' '

abbrev tail_of : Bytes → Bytes
tail_of [] = []
tail_of (_ ∷ s) = s

unfoldable pub two_names : Bytes → Bytes × Bytes
two_names param =
    if length (from is_blank param) == 0
    then (param, param)
    else (before is_blank param, tail_of (from is_blank param))

abbrev is_zero : ℤ → Bool
is_zero (pos n) = n == 0
is_zero (negsuc n) = false

module _ (os : Os) where
  -- `if (strlen(param) == 0)` only prints how to use the command.
  abbrev with_param : Bytes → Client (Unit {0}) → Client (Unit {0})
  with_param [] m = skip
  with_param (_ ∷ _) m = m

  -- One command; the result tells whether the loop goes on.
  unfoldable pub run_user_command : UserCommand → Bytes → Client Bool
  run_user_command quit param = do ftp_quit os; pure false
  run_user_command help param = pure true
  run_user_command pwd param = do ftp_pwd os; pure true
  run_user_command ls param = do ftp_list os; pure true
  run_user_command cd param = do with_param param (do ftp_cwd os param; skip); pure true
  run_user_command get_file param = do
    with_param param (do ftp_download os (two_names param).0 (two_names param).1; skip)
    pure true
  run_user_command put_file param = do
    with_param param (do ftp_upload os (two_names param).0 (two_names param).1; skip)
    pure true
  run_user_command unknown param = pure true

  run_line : Bytes → Client Bool
  run_line [] = pure true
  run_line (c ∷ s) = do
    (cmd, param) ← lift (parse_line (c ∷ s))
    run_user_command (user_command cmd) param

  -- The loop, over the lines that `fgets` reads from the terminal until its end.
  unfoldable pub command_loop : List Bytes → Client (Unit {0})
  unfolding run_line
  command_loop [] = skip
  command_loop (line ∷ lines) = do
    continue ← run_line (before is_line_end line)
    if continue then command_loop lines else skip

  -- The login with the name and the password of the command line or the terminal.
  unfoldable pub login_and_run : Bytes → Option Bytes → List Bytes → Client ℤ
  login_and_run username password lines = do
    r ← ftp_login os username password
    if is_zero r
        then (do command_loop lines; pure (pos 0))
        else (do ftp_disconnect os; pure (pos 1))
