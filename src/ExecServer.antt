-- ===== src/ExecServer.antt =====
-- assignment/multithread_exec_server.c: a thread that runs the commands of its client and logs them. The
-- table of clients has the same code and size as in assignment/multithread_chatroom.c. Each
-- write to the log holds its mutex, so it is one step. What is printed is left out.
pub mod Log
mod Tests
use hust_network_programming.Base.{
  ℕ, ◌+◌, ◌-◌, ◌/◌, ◌%◌, Bool, true, false, not, ◌&&◌, List, [], ◌∷◌, ◌++◌, Option, none, some,
  ◌==◌, ltb, length, take, if◌then◌else◌, ℤ,
}
use hust_network_programming.CText.{Bytes, codes, str_eq, before, is_line_end}
use hust_network_programming.CText.Decimal.{decimal, int_text}
use hust_network_programming.CText.Scan.{is_nul}
use hust_network_programming.Outcome.{Outcome, done}
use hust_network_programming.System.{
  Os, World, History, Exec, file_closed, ◌>>=◌, ◌>>◌, skip, modify, call, close, send, open_write,
}
use hust_network_programming.ChatRoom.{ChatRoom, remove_client}
use hust_network_programming.HttpUpload.{last_or}

-- The table of clients and the content of the log file.
pub record ExecServer : Type 0 where
  pub table : ChatRoom
  pub log : Bytes

abbrev pub Server : Type 0
Server = Exec ExecServer (Unit {0})

abbrev pub output_file : Bytes
output_file = codes "tmp.txt"

-- An entry of the log; the result ends its line.
unfoldable pub entry : ℤ → Bytes → Bytes → Bytes → Bytes → Bytes
entry client_sock client_addr time cmd result =
    codes "=================================\n"
    ++ (codes "Time: "
        ++ (time
            ++ (codes "\nClient: "
                ++ (client_addr
                    ++ (codes " (socket "
                        ++ (int_text client_sock
                            ++ (codes ")\nCommand: "
                                ++ (cmd
                                    ++ (codes "\nOutput:\n"
                                        ++ (result
                                            ++ ((if last_or b'\n' result == b'\n'
                                                  then []
                                                  else b'\n' ∷ [])
                                                ++ codes
                                                    "=================================\n\n")))))))))))

-- The text of a command, from a buffer of 1024 bytes that ends with a zero.
unfoldable pub command_text : Bytes → Bytes
command_text received = before is_line_end (before is_nul (take 1023 received))

-- What stands in `result` for the output of a command and the status that `pclose` gives.
unfoldable pub result_of : Bytes → ℕ → Bytes
result_of output status =
    let text = before is_nul (take 4095 output) in
    let message =
      codes "\n[Command exited with status " ++ (decimal (status / 256 % 256) ++ codes "]\n") in
    if not (status == 0) && ltb (length (take 4095 output)) 3996
    then text ++ take (4095 - length text) (take 99 message)
    else text

abbrev pub no_output : Bytes
no_output = codes "[Command executed successfully with no output]\n"

abbrev pub shown : Bytes → Bytes
shown [] = no_output
shown (c ∷ s) = c ∷ s

-- `run` is what a command gives that `popen` starts: its output and its status.
module _ (os : Os) (run : History → Bytes → Option (Bytes × ℕ)) where
  unfoldable pub now : Exec ExecServer Bytes
  now w = done (os.time_text w.history, w)

  abbrev pub append_log : Bytes → Bool → Server
  append_log text false = skip
  append_log text true = do
    modify (λ s. record s { log = s.log ++ text })
    call (file_closed output_file)

  unfoldable pub write_to_file : ℤ → Bytes → Bytes → Bytes → Server
  write_to_file client_sock client_addr cmd result = do
    opened ← open_write os output_file
    time ← now
    append_log (entry client_sock client_addr time cmd result) opened

  unfoldable pub popen : Bytes → Exec ExecServer (Option (Bytes × ℕ))
  popen cmd w = done (run w.history cmd, w)

  abbrev pub report : ℤ → Bytes → Bytes → Option (Bytes × ℕ) → Server
  report client_sock client_addr cmd none = do
    send os client_sock (codes "Failed to execute command.\n")
    write_to_file client_sock client_addr cmd (codes "ERROR: Failed to execute command\n")
  report client_sock client_addr cmd (some (output, status)) = do
    send os client_sock (shown (result_of output status))
    write_to_file client_sock client_addr cmd (shown (result_of output status))

  unfoldable pub execute : ℤ → Bytes → Bytes → Server
  execute client_sock client_addr cmd = do
    result ← popen cmd
    report client_sock client_addr cmd result

  abbrev pub command_round : ℤ → Bytes → Server → Bytes → Server
  command_round client_sock client_addr rounds [] = rounds
  command_round client_sock client_addr rounds (c ∷ cmd) =
      if str_eq (c ∷ cmd) (codes "exit")
      then (do send os client_sock (codes "Goodbye!\n"); skip)
      else (do execute client_sock client_addr (c ∷ cmd); rounds)

  -- The loop over the results of `recv` that are positive; the first other one ends it.
  unfoldable pub serve_commands : ℤ → Bytes → List Bytes → Server
  serve_commands client_sock client_addr [] = skip
  serve_commands client_sock client_addr (received ∷ rest) =
      command_round client_sock client_addr (serve_commands client_sock client_addr rest)
        (command_text received)

  unfoldable pub client_thread : ℤ → Bytes → List Bytes → Server
  client_thread client_sock client_addr received = do
    send os client_sock
        (codes "Multi-threaded Command Execution Server\nType 'exit' to disconnect.\n")
    serve_commands client_sock client_addr received
    modify (λ s. record s { table = remove_client client_sock s.table })
    close client_sock
