-- ===== src/ExecServer/Log.antt =====
-- The log of the commands that a client has run.
use mathlib.Core.List.{flatten}
use hust_network_programming.Base.{
  ℕ, ◌≡◌, true, List, [], ◌∷◌, ◌++◌, map, Option, none, some, if◌then◌else◌, ℤ,
}
use hust_network_programming.CText.{Bytes, codes, str_eq}
use hust_network_programming.Outcome.{Outcome, done}
use hust_network_programming.System.{Os, World, History, sent, file_closed, open_write}
use hust_network_programming.ChatRoom.{is_free}
use hust_network_programming.ExecServer.{
  ExecServer, Server, output_file, entry, command_text, result_of, shown, file_closed, open_write,
}
use hust_network_programming.ChatRoom.{is_free}

-- The commands that are run: what was received before "exit", without empty lines.
abbrev kept : Bytes → List Bytes → List Bytes
kept [] rest = rest
kept (c ∷ cmd) rest = if str_eq (c ∷ cmd) (codes "exit") then [] else (c ∷ cmd) ∷ rest

unfoldable pub commands : List Bytes → List Bytes
commands [] = []
commands (received ∷ rest) = kept (command_text received) (commands rest)

-- A command with the calls before it and the time that is logged.
pub record Run : Type 0 where
  pub cmd : Bytes
  pub before_it : History
  pub time : Bytes

abbrev pub logged : Option (Bytes × ℕ) → Bytes
logged none = codes "ERROR: Failed to execute command\n"
logged (some (output, status)) = shown (result_of output status)

module _ (os : Os) (run : History → Bytes → Option (Bytes × ℕ)) where
  abbrev pub run_entry : ℤ → Bytes → Run → Bytes
  run_entry client_sock client_addr r =
      entry client_sock client_addr r.time r.cmd (logged (run r.before_it r.cmd))

module _ (os : Os) (run : History → Bytes → Option (Bytes × ℕ))
    (log_opens : (h : History) → os.open_write h output_file ≡ true) where
  -- The state after one more entry.
  abbrev with_entry : ExecServer → Bytes → ExecServer
  with_entry s text = record s { log = s.log ++ text }

  record Adds (m : Server) (w : World ExecServer) (client_sock : ℤ) (client_addr cmd result : Bytes)
      : Type 0 where
    after : World ExecServer
    time : Bytes
    result_is : m w ≡ done (tt, after)
    state_is : after.state ≡ with_entry w.state (entry client_sock client_addr time cmd result)

  abbrev after_send : World ExecServer → ℤ → Bytes → World ExecServer
  after_send w client_sock text = record w {
    history = sent client_sock text (os.send w.history client_sock text) ∷ w.history;
  }

  -- What the loop does.
  record Logs (m : Server) (w : World ExecServer) (client_sock : ℤ) (client_addr : Bytes)
      (cmds : List Bytes) : Type 0 where
    after : World ExecServer
    runs : List Run
    result_is : m w ≡ done (tt, after)
    runs_are : map (λ r. r.cmd) runs ≡ cmds
    state_is :
        after.state
        ≡ with_entry w.state (flatten (map (run_entry os run client_sock client_addr) runs))
