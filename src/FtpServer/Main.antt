-- ===== src/FtpServer/Main.antt =====
-- FTP-client-server/server/src/server.c: what `main` prepares, and the sessions that it starts.
use hust_network_programming.Base.{ℕ, zero, suc, Bool, List, [], ◌∷◌, Option, none, ℤ, pos, negsuc}
use hust_network_programming.CText.{Bytes, codes}
use hust_network_programming.Account.{Account, load_accounts, add_account, save_accounts}
use hust_network_programming.FtpServer.Thread.{take_port}

-- The accounts of a server that starts, from the file, and the file that it writes, if it does.
loaded_or_default : ℤ → Bool → List Account → List Account × Option Bytes
loaded_or_default (pos n) writable table = (table, none)
loaded_or_default (negsuc n) writable table =
    let first = (add_account (codes "admin") (codes "admin") (codes "/tmp") table).1 in
    let second = (add_account (codes "user") (codes "user") (codes "/tmp") first).1 in
    (second, (save_accounts writable second).1)

unfoldable pub initial_accounts : Option Bytes → Bool → List Account × Option Bytes
unfolding loaded_or_default
initial_accounts file writable =
    let (result, table) = load_accounts file [] in loaded_or_default result writable table

-- The ports from which the next sessions start, in the order in which the threads take the mutex.
unfoldable pub session_ports : ℕ → ℕ → List ℕ
session_ports zero counter = []
session_ports (suc n) counter = let (port, next) = take_port counter in port ∷ session_ports n next
