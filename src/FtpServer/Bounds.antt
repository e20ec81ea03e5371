-- ===== src/FtpServer/Bounds.antt =====
-- Which texts overrun the arrays of ftp_server.c.
use hust_network_programming.Base.{◌≤◌, ◌≡◌, ◌↔◌, true, arith, length, length-append}
use hust_network_programming.CText.{Bytes, codes}
use hust_network_programming.Outcome.{undefined}
use hust_network_programming.System.{Os, World}
use hust_network_programming.FtpServer.{ClientSession, crlf, handle_user, handle_pwd}

-- USER overruns `response` exactly for a name of 100 bytes or more.
pub handle_user-undefined :
    (os : Os) (username : Bytes) (w : World ClientSession)
    → (handle_user os username w ≡ undefined) ↔ (100 ≤ length username)
unfolding handle_user codes
handle_user-undefined os username w = ground (arith, length-append username crlf)

-- PWD overruns `response` exactly in a directory whose path has 483 bytes or more, once logged in.
pub handle_pwd-undefined :
    (os : Os) (w : World ClientSession)
    → w.state.logged_in ≡ true
    → (handle_pwd os w ≡ undefined) ↔ (483 ≤ length w.state.current_dir)
unfolding handle_pwd codes
handle_pwd-undefined os w h =
    ground (arith, length-append w.state.current_dir (codes "\" is current directory\r\n"))
