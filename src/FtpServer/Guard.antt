-- ===== src/FtpServer/Guard.antt =====
-- The login guard of ftp_server.c.
use hust_network_programming.Base.{◌≡◌, false, List, ◌∷◌, arith}
use hust_network_programming.CText.{Bytes}
use hust_network_programming.Account.{Account}
use hust_network_programming.Outcome.{done}
use hust_network_programming.System.{Os, World, sent}
use hust_network_programming.FtpServer.{
  ClientSession, please_login, handle_pwd, handle_cwd, handle_cdup,
}
use hust_network_programming.FtpServer.Transfer.{handle_pasv, handle_list, handle_retr, handle_stor}
use hust_network_programming.FtpServer.Thread.{
  Command, pwd, cwd, cdup, pasv, list, retr, stor, dispatch,
}

-- The commands that want a login.
abbrev pub NeedsLogin : Command → Type 0
NeedsLogin pwd = Unit
NeedsLogin cwd = Unit
NeedsLogin cdup = Unit
NeedsLogin pasv = Unit
NeedsLogin list = Unit
NeedsLogin retr = Unit
NeedsLogin stor = Unit
NeedsLogin _ = ⊥

-- The world in which only the refusal was sent.
abbrev pub refused : Os → World ClientSession → World ClientSession
refused os w = record w {
  history =
      sent w.state.ctrl_socket please_login (os.send w.history w.state.ctrl_socket please_login)
      ∷ w.history;
}

-- Before a login each of PWD, CWD, CDUP, PASV, LIST, RETR and STOR, whatever its parameter, makes
-- one call only, which sends the reply 530, and leaves the session as it was.
pub dispatch_refuses :
    (os : Os) (accounts : List Account) (server_ip : Bytes) (c : Command) (param : Bytes)
    (w : World ClientSession)
    → NeedsLogin c
    → w.state.logged_in ≡ false
    → dispatch os accounts server_ip c param w ≡ done (tt, refused os w)
unfolding dispatch handle_pwd handle_cwd handle_cdup handle_pasv handle_list handle_retr handle_stor
dispatch_refuses os accounts server_ip pwd param w n h = rw h
dispatch_refuses os accounts server_ip cwd param w n h = rw h
dispatch_refuses os accounts server_ip _ param w n h = ground arith
