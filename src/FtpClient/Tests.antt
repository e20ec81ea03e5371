-- ===== src/FtpClient/Tests.antt =====
-- The client on concrete replies.
use hust_network_programming.Base.{
  ◌≡◌, refl, arith, [], ◌∷◌, some, pos, length, minus_one, none, true,
}
use hust_network_programming.Outcome.{done}
use hust_network_programming.FtpServer.Transfer.{pasv_response}
use hust_network_programming.FtpClient.{path_of}
use hust_network_programming.FtpClient.Data.{Address, address_of, data_port}
use hust_network_programming.FtpClient.Replies.{address_of-pasv_response, path_of-pwd_response}
use hust_network_programming.System.{Os, World, sent}
use hust_network_programming.CText.{Bytes}
use hust_network_programming.FtpServer.{ClientSession, handle_pwd}

address_of-pasv_response_example :
    (r : Address) × (address_of (pasv_response (pos 127, pos 0, pos 0, pos 1) 10001)
      ≡ done (some r))
    × (r ≡ record { h1 = pos 127; h2 = pos 0; h3 = pos 0; h4 = pos 1; p1 = pos 39; p2 = pos 17 })
    × (data_port r ≡ done (pos 10001))
address_of-pasv_response_example =
    address_of-pasv_response 127 0 0 1 10001 (omega arith) (omega arith) (omega arith) (omega arith)
      (omega arith)

abbrev os : Os
os = record {
  socket = λ h. pos 5;
  bind = λ h fd port. pos 0;
  connect = λ h fd ip port. pos 0;
  accept = λ h fd. pos 4;
  send = λ h fd s. pos (length s);
  recv = λ h fd n. [];
  stream = λ h fd. [];
  stat = λ h path. none;
  opendir = λ h path. none;
  open_read = λ h path. none;
  open_write = λ h path. true;
  time_text = λ h. [];
}

-- A session that is logged in, in the directory `/a`.
abbrev session : World ClientSession
session = record {
  state = record {
    ctrl_socket = pos 4;
    data_socket = minus_one;
    pasv_listen_socket = minus_one;
    logged_in = true;
    username = b'a' ∷ [];
    root_dir = b'/' ∷ b'r' ∷ [];
    current_dir = b'/' ∷ b'a' ∷ [];
    client_ip = [];
    pasv_port = 10000;
  };
  history = [];
}

path_of-pwd_response_example :
    (reply : Bytes) × (handle_pwd os session
      ≡ done (tt, record session { history = sent (pos 4) reply (pos (length reply)) ∷ [] }))
    × (path_of reply ≡ done (some (b'/' ∷ b'a' ∷ [])))
path_of-pwd_response_example = path_of-pwd_response os session refl (refl, (refl, tt)) (omega arith)
