-- ===== src/ExecServer/Tests.antt =====
-- A client with one command.
use hust_network_programming.Base.{true, List, [], ◌∷◌, Option, none, some, pos, length, ℕ}
use hust_network_programming.CText.{Bytes}
use hust_network_programming.System.{Os, World, History}
use hust_network_programming.ExecServer.{ExecServer}

abbrev os : Os
os = record {
  socket = λ h. pos 5;
  bind = λ h fd port. pos 0;
  connect = λ h fd ip port. pos 0;
  accept = λ h fd. pos 4;
  send = λ h fd s. pos (length s);
  recv = λ h fd n. [];
  stream = λ h fd. [];
  stat = λ h path. none;
  opendir = λ h path. none;
  open_read = λ h path. none;
  open_write = λ h path. true;
  time_text = λ h. [];
}

abbrev echo : History → Bytes → Option (Bytes × ℕ)
echo h cmd = some (cmd, 0)

abbrev address : Bytes
address = b'1' ∷ []

abbrev received : List Bytes
received = (b'l' ∷ b's' ∷ b'\n' ∷ []) ∷ []

abbrev first : World ExecServer
first = record {
  state = record { table = record { clients = pos 4 ∷ []; client_count = pos 1 }; log = [] };
  history = [];
}
