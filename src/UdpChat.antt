-- ===== src/UdpChat.antt =====
-- assignment/udp_chat_server.c: the table of addresses and the relay of a datagram. What is printed is
-- left out.
pub mod Table
mod Tests
use hust_network_programming.Base.{
  ℕ, Bool, true, false, ◌&&◌, ◌||◌, List, [], ◌∷◌, ◌++◌, ◌==◌, ltb, length, if◌then◌else◌,
}

abbrev pub max_clients : ℕ
max_clients = 128

pub record Address : Type 0 where
  pub addr : ℕ
  pub port : ℕ

abbrev pub same : Address → Address → Bool
same a b = a.addr == b.addr && a.port == b.port

-- The loop that looks for the sender.
unfoldable pub found : Address → List Address → Bool
found cli [] = false
found cli (c ∷ cs) = same c cli || found cli cs

unfoldable pub register : Address → List Address → List Address
register cli cs =
    if found cli cs then cs else if ltb (length cs) max_clients then cs ++ cli ∷ [] else cs

-- The addresses that the datagram is sent to, in their order.
unfoldable pub receivers : Address → List Address → List Address
receivers cli [] = []
receivers cli (c ∷ cs) = let rest = receivers cli cs in if same c cli then rest else c ∷ rest

-- The body of the loop for a datagram: the new table and the receivers.
unfoldable pub handle_datagram : Address → List Address → List Address × List Address
handle_datagram cli cs = let clients = register cli cs in (clients, receivers cli clients)
