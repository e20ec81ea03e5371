-- ===== src/ChatRoom/Tests.antt =====
-- The chat room with concrete clients.
use hust_network_programming.Base.{◌≡◌, ◌↔◌, refl, [], ◌∷◌, pos, minus_one, none, false}
use hust_network_programming.Outcome.{done}
use hust_network_programming.System.{Os, World}
use hust_network_programming.ChatRoom.{
  ChatRoom, initial_room, max_clients, replace_first, add_client, remove_client, broadcast_message,
}
use hust_network_programming.ChatRoom.Table.{
  IsValid, begin, joins, leaves, Reachable-counted, occupied, add_client_refuses,
  remove_client-add_client, Absent-replicate,
}
use hust_network_programming.ChatRoom.Relay.{deliveries, broadcast_message-deliveries}

Reachable-counted_example :
    IsValid (remove_client (pos 4) (add_client (pos 5) (add_client (pos 4) initial_room).1).1)
Reachable-counted_example =
    Reachable-counted (leaves (pos 4) refl (joins (pos 5) refl (joins (pos 4) refl begin)))

add_client_refuses_example :
    ((add_client (pos 4) initial_room).0 ≡ minus_one)
    ↔ (occupied initial_room.clients ≡ max_clients)
add_client_refuses_example = add_client_refuses (pos 4) initial_room refl (Reachable-counted begin)

remove_client-add_client_example :
    remove_client (pos 4) (add_client (pos 4) initial_room).1 ≡ initial_room
unfolding initial_room add_client replace_first
remove_client-add_client_example =
    remove_client-add_client (pos 4) initial_room refl (Absent-replicate (pos 4) max_clients refl)
      (Reachable-counted begin) refl

-- A system whose `send` fails.
abbrev broken : Os
broken = record {
  socket = λ h. minus_one;
  bind = λ h fd port. minus_one;
  connect = λ h fd ip port. minus_one;
  accept = λ h fd. minus_one;
  send = λ h fd s. minus_one;
  recv = λ h fd n. [];
  stream = λ h fd. [];
  stat = λ h path. none;
  opendir = λ h path. none;
  open_read = λ h path. none;
  open_write = λ h path. false;
  time_text = λ h. [];
}

abbrev three : World ChatRoom
three = record {
  state = record { clients = pos 4 ∷ pos 5 ∷ pos 0 ∷ pos 6 ∷ []; client_count = pos 3 };
  history = [];
}

broadcast_message-deliveries_example :
    (w' : World ChatRoom) × (broadcast_message broken (pos 5) (b'h' ∷ []) three ≡ done (tt, w'))
    × (w'.state ≡ three.state)
    × (deliveries w'.history ≡ (pos 4, b'h' ∷ []) ∷ (pos 6, b'h' ∷ []) ∷ [])
broadcast_message-deliveries_example = broadcast_message-deliveries broken (pos 5) (b'h' ∷ []) three
