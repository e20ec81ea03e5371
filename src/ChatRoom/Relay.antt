-- ===== src/ChatRoom/Relay.antt =====
-- Whom a message of assignment/multithread_chatroom.c reaches.
use hust_network_programming.Base.{
  ◌≡◌, refl, sym, ◌∙◌, List, [], ◌∷◌, ◌++◌, append_assoc, append-nil, if◌then◌else◌, ℤ, Bool-cases,
  inl, inr,
}
use hust_network_programming.CText.{Bytes}
use hust_network_programming.Outcome.{done}
use hust_network_programming.System.{Os, World, Event, History, sent}
use hust_network_programming.ChatRoom.{ChatRoom, same, is_free, send_others, broadcast_message}

abbrev delivery : Event → List (ℤ × Bytes)
delivery (sent fd msg r) = (fd, msg) ∷ []
delivery _ = []

-- The messages that were sent, with their receivers, in their order.
abbrev pub deliveries : History → List (ℤ × Bytes)
deliveries [] = []
deliveries (e ∷ h) = deliveries h ++ delivery e

-- The message once for each client of the table but the sender.
abbrev pub copies : ℤ → Bytes → List ℤ → List (ℤ × Bytes)
copies sender msg [] = []
copies sender msg (c ∷ cs) =
    if is_free c
    then copies sender msg cs
    else if same c sender
    then copies sender msg cs
    else (c, msg) ∷ copies sender msg cs

send_others-deliveries :
    (os : Os) (sender : ℤ) (msg : Bytes) (cs : List ℤ) (w : World ChatRoom)
    → (w' : World ChatRoom) × (send_others os sender msg cs w ≡ done (tt, w'))
      × (w'.state ≡ w.state)
      × (deliveries w'.history ≡ deliveries w.history ++ copies sender msg cs)
unfolding send_others
send_others-deliveries os sender msg [] w = (w, refl, refl, sym (append-nil _))
send_others-deliveries os sender msg (c ∷ cs) w = elim (Bool-cases (is_free c)) [
  | inl free ↦
      let (w', run, same_state, told) = send_others-deliveries os sender msg cs w in
      (w', rw free run, same_state, rw free told)
  | inr used ↦ elim (Bool-cases (same c sender)) [
    | inl own ↦
        let (w', run, same_state, told) = send_others-deliveries os sender msg cs w in
        (w', rw (used, own) run, same_state, rw (used, own) told)
    | inr other ↦
        let w1 : World ChatRoom = record w {
          history = sent c msg (os.send w.history c msg) ∷ w.history;
        } in
        let (w', run, same_state, told) = send_others-deliveries os sender msg cs w1 in
        (
          w',
          rw (used, other) run,
          same_state,
          rw (used, other)
              (told ∙ append_assoc (deliveries w.history) ((c, msg) ∷ []) (copies sender msg cs)),
        )
  ]
]

-- A message is sent once to each client in the table but the sender, in the order of the slots, and
-- to no one else, whatever the results of `send`; the table stays as it was.
pub broadcast_message-deliveries :
    (os : Os) (sender : ℤ) (msg : Bytes) (w : World ChatRoom)
    → (w' : World ChatRoom) × (broadcast_message os sender msg w ≡ done (tt, w'))
      × (w'.state ≡ w.state)
      × (deliveries w'.history ≡ deliveries w.history ++ copies sender msg w.state.clients)
unfolding broadcast_message
broadcast_message-deliveries os sender msg w =
    send_others-deliveries os sender msg w.state.clients w
