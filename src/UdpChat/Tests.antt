-- ===== src/UdpChat/Tests.antt =====
-- The relay between two addresses.
use mathlib.Core.List.{Memᴰ}
use hust_network_programming.Base.{◌⊎◌, ◌↔◌, ◌<◌, ap, length, [], ◌∷◌}
use hust_network_programming.UdpChat.{Address, handle_datagram}
use hust_network_programming.UdpChat.Table.{
  Absent, IsValid, after, after-IsValid, handle_datagram_lem,
}

abbrev ann : Address
ann = record { addr = 1; port = 2 }

abbrev bob : Address
bob = record { addr = 1; port = 3 }

after-IsValid_example : IsValid (after (ann ∷ bob ∷ ann ∷ []))
after-IsValid_example = after-IsValid (ann ∷ bob ∷ ann ∷ [])

handle_datagram_lem_example :
    Absent ann (handle_datagram ann (bob ∷ [])).1
    × (Memᴰ bob (handle_datagram ann (bob ∷ [])).1 ↔ Memᴰ bob (handle_datagram ann (bob ∷ [])).0)
    × (Memᴰ bob (handle_datagram ann (bob ∷ [])).0 ↔ Memᴰ bob (bob ∷ []))
    × (Memᴰ ann (bob ∷ []) ⊎ (length (bob ∷ []) < 128)
        → Memᴰ ann (handle_datagram ann (bob ∷ [])).0)
handle_datagram_lem_example = handle_datagram_lem ann bob (bob ∷ []) (λ e. cc (ap (λ a. a.port) e))
