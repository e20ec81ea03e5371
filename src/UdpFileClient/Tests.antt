-- ===== src/UdpFileClient/Tests.antt =====
-- A client that registers, one that offers a file, and the file.
use mathlib.Core.List.{flatten}
use hust_network_programming.Base.{◌≡◌, ◌≢◌, refl, arith, List, [], ◌∷◌, some, none, pos}
use hust_network_programming.CText.{Bytes, codes}
use hust_network_programming.CText.Scan.{IsWord}
use hust_network_programming.Outcome.{done}
use hust_network_programming.UdpRegistry.{Client, handle_list_request, handle_registration, text_of}
use hust_network_programming.UdpRegistry.Lookup.{find}
use hust_network_programming.UdpFileClient.{
  client_name, register_message, get_client_list, send_message, parse_send, accepts, response_text,
  parse_response, receive_file, send_file_tcp, htonl, read_blocks,
}
use hust_network_programming.UdpFileClient.Listing.{AllEntries}
use hust_network_programming.UdpFileClient.Registering.{get_client_list-handle_registration}
use hust_network_programming.UdpFileClient.Requests.{offer, parse_send-send_message}
use hust_network_programming.UdpFileClient.Contents.{receive_file-send_file_tcp}
use hust_network_programming.UdpFileClient.Directory.{
  handle_all, directory_of, put_all, directory_of-handle_all,
}

abbrev ann : Bytes
ann = b'a' ∷ []

abbrev bob : Bytes
bob = b'b' ∷ []

abbrev address : Bytes
address = b'1' ∷ b'.' ∷ b'2' ∷ []

abbrev known : List Client
known = record { name = ann; ip = address } ∷ []

ann-IsWord : IsWord ann 64
ann-IsWord = record {
  nonempty = λ e. cc e;
  no_space = (refl, tt);
  no_nul = (refl, tt);
  fits = omega arith;
}

bob-IsWord : IsWord bob 64
bob-IsWord = record {
  nonempty = λ e. cc e;
  no_space = (refl, tt);
  no_nul = (refl, tt);
  fits = omega arith;
}

file-IsWord : IsWord ann 256
file-IsWord = record {
  nonempty = λ e. cc e;
  no_space = (refl, tt);
  no_nul = (refl, tt);
  fits = omega arith;
}

address-IsWord : IsWord address 16
address-IsWord = record {
  nonempty = λ e. cc e;
  no_space = (refl, (refl, (refl, tt)));
  no_nul = (refl, (refl, (refl, tt)));
  fits = omega arith;
}

known-AllEntries : AllEntries known
known-AllEntries = (record { name_word = ann-IsWord; ip_word = address-IsWord }, tt)

get_client_list-handle_registration_example :
    (cs' : List Client) × (response : Bytes) × (handle_registration
        (register_message (client_name 42))
        address
        known
      ≡ done cs')
    × (find (client_name 42) cs' ≡ some address)
    × (handle_list_request (codes "LIST") cs' ≡ done (some response))
    × (text_of response ≡ done response)
    × (get_client_list response ≡ done cs')
get_client_list-handle_registration_example =
    get_client_list-handle_registration 42 address known (omega arith) address-IsWord
      known-AllEntries (omega arith)

ann_ne : ann ≢ bob
ann_ne = ground arith

parse_send-send_message_example :
    (message : Bytes) × (send_message ann ann bob 5001 ≡ done message)
    × (text_of message ≡ done message)
    × (accepts ann (parse_send message) ≡ done (some (offer ann ann bob 5001)))
    × (accepts bob (parse_send message) ≡ done none)
    × (parse_response address (response_text 5002) ≡ done (some (address, pos 5002)))
parse_send-send_message_example =
    parse_send-send_message ann ann bob bob address 5001 5002 file-IsWord ann-IsWord bob-IsWord
      ann_ne (omega arith) (omega arith)

sent : send_file_tcp (1 ∷ 2 ∷ 3 ∷ []) ≡ htonl 3 ∷ (1 ∷ 2 ∷ 3 ∷ []) ∷ []
unfolding send_file_tcp read_blocks
sent = refl

receive_file-send_file_tcp_example :
    receive_file (htonl 3 ∷ (1 ∷ []) ∷ (2 ∷ 3 ∷ []) ∷ []) ≡ done (1 ∷ 2 ∷ 3 ∷ [])
unfolding flatten
receive_file-send_file_tcp_example =
    receive_file-send_file_tcp (1 ∷ 2 ∷ 3 ∷ []) (htonl 3) ((1 ∷ 2 ∷ 3 ∷ []) ∷ [])
      ((1 ∷ []) ∷ (2 ∷ 3 ∷ []) ∷ []) (omega arith) sent ((λ e. cc e), ((λ e. cc e), tt)) refl

abbrev two_registrations : List (Bytes × Bytes)
two_registrations = (ann, address) ∷ (bob, address) ∷ []

directory_of-handle_all_example :
    (cs : List Client) × (handle_all two_registrations (done []) ≡ done cs)
    × (directory_of cs ≡ put_all two_registrations (λ name. none))
directory_of-handle_all_example =
    directory_of-handle_all two_registrations (ann-IsWord, (bob-IsWord, tt)) (omega arith)
