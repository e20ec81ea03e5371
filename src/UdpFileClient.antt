-- ===== src/UdpFileClient.antt =====
-- assignment/udp_file_client.c: the messages that the client sends and reads, and a file on a TCP
-- connection. What is printed is left out but for the list of clients.
pub mod Listing
pub mod Registering
pub mod Requests
pub mod Contents
pub mod Directory
mod Tests
use hust_network_programming.Base.{
  ℕ, zero, suc, ◌+◌, ◌*◌, ◌/◌, ◌%◌, ◌^◌, Bool, true, false, List, [], ◌∷◌, ◌++◌, Option, none, some,
  ◌==◌, ltb, length, take, drop, if◌then◌else◌, ℤ, pos, negsuc,
}
use hust_network_programming.CText.{Bytes, codes, str_eq, strchr, scan_word}
use hust_network_programming.CText.Decimal.{decimal, int_text, scan_int}
use hust_network_programming.CText.Scan.{word}
use hust_network_programming.Outcome.{Outcome, done, undefined, fit, ◌>>?◌}
use hust_network_programming.UdpRegistry.{Client}

abbrev pub buffer_size : ℕ
buffer_size = 1024

-- The name for a random number below 10000, and the message that registers it.
unfoldable pub client_name : ℕ → Bytes
client_name random_num = codes "uname_" ++ decimal random_num

unfoldable pub register_message : Bytes → Bytes
register_message name = codes "REG " ++ name

-- `ptr = strchr(ptr, ' '); if (ptr) ptr++;`
abbrev pub behind : Option Bytes → Option Bytes
behind none = none
behind (some []) = none
behind (some (c ∷ s)) = some s

-- That twice; the second time a null pointer is undefined.
abbrev pub behind_next : Option Bytes → Outcome (Option Bytes)
behind_next none = undefined
behind_next (some s) = done (behind (strchr b' ' s))

abbrev pub behind_two : Bytes → Outcome (Option Bytes)
behind_two s = behind_next (behind (strchr b' ' s))

-- `sscanf(ptr, "%s %s", name, ip)`
unfoldable pub scan_client : Bytes → Outcome (Option (Client × Bytes))
scan_client s = word 64 s >>? λ (name, s1).
    word 16 s1 >>? λ (ip, s2). done (some (record { name = name; ip = ip }, s2))

abbrev pub with_client : Client → Outcome (List Client) → Outcome (List Client)
with_client c undefined = undefined
with_client c (done cs) = done (c ∷ cs)

-- One round, where `rest` is the rounds that follow.
abbrev pub client_round :
    (Outcome (Option Bytes) → Outcome (List Client))
    → Bytes
    → Outcome (Option (Client × Bytes))
    → Outcome (List Client)
client_round rest s undefined = undefined
client_round rest s (done none) = rest (done (some s))
client_round rest s (done (some (c, _))) = with_client c (rest (behind_two s))

-- The loop that prints `count` clients, from a pointer that may be null.
unfoldable pub show_clients : ℕ → Outcome (Option Bytes) → Outcome (List Client)
show_clients zero undefined = undefined
show_clients zero (done ptr) = done []
show_clients (suc n) undefined = undefined
show_clients (suc n) (done none) = undefined
show_clients (suc n) (done (some s)) = client_round (show_clients n) s (scan_client s)

abbrev pub non_negative : ℤ → ℕ
non_negative (pos n) = n
non_negative (negsuc n) = 0

-- `sscanf(ptr, "LIST %d", &count)`
unfoldable pub scan_count : Bytes → Outcome (Option (ℤ × Bytes))
scan_count text = if str_eq (take 4 text) (codes "LIST") then scan_int (drop 4 text) else done none

abbrev pub counted : Bytes → Outcome (Option (ℤ × Bytes)) → Outcome (List Client)
counted text undefined = undefined
counted text (done none) = done []
counted text (done (some (count, _))) = show_clients (non_negative count) (behind_two text)

-- What is shown of the text that was received.
unfoldable pub get_client_list : Bytes → Outcome (List Client)
get_client_list text = counted text (scan_count text)

pub record SendRequest : Type 0 where
  pub filename : Bytes
  pub target_name : Bytes
  pub sender_name : Bytes
  pub sender_port : ℤ

-- The message that offers a file, in an array of 512 bytes.
unfoldable pub send_message : Bytes → Bytes → Bytes → ℕ → Outcome Bytes
send_message filename target_name my_name my_listen_port = fit 512 (
    codes "SEND "
    ++ (filename
        ++ (b' ' ∷ (target_name ++ (b' ' ∷ (my_name ++ (b' ' ∷ decimal my_listen_port)))))))

-- `sscanf(buffer + 5, "%s %s %s %d", …)`, of which all four parts are read.
unfoldable pub scan_request : Bytes → Outcome (Option SendRequest)
scan_request s = word 256 s >>? λ (f, s1). word 64 s1 >>? λ (t, s2). word 64 s2 >>? λ (name, s3).
    scan_int s3 >>? λ (p, _).
    done (some (record { filename = f; target_name = t; sender_name = name; sender_port = p }))

-- The offer that a text holds.
unfoldable pub parse_send : Bytes → Outcome (Option SendRequest)
parse_send text =
    if str_eq (take 5 text) (codes "SEND ") then scan_request (drop 5 text) else done none

-- The client takes an offer that names it.
unfoldable pub accepts : Bytes → Outcome (Option SendRequest) → Outcome (Option SendRequest)
accepts my_name offer =
    offer >>? λ r. if str_eq r.target_name my_name then done (some r) else done none

-- The answer with the port that the client listens on.
unfoldable pub response_text : ℕ → Bytes
response_text my_port = codes "0.0.0.0" ++ (b' ' ∷ decimal my_port)

-- The address and the port of an answer; the address 0.0.0.0 is that of the datagram.
unfoldable pub parse_response : Bytes → Bytes → Outcome (Option (Bytes × ℤ))
parse_response from_ip text = word 16 text >>? λ (ip, s1). scan_int s1 >>? λ (port, _).
    done (some ((if str_eq ip (codes "0.0.0.0") then from_ip else ip), port))

-- The four bytes of `htonl`.
abbrev pub htonl : ℕ → Bytes
htonl n = (n / 2 ^ 24 % 256) ∷ (n / 2 ^ 16 % 256) ∷ (n / 256 % 256) ∷ (n % 256) ∷ []

-- The results of `fread` in turn; a round reads a byte at least.
unfoldable pub read_blocks : ℕ → Bytes → List Bytes
read_blocks zero s = []
read_blocks (suc fuel) [] = []
read_blocks (suc fuel) (c ∷ s) =
    take buffer_size (c ∷ s) ∷ read_blocks fuel (drop buffer_size (c ∷ s))

-- What `send_file_tcp` hands to `send`, whose results it does not use.
unfoldable pub send_file_tcp : Bytes → List Bytes
send_file_tcp content = htonl (length content % 2 ^ 32) ∷ read_blocks (length content) content

-- The loop that receives, for the results of `recv` in turn: what is written.
unfoldable pub receive_blocks : ℕ → ℕ → List Bytes → Bytes
receive_blocks file_size received [] = []
receive_blocks file_size received ([] ∷ chunks) = []
receive_blocks file_size received ((c ∷ s) ∷ chunks) =
    let rest = receive_blocks file_size ((received + length (c ∷ s)) % 2 ^ 32) chunks in
    if ltb received file_size then (c ∷ s) ++ rest else []

-- The size comes first; fewer than four bytes of it are undefined.
unfoldable pub receive_file : List Bytes → Outcome Bytes
receive_file ((a ∷ b ∷ c ∷ d ∷ []) ∷ chunks) =
    done (receive_blocks (a * 2 ^ 24 + b * 2 ^ 16 + c * 256 + d) 0 chunks)
receive_file _ = undefined
