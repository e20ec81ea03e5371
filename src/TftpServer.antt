-- ===== src/TftpServer.antt =====
-- np/np18.c: the TFTP server, its thread for a read request and the request that `main` takes. A time
-- limit that runs out is a reply of no bytes: the buffer is zeroed before each `recvfrom`.
pub mod Replies
mod Tests
use hust_network_programming.Base.{
  ℕ, zero, suc, ◌+◌, ◌*◌, ◌/◌, ◌%◌, Bool, true, false, List, [], ◌∷◌, ◌++◌, Option, none, some,
  ◌==◌, ltb, leb, length, take, drop, replicate, ◌-◌, ◌&&◌, if◌then◌else◌,
}
use hust_network_programming.CText.{Bytes, codes, before}
use hust_network_programming.Outcome.{Outcome, done, undefined, fit}

abbrev pub rrq : ℕ
rrq = 1

abbrev pub data_opcode : ℕ
data_opcode = 3

abbrev pub ack : ℕ
ack = 4

abbrev pub err : ℕ
err = 5

-- `(b[0] << 8) | b[1]` as an unsigned short: a byte is a signed char, so one from 128 on sets all
-- bits above it.
abbrev pub opcode_of : ℕ → ℕ → ℕ
opcode_of a b = if ltb b 128 then a * 256 + b else 65280 + b

-- The opcode of a datagram in a zeroed buffer.
abbrev pub opcode : Bytes → ℕ
opcode [] = 0
opcode (a ∷ []) = opcode_of a 0
opcode (a ∷ b ∷ s) = opcode_of a b

abbrev pub packet : ℕ → Bytes → Bytes
packet block content = 0 ∷ data_opcode ∷ (block / 256 % 256) ∷ (block % 256) ∷ content

-- The inner loop: the packet is sent, and sent again, until a reply is an acknowledgement. The
-- packets that were sent, and the replies that are left, or `none` while the loop still waits.
unfoldable pub send_until_ack : Bytes → List Bytes → List Bytes × Option (List Bytes)
send_until_ack p [] = (p ∷ [], none)
send_until_ack p (reply ∷ replies) =
    let (sent, rest) = send_until_ack p replies in
    if opcode reply == ack then (p ∷ [], some replies) else (p ∷ sent, rest)

-- What follows the loop, where its last `fread` gave `r` bytes.
abbrev pub after_loop : ℕ → ℕ → List Bytes
after_loop r block = if r == 512 then packet block [] ∷ [] else []

-- What follows the wait of a round: the end after a short `fread`, which sets the end of the file, or
-- the rounds for the rest of the file.
abbrev pub after_round :
    ℕ
    → Bytes
    → (List Bytes → List Bytes × Bool)
    → List Bytes × Option (List Bytes)
    → List Bytes × Bool
after_round block content rounds (sent, none) = (sent, false)
after_round block content rounds (sent, some replies) =
    if ltb (length content) 512
    then (sent ++ after_loop (length (take 512 content)) ((block + 1) % 65536), true)
    else (sent ++ (rounds replies).0, (rounds replies).1)

-- The loop until the end of the file. A round reads 512 bytes or is the last, so the length of the
-- file and one more is enough fuel. The packets that are sent, and whether the thread ends.
unfoldable pub send_file : ℕ → ℕ → Bytes → List Bytes → List Bytes × Bool
send_file zero block content replies = ([], false)
send_file (suc fuel) block content replies =
    after_round block content (send_file fuel ((block + 1) % 65536) (drop 512 content))
      (send_until_ack (packet block (take 512 content)) replies)

abbrev pub error_packet : Bytes
error_packet = 0 ∷ err ∷ 0 ∷ 0 ∷ (codes "Failed to open" ++ 0 ∷ [])

-- The file name of the request, in a zeroed buffer of 1024 bytes.
unfoldable pub file_name : Bytes → Outcome Bytes
file_name request =
    let name = before (λ c. c == 0) (drop 2 request) in
    if ltb (2 + length name) 1024 then done name else undefined

-- The thread, for what `fopen` finds under the name.
unfoldable pub read_thread : Option Bytes → List Bytes → List Bytes × Bool
read_thread none replies = (error_packet ∷ [], true)
read_thread (some content) replies = send_file (suc (length content)) 1 content replies

-- Whether `main` starts a thread for the request.
unfoldable pub starts_thread : Bytes → Bool
starts_thread request = leb 1 (length request) && opcode request == rrq
