-- ===== src/TftpClient.antt =====
-- Trivial File Transfer Protocol (TFTP)/tftp_client.c: the requests, the download and the upload.
-- A `short` holds the values from -2^15 to 2^15 - 1. The file is given by its bytes, and what
-- `recvfrom` gives is the list of the datagrams up to its first failure. What is printed is left out.
pub mod Download
pub mod Stall
pub mod Sending
pub mod Upload
mod Tests
use hust_network_programming.Base.{
  ℕ, zero, suc, ◌+◌, ◌-◌, ◌*◌, ◌/◌, ◌%◌, Bool, true, false, List, [], ◌∷◌, ◌++◌, ◌==◌, leb, ltb,
  length, take, drop, if◌then◌else◌, ℤ, pos, negsuc,
}
use hust_network_programming.CText.{Bytes}
use hust_network_programming.Outcome.{Outcome, done, undefined}

abbrev pub packet_size : ℕ
packet_size = 516

abbrev pub data_size : ℕ
data_size = 512

abbrev pub op_rrq : ℕ
op_rrq = 1

abbrev pub op_wrq : ℕ
op_wrq = 2

abbrev pub op_data : ℕ
op_data = 3

abbrev pub op_ack : ℕ
op_ack = 4

abbrev pub op_error : ℕ
op_error = 5

-- `htons`, as the two bytes that are stored.
abbrev pub htons : ℕ → Bytes
htons n = (n / 256 % 256) ∷ (n % 256) ∷ []

-- The 16 bits as a `short`.
abbrev pub to_short : ℕ → ℤ
to_short n = if ltb n 32768 then pos n else negsuc (65535 - n)

-- `ntohs(*(short*)p)`; fewer than two bytes are past the end of the buffer.
abbrev pub ntohs : Bytes → Outcome ℤ
ntohs (a ∷ b ∷ s) = done (to_short (a * 256 + b))
ntohs _ = undefined

-- The packet that `send_rrq` and `send_wrq` build.
unfoldable pub request : ℕ → Bytes → Bytes → Outcome Bytes
request opcode filename mode =
    if leb (4 + length filename + length mode) packet_size
    then done (htons opcode ++ (filename ++ (0 ∷ (mode ++ 0 ∷ []))))
    else undefined

-- The buffer once a datagram is received; what stands behind the datagram stays.
unfoldable pub received_into : Bytes → Bytes → Bytes
received_into buffer datagram =
    take packet_size datagram ++ drop (length (take packet_size datagram)) buffer

-- The length that `recvfrom` returns: a datagram is cut to the buffer.
unfoldable pub received_length : Bytes → ℕ
received_length datagram = length (take packet_size datagram)

-- `x == n` on an integer.
abbrev pub is : ℕ → ℤ → Bool
is n (pos m) = m == n
is n (negsuc m) = false

abbrev pub ack_packet : ℕ → Bytes
ack_packet block = htons op_ack ++ htons block

pub record Transfer : Type 0 where
  pub buffer : Bytes
  pub expected_block : ℕ
  pub written : Bytes
  pub acks : List Bytes

-- Where the loop is left.
pub data Break : Type 0 where
  receive_error : Break
  last_block : Break
  server_error : Break
  bad_opcode : Break

pub data Round : Type 0 where
  go_on : Transfer → Round
  stop : Break → Transfer → Round

-- The block that was expected: it is written and acknowledged, and a short one is the last.
abbrev pub accept_block : ℕ → Transfer → Round
accept_block data_len t =
    let t1 : Transfer = record t {
      written = t.written ++ take data_len (drop 4 t.buffer);
      acks = t.acks ++ ack_packet t.expected_block ∷ [];
    } in
    if ltb data_len data_size
    then stop last_block t1
    else go_on (record t1 { expected_block = t.expected_block + 1 })

-- A block of fewer than 0 bytes would be written with a huge size.
abbrev pub data_round : ℕ → ℤ → Transfer → Outcome Round
data_round nbytes block t =
    if is t.expected_block block
    then (if leb 4 nbytes then done (accept_block (nbytes - 4) t) else undefined)
    else done (go_on t)

abbrev pub opcode_round : ℕ → ℤ → Transfer → Outcome Round
opcode_round nbytes opcode t =
    if is op_data opcode
    then elim (ntohs (drop 2 t.buffer)) [
      | undefined ↦ undefined
      | done block ↦ data_round nbytes block t
    ]
    else if is op_error opcode
    then done (stop server_error t)
    else done (stop bad_opcode t)

-- The body of the loop for a datagram.
unfoldable pub download_round : Bytes → Transfer → Outcome Round
download_round datagram t =
    let t1 : Transfer = record t { buffer = received_into t.buffer datagram } in
    elim (ntohs t1.buffer) [
      | undefined ↦ undefined
      | done opcode ↦ opcode_round (received_length datagram) opcode t1
    ]

unfoldable pub download : List Bytes → Transfer → Outcome (Break × Transfer)
download [] t = done (receive_error, t)
download (datagram ∷ datagrams) t = elim (download_round datagram t) [
  | undefined ↦ undefined
  | done (stop b t') ↦ done (b, t')
  | done (go_on t') ↦ download datagrams t'
]
