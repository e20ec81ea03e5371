-- ===== src/TftpClient/Sending.antt =====
-- Trivial File Transfer Protocol (TFTP)/tftp_client.c: the loop that uploads. The block number is a
-- short, kept as its 16 bits; what is printed is left out.
use hust_network_programming.Base.{
  ℕ, zero, suc, ◌+◌, ◌*◌, ◌%◌, ◌&&◌, List, [], ◌∷◌, ◌++◌, ◌==◌, ltb, length, take, drop,
  if◌then◌else◌,
}
use hust_network_programming.CText.{Bytes}
use hust_network_programming.Outcome.{Outcome, done, undefined}
use hust_network_programming.TftpClient.{
  data_size, op_ack, op_error, Break, receive_error, last_block, server_error, bad_opcode,
  received_into,
}
use hust_network_programming.TftpClient.Download.{data_packet}

pub record Upload : Type 0 where
  pub buffer : Bytes
  pub block_number : ℕ
  pub packets : List Bytes

pub data UploadRound : Type 0 where
  go_on : Upload → UploadRound
  stop : Break → Upload → UploadRound

-- The packet for the block that `fread` gives.
abbrev pub sent_block : Bytes → Upload → Upload
sent_block block u = record u { packets = u.packets ++ data_packet u.block_number block ∷ [] }

-- The opcode and the block number at the start of the buffer.
abbrev pub reply_round : Bytes → ℕ → Upload → Outcome UploadRound
reply_round (a ∷ b ∷ c ∷ d ∷ s) data_len u =
    if a * 256 + b == op_ack && c * 256 + d == u.block_number
    then (if ltb data_len data_size
        then done (stop last_block u)
        else done (go_on (record u { block_number = (u.block_number + 1) % 65536 })))
    else if a * 256 + b == op_error
    then done (stop server_error u)
    else done (stop bad_opcode u)
reply_round _ data_len u = undefined

unfoldable pub upload_round : Bytes → Bytes → Upload → Outcome UploadRound
upload_round datagram block u =
    reply_round (received_into u.buffer datagram) (length block)
      (record (sent_block block u) { buffer = received_into u.buffer datagram })

-- The loop over what is left of the file.
unfoldable pub upload : List Bytes → Bytes → Upload → Outcome (Break × Upload)
upload [] content u = done (receive_error, sent_block (take data_size content) u)
upload (datagram ∷ datagrams) content u = elim (upload_round datagram (take data_size content) u) [
  | undefined ↦ undefined
  | done (stop b u') ↦ done (b, u')
  | done (go_on u') ↦ upload datagrams (drop data_size content) u'
]

-- A file in blocks of 512 bytes, of which the last is shorter.
unfoldable pub parts : ℕ → Bytes → List Bytes
parts zero s = []
parts (suc fuel) s =
    let rest = parts fuel (drop data_size s) in
    take data_size s ∷ (if ltb (length s) data_size then [] else rest)
