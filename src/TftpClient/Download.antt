-- ===== src/TftpClient/Download.antt =====
-- What the download of tftp_client.c writes, whatever datagrams are repeated.
use mathlib.Core.List.{flatten}
use hust_network_programming.Base.{
  ℕ, zero, suc, ◌+◌, ◌*◌, ◌/◌, ◌%◌, ◌≤◌, ◌<◌, ◌≡◌, ◌≢◌, refl, sym, ap, ◌∙◌, List, [], ◌∷◌, ◌++◌,
  append_assoc, append-nil, arith, ltb, length, take, drop, if◌then◌else◌,
}
use mathlib.Core.Path.{ap₂}
use hust_network_programming.CText.{Bytes}
use hust_network_programming.Outcome.{done, undefined}
use hust_network_programming.TftpClient.{
  packet_size, data_size, op_data, htons, ntohs, to_short, Transfer, Break, last_block, go_on, stop,
  data_round, opcode_round, download_round, download, received_into, received_length, ack_packet,
}

-- A DATA packet of a server.
abbrev pub data_packet : ℕ → Bytes → Bytes
data_packet block content = htons op_data ++ (htons block ++ content)

pub take_all : (n : ℕ) (s : Bytes) → length s ≤ n → take n s ≡ s
take_all zero [] h = refl
take_all zero (c ∷ s) h = absurd (omega arith)
take_all (suc n) [] h = refl
take_all (suc n) (c ∷ s) h = ap (λ t. c ∷ t) (take_all n s (omega arith))

take-append : (s rest : Bytes) → take (length s) (s ++ rest) ≡ s
take-append [] rest = refl
take-append (c ∷ s) rest = ap (λ t. c ∷ t) (take-append s rest)

received_into-data_packet :
    (buffer : Bytes) (block : ℕ) (content : Bytes)
    → length content ≤ data_size
    → received_into buffer (data_packet block content)
      ≡ data_packet block content ++ drop (length (data_packet block content)) buffer
unfolding received_into
received_into-data_packet buffer block content fits =
    ap (λ u. u ++ drop (length u) buffer)
      (take_all packet_size (data_packet block content) (omega arith))

received_length-data_packet :
    (block : ℕ) (content : Bytes)
    → length content ≤ data_size
    → received_length (data_packet block content) ≡ length (data_packet block content)
unfolding received_length
received_length-data_packet block content fits =
    ap length (take_all packet_size (data_packet block content) (omega arith))

abbrev with_packet : ℕ → Bytes → Transfer → Transfer
with_packet block content t = record t {
  buffer = data_packet block content ++ drop (length (data_packet block content)) t.buffer;
}

-- A DATA packet goes to the test of its block.
download_round-data_packet :
    (block : ℕ) (content : Bytes) (t : Transfer)
    → length content ≤ data_size
    → block < 65536
    → download_round (data_packet block content) t
      ≡ data_round
          (length (data_packet block content))
          (to_short block)
          (with_packet block content t)
unfolding download_round
download_round-data_packet block content t fits small =
    let joined : block / 256 % 256 * 256 + block % 256 ≡ block = omega arith in
    ap₂
      (λ b n. elim (ntohs b) [
        | undefined ↦ undefined
        | done opcode ↦ opcode_round n opcode (record t { buffer = b })
      ])
      (received_into-data_packet t.buffer block content fits)
      (received_length-data_packet block content fits)
    ∙ ap
        (λ n.
          data_round (length (data_packet block content)) (to_short n)
            (with_packet block content t))
        joined

-- A packet with another number changes the buffer only.
download_round_stale :
    (block : ℕ) (content : Bytes) (t : Transfer)
    → length content ≤ data_size
    → block < 65536
    → block ≢ t.expected_block
    → t.expected_block < 32768
    → download_round (data_packet block content) t ≡ done (go_on (with_packet block content t))
download_round_stale block content t fits small ne low =
    download_round-data_packet block content t fits small ∙ ground arith

-- The transfer behind the block that was expected.
abbrev behind_block : Bytes → Transfer → Transfer
behind_block content t = record (with_packet t.expected_block content t) {
  written = t.written ++ content;
  acks = t.acks ++ ack_packet t.expected_block ∷ [];
}

download_round_expected :
    (content : Bytes) (t : Transfer)
    → length content ≤ data_size
    → t.expected_block < 32768
    → download_round (data_packet t.expected_block content) t
      ≡ done (
          if ltb (length content) data_size
          then stop last_block (behind_block content t)
          else go_on (record (behind_block content t) { expected_block = t.expected_block + 1 }))
download_round_expected content t fits low =
    download_round-data_packet t.expected_block content t fits (omega arith)
    ∙ ground
        (arith, take-append content (drop (length (data_packet t.expected_block content)) t.buffer))

-- Datagrams that bring the blocks, numbered from `n`: before each block, any DATA packets with other
-- numbers; all blocks but the last are full, and the last is not.
pub data Arrives : ℕ → List Bytes → List Bytes → Type 0 where
  last :
      {n : ℕ} (block : Bytes) (more : List Bytes)
      → length block < data_size
      → Arrives n (block ∷ []) (data_packet n block ∷ more)
  next :
      {n : ℕ} {blocks datagrams : List Bytes} (block : Bytes)
      → length block ≡ data_size
      → Arrives (n + 1) blocks datagrams
      → Arrives n (block ∷ blocks) (data_packet n block ∷ datagrams)
  stale :
      {n : ℕ} {blocks datagrams : List Bytes} (k : ℕ) (block : Bytes)
      → length block ≤ data_size
      → k < 65536
      → k ≢ n
      → Arrives n blocks datagrams
      → Arrives n blocks (data_packet k block ∷ datagrams)

Arrives-nonempty :
    (n : ℕ) (blocks datagrams : List Bytes) → Arrives n blocks datagrams → 0 < length blocks
Arrives-nonempty n _ _ (last block more short) = omega arith
Arrives-nonempty n _ _ (next block full r) = omega arith
Arrives-nonempty n _ _ (stale k block fits small ne r) = Arrives-nonempty n _ _ r

-- The acknowledgements of as many blocks, numbered from `n`.
abbrev pub acks_from : ℕ → List Bytes → List Bytes
acks_from n [] = []
acks_from n (block ∷ blocks) = ack_packet n ∷ acks_from (n + 1) blocks

-- What a download brings about.
abbrev pub Downloads : List Bytes → List Bytes → Transfer → Type 0
Downloads blocks datagrams t =
    (t' : Transfer) × (download datagrams t ≡ done (last_block, t'))
    × (t'.written ≡ t.written ++ flatten blocks)
    × (t'.acks ≡ t.acks ++ acks_from t.expected_block blocks)

download_stop :
    (datagram : Bytes) (datagrams : List Bytes) (b : Break) (t t' : Transfer)
    → download_round datagram t ≡ done (stop b t')
    → download (datagram ∷ datagrams) t ≡ done (b, t')
unfolding download download_round received_into
download_stop datagram datagrams b t t' e = rw e refl

download_go_on :
    (datagram : Bytes) (datagrams : List Bytes) (t t' : Transfer)
    → download_round datagram t ≡ done (go_on t')
    → download (datagram ∷ datagrams) t ≡ download datagrams t'
unfolding download download_round received_into
download_go_on datagram datagrams t t' e = rw e refl

-- Where the server's blocks arrive in their order, mixed with any repeated or stray DATA packets,
-- the download ends with the last block; the file has grown by the bytes of all blocks, and each
-- block was acknowledged once. At most 32767 blocks are numbered in all.
pub download-Arrives :
    (n : ℕ) (blocks datagrams : List Bytes) (t : Transfer)
    → Arrives n blocks datagrams
    → t.expected_block ≡ n
    → n + length blocks ≤ 32768
    → Downloads blocks datagrams t
unfolding flatten
download-Arrives n _ _ t (last block more short) e bound = step
  where
    step : Downloads (block ∷ []) (data_packet n block ∷ more) t
    step =
        let low : t.expected_block < 32768 = omega arith in
        (
          behind_block block t,
          ap (λ m. download (data_packet m block ∷ more) t) (sym e)
              ∙ download_stop (data_packet t.expected_block block) more last_block t
                  (behind_block block t)
                  (download_round_expected block t (omega arith) low ∙ ground arith),
          ap (λ s. t.written ++ s) (sym (append-nil block)),
          refl,
        )
download-Arrives n _ _ t (next {blocks = blocks} {datagrams = datagrams} block full r) e bound =
    let t1 : Transfer = record (behind_block block t) { expected_block = t.expected_block + 1 } in
    let (t', run, bytes, acked) =
      download-Arrives (n + 1) blocks datagrams t1 r (omega arith) (omega arith) in
    (
      t',
      ap (λ m. download (data_packet m block ∷ datagrams) t) (sym e)
          ∙ download_go_on (data_packet t.expected_block block) datagrams t t1
              (download_round_expected block t (omega arith) (omega arith) ∙ ground arith)
          ∙ run,
      bytes ∙ append_assoc t.written block (flatten blocks),
      acked
          ∙ append_assoc t.acks (ack_packet t.expected_block ∷ [])
              (acks_from (t.expected_block + 1) blocks),
    )
download-Arrives n blocks _ t (stale {datagrams = datagrams} k block fits small ne r) e bound =
    let t1 = with_packet k block t in
    let (t', run, bytes, acked) = download-Arrives n blocks datagrams t1 r e bound in
    (
      t',
      download_go_on (data_packet k block) datagrams t t1 (
            download_round_stale k block t fits small (omega (arith, ne, e))
              (omega (arith, Arrives-nonempty n blocks datagrams r)))
          ∙ run,
      bytes,
      acked,
    )
