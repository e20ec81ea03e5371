-- ===== src/TftpServer/Replies.antt =====
-- What a client receives from np18.c, however often packets are sent again.
use hust_network_programming.Base.{
  ℕ, zero, suc, ◌+◌, ◌%◌, ◌≤◌, ◌<◌, ◌≡◌, refl, ap, ◌∙◌, inl, inr, Bool, true, List, [], ◌∷◌, ◌++◌,
  some, Bool-cases, arith, ◌==◌, ltb, le→ltb, length, take, drop, length-drop, replicate,
  if◌then◌else◌,
}
use hust_network_programming.CText.{Bytes}
use hust_network_programming.Outcome.{done}
use hust_network_programming.TftpClient.{Transfer, last_block, download, data_size}
use hust_network_programming.TftpClient.Download.{
  Arrives, last, next, stale, download-Arrives, acks_from, take_all,
}
use hust_network_programming.TftpClient.Upload.{
  parts-short, parts_long, file_blocks, flatten-parts, length-take_full, short_or_long,
  parts-nonempty,
}
use hust_network_programming.TftpClient.Sending.{parts}
use hust_network_programming.TftpServer.{
  opcode, ack, packet, send_until_ack, send_file, after_loop, after_round, read_thread,
}

-- The acknowledgements among the replies.
abbrev pub count_acks : List Bytes → ℕ
count_acks [] = 0
count_acks (reply ∷ replies) =
    if opcode reply == ack then suc (count_acks replies) else count_acks replies

-- One acknowledgement ends the wait, and the packet was sent a number of times.
send_until_ack_lem :
    (p : Bytes) (replies : List Bytes)
    → 0 < count_acks replies
    → (k : ℕ) × (rest : List Bytes) × (send_until_ack p replies ≡ (p ∷ replicate k p, some rest))
      × (suc (count_acks rest) ≡ count_acks replies)
unfolding send_until_ack
send_until_ack_lem p [] h = absurd (omega arith)
send_until_ack_lem p (reply ∷ replies) h = elim (Bool-cases (opcode reply == ack)) [
  | inl yes_ack ↦ (0, replies, rw yes_ack refl, rw yes_ack refl)
  | inr other ↦
      let (k, rest, e, count) = send_until_ack_lem p replies (rw other at h) in
      (suc k, rest, rw (other, e) refl, rw other count)
]

-- Copies of a packet that was taken are passed over.
Arrives-copies :
    (k n : ℕ) (content : Bytes) {blocks datagrams : List Bytes}
    → length content ≤ data_size
    → n < 65536
    → Arrives (n + 1) blocks datagrams
    → Arrives (n + 1) blocks (replicate k (packet n content) ++ datagrams)
Arrives-copies zero n content fits small r = r
Arrives-copies (suc k) n content fits small r =
    stale n content fits small (omega arith) (Arrives-copies k n content fits small r)

-- What a thread with enough acknowledgements sends.
abbrev pub Sends : ℕ → List Bytes → List Bytes × Bool → Type 0
Sends n blocks result =
    (packets : List Bytes) × (result ≡ (packets, true)) × Arrives n blocks packets

last-Sends :
    (fuel n : ℕ) (content : Bytes) (replies : List Bytes)
    → length content < data_size
    → 0 < count_acks replies
    → Sends n (take data_size content ∷ []) (send_file (suc fuel) n content replies)
unfolding send_file
last-Sends fuel n content replies short acked =
    let p = packet n (take 512 content) in
    let (k, rest, e, count) = send_until_ack_lem p replies acked in
    let whole = take_all data_size content (omega arith) in
    let fits : length (take data_size content) < data_size = omega (arith, ap length whole) in
    let s : ltb (length content) 512 ≡ true = ground arith in
    let rounds = send_file fuel ((n + 1) % 65536) (drop 512 content) in
    let tail = after_loop (length (take 512 content)) ((n + 1) % 65536) in
    (
      (p ∷ replicate k p) ++ tail,
      ap (after_round n content rounds) e ∙ rw s refl,
      last (take data_size content) (replicate k p ++ tail) fits,
    )

next-Sends :
    (fuel n : ℕ) (content : Bytes) (blocks : List Bytes) (replies : List Bytes)
    → data_size ≤ length content
    → n + 1 < 65536
    → 0 < count_acks replies
    → ((rest : List Bytes)
        → suc (count_acks rest) ≡ count_acks replies
        → Sends (n + 1) blocks (send_file fuel (n + 1) (drop data_size content) rest))
    → Sends n (take data_size content ∷ blocks) (send_file (suc fuel) n content replies)
unfolding send_file
next-Sends fuel n content blocks replies long small acked later =
    let p = packet n (take 512 content) in
    let full = length-take_full content long in
    let (k, rest, e, count) = send_until_ack_lem p replies acked in
    let (packets, run, arrives) = later rest count in
    let s = le→ltb (length content) 512 long in
    let wrap : (n + 1) % 65536 ≡ n + 1 = omega arith in
    let rounds = send_file fuel ((n + 1) % 65536) (drop 512 content) in
    (
      (p ∷ replicate k p) ++ packets,
      ap (after_round n content rounds) e
          ∙ rw s (
              ap
                (λ m. (
                  (p ∷ replicate k p) ++ (send_file fuel m (drop 512 content) rest).0,
                  (send_file fuel m (drop 512 content) rest).1,
                ))
                wrap
              ∙ ap (λ (r : List Bytes × Bool). ((p ∷ replicate k p) ++ r.0, r.1)) run),
      next (take data_size content) full
          (Arrives-copies k n (take data_size content) (omega arith) (omega arith) arrives),
    )

send_file-Sends :
    (fuel n : ℕ) (content : Bytes) (replies : List Bytes)
    → length content < fuel
    → n + length (parts fuel content) ≤ 65536
    → length (parts fuel content) ≤ count_acks replies
    → Sends n (parts fuel content) (send_file fuel n content replies)
send_file-Sends zero n content replies h bound acked = absurd (omega arith)
send_file-Sends (suc fuel) n content replies h bound acked =
    elim (short_or_long (length content) data_size) [
      | inl short ↦ rw (parts-short fuel content short) (
          last-Sends fuel n content replies short
            (omega (arith, parts-nonempty (suc fuel) content h)))
      | inr long ↦
          let smaller : length (drop data_size content) < fuel =
            omega (arith, length-drop data_size content) in
          let count : length (parts (suc fuel) content)
              ≡ suc (length (parts fuel (drop data_size content))) =
            ap length (parts_long fuel content long) in
          let some_left = parts-nonempty fuel (drop data_size content) smaller in
          rw (parts_long fuel content long) (
            next-Sends fuel n content (parts fuel (drop data_size content)) replies long
              (omega arith) (omega arith)
              (λ rest one.
                send_file-Sends fuel (n + 1) (drop data_size content) rest smaller (omega arith)
                  (omega (arith, one))))
    ]

-- The thread ends, and sends the file, as soon as there are as many acknowledgements among the
-- replies as the file has blocks, whatever time limits and other datagrams come between them; the
-- packets it sent, repeated ones among them, let the client of tftp_client.c download the file: the
-- client ends with the last block, writes the bytes of the file and acknowledges each block once.
-- The file has at most 32767 blocks.
pub read_thread-download :
    (content : Bytes) (replies : List Bytes) (t : Transfer)
    → length (file_blocks content) ≤ 32767
    → length (file_blocks content) ≤ count_acks replies
    → t.expected_block ≡ 1
    → (packets : List Bytes) × (t' : Transfer) × (read_thread (some content) replies
        ≡ (packets, true))
      × (download packets t ≡ done (last_block, t'))
      × (t'.written ≡ t.written ++ content)
      × (t'.acks ≡ t.acks ++ acks_from 1 (file_blocks content))
unfolding read_thread
read_thread-download content replies t bound acked expected =
    let (packets, run, arrives) =
      send_file-Sends (suc (length content)) 1 content replies (omega arith) (omega arith) acked in
    let (t', runs, bytes, acks) =
      download-Arrives 1 (file_blocks content) packets t arrives expected (omega arith) in
    (
      packets,
      t',
      run,
      runs,
      bytes ∙ ap (λ l. t.written ++ l) (flatten-parts (suc (length content)) content (omega arith)),
      acks ∙ ap (λ n. t.acks ++ acks_from n (file_blocks content)) expected,
    )
