-- ===== src/TftpClient/Upload.antt =====
-- What an upload of tftp_client.c sends, and that its download reads it.
use mathlib.Core.List.{flatten}
use hust_network_programming.Base.{
  ℕ, zero, suc, ◌+◌, ◌*◌, ◌/◌, ◌%◌, ◌≤◌, ◌<◌, ◌≡◌, refl, sym, ap, ◌∙◌, true, false, List, [], ◌∷◌,
  ◌++◌, append_assoc, append-nil, take-append-drop, length-append, length-drop, arith, ◌==◌, ltb,
  length, take, drop, if◌then◌else◌, Bool-cases, ◌⊎◌, inl, inr,
}
use hust_network_programming.CText.{Bytes}
use hust_network_programming.Outcome.{done, undefined}
use hust_network_programming.TftpClient.{
  data_size, Break, last_block, received_into, ack_packet, Transfer, download,
}
use hust_network_programming.TftpClient.Download.{
  take_all, data_packet, Arrives, last, next, acks_from, download-Arrives,
}
use hust_network_programming.TftpClient.Sending.{
  stop, go_on, Upload, sent_block, upload_round, upload, parts,
}

upload_round_acked :
    (block : Bytes) (u : Upload)
    → u.block_number < 65536
    → (buffer' : Bytes) × (upload_round (ack_packet u.block_number) block u
        ≡ done (
            if ltb (length block) data_size
            then stop last_block (record (sent_block block u) { buffer = buffer' })
            else go_on (record (sent_block block u) {
              buffer = buffer';
              block_number = (u.block_number + 1) % 65536;
            })))
unfolding upload_round received_into
upload_round_acked block u small =
    let joined : u.block_number / 256 % 256 * 256 + u.block_number % 256 ≡ u.block_number =
      omega arith in
    let same : (u.block_number / 256 % 256 * 256 + u.block_number % 256 == u.block_number) ≡ true =
      ground arith in
    (ack_packet u.block_number ++ drop 4 u.buffer, rw same (ground arith))

upload_stop :
    (datagram content : Bytes) (datagrams : List Bytes) (b : Break) (u u' : Upload)
    → upload_round datagram (take data_size content) u ≡ done (stop b u')
    → upload (datagram ∷ datagrams) content u ≡ done (b, u')
unfolding upload
upload_stop datagram content datagrams b u u' e =
    ap
      (λ o. elim o [
        | undefined ↦ undefined
        | done (stop b t) ↦ done (b, t)
        | done (go_on t) ↦ upload datagrams (drop data_size content) t
      ])
      e

upload_go_on :
    (datagram content : Bytes) (datagrams : List Bytes) (u u' : Upload)
    → upload_round datagram (take data_size content) u ≡ done (go_on u')
    → upload (datagram ∷ datagrams) content u ≡ upload datagrams (drop data_size content) u'
unfolding upload
upload_go_on datagram content datagrams u u' e =
    ap
      (λ o. elim o [
        | undefined ↦ undefined
        | done (stop b t) ↦ done (b, t)
        | done (go_on t) ↦ upload datagrams (drop data_size content) t
      ])
      e

-- The blocks make up the file.
pub flatten-parts : (fuel : ℕ) (s : Bytes) → length s < fuel → flatten (parts fuel s) ≡ s
unfolding parts flatten
flatten-parts zero s h = absurd (omega arith)
flatten-parts (suc fuel) s h = elim (Bool-cases (ltb (length s) data_size)) [
  | inl short ↦ rw short (append-nil _ ∙ take_all data_size s (ground arith))
  | inr long ↦ rw long (
      ap (λ t. take data_size s ++ t)
        (flatten-parts fuel (drop data_size s) (ground (arith, length-drop data_size s)))
      ∙ take-append-drop data_size s)
]

-- What an upload of a file in its blocks brings about, if each is acknowledged.
abbrev pub Uploads : ℕ → List Bytes → Bytes → Upload → Type 0
Uploads n blocks content u =
    (u' : Upload) × (packets : List Bytes) × (upload (acks_from n blocks) content u
      ≡ done (last_block, u'))
    × (u'.packets ≡ u.packets ++ packets)
    × Arrives n blocks packets

pub length-take_full : (s : Bytes) → data_size ≤ length s → length (take data_size s) ≡ data_size
length-take_full s h =
    let joined : length (take data_size s ++ drop data_size s) ≡ length s =
      ap length (take-append-drop data_size s) in
    omega
      (arith, joined, length-append (take data_size s) (drop data_size s), length-drop data_size s)

pub parts-short :
    (fuel : ℕ) (s : Bytes) → length s < data_size → parts (suc fuel) s ≡ take data_size s ∷ []
unfolding parts
parts-short fuel s h = let t : ltb (length s) data_size ≡ true = ground arith in rw t refl

pub parts_long :
    (fuel : ℕ) (s : Bytes)
    → data_size ≤ length s
    → parts (suc fuel) s ≡ take data_size s ∷ parts fuel (drop data_size s)
unfolding parts
parts_long fuel s h = let t : ltb (length s) data_size ≡ false = ground arith in rw t refl

pub short_or_long : (n m : ℕ) → (n < m) ⊎ (m ≤ n)
short_or_long n m = omega arith

upload_round_last :
    (block : Bytes) (u : Upload)
    → u.block_number < 65536
    → length block < data_size
    → (u' : Upload) × (upload_round (ack_packet u.block_number) block u ≡ done (stop last_block u'))
      × (u'.packets ≡ u.packets ++ data_packet u.block_number block ∷ [])
upload_round_last block u small h =
    let (b, acked) = upload_round_acked block u small in
    let t : ltb (length block) data_size ≡ true = ground arith in
    (record (sent_block block u) { buffer = b }, rw t at acked, refl)

upload_round_full :
    (block : Bytes) (u : Upload)
    → u.block_number < 65536
    → length block ≡ data_size
    → (u' : Upload) × (upload_round (ack_packet u.block_number) block u ≡ done (go_on u'))
      × (u'.packets ≡ u.packets ++ data_packet u.block_number block ∷ [])
      × (u'.block_number ≡ (u.block_number + 1) % 65536)
upload_round_full block u small h =
    let (b, acked) = upload_round_acked block u small in
    let t : ltb (length block) data_size ≡ false = ground arith in
    (
      record (sent_block block u) { buffer = b; block_number = (u.block_number + 1) % 65536 },
      rw t at acked,
      refl,
      refl,
    )

last-Uploads :
    (n : ℕ) (content : Bytes) (u : Upload)
    → u.block_number ≡ n
    → n < 65536
    → length content < data_size
    → Uploads n (take data_size content ∷ []) content u
last-Uploads n content u e small short =
    let fits : length (take data_size content) < data_size =
      omega (arith, ap length (take_all data_size content (omega arith))) in
    let (u', run, sent) = upload_round_last (take data_size content) u (omega arith) fits in
    (
      u',
      data_packet n (take data_size content) ∷ [],
      ap (λ m. upload (ack_packet m ∷ []) content u) (sym e)
          ∙ upload_stop (ack_packet u.block_number) content [] last_block u u' run,
      sent ∙ ap (λ m. u.packets ++ data_packet m (take data_size content) ∷ []) e,
      last (take data_size content) [] fits,
    )

next-Uploads :
    (n : ℕ) (blocks : List Bytes) (content : Bytes) (u : Upload)
    → u.block_number ≡ n
    → n + 1 < 65536
    → data_size ≤ length content
    → ((v : Upload) → v.block_number ≡ n + 1 → Uploads (n + 1) blocks (drop data_size content) v)
    → Uploads n (take data_size content ∷ blocks) content u
next-Uploads n blocks content u e small long rest =
    let full = length-take_full content long in
    let (u1, run, sent, number) = upload_round_full (take data_size content) u (omega arith) full in
    let (u', packets, runs, sents, arrives) = rest u1 (omega (arith, number, e)) in
    (
      u',
      data_packet n (take data_size content) ∷ packets,
      ap (λ m. upload (ack_packet m ∷ acks_from (n + 1) blocks) content u) (sym e)
          ∙ upload_go_on (ack_packet u.block_number) content (acks_from (n + 1) blocks) u u1 run
          ∙ runs,
      sents
          ∙ ap (λ t. t ++ packets)
              (sent ∙ ap (λ m. u.packets ++ data_packet m (take data_size content) ∷ []) e)
          ∙ append_assoc u.packets (data_packet n (take data_size content) ∷ []) packets,
      next (take data_size content) full arrives,
    )

pub parts-nonempty : (fuel : ℕ) (s : Bytes) → length s < fuel → 0 < length (parts fuel s)
unfolding parts
parts-nonempty zero s h = absurd (omega arith)
parts-nonempty (suc fuel) s h = omega arith

parts-Uploads :
    (fuel n : ℕ) (content : Bytes) (u : Upload)
    → length content < fuel
    → u.block_number ≡ n
    → n + length (parts fuel content) ≤ 65536
    → Uploads n (parts fuel content) content u
parts-Uploads zero n content u h e bound = absurd (omega arith)
parts-Uploads (suc fuel) n content u h e bound = elim (short_or_long (length content) data_size) [
  | inl short ↦
      rw (parts-short fuel content short)
        (last-Uploads n content u e (omega (arith, parts-nonempty (suc fuel) content h)) short)
  | inr long ↦
      let smaller : length (drop data_size content) < fuel =
        omega (arith, length-drop data_size content) in
      let count : length (parts (suc fuel) content)
          ≡ suc (length (parts fuel (drop data_size content))) =
        ap length (parts_long fuel content long) in
      let some_left = parts-nonempty fuel (drop data_size content) smaller in
      rw (parts_long fuel content long) (
        next-Uploads n (parts fuel (drop data_size content)) content u e (omega arith) long
          (λ v number.
            parts-Uploads fuel (n + 1) (drop data_size content) v smaller number (omega arith)))
]

-- The blocks of a file.
abbrev pub file_blocks : Bytes → List Bytes
file_blocks content = parts (suc (length content)) content

-- What the client uploads, it downloads: the upload of a file of at most 32767 blocks to a server
-- that acknowledges each ends with its last block, and a download of the packets that it sent ends
-- with its last block too, adds the bytes of the file and acknowledges each block once.
pub upload-download :
    (content : Bytes) (u : Upload) (t : Transfer)
    → u.block_number ≡ 1
    → u.packets ≡ []
    → t.expected_block ≡ 1
    → length (file_blocks content) ≤ 32767
    → (u' : Upload) × (t' : Transfer) × (upload (acks_from 1 (file_blocks content)) content u
        ≡ done (last_block, u'))
      × (download u'.packets t ≡ done (last_block, t'))
      × (t'.written ≡ t.written ++ content)
      × (t'.acks ≡ t.acks ++ acks_from 1 (file_blocks content))
upload-download content u t first empty expected bound =
    let (u', packets, run, sent, arrives) =
      parts-Uploads (suc (length content)) 1 content u (omega arith) first (omega arith) in
    let (t', runs, bytes, acked) =
      download-Arrives 1 (file_blocks content) packets t arrives expected (omega arith) in
    (
      u',
      t',
      run,
      ap (λ l. download l t) (sent ∙ ap (λ l. l ++ packets) empty) ∙ runs,
      bytes ∙ ap (λ l. t.written ++ l) (flatten-parts (suc (length content)) content (omega arith)),
      acked ∙ ap (λ n. t.acks ++ acks_from n (file_blocks content)) expected,
    )
