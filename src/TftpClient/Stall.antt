-- ===== src/TftpClient/Stall.antt =====
-- The download of tftp_client.c does not get past 32767 blocks: a `short` is never 32768.
use hust_network_programming.Base.{
  ℕ, ◌+◌, ◌*◌, ◌≤◌, ◌≡◌, ◌≢◌, refl, ◌∙◌, false, List, [], ◌∷◌, arith, ℤ, Bool-cases, inl, inr, drop,
}
use hust_network_programming.CText.{Bytes}
use hust_network_programming.Outcome.{Outcome, done, undefined}
use hust_network_programming.TftpClient.{
  Transfer, Break, receive_error, last_block, server_error, bad_opcode, Round, go_on, stop, op_data,
  op_error, is, to_short, ntohs, data_round, opcode_round, received_into, received_length,
  download_round, download,
}

-- Nothing is written and the last block is not met.
abbrev pub Stays : Transfer → Outcome Round → Type 0
Stays t undefined = Unit
Stays t (done (go_on t')) = (t'.written ≡ t.written) × (t'.expected_block ≡ t.expected_block)
Stays t (done (stop b t')) = (t'.written ≡ t.written) × (b ≢ last_block)

is-to_short : (n m : ℕ) → 32768 ≤ n → is n (to_short m) ≡ false
is-to_short n m h = ground arith

server_error_ne : server_error ≢ last_block
server_error_ne e = cc e

bad_opcode_ne : bad_opcode ≢ last_block
bad_opcode_ne e = cc e

data_round-Stays :
    (nbytes : ℕ) (s : Bytes) (t u : Transfer)
    → 32768 ≤ t.expected_block
    → u.expected_block ≡ t.expected_block
    → u.written ≡ t.written
    → Stays t (elim (ntohs s) [ undefined ↦ undefined | done block ↦ data_round nbytes block u ])
data_round-Stays nbytes [] t u h e f = tt
data_round-Stays nbytes (a ∷ []) t u h e f = tt
data_round-Stays nbytes (a ∷ b ∷ s) t u h e f =
    rw (is-to_short u.expected_block (a * 256 + b) (omega arith)) (f, e)

opcode_round-Stays :
    (nbytes : ℕ) (opcode : ℤ) (t u : Transfer)
    → 32768 ≤ t.expected_block
    → u.expected_block ≡ t.expected_block
    → u.written ≡ t.written
    → Stays t (opcode_round nbytes opcode u)
opcode_round-Stays nbytes opcode t u h e f = elim (Bool-cases (is op_data opcode)) [
  | inl d ↦ rw d (data_round-Stays nbytes (drop 2 u.buffer) t u h e f)
  | inr nd ↦ elim (Bool-cases (is op_error opcode)) [
    | inl r ↦ rw (nd, r) (f, server_error_ne)
    | inr nr ↦ rw (nd, nr) (f, bad_opcode_ne)
  ]
]

first-Stays :
    (nbytes : ℕ) (s : Bytes) (t u : Transfer)
    → 32768 ≤ t.expected_block
    → u.expected_block ≡ t.expected_block
    → u.written ≡ t.written
    → Stays t
        (elim (ntohs s) [ undefined ↦ undefined | done opcode ↦ opcode_round nbytes opcode u ])
first-Stays nbytes [] t u h e f = tt
first-Stays nbytes (a ∷ []) t u h e f = tt
first-Stays nbytes (a ∷ b ∷ s) t u h e f =
    opcode_round-Stays nbytes (to_short (a * 256 + b)) t u h e f

download_round-Stays :
    (datagram : Bytes) (t : Transfer)
    → 32768 ≤ t.expected_block
    → Stays t (download_round datagram t)
unfolding download_round
download_round-Stays datagram t h =
    first-Stays (received_length datagram) (received_into t.buffer datagram) t
      (record t { buffer = received_into t.buffer datagram }) h refl refl

-- The loop wrote nothing, and was not left at a last block.
abbrev pub NeverEnds : Transfer → Outcome (Break × Transfer) → Type 0
NeverEnds t undefined = Unit
NeverEnds t (done (b, t')) = (t'.written ≡ t.written) × (b ≢ last_block)

receive_error_ne : receive_error ≢ last_block
receive_error_ne e = cc e

NeverEnds-step :
    (t t' : Transfer) (o : Outcome (Break × Transfer))
    → t'.written ≡ t.written
    → NeverEnds t' o
    → NeverEnds t o
NeverEnds-step t t' undefined e h = tt
NeverEnds-step t t' (done (b, u)) e h = (h.0 ∙ e, h.1)

-- The rest of the loop behind a round.
rest-Stays :
    (datagrams : List Bytes) (t : Transfer) (o : Outcome Round)
    → 32768 ≤ t.expected_block
    → Stays t o
    → ((u : Transfer) → 32768 ≤ u.expected_block → NeverEnds u (download datagrams u))
    → NeverEnds t (elim o [
      | undefined ↦ undefined
      | done (stop b t') ↦ done (b, t')
      | done (go_on t') ↦ download datagrams t'
    ])
rest-Stays datagrams t undefined h s rest = tt
rest-Stays datagrams t (done (stop b t')) h s rest = s
rest-Stays datagrams t (done (go_on t')) h s rest =
    NeverEnds-step t t' (download datagrams t') s.0 (rest t' (omega (arith, s.1)))

-- Once block 32768 or a later one is expected, no datagrams whatever add to the file, and none ends
-- the download as its last block.
pub download-NeverEnds :
    (datagrams : List Bytes) (t : Transfer)
    → 32768 ≤ t.expected_block
    → NeverEnds t (download datagrams t)
unfolding download
download-NeverEnds [] t h = (refl, receive_error_ne)
download-NeverEnds (datagram ∷ datagrams) t h =
    rest-Stays datagrams t (download_round datagram t) h (download_round-Stays datagram t h)
      (download-NeverEnds datagrams)
