-- ===== src/UdpFileClient/Contents.antt =====
-- A file that one client sends and another receives.
use mathlib.Core.List.{flatten}
use hust_network_programming.Base.{
  ℕ, zero, suc, ◌+◌, ◌*◌, ◌/◌, ◌%◌, ◌^◌, ◌≤◌, ◌<◌, ◌≡◌, refl, ap, ◌∙◌, List, [], ◌∷◌, ◌++◌, arith,
  length, length-append, length-drop, take-append-drop, lt→ltb, take, drop,
}
use hust_network_programming.CText.{Bytes, Nonempty}
use hust_network_programming.Outcome.{done}
use hust_network_programming.UdpFileClient.{
  buffer_size, htonl, read_blocks, send_file_tcp, receive_blocks, receive_file,
}

flatten-read_blocks : (fuel : ℕ) (s : Bytes) → length s ≤ fuel → flatten (read_blocks fuel s) ≡ s
unfolding read_blocks flatten
flatten-read_blocks zero [] h = refl
flatten-read_blocks zero (c ∷ s) h = absurd (omega arith)
flatten-read_blocks (suc fuel) [] h = refl
flatten-read_blocks (suc fuel) (c ∷ s) h =
    ap (λ t. take buffer_size (c ∷ s) ++ t)
      (flatten-read_blocks fuel (drop buffer_size (c ∷ s))
        (omega (arith, length-drop buffer_size (c ∷ s))))
    ∙ take-append-drop buffer_size (c ∷ s)

receive_blocks_lem :
    (size received : ℕ) (chunks : List Bytes)
    → Nonempty chunks
    → size < 2 ^ 32
    → received + length (flatten chunks) ≡ size
    → receive_blocks size received chunks ≡ flatten chunks
unfolding receive_blocks flatten
receive_blocks_lem size received [] ne small h = refl
receive_blocks_lem size received ([] ∷ chunks) ne small h = absurd (ne.0 refl)
receive_blocks_lem size received ((c ∷ s) ∷ chunks) ne small h =
    let total = length-append (c ∷ s) (flatten chunks) in
    let more = lt→ltb received size (omega (arith, total)) in
    let wrap : (received + length (c ∷ s)) % 2 ^ 32 ≡ received + length (c ∷ s) =
      omega (arith, total) in
    rw more (
      rw wrap (
        ap (λ t. (c ∷ s) ++ t)
          (receive_blocks_lem size (received + length (c ∷ s)) chunks ne.1 small
            (omega (arith, total)))))

-- A file of fewer than 2^32 bytes arrives whole: the receiver that reads the size in one piece, and
-- what follows in any nonempty pieces, writes the bytes that the sender read.
pub receive_file-send_file_tcp :
    (content : Bytes) (size : Bytes) (blocks chunks : List Bytes)
    → length content < 2 ^ 32
    → send_file_tcp content ≡ size ∷ blocks
    → Nonempty chunks
    → flatten chunks ≡ flatten blocks
    → receive_file (size ∷ chunks) ≡ done content
unfolding send_file_tcp receive_file
receive_file-send_file_tcp content size blocks chunks small sent ne same =
    let head : size ≡ htonl (length content % 2 ^ 32) = cc sent in
    let rest : blocks ≡ read_blocks (length content) content = cc sent in
    let whole : flatten chunks ≡ content =
      same ∙ ap flatten rest ∙ flatten-read_blocks (length content) content (omega arith) in
    let joined : length content % 2 ^ 32 / 2 ^ 24 % 256 * 2 ^ 24
          + length content % 2 ^ 32 / 2 ^ 16 % 256 * 2 ^ 16
          + length content % 2 ^ 32 / 256 % 256 * 256
          + length content % 2 ^ 32 % 256
        ≡ length content =
      omega arith in
    ap (λ s. receive_file (s ∷ chunks)) head
    ∙ ap (λ n. done (receive_blocks n 0 chunks)) joined
    ∙ ap done (
        receive_blocks_lem (length content) 0 chunks ne small (omega (arith, ap length whole))
        ∙ whole)
