-- ===== src/TftpServer/Tests.antt =====
-- A read request of which the first packet is lost.
use hust_network_programming.Base.{◌≡◌, refl, arith, true, List, [], ◌∷◌, some}
use hust_network_programming.CText.{Bytes}
use hust_network_programming.Outcome.{done}
use hust_network_programming.TftpClient.{Transfer, download, last_block}
use hust_network_programming.TftpClient.Download.{acks_from}
use hust_network_programming.TftpClient.Upload.{file_blocks}
use hust_network_programming.TftpClient.Sending.{parts}
use hust_network_programming.TftpServer.{read_thread}
use hust_network_programming.TftpServer.Replies.{read_thread-download}

abbrev start : Transfer
start = record { buffer = []; expected_block = 1; written = []; acks = [] }

abbrev content : Bytes
content = b'h' ∷ b'i' ∷ []

-- The time limit runs out once, and then the acknowledgement comes.
abbrev replies : List Bytes
replies = [] ∷ (0 ∷ 4 ∷ 0 ∷ 1 ∷ []) ∷ []

read_thread-download_example :
    (packets : List Bytes) × (t' : Transfer) × (read_thread (some content) replies
      ≡ (packets, true))
    × (download packets start ≡ done (last_block, t'))
    × (t'.written ≡ content)
    × (t'.acks ≡ acks_from 1 (file_blocks content))
unfolding parts
read_thread-download_example =
    read_thread-download content replies start (omega arith) (omega arith) refl
