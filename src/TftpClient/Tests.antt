-- ===== src/TftpClient/Tests.antt =====
-- A download with a repeated packet, one that has come to block 32768, and an upload.
use hust_network_programming.Base.{◌≡◌, refl, arith, [], ◌∷◌}
use hust_network_programming.CText.{Bytes}
use hust_network_programming.Outcome.{done}
use hust_network_programming.TftpClient.{Transfer, download, last_block}
use hust_network_programming.TftpClient.Download.{
  acks_from, data_packet, last, stale, Downloads, download-Arrives,
}
use hust_network_programming.TftpClient.Upload.{file_blocks, upload-download}
use hust_network_programming.TftpClient.Sending.{Upload, upload, parts}
use hust_network_programming.TftpClient.Stall.{NeverEnds, download-NeverEnds}

abbrev start : Transfer
start = record { buffer = []; expected_block = 1; written = []; acks = [] }

abbrev block : Bytes
block = b'h' ∷ b'i' ∷ []

download-Arrives_example :
    Downloads (block ∷ []) (data_packet 0 block ∷ data_packet 1 block ∷ []) start
download-Arrives_example =
    download-Arrives 1 (block ∷ []) (data_packet 0 block ∷ data_packet 1 block ∷ []) start
      (stale 0 block (omega arith) (omega arith) (omega arith) (last block [] (omega arith))) refl
      (omega arith)

abbrev far : Transfer
far = record { buffer = []; expected_block = 32768; written = []; acks = [] }

download-NeverEnds_example : NeverEnds far (download (data_packet 32768 block ∷ []) far)
download-NeverEnds_example = download-NeverEnds (data_packet 32768 block ∷ []) far (omega arith)

abbrev begun : Upload
begun = record { buffer = []; block_number = 1; packets = [] }

upload-download_example :
    (u' : Upload) × (t' : Transfer) × (upload (acks_from 1 (file_blocks block)) block begun
      ≡ done (last_block, u'))
    × (download u'.packets start ≡ done (last_block, t'))
    × (t'.written ≡ block)
    × (t'.acks ≡ acks_from 1 (file_blocks block))
unfolding parts
upload-download_example = upload-download block begun start refl refl refl (omega arith)
