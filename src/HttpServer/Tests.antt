-- ===== src/HttpServer/Tests.antt =====
-- A path with two codes, and a file that is uploaded.
use hust_network_programming.Base.{◌≡◌, true, [], ◌∷◌, ◌++◌, none, some, arith, length}
use hust_network_programming.CText.{Bytes, codes}
use hust_network_programming.HttpUpload.{decode_url}
use hust_network_programming.HttpUpload.Thread.{Host}
use hust_network_programming.HttpUpload.Heading.{post_head}
use hust_network_programming.HttpServer.{decode_path}
use hust_network_programming.HttpServer.Decoding.{decode_path-decode_url}
use hust_network_programming.HttpServer.Receiving.{part_head, form_data}

abbrev coded : Bytes
coded = b'%' ∷ b'2' ∷ b'0' ∷ b'a' ∷ b'%' ∷ b'2' ∷ b'0' ∷ []

decode_path-decode_url_example : decode_path 8 coded ≡ some (decode_url coded)
decode_path-decode_url_example = decode_path-decode_url coded 8 (omega arith)

abbrev host : Host
host = record {
  open_read = λ name. none;
  writable = λ name. true;
  stored = λ name content. some content;
  scandir = λ order path. [];
  memory = λ n. [];
}

abbrev folder_path : Bytes
folder_path = b'/' ∷ []

abbrev boundary : Bytes
boundary = b'B' ∷ []

abbrev name : Bytes
name = b'f' ∷ []

abbrev content : Bytes
content = b'x' ∷ []

abbrev tail : Bytes
tail = b'-' ∷ b'-' ∷ []

abbrev part : Bytes
part = part_head boundary name (codes "a/b")

abbrev body : Bytes
body = part ++ form_data boundary content tail

abbrev head : Bytes
head = post_head folder_path (length body) boundary
