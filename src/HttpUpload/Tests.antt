-- ===== src/HttpUpload/Tests.antt =====
-- A file that is uploaded, and one that is asked for.
use hust_network_programming.Base.{ℕ, List, true, [], ◌∷◌, ◌++◌, some, length}
use hust_network_programming.CText.{Bytes, codes}
use hust_network_programming.CText.Decimal.{decimal}
use hust_network_programming.HttpUpload.Thread.{Host}
use hust_network_programming.HttpUpload.Upload.{form}
use hust_network_programming.HttpUpload.Fields.{any_head}

abbrev host : Host
host = record {
  open_read = λ name. some (b'x' ∷ []);
  writable = λ name. true;
  stored = λ name content. some content;
  scandir = λ order path. [];
  memory = λ n. [];
}

abbrev folder_path : Bytes
folder_path = b'/' ∷ b'a' ∷ []

abbrev boundary : Bytes
boundary = b'B' ∷ []

abbrev name : Bytes
name = b'f' ∷ []

abbrev content : Bytes
content = b'\r' ∷ b'\n' ∷ b'-' ∷ []

abbrev tail : Bytes
tail = b'-' ∷ b'-' ∷ []

abbrev body : Bytes
body = form boundary name (codes "a/b") content tail

abbrev after_type : Bytes
after_type = codes "\r\nHost: x\r\n\r\n"

abbrev length_and_type : Bytes
length_and_type = decimal (length body) ++ codes "\r\nContent-Type: multipart/form-data; boundary=B"

abbrev upload_fields : Bytes
upload_fields = codes "HTTP/1.1\r\nContent-Length: " ++ (length_and_type ++ after_type)

abbrev head : Bytes
head = any_head folder_path upload_fields

abbrev file_path : Bytes
file_path = b'f' ∷ b'?' ∷ []

abbrev fields : Bytes
fields = codes "HTTP/1.1\r\nHost: x\r\n\r\n"

-- The header in two parts, and the file.
abbrev results : List (List ℕ)
results = (1 ∷ 500 ∷ []) ∷ (1 ∷ []) ∷ []
