-- ===== src/HttpServer/Thread.antt =====
-- `ClientThread` of np/np20.c. The loop that reads a header, the first line, the answer for the icon and the
-- rows of a folder are the same code as in http_upload.c.
use Prim.Native.Nat.{Ordering}
use mathlib.Core.List.{flatten}
use hust_network_programming.Base.{
  ℕ, zero, suc, ◌+◌, ◌*◌, Bool, true, false, List, [], ◌∷◌, ◌++◌, Option, none, some, ◌==◌, ltb,
  length, take, drop, if◌then◌else◌, ℤ, pos, negsuc,
}
use hust_network_programming.CText.{Bytes, codes, str_eq}
use hust_network_programming.CText.Decimal.{scan_int}
use hust_network_programming.CText.Scan.{word}
use hust_network_programming.CText.Search.{strstr}
use hust_network_programming.Outcome.{Outcome, done, undefined, fit, ◌>>?◌}
use hust_network_programming.SelectFtp.{drop_last}
use hust_network_programming.HttpUpload.{Entry, append_all, compare_entries, last_or, rows}
use hust_network_programming.HttpUpload.Multipart.{crlf_2, fitted}
use hust_network_programming.HttpUpload.Thread.{
  Host, Answer, icon, ok_header, short_answer, answer, as_text,
}
use hust_network_programming.HttpUpload.Request.{
  recv, c_string, has_header, read_header, method_path, number_or_zero,
}
use hust_network_programming.HttpServer.{decode_path}

-- The number behind `Content-Length: `, and 0 without one.
abbrev pub length_of_header : Option Bytes → Outcome (Option ℤ)
length_of_header none = done (some (pos 0))
length_of_header (some header) = number_or_zero (scan_int (drop 16 header))

unfoldable pub read_length : Bytes → Outcome (Option ℤ)
read_length text = length_of_header (strstr text (codes "Content-Length: "))

pub record Head : Type 0 where
  pub method : Bytes
  pub path : Bytes
  pub length : ℤ

-- The request; the loop that decodes the path has a round for each byte of it, and one more.
unfoldable pub parse_head : Bytes → Outcome (Option Head)
parse_head text = read_length text >>? λ n. method_path text >>? λ (method, path).
    done (decode_path (suc (length path)) path) >>? λ decoded.
    done (some (record { method = method; path = decoded; length = n }))

abbrev html_end : Outcome (Option Bytes) → Outcome (Option Bytes)
html_end undefined = undefined
html_end (done output) = done (append_all output (codes "</html>" ∷ []))

-- `CreateHTML`
unfoldable pub create_page :
    ((Entry → Entry → Ordering) → Bytes → List Entry) → Bytes → Outcome (Option Bytes)
create_page scandir path = html_end (
    rows path (scandir compare_entries path) (
      append_all none (
        codes "<html>"
        ∷ codes "<form method=\"post\" enctype=\"multipart/form-data\">"
        ∷ codes "<label>File to upload: </label>"
        ∷ codes "<input type=\"file\" id=\"file1\" name=\"file1\"/> <br>"
        ∷ codes "<input type=\"submit\" value=\"Upload\"><br>"
        ∷ codes "</form>"
        ∷ [])))

abbrev page_answer : Outcome (Option Bytes) → Outcome Answer
page_answer undefined = undefined
page_answer (done html) = answer (codes "text/html") (as_text html) none

abbrev contains : Bytes → Bytes → Bool
contains text part = elim (strstr text part) [ none ↦ false | some found ↦ true ]

unfoldable pub mime_type : Bytes → Bytes
mime_type path =
    if contains path (codes ".c")
    then codes "text/plain"
    else if contains path (codes ".jpg")
    then codes "image/jpeg"
    else if contains path (codes ".png")
    then codes "image/png"
    else if contains path (codes ".pdf")
    then codes "application/pdf"
    else if contains path (codes ".mp4")
    then codes "video/mp4"
    else codes "application/octet-stream"

abbrev pub block_size : ℕ
block_size = 1024 * 1024

-- The blocks that are read and sent; a round takes a byte at least.
unfoldable pub file_blocks : ℕ → Bytes → List Bytes
file_blocks zero s = []
file_blocks (suc fuel) [] = []
file_blocks (suc fuel) (c ∷ s) =
    take block_size (c ∷ s) ∷ file_blocks fuel (drop block_size (c ∷ s))

abbrev pub sent_blocks : Outcome Bytes → Bytes → Outcome Answer
sent_blocks undefined content = undefined
sent_blocks (done header) content =
    done (record { sent = header ∷ file_blocks (length content) content; saved = none })

-- The answer with a file. Without it 404 is sent, and then `fclose` gets a null pointer.
abbrev pub file_download : Bytes → Option Bytes → Outcome Answer
file_download mime none = undefined
file_download mime (some content) = sent_blocks (fit 1024 (ok_header mime (length content))) content

abbrev pub page_or_file : Host → Bytes → Outcome Answer
page_or_file host [] = undefined
page_or_file host (c ∷ path) =
    let name = drop_last (c ∷ path) in
    if last_or c path == b'?'
    then file_download (mime_type name) (host.open_read name)
    else page_answer (create_page host.scandir (c ∷ path))

unfoldable pub serve_get : Host → Bytes → Outcome Answer
serve_get host path =
    if contains path (codes "favicon.ico")
    then icon (host.open_read (codes "favicon.ico"))
    else page_or_file host path

abbrev pub named_word : Outcome (Option (Bytes × Bytes)) → Outcome (Option Bytes)
named_word undefined = undefined
named_word (done none) = undefined
named_word (done (some (name, _))) = done (some (drop_last name))

-- The name behind `filename=` and a quote, without its last byte.
unfoldable pub upload_name : Bytes → Outcome (Option Bytes)
upload_name found = named_word (word 1024 (drop 10 found))

abbrev pub upload_path : Bytes → Bytes → Outcome Bytes
upload_path [] name = undefined
upload_path (c ∷ path) name =
    fit 2048 ((c ∷ path) ++ (if last_or c path == b'/' then name else b'/' ∷ name))

abbrev pub write_round : (ℕ → List Bytes → Bytes) → ℕ → Bytes × List Bytes → Bytes
write_round rounds content_read ([], left) = []
write_round rounds content_read (c ∷ got, left) =
    (c ∷ got) ++ rounds (content_read + length (c ∷ got)) left

-- The loop that receives and writes until `content_length` bytes are read. A round reads a byte or is
-- the last, so that many rounds are enough.
unfoldable pub receive_data : ℕ → ℕ → ℕ → List Bytes → Bytes
receive_data zero content_length content_read pieces = []
receive_data (suc fuel) content_length content_read pieces =
    let data_ = write_round (receive_data fuel content_length) content_read (recv 1024 pieces) in
    if ltb content_read content_length then data_ else []

abbrev pub at_least_zero : ℤ → ℕ
at_least_zero (pos n) = n
at_least_zero (negsuc n) = 0

abbrev pub bad_part : Outcome Answer
bad_part = short_answer (codes "HTTP/1.1 400 BAD REQUEST" ++ crlf_2)

-- What follows the name: the file is opened, written and closed.
abbrev pub save_data : Host → Head → ℕ → List Bytes → Outcome (Option Bytes) → Outcome Answer
save_data host head content_read pieces undefined = undefined
save_data host head content_read pieces (done none) = bad_part
save_data host head content_read pieces (done (some path)) =
    let n = at_least_zero head.length in
    if host.writable path
    then done (record {
      sent = (codes "HTTP/1.1 200 OK" ++ crlf_2) ∷ [];
      saved = some (path, receive_data n n content_read pieces);
    })
    else short_answer (codes "HTTP/1.1 500 INTERNAL SERVER ERROR" ++ crlf_2)

abbrev pub name_and_path : Bytes → Option Bytes → Outcome (Option Bytes)
name_and_path path none = done none
name_and_path path (some found) = upload_name found >>? λ name. fitted (upload_path path name)

-- A POST, for the part's header that was read and what is left to receive.
abbrev pub after_part : Host → Head → Bytes × List Bytes → Outcome Answer
after_part host head ([], left) = undefined
after_part host head (c ∷ part, left) =
    let text = c_string host.memory (c ∷ part) in
    let named = name_and_path head.path (strstr text (codes "filename=")) in
    if has_header host.memory (c ∷ part)
    then save_data host head (length (c ∷ part)) left named
    else bad_part

unfoldable pub receive_upload : Host → Head → List Bytes → Outcome Answer
receive_upload host head pieces =
    after_part host head (read_header host.memory (suc (length (flatten pieces))) [] pieces)

abbrev pub nothing_sent : Outcome Answer
nothing_sent = done (record { sent = []; saved = none })

abbrev pub by_method : Host → Head → List Bytes → Outcome Answer
by_method host head pieces =
    if str_eq head.method (codes "GET")
    then serve_get host head.path
    else if str_eq head.method (codes "POST")
    then receive_upload host head pieces
    else nothing_sent

abbrev pub with_head : Host → List Bytes → Outcome (Option Head) → Outcome Answer
with_head host pieces undefined = undefined
with_head host pieces (done none) = nothing_sent
with_head host pieces (done (some head)) = by_method host head pieces

abbrev pub after_request : Host → Bytes × List Bytes → Outcome Answer
after_request host (body, left) =
    let answered = with_head host left (parse_head (c_string host.memory body)) in
    if has_header host.memory body then answered else nothing_sent

unfoldable pub client_thread : Host → List Bytes → Outcome Answer
client_thread host pieces =
    after_request host (read_header host.memory (suc (length (flatten pieces))) [] pieces)
