-- ===== src/HttpUpload/Thread.antt =====
-- `ClientThread` of assignment/http_upload.c: how a request is answered.
use Prim.Native.Nat.{Ordering}
use hust_network_programming.Base.{
  ℕ, suc, ◌+◌, ◌-◌, Bool, true, false, not, ◌&&◌, List, [], ◌∷◌, ◌++◌, Option, none, some, ◌==◌,
  length, take, if◌then◌else◌,
}
use mathlib.Core.List.{flatten}
use hust_network_programming.CText.{Bytes, codes, str_eq}
use hust_network_programming.CText.Decimal.{decimal}
use hust_network_programming.CText.Search.{strstr}
use hust_network_programming.Outcome.{Outcome, done, undefined, fit}
use hust_network_programming.HttpUpload.{
  Entry, append_all, create_html, last_or, verify_file, send_data,
}
use hust_network_programming.HttpUpload.Request.{
  Request, is_some, c_string, has_header, read_header, read_body, parse_request,
}
use hust_network_programming.HttpUpload.Multipart.{Part, crlf, crlf_2, parse_multipart}

-- What the thread finds: the files before the request, the names under which a file can be written,
-- what is then read under a name after some content was written to it, the folders, and what stands
-- in memory behind the first so many bytes of the request, up to a zero.
pub record Host : Type 0 where
  pub open_read : Bytes → Option Bytes
  pub writable : Bytes → Bool
  pub stored : Bytes → Bytes → Option Bytes
  pub scandir : (Entry → Entry → Ordering) → Bytes → List Entry
  pub memory : ℕ → Bytes

-- The arguments of `Send`, and the file that is written with its content.
pub record Answer : Type 0 where
  pub sent : List Bytes
  pub saved : Option (Bytes × Bytes)

abbrev pub ok_header : Bytes → ℕ → Bytes
ok_header kind n =
    codes "HTTP/1.1 200 OK"
    ++ (crlf
        ++ (codes "Content-Length: "
            ++ (decimal n ++ (crlf ++ (codes "Content-Type: " ++ (kind ++ crlf_2))))))

-- A header in its array of 1024 bytes, and what is sent behind it.
abbrev pub sent_with : Outcome Bytes → Bytes → Option (Bytes × Bytes) → Outcome Answer
sent_with undefined content saved = undefined
sent_with (done header) content saved =
    done (record { sent = header ∷ content ∷ []; saved = saved })

abbrev pub answer : Bytes → Bytes → Option (Bytes × Bytes) → Outcome Answer
answer kind content saved = sent_with (fit 1024 (ok_header kind (length content))) content saved

abbrev pub short_answer : Bytes → Outcome Answer
short_answer text = done (record { sent = text ∷ []; saved = none })

abbrev pub not_found : Bytes
not_found = codes "HTTP/1.1 404 NOT FOUND" ++ crlf_2

abbrev pub bad_request : Bytes
bad_request =
    codes "HTTP/1.1 400 Bad Request" ++ (crlf_2 ++ codes "<html>Invalid multipart data</html>")

abbrev pub server_error : Bytes
server_error =
    codes "HTTP/1.1 500 Internal Server Error"
    ++ (crlf_2
        ++ codes
            "<html><body><h2>Failed to save file</h2><p>Check path and permissions</p></body></html>")

abbrev pub as_text : Option Bytes → Bytes
as_text none = []
as_text (some s) = s

-- The page that says whether the file was saved; the two signs are written in UTF-8.
unfoldable pub upload_page : Bytes → Part → Bool → Bytes
upload_page path part verified = as_text (
    append_all none (
      codes "<html><head><meta charset='utf-8'></head><body>"
      ∷ ((if verified
            then codes "<h2>File uploaded successfully!</h2>"
              ∷ codes "<p>Filename: "
              ∷ part.filename
              ∷ codes "</p>"
              ∷ codes "<p>Size: "
              ∷ (decimal (length part.file_data) ++ codes " bytes")
              ∷ codes "</p>"
              ∷ (codes "<p>" ++ (226 ∷ 156 ∷ 147 ∷ codes " File integrity verified</p>"))
              ∷ []
            else codes "<h2>Upload failed!</h2>"
              ∷ (codes "<p>" ++ (226 ∷ 156 ∷ 151 ∷ codes " File integrity check failed</p>"))
              ∷ [])
          ++ (codes "<p><a href='"
              ∷ path
              ∷ codes "'>Back to folder</a></p>"
              ∷ codes "</body></html>"
              ∷ []))))

-- `snprintf` into an array of 2048 bytes.
unfoldable pub full_path : Bytes → Bytes → Bytes
full_path path filename =
    take 2047
      (if str_eq path (codes "/") then codes "./" ++ filename else path ++ (b'/' ∷ filename))

abbrev pub save_part : Host → Bytes → Outcome (Option Part) → Outcome Answer
save_part host path undefined = undefined
save_part host path (done none) = short_answer bad_request
save_part host path (done (some part)) =
    let name = full_path path part.filename in
    let verified = verify_file (host.stored name part.file_data) part.file_data in
    if host.writable name
    then answer (codes "text/html") (upload_page path part verified) (some (name, part.file_data))
    else short_answer server_error

-- A POST with a boundary.
unfoldable pub upload : Host → Request → Bytes → Outcome Answer
upload host req body =
    save_part host req.path (parse_multipart (c_string host.memory body) req.boundary)

abbrev pub file_header : ℕ → Bytes
file_header n =
    codes "HTTP/1.1 200 OK"
    ++ (crlf
        ++ (codes "Content-Length: "
            ++ (decimal n
                ++ (crlf
                    ++ (codes "Content-Type: application/octet-stream"
                        ++ (crlf ++ (codes "Content-Disposition: attachment" ++ crlf_2)))))))

abbrev pub icon : Option Bytes → Outcome Answer
icon none = short_answer not_found
icon (some content) = answer (codes "image/x-icon") content none

abbrev pub whole_file : Option Bytes → Outcome Answer
whole_file none = short_answer not_found
whole_file (some content) = sent_with (fit 1024 (file_header (length content))) content none

abbrev pub folder : Outcome (Option Bytes) → Outcome Answer
folder undefined = undefined
folder (done html) = answer (codes "text/html") (as_text html) none

-- A GET: the icon, a file whose name has a `?` behind it, or a folder.
unfoldable pub serve : Host → Bytes → Outcome Answer
serve host path =
    if is_some (strstr path (codes "favicon.ico"))
    then icon (host.open_read (codes "favicon.ico"))
    else if last_or 0 path == b'?'
    then whole_file (host.open_read (take (length path - 1) path))
    else folder (create_html host.scandir path none)

abbrev no_answer : Outcome Answer
no_answer = done (record { sent = []; saved = none })

abbrev is_empty : Bytes → Bool
is_empty [] = true
is_empty (c ∷ s) = false

-- What the method asks for.
unfoldable pub respond : Host → Request → Bytes → Outcome Answer
respond host req body =
    if str_eq req.method (codes "POST") && not (is_empty req.boundary)
    then upload host req body
    else if str_eq req.method (codes "GET")
    then serve host req.path
    else no_answer

abbrev pub handle_request :
    Host → ℕ → Bytes → List Bytes → Outcome (Option Request) → Outcome Answer
handle_request host header_end body pieces undefined = undefined
handle_request host header_end body pieces (done none) = no_answer
handle_request host header_end body pieces (done (some req)) =
    respond host req (read_body req header_end body pieces)

-- What follows the loop that reads the header, where `strstr` finds its end or not.
abbrev pub after_header : Host → Bytes → List Bytes → Option Bytes → Outcome Answer
after_header host body pieces none = no_answer
after_header host body pieces (some found) =
    let text = c_string host.memory body in
    handle_request host (length text - length found + 4) body pieces (parse_request text)

unfoldable pub client_thread : Host → List Bytes → Outcome Answer
client_thread host pieces =
    let (body, left) = read_header host.memory (suc (length (flatten pieces))) [] pieces in
    if has_header host.memory body
    then after_header host body left (strstr (c_string host.memory body) crlf_2)
    else no_answer

-- What the calls of `Send` put on the connection, for the results of `send` in each of them.
unfoldable pub transmit : List (List ℕ) → List Bytes → Bytes
transmit results [] = []
transmit [] (text ∷ texts) = []
transmit (r ∷ results) (text ∷ texts) = send_data r text ++ transmit results texts

abbrev pub transmitted : List (List ℕ) → Outcome Answer → Outcome Bytes
transmitted results undefined = undefined
transmitted results (done a) = done (transmit results a.sent)

-- The bytes that a client receives.
unfoldable pub received_bytes : Host → List (List ℕ) → List Bytes → Outcome Bytes
received_bytes host results pieces = transmitted results (client_thread host pieces)
