-- ===== src/HttpServer/Receiving.antt =====
-- What np20.c makes of a form with a file.
use hust_network_programming.Base.{◌≡◌, List, [], ◌∷◌, ◌++◌, none, some}
use hust_network_programming.CText.{Bytes, codes, None, Avoids}
use hust_network_programming.CText.Scan.{IsWord, is_nul}
use hust_network_programming.CText.Search.{strstr}
use hust_network_programming.Outcome.{Outcome, done}
use hust_network_programming.HttpUpload.Multipart.{crlf_2, boundary_start, boundary_end}
use hust_network_programming.HttpUpload.Thread.{Answer}
use hust_network_programming.HttpUpload.Heading.{IsPath}

-- The header of the part.
abbrev pub part_fields : Bytes → Bytes → Bytes
part_fields filename kind =
    codes "Content-Disposition: form-data; name=\"file\"; filename=\""
    ++ (filename ++ (b'"' ∷ b'\r' ∷ b'\n' ∷ (codes "Content-Type: " ++ (kind ++ crlf_2))))

abbrev pub part_head : Bytes → Bytes → Bytes → Bytes
part_head boundary filename kind = boundary_start boundary ++ part_fields filename kind

-- What stands behind the header of the part.
abbrev pub form_data : Bytes → Bytes → Bytes → Bytes
form_data boundary content tail = content ++ (boundary_end boundary ++ tail)

-- A form for np20.c whose name is read as it is meant.
pub record IsUpload (path boundary filename kind : Bytes) : Type 0 where
  pub is_path : IsPath path
  pub no_return : Avoids b'\r' boundary
  pub one_line : Avoids b'\r' filename
  pub kind_line : Avoids b'\r' kind
  pub boundary_nul : None is_nul boundary
  pub part_nul : None is_nul (part_head boundary filename kind)
  pub no_name : strstr boundary (codes "filename=") ≡ none
  pub name_word : IsWord (filename ++ b'"' ∷ []) 1024

abbrev pub saved_answer : Bytes → Bytes → Outcome Answer
saved_answer full content =
    done (record { sent = (codes "HTTP/1.1 200 OK" ++ crlf_2) ∷ []; saved = some (full, content) })
