-- ===== src/HttpUpload/Multipart.antt =====
-- `ParseMultipart` of assignment/http_upload.c.
use hust_network_programming.Base.{[], ◌∷◌, ◌++◌, Option, some, ◌>>=◌, length, drop}
use hust_network_programming.CText.{Bytes, codes, strchr}
use hust_network_programming.CText.Search.{strstr, in_front}
use hust_network_programming.Outcome.{Outcome, done, undefined, fit, ◌>>?◌}

pub record Part : Type 0 where
  pub filename : Bytes
  pub file_data : Bytes

abbrev pub crlf : Bytes
crlf = b'\r' ∷ b'\n' ∷ []

abbrev pub crlf_2 : Bytes
crlf_2 = b'\r' ∷ b'\n' ∷ b'\r' ∷ b'\n' ∷ []

-- The texts in front of a part and behind it.
abbrev pub boundary_start : Bytes → Bytes
boundary_start boundary = b'-' ∷ b'-' ∷ (boundary ++ crlf)

abbrev pub boundary_end : Bytes → Bytes
boundary_end boundary = b'\r' ∷ b'\n' ∷ b'-' ∷ b'-' ∷ boundary

abbrev pub fitted : Outcome Bytes → Outcome (Option Bytes)
fitted undefined = undefined
fitted (done s) = done (some s)

-- The name of the file in the part that starts behind the boundary.
unfoldable pub part_name : Bytes → Option Bytes
part_name start = do
  disp_header ← strstr start (codes "Content-Disposition:")
  found ← strstr disp_header (codes "filename=\"")
  fname_end ← strchr b'"' (drop 10 found)
  some (in_front (drop 10 found) fname_end)

-- The content of the file, up to the boundary behind it.
unfoldable pub part_content : Bytes → Bytes → Outcome (Option Bytes)
part_content start boundary = done (strstr start crlf_2) >>? λ found.
    fitted (fit 256 (boundary_end boundary)) >>? λ end_text.
    done (strstr (drop 4 found) end_text) >>? λ content_end.
    done (some (in_front (drop 4 found) content_end))

-- The part, of a body that is read as a string.
unfoldable pub parse_multipart : Bytes → Bytes → Outcome (Option Part)
parse_multipart body boundary = fitted (fit 256 (boundary_start boundary)) >>? λ start_text.
    done (strstr body start_text) >>? λ found.
    done (part_name (drop (length start_text) found)) >>? λ name.
    part_content (drop (length start_text) found) boundary >>? λ content.
    done (some (record { filename = name; file_data = content }))
