-- ===== src/HttpUpload.antt =====
-- assignment/http_upload.c: the string and page functions of the server. The functions `Append`,
-- `Compare` and `Send` stand in the same words in np/np20.c and assignment/http_cont.c, and `DecodeURL`
-- in the latter.
pub mod Multipart
pub mod Request
pub mod Thread
pub mod Upload
pub mod Reading
pub mod Heading
pub mod Fields
pub mod Serving
pub mod Saving
pub mod Posting
mod Tests
use Prim.Native.Nat.{compare, Ordering}
use hust_network_programming.Base.{
  ℕ, zero, suc, ◌+◌, ◌-◌, Bool, true, false, List, [], ◌∷◌, ◌++◌, Option, none, some, ◌==◌, ltb,
  leb, length, take, drop, if◌then◌else◌,
}
use hust_network_programming.CText.{Bytes, codes, str_eq, before_last}
use hust_network_programming.CText.Search.{starts_with}
use hust_network_programming.Outcome.{Outcome, done, undefined}

-- `*destination` as a string, where a null pointer has no text, and then `str`.
unfoldable pub append : Option Bytes → Bytes → Option Bytes
append none str = some str
append (some old) str = some (old ++ str)

-- Several calls in turn.
unfoldable pub append_all : Option Bytes → List Bytes → Option Bytes
append_all output [] = output
append_all output (str ∷ more) = append_all (append output str) more

pub record Entry : Type 0 where
  pub d_type : ℕ
  pub d_name : Bytes

-- DT_DIR of dirent.h
abbrev pub dt_dir : ℕ
dt_dir = 4

-- The sign of `strcmp`.
unfoldable pub strcmp : Bytes → Bytes → Ordering
strcmp [] [] = Ordering.eq
strcmp [] (y ∷ b) = Ordering.lt
strcmp (x ∷ a) [] = Ordering.gt
strcmp (x ∷ a) (y ∷ b) = let later = strcmp a b in if x == y then later else compare x y

-- The sign of `Compare`.
unfoldable pub compare_entries : Entry → Entry → Ordering
compare_entries e1 e2 =
    if e1.d_type == e2.d_type
    then strcmp e1.d_name e2.d_name
    else if e1.d_type == dt_dir
    then Ordering.lt
    else Ordering.gt

abbrev pub code_20 : Bytes
code_20 = b'%' ∷ b'2' ∷ b'0' ∷ []

-- The loop of `DecodeURL`, where `skip` bytes of a code that is done are left.
unfoldable pub decode_from : ℕ → Bytes → Bytes
decode_from skip [] = []
decode_from (suc skip) (c ∷ p) = decode_from skip p
decode_from zero (c ∷ p) =
    let code = starts_with code_20 (c ∷ p) in
    (if code then b' ' else c) ∷ decode_from (if code then 2 else 0) p

-- The buffer has as many bytes as the path, and the result is not longer.
unfoldable pub decode_url : Bytes → Bytes
decode_url path = decode_from 0 path

abbrev pub last_or : ℕ → Bytes → ℕ
last_or d [] = d
last_or d (c ∷ s) = last_or c s

-- The slash between the path and a name; `path[strlen(path) - 1]` of an empty path is undefined.
abbrev pub slash : Bytes → Outcome Bytes
slash [] = undefined
slash (c ∷ s) = done (if last_or c s == b'/' then [] else b'/' ∷ [])

abbrev row_texts : Bytes → Bytes → Entry → List Bytes
row_texts path sep e =
    if e.d_type == dt_dir
    then codes "<a href=\""
      ∷ path
      ∷ sep
      ∷ e.d_name
      ∷ codes "\">"
      ∷ codes "<b>"
      ∷ e.d_name
      ∷ codes "</b>"
      ∷ codes "</a>"
      ∷ codes "<br>"
      ∷ []
    else codes "<a href=\""
      ∷ path
      ∷ sep
      ∷ e.d_name
      ∷ codes "?\">"
      ∷ codes "<i>"
      ∷ e.d_name
      ∷ codes "</i>"
      ∷ codes "</a>"
      ∷ codes "<br>"
      ∷ []

abbrev row : Bytes → Outcome Bytes → Entry → Option Bytes → Outcome (Option Bytes)
row path undefined e output = undefined
row path (done sep) e output = done (append_all output (row_texts path sep e))

-- The loop over the entries of the folder.
unfoldable pub rows : Bytes → List Entry → Option Bytes → Outcome (Option Bytes)
rows path [] output = done output
rows path (e ∷ entries) output = elim (row path (slash path) e output) [
  | undefined ↦ undefined
  | done out ↦ rows path entries out
]

abbrev page_end : Outcome (Option Bytes) → Outcome (Option Bytes)
page_end undefined = undefined
page_end (done output) = done (append_all output (codes "</body>" ∷ codes "</html>" ∷ []))

-- The page of a folder, for the entries that `scandir` gives for a path and an order, none where it fails.
unfoldable pub create_html :
    ((Entry → Entry → Ordering) → Bytes → List Entry)
    → Bytes
    → Option Bytes
    → Outcome (Option Bytes)
create_html scandir path output = page_end (
    rows path (scandir compare_entries path) (
      append_all output (
        codes "<html>"
        ∷ codes "<head><meta charset='utf-8'></head>"
        ∷ codes "<body>"
        ∷ codes "<h2>Upload File</h2>"
        ∷ codes "<form method='POST' enctype='multipart/form-data'>"
        ∷ codes "<input type='file' name='file' required>"
        ∷ codes "<input type='submit' value='Upload'>"
        ∷ codes "</form>"
        ∷ codes "<hr>"
        ∷ codes "<h2>Files in "
        ∷ path
        ∷ codes "</h2>"
        ∷ [])))

-- `Send` for the successive results of `send`, where zero stands for one that is not positive: the
-- bytes that were taken.
unfoldable pub send_data : List ℕ → Bytes → Bytes
send_data results [] = []
send_data [] (c ∷ content) = []
send_data (zero ∷ results) (c ∷ content) = []
send_data (suc n ∷ results) (c ∷ content) =
    take (suc n) (c ∷ content) ++ send_data results (drop n content)

-- `VerifyFile`, for what the file holds, where it can be opened.
unfoldable pub verify_file : Option Bytes → Bytes → Bool
verify_file none uploaded = false
verify_file (some saved) uploaded =
    let same = str_eq saved uploaded in if length saved == length uploaded then same else false
