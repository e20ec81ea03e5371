-- ===== src/HttpUpload/Request.antt =====
-- How `ClientThread` of assignment/http_upload.c reads a request and what it takes from its headers.
use hust_network_programming.Base.{
  ℕ, zero, suc, ◌+◌, ◌-◌, Bool, true, false, List, [], ◌∷◌, ◌++◌, Option, none, some, ◌>>=◌, leb,
  length, take, drop, if◌then◌else◌, ℤ, pos, negsuc,
}
use hust_network_programming.CText.{Bytes, codes, str_eq, before}
use hust_network_programming.CText.Decimal.{scan_int}
use hust_network_programming.CText.Scan.{word, is_nul}
use hust_network_programming.CText.Search.{strstr, in_front}
use hust_network_programming.Outcome.{Outcome, done, undefined, fit, ◌>>?◌}
use hust_network_programming.HttpUpload.{decode_url}
use hust_network_programming.HttpUpload.Multipart.{fitted, crlf, crlf_2}

-- `recv` of at most `n` bytes from the pieces that arrive; no byte stands for a result that is not
-- positive.
abbrev pub recv : ℕ → List Bytes → Bytes × List Bytes
recv n [] = ([], [])
recv n (p ∷ pieces) = if leb (length p) n then (p, pieces) else (take n p, drop n p ∷ pieces)

-- The request as a string: no zero is put behind its bytes.
abbrev pub c_string : (ℕ → Bytes) → Bytes → Bytes
c_string memory body = before is_nul (body ++ memory (length body))

abbrev pub is_some : Option Bytes → Bool
is_some none = false
is_some (some s) = true

-- `requestBody != NULL && strstr(requestBody, "\r\n\r\n") != NULL`
abbrev pub has_header : (ℕ → Bytes) → Bytes → Bool
has_header memory [] = false
has_header memory (c ∷ body) = is_some (strstr (c_string memory (c ∷ body)) crlf_2)

abbrev pub header_round :
    (Bytes → List Bytes → Bytes × List Bytes)
    → Bytes
    → List Bytes
    → Bytes × List Bytes
    → Bytes × List Bytes
header_round rounds body pieces ([], left) = (body, left)
header_round rounds body pieces (c ∷ got, left) = rounds (body ++ c ∷ []) left

-- The loop that reads the header a byte at a time, and what is left of the pieces. A round takes a byte
-- or is the last, so the number of bytes and one more is enough fuel.
unfoldable pub read_header : (ℕ → Bytes) → ℕ → Bytes → List Bytes → Bytes × List Bytes
read_header memory zero body pieces = (body, pieces)
read_header memory (suc fuel) body pieces =
    let next = header_round (read_header memory fuel) body pieces (recv 1 pieces) in
    if has_header memory body then (body, pieces) else next

abbrev pub second_word : Bytes → Outcome (Option (Bytes × Bytes)) → Outcome (Option (Bytes × Bytes))
second_word method undefined = undefined
second_word method (done none) = done (some (method, []))
second_word method (done (some (path, _))) = done (some (method, path))

abbrev pub first_word : Outcome (Option (Bytes × Bytes)) → Outcome (Option (Bytes × Bytes))
first_word undefined = undefined
first_word (done none) = done (some ([], []))
first_word (done (some (method, rest))) = second_word method (word 1024 rest)

-- `sscanf(requestBody, "%s%s", method, path)` into arrays that hold zeros.
unfoldable pub method_path : Bytes → Outcome (Option (Bytes × Bytes))
method_path text = first_word (word 8 text)

abbrev pub number_or_zero : Outcome (Option (ℤ × Bytes)) → Outcome (Option ℤ)
number_or_zero undefined = undefined
number_or_zero (done none) = done (some (pos 0))
number_or_zero (done (some (n, _))) = done (some n)

abbrev pub length_header : Option Bytes → Outcome (Option ℤ)
length_header none = done (some (pos 0))
length_header (some header) = number_or_zero (scan_int (drop 15 header))

unfoldable pub content_length : Bytes → Outcome (Option ℤ)
content_length text = length_header (strstr text (codes "Content-Length:"))

abbrev pub boundary_or_none : Option Bytes → Outcome (Option Bytes)
boundary_or_none none = done (some [])
boundary_or_none (some b) = fitted (fit 256 b)

unfoldable pub boundary_in : Bytes → Option Bytes
boundary_in header = do
  start ← strstr header (codes "boundary=")
  boundary_end ← strstr (drop 9 start) crlf
  some (in_front (drop 9 start) boundary_end)

unfoldable pub find_boundary : Bytes → Option Bytes
find_boundary text = strstr text (codes "Content-Type:") >>= boundary_in

pub record Request : Type 0 where
  pub method : Bytes
  pub path : Bytes
  pub length : ℤ
  pub boundary : Bytes

unfoldable pub parse_request : Bytes → Outcome (Option Request)
parse_request text = method_path text >>? λ (method, path). content_length text >>? λ n.
    boundary_or_none (find_boundary text) >>? λ boundary.
    done
      (some (record { method = method; path = decode_url path; length = n; boundary = boundary }))

abbrev pub rest_round : (ℕ → List Bytes → Bytes) → ℕ → Bytes × List Bytes → Bytes
rest_round rounds want ([], left) = []
rest_round rounds want (c ∷ got, left) = (c ∷ got) ++ rounds (want - length (c ∷ got)) left

-- The loop for the rest of the body, of which `want` bytes are left. A round takes a byte or is the
-- last, so that many rounds are enough.
unfoldable pub read_rest : ℕ → ℕ → List Bytes → Bytes
read_rest zero want pieces = []
read_rest (suc fuel) zero pieces = []
read_rest (suc fuel) (suc want) pieces =
    rest_round (read_rest fuel) (suc want) (recv (suc want) pieces)

-- How many bytes are left to read behind a header that ends `header_end` bytes into the request.
abbrev pub remaining : ℤ → ℕ → ℕ → ℕ
remaining (pos zero) header_end body_len = 0
remaining (pos (suc n)) header_end body_len = suc n + header_end - body_len
remaining (negsuc n) header_end body_len = 0

-- The request with its body, which only a POST has.
unfoldable pub read_body : Request → ℕ → Bytes → List Bytes → Bytes
read_body req header_end body pieces =
    let want = remaining req.length header_end (length body) in
    let rest = read_rest want want pieces in
    if str_eq req.method (codes "POST") then body ++ rest else body
