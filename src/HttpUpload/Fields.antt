-- ===== src/HttpUpload/Fields.antt =====
-- The header of a POST with any fields, and what `ClientThread` of http_upload.c reads from it.
use hust_network_programming.Base.{
  ℕ, ◌^◌, ◌<◌, ◌≡◌, refl, ap, ◌∙◌, [], ◌∷◌, ◌++◌, some, ◌>>=◌, length, pos,
}
use hust_network_programming.CText.{Bytes, codes, None, Avoids}
use hust_network_programming.CText.Decimal.{decimal, scan_int-decimal}
use hust_network_programming.CText.Scan.{IsWord, is_nul, scan_int-space}
use hust_network_programming.CText.Search.{strstr, in_front, strstr_skip, in_front-append}
use hust_network_programming.Outcome.{done}
use hust_network_programming.HttpUpload.{decode_url}
use hust_network_programming.HttpUpload.Multipart.{crlf}
use hust_network_programming.HttpUpload.Request.{
  content_length, length_header, number_or_zero, find_boundary, boundary_in, parse_request,
}
use hust_network_programming.HttpUpload.Reading.{EndsHeader}
use hust_network_programming.HttpUpload.Heading.{
  method_path-append, post_IsWord, boundary_or_none-some,
}

-- A POST with the rest of its first line and any fields.
abbrev pub any_head : Bytes → Bytes → Bytes
any_head path fields = codes "POST" ++ (b' ' ∷ (path ++ (b' ' ∷ fields)))

-- Behind the first "Content-Length:" stands the length, and behind the first "Content-Type:" the type of
-- a form with the boundary.
pub record IsPost (path fields : Bytes) (n : ℕ) (boundary : Bytes) : Type 0 where
  pub is_word : IsWord path 1024
  pub ends : EndsHeader (any_head path fields)
  pub no_nul : None is_nul (any_head path fields)
  pub length_rest : Bytes
  pub has_length :
      strstr (any_head path fields) (codes "Content-Length:")
      ≡ some (codes "Content-Length:" ++ (b' ' ∷ (decimal n ++ (crlf ++ length_rest))))
  pub type_rest : Bytes
  pub has_type :
      strstr (any_head path fields) (codes "Content-Type:")
      ≡ some (
          codes "Content-Type: multipart/form-data; boundary=" ++ (boundary ++ (crlf ++ type_rest)))

content_length-any_head :
    (path fields : Bytes) (n : ℕ) (boundary : Bytes)
    → IsPost path fields n boundary
    → n < 2 ^ 31
    → content_length (any_head path fields) ≡ done (some (pos n))
unfolding content_length codes
content_length-any_head path fields n boundary p small =
    ap length_header p.has_length
    ∙ ap number_or_zero (
        scan_int-space (decimal n ++ (crlf ++ p.length_rest))
        ∙ scan_int-decimal n (crlf ++ p.length_rest) small refl)

boundary_in-append :
    (boundary rest : Bytes)
    → Avoids b'\r' boundary
    → boundary_in
        (codes "Content-Type: multipart/form-data; boundary=" ++ (boundary ++ (crlf ++ rest)))
      ≡ some boundary
unfolding boundary_in strstr codes
boundary_in-append boundary rest b =
    ap (λ o. o >>= λ e. some (in_front (boundary ++ (crlf ++ rest)) e))
      (strstr_skip boundary (crlf ++ rest) b'\r' (b'\n' ∷ []) b)
    ∙ ap some (in_front-append boundary (crlf ++ rest))

pub parse_request-any_head :
    (path fields : Bytes) (n : ℕ) (boundary : Bytes)
    → IsPost path fields n boundary
    → n < 2 ^ 31
    → Avoids b'\r' boundary
    → length boundary < 252
    → parse_request (any_head path fields)
      ≡ done (
          some (record {
            method = codes "POST";
            path = decode_url path;
            length = pos n;
            boundary = boundary;
          }))
unfolding parse_request find_boundary
parse_request-any_head path fields n boundary p small b short =
    let found : find_boundary (any_head path fields) ≡ some boundary =
      ap (λ o. o >>= boundary_in) p.has_type ∙ boundary_in-append boundary p.type_rest b in
    rw (method_path-append (codes "POST") path fields post_IsWord p.is_word) (
      rw (content_length-any_head path fields n boundary p small)
        (rw found (rw (boundary_or_none-some boundary short) refl)))
