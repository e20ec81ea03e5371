-- ===== src/HttpUpload/Upload.antt =====
-- A form with a file, as a browser sends it, and `ParseMultipart` of http_upload.c.
use hust_network_programming.Base.{
  ℕ, ◌<◌, ◌≡◌, refl, ap, ◌∙◌, true, [], ◌∷◌, ◌++◌, none, some, ◌>>=◌, arith, length, length-append,
  ◌==◌,
}
use hust_network_programming.CText.{Bytes, codes, strchr, Avoids}
use hust_network_programming.CText.Search.{
  strstr, in_front, strstr_skip, strstr_here, strstr_first, in_front-append, drop_all,
}
use hust_network_programming.Outcome.{done, fit, fit-done, ◌>>?◌}
use hust_network_programming.HttpUpload.Multipart.{
  crlf, crlf_2, boundary_start, boundary_end, part_name, part_content, parse_multipart,
}

-- The part: its two header lines, an empty line, the content, and the boundary with a text behind it.
abbrev pub part_text : Bytes → Bytes → Bytes → Bytes → Bytes → Bytes
part_text boundary filename kind content tail =
    codes "Content-Disposition: form-data; name=\"file\"; filename=\""
    ++ (filename
        ++ (b'"'
            ∷ b'\r'
            ∷ b'\n'
            ∷ (codes "Content-Type: "
                ++ (kind ++ (crlf_2 ++ (content ++ (boundary_end boundary ++ tail)))))))

abbrev pub form : Bytes → Bytes → Bytes → Bytes → Bytes → Bytes
form boundary filename kind content tail =
    boundary_start boundary ++ part_text boundary filename kind content tail

strchr-append : (c : ℕ) (s t : Bytes) → Avoids c s → strchr c (s ++ (c ∷ t)) ≡ some (c ∷ t)
strchr-append c [] t h = let same : (c == c) ≡ true = ground arith in rw same refl
strchr-append c (x ∷ s) t h = rw h.0 (strchr-append c s t h.1)

disposition :
    (t : Bytes)
    → strstr
        (codes "Content-Disposition: form-data; name=\"file\"; filename=\"" ++ t)
        (codes "filename=\"")
      ≡ some (codes "filename=\"" ++ t)
unfolding strstr codes
disposition t = refl

part_name-part_text :
    (boundary filename kind content tail : Bytes)
    → Avoids b'"' filename
    → part_name (part_text boundary filename kind content tail) ≡ some filename
unfolding part_name codes strstr
part_name-part_text boundary filename kind content tail h =
    let rest =
      b'\r'
      ∷ b'\n'
      ∷ (codes "Content-Type: "
          ++ (kind ++ (crlf_2 ++ (content ++ (boundary_end boundary ++ tail))))) in
    ap (λ o. o >>= λ e. some (in_front (filename ++ (b'"' ∷ rest)) e))
      (strchr-append b'"' filename rest h)
    ∙ ap some (in_front-append filename (b'"' ∷ rest))

header_lines :
    (filename kind rest : Bytes)
    → Avoids b'\r' filename
    → Avoids b'\r' kind
    → strstr
        (codes "Content-Disposition: form-data; name=\"file\"; filename=\""
          ++ (filename
              ++ (b'"' ∷ b'\r' ∷ b'\n' ∷ (codes "Content-Type: " ++ (kind ++ (crlf_2 ++ rest))))))
        crlf_2
      ≡ some (crlf_2 ++ rest)
unfolding strstr codes
header_lines filename kind rest f k =
    strstr_skip filename
      (b'"' ∷ b'\r' ∷ b'\n' ∷ (codes "Content-Type: " ++ (kind ++ (crlf_2 ++ rest)))) b'\r'
      (b'\n' ∷ crlf) f
    ∙ strstr_skip kind (crlf_2 ++ rest) b'\r' (b'\n' ∷ crlf) k
    ∙ strstr_here crlf_2 rest

fits_end :
    (boundary : Bytes)
    → length boundary < 252
    → fit 256 (boundary_end boundary) ≡ done (boundary_end boundary)
fits_end boundary h = fit-done 256 (boundary_end boundary) (omega (arith, h))

fits_start :
    (boundary : Bytes)
    → length boundary < 252
    → fit 256 (boundary_start boundary) ≡ done (boundary_start boundary)
fits_start boundary h =
    fit-done 256 (boundary_start boundary) (omega (arith, h, length-append boundary crlf))

part_content-part_text :
    (boundary filename kind content tail : Bytes)
    → Avoids b'\r' filename
    → Avoids b'\r' kind
    → Avoids b'\r' boundary
    → length boundary < 252
    → strstr content (boundary_end boundary) ≡ none
    → part_content (part_text boundary filename kind content tail) boundary ≡ done (some content)
unfolding part_content
part_content-part_text boundary filename kind content tail f k b short inside =
    let behind = boundary_end boundary ++ tail in
    rw (header_lines filename kind (content ++ behind) f k) (
      rw (fits_end boundary short) (
        ap (λ o. done o >>? λ e. done (some (in_front (content ++ behind) e)))
          (strstr_first content b'\r' (b'\n' ∷ b'-' ∷ b'-' ∷ boundary) tail
            (refl, (refl, (refl, b))) inside)
        ∙ ap (λ s. done (some s)) (in_front-append content behind)))

pub parse_multipart-part_text :
    (before boundary filename kind content tail : Bytes)
    → strstr (before ++ form boundary filename kind content tail) (boundary_start boundary)
      ≡ some (form boundary filename kind content tail)
    → Avoids b'"' filename
    → Avoids b'\r' filename
    → Avoids b'\r' kind
    → Avoids b'\r' boundary
    → length boundary < 252
    → strstr content (boundary_end boundary) ≡ none
    → parse_multipart (before ++ form boundary filename kind content tail) boundary
      ≡ done (some (record { filename = filename; file_data = content }))
unfolding parse_multipart
parse_multipart-part_text before boundary filename kind content tail found q f k b short inside =
    rw (fits_start boundary short) (
      rw found (
        rw (drop_all (boundary_start boundary) (part_text boundary filename kind content tail)) (
          rw (part_name-part_text boundary filename kind content tail q) (
            rw (part_content-part_text boundary filename kind content tail f k b short inside)
              refl))))
