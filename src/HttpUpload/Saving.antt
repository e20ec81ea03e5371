-- ===== src/HttpUpload/Saving.antt =====
-- Lemmas on an upload at `ClientThread` of http_upload.c: the body, its boundary, and the check of the saved file.
use mathlib.Core.List.{flatten}
use hust_network_programming.Base.{
  ℕ, suc, ◌+◌, ◌-◌, ◌^◌, ◌<◌, ◌≡◌, ◌≢◌, ◌↔◌, refl, sym, ap, ◌∙◌, true, ◌==◌, ==_iff, List, [], ◌∷◌,
  ◌++◌, append_assoc, Option, none, some, arith, length, length-append, take, pos, Bool-cases, inl,
  inr,
}
use hust_network_programming.CText.{Bytes, Nonempty, codes, str_eq, Avoids, str_eq_iff}
use hust_network_programming.CText.Decimal.{decimal, length-decimal}
use hust_network_programming.CText.Search.{strstr, in_front, in_front-strstr, strstr_here, take_all}
use hust_network_programming.CText.Places.{strstr_past_last}
use hust_network_programming.Outcome.{done, fit, fit-done}
use hust_network_programming.HttpUpload.{verify_file}
use hust_network_programming.HttpUpload.Multipart.{crlf, crlf_2, boundary_start}
use hust_network_programming.HttpUpload.Thread.{Host, respond, upload, ok_header}
use hust_network_programming.HttpUpload.Request.{Request, read_body, read_rest}
use hust_network_programming.HttpUpload.Reading.{EndsHeader, read_rest-take}

-- The header fits its array.
pub ok_header_fits :
    (n : ℕ)
    → n < 2 ^ 31
    → fit 1024 (ok_header (codes "text/html") n) ≡ done (ok_header (codes "text/html") n)
unfolding codes
ok_header_fits n h = fit-done 1024 (ok_header (codes "text/html") n) (
    omega (
      arith,
      length-append (decimal n) (crlf ++ (codes "Content-Type: " ++ (codes "text/html" ++ crlf_2))),
      length-decimal n 9 (omega (arith, h)),
    ))

pub verify_file_iff :
    (saved : Option Bytes) (uploaded : Bytes)
    → (verify_file saved uploaded ≡ true) ↔ (saved ≡ some uploaded)
unfolding verify_file
verify_file_iff none uploaded = ground arith
verify_file_iff (some saved) uploaded = (
  λ h. elim (Bool-cases (length saved == length uploaded)) [
    | inl e ↦ ap some ((str_eq_iff saved uploaded).0 (rw e at h))
    | inr e ↦ absurd (cc (rw e at h))
  ],
  λ h.
      let same : saved ≡ uploaded = cc h in
      let sizes : (length saved == length uploaded) ≡ true =
        (==_iff (length saved) (length uploaded)).1 (ap length same) in
      rw sizes ((str_eq_iff saved uploaded).1 same),
)

abbrev pub post_request : Bytes → ℕ → Bytes → Request
post_request path n boundary = record {
  method = codes "POST";
  path = path;
  length = pos n;
  boundary = boundary;
}

pub respond-post :
    (host : Host) (path : Bytes) (n : ℕ) (boundary body : Bytes)
    → boundary ≢ []
    → respond host (post_request path n boundary) body
      ≡ upload host (post_request path n boundary) body
unfolding respond codes str_eq
respond-post host path n [] body h = absurd (h refl)
respond-post host path n (c ∷ boundary) body h = refl

-- The body that is read is as long as the header says.
pub read_body-post :
    (path : Bytes) (n : ℕ) (boundary head body rest : Bytes) (left : List Bytes)
    → Nonempty left
    → flatten left ≡ body ++ rest
    → length body ≡ suc n
    → read_body (post_request path (suc n) boundary) (length head) head left ≡ head ++ body
unfolding read_body codes str_eq
read_body-post path n boundary head body rest left ne f size =
    let want : suc n + length head - length head ≡ length body = omega (arith, size) in
    ap (λ k. head ++ read_rest k k left) want
    ∙ ap (λ u. head ++ u)
        (read_rest-take (length body) (length body) left ne (omega arith)
          ∙ ap (take (length body)) f
          ∙ take_all body rest)

pub Avoids-append : (c : ℕ) (s t : Bytes) → Avoids c s → Avoids c t → Avoids c (s ++ t)
Avoids-append c [] t h g = g
Avoids-append c (x ∷ s) t h g = (h.0, Avoids-append c s t h.1 g)

-- The body's boundary is the first in the request, where the header does not have it.
pub strstr-form :
    (head boundary body : Bytes)
    → EndsHeader head
    → Avoids b'\n' boundary
    → strstr head (boundary_start boundary) ≡ none
    → strstr (head ++ (boundary_start boundary ++ body)) (boundary_start boundary)
      ≡ some (boundary_start boundary ++ body)
strstr-form head boundary body e b none_in =
    let front = in_front head crlf_2 ++ (b'\r' ∷ b'\n' ∷ b'\r' ∷ []) in
    let p = b'-' ∷ b'-' ∷ (boundary ++ (b'\r' ∷ [])) in
    let split : front ++ (b'\n' ∷ []) ≡ head =
      append_assoc (in_front head crlf_2) (b'\r' ∷ b'\n' ∷ b'\r' ∷ []) (b'\n' ∷ [])
      ∙ in_front-strstr head crlf_2 crlf_2 e in
    let same : p ++ (b'\n' ∷ []) ≡ boundary_start boundary =
      ap (λ u. b'-' ∷ b'-' ∷ u) (append_assoc boundary (b'\r' ∷ []) (b'\n' ∷ [])) in
    let inside : strstr (front ++ (b'\n' ∷ [])) (p ++ (b'\n' ∷ [])) ≡ none =
      ap (λ h. strstr h (p ++ (b'\n' ∷ []))) split ∙ ap (strstr head) same ∙ none_in in
    let past =
      strstr_past_last front b'\n' p (boundary_start boundary ++ body)
        (refl, (refl, Avoids-append b'\n' boundary (b'\r' ∷ []) b (refl, tt))) inside in
    ap (λ h. strstr (h ++ (boundary_start boundary ++ body)) (boundary_start boundary)) (sym split)
    ∙ ap (λ h. strstr h (boundary_start boundary))
        (append_assoc front (b'\n' ∷ []) (boundary_start boundary ++ body))
    ∙ ap (strstr (front ++ (b'\n' ∷ (boundary_start boundary ++ body)))) (sym same)
    ∙ past
    ∙ ap (strstr (boundary_start boundary ++ body)) same
    ∙ strstr_here (boundary_start boundary) body
