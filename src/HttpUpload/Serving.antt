-- ===== src/HttpUpload/Serving.antt =====
-- The request of a file at `ClientThread` of http_upload.c.
use mathlib.Core.List.{flatten}
use hust_network_programming.Base.{
  ℕ, suc, ◌+◌, ◌-◌, ◌^◌, ◌<◌, ◌≡◌, ap, ◌∙◌, List, [], ◌∷◌, ◌++◌, Option, none, some, arith, length,
  length-append, pos,
}
use hust_network_programming.CText.{Bytes, Nonempty, codes, None}
use hust_network_programming.CText.Scan.{is_nul}
use hust_network_programming.CText.Search.{length-strstr, length-strstr_le}
use hust_network_programming.Outcome.{done}
use hust_network_programming.HttpUpload.Multipart.{crlf_2}
use hust_network_programming.HttpUpload.Thread.{
  Host, handle_request, after_header, respond, file_header, not_found, client_thread,
}
use hust_network_programming.HttpUpload.Request.{Request, read_body, parse_request}
use hust_network_programming.HttpUpload.Reading.{
  Zeroed, EndsHeader, c_string_lem, has_header-true, read_header_lem,
}
use hust_network_programming.Base.{◌≤◌}

-- The thread reads the header, and then goes on with the request that the header makes.
pub client_thread_head :
    (host : Host) (head rest : Bytes) (pieces : List Bytes) (req : Request)
    → Zeroed host.memory
    → None is_nul head
    → EndsHeader head
    → parse_request head ≡ done (some req)
    → Nonempty pieces
    → flatten pieces ≡ head ++ rest
    → (left : List Bytes) × Nonempty left
      × (flatten left ≡ rest)
      × (client_thread host pieces ≡ respond host req (read_body req (length head) head left))
unfolding client_thread
client_thread_head host head rest pieces req z h e parsed ne f =
    let enough : length head < suc (length (flatten pieces)) =
      omega (arith, ap length f, length-append head rest) in
    let (left, got, ne', f') =
      read_header_lem host.memory (suc (length (flatten pieces))) [] head rest pieces z h e ne f
        enough in
    (
      left,
      ne',
      f',
      rw got (
          rw (has_header-true host.memory head z h e) (
            rw (c_string_lem host.memory head z h) (
              ap (after_header host head left) e
              ∙ ap (λ t. handle_request host (length t - 4 + 4) head left (parse_request t))
                  (c_string_lem host.memory head z h)
              ∙ ap (handle_request host (length head - 4 + 4) head left) parsed
              ∙ ap (λ n. respond host req (read_body req n head left))
                  (omega (
                    arith,
                    length-strstr head crlf_2 crlf_2 e,
                    length-strstr_le head crlf_2 crlf_2 e,
                  ))))),
    )

abbrev get_request : Bytes → Request
get_request path = record { method = codes "GET"; path = path; length = pos 0; boundary = [] }

-- What a GET of a file is answered with.
abbrev pub file_texts : Option Bytes → List Bytes
file_texts none = not_found ∷ []
file_texts (some content) = file_header (length content) ∷ content ∷ []

abbrev pub IsSmall : Option Bytes → Type 0
IsSmall none = Unit
IsSmall (some content) = length content < 2 ^ 31

abbrev pub total : List ℕ → ℕ
total [] = 0
total (n ∷ results) = n + total results

abbrev pub Positive : List ℕ → Type 0
Positive [] = Unit
Positive (n ∷ results) = (0 < n) × Positive results

-- In each call of `Send` the results of `send` are positive and make up the text.
abbrev pub Accepts : List (List ℕ) → List Bytes → Type 0
Accepts results [] = Unit
Accepts [] (text ∷ texts) = ⊥
Accepts (r ∷ results) (text ∷ texts) = Positive r × (length text ≤ total r) × Accepts results texts
