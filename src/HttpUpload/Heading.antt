-- ===== src/HttpUpload/Heading.antt =====
-- The headers of requests, and what `ClientThread` of http_upload.c reads from them.
use hust_network_programming.Base.{
  ℕ, ◌+◌, ◌<◌, ◌≡◌, refl, ap, ◌∙◌, Bool, true, false, [], ◌∷◌, ◌++◌, none, some, ◌==◌, ==_iff,
  arith, length, pos, Bool-cases, inl, inr,
}
use hust_network_programming.CText.{
  Bytes, codes, None, None-append, passes_none, None-passes_none, Avoids, is_space,
}
use hust_network_programming.CText.Decimal.{decimal, None-decimal}
use hust_network_programming.CText.Scan.{digit_no_nul, IsWord, is_nul, word-append, word-space}
use hust_network_programming.CText.Search.{strstr, strstr_skip}
use hust_network_programming.Outcome.{done, fit-done}
use hust_network_programming.HttpUpload.{decode_url}
use hust_network_programming.HttpUpload.Multipart.{fitted, crlf, crlf_2}
use hust_network_programming.HttpUpload.Request.{
  method_path, first_word, second_word, content_length, find_boundary, boundary_or_none,
  parse_request,
}
use hust_network_programming.HttpUpload.Reading.{EndsHeader}

-- The two headers of an upload, behind the protocol.
abbrev pub post_fields : ℕ → Bytes → Bytes
post_fields n boundary =
    codes "HTTP/1.1"
    ++ (crlf
        ++ (codes "Content-Length:"
            ++ (b' '
                ∷ (decimal n
                    ++ (crlf
                        ++ (codes "Content-Type: multipart/form-data; boundary="
                            ++ (boundary ++ crlf_2)))))))

abbrev pub post_head : Bytes → ℕ → Bytes → Bytes
post_head path n boundary = codes "POST" ++ (b' ' ∷ (path ++ (b' ' ∷ post_fields n boundary)))

-- A GET with the rest of its first line and any fields.
abbrev pub get_head : Bytes → Bytes → Bytes
get_head path fields = codes "GET" ++ (b' ' ∷ (path ++ (b' ' ∷ fields)))

-- A path that holds neither of the two names of headers.
pub record IsPath (path : Bytes) : Type 0 where
  pub is_word : IsWord path 1024
  pub no_length : strstr path (codes "Content-Length:") ≡ none
  pub no_type : strstr path (codes "Content-Type:") ≡ none

-- A header that ends with its empty line, and has neither of the two fields.
pub record IsGet (path fields : Bytes) : Type 0 where
  pub is_word : IsWord path 1024
  pub ends : EndsHeader (get_head path fields)
  pub no_nul : None is_nul (get_head path fields)
  pub no_length : strstr (get_head path fields) (codes "Content-Length:") ≡ none
  pub no_type : strstr (get_head path fields) (codes "Content-Type:") ≡ none

pub None-Avoids : (p : ℕ → Bool) (c : ℕ) → p c ≡ true → (s : Bytes) → None p s → Avoids c s
None-Avoids p c e [] h = tt
None-Avoids p c e (x ∷ s) h = (
  elim (Bool-cases (x == c)) [
    | inl same ↦ absurd (cc (ap p ((==_iff x c).0 same), e, h.0))
    | inr other ↦ other
  ],
  None-Avoids p c e s h.1,
)

decimal-Avoids :
    (c : ℕ) → ((d : ℕ) → d < 10 → ((48 + d) == c) ≡ false) → (n : ℕ) → Avoids c (decimal n)
decimal-Avoids c h n =
    None-Avoids (λ x. x == c) c ((==_iff c c).1 refl) (decimal n) (None-decimal (λ x. x == c) h n)

no_return : (d : ℕ) → d < 10 → ((48 + d) == b'\r') ≡ false
no_return d h = ground arith

no_c : (d : ℕ) → d < 10 → ((48 + d) == b'C') ≡ false
no_c d h = ground arith

pub post_head-EndsHeader :
    (path : Bytes) (n : ℕ) (boundary : Bytes)
    → IsPath path
    → Avoids b'\r' boundary
    → EndsHeader (post_head path n boundary)
unfolding strstr codes
post_head-EndsHeader path n boundary p b =
    strstr_skip path (b' ' ∷ post_fields n boundary) b'\r' (b'\n' ∷ crlf)
      (None-Avoids is_space b'\r' refl path p.is_word.no_space)
    ∙ strstr_skip (decimal n)
        (crlf ++ (codes "Content-Type: multipart/form-data; boundary=" ++ (boundary ++ crlf_2)))
        b'\r' (b'\n' ∷ crlf) (decimal-Avoids b'\r' no_return n)
    ∙ strstr_skip boundary crlf_2 b'\r' (b'\n' ∷ crlf) b

-- The first line.
pub method_path-append :
    (method path rest : Bytes)
    → IsWord method 8
    → IsWord path 1024
    → method_path (method ++ (b' ' ∷ (path ++ (b' ' ∷ rest)))) ≡ done (some (method, path))
unfolding method_path
method_path-append method path rest m p =
    ap first_word (word-append 8 method (path ++ (b' ' ∷ rest)) m)
    ∙ ap (second_word method)
        (word-space 1024 (path ++ (b' ' ∷ rest)) ∙ word-append 1024 path rest p)

pub length_needle : Avoids b' ' (codes "Content-Length:")
unfolding codes
length_needle = (
  refl,
  (
    refl,
    (
      refl,
      (
        refl,
        (refl, (refl, (refl, (refl, (refl, (refl, (refl, (refl, (refl, (refl, (refl, tt))))))))))),
      ),
    ),
  ),
)

type_needle : Avoids b' ' (codes "Content-Type:")
unfolding codes
type_needle = (
  refl,
  (
    refl,
    (refl, (refl, (refl, (refl, (refl, (refl, (refl, (refl, (refl, (refl, (refl, tt))))))))))),
  ),
)

pub post_IsWord : IsWord (codes "POST") 8
unfolding codes
post_IsWord = record {
  nonempty = λ e. cc e;
  no_space = (refl, (refl, (refl, (refl, tt))));
  no_nul = (refl, (refl, (refl, (refl, tt))));
  fits = omega arith;
}

get_IsWord : IsWord (codes "GET") 8
unfolding codes
get_IsWord = record {
  nonempty = λ e. cc e;
  no_space = (refl, (refl, (refl, tt)));
  no_nul = (refl, (refl, (refl, tt)));
  fits = omega arith;
}

pub boundary_or_none-some : (b : Bytes) → length b < 252 → boundary_or_none (some b) ≡ done (some b)
boundary_or_none-some b short = ap fitted (fit-done 256 b (omega (arith, short)))

pub parse_request-get_head :
    (path fields : Bytes)
    → IsGet path fields
    → parse_request (get_head path fields)
      ≡ done (
          some (record {
            method = codes "GET";
            path = decode_url path;
            length = pos 0;
            boundary = [];
          }))
unfolding parse_request content_length find_boundary
parse_request-get_head path fields g =
    rw (method_path-append (codes "GET") path fields get_IsWord g.is_word)
      (rw (g.no_length, g.no_type) refl)

-- A literal without zeros before a text without zeros.
literal : (a s : Bytes) → passes_none is_nul a ≡ true → None is_nul s → None is_nul (a ++ s)
literal a s e h = None-append is_nul a s (None-passes_none is_nul a e) h

pub None-post_head :
    (path : Bytes) (n : ℕ) (boundary : Bytes)
    → IsPath path
    → None is_nul boundary
    → None is_nul (post_head path n boundary)
unfolding codes
None-post_head path n boundary p b =
    literal (codes "POST ") (path ++ (b' ' ∷ post_fields n boundary)) refl (
      None-append is_nul path (b' ' ∷ post_fields n boundary) p.is_word.no_nul (
        literal (b' ' ∷ (codes "HTTP/1.1" ++ (crlf ++ codes "Content-Length: ")))
          (decimal n ++ typed) refl
          (None-append is_nul (decimal n) typed (None-decimal is_nul digit_no_nul n) (
            literal (crlf ++ codes "Content-Type: multipart/form-data; boundary=")
              (boundary ++ crlf_2) refl
              (None-append is_nul boundary crlf_2 b (None-passes_none is_nul crlf_2 refl))))))
  where
    typed : Bytes
    typed = crlf ++ (codes "Content-Type: multipart/form-data; boundary=" ++ (boundary ++ crlf_2))
