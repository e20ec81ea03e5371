-- ===== src/HttpUpload/Reading.antt =====
-- How `ClientThread` of http_upload.c receives a request: the header a byte at a time, and the body.
use mathlib.Core.List.{flatten}
use mathlib.Core.Path.{subst}
use hust_network_programming.Base.{
  ℕ, zero, suc, ◌-◌, ◌≤◌, ◌<◌, ◌≡◌, ◌≢◌, refl, sym, ap, ◌∙◌, Bool, true, false, List, [], ◌∷◌, ◌++◌,
  append-nil, append_assoc, some, arith, length, length-append, take, drop, take-append-drop,
  length-take, length-drop, leb, Bool-cases, Option-cases, inl, inr,
}
use hust_network_programming.CText.{Bytes, Nonempty, None, before, before_all}
use hust_network_programming.CText.Scan.{is_nul}
use hust_network_programming.CText.Search.{strstr, strstr-append, length-strstr}
use hust_network_programming.HttpUpload.Multipart.{crlf_2}
use hust_network_programming.HttpUpload.Request.{
  recv, c_string, has_header, header_round, read_header, rest_round, read_rest,
}

take-append : (n : ℕ) (s t : Bytes) → length s ≤ n → take n (s ++ t) ≡ s ++ take (n - length s) t
take-append n [] t h = let e : n - 0 ≡ n = omega arith in ap (λ k. take k t) (sym e)
take-append zero (c ∷ s) t h = absurd (omega (arith, h))
take-append (suc n) (c ∷ s) t h =
    let e : suc n - suc (length s) ≡ n - length s = omega arith in
    ap (λ u. c ∷ u) (take-append n s t (omega (arith, h)) ∙ ap (λ k. s ++ take k t) (sym e))

-- What a call of `recv` does: it takes some bytes off the front of what arrives.
pub record Receives (n : ℕ) (pieces : List Bytes) : Type 0 where
  pub first : ℕ
  pub more : Bytes
  pub left : List Bytes
  pub result : recv n pieces ≡ (first ∷ more, left)
  pub whole : flatten pieces ≡ (first ∷ more) ++ flatten left
  pub bound : length (first ∷ more) ≤ n
  pub nonempty : Nonempty left

pub recv_lem :
    (n : ℕ) (pieces : List Bytes) → Nonempty pieces → flatten pieces ≢ [] → Receives (suc n) pieces
unfolding flatten
recv_lem n [] ne h = absurd (h refl)
recv_lem n ([] ∷ pieces) ne h = absurd (ne.0 refl)
recv_lem n ((c ∷ s) ∷ pieces) ne h = elim (Bool-cases (leb (length (c ∷ s)) (suc n))) [
  | inl fits ↦ record {
    first = c;
    more = s;
    left = pieces;
    result = rw fits refl;
    whole = refl;
    bound = ground (arith, fits);
    nonempty = ne.1;
  }
  | inr long ↦
      let more_than_n : n < length s = ground (arith, long) in
      record {
        first = c;
        more = take n s;
        left = drop n s ∷ pieces;
        result = rw long refl;
        whole =
            ap (λ u. c ∷ u)
              (ap (λ u. u ++ flatten pieces) (sym (take-append-drop n s))
                ∙ append_assoc (take n s) (drop n s) (flatten pieces));
        bound = omega (arith, length-take n s);
        nonempty = (λ e. absurd (omega (arith, ap length e, length-drop n s)), ne.1);
      }
]

pub flatten-Nonempty :
    (s : Bytes) (pieces : List Bytes) → Nonempty (s ∷ pieces) → flatten (s ∷ pieces) ≢ []
unfolding flatten
flatten-Nonempty [] pieces ne e = ne.0 refl
flatten-Nonempty (c ∷ s) pieces ne e = cc e

pub length-zero : (s : Bytes) → length s ≡ 0 → s ≡ []
length-zero [] h = refl
length-zero (c ∷ s) h = absurd (omega (arith, h))

-- The body: as many bytes as are wanted, if so many arrive.
pub read_rest-take :
    (fuel want : ℕ) (pieces : List Bytes)
    → Nonempty pieces
    → want ≤ fuel
    → read_rest fuel want pieces ≡ take want (flatten pieces)
unfolding read_rest
read_rest-take zero zero pieces ne h = refl
read_rest-take zero (suc want) pieces ne h = absurd (omega (arith, h))
read_rest-take (suc fuel) zero pieces ne h = refl
read_rest-take (suc fuel) (suc want) [] ne h = unfold flatten in refl
read_rest-take (suc fuel) (suc want) (s ∷ pieces) ne h =
    let r = recv_lem want (s ∷ pieces) ne (flatten-Nonempty s pieces ne) in
    let some_bytes = r.bound in
    ap (rest_round (read_rest fuel) (suc want)) r.result
    ∙ ap (λ u. (r.first ∷ r.more) ++ u)
        (read_rest-take fuel (suc want - length (r.first ∷ r.more)) r.left r.nonempty
          (omega (arith, h)))
    ∙ sym (take-append (suc want) (r.first ∷ r.more) (flatten r.left) some_bytes)
    ∙ ap (take (suc want)) (sym r.whole)

-- A zero follows the request in memory.
abbrev pub Zeroed : (ℕ → Bytes) → Type 0
Zeroed memory = (n : ℕ) → memory n ≡ []

pub c_string_lem :
    (memory : ℕ → Bytes) (body : Bytes)
    → Zeroed memory
    → None is_nul body
    → c_string memory body ≡ body
c_string_lem memory body z h =
    ap (λ m. before is_nul (body ++ m)) (z (length body))
    ∙ ap (before is_nul) (append-nil body)
    ∙ before_all is_nul body h

pub None-front : (p : ℕ → Bool) (s t : Bytes) → None p (s ++ t) → None p s
None-front p [] t h = tt
None-front p (c ∷ s) t h = (h.0, None-front p s t h.1)

-- The end of the header is at the end of the text, and nowhere before.
abbrev pub EndsHeader : Bytes → Type 0
EndsHeader head = strstr head crlf_2 ≡ some crlf_2

pub has_header-true :
    (memory : ℕ → Bytes) (head : Bytes)
    → Zeroed memory
    → None is_nul head
    → EndsHeader head
    → has_header memory head ≡ true
has_header-true memory [] z h e = absurd (unfold strstr in cc e)
has_header-true memory (c ∷ head) z h e = rw (c_string_lem memory (c ∷ head) z h) (rw e refl)

-- A part of the header does not have its end.
has_header-false :
    (memory : ℕ → Bytes) (s t : Bytes)
    → Zeroed memory
    → None is_nul (s ++ t)
    → EndsHeader (s ++ t)
    → t ≢ []
    → has_header memory s ≡ false
has_header-false memory [] t z h e ne = refl
has_header-false memory (c ∷ s) t z h e ne =
    rw (c_string_lem memory (c ∷ s) z (None-front is_nul (c ∷ s) t h))
      (elim (Option-cases (strstr (c ∷ s) crlf_2)) [
        | inl no_end ↦ rw no_end refl
        | inr (r, early) ↦
            let two : some (r ++ t) ≡ some crlf_2 =
              sym (strstr-append (c ∷ s) t crlf_2 r early) ∙ e in
            let same : r ++ t ≡ crlf_2 = cc two in
            let long = length-strstr (c ∷ s) crlf_2 r early in
            absurd (ne (length-zero t (omega (arith, long, length-append r t, ap length same))))
      ])

-- The loop stops with the header, where `s` of it is read and `t` is not, and leaves what comes behind.
pub read_header_lem :
    (memory : ℕ → Bytes) (fuel : ℕ) (s t rest : Bytes) (pieces : List Bytes)
    → Zeroed memory
    → None is_nul (s ++ t)
    → EndsHeader (s ++ t)
    → Nonempty pieces
    → flatten pieces ≡ t ++ rest
    → length t < fuel
    → (left : List Bytes) × (read_header memory fuel s pieces ≡ (s ++ t, left))
      × Nonempty left
      × (flatten left ≡ rest)
unfolding read_header
read_header_lem memory zero s t rest pieces z h e ne f enough = absurd (omega (arith, enough))
read_header_lem memory (suc fuel) s [] rest pieces z h e ne f enough =
    let same = append-nil s in
    let here = has_header-true memory s z (subst (None is_nul) same h) (subst EndsHeader same e) in
    (pieces, rw here (ap (λ u. (u, pieces)) (sym same)), ne, f)
read_header_lem memory (suc fuel) s (c ∷ t) rest pieces z h e ne f enough =
    let not_yet = has_header-false memory s (c ∷ t) z h e (λ n. cc n) in
    let r = recv_lem 0 pieces ne (λ n. absurd (cc (f, n))) in
    let same = sym (append_assoc s (c ∷ []) t) in
    let few = r.bound in
    let one : r.more ≡ [] = length-zero r.more (omega (arith, few)) in
    let whole : c ∷ (t ++ rest) ≡ r.first ∷ flatten r.left =
      sym f ∙ r.whole ∙ ap (λ m. (r.first ∷ m) ++ flatten r.left) one in
    let first : r.first ≡ c = cc whole in
    let others : flatten r.left ≡ t ++ rest = cc whole in
    let (left, done_, ne', f') =
      read_header_lem memory fuel (s ++ c ∷ []) t rest r.left z (subst (None is_nul) same h)
        (subst EndsHeader same e) r.nonempty others (omega (arith, enough)) in
    (
      left,
      rw not_yet (
          ap (header_round (read_header memory fuel) s pieces) r.result
          ∙ ap (λ d. read_header memory fuel (s ++ d ∷ []) r.left) first
          ∙ done_
          ∙ ap (λ u. (u, left)) (sym same)),
      ne',
      f',
    )
