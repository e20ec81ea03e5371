-- ===== src/PeerServer/Names.antt =====
-- The names that np15_server.c lists.
use hust_network_programming.Base.{
  ◌+◌, ◌≤◌, ◌<◌, ◌≡◌, refl, sym, ap, ◌∙◌, true, false, ◌||◌, List, [], ◌∷◌, ◌++◌, append-nil,
  append_assoc, arith, length, length-append, lt→ltb, take, if◌then◌else◌, Bool-cases, inl, inr,
}
use hust_network_programming.CText.{Bytes, codes, str_eq, str_eq_iff, before, before_all}
use hust_network_programming.CText.Decimal.{decimal}
use hust_network_programming.CText.Scan.{word, IsWord, is_nul, word_all}
use hust_network_programming.Outcome.{Outcome, done, undefined, fit-done}
use hust_network_programming.TftpClient.Download.{take_all}
use hust_network_programming.PeerServer.{
  places, is_known, add_name, add_word, handle_reg, put_names, list_reply,
}

abbrev pub reg_message : Bytes → Bytes
reg_message name = codes "REG " ++ name

abbrev pub handle_regs : List Bytes → Outcome (List Bytes) → Outcome (List Bytes)
handle_regs names undefined = undefined
handle_regs [] (done clients) = done clients
handle_regs (name ∷ names) (done clients) =
    handle_regs names (handle_reg (reg_message name) clients)

-- The names of a list that are not in another.
unfoldable pub without : List Bytes → List Bytes → List Bytes
without known [] = []
without known (name ∷ names) =
    let rest = without known names in if is_known name known then rest else name ∷ rest

-- The names of a list other than this one.
unfoldable pub others : Bytes → List Bytes → List Bytes
others name [] = []
others name (n ∷ names) = let rest = others name names in if str_eq n name then rest else n ∷ rest

str_eq_comm : (a b : Bytes) → str_eq a b ≡ str_eq b a
str_eq_comm a b = ground (arith, str_eq_iff a b, str_eq_iff b a)

without-others : (name : Bytes) (names : List Bytes) → without (name ∷ []) names ≡ others name names
unfolding without others is_known
without-others name [] = refl
without-others name (n ∷ names) = elim (Bool-cases (str_eq n name)) [
  | inl e ↦ rw (str_eq_comm name n, e) (without-others name names)
  | inr e ↦ rw (str_eq_comm name n, e) (ap (λ t. n ∷ t) (without-others name names))
]

-- The reference: every name once, where it stands first.
unfoldable pub firsts : List Bytes → List Bytes
firsts [] = []
firsts (name ∷ names) = name ∷ others name (firsts names)

abbrev pub AllNames : List Bytes → Type 0
AllNames [] = Unit
AllNames (name ∷ names) = IsWord name 1024 × AllNames names

handle_reg_lem :
    (name : Bytes) (clients : List Bytes)
    → IsWord name 1024
    → handle_reg (reg_message name) clients ≡ add_name name clients
unfolding handle_reg codes
handle_reg_lem name clients h =
    let fits = h.fits in
    let text : before is_nul (take 65531 name) ≡ name =
      ap (before is_nul) (take_all 65531 name (omega (arith, fits)))
      ∙ before_all is_nul name h.no_nul in
    ap (λ t. add_word (word 1024 t) clients) text
    ∙ ap (λ o. add_word o clients) (word_all 1024 name h)

without-known :
    (clients : List Bytes) (name : Bytes) (names : List Bytes)
    → is_known name clients ≡ true
    → without clients (without (name ∷ []) names) ≡ without clients names
unfolding without is_known
without-known clients name [] h = refl
without-known clients name (n ∷ names) h = elim (Bool-cases (str_eq name n)) [
  | inl e ↦
      let known : is_known n clients ≡ true =
        ap (λ m. is_known m clients) (sym ((str_eq_iff name n).0 e)) ∙ h in
      rw (e, known) (without-known clients name names h)
  | inr e ↦ rw e (elim (Bool-cases (is_known n clients)) [
    | inl k ↦ rw k (without-known clients name names h)
    | inr k ↦ rw k (ap (λ t. n ∷ t) (without-known clients name names h))
  ])
]

is_known-append :
    (n : Bytes) (clients : List Bytes) (name : Bytes)
    → is_known n (clients ++ name ∷ []) ≡ (is_known n clients || str_eq name n)
unfolding is_known
is_known-append n [] name = elim (Bool-cases (str_eq name n)) [
  | inl e ↦ rw e refl
  | inr e ↦ rw e refl
]
is_known-append n (c ∷ clients) name = elim (Bool-cases (str_eq c n)) [
  | inl e ↦ rw e refl
  | inr e ↦ rw e (is_known-append n clients name)
]

without-append :
    (clients : List Bytes) (name : Bytes) (names : List Bytes)
    → without (clients ++ name ∷ []) names ≡ without clients (without (name ∷ []) names)
unfolding without is_known
without-append clients name [] = refl
without-append clients name (n ∷ names) =
    rw (is_known-append n clients name) (elim (Bool-cases (str_eq name n)) [
      | inl e ↦ elim (Bool-cases (is_known n clients)) [
        | inl k ↦ rw (e, k) (without-append clients name names)
        | inr k ↦ rw (e, k) (without-append clients name names)
      ]
      | inr e ↦ elim (Bool-cases (is_known n clients)) [
        | inl k ↦ rw (e, k) (without-append clients name names)
        | inr k ↦ rw (e, k) (ap (λ t. n ∷ t) (without-append clients name names))
      ]
    ])

add_name-known :
    (name : Bytes) (clients : List Bytes)
    → is_known name clients ≡ true
    → add_name name clients ≡ done clients
unfolding add_name
add_name-known name clients e = rw e refl

add_name-new :
    (name : Bytes) (clients : List Bytes)
    → is_known name clients ≡ false
    → length clients < places
    → add_name name clients ≡ done (clients ++ name ∷ [])
unfolding add_name
add_name-new name clients e room = rw (e, lt→ltb (length clients) places room) refl

handle_regs-without :
    (names clients : List Bytes)
    → AllNames names
    → length clients + length names ≤ places
    → handle_regs names (done clients) ≡ done (clients ++ without clients (firsts names))
unfolding firsts without
handle_regs-without [] clients h room = ap done (sym (append-nil clients))
handle_regs-without (name ∷ names) clients h room =
    ap (handle_regs names) (handle_reg_lem name clients h.0)
    ∙ rw (sym (without-others name (firsts names))) (elim (Bool-cases (is_known name clients)) [
      | inl e ↦
          ap (handle_regs names) (add_name-known name clients e)
          ∙ handle_regs-without names clients h.1 (omega (arith, room))
          ∙ rw e (ap (λ t. done (clients ++ t)) (sym (without-known clients name (firsts names) e)))
      | inr e ↦
          let longer : length (clients ++ name ∷ []) ≡ length clients + 1 =
            length-append clients (name ∷ []) in
          ap (handle_regs names) (add_name-new name clients e (omega (arith, room)))
          ∙ handle_regs-without names (clients ++ name ∷ []) h.1 (omega (arith, room, longer))
          ∙ ap (λ t. done ((clients ++ name ∷ []) ++ t))
              (without-append clients name (firsts names))
          ∙ rw e (
              ap done (
                append_assoc clients (name ∷ [])
                  (without clients (without (name ∷ []) (firsts names)))))
    ])

without-nil : (names : List Bytes) → without [] names ≡ names
unfolding without is_known
without-nil [] = refl
without-nil (name ∷ names) = ap (λ t. name ∷ t) (without-nil names)

-- Every name behind a space.
unfoldable pub listing : List Bytes → Bytes
listing [] = []
listing (name ∷ names) = b' ' ∷ (name ++ listing names)

put_names-listing :
    (text : Bytes) (names : List Bytes)
    → length (text ++ listing names) < 65536
    → put_names (done text) names ≡ done (text ++ listing names)
unfolding put_names listing
put_names-listing text [] h = ap done (sym (append-nil text))
put_names-listing text (name ∷ names) h =
    let same : (text ++ (b' ' ∷ name)) ++ listing names ≡ text ++ (b' ' ∷ (name ++ listing names)) =
      append_assoc text (b' ' ∷ name) (listing names) in
    let whole : length ((text ++ (b' ' ∷ name)) ++ listing names) < 65536 = rw same h in
    let parts = length-append (text ++ (b' ' ∷ name)) (listing names) in
    ap (λ o. put_names o names)
      (fit-done 65536 (text ++ (b' ' ∷ name)) (omega (arith, whole, parts)))
    ∙ put_names-listing (text ++ (b' ' ∷ name)) names whole
    ∙ ap done same

-- When at most 1024 words of less than 1024 characters are registered one after the other at a server without
-- names, the server has every name once, in the order of the first registrations. When the text of the reply
-- has less than 65536 characters, the reply to LIST is the number of these names and then each of them behind a space.
pub handle_regs-list_reply :
    (names : List Bytes)
    → AllNames names
    → length names ≤ places
    → length ((codes "LIST " ++ decimal (length (firsts names))) ++ listing (firsts names)) < 65536
    → (handle_regs names (done []) ≡ done (firsts names))
      × (list_reply (firsts names)
          ≡ done ((codes "LIST " ++ decimal (length (firsts names))) ++ listing (firsts names)))
unfolding list_reply
handle_regs-list_reply names h room small =
    let head = codes "LIST " ++ decimal (length (firsts names)) in
    let parts = length-append head (listing (firsts names)) in
    (
      handle_regs-without names [] h (omega (arith, room)) ∙ ap done (without-nil (firsts names)),
      ap (λ o. put_names o (firsts names)) (fit-done 65536 head (omega (arith, small, parts)))
          ∙ put_names-listing head (firsts names) small,
    )
