-- ===== src/UdpFileClient/Listing.antt =====
-- The list of clients that udp_file_client.c reads from a reply of udp_file_server.c.
use hust_network_programming.Base.{
  ◌+◌, ◌*◌, ◌^◌, ◌≤◌, ◌<◌, ◌≡◌, refl, sym, ap, ◌∙◌, false, List, [], ◌∷◌, ◌++◌, append_assoc,
  append-nil, Option, none, some, arith, length, length-append, lt→ltb, ◌==◌, pos,
}
use hust_network_programming.CText.{
  Bytes, codes, str_eq, strchr, before_all, is_space, None, None-append,
}
use hust_network_programming.CText.Decimal.{
  decimal, scan_int-decimal, None-decimal, length-decimal, Ends,
}
use hust_network_programming.CText.Scan.{
  word, IsWord, is_nul, word-space, scan_int-space, word-append, word_all, digit_no_space,
  digit_no_nul,
}
use hust_network_programming.Outcome.{done, fit-done}
use hust_network_programming.UdpRegistry.{
  Client, buffer_size, entry, list_entries, handle_list_request, text_of, reply,
}
use hust_network_programming.UdpFileClient.{
  behind, behind_two, with_client, client_round, counted, scan_client, show_clients, scan_count,
  get_client_list,
}

pub record IsEntry (c : Client) : Type 0 where
  pub name_word : IsWord c.name 64
  pub ip_word : IsWord c.ip 16

abbrev pub AllEntries : List Client → Type 0
AllEntries [] = Unit
AllEntries (c ∷ cs) = IsEntry c × AllEntries cs

-- The entries of the reply, one behind another.
abbrev pub entries : List Client → Bytes
entries [] = []
entries (c ∷ cs) = b' ' ∷ (c.name ++ (b' ' ∷ (c.ip ++ entries cs)))

-- Where the pointer of the loop stands before the entries of some clients.
abbrev pointer : List Client → Option Bytes
pointer [] = none
pointer (c ∷ cs) = some (c.name ++ (b' ' ∷ (c.ip ++ entries cs)))

strchr-word :
    (w rest : Bytes) → None is_space w → strchr b' ' (w ++ (b' ' ∷ rest)) ≡ some (b' ' ∷ rest)
strchr-word [] rest h = refl
strchr-word (c ∷ w) rest h =
    let other : (c == b' ') ≡ false = ground (arith, h.0) in rw other (strchr-word w rest h.1)

strchr-none : (w : Bytes) → None is_space w → strchr b' ' w ≡ none
strchr-none [] h = refl
strchr-none (c ∷ w) h =
    let other : (c == b' ') ≡ false = ground (arith, h.0) in rw other (strchr-none w h.1)

behind-entries :
    (w : Bytes) (cs : List Client)
    → None is_space w
    → behind (strchr b' ' (w ++ entries cs)) ≡ pointer cs
behind-entries w [] h =
    ap (λ t. behind (strchr b' ' t)) (append-nil w) ∙ ap behind (strchr-none w h)
behind-entries w (c ∷ cs) h = ap behind (strchr-word w (c.name ++ (b' ' ∷ (c.ip ++ entries cs))) h)

word-entries :
    (w : Bytes) (cs : List Client)
    → IsWord w 16
    → word 16 (w ++ entries cs) ≡ done (some (w, entries cs))
word-entries w [] h = ap (word 16) (append-nil w) ∙ word_all 16 w h
word-entries w (c ∷ cs) h = word-append 16 w (c.name ++ (b' ' ∷ (c.ip ++ entries cs))) h

scan_client-entries :
    (c : Client) (cs : List Client)
    → IsEntry c
    → scan_client (c.name ++ (b' ' ∷ (c.ip ++ entries cs))) ≡ done (some (c, entries cs))
unfolding scan_client
scan_client-entries c cs h =
    rw (word-append 64 c.name (c.ip ++ entries cs) h.name_word)
      (rw (word-space 16 (c.ip ++ entries cs)) (rw (word-entries c.ip cs h.ip_word) refl))

behind_two-entries :
    (c : Client) (cs : List Client)
    → IsEntry c
    → behind_two (c.name ++ (b' ' ∷ (c.ip ++ entries cs))) ≡ done (pointer cs)
behind_two-entries c cs h =
    rw (strchr-word c.name (c.ip ++ entries cs) h.name_word.no_space)
      (ap done (behind-entries c.ip cs h.ip_word.no_space))

show_clients_lem :
    (cs : List Client) → AllEntries cs → show_clients (length cs) (done (pointer cs)) ≡ done cs
unfolding show_clients
show_clients_lem [] h = refl
show_clients_lem (c ∷ cs) h =
    ap (client_round (show_clients (length cs)) (c.name ++ (b' ' ∷ (c.ip ++ entries cs))))
      (scan_client-entries c cs h.0)
    ∙ ap (λ p. with_client c (show_clients (length cs) p)) (behind_two-entries c cs h.0)
    ∙ ap (with_client c) (show_clients_lem cs h.1)

-- The text of a reply.
abbrev pub reply_text : List Client → Bytes
reply_text cs = codes "LIST " ++ (decimal (length cs) ++ entries cs)

entries-Ends : (cs : List Client) → Ends (entries cs)
entries-Ends [] = tt
entries-Ends (c ∷ cs) = refl

scan_count-reply_text :
    (cs : List Client)
    → length cs < 2 ^ 31
    → scan_count (reply_text cs) ≡ done (some (pos (length cs), entries cs))
unfolding scan_count codes str_eq
scan_count-reply_text cs small =
    scan_int-space (decimal (length cs) ++ entries cs)
    ∙ scan_int-decimal (length cs) (entries cs) small (entries-Ends cs)

behind_two-reply_text : (cs : List Client) → behind_two (reply_text cs) ≡ done (pointer cs)
unfolding codes
behind_two-reply_text cs =
    ap done
      (behind-entries (decimal (length cs)) cs (None-decimal is_space digit_no_space (length cs)))

pub get_client_list-reply_text :
    (cs : List Client)
    → AllEntries cs
    → length cs < 2 ^ 31
    → get_client_list (reply_text cs) ≡ done cs
unfolding get_client_list
get_client_list-reply_text cs h small =
    ap (counted (reply_text cs)) (scan_count-reply_text cs small)
    ∙ ap (show_clients (length cs)) (behind_two-reply_text cs)
    ∙ show_clients_lem cs h

-- The server's loop puts all entries behind the text, while there is room for 80 bytes each.
list_entries_lem :
    (cs : List Client) (text : Bytes)
    → AllEntries cs
    → length text + 80 * length cs < buffer_size
    → list_entries (done text) cs ≡ done (text ++ entries cs)
unfolding list_entries
list_entries_lem [] text h room = ap done (sym (append-nil text))
list_entries_lem (c ∷ cs) text h room =
    let name_fits = h.0.name_word.fits in
    let ip_fits = h.0.ip_word.fits in
    let size : length (entry c) < 81 =
      omega (arith, length-append c.name (b' ' ∷ c.ip), name_fits, ip_fits) in
    let longer = length-append text (entry c) in
    rw (fit-done 128 (entry c) (omega arith)) (
      rw (fit-done buffer_size (text ++ entry c) (omega (arith, longer))) (
        list_entries_lem cs (text ++ entry c) h.1 (omega (arith, longer))
        ∙ ap done (
            append_assoc text (entry c) (entries cs)
            ∙ ap (λ t. text ++ (b' ' ∷ t)) (append_assoc c.name (b' ' ∷ c.ip) (entries cs)))))

None-entries : (cs : List Client) → AllEntries cs → None is_nul (entries cs)
None-entries [] h = tt
None-entries (c ∷ cs) h = (
  refl,
  None-append is_nul c.name (b' ' ∷ (c.ip ++ entries cs)) h.0.name_word.no_nul
      (refl, None-append is_nul c.ip (entries cs) h.0.ip_word.no_nul (None-entries cs h.1)),
)

length-entries : (cs : List Client) → AllEntries cs → length (entries cs) ≤ 80 * length cs
length-entries [] h = omega arith
length-entries (c ∷ cs) h =
    let name_fits = h.0.name_word.fits in
    let ip_fits = h.0.ip_word.fits in
    omega (
      arith,
      length-append c.name (b' ' ∷ (c.ip ++ entries cs)),
      length-append c.ip (entries cs),
      length-entries cs h.1,
      name_fits,
      ip_fits,
    )

-- A received text without a zero that leaves room for one is taken whole.
pub text_of_lem : (s : Bytes) → None is_nul s → length s < buffer_size → text_of s ≡ done s
unfolding text_of
text_of_lem s h short = rw (lt→ltb (length s) buffer_size short) (ap done (before_all is_nul s h))

list_no_nul : None is_nul (codes "LIST ")
unfolding codes
list_no_nul = (refl, (refl, (refl, (refl, (refl, tt)))))

length-list : length (codes "LIST ") ≡ 5
unfolding codes
length-list = refl

pub text_of-reply_text :
    (cs : List Client)
    → AllEntries cs
    → length cs ≤ 12
    → text_of (reply_text cs) ≡ done (reply_text cs)
text_of-reply_text cs h few =
    text_of_lem (reply_text cs)
      (None-append is_nul (codes "LIST ") (decimal (length cs) ++ entries cs) list_no_nul (
        None-append is_nul (decimal (length cs)) (entries cs)
          (None-decimal is_nul digit_no_nul (length cs)) (None-entries cs h)))
      (omega (
        arith,
        length-list,
        length-append (codes "LIST ") (decimal (length cs) ++ entries cs),
        length-append (decimal (length cs)) (entries cs),
        length-decimal (length cs) 1 (omega arith),
        length-entries cs h,
      ))

pub handle_list_request_lem :
    (cs : List Client)
    → AllEntries cs
    → length cs ≤ 12
    → handle_list_request (codes "LIST") cs ≡ done (some (reply_text cs))
unfolding handle_list_request codes text_of str_eq
handle_list_request_lem cs h few = ap reply (
    list_entries_lem cs (codes "LIST " ++ decimal (length cs)) h (
      omega (
        arith,
        length-append (codes "LIST ") (decimal (length cs)),
        length-list,
        length-decimal (length cs) 1 (omega arith),
      ))
    ∙ ap done (append_assoc (codes "LIST ") (decimal (length cs)) (entries cs)))
