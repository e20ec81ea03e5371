-- ===== src/UdpFileClient/Requests.antt =====
-- The offer of a file and its answer, between two clients of udp_file_client.c.
use hust_network_programming.Base.{
  ℕ, ◌^◌, ◌<◌, ◌≡◌, ◌≢◌, refl, sym, ap, ◌∙◌, true, false, [], ◌∷◌, ◌++◌, append-nil, none, some,
  arith, length, length-append, if◌then◌else◌, pos, Bool-cases, inl, inr,
}
use hust_network_programming.CText.{Bytes, codes, str_eq, str_eq_iff, None, None-append}
use hust_network_programming.CText.Decimal.{
  decimal, scan_int, scan_int-decimal, None-decimal, length-decimal,
}
use hust_network_programming.CText.Scan.{
  digit_no_nul, IsWord, is_nul, word-space, scan_int-space, word-append,
}
use hust_network_programming.Outcome.{done, fit-done, ◌>>?◌}
use hust_network_programming.UdpRegistry.{text_of}
use hust_network_programming.UdpFileClient.{
  SendRequest, send_message, scan_request, parse_send, accepts, response_text, parse_response,
}
use hust_network_programming.UdpFileClient.Listing.{text_of_lem}

-- The text behind the keyword.
abbrev pub offer_text : Bytes → Bytes → Bytes → ℕ → Bytes
offer_text filename target me port =
    filename ++ (b' ' ∷ (target ++ (b' ' ∷ (me ++ (b' ' ∷ decimal port)))))

abbrev pub offer : Bytes → Bytes → Bytes → ℕ → SendRequest
offer filename target me port = record {
  filename = filename;
  target_name = target;
  sender_name = me;
  sender_port = pos port;
}

scan_port : (port : ℕ) → port < 2 ^ 31 → scan_int (b' ' ∷ decimal port) ≡ done (some (pos port, []))
scan_port port h =
    scan_int-space (decimal port)
    ∙ ap scan_int (sym (append-nil (decimal port)))
    ∙ scan_int-decimal port [] h tt

scan_request-offer_text :
    (filename target me : Bytes) (port : ℕ)
    → IsWord filename 256
    → IsWord target 64
    → IsWord me 64
    → port < 2 ^ 31
    → scan_request (offer_text filename target me port)
      ≡ done (some (offer filename target me port))
unfolding scan_request
scan_request-offer_text filename target me port f t m small =
    rw (word-append 256 filename (target ++ (b' ' ∷ (me ++ (b' ' ∷ decimal port)))) f) (
      rw (word-space 64 (target ++ (b' ' ∷ (me ++ (b' ' ∷ decimal port))))) (
        rw (word-append 64 target (me ++ (b' ' ∷ decimal port)) t) (
          rw (word-space 64 (me ++ (b' ' ∷ decimal port)))
            (rw (word-append 64 me (decimal port) m) (rw (scan_port port small) refl)))))

length-offer_text :
    (filename target me : Bytes) (port : ℕ)
    → IsWord filename 256
    → IsWord target 64
    → IsWord me 64
    → port < 2 ^ 16
    → length (offer_text filename target me port) < 507
length-offer_text filename target me port f t m small =
    let f_fits = f.fits in
    let t_fits = t.fits in
    let m_fits = m.fits in
    omega (
      arith,
      f_fits,
      t_fits,
      m_fits,
      length-append filename (b' ' ∷ (target ++ (b' ' ∷ (me ++ (b' ' ∷ decimal port))))),
      length-append target (b' ' ∷ (me ++ (b' ' ∷ decimal port))),
      length-append me (b' ' ∷ decimal port),
      length-decimal port 4 (omega arith),
    )

None-offer_text :
    (filename target me : Bytes) (port : ℕ)
    → IsWord filename 256
    → IsWord target 64
    → IsWord me 64
    → None is_nul (offer_text filename target me port)
None-offer_text filename target me port f t m =
    None-append is_nul filename (b' ' ∷ (target ++ (b' ' ∷ (me ++ (b' ' ∷ decimal port))))) f.no_nul
      (
        refl,
        None-append is_nul target (b' ' ∷ (me ++ (b' ' ∷ decimal port))) t.no_nul (
          refl,
          None-append is_nul me (b' ' ∷ decimal port) m.no_nul
              (refl, None-decimal is_nul digit_no_nul port),
        ),
      )

send_message_lem :
    (filename target me : Bytes) (port : ℕ)
    → length (offer_text filename target me port) < 507
    → send_message filename target me port
      ≡ done (codes "SEND " ++ offer_text filename target me port)
unfolding send_message codes
send_message_lem filename target me port short =
    fit-done 512 (codes "SEND " ++ offer_text filename target me port) (omega arith)

text_of-offer_text :
    (s : Bytes)
    → None is_nul s
    → length s < 507
    → text_of (codes "SEND " ++ s) ≡ done (codes "SEND " ++ s)
unfolding codes
text_of-offer_text s h short =
    text_of_lem (codes "SEND " ++ s) (refl, (refl, (refl, (refl, (refl, h))))) (omega arith)

parse_send-offer_text : (s : Bytes) → parse_send (codes "SEND " ++ s) ≡ scan_request s
unfolding parse_send codes str_eq
parse_send-offer_text s = refl

str_eq_self : (s : Bytes) → str_eq s s ≡ true
str_eq_self s = (str_eq_iff s s).1 refl

str_eq_other : (s t : Bytes) → s ≢ t → str_eq s t ≡ false
str_eq_other s t ne = elim (Bool-cases (str_eq s t)) [
  | inl e ↦ absurd (ne ((str_eq_iff s t).0 e))
  | inr e ↦ e
]

any_address : IsWord (codes "0.0.0.0") 16
unfolding codes
any_address = record {
  nonempty = λ e. cc e;
  no_space = (refl, (refl, (refl, (refl, (refl, (refl, (refl, tt)))))));
  no_nul = (refl, (refl, (refl, (refl, (refl, (refl, (refl, tt)))))));
  fits = omega arith;
}

-- The answer names the address 0.0.0.0.
parse_response-response_text :
    (from_ip : Bytes) (port : ℕ)
    → port < 2 ^ 31
    → parse_response from_ip (response_text port) ≡ done (some (from_ip, pos port))
unfolding parse_response response_text codes str_eq
parse_response-response_text from_ip port small =
    ap
      (λ w. w >>? λ (ip, s1). scan_int s1 >>? λ (p, _).
        done (some ((if str_eq ip (codes "0.0.0.0") then from_ip else ip), p)))
      (word-append 16 (codes "0.0.0.0") (decimal port) any_address)
    ∙ ap (λ w. w >>? λ (p, _). done (some (from_ip, p))) (scan_port port small)

-- A client offers a file to another, with names that are words of fewer than 256 and 64 bytes and a port below 2^16:
-- the message fits its array, the client with the target's name takes it with the four parts that were put in, a client
-- with another name does not take it, and the answer of the one that does is read as the address it was sent from and
-- the port that it listens on.
pub parse_send-send_message :
    (filename target me other from_ip : Bytes) (port my_port : ℕ)
    → IsWord filename 256
    → IsWord target 64
    → IsWord me 64
    → target ≢ other
    → port < 2 ^ 16
    → my_port < 2 ^ 16
    → (message : Bytes) × (send_message filename target me port ≡ done message)
      × (text_of message ≡ done message)
      × (accepts target (parse_send message) ≡ done (some (offer filename target me port)))
      × (accepts other (parse_send message) ≡ done none)
      × (parse_response from_ip (response_text my_port) ≡ done (some (from_ip, pos my_port)))
unfolding accepts
parse_send-send_message filename target me other from_ip port my_port f t m ne small my_small =
    let short = length-offer_text filename target me port f t m small in
    let read =
      parse_send-offer_text (offer_text filename target me port)
      ∙ scan_request-offer_text filename target me port f t m (omega arith) in
    (
      codes "SEND " ++ offer_text filename target me port,
      send_message_lem filename target me port short,
      text_of-offer_text (offer_text filename target me port)
          (None-offer_text filename target me port f t m) short,
      rw read (rw (str_eq_self target) refl),
      rw read (rw (str_eq_other target other ne) refl),
      parse_response-response_text from_ip my_port (omega arith),
    )
