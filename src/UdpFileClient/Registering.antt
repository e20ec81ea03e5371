-- ===== src/UdpFileClient/Registering.antt =====
-- A client of udp_file_client.c that registers at udp_file_server.c, and then asks for the list.
use hust_network_programming.Base.{
  ℕ, suc, ◌+◌, ◌≤◌, ◌<◌, ◌≡◌, refl, ap, ◌∙◌, List, [], ◌∷◌, ◌++◌, some, arith, length,
  length-append, ltb, Option-cases, inl, inr, Bool-cases,
}
use hust_network_programming.CText.{Bytes, codes, str_eq, is_space, None}
use hust_network_programming.CText.Decimal.{None-decimal, length-decimal}
use hust_network_programming.CText.Scan.{
  digit_no_space, digit_no_nul, IsWord, is_nul, scan_word_all,
}
use hust_network_programming.Outcome.{done, fit-done}
use hust_network_programming.UdpRegistry.{
  Client, handle_list_request, handle_registration, enter, update, text_of, name_of, max_clients,
  register_text, enter_named,
}
use hust_network_programming.UdpRegistry.Lookup.{find, find-enter}
use hust_network_programming.UdpFileClient.{client_name, register_message, get_client_list}
use hust_network_programming.UdpFileClient.Listing.{
  IsEntry, AllEntries, text_of_lem, text_of-reply_text, handle_list_request_lem,
  get_client_list-reply_text, reply_text,
}

client_name-IsWord : (random : ℕ) → random < 10000 → IsWord (client_name random) 64
unfolding client_name codes
client_name-IsWord random h = record {
  nonempty = λ e. cc e;
  no_space =
      (refl, (refl, (refl, (refl, (refl, (refl, None-decimal is_space digit_no_space random))))));
  no_nul = (refl, (refl, (refl, (refl, (refl, (refl, None-decimal is_nul digit_no_nul random))))));
  fits = omega (arith, length-decimal random 3 h);
}

name_of-IsWord : (w : Bytes) → IsWord w 64 → name_of w ≡ done w
name_of-IsWord [] h = absurd (h.nonempty refl)
name_of-IsWord (c ∷ w) h = fit-done 64 (c ∷ w) h.fits

-- The message of a name is taken as its registration.
pub handle_registration_lem :
    (name ip : Bytes) (cs : List Client)
    → IsWord name 64
    → handle_registration (register_message name) ip cs ≡ done (enter name ip cs)
unfolding handle_registration register_message codes str_eq
handle_registration_lem name ip cs h =
    let no_nul : None is_nul (codes "REG " ++ name) = (refl, (refl, (refl, (refl, h.no_nul)))) in
    let fits = h.fits in
    ap (λ t. register_text t ip cs) (text_of_lem (codes "REG " ++ name) no_nul (omega arith))
    ∙ ap (λ (w : Bytes × Bytes). enter_named (name_of w.0) ip cs) (scan_word_all name h)
    ∙ ap (λ n. enter_named n ip cs) (name_of-IsWord name h)

update-AllEntries :
    (name ip : Bytes) (cs ds : List Client)
    → IsWord ip 16
    → AllEntries cs
    → update name ip cs ≡ some ds
    → AllEntries ds × (length ds ≡ length cs)
unfolding update
update-AllEntries name ip [] ds w h e = cc e
update-AllEntries name ip (c ∷ cs) ds w h e = elim (Bool-cases (str_eq c.name name)) [
  | inl same ↦
      let new : ds ≡ record c { ip = ip } ∷ cs = ground (arith, e) in
      rw new ((record { name_word = h.0.name_word; ip_word = w }, h.1), refl)
  | inr other ↦ elim (Option-cases (update name ip cs)) [
    | inl n ↦ ground arith
    | inr (es, f) ↦
        let new : ds ≡ c ∷ es = ground (arith, e) in
        let (all, len) = update-AllEntries name ip cs es w h.1 f in rw new ((h.0, all), ap suc len)
  ]
]

AllEntries-append :
    (cs : List Client) (c : Client) → AllEntries cs → IsEntry c → AllEntries (cs ++ c ∷ [])
AllEntries-append [] c h e = (e, tt)
AllEntries-append (d ∷ cs) c h e = (h.0, AllEntries-append cs c h.1 e)

enter-AllEntries :
    (name ip : Bytes) (cs : List Client)
    → IsWord name 64
    → IsWord ip 16
    → AllEntries cs
    → AllEntries (enter name ip cs) × (length (enter name ip cs) ≤ length cs + 1)
unfolding enter
enter-AllEntries name ip cs n w h = elim (Option-cases (update name ip cs)) [
  | inl f ↦ rw f (elim (Bool-cases (ltb (length cs) max_clients)) [
    | inl room ↦ rw room (
      AllEntries-append cs (record { name = name; ip = ip }) h
          (record { name_word = n; ip_word = w }),
      omega (arith, length-append cs (record { name = name; ip = ip } ∷ [])),
    )
    | inr full ↦ rw full (h, omega arith)
  ])
  | inr (ds, f) ↦ let (all, len) = update-AllEntries name ip cs ds w h f in rw f (all, omega arith)
]

-- A client that registers with a random number below 10000, from an address of fewer than 16 bytes
-- without white space, is known at the registry under its name and that address; and the reply to LIST, which
-- any client then gets, is read as exactly the table of the registry, in its order. The registry
-- had at most 11 clients, with names and addresses of such a form.
pub get_client_list-handle_registration :
    (random : ℕ) (ip : Bytes) (cs : List Client)
    → random < 10000
    → IsWord ip 16
    → AllEntries cs
    → length cs ≤ 11
    → (cs' : List Client) × (response : Bytes) × (handle_registration
          (register_message (client_name random))
          ip
          cs
        ≡ done cs')
      × (find (client_name random) cs' ≡ some ip)
      × (handle_list_request (codes "LIST") cs' ≡ done (some response))
      × (text_of response ≡ done response)
      × (get_client_list response ≡ done cs')
get_client_list-handle_registration random ip cs small w h few =
    let name = client_name random in
    let named = client_name-IsWord random small in
    let (all, len) = enter-AllEntries name ip cs named w h in
    (
      enter name ip cs,
      reply_text (enter name ip cs),
      handle_registration_lem name ip cs named,
      find-enter name ip cs (λ _. omega arith),
      handle_list_request_lem (enter name ip cs) all (omega (arith, len)),
      text_of-reply_text (enter name ip cs) all (omega (arith, len)),
      get_client_list-reply_text (enter name ip cs) all (omega (arith, len)),
    )
