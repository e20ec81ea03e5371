-- ===== src/UdpRegistry.antt =====
-- assignment/udp_file_server.c: the registry of clients, which one thread fills and one lists. Each
-- holds the mutex while it uses the table, so it is one step. What is printed is left out.
pub mod Lookup
use hust_network_programming.Base.{
  ℕ, ◌-◌, Bool, true, false, List, [], ◌∷◌, ◌++◌, Option, none, some, ltb, leb, ◌==◌, length, take,
  drop, if◌then◌else◌,
}
use hust_network_programming.CText.{Bytes, codes, str_eq, before, scan_word}
use hust_network_programming.CText.Decimal.{decimal}
use hust_network_programming.Outcome.{Outcome, done, undefined, fit}

abbrev pub max_clients : ℕ
max_clients = 100

abbrev pub buffer_size : ℕ
buffer_size = 1024

pub record Client : Type 0 where
  pub name : Bytes
  pub ip : Bytes

-- The loop that updates the first client of the name; `none` where it finds none.
unfoldable pub update : Bytes → Bytes → List Client → Option (List Client)
update name ip [] = none
update name ip (c ∷ cs) =
    let rest = update name ip cs in
    if str_eq c.name name
    then some (record c { ip = ip } ∷ cs)
    else elim rest [ none ↦ none | some ds ↦ some (c ∷ ds) ]

abbrev pub updated_or_added : Bytes → Bytes → List Client → Option (List Client) → List Client
updated_or_added name ip cs (some ds) = ds
updated_or_added name ip cs none =
    if ltb (length cs) max_clients then cs ++ record { name = name; ip = ip } ∷ [] else cs

-- The part of a registration that holds the mutex.
unfoldable pub enter : Bytes → Bytes → List Client → List Client
enter name ip cs = updated_or_added name ip cs (update name ip cs)

-- The text of the buffer, with the zero behind it; a datagram that fills it has no room for one.
unfoldable pub text_of : Bytes → Outcome Bytes
text_of datagram =
    if ltb (length datagram) buffer_size then done (before (λ c. c == 0) datagram) else undefined

-- Without a word `client_name` stays uninitialised.
abbrev pub name_of : Bytes → Outcome Bytes
name_of [] = undefined
name_of (c ∷ s) = fit 64 (c ∷ s)

abbrev pub enter_named : Outcome Bytes → Bytes → List Client → Outcome (List Client)
enter_named undefined ip cs = undefined
enter_named (done name) ip cs = done (enter name ip cs)

-- A registration: a datagram that begins with "REG ", and the address that it came from.
abbrev pub register_text : Outcome Bytes → Bytes → List Client → Outcome (List Client)
register_text undefined ip cs = undefined
register_text (done text) ip cs =
    if str_eq (take 4 text) (codes "REG ")
    then enter_named (name_of (scan_word (drop 4 text)).0) ip cs
    else done cs

-- The body of the registration loop; an empty datagram is passed over.
unfoldable pub handle_registration : Bytes → Bytes → List Client → Outcome (List Client)
handle_registration [] ip cs = done cs
handle_registration (c ∷ s) ip cs = register_text (text_of (c ∷ s)) ip cs

abbrev pub entry : Client → Bytes
entry c = b' ' ∷ (c.name ++ (b' ' ∷ c.ip))

abbrev pub append_entry : Outcome Bytes → Outcome Bytes → Outcome Bytes
append_entry (done response) (done text) = fit buffer_size (response ++ text)
append_entry _ _ = undefined

-- The loop that puts the entries behind one another, each in an array of 128 bytes.
unfoldable pub list_entries : Outcome Bytes → List Client → Outcome Bytes
list_entries response [] = response
list_entries response (c ∷ cs) = list_entries (append_entry response (fit 128 (entry c))) cs

abbrev pub reply : Outcome Bytes → Outcome (Option Bytes)
reply undefined = undefined
reply (done response) = done (some response)

abbrev pub list_text : Outcome Bytes → List Client → Outcome (Option Bytes)
list_text undefined cs = undefined
list_text (done text) cs =
    if str_eq text (codes "LIST")
    then reply (list_entries (done (codes "LIST " ++ decimal (length cs))) cs)
    else done none

-- The body of the loop for LIST: what is sent back, if anything is.
unfoldable pub handle_list_request : Bytes → List Client → Outcome (Option Bytes)
handle_list_request [] cs = done none
handle_list_request (c ∷ s) cs = list_text (text_of (c ∷ s)) cs
