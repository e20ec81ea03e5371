-- ===== src/PeerServer.antt =====
-- np/np15_server.c: the directory of peers. The parent registers names and, at the signal of the child that
-- receives LIST, puts the names into the reply. The processes, the signal and what is printed are left out.
pub mod Names
mod Tests
use hust_network_programming.Base.{
  ℕ, Bool, true, false, ◌&&◌, List, [], ◌∷◌, ◌++◌, Option, none, some, ltb, length, take, drop,
  if◌then◌else◌,
}
use hust_network_programming.CText.{Bytes, codes, str_eq, before}
use hust_network_programming.CText.Decimal.{decimal}
use hust_network_programming.CText.Scan.{word, is_nul}
use hust_network_programming.CText.Search.{starts_with}
use hust_network_programming.Outcome.{Outcome, done, undefined, fit}

-- The places of `g_clients`.
abbrev pub places : ℕ
places = 1024

-- The loop that looks for a name.
unfoldable pub is_known : Bytes → List Bytes → Bool
is_known name [] = false
is_known name (c ∷ clients) =
    let later = is_known name clients in if str_eq c name then true else later

unfoldable pub add_name : Bytes → List Bytes → Outcome (List Bytes)
add_name name clients =
    if is_known name clients
    then done clients
    else if ltb (length clients) places
    then done (clients ++ name ∷ [])
    else undefined

abbrev pub add_word : Outcome (Option (Bytes × Bytes)) → List Bytes → Outcome (List Bytes)
add_word undefined clients = undefined
add_word (done none) clients = add_name [] clients
add_word (done (some (name, _))) clients = add_name name clients

-- A received text; the buffer ends with a zero.
abbrev pub buffer_text : Bytes → Bytes
buffer_text datagram = before is_nul (take 65535 datagram)

-- A datagram at the port for registrations. Without a word the name is the empty text of the zeroed array.
unfoldable pub handle_reg : Bytes → List Bytes → Outcome (List Bytes)
handle_reg datagram clients =
    let text = buffer_text datagram in
    if starts_with (codes "REG ") text
    then add_word (word 1024 (drop 4 text)) clients
    else done clients

-- The loop that puts the names behind the text.
unfoldable pub put_names : Outcome Bytes → List Bytes → Outcome Bytes
put_names undefined clients = undefined
put_names (done text) [] = done text
put_names (done text) (c ∷ clients) = put_names (fit 65536 (text ++ (b' ' ∷ c))) clients

-- The reply that the parent gives at the signal.
unfoldable pub list_reply : List Bytes → Outcome Bytes
list_reply clients = put_names (fit 65536 (codes "LIST " ++ decimal (length clients))) clients
