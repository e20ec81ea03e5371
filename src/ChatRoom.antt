-- ===== src/ChatRoom.antt =====
-- assignment/multithread_chatroom.c: the table of clients, the threads that relay messages and the
-- loop that admits clients. Each function holds the mutex while it uses the table, so it is one step.
-- What is printed on the terminal is left out.
pub mod Table
pub mod Relay
pub mod Leaving
mod Tests
use hust_network_programming.Base.{
  ◌++◌, ltb, length, take, ℕ, zero, suc, ◌+◌, Bool, true, false, not, ◌&&◌, List, [], ◌∷◌, Option,
  none, some, replicate, ◌==◌, leb, if◌then◌else◌, ℤ, pos, negsuc, minus_one,
}
use hust_network_programming.CText.{Bytes, codes}
use hust_network_programming.System.{
  Os, Exec, World, ◌>>=◌, ◌>>◌, pure, skip, get, modify, close, send,
}

abbrev pub max_clients : ℕ
max_clients = 1024

-- A slot that is 0 is free.
pub record ChatRoom : Type 0 where
  pub clients : List ℤ
  pub client_count : ℤ

-- The table that `main` starts with.
unfoldable pub initial_room : ChatRoom
initial_room = record { clients = replicate max_clients (pos 0); client_count = pos 0 }

abbrev pub Room : Type 0
Room = Exec ChatRoom (Unit {0})

-- `x == y` on descriptors.
abbrev pub same : ℤ → ℤ → Bool
same (pos m) (pos n) = m == n
same (negsuc m) (negsuc n) = m == n
same _ _ = false

abbrev pub is_free : ℤ → Bool
is_free c = same c (pos 0)

abbrev pub increment : ℤ → ℤ
increment (pos n) = pos (n + 1)
increment (negsuc zero) = pos 0
increment (negsuc (suc n)) = negsuc n

abbrev pub decrement : ℤ → ℤ
decrement (pos zero) = negsuc 0
decrement (pos (suc n)) = pos n
decrement (negsuc n) = negsuc (n + 1)

abbrev pub is_full : ℤ → Bool
is_full (pos n) = leb max_clients n
is_full (negsuc n) = false

-- The loops over the slots: the slots with the first `old` one replaced, or `none` without one.
unfoldable pub replace_first : ℤ → ℤ → List ℤ → Option (List ℤ)
replace_first old new [] = none
replace_first old new (c ∷ cs) =
    let rest = replace_first old new cs in
    if same c old then some (new ∷ cs) else elim rest [ none ↦ none | some ds ↦ some (c ∷ ds) ]

abbrev pub placed : ChatRoom → Option (List ℤ) → ℤ × ChatRoom
placed s none = (minus_one, s)
placed s (some cs) = (pos 0, record { clients = cs; client_count = increment s.client_count })

unfoldable pub add_client : ℤ → ChatRoom → ℤ × ChatRoom
add_client fd s =
    if is_full s.client_count then (minus_one, s) else placed s (replace_first (pos 0) fd s.clients)

abbrev pub vacated : ChatRoom → Option (List ℤ) → ChatRoom
vacated s none = s
vacated s (some cs) = record { clients = cs; client_count = decrement s.client_count }

unfoldable pub remove_client : ℤ → ChatRoom → ChatRoom
remove_client fd s = vacated s (replace_first fd (pos 0) s.clients)

-- A result of `recv`: bytes, 0, or an error, which may be EINTR.
pub data Received : Type 0 where
  bytes : Bytes → Received
  ended : Received
  interrupted : Received
  failed : Received

-- What the buffer of 1024 bytes holds when it is relayed: a zero is put over the last byte of a text that
-- fills it.
unfoldable pub relayed : Bytes → Bytes
relayed msg = if ltb (length msg) 1024 then msg else take 1023 msg ++ 0 ∷ []

module _ (os : Os) where
  unfoldable pub send_others : ℤ → Bytes → List ℤ → Room
  send_others sender msg [] = skip
  send_others sender msg (c ∷ cs) = do
    if not (is_free c) && not (same c sender) then (do send os c msg; skip) else skip
    send_others sender msg cs

  unfoldable pub broadcast_message : ℤ → Bytes → Room
  broadcast_message sender msg = do s ← get; send_others sender msg s.clients

  abbrev pub leave : ℤ → Room
  leave fd = do modify (remove_client fd); close fd

  -- The loop of a client's thread, over what `recv` gives.
  unfoldable pub client_thread : ℤ → List Received → Room
  client_thread fd [] = skip
  client_thread fd (bytes msg ∷ rest) = do broadcast_message fd (relayed msg); client_thread fd rest
  client_thread fd (interrupted ∷ rest) = client_thread fd rest
  client_thread fd (ended ∷ rest) = leave fd
  client_thread fd (failed ∷ rest) = leave fd

  abbrev refuse : ℤ → Room
  refuse fd = do send os fd (codes "Server is full. Try later.\n"); close fd

  admitted : ℤ → Bool → ℤ → Room
  admitted fd started (pos zero) = if started then skip else leave fd
  admitted fd started _ = refuse fd

  -- What `main` does with a connection; the flag says whether `malloc` and `pthread_create` succeed.
  unfoldable pub admit : ℤ → Bool → Room
  unfolding admitted
  admit fd started = do
    s ← get
    modify (λ t. (add_client fd t).1)
    admitted fd started (add_client fd s).0

  -- The end of `main`: the clients that are left are closed.
  unfoldable pub close_all : List ℤ → Room
  close_all [] = skip
  close_all (c ∷ cs) = do if is_free c then skip else close c; close_all cs
