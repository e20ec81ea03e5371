-- ===== src/UdpFileClient/Directory.antt =====
-- What udp_file_server.c promises the clients that register: a directory from names to addresses.
use hust_network_programming.Base.{
  suc, ◌+◌, ◌≤◌, ◌<◌, ◌≡◌, refl, sym, ap, ◌∙◌, List, [], ◌∷◌, Option, none, some, arith, length,
  length-append, if◌then◌else◌, Option-cases, Bool-cases, inl, inr,
}
use hust_network_programming.CText.{Bytes, str_eq, str_eq_iff}
use hust_network_programming.CText.Scan.{IsWord}
use hust_network_programming.Outcome.{Outcome, done, undefined}
use hust_network_programming.UdpRegistry.{Client, max_clients, handle_registration, enter, update}
use hust_network_programming.UdpRegistry.Lookup.{find, find-enter, find-enter_other}
use hust_network_programming.UdpFileClient.{register_message}
use hust_network_programming.UdpFileClient.Registering.{handle_registration_lem}

-- The specification: a map, in which a registration replaces what was there.
abbrev pub Directory : Type 0
Directory = Bytes → Option Bytes

abbrev pub put : Bytes → Bytes → Directory → Directory
put name ip directory other = if str_eq name other then some ip else directory other

abbrev pub put_all : List (Bytes × Bytes) → Directory → Directory
put_all [] directory = directory
put_all ((name, ip) ∷ rs) directory = put_all rs (put name ip directory)

abbrev pub directory_of : List Client → Directory
directory_of cs name = find name cs

-- The registrations that arrive in turn, each with the address it comes from.
abbrev pub handle_all : List (Bytes × Bytes) → Outcome (List Client) → Outcome (List Client)
handle_all rs undefined = undefined
handle_all [] (done cs) = done cs
handle_all ((name, ip) ∷ rs) (done cs) =
    handle_all rs (handle_registration (register_message name) ip cs)

abbrev pub AllNames : List (Bytes × Bytes) → Type 0
AllNames [] = Unit
AllNames ((name, ip) ∷ rs) = IsWord name 64 × AllNames rs

length-update :
    (name ip : Bytes) (cs ds : List Client) → update name ip cs ≡ some ds → length ds ≡ length cs
unfolding update
length-update name ip [] ds h = cc h
length-update name ip (c ∷ cs) ds h = elim (Option-cases (update name ip cs)) [
  | inl n ↦ ground (arith, n)
  | inr (es, e) ↦ ground (arith, e, length-update name ip cs es e)
]

length-enter : (name ip : Bytes) (cs : List Client) → length (enter name ip cs) ≤ suc (length cs)
unfolding enter
length-enter name ip cs = elim (Option-cases (update name ip cs)) [
  | inl n ↦ ground (arith, n, length-append cs (record { name = name; ip = ip } ∷ []))
  | inr (ds, e) ↦ rw e (omega (arith, length-update name ip cs ds e))
]

-- One registration, where there is room.
directory_of-enter_at :
    (name ip : Bytes) (cs : List Client) (other : Bytes)
    → length cs < max_clients
    → directory_of (enter name ip cs) other ≡ put name ip (directory_of cs) other
directory_of-enter_at name ip cs other room = elim (Bool-cases (str_eq name other)) [
  | inl e ↦
      let same : name ≡ other = (str_eq_iff name other).0 e in
      rw e (ap (λ n. find n (enter name ip cs)) (sym same) ∙ find-enter name ip cs (λ _. room))
  | inr e ↦
      rw e (
        find-enter_other name ip other cs (λ same. absurd (cc ((str_eq_iff name other).1 same, e))))
]

directory_of-enter :
    (name ip : Bytes) (cs : List Client)
    → length cs < max_clients
    → directory_of (enter name ip cs) ≡ put name ip (directory_of cs)
directory_of-enter name ip cs room = λ i other. directory_of-enter_at name ip cs other room i

handle_all-directory_of :
    (rs : List (Bytes × Bytes)) (cs : List Client)
    → AllNames rs
    → length cs + length rs ≤ max_clients
    → (ds : List Client) × (handle_all rs (done cs) ≡ done ds)
      × (directory_of ds ≡ put_all rs (directory_of cs))
handle_all-directory_of [] cs h room = (cs, refl, refl)
handle_all-directory_of ((name, ip) ∷ rs) cs h room =
    let (ds, e, same) =
      handle_all-directory_of rs (enter name ip cs) h.1
        (omega (arith, room, length-enter name ip cs)) in
    (
      ds,
      ap (handle_all rs) (handle_registration_lem name ip cs h.0) ∙ e,
      same ∙ ap (put_all rs) (directory_of-enter name ip cs (omega (arith, room))),
    )

-- The registry implements a directory: of any at most 100 registrations that clients send, under any
-- names of fewer than 64 bytes without white space, each is carried out, and the table that they leave gives every
-- name the address that a map gives it in which each registration replaces the one before of its name.
pub directory_of-handle_all :
    (rs : List (Bytes × Bytes))
    → AllNames rs
    → length rs ≤ max_clients
    → (cs : List Client) × (handle_all rs (done []) ≡ done cs)
      × (directory_of cs ≡ put_all rs (λ name. none))
unfolding find
directory_of-handle_all rs h room = handle_all-directory_of rs [] h (omega (arith, room))
