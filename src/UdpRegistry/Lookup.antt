-- ===== src/UdpRegistry/Lookup.antt =====
-- What the registry of udp_file_server.c knows after a registration.
use hust_network_programming.Base.{
  ◌<◌, ◌≡◌, ◌≢◌, refl, false, List, [], ◌∷◌, ◌++◌, Option, none, some, arith, length, if◌then◌else◌,
  Bool-cases, Option-cases, inl, inr,
}
use hust_network_programming.CText.{Bytes, str_eq, str_eq_iff}
use hust_network_programming.UdpRegistry.{Client, max_clients, update, enter}

-- The address of the first client of a name.
unfoldable pub find : Bytes → List Client → Option Bytes
find name [] = none
find name (c ∷ cs) = let later = find name cs in if str_eq c.name name then some c.ip else later

update-none : (name ip : Bytes) (cs : List Client) → update name ip cs ≡ none → find name cs ≡ none
unfolding update find
update-none name ip [] h = refl
update-none name ip (c ∷ cs) h = ground (arith, update-none name ip cs)

find-append :
    (name : Bytes) (cs : List Client) (d : Client)
    → find name (cs ++ d ∷ []) ≡ (elim (find name cs) [
      | some ip ↦ some ip
      | none ↦ if str_eq d.name name then some d.ip else none
    ])
unfolding find
find-append name [] d = ground arith
find-append name (c ∷ cs) d = ground (arith, find-append name cs d)

find-update :
    (name ip : Bytes) (cs ds : List Client) → update name ip cs ≡ some ds → find name ds ≡ some ip
unfolding update find
find-update name ip [] ds h = cc h
find-update name ip (c ∷ cs) ds h = elim (Option-cases (update name ip cs)) [
  | inl n ↦ ground (arith, n)
  | inr (es, e) ↦ ground (arith, e, find-update name ip cs es e)
]

find-update_other :
    (name ip other : Bytes) (cs ds : List Client)
    → str_eq name other ≡ false
    → update name ip cs ≡ some ds
    → find other ds ≡ find other cs
unfolding update find
find-update_other name ip other [] ds ne h = cc h
find-update_other name ip other (c ∷ cs) ds ne h = elim (Option-cases (update name ip cs)) [
  | inl n ↦ ground (arith, n, str_eq_iff c.name name)
  | inr (es, e) ↦
      ground (arith, e, find-update_other name ip other cs es ne e, str_eq_iff c.name name)
]

-- A registration gives its name the new address, if the name was known or fewer than 100 clients
-- were.
pub find-enter :
    (name ip : Bytes) (cs : List Client)
    → (find name cs ≡ none → length cs < max_clients)
    → find name (enter name ip cs) ≡ some ip
unfolding enter
find-enter name ip cs room = elim (Option-cases (update name ip cs)) [
  | inl n ↦ ground (
    arith,
    n,
    update-none name ip cs n,
    room (update-none name ip cs n),
    find-append name cs (record { name = name; ip = ip }),
    str_eq_iff name name,
  )
  | inr (ds, e) ↦ ground (arith, e, find-update name ip cs ds e)
]

-- It changes the address of no other name, whether or not there is room.
pub find-enter_other :
    (name ip other : Bytes) (cs : List Client)
    → name ≢ other
    → find other (enter name ip cs) ≡ find other cs
unfolding enter
find-enter_other name ip other cs ne = elim (Bool-cases (str_eq name other)) [
  | inl same ↦ absurd (ne ((str_eq_iff name other).0 same))
  | inr differ ↦ elim (Option-cases (update name ip cs)) [
    | inl n ↦ ground (arith, n, differ, find-append other cs (record { name = name; ip = ip }))
    | inr (ds, e) ↦ ground (arith, e, find-update_other name ip other cs ds differ e)
  ]
]
