-- ===== src/UdpChat/Table.antt =====
-- The table of udp_chat_server.c holds no address twice.
use mathlib.Core.List.{Memᴰ}
use mathlib.Core.List.Memᴰ
use mathlib.Core.Path.{ap₂}
use hust_network_programming.Base.{
  sym, ◌∙◌, ◌≢◌, ◌↔◌, ◌⊎◌, ◌<◌, true, ◌≤◌, ◌≡◌, refl, false, List, [], ◌∷◌, ◌++◌, ltb, length,
  length-append, arith, Bool-cases, inl, inr, ◌≢◌, true, sym,
}
use hust_network_programming.UdpChat.{
  Address, same, found, register, receivers, handle_datagram, max_clients,
}

-- No address of the list is this one.
abbrev pub Absent : Address → List Address → Type 0
Absent a [] = Unit
Absent a (c ∷ cs) = (c ≢ a) × Absent a cs

-- No address stands in the list behind itself.
abbrev pub Distinct : List Address → Type 0
Distinct [] = Unit
Distinct (c ∷ cs) = Absent c cs × Distinct cs

pub record IsValid (cs : List Address) : Type 0 where
  pub distinct : Distinct cs
  pub fits : length cs ≤ max_clients

same-true : (a b : Address) → same a b ≡ true → a ≡ b
same-true a b h =
    let e : a.addr ≡ b.addr = ground arith in
    let f : a.port ≡ b.port = ground arith in ap₂ (λ m n. record { addr = m; port = n }) e f

same_refl : (a : Address) → same a a ≡ true
same_refl a = ground arith

same-false : (a b : Address) → same a b ≡ false → a ≢ b
same-false a b h e = let t : same a a ≡ true = same_refl a in cc (h, e, t)

same_ne : (a b : Address) → a ≢ b → same a b ≡ false
same_ne a b ne = elim (Bool-cases (same a b)) [ inl t ↦ absurd (ne (same-true a b t)) | inr f ↦ f ]

not_found-Absent : (a : Address) (cs : List Address) → found a cs ≡ false → Absent a cs
unfolding found
not_found-Absent a [] h = tt
not_found-Absent a (c ∷ cs) h =
    (same-false c a (ground arith), not_found-Absent a cs (ground arith))

Absent-append : (a b : Address) (cs : List Address) → Absent a cs → b ≢ a → Absent a (cs ++ b ∷ [])
Absent-append a b [] h ne = (ne, tt)
Absent-append a b (c ∷ cs) h ne = (h.0, Absent-append a b cs h.1 ne)

Distinct-append :
    (a : Address) (cs : List Address) → Distinct cs → Absent a cs → Distinct (cs ++ a ∷ [])
Distinct-append a [] d h = (tt, tt)
Distinct-append a (c ∷ cs) d h =
    (Absent-append c a cs d.0 (λ e. h.0 (sym e)), Distinct-append a cs d.1 h.1)

register-IsValid : (cli : Address) (cs : List Address) → IsValid cs → IsValid (register cli cs)
unfolding register
register-IsValid cli cs v = elim (Bool-cases (found cli cs)) [
  | inl known ↦ rw known v
  | inr new ↦ elim (Bool-cases (ltb (length cs) max_clients)) [
    | inl room ↦
        rw (new, room)
          (record {
            distinct = Distinct-append cli cs v.distinct (not_found-Absent cli cs new);
            fits = ground (arith, length-append cs (cli ∷ []));
          })
    | inr full ↦ rw (new, full) v
  ]
]

-- The tables that come of datagrams.
abbrev pub after : List Address → List Address
after [] = []
after (cli ∷ earlier) = (handle_datagram cli (after earlier)).0

-- After datagrams from any addresses, of which the last is the first of the list, the table holds
-- no address twice and at most 128.
pub after-IsValid : (senders : List Address) → IsValid (after senders)
unfolding handle_datagram
after-IsValid [] = record { distinct = tt; fits = omega arith }
after-IsValid (cli ∷ earlier) = register-IsValid cli (after earlier) (after-IsValid earlier)

found-Mem : (a : Address) (cs : List Address) → found a cs ≡ true → Memᴰ a cs
unfolding found
found-Mem a [] h = cc h
found-Mem a (c ∷ cs) h = elim (Bool-cases (same c a)) [
  | inl t ↦ Memᴰ.head (sym (same-true c a t))
  | inr f ↦ Memᴰ.tail (found-Mem a cs (ground arith))
]

register-Mem :
    (cli other : Address) (cs : List Address)
    → other ≢ cli
    → Memᴰ other (register cli cs) ↔ Memᴰ other cs
unfolding register
register-Mem cli other cs ne = elim (Bool-cases (found cli cs)) [
  | inl known ↦ rw known ((λ m. m), (λ m. m))
  | inr new ↦ elim (Bool-cases (ltb (length cs) max_clients)) [
    | inl room ↦ rw (new, room) (added, Memᴰ.append_left (cli ∷ []))
    | inr full ↦ rw (new, full) ((λ m. m), (λ m. m))
  ]
]
  where
    added : Memᴰ other (cs ++ cli ∷ []) → Memᴰ other cs
    added m = elim (Memᴰ.append_cases cs m) [
      | inl old ↦ old
      | inr one ↦ absurd (ne (Memᴰ.eq_of_singleton one))
    ]

register-sender :
    (cli : Address) (cs : List Address)
    → Memᴰ cli cs ⊎ (length cs < max_clients)
    → Memᴰ cli (register cli cs)
unfolding register
register-sender cli cs h = elim (Bool-cases (found cli cs)) [
  | inl known ↦ rw known (found-Mem cli cs known)
  | inr new ↦ elim (Bool-cases (ltb (length cs) max_clients)) [
    | inl room ↦ rw (new, room) (Memᴰ.append_right cs (Memᴰ.head refl))
    | inr full ↦ rw (new, full) (elim h [ inl m ↦ m | inr l ↦ absurd (ground arith) ])
  ]
]

receivers-Absent : (cli : Address) (cs : List Address) → Absent cli (receivers cli cs)
unfolding receivers
receivers-Absent cli [] = tt
receivers-Absent cli (c ∷ cs) = elim (Bool-cases (same c cli)) [
  | inl t ↦ rw t (receivers-Absent cli cs)
  | inr f ↦ rw f (same-false c cli f, receivers-Absent cli cs)
]

receivers_only :
    (cli other : Address) (cs : List Address) → Memᴰ other (receivers cli cs) → Memᴰ other cs
unfolding receivers
receivers_only cli other [] m = m
receivers_only cli other (c ∷ cs) m = elim (Bool-cases (same c cli)) [
  | inl t ↦ Memᴰ.tail (receivers_only cli other cs (rw t at m))
  | inr f ↦ elim (Memᴰ.cases_cons (rw f at m)) [
    | inl e ↦ Memᴰ.head e
    | inr n ↦ Memᴰ.tail (receivers_only cli other cs n)
  ]
]

receivers_all :
    (cli other : Address) (cs : List Address)
    → other ≢ cli
    → Memᴰ other cs
    → Memᴰ other (receivers cli cs)
unfolding receivers
receivers_all cli other [] ne m = elim m [ ]
receivers_all cli other (c ∷ cs) ne (Memᴰ.head e) =
    rw (same_ne c cli (λ f. ne (e ∙ f))) (Memᴰ.head e)
receivers_all cli other (c ∷ cs) ne (Memᴰ.tail m) = elim (Bool-cases (same c cli)) [
  | inl t ↦ rw t (receivers_all cli other cs ne m)
  | inr f ↦ rw f (Memᴰ.tail (receivers_all cli other cs ne m))
]

-- A datagram is not sent back to its sender, and it is sent to an address other than the sender's
-- exactly if that is in the new table. The new table has of the other addresses those of the old one,
-- and it has the sender if the old table had the sender or less than 128 addresses.
pub handle_datagram_lem :
    (cli other : Address) (cs : List Address)
    → other ≢ cli
    → Absent cli (handle_datagram cli cs).1
      × (Memᴰ other (handle_datagram cli cs).1 ↔ Memᴰ other (handle_datagram cli cs).0)
      × (Memᴰ other (handle_datagram cli cs).0 ↔ Memᴰ other cs)
      × (Memᴰ cli cs ⊎ (length cs < max_clients) → Memᴰ cli (handle_datagram cli cs).0)
unfolding handle_datagram
handle_datagram_lem cli other cs ne = (
  receivers-Absent cli (register cli cs),
  (receivers_only cli other (register cli cs), receivers_all cli other (register cli cs) ne),
  register-Mem cli other cs ne,
  register-sender cli cs,
)
