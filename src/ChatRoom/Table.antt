-- ===== src/ChatRoom/Table.antt =====
-- The table of clients of assignment/multithread_chatroom.c.
use hust_network_programming.Base.{
  ℕ, zero, suc, ◌≤◌, ◌<◌, ◌≡◌, ◌↔◌, refl, true, false, List, [], ◌∷◌, some, leb, arith, ap,
  replicate, length, if◌then◌else◌, ℤ, pos, negsuc, minus_one, Bool-cases, Option-cases, inl, inr,
}
use hust_network_programming.ChatRoom.{
  ChatRoom, initial_room, max_clients, same, is_free, replace_first, add_client, remove_client,
}

-- The clients in the table.
abbrev pub occupied : List ℤ → ℕ
occupied [] = 0
occupied (c ∷ cs) = if is_free c then occupied cs else suc (occupied cs)

-- The table has its size, and the count is that of the slots in use.
pub record IsValid (s : ChatRoom) : Type 0 where
  pub size : length s.clients ≡ max_clients
  pub counted : s.client_count ≡ pos (occupied s.clients)

pub same-true : (a b : ℤ) → same a b ≡ true → a ≡ b
same-true (pos m) (pos n) h = ground arith
same-true (negsuc m) (negsuc n) h = ground arith
same-true (pos m) (negsuc n) h = cc h
same-true (negsuc m) (pos n) h = cc h

occupied_bound : (cs : List ℤ) → occupied cs ≤ length cs
occupied_bound [] = omega arith
occupied_bound (c ∷ cs) = ground (arith, occupied_bound cs)

-- A free slot is there if not all are in use.
replace_first_free :
    (fd : ℤ) (cs : List ℤ)
    → is_free fd ≡ false
    → occupied cs < length cs
    → (ds : List ℤ) × (replace_first (pos 0) fd cs ≡ some ds)
      × (length ds ≡ length cs)
      × (occupied ds ≡ suc (occupied cs))
unfolding replace_first
replace_first_free fd [] h l = absurd (omega arith)
replace_first_free fd (c ∷ cs) h l = elim (Bool-cases (is_free c)) [
  | inl e ↦ (fd ∷ cs, rw e refl, refl, rw (e, h) refl)
  | inr e ↦
      let (ds, f, len, occ) = replace_first_free fd cs h (ground arith) in
      (c ∷ ds, rw (e, f) refl, omega arith, rw e (omega arith))
]

-- A client that leaves frees one slot.
replace_first_used :
    (fd : ℤ) (cs ds : List ℤ)
    → is_free fd ≡ false
    → replace_first fd (pos 0) cs ≡ some ds
    → (length ds ≡ length cs) × (suc (occupied ds) ≡ occupied cs)
unfolding replace_first
replace_first_used fd [] ds h e = cc e
replace_first_used fd (c ∷ cs) ds h e = elim (Bool-cases (same c fd)) [
  | inl t ↦ ground (arith, same-true c fd t)
  | inr f ↦ elim (Option-cases (replace_first fd (pos 0) cs)) [
    | inl n ↦ ground arith
    | inr (es, g) ↦ ground (arith, replace_first_used fd cs es h g)
  ]
]

add_client-IsValid :
    (fd : ℤ) (s : ChatRoom) → is_free fd ≡ false → IsValid s → IsValid (add_client fd s).1
unfolding add_client
add_client-IsValid fd s h v = elim (Bool-cases (leb max_clients (occupied s.clients))) [
  | inl full ↦ ground arith
  | inr room ↦
      let (ds, f, len, occ) = replace_first_free fd s.clients h (ground arith) in ground (arith, f)
]

remove_client-IsValid :
    (fd : ℤ) (s : ChatRoom) → is_free fd ≡ false → IsValid s → IsValid (remove_client fd s)
unfolding remove_client
remove_client-IsValid fd s h v = elim (Option-cases (replace_first fd (pos 0) s.clients)) [
  | inl n ↦ ground arith
  | inr (ds, e) ↦ ground (arith, replace_first_used fd s.clients ds h e)
]

length-replicate : (n : ℕ) (c : ℤ) → length (replicate n c) ≡ n
length-replicate zero c = refl
length-replicate (suc n) c = ap suc (length-replicate n c)

occupied-replicate : (n : ℕ) → occupied (replicate n (pos 0)) ≡ 0
occupied-replicate zero = refl
occupied-replicate (suc n) = occupied-replicate n

-- The tables that come of clients that join and leave, with descriptors other than 0.
pub data Reachable : ChatRoom → Type 0 where
  begin : Reachable initial_room
  joins : {s : ChatRoom} (fd : ℤ) → is_free fd ≡ false → Reachable s → Reachable (add_client fd s).1
  leaves :
      {s : ChatRoom} (fd : ℤ) → is_free fd ≡ false → Reachable s → Reachable (remove_client fd s)

initial_room-IsValid : IsValid initial_room
unfolding initial_room
initial_room-IsValid = record {
  size = length-replicate max_clients (pos 0);
  counted = ap pos (occupied-replicate max_clients);
}

-- From the empty table on, after any clients that join and leave in any order, refused ones and
-- ones that are not in the table included, the count is the number of slots in use and the table
-- has its size. No descriptor is 0.
pub Reachable-counted : {s : ChatRoom} → Reachable s → IsValid s
Reachable-counted begin = initial_room-IsValid
Reachable-counted (joins {s = s} fd h r) = add_client-IsValid fd s h (Reachable-counted r)
Reachable-counted (leaves {s = s} fd h r) = remove_client-IsValid fd s h (Reachable-counted r)

-- In a valid table a client whose descriptor is not 0 is refused exactly where all slots are in use.
pub add_client_refuses :
    (fd : ℤ) (s : ChatRoom)
    → is_free fd ≡ false
    → IsValid s
    → ((add_client fd s).0 ≡ minus_one) ↔ (occupied s.clients ≡ max_clients)
unfolding add_client
add_client_refuses fd s h v = elim (Bool-cases (leb max_clients (occupied s.clients))) [
  | inl full ↦ ground (arith, occupied_bound s.clients)
  | inr room ↦
      let (ds, f, len, occ) = replace_first_free fd s.clients h (ground arith) in ground (arith, f)
]

-- No slot holds the descriptor.
abbrev pub Absent : ℤ → List ℤ → Type 0
Absent fd [] = Unit
Absent fd (c ∷ cs) = (same c fd ≡ false) × Absent fd cs

pub Absent-replicate : (fd : ℤ) (n : ℕ) → same (pos 0) fd ≡ false → Absent fd (replicate n (pos 0))
Absent-replicate fd zero h = tt
Absent-replicate fd (suc n) h = (h, Absent-replicate fd n h)

pub same_refl : (a : ℤ) → same a a ≡ true
same_refl (pos n) = ground arith
same_refl (negsuc n) = ground arith

replace_first_back :
    (fd : ℤ) (cs ds : List ℤ)
    → Absent fd cs
    → replace_first (pos 0) fd cs ≡ some ds
    → replace_first fd (pos 0) ds ≡ some cs
unfolding replace_first
replace_first_back fd [] ds a e = cc e
replace_first_back fd (c ∷ cs) ds a e = elim (Bool-cases (is_free c)) [
  | inl t ↦ ground (arith, same-true c (pos 0) t, same_refl fd)
  | inr f ↦ elim (Option-cases (replace_first (pos 0) fd cs)) [
    | inl n ↦ ground arith
    | inr (es, g) ↦ ground (arith, replace_first_back fd cs es a.1 g)
  ]
]

-- A client that joins and leaves again, before any other does, leaves a valid table as it was: its
-- descriptor is not 0 and not in the table.
pub remove_client-add_client :
    (fd : ℤ) (s : ChatRoom)
    → is_free fd ≡ false
    → Absent fd s.clients
    → IsValid s
    → (add_client fd s).0 ≡ pos 0
    → remove_client fd (add_client fd s).1 ≡ s
unfolding add_client remove_client
remove_client-add_client fd s h a v e = elim (Bool-cases (leb max_clients (occupied s.clients))) [
  | inl full ↦ ground arith
  | inr room ↦
      let (ds, f, len, occ) = replace_first_free fd s.clients h (ground arith) in
      ground (arith, f, replace_first_back fd s.clients ds a f)
]
