-- ===== src/ChatRoom/Leaving.antt =====
-- A client that leaves the table of assignment/multithread_chatroom.c, whose code the command server
-- has too.
use mathlib.Core.Path.{subst}
use hust_network_programming.Base.{
  ◌≡◌, ◌≢◌, sym, false, List, [], ◌∷◌, none, some, arith, ℤ, pos, Bool-cases, Option-cases, inl,
  inr, ap,
}
use hust_network_programming.ChatRoom.{ChatRoom, same, is_free, replace_first, remove_client}
use hust_network_programming.ChatRoom.Table.{same-true, same_refl}

-- No slot holds the descriptor.
abbrev pub Gone : ℤ → List ℤ → Type 0
Gone fd [] = Unit
Gone fd (c ∷ cs) = (c ≢ fd) × Gone fd cs

-- At most one slot holds the descriptor.
abbrev pub Once : ℤ → List ℤ → Type 0
Once fd [] = Unit
Once fd (c ∷ cs) = (c ≡ fd → Gone fd cs) × Once fd cs

same-false : (a b : ℤ) → same a b ≡ false → a ≢ b
same-false a b h e = cc (h, ap (λ c. same c b) e, same_refl b)

replace_first-Gone :
    (fd : ℤ) (cs ds : List ℤ)
    → is_free fd ≡ false
    → Once fd cs
    → replace_first fd (pos 0) cs ≡ some ds
    → Gone fd ds
unfolding replace_first
replace_first-Gone fd [] ds h o e = cc e
replace_first-Gone fd (c ∷ cs) ds h o e = elim (Bool-cases (same c fd)) [
  | inl t ↦
      let f : pos 0 ∷ cs ≡ ds = ground arith in
      let g : Gone fd (pos 0 ∷ cs) =
        ((λ z. same-false fd (pos 0) h (sym z)), o.0 (same-true c fd t)) in
      subst (Gone fd) f g
  | inr f ↦ elim (Option-cases (replace_first fd (pos 0) cs)) [
    | inl n ↦ absurd (ground arith)
    | inr (es, g) ↦
        let k : c ∷ es ≡ ds = ground (arith, g) in
        let l : Gone fd (c ∷ es) = (same-false c fd f, replace_first-Gone fd cs es h o.1 g) in
        subst (Gone fd) k l
  ]
]

replace_first-none : (fd : ℤ) (new : ℤ) (cs : List ℤ) → replace_first fd new cs ≡ none → Gone fd cs
unfolding replace_first
replace_first-none fd new [] e = tt
replace_first-none fd new (c ∷ cs) e = elim (Bool-cases (same c fd)) [
  | inl t ↦ absurd (ground arith)
  | inr f ↦ elim (Option-cases (replace_first fd new cs)) [
    | inl n ↦ (same-false c fd f, replace_first-none fd new cs n)
    | inr (es, g) ↦ absurd (ground (arith, g))
  ]
]

-- A client that held one slot at most holds none.
pub remove_client-Gone :
    (fd : ℤ) (s : ChatRoom)
    → is_free fd ≡ false
    → Once fd s.clients
    → Gone fd (remove_client fd s).clients
unfolding remove_client
remove_client-Gone fd s h o = elim (Option-cases (replace_first fd (pos 0) s.clients)) [
  | inl n ↦ rw n (replace_first-none fd (pos 0) s.clients n)
  | inr (ds, e) ↦ rw e (replace_first-Gone fd s.clients ds h o e)
]
