-- ===== src/Account/Login.antt =====
-- Which logins the table admits.
use hust_network_programming.Base.{
  ℕ, zero, suc, ◌<◌, ◌≤◌, ◌≡◌, ◌↔◌, refl, true, false, ◌&&◌, List, [], ◌∷◌, ◌++◌, arith, length,
  get_elem?, if◌then◌else◌, pos, sym, Option, none, some, Bool-cases, Option-cases, inl, inr,
}
use mathlib.Core.List.{Memᴰ}
use mathlib.Core.Path.{subst}
use hust_network_programming.CText.{Bytes, str_eq, str_eq_iff, strncpy_short}
use hust_network_programming.Account.{
  Account, validate_login, get_user_root_dir, has_username, add_account, stored,
}

no_root-no_login :
    (u p : Bytes) (table : List Account)
    → get_user_root_dir u table ≡ none
    → validate_login u p table ≡ none
unfolding validate_login get_user_root_dir
no_root-no_login u p [] h = refl
no_root-no_login u p (a ∷ table) h = ground (arith, no_root-no_login u p table)

-- A login that is accepted has a root directory.
pub validate_login_has_root :
    (u p : Bytes) (table : List Account) (i : ℕ)
    → validate_login u p table ≡ some i
    → (r : Bytes) × (get_user_root_dir u table ≡ some r)
validate_login_has_root u p table i h = elim (Option-cases (get_user_root_dir u table)) [
  | inl e ↦ cc (h, no_root-no_login u p table e)
  | inr f ↦ f
]

-- The account has this name and password.
abbrev pub Matches : Bytes → Bytes → Account → Type 0
Matches u p a = (a.username ≡ u) × (a.password ≡ p)

-- The first account of the table with this name and password is at `i`.
pub record IsFirst (u p : Bytes) (table : List Account) (i : ℕ) : Type 0 where
  pub account : Account
  pub at_index : get_elem? table i ≡ some account
  pub matches : Matches u p account
  pub first : (j : ℕ) (b : Account) → j < i → get_elem? table j ≡ some b → ¬ Matches u p b

-- The answer of `validate_login`, described without its loop.
abbrev pub Validates : Bytes → Bytes → List Account → Option ℕ → Type 0
Validates u p table none = (j : ℕ) (b : Account) → get_elem? table j ≡ some b → ¬ Matches u p b
Validates u p table (some i) = IsFirst u p table i

Matches-test :
    (u p : Bytes) (a : Account)
    → ((str_eq a.username u && str_eq a.password p) ≡ true) ↔ Matches u p a
Matches-test u p a = ground (arith, str_eq_iff a.username u, str_eq_iff a.password p)

first_ne : {u p : Bytes} (a b : Account) → some a ≡ some b → ¬ Matches u p a → ¬ Matches u p b
first_ne {u} {p} a b e ne m = let f : b ≡ a = cc e in ne (subst (Matches u p) f m)

Validates-cons :
    (u p : Bytes) (a : Account) (table : List Account) (o : Option ℕ)
    → ¬ Matches u p a
    → Validates u p table o
    → Validates u p (a ∷ table) (elim o [ none ↦ none | some i ↦ some (suc i) ])
Validates-cons u p a table none ne h = go
  where
    go : (j : ℕ) (b : Account) → get_elem? (a ∷ table) j ≡ some b → ¬ Matches u p b
    go zero b e m = first_ne a b e ne m
    go (suc j) b e m = h j b e m
Validates-cons u p a table (some i) ne h = record {
  account = h.account;
  at_index = h.at_index;
  matches = h.matches;
  first = go;
}
  where
    go : (j : ℕ) (b : Account) → j < suc i → get_elem? (a ∷ table) j ≡ some b → ¬ Matches u p b
    go zero b l e m = first_ne a b e ne m
    go (suc j) b l e m = h.first j b (omega arith) e m

login_here :
    (u p : Bytes) (a : Account) (table : List Account)
    → (str_eq a.username u && str_eq a.password p) ≡ true
    → validate_login u p (a ∷ table) ≡ some 0
unfolding validate_login
login_here u p a table t = ground (arith, t)

login_later :
    (u p : Bytes) (a : Account) (table : List Account)
    → (str_eq a.username u && str_eq a.password p) ≡ false
    → validate_login u p (a ∷ table)
      ≡ (elim (validate_login u p table) [ none ↦ none | some i ↦ some (suc i) ])
unfolding validate_login
login_later u p a table f = ground (arith, f)

-- A login that is accepted is that of an account.
pub validate_login-Matches :
    (u p : Bytes) (table : List Account) (i : ℕ)
    → validate_login u p table ≡ some i
    → (a : Account) × Memᴰ a table × Matches u p a
unfolding validate_login
validate_login-Matches u p [] i h = cc h
validate_login-Matches u p (a ∷ table) i h =
    elim (Bool-cases (str_eq a.username u && str_eq a.password p)) [
      | inl t ↦ (a, Memᴰ.head refl, (Matches-test u p a).0 t)
      | inr f ↦ elim (Option-cases (validate_login u p table)) [
        | inl n ↦ absurd (ground (arith, f, n))
        | inr (j, e) ↦ let (b, m, q) = validate_login-Matches u p table j e in (b, Memᴰ.tail m, q)
      ]
    ]

-- `validate_login` answers with the index of the first account with the name and the password, and
-- with -1 exactly where there is none.
pub validate_login_lem :
    (u p : Bytes) (table : List Account) → Validates u p table (validate_login u p table)
unfolding validate_login
validate_login_lem u p [] = λ j b e m. cc e
validate_login_lem u p (a ∷ table) =
    elim (Bool-cases (str_eq a.username u && str_eq a.password p)) [
      | inl t ↦ subst (Validates u p (a ∷ table)) (sym (login_here u p a table t)) (record {
        account = a;
        at_index = refl;
        matches = (Matches-test u p a).0 t;
        first = λ j b l e m. absurd (omega arith);
      })
      | inr f ↦ subst (Validates u p (a ∷ table)) (sym (login_later u p a table f)) (
          Validates-cons u p a table _ (λ m. cc (f, (Matches-test u p a).1 m))
            (validate_login_lem u p table))
    ]

has_username-false :
    (u p : Bytes) (table : List Account)
    → has_username u table ≡ false
    → validate_login u p table ≡ none
unfolding has_username validate_login
has_username-false u p [] h = refl
has_username-false u p (a ∷ table) h = ground (arith, has_username-false u p table)

validate_login-append :
    (u p : Bytes) (table : List Account) (a : Account)
    → validate_login u p (table ++ a ∷ []) ≡ (elim (validate_login u p table) [
      | some i ↦ some i
      | none ↦ if str_eq a.username u && str_eq a.password p then some (length table) else none
    ])
unfolding validate_login
validate_login-append u p [] a = ground arith
validate_login-append u p (b ∷ table) a = ground (arith, validate_login-append u p table a)

get_user_root_dir-append :
    (u : Bytes) (table : List Account) (a : Account)
    → get_user_root_dir u (table ++ a ∷ []) ≡ (elim (get_user_root_dir u table) [
      | some r ↦ some r
      | none ↦ if str_eq a.username u then some a.root_dir else none
    ])
unfolding get_user_root_dir
get_user_root_dir-append u [] a = ground arith
get_user_root_dir-append u (b ∷ table) a = ground (arith, get_user_root_dir-append u table a)

has_username-root :
    (u : Bytes) (table : List Account)
    → has_username u table ≡ false
    → get_user_root_dir u table ≡ none
unfolding has_username get_user_root_dir
has_username-root u [] h = refl
has_username-root u (a ∷ table) h = ground (arith, has_username-root u table)

-- What a table answers to a login.
abbrev pub answer : List Account → Bytes → Bytes → Option ℕ × Option Bytes
answer table u p = (validate_login u p table, get_user_root_dir u table)

-- An account that is added can log in at once and finds its root directory. The name and the
-- password have at most 63 bytes, and the directory at most 255.
pub add_account_login :
    (u p r : Bytes) (table after : List Account)
    → length u ≤ 63
    → length p ≤ 63
    → length r ≤ 255
    → add_account u p r table ≡ (pos 0, after)
    → answer after u p ≡ (some (length table), some r)
unfolding add_account
add_account_login u p r table after lu lp lr e = elim (Bool-cases (has_username u table)) [
  | inl t ↦ ground (arith, t)
  | inr f ↦ ground (
    arith,
    f,
    has_username-false u p table f,
    has_username-root u table f,
    validate_login-append u p table (stored u p r),
    get_user_root_dir-append u table (stored u p r),
    strncpy_short 63 u lu,
    strncpy_short 63 p lp,
    strncpy_short 255 r lr,
    str_eq_iff u u,
    str_eq_iff p p,
  )
]

-- Whatever is added, and whether or not it is accepted, a login that was accepted before gets the
-- same index and the same root directory.
pub add_account_keeps :
    (u p r v q : Bytes) (i : ℕ) (table : List Account)
    → validate_login v q table ≡ some i
    → answer (add_account u p r table).1 v q ≡ answer table v q
unfolding add_account
add_account_keeps u p r v q i table e =
    let (root, f) = validate_login_has_root v q table i e in
    ground (
      arith,
      f,
      validate_login-append v q table (stored u p r),
      get_user_root_dir-append v table (stored u p r),
    )
