-- ===== src/System.antt =====
-- The operating system as the programs see it: system calls whose results the environment chooses
-- by all that has happened before, and the history of the calls with their results.
use hust_network_programming.Base.{
  ℕ, ◌≡◌, refl, ap, Bool, true, false, List, [], ◌∷◌, Option, none, some, if◌then◌else◌, ℤ,
}
use hust_network_programming.CText.{Bytes}
use hust_network_programming.Outcome.{Outcome, done, undefined, fit}

-- What `stat` says of a path; `mtime` is its time as `strftime` formats it with "%b %d %H:%M".
pub record Stat : Type 0 where
  pub is_dir : Bool
  pub size : ℕ
  pub mtime : Bytes

-- A call that was made, with its result where it has one.
pub data Event : Type 0 where
  created : ℤ → Event
  bound : ℤ → ℕ → ℤ → Event
  connected : ℤ → Bytes → ℕ → ℤ → Event
  accepted : ℤ → ℤ → Event
  sent : ℤ → Bytes → ℤ → Event
  received : ℤ → List Bytes → Event
  closed : ℤ → Event
  looked_up : Bytes → Event
  dir_opened : Bytes → Event
  dir_closed : Bytes → Event
  file_opened : Bytes → Event
  wrote : Bytes → Bytes → Event
  file_closed : Bytes → Event
  printed : Bytes → Event

-- The newest call is the first.
abbrev pub History : Type 0
History = List Event

-- `stream` is the list of the successive positive results of `recv` on a descriptor, up to the
-- first result that is not positive; `open_read` gives what the file holds.
pub record Os : Type 0 where
  pub socket : History → ℤ
  pub bind : History → ℤ → ℕ → ℤ
  pub connect : History → ℤ → Bytes → ℕ → ℤ
  pub accept : History → ℤ → ℤ
  pub send : History → ℤ → Bytes → ℤ
  pub recv : History → ℤ → ℕ → Bytes
  pub stream : History → ℤ → List Bytes
  pub stat : History → Bytes → Option Stat
  pub opendir : History → Bytes → Option (List Bytes)
  pub open_read : History → Bytes → Option Bytes
  pub open_write : History → Bytes → Bool
  pub time_text : History → Bytes

pub record World (S : Type 0) : Type 0 where
  pub state : S
  pub history : History

-- Code that reads and writes a state of type `S` and makes calls.
abbrev pub Exec : Type 0 → Type 0 → Type 0
Exec S A = World S → Outcome (A × World S)

infixl 5 ◌>>=◌ ◌>>◌
abbrev pub ◌>>=◌ : {S A B : Type 0} → Exec S A → (A → Exec S B) → Exec S B
◌>>=◌ m f w = elim (m w) [ done (a, w') ↦ f a w' | undefined ↦ undefined ]

abbrev pub ◌>>◌ : {S A B : Type 0} → Exec S A → Exec S B → Exec S B
m >> k = m >>= λ _. k

module _ {S : Type 0} where
  abbrev pub pure : {A : Type 0} → A → Exec S A
  pure a w = done (a, w)

  abbrev pub skip : Exec S (Unit {0})
  skip w = done (tt, w)

  abbrev pub get : Exec S S
  get w = done (w.state, w)

  abbrev pub modify : (S → S) → Exec S (Unit {0})
  modify f w = done (tt, record w { state = f w.state })

  abbrev pub lift : {A : Type 0} → Outcome A → Exec S A
  lift o w = elim o [ done a ↦ done (a, w) | undefined ↦ undefined ]

  -- `sprintf` into an array of `cap` bytes.
  abbrev pub sprintf : ℕ → Bytes → Exec S Bytes
  sprintf cap s = lift (fit cap s)

  -- A call with no result of interest.
  abbrev pub call : Event → Exec S (Unit {0})
  call e w = done (tt, record w { history = e ∷ w.history })

  abbrev pub close : ℤ → Exec S (Unit {0})
  close fd = call (closed fd)

  abbrev pub print : Bytes → Exec S (Unit {0})
  print s = call (printed s)

module _ (os : Os) {S : Type 0} where
  abbrev pub socket : Exec S ℤ
  socket w =
      let fd = os.socket w.history in done (fd, record w { history = created fd ∷ w.history })

  abbrev pub bind : ℤ → ℕ → Exec S ℤ
  bind fd port w =
      let r = os.bind w.history fd port in
      done (r, record w { history = bound fd port r ∷ w.history })

  abbrev pub connect : ℤ → Bytes → ℕ → Exec S ℤ
  connect fd ip port w =
      let r = os.connect w.history fd ip port in
      done (r, record w { history = connected fd ip port r ∷ w.history })

  abbrev pub accept : ℤ → Exec S ℤ
  accept fd w =
      let r = os.accept w.history fd in done (r, record w { history = accepted fd r ∷ w.history })

  abbrev pub send : ℤ → Bytes → Exec S ℤ
  send fd s w =
      let r = os.send w.history fd s in done (r, record w { history = sent fd s r ∷ w.history })

  abbrev pub recv : ℤ → ℕ → Exec S Bytes
  recv fd cap w =
      let s = os.recv w.history fd cap in
      done (s, record w { history = received fd (s ∷ []) ∷ w.history })

  abbrev pub stream : ℤ → Exec S (List Bytes)
  stream fd w =
      let l = os.stream w.history fd in done (l, record w { history = received fd l ∷ w.history })

  abbrev pub stat : Bytes → Exec S (Option Stat)
  stat path w = done (os.stat w.history path, record w { history = looked_up path ∷ w.history })

  abbrev opened_read : Bytes → Option Bytes → World S → Outcome (Option Bytes × World S)
  opened_read path none w = done (none, w)
  opened_read path (some s) w = done (some s, record w { history = file_opened path ∷ w.history })

  abbrev opened_dir :
      Bytes → Option (List Bytes) → World S → Outcome (Option (List Bytes) × World S)
  opened_dir path none w = done (none, w)
  opened_dir path (some l) w = done (some l, record w { history = dir_opened path ∷ w.history })

  abbrev pub opendir : Bytes → Exec S (Option (List Bytes))
  opendir path w = opened_dir path (os.opendir w.history path) w

  abbrev pub open_read : Bytes → Exec S (Option Bytes)
  open_read path w = opened_read path (os.open_read w.history path) w

  abbrev opened_write : Bytes → Bool → World S → Outcome (Bool × World S)
  opened_write path false w = done (false, w)
  opened_write path true w = done (true, record w { history = file_opened path ∷ w.history })

  abbrev pub open_write : Bytes → Exec S Bool
  open_write path w = opened_write path (os.open_write w.history path) w

  pub open_write-done :
      (path : Bytes) (w : World S)
      → os.open_write w.history path ≡ true
      → open_write path w ≡ done (true, record w { history = file_opened path ∷ w.history })
  open_write-done path w h = ap (λ b. opened_write path b w) h

-- What holds of the result and the world after code that meets no undefined behaviour.
abbrev pub Ensures : {S A : Type 0} → (A → World S → Type 0) → Outcome (A × World S) → Type 0
Ensures Q (done (a, w)) = Q a w
Ensures Q undefined = Unit

-- From worlds with `P` the code ends, if its behaviour is defined, in worlds with `Q`.
pub record Triple {S A : Type 0} (P : World S → Type 0) (m : Exec S A) (Q : A → World S → Type 0)
    : Type 0 where
  pub at : (w : World S) → P w → Ensures Q (m w)

module _ {S A B : Type 0} {R : A → World S → Type 0} {Q : B → World S → Type 0} where
  pub Ensures-bind :
      (o : Outcome (A × World S)) (f : A → Exec S B)
      → Ensures R o
      → ((a : A) → Triple (R a) (f a) Q)
      → Ensures Q (elim o [ done (a, w') ↦ f a w' | undefined ↦ undefined ])
  Ensures-bind (done (a, w)) f h g = (g a).at w h
  Ensures-bind undefined f h g = tt

  pub Triple-bind :
      {P : World S → Type 0} (m : Exec S A) (f : A → Exec S B)
      → Triple P m R
      → ((a : A) → Triple (R a) (f a) Q)
      → Triple P (m >>= f) Q
  Triple-bind m f first then_ = record { at = λ w h. Ensures-bind (m w) f (first.at w h) then_ }

module _ {S A B : Type 0} (Q : B → World S → Type 0) where
  -- A result that is undefined satisfies `Ensures`.
  pub Ensures-lift :
      (o : Outcome A) (f : A → Exec S B) (w : World S)
      → ((a : A) → o ≡ done a → Ensures Q (f a w))
      → Ensures Q ((lift o >>= f) w)
  Ensures-lift (done a) f w h = h a refl
  Ensures-lift undefined f w h = tt

module _ {S A : Type 0} (Q : A → World S → Type 0) where
  -- Either branch of a test.
  pub Ensures-if :
      (b : Bool) (m k : Exec S A) (w : World S)
      → (b ≡ true → Ensures Q (m w))
      → (b ≡ false → Ensures Q (k w))
      → Ensures Q ((if b then m else k) w)
  Ensures-if true m k w h g = h refl
  Ensures-if false m k w h g = g refl

-- A step whose result is known.
pub bind-done :
    {S A B : Type 0} (m : Exec S A) (f : A → Exec S B) {a : A} {w w' : World S}
    → m w ≡ done (a, w')
    → (m >>= f) w ≡ f a w'
bind-done {S} {A} {B} m f e =
    ap {B = Outcome (B × World S)} (λ o. elim o [ done (a, w') ↦ f a w' | undefined ↦ undefined ]) e
