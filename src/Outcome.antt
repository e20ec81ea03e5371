-- ===== src/Outcome.antt =====
-- The outcome of C code: a value, or undefined behaviour such as a write past the end of an array.
use hust_network_programming.Base.{
  ℕ, Option, none, some, ◌<◌, ◌≡◌, refl, ◌⊎◌, inl, inr, arith, length, ltb, if◌then◌else◌,
}
use hust_network_programming.CText.{Bytes}

pub data Outcome {ℓ} (A : Type ℓ) : Type ℓ where
  done : A → Outcome A
  undefined : Outcome A

-- The steps of an `sscanf`, where `none` ends the scan.
infixl 5 ◌>>?◌
abbrev pub ◌>>?◌ :
    {A B : Type 0} → Outcome (Option A) → (A → Outcome (Option B)) → Outcome (Option B)
undefined >>? f = undefined
done none >>? f = done none
done (some a) >>? f = f a

-- A text written into an array of `cap` bytes: the terminating zero has to fit too.
abbrev pub fit : ℕ → Bytes → Outcome Bytes
fit cap s = if ltb (length s) cap then done s else undefined

pub fit-done : (cap : ℕ) (s : Bytes) → length s < cap → fit cap s ≡ done s
fit-done cap s h = ground arith

pub Outcome-cases {ℓ} : {A : Type ℓ} (o : Outcome A) → (o ≡ undefined) ⊎ ((a : A) × (o ≡ done a))
Outcome-cases undefined = inl refl
Outcome-cases (done a) = inr (a, refl)
