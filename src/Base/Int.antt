-- ===== src/Base/Int.antt =====
-- Signed C integers, such as descriptors and results of calls. `negsuc n` is -(n + 1).
use Prim.Native.Nat.{ℕ, zero, suc}
use mathlib.Core.Bool.{Bool, true, false}
use mathlib.Core.Path.{◌≡◌, refl}
use mathlib.Core.Logic.{◌⊎◌, inl, inr}

pub data ℤ : Type 0 where
  pos : ℕ → ℤ
  negsuc : ℕ → ℤ

-- `x < 0`
abbrev pub is_neg : ℤ → Bool
is_neg (pos n) = false
is_neg (negsuc n) = true

-- `x > 0`
abbrev pub is_positive : ℤ → Bool
is_positive (pos zero) = false
is_positive (pos (suc n)) = true
is_positive (negsuc n) = false

-- -1, what calls return on an error
abbrev pub minus_one : ℤ
minus_one = negsuc 0

pub ℤ-cases : (x : ℤ) → (x ≡ pos 0) ⊎ ((k : ℕ) × (x ≡ pos (suc k))) ⊎ ((k : ℕ) × (x ≡ negsuc k))
ℤ-cases (pos zero) = inl refl
ℤ-cases (pos (suc k)) = inr (inl (k, refl))
ℤ-cases (negsuc k) = inr (inr (k, refl))
