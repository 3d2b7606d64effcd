-- ===== src/Prelude/Float.antt =====
-- Python's `float` as the code uses it: the operations are a parameter, and so are the few facts
-- about them that the proofs need. Values are the floats other than NaN, up to the sign of zero.
use Prim.Native.Nat.{ℕ, ◌≤◌, ◌<◌}
use mathlib.Core.Path.{◌≡◌}
use mathlib.Core.Logic.{◌⊎◌}
use mathlib.Core.Bool.{Bool, true, false, not, ◌&&◌}
use native.Mathlib.Omega.{arith}
use auto_model_router.Prelude.Tests.{if◌then◌else◌}

pub record Float (F : Type 0) : Type 0 where
  -- an `int` read as a float, and the literal m / 10 ^ k
  pub of_ℕ : ℕ → F
  pub decimal : ℕ → ℕ → F
  pub inf : F
  pub neg : F → F
  pub add : F → F → F
  pub sub : F → F → F
  pub mul : F → F → F
  pub div : F → F → F
  pub pow : F → F → F
  pub exp : F → F
  pub log : F → F
  -- `round(x, n)`
  pub round : F → ℕ → F
  -- `int(x)` of a value that is not negative
  pub truncate : F → ℕ
  pub le : F → F → Bool
  pub finite : F → Bool

module _ {F : Type 0} ⦃fl : Float F⦄ where
  infixl 65 ◌⊕◌ ◌⊖◌
  infixl 70 ◌⊗◌ ◌⊘◌
  infix 50 ◌≤?◌ ◌<?◌ ◌=?◌
  infix 4 ◌≼◌
  abbrev pub lit : ℕ → F
  lit = fl.of_ℕ

  abbrev pub decimal : ℕ → ℕ → F
  decimal = fl.decimal

  abbrev pub ◌⊕◌ : F → F → F
  ◌⊕◌ = fl.add

  abbrev pub ◌⊖◌ : F → F → F
  ◌⊖◌ = fl.sub

  abbrev pub ◌⊗◌ : F → F → F
  ◌⊗◌ = fl.mul

  abbrev pub ◌⊘◌ : F → F → F
  ◌⊘◌ = fl.div

  abbrev pub ◌≤?◌ : F → F → Bool
  ◌≤?◌ = fl.le

  -- Away from NaN, `a < b` is the negation of `b <= a`.
  abbrev pub ◌<?◌ : F → F → Bool
  a <? b = not (fl.le b a)

  abbrev pub ◌=?◌ : F → F → Bool
  a =? b = fl.le a b && fl.le b a

  -- `min(a, b)` and `max(a, b)` keep the first argument on a tie.
  abbrev pub fmin : F → F → F
  fmin a b = if b <? a then b else a

  abbrev pub fmax : F → F → F
  fmax a b = if a <? b then b else a

  abbrev pub ◌≼◌ : F → F → Type 0
  a ≼ b = fl.le a b ≡ true

-- The order on the floats other than NaN is total.
pub record IsOrdered (F : Type 0) ⦃fl : Float F⦄ : Type 0 where
  pub le_refl : (a : F) → a ≼ a
  pub le_trans : (a b c : F) → a ≼ b → b ≼ c → a ≼ c
  pub le_total : (a b : F) → (a ≼ b) ⊎ (b ≼ a)

-- Rounding to nearest keeps the order of exact results, and adding zero is exact.
pub record IsMonotone (F : Type 0) ⦃fl : Float F⦄ : Type 0 where
  pub order : IsOrdered F
  pub open order use *
  pub of_ℕ_mono : (m n : ℕ) → m ≤ n → fl.of_ℕ m ≼ fl.of_ℕ n
  pub of_ℕ_pos : (n : ℕ) → 0 < n → (fl.of_ℕ n ≤? fl.of_ℕ 0) ≡ false
  pub zero_add : (a : F) → fl.of_ℕ 0 ⊕ a ≡ a
  pub add_zero : (a : F) → a ⊕ fl.of_ℕ 0 ≡ a
  pub add_mono : (a b c d : F) → a ≼ b → c ≼ d → a ⊕ c ≼ b ⊕ d
  pub sub_mono : (a b c : F) → a ≼ b → a ⊖ c ≼ b ⊖ c
  pub sub_nonneg : (a b : F) → b ≼ a → lit 0 ≼ a ⊖ b
  pub mul_nonneg : (a b : F) → lit 0 ≼ a → lit 0 ≼ b → lit 0 ≼ a ⊗ b
  pub mul_mono : (a b c : F) → lit 0 ≼ a → b ≼ c → b ⊗ a ≼ c ⊗ a
  pub div_mono : (a b c : F) → (c ≤? lit 0) ≡ false → a ≼ b → a ⊘ c ≼ b ⊘ c
  pub div_nonneg : (a c : F) → (c ≤? lit 0) ≡ false → lit 0 ≼ a → lit 0 ≼ a ⊘ c

module _ {F : Type 0} ⦃fl : Float F⦄ (ord : IsOrdered F) where
  open ord use {le_refl, le_trans, le_total}

  pub lt→le : (a b : F) → (a <? b) ≡ true → a ≼ b
  lt→le a b h = ground (arith, le_total a b)

  pub fmin_le : (a b : F) → (fmin a b ≼ a) × (fmin a b ≼ b)
  fmin_le a b = ground (arith, le_total a b, le_refl a, le_refl b)

  pub le_fmax : (a b : F) → (a ≼ fmax a b) × (b ≼ fmax a b)
  le_fmax a b = ground (arith, le_total a b, le_refl a, le_refl b)

  -- `max(lo, min(hi, x))` lies between the bounds.
  pub clamp_bounds :
      (lo hi x : F) → lo ≼ hi → (lo ≼ fmax lo (fmin hi x)) × (fmax lo (fmin hi x) ≼ hi)
  clamp_bounds lo hi x h = ground (arith, le_fmax lo (fmin hi x), fmin_le hi x)

  pub fmax_le : (a b c : F) → a ≼ c → b ≼ c → fmax a b ≼ c
  fmax_le a b c h k = ground arith
