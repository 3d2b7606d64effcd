-- ===== src/Prelude/Fixed.antt =====
-- Millionths on the native numbers: values on which the assumptions about floats hold and the
-- definitions run. Subtraction stops at 0, and what reaches 10 ^ 30 counts as infinite.
use Prim.Native.Nat.{ℕ, ◌+◌, ◌-◌, ◌*◌, ◌/◌, ◌≤◌, ◌<◌, ◌^◌}
use mathlib.Core.Path.{◌≡◌}
use mathlib.Core.Bool.{true}
use native.Mathlib.Omega.{arith}
use native.Mathlib.Nat.{le_trans, div-mul-le_self, le-div_iff_mul-le}
use auto_model_router.Prelude.Tests.{ltb, leb, leb→le}
use auto_model_router.Prelude.Float.{Float, IsOrdered, IsMonotone}

pub data Fixed : Type 0 where
  millionths : ℕ → Fixed

abbrev pub raw : Fixed → ℕ
raw (millionths n) = n

instance abbrev pub fixed_float : Float Fixed
fixed_float = record {
  of_ℕ = λ n. millionths (n * 1_000_000);
  decimal = λ m k. millionths (m * 1_000_000 / 10 ^ k);
  inf = millionths (10 ^ 30);
  neg = λ a. millionths 0;
  add = λ a b. millionths (raw a + raw b);
  sub = λ a b. millionths (raw a - raw b);
  mul = λ a b. millionths (raw a * raw b / 1_000_000);
  div = λ a b. millionths (raw a * 1_000_000 / raw b);
  pow = λ a b. a;
  exp = λ a. millionths (raw a + 1_000_000);
  log = λ a. millionths (raw a - 1_000_000);
  round = λ a n. a;
  truncate = λ a. raw a / 1_000_000;
  le = λ a b. leb (raw a) (raw b);
  finite = λ a. ltb (raw a) (10 ^ 30);
}

pub Fixed-IsOrdered : IsOrdered Fixed
Fixed-IsOrdered = record {
  le_refl = λ a. ground arith;
  le_trans = λ a b c h k. ground arith;
  le_total = λ a b. ground arith;
}

div_mono : (x y k : ℕ) → 0 < k → x ≤ y → x / k ≤ y / k
div_mono x y k p h = (le-div_iff_mul-le p).1 (le_trans (div-mul-le_self x k) h)

mul_step : (a b c : ℕ) → b ≤ c → leb (b * a / 1_000_000) (c * a / 1_000_000) ≡ true
mul_step a b c h =
    let p : b * a / 1_000_000 ≤ c * a / 1_000_000 = div_mono _ _ _ (omega arith) (grind arith) in
    ground arith

div_step : (a b c : ℕ) → 0 < c → a ≤ b → leb (a * 1_000_000 / c) (b * 1_000_000 / c) ≡ true
div_step a b c p h =
    let q : a * 1_000_000 / c ≤ b * 1_000_000 / c = div_mono _ _ _ p (omega arith) in ground arith

pub Fixed-IsMonotone : IsMonotone Fixed
Fixed-IsMonotone = record {
  order = Fixed-IsOrdered;
  of_ℕ_mono = λ m n h. ground arith;
  of_ℕ_pos = λ n h. ground arith;
  zero_add = λ a. ground arith;
  add_zero = λ a. ground arith;
  add_mono = λ a b c d h k. ground arith;
  sub_mono = λ a b c h. ground arith;
  sub_nonneg = λ a b h. ground arith;
  mul_nonneg = λ a b h k. ground arith;
  mul_mono = λ a b c h k. mul_step (raw a) (raw b) (raw c) (leb→le _ _ k);
  div_mono = λ a b c h k. div_step (raw a) (raw b) (raw c) (ground arith) (leb→le _ _ k);
  div_nonneg = λ a c h k. ground arith;
}
