-- ===== src/Economics/Bounds.antt =====
-- The bounds and the order of the cost of a call of auto_router/economics.py.
use auto_model_router.Prelude.{
  ℕ, ◌+◌, ◌-◌, ◌≤◌, ◌<◌, min, ◌≡◌, true, some, arith, string_eq, pair_eq,
}
use auto_model_router.Prelude.Float.{Float, IsMonotone, lit, ◌⊕◌, ◌⊖◌, ◌⊗◌, ◌≼◌, fmax}
use auto_model_router.Catalog.{ModelInfo, read, write}
use auto_model_router.Economics.{is_warm, per_million, turn_cost}

module _ {F : Type 0} ⦃fl : Float F⦄ where
  -- Prices and the hit rate as a provider publishes them.
  pub record IsPriced (m : ModelInfo F) : Type 0 where
    pub input_nonneg : lit 0 ≼ m.prices.input
    pub output_nonneg : lit 0 ≼ m.prices.output
    pub read_nonneg : lit 0 ≼ read m.prices
    pub write_nonneg : lit 0 ≼ write m.prices
    pub hit_nonneg : lit 0 ≼ m.cache.hit_rate
    pub hit_le_one : m.cache.hit_rate ≼ lit 1

module _ {F : Type 0} ⦃fl : Float F⦄ (laws : IsMonotone F) where
  open laws use {
    le_refl, le_trans, of_ℕ_mono, of_ℕ_pos, zero_add, add_mono, sub_mono, sub_nonneg, mul_nonneg,
    mul_mono, div_mono, div_nonneg,
  }

  pub lit_nonneg : (n : ℕ) → lit {F = F} 0 ≼ lit n
  lit_nonneg n = of_ℕ_mono 0 n (omega arith)

  pub add_nonneg : (a b : F) → lit 0 ≼ a → lit 0 ≼ b → lit 0 ≼ a ⊕ b
  add_nonneg a b h k = le_trans _ _ _ k (rw (zero_add b) at (add_mono (lit 0) a b b h (le_refl b)))

  per_million_nonneg : (a : F) → lit 0 ≼ a → lit 0 ≼ per_million a
  per_million_nonneg a h = div_nonneg a _ (of_ℕ_pos 1_000_000 (omega arith)) h

  per_million_mono : (a b : F) → a ≼ b → per_million a ≼ per_million b
  per_million_mono a b h = div_mono a b _ (of_ℕ_pos 1_000_000 (omega arith)) h

  lit_mul_nonneg : (n : ℕ) (a : F) → lit 0 ≼ a → lit 0 ≼ lit n ⊗ a
  lit_mul_nonneg n a h = mul_nonneg _ _ (lit_nonneg n) h

  module _ (m : ModelInfo F) (priced : IsPriced m) where
    plain_nonneg :
        (prompt out : ℕ)
        → lit 0 ≼ per_million (lit prompt ⊗ m.prices.input ⊕ lit out ⊗ m.prices.output)
    plain_nonneg prompt out = per_million_nonneg _ (
        add_nonneg _ _ (lit_mul_nonneg prompt _ priced.input_nonneg)
          (lit_mul_nonneg out _ priced.output_nonneg))

    blend_nonneg :
        lit 0 ≼ m.cache.hit_rate ⊗ read m.prices ⊕ (lit 1 ⊖ m.cache.hit_rate) ⊗ write m.prices
    blend_nonneg =
        add_nonneg _ _ (mul_nonneg _ _ priced.hit_nonneg priced.read_nonneg)
          (mul_nonneg _ _ (sub_nonneg _ _ priced.hit_le_one) priced.write_nonneg)

    cached_nonneg :
        (warm cold out : ℕ)
        → lit 0
          ≼ per_million (
              lit warm
                ⊗ (m.cache.hit_rate ⊗ read m.prices ⊕ (lit 1 ⊖ m.cache.hit_rate) ⊗ write m.prices)
              ⊕ lit cold ⊗ write m.prices
              ⊕ lit out ⊗ m.prices.output)
    cached_nonneg warm cold out = per_million_nonneg _ (
        add_nonneg _ _
          (add_nonneg _ _ (lit_mul_nonneg warm _ blend_nonneg)
            (lit_mul_nonneg cold _ priced.write_nonneg))
          (lit_mul_nonneg out _ priced.output_nonneg))

    -- For published prices a call never costs less than nothing, whatever the cache state.
    pub turn_cost_nonneg : (prompt warm out : ℕ) → lit 0 ≼ turn_cost m prompt warm out
    unfolding turn_cost
    turn_cost_nonneg prompt warm out = ground (
      arith,
      le_refl (lit 0),
      plain_nonneg prompt out,
      cached_nonneg (min warm prompt) (prompt - min warm prompt) out,
    )

    lit_mul_mono : (a : F) (n k : ℕ) → lit 0 ≼ a → n ≤ k → lit n ⊗ a ≼ lit k ⊗ a
    lit_mul_mono a n k h le = mul_mono a _ _ h (of_ℕ_mono n k le)

    more_output :
        (x : F) (out out' : ℕ)
        → out ≤ out'
        → per_million (x ⊕ lit out ⊗ m.prices.output) ≼ per_million (x ⊕ lit out' ⊗ m.prices.output)
    more_output x out out' h =
        per_million_mono _ _
          (add_mono _ _ _ _ (le_refl x) (lit_mul_mono _ out out' priced.output_nonneg h))

    -- For published prices a call with more output tokens never costs less.
    pub turn_cost_mono :
        (prompt warm out out' : ℕ)
        → out ≤ out'
        → turn_cost m prompt warm out ≼ turn_cost m prompt warm out'
    unfolding turn_cost
    turn_cost_mono prompt warm out out' h = ground (
      arith,
      le_refl (lit 0),
      more_output (lit prompt ⊗ m.prices.input) out out',
      more_output
          (lit (min warm prompt)
              ⊗ (m.cache.hit_rate ⊗ read m.prices ⊕ (lit 1 ⊖ m.cache.hit_rate) ⊗ write m.prices)
            ⊕ lit (prompt - min warm prompt) ⊗ write m.prices)
          out out',
    )

  -- A prefix that is warm now was warm at every earlier moment.
  pub is_warm_earlier :
      (m : ModelInfo F) (last now earlier safety : F)
      → earlier ≼ now
      → is_warm m (some last) now safety ≡ true
      → is_warm m (some last) earlier safety ≡ true
  unfolding is_warm
  is_warm_earlier m last now earlier safety h w = ground (
    arith,
    sub_mono earlier now last h,
    le_trans (earlier ⊖ last) (now ⊖ last) (fmax (lit 0) (lit m.cache.ttl_seconds ⊖ safety)),
  )

module _ {F : Type 0} ⦃fl : Float F⦄ where
  -- A prompt below the provider's minimum for caching is priced the same whatever is recorded as
  -- warm.
  pub turn_cost_uncached :
      (m : ModelInfo F) (prompt warm warm' out : ℕ)
      → prompt < m.cache.min_tokens
      → turn_cost m prompt warm out ≡ turn_cost m prompt warm' out
  unfolding turn_cost
  turn_cost_uncached m prompt warm warm' out h = ground arith

  -- The warm part never exceeds the prompt.
  pub turn_cost_warm :
      (m : ModelInfo F) (prompt extra out : ℕ)
      → turn_cost m prompt (prompt + extra) out ≡ turn_cost m prompt prompt out
  unfolding turn_cost
  turn_cost_warm m prompt extra out =
      let same : min (prompt + extra) prompt ≡ min prompt prompt = omega arith in rw (same)
