-- ===== src/Economics.antt =====
-- auto_router/economics.py: the cost of a call and the success model. Token counts are natural
-- numbers; prices, rates and times are floats. `success_v2`, which loads fitted parameters from a
-- file, is not modelled: its result is a `SuccessModel` like any other.
pub mod Bounds
use auto_model_router.Prelude.{
  ℕ, zero, ◌+◌, ◌-◌, ◌≤◌, min, max, String, Bool, true, false, not, ◌&&◌, ◌||◌, Option, none, some,
  List, [], ◌∷◌, string_eq, pair_eq, nat_beq, ltb, if◌then◌else◌, is_some,
}
use auto_model_router.Prelude.Float.{
  Float, lit, decimal, ◌⊕◌, ◌⊖◌, ◌⊗◌, ◌⊘◌, ◌≤?◌, ◌<?◌, ◌=?◌, fmin, fmax,
}
use auto_model_router.Prelude.Dict
use auto_model_router.Prelude.Dict.{Dict}
use auto_model_router.Catalog.{
  Prices, ModelInfo, read, write, is_free, or_else, cap_with, measurement_key,
}

pub record SuccessModel (F : Type 0) : Type 0 where
  pub offset : F
  pub slope : F
  pub scale : F
  pub floor : F
  pub ceiling : F
  pub per_category : Dict String (F × F × F)
  pub benchmaxxing_weight : F
  pub evidence_discount : F
  -- (model, (category, bucket)) to a measured probability
  pub measured : Dict (String × (String × String)) F
  pub measured_prior_n : Option F
  pub measured_n : F
  pub length_penalty : F
  pub length_clamp : F × F
  pub smooth_ceiling : Bool

module _ {F : Type 0} ⦃fl : Float F⦄ where
  unfoldable pub is_warm : ModelInfo F → Option F → F → F → Bool
  is_warm m none now safety_seconds = false
  is_warm m (some last_used) now safety_seconds =
      not (nat_beq m.cache.ttl_seconds 0)
      && (now ⊖ last_used) ≤? fmax (lit 0) (lit m.cache.ttl_seconds ⊖ safety_seconds)

  abbrev pub per_million : F → F
  per_million x = x ⊘ lit 1_000_000

  unfoldable pub turn_cost_at : ModelInfo F → ℕ → ℕ → ℕ → F → F
  turn_cost_at m prompt_tokens warm_tokens output_tokens hit =
      let p = m.prices in
      let warm = min warm_tokens prompt_tokens in
      let cold = prompt_tokens - warm in
      let warm_cost : F = lit warm ⊗ (hit ⊗ read p ⊕ (lit 1 ⊖ hit) ⊗ write p) in
      if is_free p
      then lit 0
      else if ltb prompt_tokens m.cache.min_tokens
      then per_million (lit prompt_tokens ⊗ p.input ⊕ lit output_tokens ⊗ p.output)
      else per_million (warm_cost ⊕ lit cold ⊗ write p ⊕ lit output_tokens ⊗ p.output)

  -- `turn_cost` with the model's own hit rate, as every caller calls it
  unfoldable pub turn_cost : ModelInfo F → ℕ → ℕ → ℕ → F
  unfolding turn_cost_at
  turn_cost m prompt_tokens warm_tokens output_tokens =
      turn_cost_at m prompt_tokens warm_tokens output_tokens m.cache.hit_rate

  unfoldable pub token_equivalent_cost : ModelInfo F → ℕ → ℕ → ℕ → Option (ModelInfo F) → F
  token_equivalent_cost m prompt_tokens warm_tokens output_tokens list_prices =
      let ref = or_else list_prices m in
      if is_free ref.prices then lit 0 else turn_cost ref prompt_tokens warm_tokens output_tokens

  unfoldable pub horizon_cost : ModelInfo F → ℕ → ℕ → ℕ → F → ℕ → F
  horizon_cost m prompt_tokens warm_tokens output_tokens turns growth_per_turn =
      let total : F = turn_cost m prompt_tokens warm_tokens output_tokens in
      let remaining : F = fmax (lit 0) (turns ⊖ lit 1) in
      let follow : F =
        turn_cost m (prompt_tokens + growth_per_turn) (prompt_tokens + output_tokens)
          output_tokens in
      if remaining =? lit 0 then total else total ⊕ remaining ⊗ follow

  -- SuccessModel.bucket
  unfoldable pub bucket : F → String
  bucket difficulty =
      if difficulty <? decimal 34 2
      then "easy"
      else if difficulty <? decimal 67 2
      then "medium"
      else "hard"

  abbrev pub parameters : SuccessModel F → String → F × F × F
  parameters s category = or_else (Dict.get category s.per_category) (s.offset, s.slope, s.scale)

  -- the test of `length_penalty and task_tokens`, and the penalty
  abbrev pub budget : ModelInfo F → Option ℕ → ℕ
  budget m none = m.max_output_tokens
  budget m (some n) = if nat_beq n 0 then m.max_output_tokens else min m.max_output_tokens n

  abbrev pub length_term : SuccessModel F → ModelInfo F → Option ℕ → F → F
  length_term s m max_tokens z = elim m.task_tokens [
    | none ↦ z
    | some tokens ↦
        if (s.length_penalty =? lit 0) || (tokens =? lit 0)
        then z
        else (let ratio : F = fl.log (fmax tokens (lit 1) ⊘ lit (max (budget m max_tokens) 1)) in
            z ⊖ s.length_penalty ⊗ fmax s.length_clamp.0 (fmin s.length_clamp.1 ratio))
  ]

  unfoldable pub sigmoid : F → F
  sigmoid z = lit 1 ⊘ (lit 1 ⊕ fl.exp (fl.neg z))

  abbrev pub bounded : SuccessModel F → F → F
  bounded s value =
      if s.smooth_ceiling
      then s.floor ⊕ (s.ceiling ⊖ s.floor) ⊗ value
      else fmax s.floor (fmin s.ceiling value)

  unfoldable pub curve : SuccessModel F → ModelInfo F → String → F → Option ℕ → F
  curve s m category difficulty max_tokens =
      let (offset, slope, scale) = parameters s category in
      let cap : F = cap_with m category s.benchmaxxing_weight s.evidence_discount (lit 50) in
      let z : F = (cap ⊖ (offset ⊕ slope ⊗ difficulty)) ⊘ scale in
      let z' : F = fmax (fl.neg (lit 50)) (fmin (lit 50) (length_term s m max_tokens z)) in
      bounded s (sigmoid z')

  -- `combine` is the end of `p`: the measured cell, where there is one.
  abbrev pub combine : SuccessModel F → F → Option F → F
  combine s value none = value
  combine s value (some cell) = elim s.measured_prior_n [
    | none ↦ cell
    | some n ↦
        let prior_n : F = fmax n (lit 0) in
        let obs_n : F = fmax s.measured_n (lit 0) in
        if lit 0 <? (prior_n ⊕ obs_n)
        then (prior_n ⊗ value ⊕ obs_n ⊗ cell) ⊘ (prior_n ⊕ obs_n)
        else value
  ]

  abbrev pub cell_key : ModelInfo F → String → F → String × (String × String)
  cell_key m category difficulty = (measurement_key m, (category, bucket difficulty))

  unfoldable pub p : SuccessModel F → ModelInfo F → String → F → Option ℕ → F
  p s m category difficulty max_tokens =
      combine s (curve s m category difficulty max_tokens)
        (Dict.get (cell_key m category difficulty) s.measured)

  unfoldable pub difficulty_at : SuccessModel F → ModelInfo F → String → F → F
  difficulty_at s m category q =
      let (offset, slope, scale) = parameters s category in
      let cap : F = cap_with m category s.benchmaxxing_weight s.evidence_discount (lit 50) in
      let logit : F = fl.log (q ⊘ (lit 1 ⊖ q)) in
      fmax (lit 0) (fmin (lit 1) ((cap ⊖ scale ⊗ logit ⊖ offset) ⊘ slope))
