-- ===== src/Verify.antt =====
-- auto_router/verify.py: which answers are checked by the judge, and what the router does with a
-- verdict. The configuration dictionaries `intelligence_threshold` and `reference` are records with
-- the keys that the code reads, `unknown` in lower case; the `info` dictionaries for the decision
-- record are left out. `retry_messages` and `from_config` are not modelled.
pub mod Checks
use auto_model_router.Prelude.{
  ℕ, String, Bool, true, false, not, ◌&&◌, ◌||◌, Option, none, some, List, str_eq, ltb, string_eq,
  if◌then◌else◌, any, is_some,
}
use auto_model_router.Prelude.Float.{Float, lit, decimal, ◌⊕◌, ◌⊗◌, ◌≤?◌, ◌<?◌, fmax}
use auto_model_router.Prelude.Dict
use auto_model_router.Prelude.Dict.{Dict}
use auto_model_router.Catalog.{ModelInfo, Prices, or_else, equals, truthy, cap_with}

pub record Threshold (F : Type 0) : Type 0 where
  pub enabled : Bool
  pub value : Option F
  pub per_category : Bool
  pub unknown : String

pub record Grade (F : Type 0) : Type 0 where
  pub value : F
  pub strength : String

pub record Reference (F : Type 0) : Type 0 where
  pub intelligence_index : Option F
  pub capability : Dict String (Grade F)

pub record VerifyPolicy (F : Type 0) : Type 0 where
  pub enabled : Bool
  pub max_price_per_mtok : F
  pub max_capability : F
  pub thresholds : Dict String F
  pub catch_rate : Dict String F
  pub false_flag_rate : Dict String F
  pub fix_rate : Dict String F
  pub skip_categories : List String
  pub always : List String
  pub never : List String
  pub max_request_chars : ℕ
  pub carry_failed_attempt : Bool
  pub difficulty_floor : F
  pub min_capability_gain : F
  pub judge_usd : F
  pub judge_seconds : F
  pub intelligence_threshold : Option (Threshold F)
  pub reference : Option (Reference F)
  pub max_escalations : ℕ
  pub buffer_streams : Bool

-- The rule that asks for a check, or the reason against one.
pub data Gate : Type 0 where
  disabled no_judge blind too_long above_tier : Gate
  by_threshold by_tier : Gate

abbrev pub asks : Gate → Bool
asks by_threshold = true
asks by_tier = true
asks _ = false

abbrev pub is_true : Option Bool → Bool
is_true none = false
is_true (some b) = b

abbrev pub named : String → List String → Bool
named name names = any (λ n. str_eq n name) names

module _ {F : Type 0} ⦃fl : Float F⦄ where
  unfoldable pub blended_price : ModelInfo F → F
  blended_price m = m.prices.input ⊗ decimal 8 1 ⊕ m.prices.output ⊗ decimal 2 1

  unfoldable pub threshold_active : VerifyPolicy F → Bool
  threshold_active v = elim v.intelligence_threshold [ none ↦ false | some t ↦ t.enabled ]

  -- `reference or {}`
  abbrev pub reference_index : VerifyPolicy F → Option F
  reference_index v = elim v.reference [ none ↦ none | some r ↦ r.intelligence_index ]

  abbrev pub reference_grade : VerifyPolicy F → String → Option (Grade F)
  reference_grade v category = elim v.reference [
    | none ↦ none
    | some r ↦ Dict.get category r.capability
  ]

  -- The comparison on the headline index, where the category was not measured on both sides.
  abbrev pub index_gate : Threshold F → Option F → Option F → Option Bool
  index_gate t none index = none
  index_gate t (some bar) none = some (not (str_eq t.unknown "skip"))
  index_gate t (some bar) (some index) = some (index <? bar)

  abbrev pub bar_of : Threshold F → Option F → Option F
  bar_of t none = t.value
  bar_of t (some i) = some i

  -- The model's capability and the reference's, where both were measured directly.
  abbrev pub both_direct : Threshold F → Option (Grade F) → ModelInfo F → String → Option (F × F)
  both_direct t none m category = none
  both_direct t (some g) m category = elim (Dict.get category m.capability) [
    | none ↦ none
    | some c ↦
        if t.per_category
          && str_eq g.strength "direct"
          && equals (Dict.get category m.capability_strength) "direct"
        then some (c, g.value)
        else none
  ]

  abbrev pub gate_with : VerifyPolicy F → Threshold F → ModelInfo F → String → Option Bool
  gate_with v t m category = elim (both_direct t (reference_grade v category) m category) [
    | none ↦ index_gate t (bar_of t (reference_index v)) m.intelligence_index
    | some (c, bar) ↦ some (c <? bar)
  ]

  unfoldable pub intelligence_gate : VerifyPolicy F → ModelInfo F → String → Option Bool
  intelligence_gate v m category = elim v.intelligence_threshold [
    | none ↦ none
    | some t ↦ if t.enabled then gate_with v t m category else none
  ]

  -- `d.get(category, d.get("default", e))`
  abbrev pub rate : Dict String F → String → F → F
  rate d category e = or_else (Dict.get category d) (or_else (Dict.get "default" d) e)

  unfoldable pub threshold : VerifyPolicy F → String → F
  threshold v category = rate v.thresholds category (decimal 30 2)

  unfoldable pub catch_of : VerifyPolicy F → String → F
  catch_of v category = rate v.catch_rate category (lit 0)

  unfoldable pub false_flag : VerifyPolicy F → String → F
  false_flag v category = rate v.false_flag_rate category (lit 0)

  unfoldable pub fix : VerifyPolicy F → String → F
  fix v category = rate v.fix_rate category (decimal 5 1)

  unfoldable pub tier_ok : VerifyPolicy F → ModelInfo F → String → F → Bool
  tier_ok v m category evidence_discount =
      if named m.name v.never
      then false
      else if named m.name v.always
      then true
      else if truthy m.subscription
      then false
      else if v.max_price_per_mtok <? blended_price m
      then false
      else cap_with m category (decimal 5 1) evidence_discount (lit 50) <? v.max_capability

  -- The intelligence rule is not asked about a route that is never checked or that is a plan.
  abbrev pub below_reference : VerifyPolicy F → ModelInfo F → String → Option Bool
  below_reference v m category =
      if not (named m.name v.never) && not (truthy m.subscription)
      then intelligence_gate v m category
      else none

  unfoldable pub gate : VerifyPolicy F → ModelInfo F → String → ℕ → Bool → F → Bool → Gate
  gate v m category request_chars needs_long_context evidence_discount judge_available =
      if not v.enabled
      then disabled
      else if not judge_available
      then no_judge
      else if named category v.skip_categories || needs_long_context
      then blind
      else if ltb v.max_request_chars request_chars
      then too_long
      else if is_true (below_reference v m category)
      then by_threshold
      else if tier_ok v m category evidence_discount
      then by_tier
      else above_tier

  unfoldable pub applies : VerifyPolicy F → ModelInfo F → String → ℕ → Bool → F → Bool → Bool
  unfolding gate
  applies v m category chars long discount judge =
      asks (gate v m category chars long discount judge)

pub record Judgement (F : Type 0) : Type 0 where
  pub failed : Bool
  pub p_adequate : F
  pub failure : String
  pub latency_s : F
  pub model : String

pub record Verdict (F : Type 0) : Type 0 where
  pub verified : Bool
  pub p_adequate : Option F
  pub threshold : Option F
  pub escalate : Bool
  pub failure : String
  pub latency_ms : F
  pub judge_failed : Bool
  pub judge_model : String
  pub reason : String
  pub category : String
  pub model : String
  pub escalated_to : Option String
  pub rule : Option String
  pub judge_backend : Option String
  pub escalations : ℕ

module _ {F : Type 0} ⦃fl : Float F⦄ where
  unfoldable pub not_verified : String → String → String → Verdict F
  not_verified reason model category = record {
    verified = false;
    p_adequate = none;
    threshold = none;
    escalate = false;
    failure = "unknown";
    latency_ms = lit 0;
    judge_failed = false;
    judge_model = "";
    reason = reason;
    category = category;
    model = model;
    escalated_to = none;
    rule = none;
    judge_backend = none;
    escalations = 0;
  }

  unfoldable pub verdict_from : Judgement F → VerifyPolicy F → String → String → Verdict F
  unfolding threshold
  verdict_from j v category model =
      let bar : F = threshold v category in
      if j.failed
      then record {
        verified = true;
        p_adequate = none;
        threshold = some bar;
        escalate = false;
        failure = "unknown";
        latency_ms = j.latency_s ⊗ lit 1000;
        judge_failed = true;
        judge_model = "";
        reason = "the judge was unreachable";
        category = category;
        model = model;
        escalated_to = none;
        rule = none;
        judge_backend = none;
        escalations = 0;
      }
      else record {
        verified = true;
        p_adequate = some j.p_adequate;
        threshold = some bar;
        escalate = j.p_adequate <? bar;
        failure = j.failure;
        latency_ms = j.latency_s ⊗ lit 1000;
        judge_failed = false;
        judge_model = j.model;
        reason = "";
        category = category;
        model = model;
        escalated_to = none;
        rule = none;
        judge_backend = none;
        escalations = 0;
      }
