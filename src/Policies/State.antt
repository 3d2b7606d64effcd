-- ===== src/Policies/State.antt =====
-- The state that the policies of auto_router/policies.py share, and the price of a turn.
-- The texts of `Choice.reason` are constructors that hold what the source formats.
use auto_model_router.Prelude.{
  ◌≡◌, refl, ℕ, zero, suc, ◌+◌, ◌/◌, max, String, Bool, false, not, ◌&&◌, Option, none, some, leb,
  ltb, str_eq, string_eq, if◌then◌else◌,
}
use auto_model_router.Prelude.Float.{Float, lit, ◌⊕◌, ◌⊗◌, ◌=?◌}
use auto_model_router.Prelude.Dict
use auto_model_router.Prelude.Dict.{Dict}
use auto_model_router.Catalog
use auto_model_router.Catalog.{Prices, ModelInfo, Catalog, or_else, truthy}
use auto_model_router.Economics.{SuccessModel, is_warm, turn_cost}
use auto_model_router.Quota.{QuotaDecision}

pub record TurnRequest (F : Type 0) : Type 0 where
  pub category : String
  pub difficulty : F
  pub prompt_tokens : ℕ
  pub output_tokens : ℕ
  pub now : F
  pub steps : ℕ
  pub growth_per_step : ℕ
  pub needs_tools : Bool
  pub needs_vision : Bool
  pub follow_up : F
  pub stakes_usd : F
  pub detect_prob : F
  pub remaining_turns : F
  pub difficulty_confidence : F
  pub needs_long_context : Bool
  pub request_chars : ℕ
  pub stated_max_tokens : Option ℕ

pub record Conversation (F : Type 0) : Type 0 where
  pub current : Option String
  pub warm : Dict String (ℕ × F)
  pub floor : F
  pub floor_set_at : F
  pub turns : ℕ
  pub switches : ℕ
  pub escalations : ℕ

pub record Context (F : Type 0) : Type 0 where
  pub catalog : Catalog F
  pub success : SuccessModel F
  pub quota : Dict String (QuotaDecision F)
  pub subscription_reference : Dict String String
  pub reference_catalog : Option (Catalog F)

pub data Reason (F : Type 0) : Type 0 where
  static_model static_strongest static_retry : Reason F
  cheapest_above : F → Reason F
  on_target capability_first : Reason F
  downgrade_pays stay_cheaper : F → F → Reason F
  start_cheap : F → Reason F
  already_cheapest below_start_bar cache_expired : Reason F
  after_failure : String → Reason F
  operator_rule : ℕ → ℕ → Reason F
  no_finite_option margin_kept : Reason F
  min_expected : F → F → Reason F
  -- a reason followed by "; operator rule not applied: the route is …"
  not_a_candidate not_metered : Reason F → Reason F

pub record Choice (F : Type 0) : Type 0 where
  pub model : String
  pub reason : Reason F
  pub expected_cost : F
  pub p_success : F

-- `NoRouteAvailable`, a missing catalog entry, `min` or `max` of nothing, and a sum with `None`.
pub data Error : Type 0 where
  no_route_available key_error value_error type_error : Error

pub data Result {ℓ} (A : Type ℓ) : Type ℓ where
  raises : Error → Result A
  ok : A → Result A

infixl 5 ◌>>=◌
abbrev pub ◌>>=◌ {ℓ κ} : {X : Type ℓ} {Y : Type κ} → Result X → (X → Result Y) → Result Y
raises why >>= next = raises why
ok x >>= next = next x

abbrev pub is_switch : Option String → String → Bool
is_switch none name = false
is_switch (some c) name = not (str_eq c name)

abbrev pub or_raise {ℓ} : {A : Type ℓ} → Option A → Error → Result A
or_raise none e = raises e
or_raise (some a) e = ok a

module _ {A : Type 0} where
  pub ok-injective : {a b : A} → ok a ≡ ok b → a ≡ b
  ok-injective h = cc

  pub or_raise-ok : (o : Option A) (e : Error) {a : A} → or_raise o e ≡ ok a → o ≡ some a
  or_raise-ok none e h = cc
  or_raise-ok (some a) e h = cc

-- Inversion of a chain of results that succeeded.
pub >>=-eq-ok :
    {X Y : Type 0} (step : Result X) (next : X → Result Y) {y : Y}
    → (step >>= next) ≡ ok y
    → (x : X) × (step ≡ ok x) × (next x ≡ ok y)
>>=-eq-ok (raises why) next done = cc
>>=-eq-ok (ok x) next done = (x, refl, done)

module _ {F : Type 0} ⦃fl : Float F⦄ where
  abbrev pub choice : String → Reason F → Choice F
  choice name why = record { model = name; reason = why; expected_cost = lit 0; p_success = lit 0 }

  abbrev warm_entry : ModelInfo F → F → Option (ℕ × F) → ℕ
  warm_entry m now none = 0
  warm_entry m now (some (tokens, last)) = if is_warm m (some last) now (lit 15) then tokens else 0

  unfoldable pub warm_tokens : Conversation F → ModelInfo F → F → ℕ
  unfolding Dict.get
  warm_tokens conv m now = warm_entry m now (Dict.get m.name conv.warm)

  unfoldable pub record_call : Conversation F → ModelInfo F → ℕ → ℕ → F → Conversation F
  unfolding Dict.insert
  record_call conv m prompt_tokens output_tokens now = record conv {
    warm =
        if leb m.cache.min_tokens prompt_tokens && ltb 0 m.cache.ttl_seconds
        then Dict.insert m.name (prompt_tokens + output_tokens, now) conv.warm
        else conv.warm;
    switches = if is_switch conv.current m.name then conv.switches + 1 else conv.switches;
    current = some m.name;
  }

  abbrev scaled : F → Prices F → Prices F
  scaled k p = record {
    input = p.input ⊗ k;
    output = p.output ⊗ k;
    cache_read = elim p.cache_read [ none ↦ none | some r ↦ some (r ⊗ k) ];
    cache_write = elim p.cache_write [ none ↦ none | some w ↦ some (w ⊗ k) ];
  }

  -- The list-price model of a subscription route.
  abbrev reference_of : ModelInfo F → Context F → Option (ModelInfo F)
  reference_of m ctx =
      Catalog.get (or_else ctx.reference_catalog ctx.catalog)
        (Dict.get m.name ctx.subscription_reference)

  abbrev at_shadow_price : ModelInfo F → F → Option (ModelInfo F) → ModelInfo F
  at_shadow_price m multiplier none = m
  at_shadow_price m multiplier (some ref) =
      if multiplier =? lit 0
      then m
      else record m { prices = scaled multiplier ref.prices; cache = ref.cache }

  abbrev plan_price : ModelInfo F → Context F → Option (QuotaDecision F) → Option (ModelInfo F)
  plan_price m ctx none = none
  plan_price m ctx (some d) =
      if d.open_for_use then some (at_shadow_price m d.multiplier (reference_of m ctx)) else none

  -- `_priced`
  unfoldable pub priced : ModelInfo F → Context F → Option (ModelInfo F)
  priced m ctx =
      if truthy m.subscription
      then plan_price m ctx (Dict.get (or_else m.subscription "") ctx.quota)
      else some m

  -- The loop of `turn_call_cost` over the steps that are left.
  step_costs : ℕ → ModelInfo F → ℕ → ℕ → ℕ → ℕ → F → F
  step_costs zero m growth out prompt warm total = total
  step_costs (suc n) m growth out prompt warm total =
      step_costs n m growth out (prompt + growth) (prompt + out)
        (total ⊕ turn_cost m prompt warm out)

  abbrev pub out_per_step : ModelInfo F → TurnRequest F → ℕ
  out_per_step m req =
      max 1 (fl.truncate (lit req.output_tokens ⊗ m.output_appetite) / max 1 req.steps)

  unfoldable pub turn_call_cost : ModelInfo F → TurnRequest F → ℕ → Context F → F
  unfolding step_costs
  turn_call_cost m req warm ctx = elim (priced m ctx) [
    | none ↦ fl.inf
    | some effective ↦
        step_costs (max 1 req.steps) effective req.growth_per_step (out_per_step m req)
          req.prompt_tokens warm (lit 0)
  ]

  -- `turn_call_cost(m, req, conv.warm_tokens(m, req.now), ctx)`
  abbrev pub own_cost : ModelInfo F → Conversation F → TurnRequest F → Context F → F
  own_cost m conv req ctx = turn_call_cost m req (warm_tokens conv m req.now) ctx
