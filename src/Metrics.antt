-- ===== src/Metrics.antt =====
-- auto_router/metrics.py: the counters of the turns that were served. `started_at` and the lock are
-- left out; each method runs whole.
pub mod Counted
use auto_model_router.Prelude.{
  ℕ, ◌+◌, ◌-◌, String, Bool, true, false, Option, none, some, List, [], ◌∷◌, ◌++◌, length, drop,
  string_eq, if◌then◌else◌, nat_beq,
}
use auto_model_router.Prelude.Dict
use auto_model_router.Prelude.Dict.{Dict}
use auto_model_router.Prelude.Float.{Float, lit, ◌⊕◌, ◌⊘◌}
use auto_model_router.Catalog.{ModelInfo, or_else, truthy}
use auto_model_router.Usage.{Usage, total_input, cost_usd}

pub record Metrics (F : Type 0) : Type 0 where
  pub total_requests : ℕ
  pub classifier_failures : ℕ
  pub switches : ℕ
  pub stickiness_saves : ℕ
  pub escalations : ℕ
  pub by_category : Dict String ℕ
  pub by_model : Dict String ℕ
  pub errors_by_model : Dict String ℕ
  pub metered_cost_usd : F
  pub subscription_calls : ℕ
  pub tokens : Usage
  -- at most the last 500
  pub classification_ms : List F

-- The arguments of `record`
pub record Served (F : Type 0) : Type 0 where
  pub category : String
  pub model : ModelInfo F
  pub classification_ms : F
  pub usage : Option Usage
  pub switched : Bool
  pub stickiness_save : Bool
  pub escalated : Bool
  pub classifier_failed : Bool

-- `int(flag)`
abbrev pub int_of : Bool → ℕ
int_of true = 1
int_of false = 0

-- `counter[key] += 1`
unfoldable pub increment : String → Dict String ℕ → Dict String ℕ
increment key counter = Dict.insert key (or_else (Dict.get key counter) 0 + 1) counter

-- `append` of a `deque(maxlen=500)`
unfoldable pub append_bounded : {A : Type 0} → List A → A → List A
append_bounded xs x = drop (length xs + 1 - 500) (xs ++ (x ∷ []))

abbrev pub add_tokens : Usage → Usage → Usage
add_tokens t u = record {
  uncached_input = t.uncached_input + u.uncached_input;
  cached_read = t.cached_read + u.cached_read;
  cache_write = t.cache_write + u.cache_write;
  output = t.output + u.output;
}

module _ {F : Type 0} ⦃fl : Float F⦄ where
  abbrev pub no_metrics : Metrics F
  no_metrics = record {
    total_requests = 0;
    classifier_failures = 0;
    switches = 0;
    stickiness_saves = 0;
    escalations = 0;
    by_category = [];
    by_model = [];
    errors_by_model = [];
    metered_cost_usd = lit 0;
    subscription_calls = 0;
    tokens = record { uncached_input = 0; cached_read = 0; cache_write = 0; output = 0 };
    classification_ms = [];
  }

  abbrev pub add_usage : ModelInfo F → Option Usage → Metrics F → Metrics F
  add_usage model none m = m
  add_usage model (some u) m = record m {
    tokens = add_tokens m.tokens u;
    metered_cost_usd = m.metered_cost_usd ⊕ cost_usd model u;
  }

  -- `record`
  unfoldable pub record_turn : Served F → Metrics F → Metrics F
  record_turn s m = add_usage s.model s.usage (record m {
    total_requests = m.total_requests + 1;
    by_category = increment s.category m.by_category;
    by_model = increment s.model.name m.by_model;
    classification_ms = append_bounded m.classification_ms s.classification_ms;
    switches = m.switches + int_of s.switched;
    stickiness_saves = m.stickiness_saves + int_of s.stickiness_save;
    escalations = m.escalations + int_of s.escalated;
    classifier_failures = m.classifier_failures + int_of s.classifier_failed;
    subscription_calls = m.subscription_calls + int_of (truthy s.model.subscription);
  })

  unfoldable pub record_error : String → Metrics F → Metrics F
  record_error name m = record m { errors_by_model = increment name m.errors_by_model }

  abbrev pub sum_of : List F → F
  sum_of [] = lit 0
  sum_of (x ∷ xs) = x ⊕ sum_of xs

  -- Figures of `to_dict`, before they are rounded
  unfoldable pub avg_classification_ms : Metrics F → F
  avg_classification_ms m = elim m.classification_ms [
    | [] ↦ lit 0
    | t ∷ ts ↦ sum_of (t ∷ ts) ⊘ lit (length (t ∷ ts))
  ]

  unfoldable pub observed_cache_hit_rate : Metrics F → F
  observed_cache_hit_rate m =
      if nat_beq (total_input m.tokens) 0
      then lit 0
      else lit m.tokens.cached_read ⊘ lit (total_input m.tokens)
