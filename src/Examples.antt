-- ===== src/Examples.antt =====
-- Concrete routes, requests and policies on which the definitions are evaluated.
mod Routing
mod Serving
mod Pricing
mod Surface
mod Dialects
mod Live
use auto_model_router.Prelude.{ℕ, String, Bool, true, false, Option, none, some, List, [], ◌∷◌}
use auto_model_router.Prelude.Float.{decimal, lit}
use auto_model_router.Prelude.Fixed.{Fixed, fixed_float, millionths}
use auto_model_router.Catalog.{Prices, CacheRules, ModelInfo, Catalog, of_list}
use auto_model_router.Economics.{SuccessModel}
use auto_model_router.Quota.{QuotaState, PacingRule}
use auto_model_router.Verify.{Threshold, VerifyPolicy, Judgement}
use auto_model_router.OutcomeMemory.{AvoidanceRule, OutcomeMemory}
use auto_model_router.Policies.State.{TurnRequest, Conversation, Context}
use auto_model_router.Policies.Expected.{ExpectedPolicy}

abbrev pub free_prices : Prices Fixed
free_prices = record { input = lit 0; output = lit 0; cache_read = none; cache_write = none }

abbrev pub paid_prices : Prices Fixed
paid_prices = record {
  input = lit 3;
  output = lit 15;
  cache_read = some (decimal 3 1);
  cache_write = none;
}

abbrev pub five_minutes : CacheRules Fixed
five_minutes = record {
  ttl_seconds = 300;
  min_tokens = 1024;
  refresh_on_hit = true;
  hit_rate = lit 1;
}

abbrev pub route : String → Prices Fixed → ℕ → Option String → ModelInfo Fixed
route name prices coding subscription = record {
  name = name;
  provider = "provider";
  upstream_id = name;
  prices = prices;
  cache = five_minutes;
  context_tokens = 200_000;
  max_output_tokens = 8192;
  vision = false;
  tools = true;
  capability = ("coding", lit coding) ∷ [];
  benchmaxxing = lit 0;
  subscription = subscription;
  capability_source = "bench";
  capability_basis = [];
  capability_strength = [];
  evidence_stale = false;
  bench_id = none;
  latency_s = lit 1;
  success_key = none;
  launch_only = false;
  intelligence_index = none;
  task_tokens = none;
  output_appetite = lit 1;
  capability_assumed_from = none;
  local = false;
}

abbrev pub small : ModelInfo Fixed
small = route "small" free_prices 40 none

abbrev pub middle : ModelInfo Fixed
middle = route "middle" free_prices 60 none

abbrev pub large : ModelInfo Fixed
large = route "large" paid_prices 80 none

abbrev pub planned : ModelInfo Fixed
planned = route "planned" paid_prices 90 (some "claude")

abbrev pub routes : List (ModelInfo Fixed)
routes = small ∷ middle ∷ large ∷ planned ∷ []

abbrev pub catalog : Catalog Fixed
catalog = ("small", small) ∷ ("middle", middle) ∷ ("large", large) ∷ ("planned", planned) ∷ []

abbrev pub success_model : SuccessModel Fixed
success_model = record {
  offset = lit 5;
  slope = lit 2;
  scale = lit 10;
  floor = decimal 5 2;
  ceiling = decimal 97 2;
  per_category = [];
  benchmaxxing_weight = decimal 5 1;
  evidence_discount = lit 0;
  measured = [];
  measured_prior_n = none;
  measured_n = lit 30;
  length_penalty = lit 0;
  length_clamp = (lit 0, lit 1);
  smooth_ceiling = false;
}

abbrev pub context : Context Fixed
context = record {
  catalog = catalog;
  success = success_model;
  quota = [];
  subscription_reference = [];
  reference_catalog = none;
}

abbrev pub request : TurnRequest Fixed
request = record {
  category = "coding";
  difficulty = decimal 5 1;
  prompt_tokens = 4000;
  output_tokens = 500;
  now = lit 1000;
  steps = 1;
  growth_per_step = 0;
  needs_tools = true;
  needs_vision = false;
  follow_up = decimal 5 1;
  stakes_usd = decimal 5 1;
  detect_prob = decimal 5 1;
  remaining_turns = lit 3;
  difficulty_confidence = lit 1;
  needs_long_context = false;
  request_chars = 900;
  stated_max_tokens = none;
}

abbrev pub conversation : Conversation Fixed
conversation = record {
  current = some "small";
  warm = [];
  floor = lit 0;
  floor_set_at = lit 0;
  turns = 1;
  switches = 0;
  escalations = 0;
}

abbrev pub verify_policy : VerifyPolicy Fixed
verify_policy = record {
  enabled = true;
  max_price_per_mtok = lit 1;
  max_capability = lit 75;
  thresholds = ("default", decimal 3 1) ∷ [];
  catch_rate = ("default", decimal 6 1) ∷ [];
  false_flag_rate = ("default", decimal 1 1) ∷ [];
  fix_rate = ("default", decimal 5 1) ∷ [];
  skip_categories = "vision" ∷ [];
  always = [];
  never = [];
  max_request_chars = 24_000;
  carry_failed_attempt = true;
  difficulty_floor = decimal 6 1;
  min_capability_gain = lit 5;
  judge_usd = decimal 4 4;
  judge_seconds = decimal 7 1;
  intelligence_threshold = none;
  reference = none;
  max_escalations = 1;
  buffer_streams = false;
}

abbrev pub expected_policy : ExpectedPolicy Fixed
expected_policy = record {
  horizon = lit 1;
  half_life = lit 3600;
  switch_margin = decimal 1 1;
  verify = some verify_policy;
  judge_available = true;
  paid_rule_route = none;
  paid_rule_min_max_tokens = none;
}

abbrev pub pacing : PacingRule Fixed
pacing = record {
  weekly_reserve = decimal 8 1;
  hard_stop = decimal 95 2;
  session_stop = decimal 9 1;
  ramp = decimal 2 1;
  late_week_hours = lit 24;
  late_week_reserve = decimal 95 2;
  max_staleness_s = lit 3600;
}

-- A tenth of the week's budget used, a day before the reset.
abbrev pub quiet_week : QuotaState Fixed
quiet_week = record {
  week_used = decimal 1 1;
  week_resets_at = some (lit 87_400);
  session_used = some (decimal 2 1);
  measured_at = lit 900;
  source = "file";
}

abbrev pub rule : AvoidanceRule Fixed
rule = record {
  enabled = true;
  min_truncations = 2;
  min_rate = decimal 5 1;
  window = 3;
  ttl_s = lit 3600;
}
