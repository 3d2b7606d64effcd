-- ===== src/Router/Records.antt =====
-- The decision record: the classes of auto_router/decision.py and `explain`, `_cache_decision`,
-- `_classification_record` and `_evidence_confidence` of auto_router/router.py. The texts for display
-- (notes, bases of evidence) are left out, and so are the ids and times of a record.
use auto_model_router.Prelude.{
  ℕ, min, String, Bool, true, false, not, ◌||◌, Option, none, some, List, [], ◌∷◌, ◌++◌, map,
  str_eq, string_eq, ltb, nat_beq, if◌then◌else◌, keep, any, best, first, length, sort_by,
}
use auto_model_router.Prelude.Float.{Float, lit, decimal, ◌⊕◌, ◌⊖◌, ◌⊗◌, ◌<?◌, fmin, fmax}
use auto_model_router.Prelude.Dict
use auto_model_router.Catalog.{
  ModelInfo, CacheRules, or_else, cap_with, evidence_strength, evidence_weight, is_free,
}
use auto_model_router.Economics
use auto_model_router.Economics.{turn_cost}
use auto_model_router.Verify.{Verdict}
use auto_model_router.Policies.State.{
  TurnRequest, Conversation, Context, Reason, warm_tokens, own_cost,
}
use auto_model_router.Policies.Escalation.{Row}
use auto_model_router.Retries.{Avoidance, is_infinite}

-- `jev.Classification`, with the fields that the router reads
pub record Classification (F : Type 0) : Type 0 where
  pub category : String
  pub difficulty : F
  pub difficulty_confidence : F
  pub category_confidence : F
  pub needs_tools : F
  pub needs_vision : F
  pub needs_long_context : F
  pub follow_up : F
  pub stakes : F
  pub failed : Bool
  pub source_name : String
  pub model : String

pub record TaskClassification (F : Type 0) : Type 0 where
  pub category : String
  pub difficulty : F
  pub source : String
  pub category_confidence : F
  pub difficulty_confidence : F
  pub needs_tools : Bool
  pub needs_vision : Bool
  pub needs_long_context : Bool
  pub follow_up : F
  pub stakes_usd : F

pub record CandidateEvaluation (F : Type 0) : Type 0 where
  pub model : String
  pub capability : F
  pub evidence_strength : String
  pub evidence_stale : Bool
  pub p_success : F
  pub est_call_usd : Option F
  pub est_expected_usd : Option F
  pub warm_tokens : ℕ

pub data CacheStatus : Type 0 where
  no_cache too_short warm cold : CacheStatus

pub record CacheDecision (F : Type 0) : Type 0 where
  pub model : String
  pub status : CacheStatus
  pub warm_tokens : ℕ
  pub estimated_tokens_read_warm : ℕ
  pub estimated_usd_avoided : Option F

-- Why a route was taken: the policy's reason, or one of the router's own.
pub data Why (F : Type 0) : Type 0 where
  by_policy : Reason F → Why F
  in_tool_loop : Why F
  failing_results : ℕ → Reason F → Why F
  repeated_truncation : Why F
  next_usable : Why F
  clear_step_up : Why F

pub record RouteSelection (F : Type 0) : Type 0 where
  pub selected : String
  pub reason : Why F
  pub fallback : Option String
  pub switched_from : Option String
  pub considered : ℕ
  pub evidence_confidence : F
  pub safe_fallback : Option String
  pub turn_start : Bool
  pub truncation_memory : Option (Avoidance F)

pub record EstimatedOutcome (F : Type 0) : Type 0 where
  pub model : String
  pub p_success : F
  pub cost_usd : Option F
  pub prompt_tokens : ℕ
  pub output_tokens : ℕ

pub record ObservedOutcome (F : Type 0) : Type 0 where
  pub model : String
  pub status : String
  pub http_status : Option ℕ
  pub cost_usd : Option F
  pub attempts : ℕ
  pub escalated_from : Option String

pub record RoutingExplanation (F : Type 0) : Type 0 where
  pub conversation : String
  pub classification : TaskClassification F
  pub selection : RouteSelection F
  pub estimated : EstimatedOutcome F
  pub cache : CacheDecision F
  pub candidates : List (CandidateEvaluation F)
  pub observed : Option (ObservedOutcome F)
  pub verification : Option (Verdict F)

abbrev pub or_label : Option String → Bool → String → Option String
or_label none applies label = if applies then some label else none
or_label (some l) applies label = some l

abbrev pub other_than : String → Option String → Option String
other_than name none = none
other_than name (some from) = if str_eq from name then none else some from

module _ {F : Type 0} ⦃fl : Float F⦄ where
  abbrev pub source_of : Classification F → String
  source_of c = if c.failed then "fallback" else c.source_name

  -- `_finite`
  abbrev pub finite_or_none : F → Option F
  finite_or_none v = if is_infinite v then none else some v

  unfoldable pub candidate_from :
      ModelInfo F → String → F → Option F → Option F → ℕ → F → CandidateEvaluation F
  candidate_from m category p_success call_usd expected_usd warm_part discount = record {
    model = m.name;
    capability = cap_with m category (decimal 5 1) discount (lit 50);
    evidence_strength = evidence_strength m category;
    evidence_stale = m.evidence_stale;
    p_success = p_success;
    est_call_usd = call_usd;
    est_expected_usd = expected_usd;
    warm_tokens = warm_part;
  }

  -- `_classification_record`
  unfoldable pub classification_record :
      Option (Classification F) → TurnRequest F → Bool → TaskClassification F
  classification_record cls req turn_start =
      let unknown : TaskClassification F = record {
        category = req.category;
        difficulty = req.difficulty;
        source = "disabled";
        category_confidence = lit 0;
        difficulty_confidence = lit 0;
        needs_tools = req.needs_tools;
        needs_vision = req.needs_vision;
        needs_long_context = false;
        follow_up = req.follow_up;
        stakes_usd = req.stakes_usd;
      } in
      if not turn_start
      then record unknown { source = "tool-loop"; needs_vision = false }
      else elim cls [
        | none ↦ unknown
        | some c ↦ record unknown {
          source = source_of c;
          category_confidence = c.category_confidence;
          difficulty_confidence = c.difficulty_confidence;
          needs_long_context = decimal 5 1 <? c.needs_long_context;
        }
      ]

  abbrev pub cache_status : CacheRules F → ℕ → ℕ → CacheStatus
  cache_status rules prompt_tokens warm_part =
      if nat_beq rules.ttl_seconds 0
      then no_cache
      else if ltb prompt_tokens rules.min_tokens
      then too_short
      else if ltb 0 warm_part
      then warm
      else cold

  -- What a warm prefix saves: nothing is claimed without a price for reading it.
  abbrev pub avoided_usd : CacheStatus → ModelInfo F → TurnRequest F → ℕ → Option F
  avoided_usd warm m req warm_part = elim m.prices.cache_read [
    | none ↦ none
    | some price ↦
        if is_free m.prices
        then none
        else some (
            fmax (lit 0) (
              turn_cost m req.prompt_tokens 0 req.output_tokens
              ⊖ turn_cost m req.prompt_tokens warm_part req.output_tokens))
  ]
  avoided_usd no_cache m req warm_part = none
  avoided_usd too_short m req warm_part = none
  avoided_usd cold m req warm_part = none

  abbrev pub read_warm : CacheStatus → ModelInfo F → TurnRequest F → ℕ → ℕ
  read_warm warm m req warm_part =
      fl.truncate (lit (min warm_part req.prompt_tokens) ⊗ m.cache.hit_rate)
  read_warm no_cache m req warm_part = 0
  read_warm too_short m req warm_part = 0
  read_warm cold m req warm_part = 0

  -- `_cache_decision`
  unfoldable pub cache_decision : ModelInfo F → Conversation F → TurnRequest F → CacheDecision F
  cache_decision m conv req =
      let part = warm_tokens conv m req.now in
      let status = cache_status m.cache req.prompt_tokens part in
      record {
        model = m.name;
        status = status;
        warm_tokens = part;
        estimated_tokens_read_warm = read_warm status m req part;
        estimated_usd_avoided = avoided_usd status m req part;
      }

  abbrev pub classifier_confidence : Option (Classification F) → F
  classifier_confidence none = lit 0
  classifier_confidence (some c) =
      if c.failed then lit 0 else fmin c.category_confidence c.difficulty_confidence

  -- `_evidence_confidence`
  unfoldable pub evidence_confidence : Option (Classification F) → CandidateEvaluation F → F
  evidence_confidence cls chosen =
      let capability : F = or_else (Dict.get chosen.evidence_strength evidence_weight) (lit 0) in
      fl.round
        (fmin (lit 1)
          (fmax (lit 0) (decimal 5 1 ⊗ capability ⊕ decimal 5 1 ⊗ classifier_confidence cls)))
        3

  abbrev pub row_candidate : Conversation F → TurnRequest F → F → Row F → CandidateEvaluation F
  row_candidate conv req discount (m, call, p, value) =
      candidate_from m req.category p (finite_or_none call) (finite_or_none value)
        (warm_tokens conv m req.now) discount

  -- The candidate of a route that was not evaluated
  abbrev pub own_candidate :
      Context F → Conversation F → ModelInfo F → TurnRequest F → CandidateEvaluation F
  own_candidate ctx conv m req =
      candidate_from m req.category (Economics.p ctx.success m req.category req.difficulty none)
        (finite_or_none (own_cost m conv req ctx)) none (warm_tokens conv m req.now)
        ctx.success.evidence_discount

  abbrev pub is_candidate : String → CandidateEvaluation F → Bool
  is_candidate name c = str_eq c.model name

  abbrev pub with_own :
      CandidateEvaluation F → List (CandidateEvaluation F) → List (CandidateEvaluation F)
  with_own own cs = if any (is_candidate own.model) cs then cs else cs ++ (own ∷ [])

  abbrev pub expected_or_inf : CandidateEvaluation F → F
  expected_or_inf c = or_else c.est_expected_usd fl.inf

  abbrev pub expects_less : CandidateEvaluation F → CandidateEvaluation F → Bool
  expects_less c d = expected_or_inf c <? expected_or_inf d

  abbrev pub is_priced : CandidateEvaluation F → Bool
  is_priced c = elim c.est_expected_usd [ none ↦ false | some v ↦ true ]

  abbrev pub name_of_first : List (CandidateEvaluation F) → Option String
  name_of_first [] = none
  name_of_first (c ∷ cs) = some c.model

  abbrev pub name_or : Option (CandidateEvaluation F) → Option String → Option String
  name_or none other = other
  name_or (some c) other = some c.model

  -- The route that the record names next: the cheapest of the stronger ones, or the cheapest other.
  abbrev pub fallback_of : CandidateEvaluation F → List (CandidateEvaluation F) → Option String
  fallback_of chosen cs =
      let others = keep (λ c. not (is_candidate chosen.model c)) cs in
      name_or (best expects_less (keep (λ c. chosen.capability <? c.capability) others))
        (name_of_first (sort_by expects_less (keep is_priced others)))

  abbrev pub classifier_label : Option (Classification F) → Bool → Option String
  classifier_label none turn_start = if turn_start then some "classifier-disabled" else none
  classifier_label (some c) turn_start = if c.failed then some "classifier-unavailable" else none

  abbrev pub safe_fallback_of :
      Option (Classification F) → Bool → CandidateEvaluation F → Option String
  safe_fallback_of cls turn_start chosen =
      or_label (or_label (classifier_label cls turn_start) chosen.evidence_stale "stale-evidence")
        (str_eq chosen.evidence_strength "none" || str_eq chosen.evidence_strength "weak")
        "weak-category-evidence"

  -- `explain`; `rows` is what the policy's `evaluate` returned.
  unfoldable pub explain :
      Context F
      → Conversation F
      → String
      → ModelInfo F
      → Why F
      → TurnRequest F
      → Option (Classification F)
      → List (Row F)
      → Bool
      → Option String
      → RoutingExplanation F
  explain ctx conv cid m reason req cls rows turn_start switched_from =
      let own = own_candidate ctx conv m req in
      let scored = if turn_start then rows else [] in
      let cs = with_own own (map (row_candidate conv req ctx.success.evidence_discount) scored) in
      let chosen = or_else (first (is_candidate m.name) cs) own in
      record {
        conversation = cid;
        classification = classification_record cls req turn_start;
        selection = record {
          selected = m.name;
          reason = reason;
          fallback = fallback_of chosen cs;
          switched_from = other_than m.name switched_from;
          considered = length cs;
          evidence_confidence = evidence_confidence cls chosen;
          safe_fallback = safe_fallback_of cls turn_start chosen;
          turn_start = turn_start;
          truncation_memory = none;
        };
        estimated = record {
          model = m.name;
          p_success = chosen.p_success;
          cost_usd = chosen.est_call_usd;
          prompt_tokens = req.prompt_tokens;
          output_tokens = req.output_tokens;
        };
        cache = cache_decision m conv req;
        candidates = cs;
        observed = none;
        verification = none;
      }
