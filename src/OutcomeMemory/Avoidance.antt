-- ===== src/OutcomeMemory/Avoidance.antt =====
-- When `should_avoid` of auto_router/outcome_memory.py routes around a model.
use auto_model_router.Prelude.{
  ◌≤◌, ◌<◌, ◌≡◌, ◌↔◌, String, true, none, some, List, [], ◌∷◌, arith, is_some, if◌then◌else◌, keep,
  length,
}
use auto_model_router.Prelude.Float.{Float, lit, ◌⊘◌, ◌≼◌}
use auto_model_router.OutcomeMemory.{
  OutcomeKey, AvoidanceRule, Seen, OutcomeMemory, is_truncated, recent, counts, evidence, if_meets,
  should_avoid, rate,
}

module _ {F : Type 0} ⦃fl : Float F⦄ where
  -- The rule on the outcomes within the time to live: how many there are, and how many of them are
  -- length stops.
  pub record IsPattern (rule : AvoidanceRule F) (es : List (Seen F)) : Type 0 where
    pub enabled : rule.enabled ≡ true
    pub observed : 0 < length es
    pub enough : rule.min_truncations ≤ length (keep is_truncated es)
    pub frequent : rule.min_rate ≼ lit (length (keep is_truncated es)) ⊘ lit (length es)

  avoid-IsPattern :
      (memory : OutcomeMemory F) (model : String) (key : OutcomeKey) (es : List (Seen F))
      → (is_some (
            if memory.rule.enabled then if_meets memory.rule (counts memory model key es) else none)
          ≡ true)
        ↔ IsPattern memory.rule es
  unfolding rate
  avoid-IsPattern memory model key [] = (λ h. ground arith, λ p. absurd (omega (arith, p.observed)))
  avoid-IsPattern memory model key (e ∷ es) = (
    λ h. record {
      enabled = ground arith;
      observed = omega arith;
      enough = ground arith;
      frequent = ground arith;
    },
    λ p. ground (arith, p.enabled, p.enough, p.frequent),
  )

  -- A route is avoided exactly when the rule is on, something was observed within the time to live,
  -- and its length stops are both enough and a large enough share of what was observed.
  pub should_avoid_iff :
      (memory : OutcomeMemory F) (model : String) (key : OutcomeKey) (now : F)
      → (is_some (should_avoid memory model (some key) now) ≡ true)
        ↔ IsPattern memory.rule (recent memory model key now)
  unfolding should_avoid evidence
  should_avoid_iff memory model key now =
      avoid-IsPattern memory model key (recent memory model key now)
