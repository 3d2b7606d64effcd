-- ===== src/Examples/Routing.antt =====
-- The properties of auto_router/policies.py and of the retries on concrete routes.
use auto_model_router.Prelude.{
  ◌≡◌, ◌≢◌, ◌⊎◌, inl, inr, refl, String, true, false, Option, none, some, List, [], ◌∷◌, In,
  if◌then◌else◌, str_eq,
}
use auto_model_router.Prelude.Float.{lit, decimal, ◌⊕◌, ◌⊗◌, ◌<?◌, ◌≼◌}
use auto_model_router.Prelude.Fixed.{Fixed, fixed_float, millionths, Fixed-IsMonotone}
use auto_model_router.Prelude.Dict
use auto_model_router.Catalog.{
  ModelInfo, cap, cap_with, item, values, passes, of_list, is_free, evidence_strength,
  measurement_key, eligible,
}
use auto_model_router.Catalog
use auto_model_router.Catalog.Eligible.{Suits}
use auto_model_router.Economics
use auto_model_router.Economics.{is_warm, turn_cost}
use auto_model_router.Policies.State.{Choice, choice, Result, ok, Reason}
use auto_model_router.Policies.Candidates.{candidates, usable, list_blended, strongest, widest}
use auto_model_router.Policies.State
use auto_model_router.Verify
use auto_model_router.Policies.Escalation.{
  Row, choose_naive, target, choose_escalate, on_failure, decayed_floor,
}
use auto_model_router.Policies.Expected.{choose_expected, choose_by_cost, value, rule_applies}
use auto_model_router.Policies.Optimal
use auto_model_router.Policies.Safety
use auto_model_router.Policies.Chain.{Chain, first_retry, next_retry, Chain-cap}
use auto_model_router.Catalog.Keyed.{IsKeyed}
use auto_model_router.OutcomeMemory.{RouteRecord, up_to_4096}
use auto_model_router.Retries.{
  escalate, target_of, is_available, avoid_repeated_truncation, next_available,
}
use auto_model_router.Retries.Choices
use auto_model_router.Examples.{
  small, middle, large, catalog, context, request, conversation, expected_policy,
}

abbrev free_choice : Choice Fixed
free_choice = record {
  model = "small";
  reason = Reason.min_expected (millionths 119150) (millionths 500000);
  expected_cost = millionths 119150;
  p_success = millionths 500000;
}

chosen : choose_expected expected_policy conversation request context ≡ ok free_choice
unfolding choose_expected choose_naive target choose_escalate on_failure State.turn_call_cost
    choose_by_cost candidates eligible passes usable value Verify.applies Verify.intelligence_gate
    Verify.tier_ok Verify.blended_price cap_with Dict.get State.priced turn_cost is_free Economics.p
    cap evidence_strength Catalog.get measurement_key Economics.bucket Economics.curve is_warm
    Economics.sigmoid Economics.turn_cost_at list_blended strongest widest decayed_floor
    rule_applies State.warm_tokens Verify.catch_of Verify.false_flag Verify.fix Verify.gate
chosen = refl

choose_expected-le_example :
    (free_choice.expected_cost
      ≼ Optimal.turn_value expected_policy conversation request context large)
    ⊎ (free_choice.expected_cost
        ≼ Optimal.turn_value expected_policy conversation request context large
          ⊗ (lit 1 ⊕ decimal 1 1))
unfolding choose_expected choose_naive target choose_escalate on_failure State.turn_call_cost
    choose_by_cost candidates eligible passes usable value Verify.applies Verify.intelligence_gate
    Verify.tier_ok Verify.blended_price cap_with Dict.get State.priced turn_cost is_free Economics.p
    cap evidence_strength Catalog.get measurement_key Economics.bucket Economics.curve is_warm
    Economics.sigmoid Economics.turn_cost_at list_blended strongest widest decayed_floor
    rule_applies State.warm_tokens Verify.catch_of Verify.false_flag Verify.fix Verify.gate
choose_expected-le_example =
    Optimal.choose_expected-le Fixed-IsMonotone expected_policy conversation request context large
      refl (inr (inr (inl refl))) refl refl chosen

candidates-MayServe_example : Safety.MayServe true context large
unfolding choose_expected choose_naive target choose_escalate on_failure State.turn_call_cost
    choose_by_cost candidates eligible passes usable value Verify.applies Verify.intelligence_gate
    Verify.tier_ok Verify.blended_price cap_with Dict.get State.priced turn_cost is_free Economics.p
    cap evidence_strength Catalog.get measurement_key Economics.bucket Economics.curve is_warm
    Economics.sigmoid Economics.turn_cost_at list_blended strongest widest decayed_floor
    rule_applies State.warm_tokens Verify.catch_of Verify.false_flag Verify.fix Verify.gate
candidates-MayServe_example =
    Safety.candidates-MayServe request context true large (inr (inr (inl refl)))

candidates-ne-nil_example : candidates request context true ≢ []
unfolding choose_expected choose_naive target choose_escalate on_failure State.turn_call_cost
    choose_by_cost candidates eligible passes usable value Verify.applies Verify.intelligence_gate
    Verify.tier_ok Verify.blended_price cap_with Dict.get State.priced turn_cost is_free Economics.p
    cap evidence_strength Catalog.get measurement_key Economics.bucket Economics.curve is_warm
    Economics.sigmoid Economics.turn_cost_at list_blended strongest widest decayed_floor
    rule_applies State.warm_tokens Verify.catch_of Verify.false_flag Verify.fix Verify.gate
candidates-ne-nil_example = Safety.candidates-ne-nil request context true small (inl refl) refl

small-Suits : Suits false true 4000 [] small
small-Suits = record {
  not_excluded = λ i. i;
  sees = λ h. cc;
  calls_tools = λ h. refl;
  fits = λ h. refl;
}

abbrev to_middle : Choice Fixed
to_middle = choice "middle" (Reason.after_failure "small")

abbrev to_large : Choice Fixed
to_large = choice "large" (Reason.after_failure "middle")

small_fails :
    on_failure true conversation request context "small" ("small" ∷ []) ≡ ok (some to_middle)
unfolding choose_expected choose_naive target choose_escalate on_failure State.turn_call_cost
    choose_by_cost candidates eligible passes usable value Verify.applies Verify.intelligence_gate
    Verify.tier_ok Verify.blended_price cap_with Dict.get State.priced turn_cost is_free Economics.p
    cap evidence_strength Catalog.get measurement_key Economics.bucket Economics.curve is_warm
    Economics.sigmoid Economics.turn_cost_at list_blended strongest widest decayed_floor
    rule_applies State.warm_tokens Verify.catch_of Verify.false_flag Verify.fix Verify.gate
small_fails = refl

middle_fails :
    on_failure true conversation request context "middle" ("small" ∷ "middle" ∷ [])
    ≡ ok (some to_large)
unfolding choose_expected choose_naive target choose_escalate on_failure State.turn_call_cost
    choose_by_cost candidates eligible passes usable value Verify.applies Verify.intelligence_gate
    Verify.tier_ok Verify.blended_price cap_with Dict.get State.priced turn_cost is_free Economics.p
    cap evidence_strength Catalog.get measurement_key Economics.bucket Economics.curve is_warm
    Economics.sigmoid Economics.turn_cost_at list_blended strongest widest decayed_floor
    rule_applies State.warm_tokens Verify.catch_of Verify.false_flag Verify.fix Verify.gate
middle_fails = refl

on_failure-IsStepUp_example :
    (m : ModelInfo Fixed) × Safety.IsStepUp true request context small ("small" ∷ []) m
    × ("middle" ≡ m.name)
unfolding choose_expected choose_naive target choose_escalate on_failure State.turn_call_cost
    choose_by_cost candidates eligible passes usable value Verify.applies Verify.intelligence_gate
    Verify.tier_ok Verify.blended_price cap_with Dict.get State.priced turn_cost is_free Economics.p
    cap evidence_strength Catalog.get measurement_key Economics.bucket Economics.curve is_warm
    Economics.sigmoid Economics.turn_cost_at list_blended strongest widest decayed_floor
    rule_applies State.warm_tokens Verify.catch_of Verify.false_flag Verify.fix Verify.gate
on_failure-IsStepUp_example =
    Safety.on_failure-IsStepUp true conversation request context "small" ("small" ∷ []) refl
      small_fails

climbs : Chain true request context small large
unfolding choose_expected choose_naive target choose_escalate on_failure State.turn_call_cost
    choose_by_cost candidates eligible passes usable value Verify.applies Verify.intelligence_gate
    Verify.tier_ok Verify.blended_price cap_with Dict.get State.priced turn_cost is_free Economics.p
    cap evidence_strength Catalog.get measurement_key Economics.bucket Economics.curve is_warm
    Economics.sigmoid Economics.turn_cost_at list_blended strongest widest decayed_floor
    rule_applies State.warm_tokens Verify.catch_of Verify.false_flag Verify.fix Verify.gate
climbs =
    next_retry conversation ("small" ∷ "middle" ∷ []) to_large middle large
      (first_retry conversation ("small" ∷ []) to_middle middle refl small_fails refl) refl
      middle_fails refl

catalog-IsKeyed : IsKeyed catalog
unfolding choose_expected choose_naive target choose_escalate on_failure State.turn_call_cost
    choose_by_cost candidates eligible passes usable value Verify.applies Verify.intelligence_gate
    Verify.tier_ok Verify.blended_price cap_with Dict.get State.priced turn_cost is_free Economics.p
    cap evidence_strength Catalog.get measurement_key Economics.bucket Economics.curve is_warm
    Economics.sigmoid Economics.turn_cost_at list_blended strongest widest decayed_floor
    rule_applies State.warm_tokens Verify.catch_of Verify.false_flag Verify.fix Verify.gate
catalog-IsKeyed = (refl, refl, (refl, refl, (refl, refl, (refl, refl, tt))))

Chain-cap_example : (cap small "coding" <? cap large "coding") ≡ true
Chain-cap_example = Chain-cap Fixed-IsMonotone true request context catalog-IsKeyed climbs

naive_choice :
    choose_naive (decimal 7 1) request context
    ≡ ok (record {
      model = "small";
      reason = Reason.cheapest_above (decimal 7 1);
      expected_cost = lit 0;
      p_success = decimal 5 1;
    })
unfolding choose_expected choose_naive target choose_escalate on_failure State.turn_call_cost
    choose_by_cost candidates eligible passes usable value Verify.applies Verify.intelligence_gate
    Verify.tier_ok Verify.blended_price cap_with Dict.get State.priced turn_cost is_free Economics.p
    cap evidence_strength Catalog.get measurement_key Economics.bucket Economics.curve is_warm
    Economics.sigmoid Economics.turn_cost_at list_blended strongest widest decayed_floor
    rule_applies State.warm_tokens Verify.catch_of Verify.false_flag Verify.fix Verify.gate
naive_choice = refl

climbing_choice :
    choose_escalate true (decimal 5 1) (lit 6) (lit 3600) conversation request context
    ≡ ok (choice "middle" Reason.below_start_bar)
unfolding choose_expected choose_naive target choose_escalate on_failure State.turn_call_cost
    choose_by_cost candidates eligible passes usable value Verify.applies Verify.intelligence_gate
    Verify.tier_ok Verify.blended_price cap_with Dict.get State.priced turn_cost is_free Economics.p
    cap evidence_strength Catalog.get measurement_key Economics.bucket Economics.curve is_warm
    Economics.sigmoid Economics.turn_cost_at list_blended strongest widest decayed_floor
    rule_applies State.warm_tokens Verify.catch_of Verify.false_flag Verify.fix Verify.gate
climbing_choice = refl

abbrev rows : List (Row Fixed)
rows =
    (small, lit 0, decimal 5 1, decimal 1 1)
    ∷ (middle, lit 0, decimal 6 1, decimal 2 1)
    ∷ (large, decimal 2 2, decimal 7 1, decimal 3 1)
    ∷ []

abbrev flags : String → Option (RouteRecord Fixed)
flags name =
    if str_eq name "small"
    then some (record {
      model = "small";
      key = ("coding", up_to_4096);
      observed = 3;
      truncated = 2;
      window = 3;
      ttl_s = lit 3600;
    })
    else none

avoid_repeated_truncation-IsFallback_example :
    ((avoid_repeated_truncation flags small (some 4000) rows).0 ≡ small)
    ⊎ ((r : Row Fixed) × Choices.IsFallback flags small (some 4000) rows r
        × ((avoid_repeated_truncation flags small (some 4000) rows).0 ≡ r.0))
avoid_repeated_truncation-IsFallback_example =
    Choices.avoid_repeated_truncation-IsFallback flags small (some 4000) rows

escalate-none_example :
    (target_of catalog none ≡ none)
    × ((r : Row Fixed) → In r rows → is_available ("small" ∷ "middle" ∷ "large" ∷ []) r ≡ false)
unfolding escalate next_available
escalate-none_example =
    Choices.escalate-none catalog none rows ("small" ∷ "middle" ∷ "large" ∷ []) refl
