-- ===== src/Policies/Expected.antt =====
-- `ExpectedCostPolicy` of auto_router/policies.py. Where the routing is asked whether the judge
-- checks a route (`self.verify` may be `None`), the policy's own record answers.
use auto_model_router.Prelude.{
  ℕ, ◌+◌, ◌*◌, String, Bool, true, false, not, ◌&&◌, Option, none, some, List, [], ◌∷◌, map, leb,
  str_eq, if◌then◌else◌, keep, best, first, sort_by,
}
use auto_model_router.Prelude.Float.{
  Float, lit, decimal, ◌⊕◌, ◌⊖◌, ◌⊗◌, ◌⊘◌, ◌≤?◌, ◌<?◌, fmin, fmax,
}
use auto_model_router.Catalog
use auto_model_router.Catalog.{ModelInfo, cap, truthy, is_free, or_else}
use auto_model_router.Verify.{VerifyPolicy, applies, catch_of, false_flag, fix}
use auto_model_router.Policies.State.{
  TurnRequest, Conversation, Context, Reason, Choice, choice, Result, ok, ◌>>=◌, turn_call_cost,
  own_cost,
}
use auto_model_router.Policies.Candidates.{candidates, tuple_less, strongest}
use auto_model_router.Policies.Escalation.{Row, success, lifted}

pub record ExpectedPolicy (F : Type 0) : Type 0 where
  pub horizon : F
  pub half_life : F
  pub switch_margin : F
  pub verify : Option (VerifyPolicy F)
  pub judge_available : Bool
  pub paid_rule_route : Option String
  pub paid_rule_min_max_tokens : Option ℕ

module _ {F : Type 0} ⦃fl : Float F⦄ where
  -- The policy that checks this route's answer, if one does.
  abbrev pub checker :
      ExpectedPolicy F → ModelInfo F → TurnRequest F → Context F → Option (VerifyPolicy F)
  checker pol m req ctx = elim pol.verify [
    | none ↦ none
    | some v ↦
        if applies v m req.category req.request_chars req.needs_long_context
          ctx.success.evidence_discount pol.judge_available
        then some v
        else none
  ]

  abbrev pub more_capable : String → ModelInfo F → ModelInfo F → Bool
  more_capable category m x = (cap m category ⊕ lit 1) <? cap x category

  abbrev pub yields_more :
      Conversation F → TurnRequest F → Context F → F → ModelInfo F → ModelInfo F → Bool
  yields_more conv req ctx d x cur =
      (success ctx req d cur ⊘ fmax (own_cost cur conv req ctx) (decimal 1 6))
      <? (success ctx req d x ⊘ fmax (own_cost x conv req ctx) (decimal 1 6))

  -- The judge's share of the retries, and the retry that it triggers.
  abbrev pub judged : VerifyPolicy F → TurnRequest F → F → F → F
  judged v req retry_call retry =
      let catch : F = catch_of v req.category in
      let missed : F = (lit 1 ⊖ req.detect_prob) ⊗ catch in
      let judge_share : F = missed ⊘ fmax (req.detect_prob ⊕ missed) (decimal 1 9) in
      let judged_retry : F = retry_call ⊕ (lit 1 ⊖ fix v req.category) ⊗ req.stakes_usd in
      (lit 1 ⊖ judge_share) ⊗ retry ⊕ judge_share ⊗ judged_retry

  -- (retry_call, retry): the next attempt's call, and its cost with what it may still cost.
  abbrev pub retry_costs :
      Option (VerifyPolicy F)
      → Conversation F
      → TurnRequest F
      → Context F
      → F
      → F
      → F
      → Option (ModelInfo F)
      → F × F
  retry_costs check conv req ctx d call q none = (call, call ⊕ (lit 1 ⊖ q) ⊗ req.stakes_usd)
  retry_costs check conv req ctx d call q (some r) =
      let retry_call : F = own_cost r conv req ctx in
      let retry : F =
        retry_call ⊕ (lit 1 ⊖ success ctx req d r) ⊗ (lit 1 ⊖ req.detect_prob) ⊗ req.stakes_usd in
      (retry_call, elim check [ none ↦ retry | some v ↦ judged v req retry_call retry ])

  abbrev pub detection : Option (VerifyPolicy F) → TurnRequest F → F
  detection none req = req.detect_prob
  detection (some v) req = req.detect_prob ⊕ (lit 1 ⊖ req.detect_prob) ⊗ catch_of v req.category

  abbrev pub charged : Option (VerifyPolicy F) → TurnRequest F → F → F → F → F
  charged none req q retry_call call = call
  charged (some v) req q retry_call call =
      call ⊕ (v.judge_usd ⊕ q ⊗ false_flag v req.category ⊗ retry_call)

  abbrev pub later_turns :
      ExpectedPolicy F → ModelInfo F → TurnRequest F → Context F → F → F → F → F → F
  later_turns pol m req ctx q fail call immediate =
      let prompt = req.prompt_tokens + req.growth_per_step * req.steps in
      let follow : F =
        turn_call_cost m (record req { prompt_tokens = prompt }) prompt ctx ⊕ (lit 1 ⊖ q) ⊗ fail in
      if lit 1 <? pol.horizon && fl.finite call
      then immediate
        ⊕ (fmin pol.horizon (req.remaining_turns ⊕ lit 1) ⊖ lit 1) ⊗ follow ⊗ decimal 5 1
      else immediate

  -- `value`: the expected cost of the turn on `m`, and its success probability.
  unfoldable pub value :
      ExpectedPolicy F
      → ModelInfo F
      → Conversation F
      → TurnRequest F
      → Context F
      → F
      → List (ModelInfo F)
      → F × F
  value pol m conv req ctx d pool =
      let call : F = own_cost m conv req ctx in
      let q : F = success ctx req d m in
      let check = checker pol m req ctx in
      let (retry_call, retry) =
        retry_costs check conv req ctx d call q
          (best (yields_more conv req ctx d) (keep (more_capable req.category m) pool)) in
      let detect : F = detection check req in
      let call' : F = charged check req q retry_call call in
      let fail : F = detect ⊗ retry ⊕ (lit 1 ⊖ detect) ⊗ req.stakes_usd in
      let immediate : F = call' ⊕ (lit 1 ⊖ q) ⊗ fail in
      (later_turns pol m req ctx q fail call' immediate, q)

  abbrev pub value_row :
      ExpectedPolicy F
      → Conversation F
      → TurnRequest F
      → Context F
      → F
      → List (ModelInfo F)
      → ModelInfo F
      → Row F
  value_row pol conv req ctx d pool m =
      let (v, q) = value pol m conv req ctx d pool in (m, own_cost m conv req ctx, q, v)

  unfoldable pub evaluate_expected :
      ExpectedPolicy F → Conversation F → TurnRequest F → Context F → List (Row F)
  evaluate_expected pol conv req ctx =
      let d : F = lifted pol.half_life conv req in
      let pool = candidates req ctx true in map (value_row pol conv req ctx d pool) pool

  unfoldable pub rule_applies : ExpectedPolicy F → TurnRequest F → Bool
  rule_applies pol req = elim pol.paid_rule_route [
    | none ↦ false
    | some route ↦ elim pol.paid_rule_min_max_tokens [
      | none ↦ false
      | some bar ↦ elim req.stated_max_tokens [ none ↦ false | some stated ↦ leb bar stated ]
    ]
  ]

-- A route with a finite value, as `scored` holds it. The entry `-cap` of the source's tuple is
-- compared as the capability, the other way round.
pub record Scored (F : Type 0) : Type 0 where
  pub worth : F
  pub route : ModelInfo F
  pub chance : F

module _ {F : Type 0} ⦃fl : Float F⦄ where
  abbrev pub score :
      ExpectedPolicy F
      → Conversation F
      → TurnRequest F
      → Context F
      → F
      → List (ModelInfo F)
      → ModelInfo F
      → Scored F
  score pol conv req ctx d pool m =
      let (v, q) = value pol m conv req ctx d pool in record { worth = v; route = m; chance = q }

  abbrev pub is_finite : Scored F → Bool
  is_finite s = fl.finite s.worth

  abbrev pub scored_routes :
      ExpectedPolicy F
      → Conversation F
      → TurnRequest F
      → Context F
      → F
      → List (ModelInfo F)
      → List (Scored F)
  scored_routes pol conv req ctx d pool = keep is_finite (map (score pol conv req ctx d pool) pool)

  abbrev pub cheaper_scored : String → Scored F → Scored F → Bool
  cheaper_scored category s t =
      tuple_less (s.worth, cap t.route category) (t.worth, cap s.route category)

  abbrev pub taken : Scored F → Reason F → Choice F
  taken s why = record {
    model = s.route.name;
    reason = why;
    expected_cost = s.worth;
    p_success = s.chance;
  }

  abbrev pub is_route : String → Scored F → Bool
  is_route name s = str_eq s.route.name name

  -- Stay on the current model if it is scored and within the margin of the best.
  abbrev pub keep_or_take : F → Scored F → Option (Scored F) → Choice F
  keep_or_take margin best none = taken best (Reason.min_expected best.worth best.chance)
  keep_or_take margin best (some cur) =
      if cur.worth ≤? best.worth ⊗ (lit 1 ⊕ margin)
      then taken cur Reason.margin_kept
      else taken best (Reason.min_expected best.worth best.chance)

  abbrev pub other_route : Option (ModelInfo F) → Scored F → List (Scored F) → Option (Scored F)
  other_route none best scored = none
  other_route (some current) best scored =
      if str_eq current.name best.route.name then none else first (is_route current.name) scored

  abbrev pub pick_first :
      ExpectedPolicy F
      → TurnRequest F
      → Context F
      → List (ModelInfo F)
      → Option (ModelInfo F)
      → List (Scored F)
      → Result (Choice F)
  pick_first pol req ctx pool current [] = do
    m ← strongest pool req.category ctx
    ok (choice m.name Reason.no_finite_option)
  pick_first pol req ctx pool current (best ∷ rest) =
      ok (keep_or_take pol.switch_margin best (other_route current best (best ∷ rest)))

  -- `_expected`
  unfoldable pub choose_by_cost :
      ExpectedPolicy F
      → Conversation F
      → TurnRequest F
      → Context F
      → F
      → List (ModelInfo F)
      → Result (Choice F)
  choose_by_cost pol conv req ctx d pool =
      pick_first pol req ctx pool (Catalog.get ctx.catalog conv.current)
        (sort_by (cheaper_scored req.category) (scored_routes pol conv req ctx d pool))

  abbrev pub with_reason : (Reason F → Reason F) → Choice F → Choice F
  with_reason f c = record c { reason = f c.reason }

  abbrev pub by_rule :
      ExpectedPolicy F
      → Conversation F
      → TurnRequest F
      → Context F
      → F
      → List (ModelInfo F)
      → Option (ModelInfo F)
      → Result (Choice F)
  by_rule pol conv req ctx d pool none = do
    c ← choose_by_cost pol conv req ctx d pool
    ok (with_reason Reason.not_a_candidate c)
  by_rule pol conv req ctx d pool (some route) =
      if not (is_free route.prices) && not (truthy route.subscription)
      then ok (
          taken (score pol conv req ctx d pool route) (
            Reason.operator_rule (or_else req.stated_max_tokens 0)
              (or_else pol.paid_rule_min_max_tokens 0)))
      else (do c ← choose_by_cost pol conv req ctx d pool; ok (with_reason Reason.not_metered c))

  abbrev pub rule_route : ExpectedPolicy F → String
  rule_route pol = or_else pol.paid_rule_route ""

  -- ExpectedCostPolicy.choose
  unfoldable pub choose_expected :
      ExpectedPolicy F → Conversation F → TurnRequest F → Context F → Result (Choice F)
  unfolding rule_applies
  choose_expected pol conv req ctx =
      let d : F = lifted pol.half_life conv req in
      let pool = candidates req ctx true in
      if rule_applies pol req
      then by_rule pol conv req ctx d pool (first (λ m. str_eq m.name (rule_route pol)) pool)
      else choose_by_cost pol conv req ctx d pool
