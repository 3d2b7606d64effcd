-- ===== src/Policies/Escalation.antt =====
-- The policies A to E of auto_router/policies.py: `Policy`, `StaticPolicy`, `NaivePolicy`,
-- `EVSwitchPolicy`, `EscalatePolicy` and `EscalateSubscriptionPolicy`. What a policy object holds is
-- an argument; `allow` is the class attribute `allow_subscription`.
use auto_model_router.Prelude.{
  ◌+◌, ◌*◌, String, Bool, false, not, ◌&&◌, Option, none, some, List, map, nat_beq, str_eq,
  if◌then◌else◌, keep, any, best,
}
use auto_model_router.Prelude.Float.{Float, lit, decimal, ◌⊕◌, ◌⊖◌, ◌⊗◌, ◌⊘◌, ◌≤?◌, ◌<?◌, fmax}
use auto_model_router.Catalog
use auto_model_router.Catalog.{ModelInfo, cap, truthy, or_else, item}
use auto_model_router.Economics.{turn_cost, horizon_cost, difficulty_at}
use auto_model_router.Economics
use auto_model_router.Policies.State.{
  TurnRequest, Conversation, Context, Reason, Choice, choice, Result, ok, raises, key_error,
  value_error, or_raise, ◌>>=◌, warm_tokens, own_cost,
}
use auto_model_router.Policies.Candidates.{
  candidates, list_blended, effective_difficulty, tuple_less, strongest,
}

-- A candidate with its call cost, success probability and ranking value.
abbrev pub Row : Type 0 → Type 0
Row F = ModelInfo F × F × F × F

module _ {F : Type 0} ⦃fl : Float F⦄ where
  -- `ctx.success.p(m, req.category, d)`
  abbrev pub success : Context F → TurnRequest F → F → ModelInfo F → F
  success ctx req d m = Economics.p ctx.success m req.category d none

  abbrev pub per_success : F → F → F
  per_success cost q = cost ⊘ fmax q (decimal 5 2)

  abbrev pub row : Conversation F → TurnRequest F → Context F → ModelInfo F → Row F
  row conv req ctx m =
      let call : F = own_cost m conv req ctx in
      let q : F = success ctx req (effective_difficulty conv req) m in
      (m, call, q, per_success call q)

  -- Policy.evaluate
  unfoldable pub evaluate : Bool → Conversation F → TurnRequest F → Context F → List (Row F)
  evaluate allow conv req ctx = map (row conv req ctx) (candidates req ctx allow)

  abbrev pub is_named : String → ModelInfo F → Bool
  is_named name m = str_eq m.name name

  -- `m.name not in tried`, and clearly more capable than the route that failed
  abbrev pub untried : List String → ModelInfo F → Bool
  untried tried m = not (any (λ n. str_eq n m.name) tried)

  abbrev pub clearly_better : String → ModelInfo F → ModelInfo F → Bool
  clearly_better category failed m = (cap failed category ⊕ lit 1) <? cap m category

  abbrev pub better_pool :
      Bool → TurnRequest F → Context F → ModelInfo F → List String → List (ModelInfo F)
  better_pool allow req ctx failed tried =
      keep (clearly_better req.category failed) (keep (untried tried) (candidates req ctx allow))

  abbrev pub retry_difficulty : Conversation F → TurnRequest F → F
  retry_difficulty conv req = fmax (effective_difficulty conv req) req.difficulty

  abbrev pub cheaper_retry :
      Conversation F → TurnRequest F → Context F → ModelInfo F → ModelInfo F → Bool
  cheaper_retry conv req ctx x cur =
      let d : F = retry_difficulty conv req in
      per_success (own_cost x conv req ctx) (success ctx req d x)
      <? per_success (own_cost cur conv req ctx) (success ctx req d cur)

  abbrev pub retry_on : String → Option (ModelInfo F) → Option (Choice F)
  retry_on failed none = none
  retry_on failed (some m) = some (choice m.name (Reason.after_failure failed))

  -- Policy.on_failure
  unfoldable pub on_failure :
      Bool
      → Conversation F
      → TurnRequest F
      → Context F
      → String
      → List String
      → Result (Option (Choice F))
  on_failure allow conv req ctx failed tried = do
    failed_m ← or_raise (item ctx.catalog failed) key_error
    ok (
        retry_on failed
          (best (cheaper_retry conv req ctx) (better_pool allow req ctx failed_m tried)))

  -- StaticPolicy.choose, and its on_failure
  unfoldable pub choose_static : Option String → TurnRequest F → Context F → Result (Choice F)
  choose_static model req ctx =
      let pool = candidates req ctx false in
      if truthy model && any (is_named (or_else model "")) pool
      then ok (choice (or_else model "") Reason.static_model)
      else (do m ← strongest pool req.category ctx; ok (choice m.name Reason.static_strongest))

  abbrev pub on_failure_static : String → Choice F
  on_failure_static failed = choice failed Reason.static_retry

  -- NaivePolicy.target: the keys of `max` and `min`, the signs taken into the order.
  abbrev pub likelier : TurnRequest F → Context F → F → ModelInfo F → ModelInfo F → Bool
  likelier req ctx d x cur =
      tuple_less (success ctx req d cur, list_blended x) (success ctx req d x, list_blended cur)

  abbrev pub cheaper_listed : TurnRequest F → ModelInfo F → ModelInfo F → Bool
  cheaper_listed req x cur =
      tuple_less (list_blended x, cap cur req.category) (list_blended cur, cap x req.category)

  abbrev pub adequate : TurnRequest F → Context F → F → F → ModelInfo F → Bool
  adequate req ctx bar d m = bar ≤? success ctx req d m

  abbrev pub or_best : Option (ModelInfo F) → Result (ModelInfo F) → Result (ModelInfo F)
  or_best none other = other
  or_best (some m) other = ok m

  unfoldable pub target : F → TurnRequest F → Context F → F → Bool → Result (ModelInfo F)
  target target_p req ctx d allow =
      let pool = candidates req ctx allow in
      or_best (best (cheaper_listed req) (keep (adequate req ctx target_p d) pool))
        (or_raise (best (likelier req ctx d) pool) value_error)

  -- NaivePolicy.choose
  unfoldable pub choose_naive : F → TurnRequest F → Context F → Result (Choice F)
  choose_naive target_p req ctx = do
    m ← target target_p req ctx req.difficulty false
    ok (record (choice m.name (Reason.cheapest_above target_p)) {
      p_success = success ctx req req.difficulty m;
    })

  -- EVSwitchPolicy._downgrade
  abbrev pub held_cost : F → Conversation F → TurnRequest F → ModelInfo F → F
  held_cost horizon conv req m =
      horizon_cost m req.prompt_tokens (warm_tokens conv m req.now) req.output_tokens horizon
        (req.growth_per_step * req.steps)

  abbrev pub downgrade_risk : TurnRequest F → Context F → ModelInfo F → ModelInfo F → F → F
  downgrade_risk req ctx current goal d =
      (lit 1 ⊖ success ctx req d goal)
      ⊗ (turn_cost current req.prompt_tokens 0 req.output_tokens
          ⊕ (lit 1 ⊖ req.detect_prob) ⊗ req.stakes_usd)

  unfoldable pub downgrade :
      F → Conversation F → TurnRequest F → Context F → ModelInfo F → ModelInfo F → F → Choice F
  downgrade horizon conv req ctx current goal d =
      let saving : F = held_cost horizon conv req current ⊖ held_cost horizon conv req goal in
      let risk : F = downgrade_risk req ctx current goal d in
      if risk <? saving
      then choice goal.name (Reason.downgrade_pays saving risk)
      else choice current.name (Reason.stay_cheaper saving risk)

  -- The end of EVSwitchPolicy.choose, after the look-up of the current model.
  abbrev pub switch_to :
      F → Conversation F → TurnRequest F → Context F → ModelInfo F → Option (ModelInfo F) → Choice F
  switch_to horizon conv req ctx goal none = choice goal.name Reason.on_target
  switch_to horizon conv req ctx goal (some current) =
      if str_eq current.name goal.name
      then choice goal.name Reason.on_target
      else if cap current req.category <? cap goal req.category
      then choice goal.name Reason.capability_first
      else downgrade horizon conv req ctx current goal req.difficulty

  unfoldable pub choose_ev_switch :
      F → F → Conversation F → TurnRequest F → Context F → Result (Choice F)
  choose_ev_switch target_p horizon conv req ctx = do
    goal ← target target_p req ctx req.difficulty false
    ok (switch_to horizon conv req ctx goal (Catalog.get ctx.catalog conv.current))

  -- EscalatePolicy._decayed_floor
  unfoldable pub decayed_floor : F → Conversation F → F → F
  decayed_floor half_life conv now =
      let age : F = fmax (lit 0) (now ⊖ conv.floor_set_at) in
      if conv.floor ≤? lit 0 then lit 0 else conv.floor ⊗ fl.pow (decimal 5 1) (age ⊘ half_life)

  -- The difficulty that EscalatePolicy and ExpectedCostPolicy choose at.
  abbrev pub lifted : F → Conversation F → TurnRequest F → F
  lifted half_life conv req =
      req.difficulty
      ⊕ fmax (lit 0) (decayed_floor half_life conv req.now ⊖ req.difficulty) ⊗ req.follow_up

  abbrev pub cheaper_call :
      Conversation F → TurnRequest F → Context F → ModelInfo F → ModelInfo F → Bool
  cheaper_call conv req ctx x cur =
      tuple_less (own_cost x conv req ctx, cap cur req.category)
        (own_cost cur conv req ctx, cap x req.category)

  abbrev pub stay_or_leave :
      F
      → F
      → Conversation F
      → TurnRequest F
      → Context F
      → F
      → List (ModelInfo F)
      → ModelInfo F
      → Option (ModelInfo F)
      → Choice F
  stay_or_leave start_p horizon conv req ctx d pool cheapest none =
      choice cheapest.name (Reason.start_cheap start_p)
  stay_or_leave start_p horizon conv req ctx d pool cheapest (some current) =
      if not (any (is_named current.name) pool)
      then choice cheapest.name (Reason.start_cheap start_p)
      else if str_eq current.name cheapest.name
      then choice current.name Reason.already_cheapest
      else if cap current req.category <? cap cheapest req.category
      then choice cheapest.name Reason.below_start_bar
      else if nat_beq (warm_tokens conv current req.now) 0
      then choice cheapest.name Reason.cache_expired
      else downgrade horizon conv req ctx current cheapest d

  -- EscalatePolicy.choose
  unfoldable pub choose_escalate :
      Bool → F → F → F → Conversation F → TurnRequest F → Context F → Result (Choice F)
  choose_escalate allow start_p horizon half_life conv req ctx =
      let d : F = lifted half_life conv req in
      let pool = candidates req ctx allow in
      do
        cheapest ←
            or_best (best (cheaper_call conv req ctx) (keep (adequate req ctx start_p d) pool))
              (strongest pool req.category ctx)
        ok (
            stay_or_leave start_p horizon conv req ctx d pool cheapest
              (Catalog.get ctx.catalog conv.current))

  -- EscalatePolicy.on_failure: the conversation remembers the failure before the retry is chosen.
  unfoldable pub remember_failure :
      Conversation F → TurnRequest F → Context F → ModelInfo F → Conversation F
  remember_failure conv req ctx failed = record conv {
    floor =
        fmax (fmax conv.floor (difficulty_at ctx.success failed req.category (decimal 5 1)))
          req.difficulty;
    floor_set_at = req.now;
    escalations = conv.escalations + 1;
  }

  abbrev pub fail_with :
      Bool
      → Conversation F
      → TurnRequest F
      → Context F
      → String
      → List String
      → Option (ModelInfo F)
      → Result (Option (Choice F)) × Conversation F
  fail_with allow conv req ctx failed tried none = (raises key_error, conv)
  fail_with allow conv req ctx failed tried (some m) =
      let conv' = remember_failure conv req ctx m in
      (on_failure allow conv' req ctx failed tried, conv')

  unfoldable pub on_failure_escalate :
      Bool
      → Conversation F
      → TurnRequest F
      → Context F
      → String
      → List String
      → Result (Option (Choice F)) × Conversation F
  on_failure_escalate allow conv req ctx failed tried =
      fail_with allow conv req ctx failed tried (item ctx.catalog failed)
