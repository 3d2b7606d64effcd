-- ===== src/Retries.antt =====
-- The second choices of auto_router/router.py (`_avoid_repeated_truncation`, `_next_available` and
-- `escalate`) and of auto_router/verify.py (`escalation_choice` and `bump_floor`). `rows` is what the policy's
-- `evaluate` returned, and `flags name` what `outcomes.should_avoid` answers for a route.
pub mod Choices
use Prim.Native.String.{compare}
use Prim.Native.Nat.{Ordering}
use auto_model_router.Prelude.{
  ℕ, max, String, Bool, true, false, not, ◌&&◌, ◌||◌, Option, none, some, List, [], ◌∷◌, map, ltb,
  str_eq, if◌then◌else◌, is_some, keep, best, sort_by,
}
use auto_model_router.Prelude.Float.{Float, ◌⊕◌, ◌≤?◌, ◌<?◌, ◌=?◌, fmax}
use auto_model_router.Catalog.{of_list, values, truthy, Catalog, ModelInfo, cap, or_else}
use auto_model_router.Catalog
use auto_model_router.Verify.{VerifyPolicy, Verdict, intelligence_gate}
use auto_model_router.OutcomeMemory.{RouteRecord}
use auto_model_router.Policies.State.{Conversation, Choice}
use auto_model_router.Policies.Escalation.{Row, untried}

-- `x < y` of two texts
abbrev pub earlier : String → String → Bool
earlier x y = elim (compare x y) [ Ordering.lt ↦ true | _ ↦ false ]

-- What the note on an avoided route records.
pub record Avoidance (F : Type 0) : Type 0 where
  pub route : String
  pub observed : ℕ
  pub truncated : ℕ
  pub flagged_routes : List String
  pub output_floor : ℕ
  pub below_output_floor : List String
  pub fallback : Option String

module _ {F : Type 0} where
  abbrev pub model_of : Row F → ModelInfo F
  model_of r = r.0

  abbrev pub name_of : Row F → String
  name_of r = r.0.name

  abbrev pub worth_of : Row F → F
  worth_of (m, call, q, v) = v

  abbrev pub is_below : ℕ → Row F → Bool
  is_below floor r = ltb r.0.max_output_tokens floor

  abbrev pub floor_of : ModelInfo F → Option ℕ → ℕ
  floor_of chosen required_output = max chosen.max_output_tokens (or_else required_output 0)

module _ {F : Type 0} ⦃fl : Float F⦄ where
  module _ (flags : String → Option (RouteRecord F)) where
    abbrev pub is_other : ModelInfo F → Row F → Bool
    is_other chosen r = not (str_eq (name_of r) chosen.name || not (fl.finite (worth_of r)))

    abbrev pub is_flagged : Row F → Bool
    is_flagged r = is_some (flags (name_of r))

    abbrev pub others : ModelInfo F → List (Row F) → List (Row F)
    others chosen rows = keep (is_other chosen) rows

    abbrev pub unflagged : ModelInfo F → List (Row F) → List (Row F)
    unflagged chosen rows = keep (λ r. not (is_flagged r)) (others chosen rows)

    abbrev pub usable_rows : ModelInfo F → ℕ → List (Row F) → List (Row F)
    usable_rows chosen floor rows = keep (λ r. not (is_below floor r)) (unflagged chosen rows)

    -- `min(usable, key=lambda t: (t[0], t[1]))`
    abbrev pub before : Row F → Row F → Bool
    before r s =
        (worth_of r <? worth_of s) || (worth_of r =? worth_of s && earlier (name_of r) (name_of s))

    abbrev pub note_of :
        ModelInfo F → ℕ → List (Row F) → RouteRecord F → Option String → Avoidance F
    note_of chosen floor rows seen fallback = record {
      route = chosen.name;
      observed = seen.observed;
      truncated = seen.truncated;
      flagged_routes =
          sort_by earlier (chosen.name ∷ map name_of (keep is_flagged (others chosen rows)));
      output_floor = floor;
      below_output_floor =
          sort_by earlier (map name_of (keep (is_below floor) (unflagged chosen rows)));
      fallback = fallback;
    }

    abbrev pub fall_back :
        ModelInfo F
        → (Option String → Avoidance F)
        → Option (Row F)
        → ModelInfo F × Option (Avoidance F)
    fall_back chosen note none = (chosen, some (note none))
    fall_back chosen note (some r) = (model_of r, some (note (some (name_of r))))

    abbrev pub avoid_when :
        ModelInfo F
        → Option ℕ
        → List (Row F)
        → Option (RouteRecord F)
        → ModelInfo F × Option (Avoidance F)
    avoid_when chosen required_output rows none = (chosen, none)
    avoid_when chosen required_output rows (some seen) =
        let floor = floor_of chosen required_output in
        fall_back chosen (note_of chosen floor rows seen)
          (best before (usable_rows chosen floor rows))

    -- `_avoid_repeated_truncation`, without the texts of its reason and its note
    unfoldable pub avoid_repeated_truncation :
        ModelInfo F → Option ℕ → List (Row F) → ModelInfo F × Option (Avoidance F)
    avoid_repeated_truncation chosen required_output rows =
        avoid_when chosen required_output rows (flags chosen.name)

  abbrev pub is_infinite : F → Bool
  is_infinite v = v =? fl.inf || v =? fl.neg fl.inf

  abbrev pub cheaper : Row F → Row F → Bool
  cheaper r s = worth_of r <? worth_of s

  abbrev pub is_available : List String → Row F → Bool
  is_available tried r = untried tried (model_of r) && not (is_infinite (worth_of r))

  abbrev pub route_of : Option (Row F) → Option (ModelInfo F)
  route_of none = none
  route_of (some r) = some (model_of r)

  -- `_next_available`
  unfoldable pub next_available : List (Row F) → List String → Option (ModelInfo F)
  next_available rows tried = route_of (best cheaper (keep (is_available tried) rows))

  -- `_retry_context`: the catalog of a second attempt.
  unfoldable pub retry_catalog : Bool → Catalog F → Catalog F
  retry_catalog exclude_subscriptions catalog =
      if exclude_subscriptions
      then of_list (keep (λ m. not (truthy m.subscription)) (values catalog))
      else catalog

  abbrev pub target_of : Catalog F → Option (Choice F) → Option (ModelInfo F)
  target_of catalog none = none
  target_of catalog (some retry) = Catalog.get catalog (some retry.model)

  abbrev pub or_available :
      Bool → Option (ModelInfo F) → Option (ModelInfo F) → Option (ModelInfo F)
  or_available availability (some m) next = some m
  or_available true none next = next
  or_available false none next = none

  -- `escalate`: the route of the retry, `retry` being what the policy's `on_failure` returned.
  unfoldable pub escalate :
      Catalog F → Option (Choice F) → List (Row F) → List String → Bool → Option (ModelInfo F)
  escalate catalog retry rows tried availability =
      or_available availability (target_of catalog retry) (next_available rows tried)

  -- The routes of `escalation_choice`: not tried, at the bar, and of a value below infinity.
  abbrev pub clears : String → List String → F → Row F → Bool
  clears category tried bar r =
      untried tried (model_of r) && bar ≤? cap (model_of r) category && not (worth_of r =? fl.inf)

  abbrev pub is_cleared : VerifyPolicy F → String → Row F → Bool
  is_cleared policy category r = elim (intelligence_gate policy (model_of r) category) [
    | none ↦ false
    | some below ↦ not below
  ]

  abbrev pub or_all : List (Row F) → List (Row F) → List (Row F)
  or_all all [] = all
  or_all all (r ∷ rs) = r ∷ rs

  -- With the rule `intelligence-threshold`, the routes that are not below the reference come first.
  abbrev pub preferred : VerifyPolicy F → String → Bool → List (Row F) → List (Row F)
  preferred policy category false rows = rows
  preferred policy category true rows = or_all rows (keep (is_cleared policy category) rows)

  abbrev pub bar_of : VerifyPolicy F → ModelInfo F → String → F
  bar_of policy failed category = cap failed category ⊕ policy.min_capability_gain

  abbrev pub name_of_best : Option (Row F) → Option String
  name_of_best none = none
  name_of_best (some r) = some (name_of r)

  abbrev pub step_up :
      VerifyPolicy F
      → String
      → List String
      → Bool
      → List (Row F)
      → Option (ModelInfo F)
      → Option String
  step_up policy category tried by_threshold rows none = none
  step_up policy category tried by_threshold rows (some failed) = name_of_best (
      best cheaper (
        preferred policy category by_threshold
          (keep (clears category tried (bar_of policy failed category)) rows)))

  -- `escalation_choice`; `by_threshold` tells whether the rule is `intelligence-threshold`.
  unfoldable pub escalation_choice :
      VerifyPolicy F
      → Catalog F
      → String
      → List (Row F)
      → String
      → List String
      → Bool
      → Option String
  escalation_choice policy catalog category rows failed tried by_threshold =
      step_up policy category tried by_threshold rows (Catalog.get catalog (some failed))

  -- `bump_floor`
  unfoldable pub bump_floor : Conversation F → Verdict F → VerifyPolicy F → F → Conversation F
  bump_floor conv verdict policy now =
      if not verdict.escalate
      then conv
      else record conv { floor = fmax conv.floor policy.difficulty_floor; floor_set_at = now }
