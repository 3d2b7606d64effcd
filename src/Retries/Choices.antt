-- ===== src/Retries/Choices.antt =====
-- What a second choice of auto_router/router.py and auto_router/verify.py may name.
use auto_model_router.Prelude.{
  Bool-cases, keep-In, ◌≢◌, ℕ, ◌≤◌, ◌≡◌, ◌⊎◌, inl, inr, refl, ap, String, Bool, true, false, Option,
  none, some, List, [], ◌∷◌, arith, eq_iff, keep, best, In, In-keep, best-In, Option-cases,
}
use auto_model_router.Prelude.Float.{Float}
use auto_model_router.Catalog.{Catalog, ModelInfo, cap, or_else}
use auto_model_router.Catalog
use auto_model_router.Verify.{VerifyPolicy}
use auto_model_router.OutcomeMemory.{RouteRecord}
use auto_model_router.Policies.Escalation.{Row, untried}
use auto_model_router.Policies.State.{Choice}
use auto_model_router.Retries.{
  escalate, target_of, or_available, Avoidance, name_of, worth_of, floor_of, others, unflagged,
  usable_rows, before, note_of, fall_back, avoid_when, avoid_repeated_truncation, is_infinite,
  cheaper, is_available, route_of, next_available, clears, preferred, or_all, name_of_best, step_up,
  is_cleared, bar_of, escalation_choice,
}

module _ {F : Type 0} ⦃fl : Float F⦄ where
  module _ (flags : String → Option (RouteRecord F)) (chosen : ModelInfo F)
      (required_output : Option ℕ) (rows : List (Row F)) where
    -- A row of the policy that may stand in for a route that runs out of output budget.
    pub record IsFallback (r : Row F) : Type 0 where
      pub evaluated : In r rows
      pub priced : fl.finite (worth_of r) ≡ true
      pub other : ¬ (name_of r ≡ chosen.name)
      pub clean : flags (name_of r) ≡ none
      pub roomy : floor_of chosen required_output ≤ r.0.max_output_tokens

    usable-IsFallback :
        (r : Row F)
        → In r (usable_rows flags chosen (floor_of chosen required_output) rows)
        → IsFallback r
    usable-IsFallback r i =
        let (j, a) = In-keep _ r (unflagged flags chosen rows) i in
        let (k, b) = In-keep _ r (others flags chosen rows) j in
        let (l, c) = In-keep _ r rows k in
        record {
          evaluated = l;
          priced = ground arith;
          other = λ e. ground (arith, eq_iff (name_of r) chosen.name);
          clean = ground (arith, a, Option-cases (flags (name_of r)));
          roomy = ground arith;
        }

    fall_back-IsFallback :
        (note : Option String → Avoidance F) (o : Option (Row F))
        → ((r : Row F) → o ≡ some r → IsFallback r)
        → ((fall_back flags chosen note o).0 ≡ chosen)
          ⊎ ((r : Row F) × IsFallback r × ((fall_back flags chosen note o).0 ≡ r.0))
    fall_back-IsFallback note none h = inl refl
    fall_back-IsFallback note (some r) h = inr (r, h r refl, refl)

    avoid_when-IsFallback :
        (o : Option (RouteRecord F))
        → ((avoid_when flags chosen required_output rows o).0 ≡ chosen)
          ⊎ ((r : Row F) × IsFallback r
              × ((avoid_when flags chosen required_output rows o).0 ≡ r.0))
    avoid_when-IsFallback none = inl refl
    avoid_when-IsFallback (some seen) =
        fall_back-IsFallback (note_of flags chosen (floor_of chosen required_output) rows seen)
          (best (before flags) (usable_rows flags chosen (floor_of chosen required_output) rows))
          (λ r e. usable-IsFallback r (best-In _ _ e))

    -- The choice stands, or the request moves to another row of the policy with a finite value,
    -- which is not flagged itself and may write at least as much as the chosen route and as the
    -- caller asked for.
    pub avoid_repeated_truncation-IsFallback :
        let model = (avoid_repeated_truncation flags chosen required_output rows).0 in
        (model ≡ chosen) ⊎ ((r : Row F) × IsFallback r × (model ≡ r.0))
    unfolding avoid_repeated_truncation
    avoid_repeated_truncation-IsFallback = avoid_when-IsFallback (flags chosen.name)

  route_of-some :
      (o : Option (Row F)) {m : ModelInfo F}
      → route_of o ≡ some m
      → (r : Row F) × (o ≡ some r) × (r.0 ≡ m)
  route_of-some none h = cc
  route_of-some (some r) h = (r, refl, cc)

  -- A route that `_next_available` names was evaluated, was not tried, and its value is not infinite.
  pub next_available-fresh :
      (rows : List (Row F)) (tried : List String) {m : ModelInfo F}
      → next_available rows tried ≡ some m
      → (r : Row F) × In r rows
        × (r.0 ≡ m)
        × (untried tried m ≡ true)
        × (is_infinite (worth_of r) ≡ false)
  unfolding next_available
  next_available-fresh rows tried {m} h =
      let (r, e, m') = route_of-some (best cheaper (keep (is_available tried) rows)) h in
      let (i, t) = In-keep _ r rows (best-In _ _ e) in
      (r, i, m', ground (arith, t, ap (λ k. untried tried k) m'), ground arith)

  or_all-In : (r : Row F) (all rs : List (Row F)) → In r (or_all all rs) → In r all ⊎ In r rs
  or_all-In r all [] i = inl i
  or_all-In r all (x ∷ rs) i = inr i

  preferred-In :
      (policy : VerifyPolicy F) (category : String) (by_threshold : Bool) (r : Row F)
      (rows : List (Row F))
      → In r (preferred policy category by_threshold rows)
      → In r rows
  preferred-In policy category false r rows i = i
  preferred-In policy category true r rows i =
      elim (or_all-In r rows (keep (is_cleared policy category) rows) i) [
        | inl j ↦ j
        | inr j ↦ (In-keep _ r rows j).0
      ]

  name_of_best-some :
      (o : Option (Row F)) {name : String}
      → name_of_best o ≡ some name
      → (r : Row F) × (o ≡ some r) × (name_of r ≡ name)
  name_of_best-some none h = cc
  name_of_best-some (some r) h = (r, refl, cc)

  -- A route that `escalation_choice` names was evaluated, was not tried, has a value below
  -- infinity, and is rated at the failed route's capability plus the required gain or above it.
  pub escalation_choice-clears :
      (policy : VerifyPolicy F) (catalog : Catalog F) (category : String) (rows : List (Row F))
      (failed : String) (tried : List String) (by_threshold : Bool) {f : ModelInfo F}
      {name : String}
      → Catalog.get catalog (some failed) ≡ some f
      → escalation_choice policy catalog category rows failed tried by_threshold ≡ some name
      → (r : Row F) × In r rows
        × (name_of r ≡ name)
        × (clears category tried (bar_of policy f category) r ≡ true)
  unfolding escalation_choice
  escalation_choice-clears policy catalog category rows failed tried by_threshold {f} {name} found
        h =
      let pool = keep (clears category tried (bar_of policy f category)) rows in
      let (r, e, n) =
        name_of_best-some (best cheaper (preferred policy category by_threshold pool))
          (rw found at h) in
      let (i, t) =
        In-keep _ r rows (preferred-In policy category by_threshold r pool (best-In _ _ e)) in
      (r, i, n, t)

  -- It names a route only where the failed one is in the catalog.
  pub escalation_choice-found :
      (policy : VerifyPolicy F) (catalog : Catalog F) (category : String) (rows : List (Row F))
      (failed : String) (tried : List String) (by_threshold : Bool) {name : String}
      → escalation_choice policy catalog category rows failed tried by_threshold ≡ some name
      → (f : ModelInfo F) × (Catalog.get catalog (some failed) ≡ some f)
  unfolding escalation_choice
  escalation_choice-found policy catalog category rows failed tried by_threshold h =
      found (Catalog.get catalog (some failed)) h
    where
      found :
          (o : Option (ModelInfo F)) {name : String}
          → step_up policy category tried by_threshold rows o ≡ some name
          → (f : ModelInfo F) × (o ≡ some f)
      found none k = cc
      found (some f) k = (f, refl)

  both_none :
      (named next : Option (ModelInfo F))
      → or_available true named next ≡ none
      → (named ≡ none) × (next ≡ none)
  both_none none next h = (refl, h)
  both_none (some m) next h = cc

  available_none :
      (rows : List (Row F)) (r : Row F) → In r rows → route_of (best cheaper rows) ≢ none
  available_none [] r i = absurd i
  available_none (x ∷ xs) r i = cc

  -- After a failure of the upstream, a retry finds no route only if every evaluated route was tried
  -- or has an infinite value, and the policy named no route of the catalog either.
  pub escalate-none :
      (catalog : Catalog F) (retry : Option (Choice F)) (rows : List (Row F)) (tried : List String)
      → escalate catalog retry rows tried true ≡ none
      → (target_of catalog retry ≡ none) × ((r : Row F) → In r rows → is_available tried r ≡ false)
  unfolding escalate next_available
  escalate-none catalog retry rows tried h =
      let (named, rest) = both_none (target_of catalog retry) (next_available rows tried) h in
      (
        named,
        λ r i. elim (Bool-cases (is_available tried r)) [
          | inl t ↦ absurd (available_none _ r (keep-In (is_available tried) r rows i t) rest)
          | inr f ↦ f
        ],
      )
