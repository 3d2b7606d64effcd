-- ===== src/Switch/Target.antt =====
-- Which mode `decide` and `cheap_equivalent` of auto_router/switch.py may name.
use mathlib.Core.Option.{some-injective}
use auto_model_router.Prelude.{
  ℕ, ◌≡◌, inl, inr, refl, sym, ap, ◌∙◌, String, true, false, Option, none, some, List, [], ◌∷◌,
  arith, first, In, Bool-cases, Option-cases, str_eq,
}
use auto_model_router.Prelude.Float.{Float}
use auto_model_router.Catalog.{truthy, equals}
use auto_model_router.Policies.State.{Result, ok, raises, ok-injective}
use auto_model_router.Switch.{
  Mode, cheap, plan, JobRow, JobRoute, Decision, is_close, compared, is_skipped, first_close,
  close_in, cheap_equivalent, by_equivalent, by_route, by_router, by_force, decide, strip_force,
}
use auto_model_router.Switch.Apart.{NoneClose, cheap_equivalent-NoneClose}

no_name : {P : Type 0} {name : String} → none ≡ some name → P
no_name h = cc

module _ {F : Type 0} ⦃fl : Float F⦄ where
  -- A row of the cheap side that is as good as the chosen one, within the ties.
  pub record IsEqual (chosen : JobRow F) (rows : List (JobRow F)) (name : String) : Type 0 where
    pub row : JobRow F
    pub usd : F
    pub chosen_usd : F
    pub listed : In row rows
    pub named : row.model ≡ name
    pub metered : truthy row.subscription ≡ false
    pub open_to_use : truthy row.rejected ≡ false
    pub priced : row.expected ≡ some usd
    pub chosen_priced : chosen.expected ≡ some chosen_usd
    pub close : is_close chosen chosen_usd usd row ≡ true

  later-IsEqual :
      (chosen row : JobRow F) (rows : List (JobRow F)) (name : String)
      → IsEqual chosen rows name
      → IsEqual chosen (row ∷ rows) name
  later-IsEqual chosen row rows name e = record {
    row = e.row;
    usd = e.usd;
    chosen_usd = e.chosen_usd;
    listed = inr e.listed;
    named = e.named;
    metered = e.metered;
    open_to_use = e.open_to_use;
    priced = e.priced;
    chosen_priced = e.chosen_priced;
    close = e.close;
  }

  compared-IsEqual :
      (chosen row : JobRow F) (usd chosen_usd : Option F) (rest : Result (Option String))
      (rows : List (JobRow F)) {name : String}
      → row.expected ≡ usd
      → chosen.expected ≡ chosen_usd
      → is_skipped row ≡ false
      → (rest ≡ ok (some name) → IsEqual chosen rows name)
      → compared chosen row usd chosen_usd rest ≡ ok (some name)
      → IsEqual chosen (row ∷ rows) name
  compared-IsEqual chosen row none chosen_usd rest rows p q s ih h = cc
  compared-IsEqual chosen row (some usd) none rest rows p q s ih h = cc
  compared-IsEqual chosen row (some usd) (some chosen_usd) rest rows {name} p q s ih h =
      elim (Bool-cases (is_close chosen chosen_usd usd row)) [
        | inl t ↦ record {
          row = row;
          usd = usd;
          chosen_usd = chosen_usd;
          listed = inl refl;
          named = some-injective _ _ (ok-injective (rw t at h));
          metered = ground arith;
          open_to_use = ground arith;
          priced = p;
          chosen_priced = q;
          close = t;
        }
        | inr f ↦ later-IsEqual chosen row rows name (ih (rw f at h))
      ]

  first_close-IsEqual :
      (chosen : JobRow F) (rows : List (JobRow F)) {name : String}
      → first_close chosen rows ≡ ok (some name)
      → IsEqual chosen rows name
  unfolding first_close
  first_close-IsEqual chosen [] h = cc
  first_close-IsEqual chosen (row ∷ rows) {name} h = elim (Bool-cases (is_skipped row)) [
    | inl t ↦ later-IsEqual chosen row rows name (first_close-IsEqual chosen rows (rw t at h))
    | inr f ↦
        compared-IsEqual chosen row row.expected chosen.expected (first_close chosen rows) rows refl
          refl f (first_close-IsEqual chosen rows) (rw f at h)
  ]

  cheap_not_plan :
      {P : Type 0} {c d : Decision F} → c.target ≡ cheap → ok c ≡ ok d → d.target ≡ plan → P
  cheap_not_plan {c} {d} e h t =
      let k : cheap ≡ plan = sym e ∙ ap (λ (x : Decision F). x.target) (ok-injective h) ∙ t in cc

  close_in-IsEqual :
      (model : String) (rows : Option (List (JobRow F))) {name : String}
      → close_in model rows ≡ ok (some name)
      → (chosen : JobRow F) × (rs : List (JobRow F)) × (rows ≡ some rs)
        × (first (λ r. str_eq r.model model) rs ≡ some chosen)
        × IsEqual chosen rs name
  close_in-IsEqual model none h = cc
  close_in-IsEqual model (some rs) h = elim (Option-cases (first (λ r. str_eq r.model model) rs)) [
    | inl e ↦ no_name (ok-injective (rw e at h))
    | inr (chosen, e) ↦ (chosen, rs, refl, e, first_close-IsEqual chosen rs (rw e at h))
  ]

  -- The route that `cheap_equivalent` names is a row of the explanation that belongs to no plan, is
  -- not rejected, and comes as close to the row of the chosen route as the ties say.
  pub cheap_equivalent-IsEqual :
      (route : JobRoute F) {name : String}
      → cheap_equivalent route ≡ ok (some name)
      → (chosen : JobRow F) × (rs : List (JobRow F)) × (route.rows ≡ some rs)
        × (first (λ r. str_eq r.model route.model.name) rs ≡ some chosen)
        × IsEqual chosen rs name
  unfolding cheap_equivalent
  cheap_equivalent-IsEqual route h = close_in-IsEqual route.model.name route.rows h

  -- What must hold before a prompt of a cheap session goes to the plan.
  pub data MovesToPlan (prompt : List ℕ) (router : Option (List ℕ → Option (JobRoute F)))
      : Type 0 where
    prompt_forces : (strip_force prompt).1 ≡ some plan → MovesToPlan prompt router
    router_asks :
        (route_job : List ℕ → Option (JobRoute F)) (route : JobRoute F)
        → router ≡ some route_job
        → route_job (strip_force prompt).0 ≡ some route
        → equals route.model.subscription "claude" ≡ true
        → NoneClose route
        → MovesToPlan prompt router

  by_equivalent-plan :
      (route : JobRoute F) (text : List ℕ) (o : Result (Option String)) {d : Decision F}
      → by_equivalent route text o ≡ ok d
      → d.target ≡ plan
      → o ≡ ok none
  by_equivalent-plan route text (raises e) h t = cc
  by_equivalent-plan route text (ok none) h t = refl
  by_equivalent-plan route text (ok (some name)) h t = cheap_not_plan refl h t

  by_route-plan :
      (threshold : F) (text : List ℕ) (o : Option (JobRoute F)) {d : Decision F}
      → by_route cheap threshold text o ≡ ok d
      → d.target ≡ plan
      → (route : JobRoute F) × (o ≡ some route)
        × (equals route.model.subscription "claude" ≡ true)
        × (cheap_equivalent route ≡ ok none)
  by_route-plan threshold text none h t = cheap_not_plan refl h t
  by_route-plan threshold text (some route) {d} h t =
      elim (Bool-cases (equals route.model.subscription "claude")) [
        | inl e ↦
            (route, refl, e, by_equivalent-plan route text (cheap_equivalent route) (rw e at h) t)
        | inr e ↦ cheap_not_plan refl (rw e at h) t
      ]

  by_router-plan :
      (threshold : F) (text : List ℕ) (router : Option (List ℕ → Option (JobRoute F)))
      {d : Decision F}
      → by_router cheap threshold text router ≡ ok d
      → d.target ≡ plan
      → (route_job : List ℕ → Option (JobRoute F)) × (route : JobRoute F) × (router
          ≡ some route_job)
        × (route_job text ≡ some route)
        × (equals route.model.subscription "claude" ≡ true)
        × NoneClose route
  by_router-plan threshold text none h t = cheap_not_plan refl h t
  by_router-plan threshold text (some route_job) h t =
      let (route, e, claude, equal) = by_route-plan threshold text (route_job text) h t in
      (route_job, route, refl, e, claude, cheap_equivalent-NoneClose route equal)

  by_force-plan :
      (prompt : List ℕ) (router : Option (List ℕ → Option (JobRoute F))) (threshold : F)
      (forced : List ℕ × Option Mode) {d : Decision F}
      → strip_force prompt ≡ forced
      → by_force cheap router threshold forced ≡ ok d
      → d.target ≡ plan
      → MovesToPlan prompt router
  by_force-plan prompt router threshold (text, none) e h t =
      let (route_job, route, r, s, claude, equal) = by_router-plan threshold text router h t in
      router_asks route_job route r (ap (λ p. route_job p.0) e ∙ s) claude equal
  by_force-plan prompt router threshold (text, some cheap) e h t = cheap_not_plan refl h t
  by_force-plan prompt router threshold (text, some plan) e h t = prompt_forces (ap (λ p. p.1) e)

  -- A prompt moves a cheap session to the plan only if it forces that, or if the job router chose a
  -- route of the Claude plan and no row of its explanation comes close to it: there are no rows, none is
  -- of the chosen route, or every one is of a plan, rejected, over a cent dearer than the chosen one,
  -- or over two points less likely to succeed.
  pub decide-MovesToPlan :
      (prompt : List ℕ) (router : Option (List ℕ → Option (JobRoute F))) (threshold : F)
      {d : Decision F}
      → decide prompt cheap router threshold ≡ ok d
      → d.target ≡ plan
      → MovesToPlan prompt router
  unfolding decide
  decide-MovesToPlan prompt router threshold h t =
      by_force-plan prompt router threshold (strip_force prompt) refl h t
