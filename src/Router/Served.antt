-- ===== src/Router/Served.antt =====
-- Which routes `route` of auto_router/router.py may name.
use auto_model_router.Prelude.{
  ◌≡◌, inl, inr, refl, ap, ℕ, leb, Bool, true, false, not, Option, none, some, String, List, [],
  ◌∷◌, arith, string_eq, In, In-keep, keep, Bool-cases,
}
use auto_model_router.Prelude.Float.{Float}
use auto_model_router.Catalog.{ModelInfo, Catalog, values, item, truthy}
use auto_model_router.Catalog.Listed.{item-In, get-In, of_list-In}
use auto_model_router.Policies.State.{
  TurnRequest, Conversation, Context, Choice, Result, ok, raises, key_error, or_raise, >>=-eq-ok,
  or_raise-ok, ok-injective,
}
use auto_model_router.OutcomeMemory.{RouteRecord, OutcomeKey}
use auto_model_router.Retries.{retry_catalog, avoid_repeated_truncation}
use auto_model_router.Retries.Choices.{avoid_repeated_truncation-IsFallback}
use auto_model_router.Router.Messages.{Message, is_tool_continuation}
use auto_model_router.Router.Records.{Classification}
use auto_model_router.Router.State.{Policy, Settings, Router, RouteResult, result_of}
use auto_model_router.Router.Routing.{
  Call, context_for, loop_retry, continue_turn, start_turn, current_in_loop, keyed_result,
  route_from, route,
}
use auto_model_router.Router.Interface.{IsLawful}

module _ {F : Type 0} ⦃fl : Float F⦄ where
  -- A route of a catalog from which the plans are excluded is one of the whole catalog, and no plan.
  pub retry_catalog-In :
      (exclude : Bool) (c : Catalog F) (m : ModelInfo F)
      → In m (values (retry_catalog exclude c))
      → In m (values c) × (exclude ≡ true → truthy m.subscription ≡ false)
  unfolding retry_catalog
  retry_catalog-In false c m i = (i, λ e. cc)
  retry_catalog-In true c m i = ground (
    arith,
    of_list-In m (keep (λ (n : ModelInfo F). not (truthy n.subscription)) (values c)) i,
    In-keep (λ (n : ModelInfo F). not (truthy n.subscription)) m (values c),
  )

  loop_retry-In :
      (st : Settings F) (ctx : Context F) (conv : Conversation F) (cid : String)
      (base : TurnRequest F) (now : F) (m : ModelInfo F) (errors : ℕ) (o : Option (Choice F))
      {result : RouteResult F}
      → In m (values ctx.catalog)
      → loop_retry st ctx conv cid base now m errors o ≡ ok result
      → In result.model (values ctx.catalog)
  unfolding result_of
  loop_retry-In st ctx conv cid base now m errors none i h = rw (← ok-injective h) i
  loop_retry-In st ctx conv cid base now m errors (some retry) i h =
      let (target, found, done) =
        >>=-eq-ok (or_raise (item ctx.catalog retry.model) key_error) _ h in
      rw (← ok-injective done) (item-In ctx.catalog retry.model (or_raise-ok _ _ found))

  continue_turn-In :
      (st : Settings F) (ctx : Context F) (conv : Conversation F) (cid : String)
      (base : TurnRequest F) (now : F) (current : String) (m : ModelInfo F) (errors : ℕ)
      {result : RouteResult F}
      → In m (values ctx.catalog)
      → (continue_turn st ctx conv cid base now current m errors).0 ≡ ok result
      → In result.model (values ctx.catalog)
  unfolding continue_turn result_of
  continue_turn-In st ctx conv cid base now current m errors i h =
      elim (Bool-cases (leb st.escalate_after_tool_errors errors)) [
        | inl e ↦
            let failing = st.policy.on_failure conv base ctx current (current ∷ []) in
            let (c, found, done) =
              >>=-eq-ok failing.0 (loop_retry st ctx failing.1 cid base now m errors) (rw e at h) in
            loop_retry-In st ctx failing.1 cid base now m errors c i done
        | inr e ↦ rw (← ok-injective (rw e at h)) i
      ]

  avoided-In :
      (p : Policy F)
      → IsLawful p
      → (flags : String → Option (RouteRecord F)) (chosen : ModelInfo F) (budget : Option ℕ)
        (conv : Conversation F) (req : TurnRequest F) (ctx : Context F)
      → In chosen (values ctx.catalog)
      → In
          (avoid_repeated_truncation flags chosen budget (p.evaluate conv req ctx)).0
          (values ctx.catalog)
  avoided-In p law flags chosen budget conv req ctx i =
      elim (avoid_repeated_truncation-IsFallback flags chosen budget (p.evaluate conv req ctx)) [
        | inl e ↦ rw e i
        | inr (r, fit, e) ↦ rw e (law.listed conv req ctx r fit.evaluated)
      ]

  start_turn-In :
      (st : Settings F)
      → IsLawful st.policy
      → (ctx : Context F) (r : Router F) (conv : Conversation F) (cid : String)
        (req : TurnRequest F) (cls : Option (Classification F)) (max_tokens : Option ℕ) (now : F)
        {result : RouteResult F}
      → start_turn st ctx r conv cid req cls max_tokens now ≡ ok result
      → In result.model (values ctx.catalog)
  unfolding start_turn result_of
  start_turn-In st law ctx r conv cid req cls max_tokens now h =
      let (c, e, h') = >>=-eq-ok (st.policy.choose conv req ctx) _ h in
      let (chosen, found, done) = >>=-eq-ok (or_raise (item ctx.catalog c.model) key_error) _ h' in
      rw (← ok-injective done) (
        avoided-In st.policy law _ chosen _ conv req ctx
          (item-In ctx.catalog c.model (or_raise-ok _ _ found)))

  keyed_result-ok :
      (key : Option OutcomeKey) (o : Result (RouteResult F)) {result : RouteResult F}
      → keyed_result key o ≡ ok result
      → (inner : RouteResult F) × (o ≡ ok inner) × (inner.model ≡ result.model)
  keyed_result-ok key (raises why) h = cc
  keyed_result-ok key (ok inner) h = (inner, refl, ap (λ x. x.model) (ok-injective h))

  no_model : {m : ModelInfo F} → none ≡ some m → ⊥
  no_model h = cc

  current_in_loop-In :
      (messages : List Message) (c : Catalog F) (conv : Conversation F) {m : ModelInfo F}
      → current_in_loop messages c conv ≡ some m
      → In m (values c)
  current_in_loop-In messages c conv h = elim (Bool-cases (is_tool_continuation messages)) [
    | inl e ↦ get-In c conv.current (rw e at h)
    | inr e ↦ absurd (no_model (rw e at h))
  ]

  route_from-In :
      (st : Settings F)
      → IsLawful st.policy
      → (ctx : Context F) (r : Router F) (conv : Conversation F) (cid : String) (call : Call F)
        (tokens : ℕ) (current : Option (ModelInfo F)) {result : RouteResult F}
      → current_in_loop call.messages ctx.catalog conv ≡ current
      → (route_from st ctx r conv cid call tokens current).0 ≡ ok result
      → In result.model (values ctx.catalog)
  route_from-In st law ctx r conv cid call tokens none e h =
      start_turn-In st law ctx r conv cid _ _ _ _ h
  route_from-In st law ctx r conv cid call tokens (some m) e h =
      let (inner, found, same) = keyed_result-ok _ _ h in
      rw (← same) (continue_turn-In st ctx conv cid _ _ _ m _ (current_in_loop-In _ _ conv e) found)

  -- Where a call excludes the plans and the policy keeps the laws, the route that `route` returns is in
  -- the catalog and is no plan: on a new turn, on the way around truncations, and inside a tool loop.
  pub route-no_plan :
      (st : Settings F)
      → IsLawful st.policy
      → (ctx : Context F) (call : Call F) (r : Router F) {result : RouteResult F}
      → call.exclude_subscriptions ≡ true
      → (route st ctx call r).0 ≡ ok result
      → In result.model (values ctx.catalog) × (truthy result.model.subscription ≡ false)
  unfolding route
  route-no_plan st law ctx call r {result} exclude h =
      let (i, no_plan) =
        retry_catalog-In call.exclude_subscriptions ctx.catalog result.model (
          route_from-In st law (context_for call.exclude_subscriptions ctx) r _ _ call _ _ refl
            h) in
      (i, no_plan exclude)
