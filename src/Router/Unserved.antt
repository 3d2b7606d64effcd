-- ===== src/Router/Unserved.antt =====
-- `escalate_after_verdict` of auto_router/router.py after an answer of a plan, where the plans are excluded.
use auto_model_router.Prelude.{
  ◌≡◌, inl, inr, refl, ap, Bool, true, false, Option, none, some, String, List, arith, string_eq,
  Option-cases,
}
use auto_model_router.Prelude.Float.{Float}
use auto_model_router.Catalog.{ModelInfo, Catalog, values, item, truthy}
use auto_model_router.Catalog
use auto_model_router.Catalog.Keyed.{IsKeyed, item-named}
use auto_model_router.Catalog.Listed.{item-In}
use auto_model_router.Verify.{Verdict}
use auto_model_router.Policies.State.{Conversation, Context, Result, ok, raises, key_error, ◌>>=◌}
use auto_model_router.Retries.{retry_catalog, escalation_choice, bump_floor}
use auto_model_router.Router.Messages.{Message}
use auto_model_router.Router.State.{Settings, Router, RouteResult, conversation_at}
use auto_model_router.Router.Routing.{context_for}
use auto_model_router.Router.Attempts.{
  tried_with, escalate_to, escalate_with, verified_retry, finish_attempt, second_attempt,
  after_verdict, escalate_after_verdict,
}
use auto_model_router.Router.Interface.{IsLawful}
use auto_model_router.Router.Served.{retry_catalog-In}
use auto_model_router.Router.Seconds.{retry_catalog-IsKeyed, same_model}

module _ {F : Type 0} ⦃fl : Float F⦄ where
  -- A plan of a keyed catalog is not found in the catalog without the plans.
  no_plan_item :
      (c : Catalog F) (m : ModelInfo F)
      → IsKeyed c
      → item c m.name ≡ some m
      → truthy m.subscription ≡ true
      → item (retry_catalog true c) m.name ≡ none
  no_plan_item c m keyed found plan = elim (Option-cases (item (retry_catalog true c) m.name)) [
    | inl e ↦ e
    | inr (n, e) ↦
        (let (i, no_plan) = retry_catalog-In true c n (item-In _ m.name e) in
          let named =
            item-named (retry_catalog true c) m.name (retry_catalog-IsKeyed true c keyed) e in
          let same : n ≡ m = same_model c m.name n keyed i named found in
          let metered : truthy m.subscription ≡ false = rw (← same) (no_plan refl) in ground arith)
  ]

  get-missing :
      (c : Catalog F) (name : String) → item c name ≡ none → Catalog.get c (some name) ≡ none
  unfolding Catalog.get
  get-missing c name e = ground arith

  verified_retry-missing :
      (st : Settings F) (ctx : Context F) (conv : Conversation F) (result : RouteResult F)
      (rule : Option String) (now : F)
      → Catalog.get ctx.catalog (some result.model.name) ≡ none
      → verified_retry st ctx conv result rule now ≡ ok none
  unfolding verified_retry escalation_choice
  verified_retry-missing st ctx conv result rule now e = rw e refl

  escalate_with-missing :
      (st : Settings F)
      → IsLawful st.policy
      → (ctx : Context F) (result : RouteResult F) (availability : Bool) (now : F)
        (conv : Conversation F)
      → item ctx.catalog result.model.name ≡ none
      → (escalate_with st ctx result availability now conv).0 ≡ raises key_error
  escalate_with-missing st law ctx result availability now conv e =
      let failure =
        st.policy.on_failure conv result.request ctx result.model.name (tried_with result) in
      ap (λ o. o >>= (λ c. ok (escalate_to st ctx failure.1 result availability now c)))
        (law.unlisted conv result.request ctx result.model.name (tried_with result) e)

  second_attempt-missing :
      (st : Settings F)
      → IsLawful st.policy
      → (ctx : Context F) (result : RouteResult F) (verdict : Verdict F) (now : F)
        (conv : Conversation F)
      → item ctx.catalog result.model.name ≡ none
      → (second_attempt st ctx result verdict now conv).0 ≡ raises key_error
  second_attempt-missing st law ctx result verdict now conv e =
      rw (verified_retry-missing st ctx conv result verdict.rule now (get-missing ctx.catalog _ e))
        (escalate_with-missing st law ctx result false now conv e)

  finish_attempt-raises :
      (st : Settings F) (result : RouteResult F) (verdict : Verdict F) (messages : List Message)
      (answer : String) (o : Result (Option (RouteResult F))) (r : Router F)
      → o ≡ raises key_error
      → (finish_attempt st result verdict messages answer o r).0 ≡ raises key_error
  finish_attempt-raises st result verdict messages answer o r e = rw e refl

  after_verdict-raises :
      (rejected : Bool) (st : Settings F)
      → IsLawful st.policy
      → (ctx : Context F) (result : RouteResult F) (verdict : Verdict F) (messages : List Message)
        (answer : String) (now : F) (r : Router F)
      → rejected ≡ true
      → item (retry_catalog true ctx.catalog) result.model.name ≡ none
      → (after_verdict rejected st ctx result verdict messages answer true now r).0
        ≡ raises key_error
  after_verdict-raises false st law ctx result verdict messages answer now r rejected e = cc
  after_verdict-raises true st law ctx result verdict messages answer now r rejected e =
      let conv =
        bump_floor (conversation_at r result.conversation_id) verdict st.verify
          result.request.now in
      finish_attempt-raises st result verdict messages answer _ _
        (second_attempt-missing st law (context_for true ctx) result verdict now conv e)

  -- When the judge rejects an answer that a plan of a keyed catalog gave, and the second attempt
  -- excludes the plans, a lawful policy does not find the failed route, and the error of that look-up
  -- escapes: no second attempt is made and the answer is not returned as it stands either.
  pub escalate_after_verdict-raises :
      (st : Settings F)
      → IsLawful st.policy
      → (ctx : Context F) (result : RouteResult F) (verdict : Verdict F) (messages : List Message)
        (answer : String) (now : F) (r : Router F)
      → IsKeyed ctx.catalog
      → item ctx.catalog result.model.name ≡ some result.model
      → truthy result.model.subscription ≡ true
      → verdict.escalate ≡ true
      → (escalate_after_verdict st ctx result verdict messages answer true now r).0
        ≡ raises key_error
  unfolding escalate_after_verdict
  escalate_after_verdict-raises st law ctx result verdict messages answer now r keyed found plan
        rejected =
      after_verdict-raises verdict.escalate st law ctx result verdict messages answer now r rejected
        (no_plan_item ctx.catalog result.model keyed found plan)
