-- ===== src/Router/Retried.antt =====
-- What a second attempt of auto_router/router.py may be: `escalate` and `escalate_after_verdict`.
use mathlib.Core.Option.{some-injective}
use auto_model_router.Prelude.{
  ◌≡◌, ◌⊎◌, inl, inr, refl, Bool, true, false, Option, none, some, String, List, string_eq,
}
use auto_model_router.Prelude.Float.{Float}
use auto_model_router.Catalog.Keyed.{IsKeyed}
use auto_model_router.Verify.{VerifyPolicy, Verdict}
use auto_model_router.Policies.State.{
  Conversation, Context, Result, ok, raises, >>=-eq-ok, ok-injective,
}
use auto_model_router.Retries.{target_of, bump_floor}
use auto_model_router.Router.Messages.{Message}
use auto_model_router.Router.State.{
  Settings, Router, RouteResult, conversation_at, put_conversation,
}
use auto_model_router.Router.Routing.{context_for}
use auto_model_router.Router.Checking.{attach_verdict}
use auto_model_router.Router.Attempts.{
  tried_with, escalate_to, escalate_with, escalate, verified_retry, or_escalate, Attempt,
  attempt_with, escalated, finish_attempt, second_attempt, after_verdict, escalate_after_verdict,
}
use auto_model_router.Router.Interface.{IsLawful}
use auto_model_router.Router.Seconds.{
  retry_catalog-IsKeyed, IsSecond, IsStronger, verified_retry-IsSecond, named-IsSecond,
  available-IsSecond, retry_on_target-some, or_available-some,
}

module _ {F : Type 0} ⦃fl : Float F⦄ where
  escalate_with-IsSecond :
      (st : Settings F)
      → IsLawful st.policy
      → (ctx : Context F) (result : RouteResult F) (availability : Bool) (now : F)
        (conv : Conversation F) {retry : RouteResult F}
      → IsKeyed ctx.catalog
      → (escalate_with st ctx result availability now conv).0 ≡ ok (some retry)
      → IsSecond ctx result retry × (IsStronger st.verify ctx result retry ⊎ (availability ≡ true))
  escalate_with-IsSecond st law ctx result availability now conv keyed h =
      let failure =
        st.policy.on_failure conv result.request ctx result.model.name (tried_with result) in
      let (o, e, k) =
        >>=-eq-ok failure.0 (λ c. ok (escalate_to st ctx failure.1 result availability now c)) h in
      let (m, target, done) =
        retry_on_target-some st ctx failure.1 result now _ _ (ok-injective k) in
      elim (or_available-some availability (target_of ctx.catalog o) _ target) [
        | inl named ↦
            (let (second, up) =
                named-IsSecond st law ctx conv failure.1 result now _ o m keyed e named done in
              (second, inl up))
        | inr (available, next) ↦ (
          available-IsSecond st law ctx failure.1 failure.1 result now _ m next done,
          inr available,
        )
      ]

  -- With a lawful policy and a keyed catalog, the retry that `escalate` names is another route of the
  -- catalog of the retry, which the turn has not tried; it is rated above the failed route unless the
  -- caller said that the upstream was unavailable.
  pub escalate-IsSecond :
      (st : Settings F)
      → IsLawful st.policy
      → (ctx : Context F) (result : RouteResult F) (availability exclude : Bool) (now : F)
        (r : Router F) {retry : RouteResult F}
      → IsKeyed ctx.catalog
      → (escalate st ctx result availability exclude now r).0 ≡ ok (some retry)
      → IsSecond (context_for exclude ctx) result retry
        × (IsStronger st.verify (context_for exclude ctx) result retry ⊎ (availability ≡ true))
  unfolding escalate
  escalate-IsSecond st law ctx result availability exclude now r keyed h =
      escalate_with-IsSecond st law (context_for exclude ctx) result availability now _
        (retry_catalog-IsKeyed exclude ctx.catalog keyed) h

  or_escalate-cases :
      (st : Settings F) (ctx : Context F) (result : RouteResult F) (now : F) (conv : Conversation F)
      (first : Result (Option (RouteResult F))) {retry : RouteResult F}
      → (or_escalate st ctx result now conv first).0 ≡ ok (some retry)
      → (first ≡ ok (some retry))
        ⊎ ((first ≡ ok none) × ((escalate_with st ctx result false now conv).0 ≡ ok (some retry)))
  or_escalate-cases st ctx result now conv (raises why) h = cc
  or_escalate-cases st ctx result now conv (ok (some retry)) h = inl h
  or_escalate-cases st ctx result now conv (ok none) h = inr (refl, h)

  second_attempt-IsSecond :
      (st : Settings F)
      → IsLawful st.policy
      → (ctx : Context F) (result : RouteResult F) (verdict : Verdict F) (now : F)
        (conv : Conversation F) {retry : RouteResult F}
      → IsKeyed ctx.catalog
      → (second_attempt st ctx result verdict now conv).0 ≡ ok (some retry)
      → IsSecond ctx result retry × IsStronger st.verify ctx result retry
  second_attempt-IsSecond st law ctx result verdict now conv keyed h =
      elim (or_escalate-cases st ctx result now conv
        (verified_retry st ctx conv result verdict.rule now) h) [
          | inl e ↦ verified_retry-IsSecond st law ctx conv result verdict.rule now keyed e
          | inr (missing, e) ↦
              (let (second, up) = escalate_with-IsSecond st law ctx result false now conv keyed e in
                (second, elim up [ inl stronger ↦ stronger | inr available ↦ cc ]))
        ]

  retry_back :
      (x : Attempt F) {a : Attempt F} {o : Option (RouteResult F)}
      → ok x ≡ ok a
      → a.retry ≡ o
      → x.retry ≡ o
  retry_back x h e = rw (ok-injective h) e

  no_retry : {retry : RouteResult F} → none ≡ some retry → ⊥
  no_retry h = cc

  finish_attempt-retry :
      (st : Settings F) (result : RouteResult F) (verdict : Verdict F) (messages : List Message)
      (answer : String) (o : Result (Option (RouteResult F))) (r : Router F) {a : Attempt F}
      {retry : RouteResult F}
      → (finish_attempt st result verdict messages answer o r).0 ≡ ok a
      → a.retry ≡ some retry
      → (inner : RouteResult F) × (o ≡ ok (some inner))
        × (attach_verdict inner (escalated inner verdict) ≡ retry)
  finish_attempt-retry st result verdict messages answer (raises why) r h e = cc
  finish_attempt-retry st result verdict messages answer (ok none) r h e =
      absurd (no_retry (retry_back (attempt_with st result verdict messages answer none) h e))
  finish_attempt-retry st result verdict messages answer (ok (some inner)) r h e = (
    inner,
    refl,
    some-injective _ _
        (retry_back (attempt_with st result verdict messages answer (some inner)) h e),
  )

  attached-IsSecond :
      (policy : VerifyPolicy F) (ctx : Context F) (result inner : RouteResult F) (v : Verdict F)
      {retry : RouteResult F}
      → attach_verdict inner v ≡ retry
      → IsSecond ctx result inner × IsStronger policy ctx result inner
      → IsSecond ctx result retry × IsStronger policy ctx result retry
  attached-IsSecond policy ctx result inner v e (second, up) = rw (← e) (
    record {
      in_catalog = second.in_catalog;
      fresh = second.fresh;
      tried = second.tried;
      conversation = second.conversation;
      request = second.request;
      key = second.key;
    },
    record { failed = up.failed; found = up.found; gain = up.gain },
  )

  after_verdict-IsSecond :
      (rejected : Bool) (st : Settings F)
      → IsLawful st.policy
      → (ctx : Context F) (result : RouteResult F) (verdict : Verdict F) (messages : List Message)
        (answer : String) (exclude : Bool) (now : F) (r : Router F) {a : Attempt F}
        {retry : RouteResult F}
      → IsKeyed ctx.catalog
      → (after_verdict rejected st ctx result verdict messages answer exclude now r).0 ≡ ok a
      → a.retry ≡ some retry
      → IsSecond (context_for exclude ctx) result retry
        × IsStronger st.verify (context_for exclude ctx) result retry
  after_verdict-IsSecond false st law ctx result verdict messages answer exclude now r keyed h e =
      absurd (no_retry (retry_back _ h e))
  after_verdict-IsSecond true st law ctx result verdict messages answer exclude now r keyed h e =
      let conv =
        bump_floor (conversation_at r result.conversation_id) verdict st.verify
          result.request.now in
      let attempt = second_attempt st (context_for exclude ctx) result verdict now conv in
      let (inner, k, made) =
        finish_attempt-retry st result verdict messages answer attempt.0
          (put_conversation result.conversation_id attempt.1 r) h e in
      attached-IsSecond st.verify (context_for exclude ctx) result inner (escalated inner verdict)
        made
        (second_attempt-IsSecond st law (context_for exclude ctx) result verdict now conv
          (retry_catalog-IsKeyed exclude ctx.catalog keyed) k)

  -- With a policy that keeps the laws `IsLawful`, as the policies B to F do and A does not, and a catalog
  -- that holds each model under its own name, the second attempt after a rejected answer, where there
  -- is one, is on a route that the turn has not tried and that is rated above the rejected one by at
  -- least the gain that the verify policy asks for, which may be zero or less, or by more than a point.
  pub escalate_after_verdict-IsSecond :
      (st : Settings F)
      → IsLawful st.policy
      → (ctx : Context F) (result : RouteResult F) (verdict : Verdict F) (messages : List Message)
        (answer : String) (exclude : Bool) (now : F) (r : Router F) {a : Attempt F}
        {retry : RouteResult F}
      → IsKeyed ctx.catalog
      → (escalate_after_verdict st ctx result verdict messages answer exclude now r).0 ≡ ok a
      → a.retry ≡ some retry
      → IsSecond (context_for exclude ctx) result retry
        × IsStronger st.verify (context_for exclude ctx) result retry
  unfolding escalate_after_verdict
  escalate_after_verdict-IsSecond st law ctx result verdict =
      after_verdict-IsSecond verdict.escalate st law ctx result verdict
