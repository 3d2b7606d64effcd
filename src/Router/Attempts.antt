-- ===== src/Router/Attempts.antt =====
-- The second attempts of auto_router/router.py: `escalate`, `_verified_retry`, `escalate_after_verdict`
-- and `retry_messages` of auto_router/verify.py. The set of routes that were tried is a list without
-- repetitions.
use auto_model_router.Prelude.{
  ◌+◌, String, Bool, true, false, not, ◌||◌, Option, none, some, List, [], ◌∷◌, ◌++◌, str_eq,
  string_eq, if◌then◌else◌,
}
use auto_model_router.Prelude.Float.{Float}
use auto_model_router.Prelude.Text.{join, strip_text}
use auto_model_router.Catalog.{ModelInfo, item, equals}
use auto_model_router.Verify.{VerifyPolicy, Verdict}
use auto_model_router.Policies.State.{
  Conversation, Context, Choice, Result, ok, raises, key_error, or_raise, ◌>>=◌,
}
use auto_model_router.Policies.Escalation.{untried}
use auto_model_router.Retries.{
  bump_floor, escalation_choice, target_of, or_available, next_available,
}
use auto_model_router.Router.Messages.{Message, text_content}
use auto_model_router.Router.Records.{Why, by_policy, clear_step_up, next_usable}
use auto_model_router.Router.State.{
  Settings, Router, RouteResult, conversation_at, put_conversation, result_of, keyed,
}
use auto_model_router.Router.Routing.{context_for}
use auto_model_router.Router.Checking.{is_blank, attach_verdict, log_check}

abbrev pub objection : String → String
objection failure =
    if str_eq failure "wrong"
    then "contains an error"
    else if str_eq failure "incomplete"
    then "is incomplete"
    else if str_eq failure "off_topic"
    then "does not answer the question"
    else "was judged inadequate"

abbrev pub attempt_note : String → String → String
attempt_note failure answer = join "" (
    "A previous attempt by a smaller model "
    ∷ objection failure
    ∷ ". Do not assume it is correct; answer the original request yourself. Previous attempt:\n\n"
    ∷ strip_text answer
    ∷ [])

module _ {F : Type 0} ⦃fl : Float F⦄ where
  -- `retry_messages`
  unfoldable pub retry_messages : List Message → String → Verdict F → VerifyPolicy F → List Message
  retry_messages messages answer verdict policy =
      if not policy.carry_failed_attempt || is_blank answer
      then messages
      else messages
        ++ (record { role = "user"; content = text_content (attempt_note verdict.failure answer) }
            ∷ [])

  -- `result.tried | {result.model.name}`
  abbrev pub tried_with : RouteResult F → List String
  tried_with result =
      if untried result.tried result.model then result.model.name ∷ result.tried else result.tried

  -- The result of a second attempt on the route `m`
  abbrev pub retry_of :
      Settings F
      → Context F
      → Conversation F
      → RouteResult F
      → F
      → Why F
      → ModelInfo F
      → RouteResult F
  retry_of st ctx conv result now why m =
      keyed result.outcome_key
        (record (result_of st ctx conv result.conversation_id m why result.request
          result.classification now result.turn_start (some result.model.name)) {
            tried = tried_with result;
          })

  -- The reason stays the policy's where the policy named a route of the catalog.
  abbrev pub retry_reason : Option (Choice F) → Option (ModelInfo F) → Why F
  retry_reason none target = next_usable
  retry_reason (some c) none = next_usable
  retry_reason (some c) (some m) = by_policy c.reason

  abbrev pub retry_on_target :
      Settings F
      → Context F
      → Conversation F
      → RouteResult F
      → F
      → Why F
      → Option (ModelInfo F)
      → Option (RouteResult F)
  retry_on_target st ctx conv result now why none = none
  retry_on_target st ctx conv result now why (some m) = some (retry_of st ctx conv result now why m)

  abbrev pub escalate_to :
      Settings F
      → Context F
      → Conversation F
      → RouteResult F
      → Bool
      → F
      → Option (Choice F)
      → Option (RouteResult F)
  escalate_to st ctx conv result availability now choice =
      let named = target_of ctx.catalog choice in
      let rows = st.policy.evaluate conv result.request ctx in
      retry_on_target st ctx conv result now (retry_reason choice named)
        (or_available availability named (next_available rows (tried_with result)))

  abbrev pub escalate_with :
      Settings F
      → Context F
      → RouteResult F
      → Bool
      → F
      → Conversation F
      → Result (Option (RouteResult F)) × Conversation F
  escalate_with st ctx result availability now conv =
      let (choice, conv') =
        st.policy.on_failure conv result.request ctx result.model.name (tried_with result) in
      ((do c ← choice; ok (escalate_to st ctx conv' result availability now c)), conv')

  -- `escalate`: the retry, where there is one, and the router
  unfoldable pub escalate :
      Settings F
      → Context F
      → RouteResult F
      → Bool
      → Bool
      → F
      → Router F
      → Result (Option (RouteResult F)) × Router F
  escalate st ctx result availability exclude_subscriptions now r =
      let cid = result.conversation_id in
      let (retry, conv') =
        escalate_with st (context_for exclude_subscriptions ctx) result availability now
          (conversation_at r cid) in
      (retry, put_conversation cid conv' r)

  abbrev pub step_up_to :
      Settings F
      → Context F
      → Conversation F
      → RouteResult F
      → F
      → Option String
      → Result (Option (RouteResult F))
  step_up_to st ctx conv result now none = ok none
  step_up_to st ctx conv result now (some name) = do
    m ← or_raise (item ctx.catalog name) key_error
    ok (some (retry_of st ctx conv result now clear_step_up m))

  -- `_verified_retry`
  unfoldable pub verified_retry :
      Settings F
      → Context F
      → Conversation F
      → RouteResult F
      → Option String
      → F
      → Result (Option (RouteResult F))
  verified_retry st ctx conv result rule now = step_up_to st ctx conv result now (
      escalation_choice st.verify ctx.catalog result.request.category
        (st.policy.evaluate conv result.request ctx) result.model.name (tried_with result)
        (equals rule "intelligence-threshold"))

  abbrev pub or_escalate :
      Settings F
      → Context F
      → RouteResult F
      → F
      → Conversation F
      → Result (Option (RouteResult F))
      → Result (Option (RouteResult F)) × Conversation F
  or_escalate st ctx result now conv (raises why) = (raises why, conv)
  or_escalate st ctx result now conv (ok (some retry)) = (ok (some retry), conv)
  or_escalate st ctx result now conv (ok none) = escalate_with st ctx result false now conv

-- What `escalate_after_verdict` returns, with the result that holds the verdict.
pub record Attempt (F : Type 0) : Type 0 where
  pub retry : Option (RouteResult F)
  pub messages : List Message
  pub verdict : Verdict F
  pub result : RouteResult F

module _ {F : Type 0} ⦃fl : Float F⦄ where
  abbrev pub standing : Verdict F → Verdict F
  standing v = record v { reason = "no stronger route available; the answer stands" }

  abbrev pub escalated : RouteResult F → Verdict F → Verdict F
  escalated retry v = record v {
    escalated_to = some retry.model.name;
    escalations = v.escalations + 1;
  }

  abbrev pub attempt_with :
      Settings F
      → RouteResult F
      → Verdict F
      → List Message
      → String
      → Option (RouteResult F)
      → Attempt F
  attempt_with st result verdict messages answer none =
      let v = standing verdict in
      record { retry = none; messages = messages; verdict = v; result = attach_verdict result v }
  attempt_with st result verdict messages answer (some retry) =
      let v = escalated retry verdict in
      record {
        retry = some (attach_verdict retry v);
        messages = retry_messages messages answer v st.verify;
        verdict = v;
        result = attach_verdict result v;
      }

  abbrev pub finish_attempt :
      Settings F
      → RouteResult F
      → Verdict F
      → List Message
      → String
      → Result (Option (RouteResult F))
      → Router F
      → Result (Attempt F) × Router F
  finish_attempt st result verdict messages answer (raises why) r = (raises why, r)
  finish_attempt st result verdict messages answer (ok retry) r =
      let a = attempt_with st result verdict messages answer retry in
      (ok a, log_check a.result a.verdict r)

  abbrev pub second_attempt :
      Settings F
      → Context F
      → RouteResult F
      → Verdict F
      → F
      → Conversation F
      → Result (Option (RouteResult F)) × Conversation F
  second_attempt st ctx result verdict now conv =
      or_escalate st ctx result now conv (verified_retry st ctx conv result verdict.rule now)

  -- `rejected` is `verdict.escalate`.
  abbrev pub after_verdict :
      Bool
      → Settings F
      → Context F
      → RouteResult F
      → Verdict F
      → List Message
      → String
      → Bool
      → F
      → Router F
      → Result (Attempt F) × Router F
  after_verdict false st ctx result verdict messages answer exclude_subscriptions now r =
      (ok (record { retry = none; messages = messages; verdict = verdict; result = result }), r)
  after_verdict true st ctx result verdict messages answer exclude_subscriptions now r =
      let cid = result.conversation_id in
      let conv = bump_floor (conversation_at r cid) verdict st.verify result.request.now in
      let (retry, conv') =
        second_attempt st (context_for exclude_subscriptions ctx) result verdict now conv in
      finish_attempt st result verdict messages answer retry (put_conversation cid conv' r)

  -- `escalate_after_verdict`
  unfoldable pub escalate_after_verdict :
      Settings F
      → Context F
      → RouteResult F
      → Verdict F
      → List Message
      → String
      → Bool
      → F
      → Router F
      → Result (Attempt F) × Router F
  escalate_after_verdict st ctx result verdict messages answer exclude_subscriptions now r =
      after_verdict verdict.escalate st ctx result verdict messages answer exclude_subscriptions now
        r
