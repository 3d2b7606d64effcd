-- ===== src/Router/Routing.antt =====
-- `route` of auto_router/router.py: one turn of a conversation to a route of the catalog. The hash of the
-- first message, the raw estimate of the prompt and whether there are tools are arguments.
use auto_model_router.Prelude.{
  ℕ, String, Bool, true, false, Option, none, some, List, [], ◌∷◌, length, leb, string_eq,
  if◌then◌else◌,
}
use auto_model_router.Prelude.Float.{Float}
use auto_model_router.Prelude.Json.{Json, int, null}
use auto_model_router.Prelude.Text.{codes}
use auto_model_router.Catalog
use auto_model_router.Catalog.{Catalog, ModelInfo, or_else, item, values, truthy, of_list}
use auto_model_router.CacheIndex
use auto_model_router.OutcomeMemory.{OutcomeKey, explicit_budget, budget_bucket, should_avoid}
use auto_model_router.Policies.State.{
  TurnRequest, Conversation, Context, Choice, Result, ok, raises, key_error, or_raise, ◌>>=◌,
}
use auto_model_router.Retries.{Avoidance, avoid_repeated_truncation, retry_catalog}
use auto_model_router.Router.Messages.{
  Message, last_user_text, is_tool_continuation, recent_tool_errors,
}
use auto_model_router.Router.Records.{
  Classification, Why, by_policy, in_tool_loop, failing_results, repeated_truncation,
  RoutingExplanation,
}
use auto_model_router.Router.Requests.{count_or, plain_request, turn_request}
use auto_model_router.Router.State.{
  Settings, Router, RouteResult, conversation_at, put_conversation, result_of, keyed,
}

-- The text of `hashes[0][:16]`, or the name of an empty conversation
abbrev pub conversation_id : (Message → String) → List Message → String
conversation_id hash16 [] = "anonymous"
conversation_id hash16 (m ∷ ms) = hash16 m

-- What one call of `route` is given. `estimate` is the raw estimate of the prompt.
pub record Call (F : Type 0) : Type 0 where
  pub messages : List Message
  pub hash16 : Message → String
  pub estimate : ℕ
  pub has_tools : Bool
  pub max_tokens : Option ℕ
  pub now : F
  pub exclude_subscriptions : Bool

module _ {F : Type 0} ⦃fl : Float F⦄ where
  abbrev pub stated : Option ℕ → Json F
  stated none = null
  stated (some n) = int n

  -- `_retry_context`, and the context of a route that excludes the plans
  abbrev pub context_for : Bool → Context F → Context F
  context_for exclude_subscriptions ctx = record ctx {
    catalog = retry_catalog exclude_subscriptions ctx.catalog;
  }

  -- The request of a call inside a tool loop
  abbrev pub loop_request : Conversation F → ℕ → Option ℕ → F → TurnRequest F
  loop_request conv prompt_tokens max_tokens now =
      record (plain_request "agentic" conv.floor prompt_tokens (count_or max_tokens 2000) now) {
        needs_tools = true;
      }

  abbrev pub key_of : TurnRequest F → Option ℕ → OutcomeKey
  key_of req max_tokens = (req.category, budget_bucket (stated max_tokens))

  abbrev pub stay :
      Settings F
      → Context F
      → Conversation F
      → String
      → TurnRequest F
      → F
      → ModelInfo F
      → RouteResult F
  stay st ctx conv cid base now m =
      result_of st ctx conv cid m in_tool_loop base none now false none

  abbrev pub loop_retry :
      Settings F
      → Context F
      → Conversation F
      → String
      → TurnRequest F
      → F
      → ModelInfo F
      → ℕ
      → Option (Choice F)
      → Result (RouteResult F)
  loop_retry st ctx conv cid base now m errors none = ok (stay st ctx conv cid base now m)
  loop_retry st ctx conv cid base now m errors (some retry) = do
    target ← or_raise (item ctx.catalog retry.model) key_error
    ok (
        result_of st ctx conv cid target (failing_results errors retry.reason) base none now false
          conv.current)

  -- Inside a tool loop: the turn's model stays, unless its results keep failing. The name of the
  -- current route is that of `m`'s entry.
  unfoldable pub continue_turn :
      Settings F
      → Context F
      → Conversation F
      → String
      → TurnRequest F
      → F
      → String
      → ModelInfo F
      → ℕ
      → Result (RouteResult F) × Conversation F
  continue_turn st ctx conv cid base now current m errors =
      if leb st.escalate_after_tool_errors errors
      then (let (retry, conv') = st.policy.on_failure conv base ctx current (current ∷ []) in
          ((do c ← retry; loop_retry st ctx conv' cid base now m errors c), conv'))
      else (ok (stay st ctx conv cid base now m), conv)

  abbrev pub truncation_reason : Why F → Option (Avoidance F) → Why F
  truncation_reason why none = why
  truncation_reason why (some a) = elim a.fallback [ none ↦ why | some name ↦ repeated_truncation ]

  abbrev pub noted : Option (Avoidance F) → RoutingExplanation F → RoutingExplanation F
  noted none e = e
  noted (some a) e = record e { selection = record e.selection { truncation_memory = some a } }

  abbrev pub note_explanation :
      Option (Avoidance F) → Option (RoutingExplanation F) → Option (RoutingExplanation F)
  note_explanation memory none = none
  note_explanation memory (some e) = some (noted memory e)

  -- The rest of `route`, for a classified request.
  unfoldable pub start_turn :
      Settings F
      → Context F
      → Router F
      → Conversation F
      → String
      → TurnRequest F
      → Option (Classification F)
      → Option ℕ
      → F
      → Result (RouteResult F)
  start_turn st ctx r conv cid req cls max_tokens now = do
    c ← st.policy.choose conv req ctx
    chosen ← or_raise (item ctx.catalog c.model) key_error
    ok (
        let key = key_of req max_tokens in
        let flags = λ (name : String). should_avoid r.outcomes name (some key) req.now in
        let (m, memory) =
          avoid_repeated_truncation flags chosen (explicit_budget {F = F} (stated max_tokens))
            (st.policy.evaluate conv req ctx) in
        let result =
          result_of st ctx conv cid m (truncation_reason (by_policy c.reason) memory) req cls now
            true conv.current in
        keyed (some key)
          (record result { explanation = note_explanation memory result.explanation }))

  -- The model of the conversation, where the call feeds results back into a tool loop
  abbrev pub current_in_loop : List Message → Catalog F → Conversation F → Option (ModelInfo F)
  current_in_loop messages catalog conv =
      if is_tool_continuation messages then Catalog.get catalog conv.current else none

  abbrev pub classify :
      Option (String → List Message → Classification F) → List Message → Option (Classification F)
  classify none messages = none
  classify (some c) messages = some (c (last_user_text messages) messages)

  abbrev pub request_of : Settings F → Call F → ℕ → TurnRequest F
  request_of st call prompt_tokens =
      turn_request st.jev_offset st.jev_scale (classify st.classifier call.messages) prompt_tokens
        call.max_tokens call.now call.has_tools (length (codes (last_user_text call.messages)))
        (explicit_budget {F = F} (stated call.max_tokens))

  abbrev pub keyed_result : Option OutcomeKey → Result (RouteResult F) → Result (RouteResult F)
  keyed_result key (raises why) = raises why
  keyed_result key (ok result) = ok (keyed key result)

  abbrev pub route_from :
      Settings F
      → Context F
      → Router F
      → Conversation F
      → String
      → Call F
      → ℕ
      → Option (ModelInfo F)
      → Result (RouteResult F) × Conversation F
  route_from st ctx r conv cid call prompt_tokens none = (
    start_turn st ctx r conv cid (request_of st call prompt_tokens)
        (classify st.classifier call.messages) call.max_tokens call.now,
    conv,
  )
  route_from st ctx r conv cid call prompt_tokens (some m) =
      let base = loop_request conv prompt_tokens call.max_tokens call.now in
      let (result, conv') =
        continue_turn st ctx conv cid base call.now (or_else conv.current "") m
          (recent_tool_errors call.messages) in
      (keyed_result (some (key_of base call.max_tokens)) result, conv')

  -- `route`: what it returns, and the router with the conversation that it opened or wrote to
  unfoldable pub route :
      Settings F → Context F → Call F → Router F → Result (RouteResult F) × Router F
  route st ctx call r =
      let cid = conversation_id call.hash16 call.messages in
      let conv = conversation_at r cid in
      let c = context_for call.exclude_subscriptions ctx in
      let (result, conv') =
        route_from st c r conv cid call (CacheIndex.estimate r.estimator call.estimate)
          (current_in_loop call.messages c.catalog conv) in
      (result, put_conversation cid conv' r)
