-- ===== src/Router/State.antt =====
-- The state of auto_router/router.py, the policy that it is given, and the methods that record what
-- happened: `_result`, `commit` and `observe`. The context of a call (catalog, quota, success curve)
-- is an argument. An explanation belongs to its result and is replaced where the code writes to it;
-- the list of recent decisions for display is left out.
use auto_model_router.Prelude.{
  ℕ, ◌+◌, String, Bool, Option, none, some, List, [], ◌∷◌, ◌++◌, string_eq, if◌then◌else◌,
}
use auto_model_router.Prelude.Float.{Float, lit}
use auto_model_router.Prelude.Dict
use auto_model_router.Prelude.Dict.{Dict}
use auto_model_router.Catalog.{ModelInfo, or_else}
use auto_model_router.CacheIndex.{CalibratedEstimator}
use auto_model_router.CacheIndex
use auto_model_router.OutcomeMemory.{OutcomeMemory, OutcomeKey, record_outcome}
use auto_model_router.Verify.{VerifyPolicy, Judgement}
use auto_model_router.Policies.State.{
  TurnRequest, Conversation, Context, Choice, Result, record_call,
}
use auto_model_router.Policies.Escalation.{Row}
use auto_model_router.Router.Messages.{Message}
use auto_model_router.Router.Records.{
  Classification, Why, ObservedOutcome, RoutingExplanation, explain,
}
use auto_model_router.Router.Requests.{count_or}

-- What the router calls of a policy object. `on_failure` also gives the conversation that it wrote to.
pub record Policy (F : Type 0) : Type 0 where
  pub choose : Conversation F → TurnRequest F → Context F → Result (Choice F)
  pub on_failure :
      Conversation F
      → TurnRequest F
      → Context F
      → String
      → List String
      → Result (Option (Choice F)) × Conversation F
  pub evaluate : Conversation F → TurnRequest F → Context F → List (Row F)

-- What a router is built with. A judge that raises gives `none`.
pub record Settings (F : Type 0) : Type 0 where
  pub policy : Policy F
  pub verify : VerifyPolicy F
  pub judge : Option (String → String → String → Option (Judgement F))
  pub judge_backend : Option String
  pub classifier : Option (String → List Message → Classification F)
  pub jev_offset : F
  pub jev_scale : F
  pub escalate_after_tool_errors : ℕ

-- `ledger` holds what was handed to the ledger, with the event that marks a later copy.
pub record Router (F : Type 0) : Type 0 where
  pub conversations : Dict String (Conversation F)
  pub estimator : CalibratedEstimator F
  pub outcomes : OutcomeMemory F
  pub ledger : List (RoutingExplanation F × Option String)

pub record RouteResult (F : Type 0) : Type 0 where
  pub model : ModelInfo F
  pub reason : Why F
  pub conversation_id : String
  pub turn_start : Bool
  pub request : TurnRequest F
  pub classification : Option (Classification F)
  pub started_at : F
  pub tried : List String
  pub explanation : Option (RoutingExplanation F)
  pub outcome_key : Option OutcomeKey

module _ {F : Type 0} ⦃fl : Float F⦄ where
  abbrev pub new_conversation : Conversation F
  new_conversation = record {
    current = none;
    warm = [];
    floor = lit 0;
    floor_set_at = lit 0;
    turns = 0;
    switches = 0;
    escalations = 0;
  }

  -- `self.conversations.setdefault(cid, Conversation())`
  abbrev pub conversation_at : Router F → String → Conversation F
  conversation_at r cid = or_else (Dict.get cid r.conversations) new_conversation

  abbrev pub put_conversation : String → Conversation F → Router F → Router F
  put_conversation cid conv r = record r { conversations = Dict.insert cid conv r.conversations }

  abbrev pub opened : String → Router F → Router F
  opened cid r = put_conversation cid (conversation_at r cid) r

  -- `_result`; `tried` and `outcome_key` are filled in by its callers.
  unfoldable pub result_of :
      Settings F
      → Context F
      → Conversation F
      → String
      → ModelInfo F
      → Why F
      → TurnRequest F
      → Option (Classification F)
      → F
      → Bool
      → Option String
      → RouteResult F
  result_of st ctx conv cid m reason req cls now turn_start switched_from = record {
    model = m;
    reason = reason;
    conversation_id = cid;
    turn_start = turn_start;
    request = req;
    classification = cls;
    started_at = now;
    tried = [];
    explanation = some (
        explain ctx conv cid m reason req cls (st.policy.evaluate conv req ctx) turn_start
          switched_from);
    outcome_key = none;
  }

  abbrev pub keyed : Option OutcomeKey → RouteResult F → RouteResult F
  keyed key result = record result { outcome_key = key }

  abbrev pub committed : RouteResult F → ℕ → ℕ → Conversation F → Conversation F
  committed result tokens output_tokens conv =
      let called = record_call conv result.model tokens output_tokens result.started_at in
      if result.turn_start then record called { turns = called.turns + 1 } else called

  -- The counts are passed on only where both are there and not zero.
  abbrev pub observe_tokens : CalibratedEstimator F → Option ℕ → Option ℕ → CalibratedEstimator F
  observe_tokens e none raw = e
  observe_tokens e (some n) none = e
  observe_tokens e (some n) (some raw) = CacheIndex.observe e raw n

  unfoldable pub commit : RouteResult F → Option ℕ → ℕ → Option ℕ → Router F → Router F
  commit result prompt_tokens output_tokens raw_estimate r =
      let tokens = count_or prompt_tokens result.request.prompt_tokens in
      let cid = result.conversation_id in
      record (put_conversation cid (committed result tokens output_tokens (conversation_at r cid))
        r) { estimator = observe_tokens r.estimator prompt_tokens raw_estimate }

  abbrev pub write_ledger : RoutingExplanation F → Option String → Router F → Router F
  write_ledger e event r = record r { ledger = r.ledger ++ ((e, event) ∷ []) }

  abbrev pub observed_by :
      ObservedOutcome F
      → Option (RoutingExplanation F)
      → RouteResult F
      → Router F
      → RouteResult F × Router F
  observed_by outcome none result r = (result, r)
  observed_by outcome (some e) result r =
      let e' = record e { observed = some outcome } in
      (record result { explanation = some e' }, write_ledger e' none r)

  -- `observe`: the result with its explanation, and the router.
  unfoldable pub observe : RouteResult F → ObservedOutcome F → Router F → RouteResult F × Router F
  observe result outcome r = observed_by outcome result.explanation result (record r {
    outcomes =
        (record_outcome r.outcomes outcome.model result.outcome_key outcome.status
          result.started_at).0;
  })
