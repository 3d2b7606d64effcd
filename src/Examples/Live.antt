-- ===== src/Examples/Live.antt =====
-- The properties of the router and of the server's turn on concrete calls.
use auto_model_router.Prelude.{
  ◌≡◌, refl, arith, string_eq, ◌<◌, String, true, false, Option, none, some, List, [], ◌∷◌, In, inl,
  inr,
}
use auto_model_router.Prelude.Float.{lit, decimal}
use auto_model_router.Prelude.Fixed.{Fixed, fixed_float}
use auto_model_router.Prelude.Dict
use auto_model_router.Prelude.Json.{Json, str, obj, arr, field, end, nil, cons, lookup}
use auto_model_router.Catalog
use auto_model_router.Catalog.{
  ModelInfo, or_else, values, truthy, cap_with, eligible, passes, is_free, evidence_strength,
  measurement_key, of_list, cap,
}
use auto_model_router.Catalog.Keyed.{IsKeyed}
use auto_model_router.CacheIndex
use auto_model_router.Economics
use auto_model_router.Economics.{is_warm, turn_cost}
use auto_model_router.OutcomeMemory.{should_avoid, explicit_budget, budget_bucket}
use auto_model_router.Verify
use auto_model_router.Verify.{Judgement, Verdict, verdict_from}
use auto_model_router.Metrics.{no_metrics, record_turn, increment, append_bounded, record_error}
use auto_model_router.Policies.State
use auto_model_router.Policies.State.{Context, Result, ok, raises, key_error}
use auto_model_router.Policies.Candidates.{candidates, usable, list_blended, strongest, widest}
use auto_model_router.Policies.Escalation.{on_failure, on_failure_escalate, remember_failure}
use auto_model_router.Policies.Expected.{
  choose_expected, evaluate_expected, choose_by_cost, value, rule_applies,
}
use auto_model_router.Retries.{
  escalation_choice, bump_floor, retry_catalog, avoid_repeated_truncation,
}
use auto_model_router.Router.Messages.{Message, text_content, last_user_text, is_tool_continuation}
use auto_model_router.Router.Requests.{turn_request}
use auto_model_router.Router.State.{Settings, Router, RouteResult, result_of, commit, observe}
use auto_model_router.Router.Records.{in_tool_loop, explain, ObservedOutcome}
use auto_model_router.Router.Routing.{Call, context_for, route, start_turn}
use auto_model_router.Router.Checking.{check, log_check}
use auto_model_router.Router.Attempts.{
  Attempt, escalate_after_verdict, verified_retry, retry_messages,
}
use auto_model_router.Router.Seconds
use auto_model_router.Router.Interface.{
  static_interface, expected_interface, expected_interface-IsLawful,
}
use auto_model_router.Router.Served
use auto_model_router.Router.Retried
use auto_model_router.Router.Unserved
use auto_model_router.Router.Steps
use auto_model_router.Router.Lines
use auto_model_router.Router.Verdicts
use auto_model_router.Gateway.Turn.{
  Server, broken, replied, answer_turn, attempts, attempt, record_observed, failed, new_turn,
  Outcome, Turn, returns, breaks, continues,
}
use auto_model_router.Gateway.{answer_text, has_tool_calls, observed_cost}
use auto_model_router.Usage.{parse_openai_usage, count}
use auto_model_router.Truncation.{truncation_label, stop_word}
use auto_model_router.Prelude.Text.{strip_text, is_space}
use auto_model_router.Gateway.Covered
use auto_model_router.Gateway.Distinct
use auto_model_router.Gateway.Kept
use auto_model_router.Gateway.Lost
use auto_model_router.Gateway.Static
use auto_model_router.Examples.{
  small, planned, catalog, context, request, expected_policy, verify_policy, rule,
}

-- A judge that finds every answer inadequate
abbrev strict : String → String → String → Option (Judgement Fixed)
strict text answer category = some (record {
  failed = false;
  p_adequate = decimal 1 1;
  failure = "wrong";
  latency_s = lit 1;
  model = "judge";
})

abbrev settings : Settings Fixed
settings = record {
  policy = expected_interface expected_policy;
  verify = verify_policy;
  judge = some strict;
  judge_backend = some "judge";
  classifier = none;
  jev_offset = lit 0;
  jev_scale = lit 1;
  escalate_after_tool_errors = 2;
}

abbrev new_router : Router Fixed
new_router = record {
  conversations = [];
  estimator = record { ratio = lit 1; alpha = decimal 2 1; samples = 0 };
  outcomes = record { rule = rule; seen = [] };
  ledger = [];
}

abbrev question : List Message
question = record { role = "user"; content = text_content "What is a path?" } ∷ []

abbrev call : Call Fixed
call = record {
  messages = question;
  hash16 = λ m. "c0ffee";
  estimate = 4000;
  has_tools = false;
  max_tokens = none;
  now = lit 1000;
  exclude_subscriptions = true;
}

catalog-IsKeyed : IsKeyed catalog
unfolding Dict.get
catalog-IsKeyed = (refl, refl, (refl, refl, (refl, refl, (refl, refl, tt))))

abbrev served_by : ModelInfo Fixed → RouteResult Fixed
served_by m = record {
  model = m;
  reason = in_tool_loop;
  conversation_id = "c0ffee";
  turn_start = true;
  request = request;
  classification = none;
  started_at = lit 1000;
  tried = [];
  explanation = none;
  outcome_key = none;
}

abbrev server : Server Fixed
server = record {
  settings = settings;
  has_provider = λ name. true;
  context = λ n. context;
  clock = λ n. lit 1000;
  upstream = λ n m messages. broken (str "ConnectError");
  prompt = "What is a path?";
  first = served_by small;
  classification_ms = lit 0;
}

answer_turn-IsDistinct_example :
    Covered.IsDistinct (answer_turn 3 server new_router no_metrics question 1).1.posted
answer_turn-IsDistinct_example =
    Distinct.answer_turn-IsDistinct server (expected_interface-IsLawful expected_policy)
      (λ n. catalog-IsKeyed) 3 new_router no_metrics question 1

-- What `route` returns for the call
abbrev result_or : Result (RouteResult Fixed) → RouteResult Fixed → RouteResult Fixed
result_or (raises why) other = other
result_or (ok result) other = result

abbrev routed : RouteResult Fixed
routed = result_or (route settings context call new_router).0 (served_by planned)

route-no_plan_example :
    In routed.model (values catalog) × (truthy routed.model.subscription ≡ false)
unfolding route start_turn choose_expected evaluate_expected choose_by_cost candidates eligible
    passes usable value Verify.applies Verify.intelligence_gate Verify.tier_ok Verify.blended_price
    cap_with Dict.get Dict.insert State.priced State.turn_call_cost turn_cost is_free Economics.p
    cap evidence_strength Catalog.get measurement_key Economics.bucket Economics.curve is_warm
    Economics.sigmoid Economics.turn_cost_at list_blended strongest widest rule_applies
    State.warm_tokens Verify.catch_of Verify.false_flag Verify.fix Verify.gate turn_request
    last_user_text is_tool_continuation CacheIndex.estimate retry_catalog of_list
    avoid_repeated_truncation should_avoid result_of explain explicit_budget budget_bucket
route-no_plan_example =
    Served.route-no_plan settings (expected_interface-IsLawful expected_policy) context call
      new_router refl refl

abbrev rejection : Verdict Fixed
rejection = record {
  verified = true;
  p_adequate = some (decimal 1 1);
  threshold = some (decimal 3 1);
  escalate = true;
  failure = "wrong";
  latency_ms = lit 1000;
  judge_failed = false;
  judge_model = "judge";
  reason = "";
  category = "coding";
  model = "small";
  escalated_to = none;
  rule = some "cheap-tier";
  judge_backend = some "judge";
  escalations = 0;
}

escalate_after_verdict-raises_example :
    (escalate_after_verdict settings context
      (served_by planned)
      rejection
      question
      "42"
      true
      (lit 1001)
      new_router).0
    ≡ raises key_error
unfolding Dict.get
escalate_after_verdict-raises_example =
    Unserved.escalate_after_verdict-raises settings (expected_interface-IsLawful expected_policy)
      context (served_by planned) rejection question "42" (lit 1001) new_router catalog-IsKeyed refl
      refl refl

abbrev attempt_or : Result (Attempt Fixed) → Attempt Fixed
attempt_or (raises why) = record {
  retry = none;
  messages = [];
  verdict = rejection;
  result = served_by small;
}
attempt_or (ok a) = a

abbrev second : Attempt Fixed
second =
    attempt_or
      (escalate_after_verdict settings context (served_by small) rejection question "42" true
        (lit 1001) new_router).0

abbrev retried : RouteResult Fixed
retried = or_else second.retry (served_by planned)

escalate_after_verdict-IsSecond_example :
    Seconds.IsSecond (context_for true context) (served_by small) retried
    × Seconds.IsStronger verify_policy (context_for true context) (served_by small) retried
unfolding escalate_after_verdict verified_retry escalation_choice bump_floor on_failure
    on_failure_escalate remember_failure log_check retry_messages choose_expected evaluate_expected
    choose_by_cost candidates eligible passes usable value Verify.applies Verify.intelligence_gate
    Verify.tier_ok Verify.blended_price cap_with Dict.get Dict.insert State.priced
    State.turn_call_cost turn_cost is_free Economics.p cap evidence_strength Catalog.get
    measurement_key Economics.bucket Economics.curve is_warm Economics.sigmoid
    Economics.turn_cost_at list_blended strongest widest rule_applies State.warm_tokens
    Verify.catch_of Verify.false_flag Verify.fix Verify.gate turn_request last_user_text
    is_tool_continuation CacheIndex.estimate retry_catalog of_list avoid_repeated_truncation
    should_avoid result_of explain explicit_budget budget_bucket
escalate_after_verdict-IsSecond_example =
    Retried.escalate_after_verdict-IsSecond settings (expected_interface-IsLawful expected_policy)
      context (served_by small) rejection question "42" true (lit 1001) new_router catalog-IsKeyed
      refl refl

check-escalates_example :
    Verdicts.IsRejection settings context (served_by small) "What is a path?" "42" false
unfolding check verdict_from Verify.threshold Verify.gate Verify.tier_ok Verify.blended_price
    Verify.intelligence_gate cap_with Dict.get evidence_strength log_check strip_text is_space
check-escalates_example =
    Verdicts.check-escalates settings context (served_by small) "What is a path?" "42" false
      new_router refl refl

check-below_max_example :
    (check settings context (served_by small) "What is a path?" "42" false new_router).0.escalations
    < 1
unfolding check verdict_from Verify.threshold Verify.gate Verify.tier_ok Verify.blended_price
    Verify.intelligence_gate cap_with Dict.get evidence_strength log_check strip_text is_space
check-below_max_example =
    Verdicts.check-below_max settings context (served_by small) "What is a path?" "42" false
      new_router (omega arith) refl

abbrev outcome : ObservedOutcome Fixed
outcome = record {
  model = "small";
  status = "ok";
  http_status = some 200;
  cost_usd = none;
  attempts = 1;
  escalated_from = none;
}

abbrev two_answers : Router Fixed
two_answers = (observe routed outcome (commit (served_by small) (some 4000) 20 none new_router)).1

two_answers-Run : Steps.Run settings new_router ("c0ffee" ∷ "c0ffee" ∷ []) two_answers
two_answers-Run =
    Steps.more (Steps.more Steps.done (Steps.answered (served_by small) (some 4000) 20 none refl))
      (Steps.observed routed outcome)

Run-others_example :
    Dict.get "other" two_answers.conversations ≡ Dict.get "other" new_router.conversations
Run-others_example =
    Steps.Run-others settings new_router "other" two_answers-Run
      (λ i. elim i [ inl e ↦ cc | inr j ↦ elim j [ inl e ↦ cc | inr k ↦ k ] ])

-- The observed answer is checked as well.
abbrev three_calls : Router Fixed
three_calls =
    (check settings context (observe routed outcome new_router).0 "What is a path?" "42" false
      two_answers).2

three_calls-Run : Steps.Run settings new_router ("c0ffee" ∷ "c0ffee" ∷ "c0ffee" ∷ []) three_calls
three_calls-Run =
    Steps.more two_answers-Run
      (Steps.checked context (observe routed outcome new_router).0 "What is a path?" "42" false)

Run-ledger_example : three_calls.ledger ≡ Lines.run_lines settings new_router three_calls-Run
Run-ledger_example = Lines.Run-ledger settings new_router three_calls-Run

-- A server of the policy that never leaves its route
abbrev static_server : Server Fixed
static_server = record server { settings = record settings { policy = static_interface none } }

answer_turn-repeats_example :
    (answer_turn 3 static_server new_router no_metrics question 1).1.posted
    ≡ Static.repeated 3 "small" []
unfolding Catalog.get Dict.get
answer_turn-repeats_example =
    Static.answer_turn-repeats static_server none refl (λ n. refl) refl
      (λ n messages. (str "ConnectError", refl)) 3 new_router no_metrics question 1

-- A server whose upstream gives one answer to every call
abbrev answering : Json Fixed → Server Fixed
answering body = record server { upstream = λ n m messages. replied 200 body [] none }

abbrev cut_off : Json Fixed
cut_off =
    obj (field "choices" (arr (cons (obj (field "finish_reason" (str "length") end)) nil)) end)

abbrev complete : Json Fixed
complete = obj (
    field "choices"
      (arr (cons (obj (field "message" (obj (field "content" (str "42") end)) end)) nil)) end)

attempts-keeps_partial_example :
    Kept.IsNoFailure
      (attempts 3
        (answering cut_off)
        0
        (new_turn (answering cut_off) new_router no_metrics question 1)).0
unfolding truncation_label lookup stop_word
attempts-keeps_partial_example =
    Kept.attempts-keeps_partial 2 (answering cut_off) 0
      (new_turn (answering cut_off) new_router no_metrics question 1) cut_off "finish_reason:length"
      (record {
        usage = [];
        details = none;
        provided = refl;
        reply = refl;
        choices = refl;
        stop = refl;
      })

abbrev turn_of : Outcome Fixed → Turn Fixed
turn_of (returns response t) = t
turn_of (breaks t) = t
turn_of (continues t) = t

-- The turn after a third attempt whose answer the judge rejects
abbrev going_on : Turn Fixed
going_on = turn_of (
    attempt (answering complete) 2 (new_turn (answering complete) new_router no_metrics question 1))

abbrev lost_turn : Turn Fixed
lost_turn = new_turn (answering complete) new_router no_metrics question 1

attempts-loses_answer_example :
    (attempts 1 (answering complete) 2 lost_turn).0
    ≡ failed 502 (obj (field "error" (str "no attempt made") end)) going_on.result
unfolding attempt State.record_call record_observed observe commit check verdict_from
    Verify.threshold log_check strip_text is_space answer_text has_tool_calls truncation_label
    lookup stop_word parse_openai_usage count observed_cost record_turn increment append_bounded
    record_error escalate_after_verdict verified_retry escalation_choice bump_floor on_failure
    on_failure_escalate remember_failure retry_messages choose_expected evaluate_expected
    choose_by_cost candidates eligible passes usable value Verify.applies Verify.intelligence_gate
    Verify.tier_ok Verify.blended_price cap_with Dict.get Dict.insert State.priced
    State.turn_call_cost turn_cost is_free Economics.p cap evidence_strength Catalog.get
    measurement_key Economics.bucket Economics.curve is_warm Economics.sigmoid
    Economics.turn_cost_at list_blended strongest widest rule_applies State.warm_tokens
    Verify.catch_of Verify.false_flag Verify.fix Verify.gate turn_request last_user_text
    is_tool_continuation CacheIndex.estimate retry_catalog of_list avoid_repeated_truncation
    should_avoid result_of explain explicit_budget budget_bucket
attempts-loses_answer_example =
    Lost.attempts-loses_answer (answering complete) 2 lost_turn complete going_on.result
      (record {
        usage = [];
        details = none;
        provided = refl;
        reply = refl;
        choices = refl;
        stop = refl;
      })
      refl
      (record {
        escalates = refl;
        not_retried = refl;
        retry_left = refl;
        second = _;
        given = refl;
        named = refl;
      })
