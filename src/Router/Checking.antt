-- ===== src/Router/Checking.antt =====
-- The answer checks of auto_router/router.py and the second attempts that follow them: `check`,
-- `buffers_stream`, `_log_check`, `escalate_after_verdict`, `_verified_retry` and `escalate`. The texts of
-- `not_verified` that quote numbers are shortened; the `intelligence` numbers of a verdict are left out.
use auto_model_router.Prelude.{
  ℕ, String, Bool, false, not, ◌&&◌, ◌||◌, Option, none, some, length, ltb, str_eq, string_eq,
  if◌then◌else◌, is_some,
}
use auto_model_router.Prelude.Float.{Float}
use auto_model_router.Prelude.Text.{codes, strip_text}
use auto_model_router.Catalog.{truthy, equals}
use auto_model_router.Verify.{
  Judgement, Verdict, Gate, disabled, no_judge, blind, too_long, above_tier, by_threshold, by_tier,
  asks, gate, not_verified, verdict_from,
}
use auto_model_router.Policies.State.{Context}
use auto_model_router.Router.Records.{RoutingExplanation}
use auto_model_router.Router.Requests.{count_or}
use auto_model_router.Router.State.{Settings, Router, RouteResult, write_ledger}

-- `info.get("rule")`
abbrev pub rule_of : Gate → Option String
rule_of by_threshold = some "intelligence-threshold"
rule_of by_tier = some "cheap-tier"
rule_of disabled = none
rule_of no_judge = none
rule_of blind = none
rule_of too_long = none
rule_of above_tier = none

abbrev pub is_threshold_rule : Gate → Bool
is_threshold_rule g = equals (rule_of g) "intelligence-threshold"

abbrev pub refusal : Gate → String
refusal disabled = "verification disabled"
refusal no_judge = "no judge configured"
refusal blind = "the judge cannot see the document this answer depends on"
refusal too_long = "the judge would grade what it cannot read"
refusal above_tier = "above the verified cheap tier"
refusal by_threshold = ""
refusal by_tier = ""

-- `not answer.strip()`
abbrev pub is_blank : String → Bool
is_blank answer = str_eq (strip_text answer) ""

module _ {F : Type 0} ⦃fl : Float F⦄ where
  abbrev pub gate_of : Settings F → Context F → RouteResult F → String → Gate
  gate_of st ctx result request_text =
      gate st.verify result.model result.request.category
        (count_or (some result.request.request_chars) (length (codes request_text)))
        result.request.needs_long_context ctx.success.evidence_discount (is_some st.judge)

  -- `buffers_stream`
  unfoldable pub buffers_stream : Settings F → Context F → RouteResult F → String → Bool
  buffers_stream st ctx result request_text =
      if not st.verify.buffer_streams
      then false
      else (let g = gate_of st ctx result request_text in asks g && is_threshold_rule g)

  abbrev pub verification_of : Option (RoutingExplanation F) → Option (Verdict F)
  verification_of none = none
  verification_of (some e) = e.verification

  -- What the second attempt brought along, where it is a second attempt
  abbrev pub carried_of : RouteResult F → Option (Verdict F)
  carried_of result = elim (verification_of result.explanation) [
    | none ↦ none
    | some v ↦ if truthy v.escalated_to then some v else none
  ]

  abbrev pub judged : Settings F → RouteResult F → Option (Judgement F) → Verdict F
  judged st result none =
      not_verified "the judge raised an error" result.model.name result.request.category
  judged st result (some j) = verdict_from j st.verify result.request.category result.model.name

  abbrev pub asked :
      Settings F
      → RouteResult F
      → String
      → String
      → Option (String → String → String → Option (Judgement F))
      → Verdict F
  asked st result text answer none = judged st result none
  asked st result text answer (some judge) =
      judged st result (judge text answer result.request.category)

  abbrev pub unasked : RouteResult F → String → Verdict F
  unasked result reason = not_verified reason result.model.name result.request.category

  abbrev pub graded : Settings F → RouteResult F → Gate → String → String → Bool → Verdict F
  graded st result g text answer tool_calls =
      if not (asks g)
      then unasked result (refusal g)
      else if tool_calls
      then unasked result "intermediate tool-call step; only final answers are graded"
      else if is_blank answer
      then unasked result "the route returned no text to check"
      else asked st result text answer st.judge

  abbrev pub decorated : Settings F → Gate → ℕ → Verdict F → Verdict F
  decorated st g escalations v = record v {
    rule = rule_of g;
    judge_backend = if v.verified then st.judge_backend else none;
    escalations = escalations;
    reason =
        if v.judge_failed
        then "the judge was unreachable or unusable; the original answer is returned"
        else v.reason;
  }

  -- `_attach_verdict`
  abbrev pub attach_verdict : RouteResult F → Verdict F → RouteResult F
  attach_verdict result verdict = record result {
    explanation = elim result.explanation [
      | none ↦ none
      | some e ↦ some (record e { verification = some verdict })
    ];
  }

  -- `_log_check`
  abbrev pub log_explained : Option (RoutingExplanation F) → Verdict F → Router F → Router F
  log_explained none verdict r = r
  log_explained (some e) verdict r =
      if is_some e.observed && (verdict.verified || truthy verdict.rule)
      then write_ledger e (some "verification") r
      else r

  unfoldable pub log_check : RouteResult F → Verdict F → Router F → Router F
  log_check result verdict r = log_explained result.explanation verdict r

  -- What `check` has graded: the verdict, the result that holds it, and the router.
  abbrev pub check_with :
      Settings F
      → Gate
      → RouteResult F
      → ℕ
      → String
      → String
      → Bool
      → Router F
      → Verdict F × RouteResult F × Router F
  check_with st g result escalations text answer tool_calls r =
      let verdict = decorated st g escalations (graded st result g text answer tool_calls) in
      let result' = attach_verdict result verdict in (verdict, result', log_check result' verdict r)

  -- A second attempt is graded only below the threshold and while the turn has escalations left.
  abbrev pub may_regrade : Settings F → Gate → Verdict F → Bool
  may_regrade st g carried =
      asks g && is_threshold_rule g && ltb carried.escalations st.verify.max_escalations

  abbrev pub check_carried :
      Settings F
      → Gate
      → RouteResult F
      → Option (Verdict F)
      → String
      → String
      → Bool
      → Router F
      → Verdict F × RouteResult F × Router F
  check_carried st g result none text answer tool_calls r =
      check_with st g result 0 text answer tool_calls r
  check_carried st g result (some carried) text answer tool_calls r =
      if may_regrade st g carried
      then check_with st g result carried.escalations text answer tool_calls r
      else (carried, result, r)

  -- `check`
  unfoldable pub check :
      Settings F
      → Context F
      → RouteResult F
      → String
      → String
      → Bool
      → Router F
      → Verdict F × RouteResult F × Router F
  check st ctx result text answer tool_calls r =
      check_carried st (gate_of st ctx result text) result (carried_of result) text answer
        tool_calls r
