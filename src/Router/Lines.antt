-- ===== src/Router/Lines.antt =====
-- The ledger of a router of auto_router/router.py: which lines the calls of its life write.
use mathlib.Core.List.{append_assoc, append-nil}
use auto_model_router.Prelude.{
  ◌≡◌, refl, sym, ap, ℕ, Bool, true, false, Option, none, some, String, List, [], ◌∷◌, ◌++◌, ◌∙◌,
  ◌&&◌, ◌||◌, is_some, inl, inr, Bool-cases, ltb, if◌then◌else◌,
}
use auto_model_router.Prelude.Float.{Float}
use auto_model_router.Catalog.{truthy}
use auto_model_router.Verify.{
  Verdict, Gate, disabled, no_judge, blind, too_long, above_tier, by_threshold, by_tier, asks,
  not_verified,
}
use auto_model_router.Policies.State.{Context, Result, ok, raises}
use auto_model_router.Router.Messages.{Message}
use auto_model_router.Router.Records.{ObservedOutcome, RoutingExplanation}
use auto_model_router.Router.State.{Settings, Router, RouteResult, commit, observe, observed_by}
use auto_model_router.Router.Routing.{route}
use auto_model_router.Router.Checking.{
  check, check_with, check_carried, log_check, log_explained, gate_of, carried_of, graded,
  decorated, may_regrade,
}
use auto_model_router.Router.Attempts.{
  Attempt, escalate, finish_attempt, after_verdict, escalate_after_verdict,
}
use auto_model_router.Router.Steps.{
  Step, routed, answered, observed, checked, failed, rejected, Run, done, more,
}

-- A line of the ledger: an explanation, and the name of the event where it is no turn.
abbrev pub Line : Type 0 → Type 0
Line F = RoutingExplanation F × Option String

or_true : (b : Bool) → (b || true) ≡ true
or_true true = refl
or_true false = refl

module _ {F : Type 0} ⦃fl : Float F⦄ where
  -- The line of a verdict: only a turn that is explained and was observed has one, and only where the
  -- verdict is due.
  abbrev pub verdict_lines : Option (RoutingExplanation F) → Verdict F → Bool → List (Line F)
  verdict_lines none verdict due = []
  verdict_lines (some e) verdict due =
      if is_some e.observed && due
      then (record e { verification = some verdict }, some "verification") ∷ []
      else []

  abbrev pub outcome_lines : Option (RoutingExplanation F) → ObservedOutcome F → List (Line F)
  outcome_lines none outcome = []
  outcome_lines (some e) outcome = (record e { observed = some outcome }, none) ∷ []

  -- A first answer is checked where a rule asks for it; a second one needs the threshold's rule and an
  -- escalation that is left.
  abbrev pub is_due : Settings F → Gate → Option (Verdict F) → Bool
  is_due st g none = asks g
  is_due st by_threshold (some carried) = ltb carried.escalations st.verify.max_escalations
  is_due st disabled (some carried) = false
  is_due st no_judge (some carried) = false
  is_due st blind (some carried) = false
  is_due st too_long (some carried) = false
  is_due st above_tier (some carried) = false
  is_due st by_tier (some carried) = false

  -- The line that a rejected answer adds: none where the search for a second attempt raises
  abbrev pub rejected_lines :
      Bool → Option (RoutingExplanation F) → Verdict F → Result (Attempt F) → List (Line F)
  rejected_lines false o verdict a = []
  rejected_lines true o verdict (raises why) = []
  rejected_lines true o verdict (ok a) =
      verdict_lines o a.verdict (verdict.verified || truthy verdict.rule)

  -- What a call writes to the ledger
  abbrev pub step_lines :
      (st : Settings F) (cid : String) (r : Router F) {r' : Router F}
      → Step st cid r r'
      → List (Line F)
  step_lines st cid r (routed ctx call e) = []
  step_lines st cid r (answered result prompt_tokens output_tokens raw e) = []
  step_lines st cid r (observed result outcome) = outcome_lines result.explanation outcome
  step_lines st cid r (checked ctx result text answer tool_calls) =
      verdict_lines result.explanation (check st ctx result text answer tool_calls r).0
        (is_due st (gate_of st ctx result text) (carried_of result))
  step_lines st cid r (failed ctx result availability exclude now e) = []
  step_lines st cid r (rejected ctx result verdict messages answer exclude now e) =
      rejected_lines verdict.escalate result.explanation verdict
        (escalate_after_verdict st ctx result verdict messages answer exclude now r).0

  -- What a sequence of calls writes to the ledger, the earliest line first
  abbrev pub run_lines :
      (st : Settings F) (r : Router F) {cids : List String} {r' : Router F}
      → Run st r cids r'
      → List (Line F)
  run_lines st r done = []
  run_lines st r (more {cid = cid} {r' = mid} run step) =
      run_lines st r run ++ step_lines st cid mid step

  observed_by-lines :
      (outcome : ObservedOutcome F) (o : Option (RoutingExplanation F)) (result : RouteResult F)
      (r : Router F)
      → (observed_by outcome o result r).1.ledger ≡ r.ledger ++ outcome_lines o outcome
  observed_by-lines outcome none result r = sym (append-nil r.ledger)
  observed_by-lines outcome (some e) result r = refl

  observe-lines :
      (result : RouteResult F) (outcome : ObservedOutcome F) (r : Router F)
      → (observe result outcome r).1.ledger ≡ r.ledger ++ outcome_lines result.explanation outcome
  unfolding observe
  observe-lines result outcome r = observed_by-lines outcome result.explanation result _

  abbrev explained : Option (RoutingExplanation F) → Verdict F → Option (RoutingExplanation F)
  explained o verdict = elim o [
    | none ↦ none
    | some e ↦ some (record e { verification = some verdict })
  ]

  log_explained-lines :
      (o : Option (RoutingExplanation F)) (verdict : Verdict F) (due : Bool) (r : Router F)
      → (verdict.verified || truthy verdict.rule) ≡ due
      → (log_explained (explained o verdict) verdict r).ledger
        ≡ r.ledger ++ verdict_lines o verdict due
  log_explained-lines none verdict due r h = sym (append-nil r.ledger)
  log_explained-lines (some e) verdict due r h = elim (Bool-cases (is_some e.observed && due)) [
    | inl t ↦ rw h (rw t refl)
    | inr f ↦ rw h (rw f (sym (append-nil r.ledger)))
  ]

  decorated_due :
      (st : Settings F) (result : RouteResult F) (g : Gate) (n : ℕ) (text answer : String)
      (tool_calls : Bool)
      → let verdict = decorated st g n (graded st result g text answer tool_calls) in
        (verdict.verified || truthy verdict.rule) ≡ asks g
  unfolding not_verified
  decorated_due st result disabled n text answer tool_calls = refl
  decorated_due st result no_judge n text answer tool_calls = refl
  decorated_due st result blind n text answer tool_calls = refl
  decorated_due st result too_long n text answer tool_calls = refl
  decorated_due st result above_tier n text answer tool_calls = refl
  decorated_due st result by_threshold n text answer tool_calls = or_true _
  decorated_due st result by_tier n text answer tool_calls = or_true _

  check_with-lines :
      (st : Settings F) (g : Gate) (result : RouteResult F) (n : ℕ) (text answer : String)
      (tool_calls : Bool) (r : Router F)
      → (check_with st g result n text answer tool_calls r).2.ledger
        ≡ r.ledger
          ++ verdict_lines result.explanation
              (check_with st g result n text answer tool_calls r).0
              (asks g)
  unfolding log_check
  check_with-lines st g result n text answer tool_calls r =
      log_explained-lines result.explanation _ (asks g) r
        (decorated_due st result g n text answer tool_calls)

  no_verdict_lines :
      (o : Option (RoutingExplanation F)) (verdict : Verdict F) → verdict_lines o verdict false ≡ []
  no_verdict_lines none verdict = refl
  no_verdict_lines (some e) verdict = elim (Bool-cases (is_some e.observed)) [
    | inl t ↦ rw t refl
    | inr f ↦ rw f refl
  ]

  regraded :
      (st : Settings F) (g : Gate) (carried : Verdict F)
      → may_regrade st g carried ≡ true
      → is_due st g (some carried) ≡ asks g
  regraded st disabled carried h = refl
  regraded st no_judge carried h = refl
  regraded st blind carried h = refl
  regraded st too_long carried h = refl
  regraded st above_tier carried h = refl
  regraded st by_threshold carried h = h
  regraded st by_tier carried h = cc

  not_regraded :
      (st : Settings F) (g : Gate) (carried : Verdict F)
      → may_regrade st g carried ≡ false
      → is_due st g (some carried) ≡ false
  not_regraded st disabled carried h = refl
  not_regraded st no_judge carried h = refl
  not_regraded st blind carried h = refl
  not_regraded st too_long carried h = refl
  not_regraded st above_tier carried h = refl
  not_regraded st by_threshold carried h = h
  not_regraded st by_tier carried h = refl

  check_carried-lines :
      (st : Settings F) (g : Gate) (result : RouteResult F) (o : Option (Verdict F))
      (text answer : String) (tool_calls : Bool) (r : Router F)
      → (check_carried st g result o text answer tool_calls r).2.ledger
        ≡ r.ledger
          ++ verdict_lines result.explanation
              (check_carried st g result o text answer tool_calls r).0
              (is_due st g o)
  check_carried-lines st g result none text answer tool_calls r =
      check_with-lines st g result 0 text answer tool_calls r
  check_carried-lines st g result (some carried) text answer tool_calls r =
      elim (Bool-cases (may_regrade st g carried)) [
        | inl t ↦ rw t (
            rw (regraded st g carried t)
              (check_with-lines st g result carried.escalations text answer tool_calls r))
        | inr f ↦ rw f (
            rw (not_regraded st g carried f)
              (rw (no_verdict_lines result.explanation carried) (sym (append-nil r.ledger))))
      ]

  finish_attempt-lines :
      (st : Settings F) (result : RouteResult F) (verdict : Verdict F) (messages : List Message)
      (answer : String) (o : Result (Option (RouteResult F))) (r : Router F)
      → (finish_attempt st result verdict messages answer o r).1.ledger
        ≡ r.ledger
          ++ rejected_lines true result.explanation verdict
              (finish_attempt st result verdict messages answer o r).0
  unfolding log_check
  finish_attempt-lines st result verdict messages answer (raises why) r = sym (append-nil r.ledger)
  finish_attempt-lines st result verdict messages answer (ok none) r =
      log_explained-lines result.explanation _ _ r refl
  finish_attempt-lines st result verdict messages answer (ok (some retry)) r =
      log_explained-lines result.explanation _ _ r refl

  after_verdict-lines :
      (rejects : Bool) (st : Settings F) (ctx : Context F) (result : RouteResult F)
      (verdict : Verdict F) (messages : List Message) (answer : String) (exclude : Bool) (now : F)
      (r : Router F)
      → (after_verdict rejects st ctx result verdict messages answer exclude now r).1.ledger
        ≡ r.ledger
          ++ rejected_lines rejects result.explanation verdict
              (after_verdict rejects st ctx result verdict messages answer exclude now r).0
  after_verdict-lines false st ctx result verdict messages answer exclude now r =
      sym (append-nil r.ledger)
  after_verdict-lines true st ctx result verdict messages answer exclude now r =
      finish_attempt-lines st result verdict messages answer _ _

  commit-lines :
      (result : RouteResult F) (prompt_tokens : Option ℕ) (output_tokens : ℕ) (raw : Option ℕ)
      (r : Router F)
      → (commit result prompt_tokens output_tokens raw r).ledger ≡ r.ledger ++ []
  unfolding commit
  commit-lines result prompt_tokens output_tokens raw r = sym (append-nil r.ledger)

  Step-lines :
      (st : Settings F) (cid : String) (r : Router F) {r' : Router F} (step : Step st cid r r')
      → r'.ledger ≡ r.ledger ++ step_lines st cid r step
  unfolding route escalate check escalate_after_verdict
  Step-lines st cid r (routed ctx call e) = sym (append-nil r.ledger)
  Step-lines st cid r (answered result p o raw e) = commit-lines result p o raw r
  Step-lines st cid r (observed result outcome) = observe-lines result outcome r
  Step-lines st cid r (checked ctx result text answer tool_calls) =
      check_carried-lines st (gate_of st ctx result text) result (carried_of result) text answer
        tool_calls r
  Step-lines st cid r (failed ctx result availability exclude now e) = sym (append-nil r.ledger)
  Step-lines st cid r (rejected ctx result verdict messages answer exclude now e) =
      after_verdict-lines verdict.escalate st ctx result verdict messages answer exclude now r

  -- In any sequence of calls, the ledger keeps its lines and has after them exactly these, in the order
  -- of the calls: for an observed outcome, the turn's explanation with it; for a check, the explanation
  -- with the verdict, where the turn was observed and a rule asks for the check, for a second answer the
  -- threshold's rule with an escalation left; for a rejected answer, the explanation with the
  -- verdict that the attempt has, where the turn was observed, the verdict is verified or bears a rule,
  -- and the attempt does not raise. An unexplained turn and the other calls write nothing.
  pub Run-ledger :
      (st : Settings F) (r : Router F) {cids : List String} {r' : Router F} (run : Run st r cids r')
      → r'.ledger ≡ r.ledger ++ run_lines st r run
  Run-ledger st r done = sym (append-nil r.ledger)
  Run-ledger st r (more {cid = cid} {r' = mid} run step) =
      Step-lines st cid mid step
      ∙ ap (λ l. l ++ step_lines st cid mid step) (Run-ledger st r run)
      ∙ append_assoc r.ledger (run_lines st r run) (step_lines st cid mid step)
