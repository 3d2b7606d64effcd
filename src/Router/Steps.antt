-- ===== src/Router/Steps.antt =====
-- The life of a router of auto_router/router.py as a sequence of calls: which conversation a call
-- writes to, and what becomes of the others.
use auto_model_router.Prelude.{
  ◌≡◌, refl, ap, ℕ, Bool, true, false, Option, none, some, String, List, [], ◌∷◌, arith, eq_iff,
  string_eq, ◌∙◌, ◌&&◌, ◌||◌, is_some, In, inl, inr, Bool-cases,
}
use auto_model_router.Prelude.Float.{Float}
use auto_model_router.Prelude.Dict
use auto_model_router.Prelude.Dict.{Dict}
use auto_model_router.Catalog.{truthy}
use auto_model_router.Verify.{Verdict, Gate}
use auto_model_router.Policies.State.{Conversation, Context, Result, ok, raises}
use auto_model_router.Router.Messages.{Message}
use auto_model_router.Router.Records.{ObservedOutcome, RoutingExplanation}
use auto_model_router.Router.State.{
  Settings, Router, RouteResult, put_conversation, commit, observe, observed_by, write_ledger,
}
use auto_model_router.Router.Routing.{Call, conversation_id, route}
use auto_model_router.Router.Checking.{
  check, check_carried, log_check, log_explained, gate_of, carried_of, may_regrade,
}
use auto_model_router.Router.Attempts.{
  escalate, attempt_with, finish_attempt, after_verdict, escalate_after_verdict,
}

module _ {F : Type 0} ⦃fl : Float F⦄ where
  -- A call of the router on the conversation `cid`
  pub data Step (st : Settings F) (cid : String) (r : Router F) : Router F → Type 0 where
    routed :
        (ctx : Context F) (call : Call F)
        → conversation_id call.hash16 call.messages ≡ cid
        → Step st cid r (route st ctx call r).1
    answered :
        (result : RouteResult F) (prompt_tokens : Option ℕ) (output_tokens : ℕ) (raw : Option ℕ)
        → result.conversation_id ≡ cid
        → Step st cid r (commit result prompt_tokens output_tokens raw r)
    observed :
        (result : RouteResult F) (outcome : ObservedOutcome F)
        → Step st cid r (observe result outcome r).1
    checked :
        (ctx : Context F) (result : RouteResult F) (text answer : String) (tool_calls : Bool)
        → Step st cid r (check st ctx result text answer tool_calls r).2
    failed :
        (ctx : Context F) (result : RouteResult F) (availability exclude : Bool) (now : F)
        → result.conversation_id ≡ cid
        → Step st cid r (escalate st ctx result availability exclude now r).1
    rejected :
        (ctx : Context F) (result : RouteResult F) (verdict : Verdict F) (messages : List Message)
        (answer : String) (exclude : Bool) (now : F)
        → result.conversation_id ≡ cid
        → Step st cid r
            (escalate_after_verdict st ctx result verdict messages answer exclude now r).1

  -- A sequence of calls, with the conversations that they are on
  pub data Run (st : Settings F) (r : Router F) : List String → Router F → Type 0 where
    done : Run st r [] r
    more :
        {cid : String} {cids : List String} {r' r'' : Router F}
        → Run st r cids r'
        → Step st cid r' r''
        → Run st r (cid ∷ cids) r''

  -- Only the conversation `cid` may have changed.
  pub record IsLocal (cid : String) (r r' : Router F) : Type 0 where
    pub others :
        (other : String)
        → ¬ (other ≡ cid)
        → Dict.get other r'.conversations ≡ Dict.get other r.conversations

  put-IsLocal :
      (cid : String) (conv : Conversation F) (r : Router F)
      → IsLocal cid r (put_conversation cid conv r)
  put-IsLocal cid conv r = record {
    others = λ other ne.
        ground (arith, Dict.get-insert cid other conv r.conversations, eq_iff cid other, ne);
  }

  same-IsLocal :
      (cid : String) (r r' : Router F) → r'.conversations ≡ r.conversations → IsLocal cid r r'
  same-IsLocal cid r r' same = record { others = λ other ne. ap (Dict.get other) same }

  write-IsLocal :
      (cid : String) (e : RoutingExplanation F) (event : Option String) (r r' : Router F)
      → r'.conversations ≡ r.conversations
      → IsLocal cid r (write_ledger e event r')
  write-IsLocal cid e event r r' same = record { others = λ other ne. ap (Dict.get other) same }

  commit-IsLocal :
      (result : RouteResult F) (prompt_tokens : Option ℕ) (output_tokens : ℕ) (raw : Option ℕ)
      (r : Router F)
      → IsLocal result.conversation_id r (commit result prompt_tokens output_tokens raw r)
  unfolding commit
  commit-IsLocal result prompt_tokens output_tokens raw r =
      let put = put-IsLocal result.conversation_id _ r in record { others = put.others }

  observed_by-IsLocal :
      (cid : String) (outcome : ObservedOutcome F) (o : Option (RoutingExplanation F))
      (result : RouteResult F) (r r' : Router F)
      → r'.conversations ≡ r.conversations
      → IsLocal cid r (observed_by outcome o result r').1
  observed_by-IsLocal cid outcome none result r r' same = same-IsLocal cid r r' same
  observed_by-IsLocal cid outcome (some e) result r r' same = write-IsLocal cid _ none r r' same

  observe-IsLocal :
      (cid : String) (result : RouteResult F) (outcome : ObservedOutcome F) (r : Router F)
      → IsLocal cid r (observe result outcome r).1
  unfolding observe
  observe-IsLocal cid result outcome r =
      observed_by-IsLocal cid outcome result.explanation result r _ refl

  log_explained-IsLocal :
      (cid : String) (o : Option (RoutingExplanation F)) (verdict : Verdict F) (r r' : Router F)
      → r'.conversations ≡ r.conversations
      → IsLocal cid r (log_explained o verdict r')
  log_explained-IsLocal cid none verdict r r' same = same-IsLocal cid r r' same
  log_explained-IsLocal cid (some e) verdict r r' same =
      elim (Bool-cases (is_some e.observed && (verdict.verified || truthy verdict.rule))) [
        | inl h ↦ rw h (write-IsLocal cid e (some "verification") r r' same)
        | inr h ↦ rw h (same-IsLocal cid r r' same)
      ]

  log_check-IsLocal :
      (cid : String) (result : RouteResult F) (verdict : Verdict F) (r : Router F)
      → IsLocal cid r (log_check result verdict r)
  unfolding log_check
  log_check-IsLocal cid result verdict r =
      log_explained-IsLocal cid result.explanation verdict r r refl

  check_carried-IsLocal :
      (cid : String) (st : Settings F) (g : Gate) (result : RouteResult F)
      (carried : Option (Verdict F)) (text answer : String) (tool_calls : Bool) (r : Router F)
      → IsLocal cid r (check_carried st g result carried text answer tool_calls r).2
  check_carried-IsLocal cid st g result none text answer tool_calls r = log_check-IsLocal cid _ _ r
  check_carried-IsLocal cid st g result (some carried) text answer tool_calls r =
      elim (Bool-cases (may_regrade st g carried)) [
        | inl h ↦ rw h (log_check-IsLocal cid _ _ r)
        | inr h ↦ rw h (same-IsLocal cid r r refl)
      ]

  put-write-IsLocal :
      (cid : String) (conv : Conversation F) (result : RouteResult F) (verdict : Verdict F)
      (r : Router F)
      → IsLocal cid r (log_check result verdict (put_conversation cid conv r))
  put-write-IsLocal cid conv result verdict r =
      let put = put-IsLocal cid conv r in
      let log = log_check-IsLocal cid result verdict (put_conversation cid conv r) in
      record { others = λ other ne. log.others other ne ∙ put.others other ne }

  finish_attempt-IsLocal :
      (cid : String) (st : Settings F) (result : RouteResult F) (verdict : Verdict F)
      (messages : List Message) (answer : String) (o : Result (Option (RouteResult F)))
      (conv : Conversation F) (r : Router F)
      → IsLocal cid r
          (finish_attempt st result verdict messages answer o (put_conversation cid conv r)).1
  finish_attempt-IsLocal cid st result verdict messages answer (raises why) conv r =
      put-IsLocal cid conv r
  finish_attempt-IsLocal cid st result verdict messages answer (ok retry) conv r =
      let a = attempt_with st result verdict messages answer retry in
      put-write-IsLocal cid conv a.result a.verdict r

  after_verdict-IsLocal :
      (rejected : Bool) (st : Settings F) (ctx : Context F) (result : RouteResult F)
      (verdict : Verdict F) (messages : List Message) (answer : String) (exclude : Bool) (now : F)
      (r : Router F)
      → IsLocal result.conversation_id r
          (after_verdict rejected st ctx result verdict messages answer exclude now r).1
  after_verdict-IsLocal false st ctx result verdict messages answer exclude now r =
      same-IsLocal _ r r refl
  after_verdict-IsLocal true st ctx result verdict messages answer exclude now r =
      finish_attempt-IsLocal result.conversation_id st result verdict messages answer _ _ r

  Step-IsLocal :
      (st : Settings F) (cid : String) (r : Router F) {r' : Router F}
      → Step st cid r r'
      → IsLocal cid r r'
  unfolding route escalate check escalate_after_verdict
  Step-IsLocal st cid r (routed ctx call e) = rw (← e) (put-IsLocal _ _ r)
  Step-IsLocal st cid r (answered result p o raw e) = rw (← e) (commit-IsLocal result p o raw r)
  Step-IsLocal st cid r (observed result outcome) = observe-IsLocal cid result outcome r
  Step-IsLocal st cid r (checked ctx result text answer tool_calls) =
      check_carried-IsLocal cid st (gate_of st ctx result text) result (carried_of result) text
        answer tool_calls r
  Step-IsLocal st cid r (failed ctx result availability exclude now e) =
      rw (← e) (put-IsLocal _ _ r)
  Step-IsLocal st cid r (rejected ctx result verdict messages answer exclude now e) =
      rw (← e)
        (after_verdict-IsLocal verdict.escalate st ctx result verdict messages answer exclude now r)

  -- In any sequence of calls, a conversation that none of them is on stays as it was.
  pub Run-others :
      (st : Settings F) (r : Router F) {cids : List String} {r' : Router F} (other : String)
      → Run st r cids r'
      → ¬ In other cids
      → Dict.get other r'.conversations ≡ Dict.get other r.conversations
  Run-others st r other done ne = refl
  Run-others st r other (more {cid = cid} {r' = mid} run step) ne =
      (Step-IsLocal st cid mid step).others other (λ e. ne (inl e))
      ∙ Run-others st r other run (λ i. ne (inr i))
