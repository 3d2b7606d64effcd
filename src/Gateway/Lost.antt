-- ===== src/Gateway/Lost.antt =====
-- A finished answer that the judge rejects on the last attempt of a turn of auto_router/server.py.
use auto_model_router.Prelude.{
  ◌≡◌, ◌∙◌, refl, ℕ, suc, Bool, true, false, Option, none, some, arith, ltb,
}
use auto_model_router.Prelude.Float.{Float}
use auto_model_router.Prelude.Json.{Json}
use auto_model_router.Catalog.{truthy}
use auto_model_router.Usage.{Usage, parse_openai_usage}
use auto_model_router.Verify.{Verdict}
use auto_model_router.Policies.State.{Result, ok, raises}
use auto_model_router.Router.State.{RouteResult}
use auto_model_router.Router.Checking.{check}
use auto_model_router.Gateway.{answer_text, has_tool_calls}
use auto_model_router.Router.Attempts.{Attempt, escalate_after_verdict}
use auto_model_router.Gateway.Turn.{
  Server, Turn, Response, partial, failed, Outcome, returns, breaks, continues, record_observed,
  after_attempt, escalate_with_verdict, grade, by_label, after_loop, attempt, next_attempt,
  attempts, post, count_served, commit_usage, reported,
}
use auto_model_router.Gateway.Kept.{IsServed, served-attempt}

module _ {F : Type 0} ⦃fl : Float F⦄ where
  -- What a graded answer leaves untouched
  abbrev SameError : Turn F → Outcome F → Type 0
  SameError t (returns response u) = Unit
  SameError t (breaks u) = Unit
  SameError t (continues u) = (u.unfinished ≡ t.unfinished) × (u.last_error ≡ t.last_error)

  escalate_with_verdict-SameError :
      (body : Json F) (o : Result (Attempt F)) (t : Turn F)
      → SameError t (escalate_with_verdict body o t)
  escalate_with_verdict-SameError body (raises why) t = tt
  escalate_with_verdict-SameError body (ok a) t = from a.retry
    where
      from : (o : Option (RouteResult F)) → SameError t (after_attempt body o a t)
      from none = tt
      from (some retry) = (refl, refl)

  grade-SameError :
      (wanted : Bool) (s : Server F) (n : ℕ) (body : Json F) (verdict : Verdict F) (t : Turn F)
      → SameError t (grade wanted s n body verdict t)
  grade-SameError false s n body verdict t = tt
  grade-SameError true s n body verdict t = escalate_with_verdict-SameError body _ _

  finished-SameError :
      (s : Server F) (n : ℕ) (body : Json F) (usage : Usage) (t : Turn F)
      → SameError t (by_label s n body none usage t)
  unfolding record_observed
  finished-SameError s n body usage t = grade-SameError _ s n body _ _

  after_loop-none :
      (t : Turn F)
      → t.unfinished ≡ none
      → after_loop t ≡ failed t.last_error.0 t.last_error.1 t.result
  after_loop-none t e = from t.unfinished e
    where
      from :
          (o : Option (Json F × RouteResult F))
          → o ≡ none
          → (elim o [
            | none ↦ failed t.last_error.0 t.last_error.1 t.result
            | some (body, result) ↦ partial body result
          ])
            ≡ failed t.last_error.0 t.last_error.1 t.result
      from none k = refl
      from (some p) k = cc

  continues-result : {v u : Turn F} → continues v ≡ continues u → v.result ≡ u.result
  continues-result e = cc

  last_response :
      (t : Turn F) (o : Outcome F) (go : Turn F → Response F × Turn F) {u : Turn F}
      → o ≡ continues u
      → SameError t o
      → t.unfinished ≡ none
      → ((v : Turn F) → (go v).0 ≡ after_loop v)
      → (next_attempt go o).0 ≡ failed t.last_error.0 t.last_error.1 u.result
  last_response t (returns response v) go e same none_kept stops = cc
  last_response t (breaks v) go e same none_kept stops = cc
  last_response t (continues v) go e same none_kept stops =
      stops v ∙ after_loop-none v (same.0 ∙ none_kept) ∙ rw same.1 (rw (continues-result e) refl)

  -- The verdict on a finished answer, and the turn then: the usage is committed, observed and counted.
  abbrev pub graded : Server F → ℕ → Json F → Usage → Turn F → Verdict F × Turn F
  graded s n body usage t =
      let served =
        count_served s usage
          (record_observed s "ok" 200 (some usage) (suc n) (commit_usage usage (post t))) in
      let (fresh, result, router) =
        check s.settings (s.context n) served.result s.prompt (answer_text body)
          (has_tool_calls body) served.router in
      (reported served.checked fresh, record served { result = result; router = router })

  -- The answer is rejected: its verdict escalates and names no route that was taken for it, a retry is
  -- left, and the router gives a second attempt on the route `retry`.
  pub record IsRejected (s : Server F) (n : ℕ) (t : Turn F) (body : Json F) (usage : Usage)
      (retry : RouteResult F) : Type 0 where
    pub escalates : (graded s n body usage t).0.escalate ≡ true
    pub not_retried : truthy (graded s n body usage t).0.escalated_to ≡ false
    pub retry_left : ltb 0 t.verify_budget ≡ true
    pub second : Attempt F
    pub given :
        (escalate_after_verdict s.settings
          (s.context n)
          (graded s n body usage t).1.result
          (graded s n body usage t).0
          t.messages
          (answer_text body)
          true
          (s.clock n)
          (graded s n body usage t).1.router).0
        ≡ ok second
    pub named : second.retry ≡ some retry

  HasResult : RouteResult F → Outcome F → Type 0
  HasResult retry o = (u : Turn F) × (o ≡ continues u) × (u.result ≡ retry)

  escalate_with_verdict-HasResult :
      (body : Json F) (o : Result (Attempt F)) (a : Attempt F) (t : Turn F) (retry : RouteResult F)
      → o ≡ ok a
      → a.retry ≡ some retry
      → HasResult retry (escalate_with_verdict body o t)
  unfolding HasResult
  escalate_with_verdict-HasResult body o a t retry e k = rw e (rw k (_, refl, refl))

  grade-HasResult :
      (wanted : Bool) (s : Server F) (n : ℕ) (body : Json F) (verdict : Verdict F) (t : Turn F)
      (a : Attempt F) (retry : RouteResult F)
      → wanted ≡ true
      → (escalate_after_verdict s.settings
          (s.context n)
          t.result
          verdict
          t.messages
          (answer_text body)
          true
          (s.clock n)
          t.router).0
        ≡ ok a
      → a.retry ≡ some retry
      → HasResult retry (grade wanted s n body verdict t)
  grade-HasResult false s n body verdict t a retry w e k = cc
  grade-HasResult true s n body verdict t a retry w e k =
      escalate_with_verdict-HasResult body _ a _ retry e k

  by_label-HasResult :
      (s : Server F) (n : ℕ) (t : Turn F) (body : Json F) (usage : Usage) (retry : RouteResult F)
      → IsRejected s n t body usage retry
      → HasResult retry (by_label s n body none usage (post t))
  unfolding record_observed
  by_label-HasResult s n t body usage retry r =
      grade-HasResult _ s n body (graded s n body usage t).0 (graded s n body usage t).1 r.second
        retry (ground (arith, r.escalates, r.not_retried, r.retry_left)) r.given r.named

  -- Where the last attempt brings a finished answer that is rejected, with a retry left and a second
  -- route named, and no partial answer was kept, no attempt is left for that route: the response is the
  -- error of an earlier attempt, or the one that stands for no attempt, under the second route that was
  -- never called, and the finished answer is not returned.
  pub attempts-loses_answer :
      (s : Server F) (n : ℕ) (t : Turn F) (body : Json F) (retry : RouteResult F)
      (served : IsServed s n t body none)
      → t.unfinished ≡ none
      → IsRejected s n t body (parse_openai_usage served.usage served.details) retry
      → (attempts 1 s n t).0 ≡ failed t.last_error.0 t.last_error.1 retry
  unfolding attempts HasResult
  attempts-loses_answer s n t body retry served none_kept rejected =
      let (u, goes_on, named) = by_label-HasResult s n t body _ retry rejected in
      rw (← named) (
        last_response t (attempt s n t) (λ v. attempts 0 s (suc n) v)
          (served-attempt s n t body none served ∙ goes_on)
          (rw (served-attempt s n t body none served) (finished-SameError s n body _ (post t)))
          none_kept (λ v. refl))
