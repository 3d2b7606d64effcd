-- ===== src/Gateway/Distinct.antt =====
-- The routes that the attempts of a turn of auto_router/server.py call.
use auto_model_router.Prelude.{
  ◌≡◌, refl, ℕ, zero, suc, Bool, true, false, Option, none, some, String, List, ◌&&◌, string_eq,
  inl, inr, Bool-cases, nat_beq, leb,
}
use auto_model_router.Prelude.Float.{Float}
use auto_model_router.Prelude.Json.{Json}
use auto_model_router.Catalog.Keyed.{IsKeyed}
use auto_model_router.Usage.{Usage}
use auto_model_router.Metrics.{Metrics}
use auto_model_router.Verify.{Verdict}
use auto_model_router.Policies.State.{Result, ok, raises}
use auto_model_router.Router.Messages.{Message}
use auto_model_router.Router.State.{Router, RouteResult}
use auto_model_router.Router.Attempts.{Attempt}
use auto_model_router.Router.Interface.{IsLawful}
use auto_model_router.Router.Retried.{escalate-IsSecond, escalate_after_verdict-IsSecond}
use auto_model_router.Gateway.Turn.{
  Reply, broken, replied, Server, Turn, Response, Outcome, returns, breaks, continues,
  record_observed, retry_with, fall_back, ran_out, after_attempt, escalate_with_verdict, grade,
  finished, by_label, by_reply, post, has_choices, attempt, next_attempt, attempts, answer_turn,
}
use auto_model_router.Gateway.Covered.{
  IsDistinct, IsReady, IsCovered, post-IsCovered, second-IsReady, observe-IsCovered,
  check-IsCovered,
}

module _ {F : Type 0} ⦃fl : Float F⦄ where
  -- What an attempt leaves behind
  abbrev IsSound : Outcome F → Type 0
  IsSound (returns response t) = IsDistinct t.posted
  IsSound (breaks t) = IsDistinct t.posted
  IsSound (continues t) = IsReady t.posted t.result

  abbrev Covers : Turn F → Type 0
  Covers t = IsCovered t.posted t.result

  retry_with-IsSound :
      (o : Result (Option (RouteResult F))) (t : Turn F)
      → IsDistinct t.posted
      → ((retry : RouteResult F) → o ≡ ok (some retry) → IsReady t.posted retry)
      → IsSound (retry_with o t)
  retry_with-IsSound (raises why) t distinct ready = distinct
  retry_with-IsSound (ok none) t distinct ready = distinct
  retry_with-IsSound (ok (some retry)) t distinct ready =
      let next = ready retry refl in
      record { distinct = next.distinct; tried = next.tried; fresh = next.fresh }

  module _ (s : Server F) (law : IsLawful s.settings.policy)
      (keyed : (n : ℕ) → IsKeyed (s.context n).catalog) where
    fall_back-IsSound :
        (availability : Bool) (n : ℕ) (t : Turn F)
        → Covers t
        → IsSound (fall_back s availability n t)
    fall_back-IsSound availability n t covered = retry_with-IsSound _ _ covered.distinct (λ retry e.
        second-IsReady t.posted _ t.result retry covered
          (escalate-IsSecond s.settings law (s.context n) t.result availability false (s.clock n)
            t.router (keyed n) e).0)

    record_observed-Covers :
        (status : String) (http_status : ℕ) (usage : Option Usage) (n : ℕ) (t : Turn F)
        → Covers t
        → Covers (record_observed s status http_status usage n t)
    unfolding record_observed
    record_observed-Covers status http_status usage n t covered =
        observe-IsCovered t.posted t.result _ t.router covered

    escalate_with_verdict-IsSound :
        (body : Json F) (o : Result (Attempt F)) (t : Turn F)
        → IsDistinct t.posted
        → ((a : Attempt F) (retry : RouteResult F)
            → o ≡ ok a
            → a.retry ≡ some retry
            → IsReady t.posted retry)
        → IsSound (escalate_with_verdict body o t)
    escalate_with_verdict-IsSound body (raises why) t distinct ready = distinct
    escalate_with_verdict-IsSound body (ok a) t distinct ready =
        from a.retry (λ retry e. ready a retry refl e)
      where
        from :
            (o : Option (RouteResult F))
            → ((retry : RouteResult F) → o ≡ some retry → IsReady t.posted retry)
            → IsSound (after_attempt body o a t)
        from none next = distinct
        from (some retry) next =
            let r = next retry refl in
            record { distinct = r.distinct; tried = r.tried; fresh = r.fresh }

    grade-IsSound :
        (wanted : Bool) (n : ℕ) (body : Json F) (verdict : Verdict F) (t : Turn F)
        → Covers t
        → IsSound (grade wanted s n body verdict t)
    grade-IsSound false n body verdict t covered = covered.distinct
    grade-IsSound true n body verdict t covered =
        escalate_with_verdict-IsSound body _ _ covered.distinct (λ a retry e f.
          second-IsReady t.posted _ t.result retry covered
            (escalate_after_verdict-IsSecond s.settings law (s.context n) t.result verdict
              t.messages _ true (s.clock n) t.router (keyed n) e f).0)

    finished-IsSound :
        (n : ℕ) (body : Json F) (t : Turn F) → Covers t → IsSound (finished s n body t)
    finished-IsSound n body t covered =
        grade-IsSound _ n body _ _
          (check-IsCovered t.posted s.settings (s.context n) t.result s.prompt _ _ t.router covered)

    ran_out-IsSound : (n : ℕ) (t : Turn F) → Covers t → IsSound (ran_out s n t)
    ran_out-IsSound n t covered = from t.truncation_retries
      where
        from :
            (left : ℕ)
            → IsSound (elim left [
              | zero ↦ breaks t
              | suc k ↦ fall_back s true n (record t { truncation_retries = k })
            ])
        from zero = covered.distinct
        from (suc k) =
            fall_back-IsSound true n (record t { truncation_retries = k })
              (record { distinct = covered.distinct; tried = covered.tried })

    by_label-IsSound :
        (n : ℕ) (body : Json F) (label : Option String) (usage : Usage) (t : Turn F)
        → Covers t
        → IsSound (by_label s n body label usage t)
    by_label-IsSound n body none usage t covered =
        finished-IsSound n body _ (record_observed-Covers "ok" 200 (some usage) (suc n) _ covered)
    by_label-IsSound n body (some label) usage t covered =
        ran_out-IsSound n _ (record_observed-Covers "truncated" 200 (some usage) (suc n) _ covered)

    by_reply-IsSound :
        (n : ℕ) (reply : Reply F) (t : Turn F) → Covers t → IsSound (by_reply s n reply t)
    by_reply-IsSound n (broken body) t covered =
        fall_back-IsSound true n _
          (record_observed-Covers "transport_error" 502 none (suc n) _ covered)
    by_reply-IsSound n (replied status body usage details) t covered =
        elim (Bool-cases (nat_beq status 200 && has_choices body)) [
          | inl h ↦ rw h (by_label-IsSound n body _ _ t covered)
          | inr h ↦ rw h (
              fall_back-IsSound (leb 500 status) n _
                (record_observed-Covers "upstream_error" status none (suc n) _ covered))
        ]

    attempt-IsSound : (n : ℕ) (t : Turn F) → IsReady t.posted t.result → IsSound (attempt s n t)
    unfolding attempt
    attempt-IsSound n t ready = elim (Bool-cases (s.has_provider t.result.model.provider)) [
      | inl h ↦ rw h (
          by_reply-IsSound n (s.upstream n t.result.model t.messages) (post t)
            (post-IsCovered t.posted t.result ready))
      | inr h ↦ rw h ready.distinct
    ]

    next_attempt-IsDistinct :
        (go : Turn F → Response F × Turn F) (o : Outcome F)
        → ((t : Turn F) → IsReady t.posted t.result → IsDistinct (go t).1.posted)
        → IsSound o
        → IsDistinct (next_attempt go o).1.posted
    next_attempt-IsDistinct go (returns response t) later sound = sound
    next_attempt-IsDistinct go (breaks t) later sound = sound
    next_attempt-IsDistinct go (continues t) later sound = later t sound

    attempts-IsDistinct :
        (left n : ℕ) (t : Turn F)
        → IsReady t.posted t.result
        → IsDistinct (attempts left s n t).1.posted
    unfolding attempts
    attempts-IsDistinct zero n t ready = ready.distinct
    attempts-IsDistinct (suc left) n t ready =
        next_attempt-IsDistinct (λ u. attempts left s (suc n) u) (attempt s n t)
          (λ u. attempts-IsDistinct left (suc n) u) (attempt-IsSound n t ready)

    -- With a policy that keeps the laws `IsLawful`, as the policies B to F do and A does not, and
    -- catalogs that hold each model under its own name, one turn of the server calls no route twice,
    -- whatever the upstream replies and however often it falls back or escalates.
    pub answer_turn-IsDistinct :
        (max_attempts : ℕ) (router : Router F) (metrics : Metrics F) (messages : List Message)
        (truncation_retries : ℕ)
        → IsDistinct
            (answer_turn max_attempts s router metrics messages truncation_retries).1.posted
    unfolding answer_turn
    answer_turn-IsDistinct max_attempts router metrics messages truncation_retries =
        attempts-IsDistinct max_attempts 0 _
          (record { distinct = tt; tried = λ n i. absurd i; fresh = λ i. i })
