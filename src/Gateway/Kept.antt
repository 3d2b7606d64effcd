-- ===== src/Gateway/Kept.antt =====
-- The partial answer that a turn of auto_router/server.py keeps, and gives back where no attempt brings
-- a finished one.
use auto_model_router.Prelude.{
  ◌≡◌, refl, ℕ, zero, suc, Bool, true, false, Option, none, some, String, inl, inr, Bool-cases,
  nat_beq, leb, is_some, ◌&&◌,
}
use auto_model_router.Prelude.Float.{Float}
use auto_model_router.Prelude.Json.{Json}
use auto_model_router.Prelude.Dict.{Dict}
use auto_model_router.Usage.{Usage, parse_openai_usage}
use auto_model_router.Truncation.{truncation_label}
use auto_model_router.Verify.{Verdict}
use auto_model_router.Policies.State.{Result, ok, raises}
use auto_model_router.Router.State.{RouteResult}
use auto_model_router.Router.Attempts.{Attempt}
use auto_model_router.Gateway.Turn.{
  Reply, broken, replied, Server, Turn, Response, answered, partial, failed, no_provider,
  internal_error, Outcome, returns, breaks, continues, record_observed, retry_with, fall_back,
  ran_out, after_attempt, escalate_with_verdict, grade, by_label, by_reply, has_choices, after_loop,
  attempt, next_attempt, attempts, or_first, post,
}

module _ {F : Type 0} ⦃fl : Float F⦄ where
  -- The turn has kept a partial answer.
  abbrev pub Keeps : Turn F → Type 0
  Keeps t = is_some t.unfinished ≡ true

  -- The response is not an error that the upstream gave.
  abbrev pub IsNoFailure : Response F → Type 0
  IsNoFailure (failed status body result) = ⊥
  IsNoFailure (answered body verdict result) = Unit
  IsNoFailure (partial body result) = Unit
  IsNoFailure (no_provider name) = Unit
  IsNoFailure (internal_error why) = Unit

  abbrev IsKept : Outcome F → Type 0
  IsKept (returns response t) = IsNoFailure response
  IsKept (breaks t) = Keeps t
  IsKept (continues t) = Keeps t

  retry_with-IsKept :
      (o : Result (Option (RouteResult F))) (t : Turn F) → Keeps t → IsKept (retry_with o t)
  retry_with-IsKept (raises why) t k = tt
  retry_with-IsKept (ok none) t k = k
  retry_with-IsKept (ok (some retry)) t k = k

  fall_back-IsKept :
      (s : Server F) (availability : Bool) (n : ℕ) (t : Turn F)
      → Keeps t
      → IsKept (fall_back s availability n t)
  fall_back-IsKept s availability n t k = retry_with-IsKept _ _ k

  record_observed-Keeps :
      (s : Server F) (status : String) (http_status : ℕ) (usage : Option Usage) (n : ℕ) (t : Turn F)
      → Keeps t
      → Keeps (record_observed s status http_status usage n t)
  unfolding record_observed
  record_observed-Keeps s status http_status usage n t k = k

  after_attempt-IsKept :
      (body : Json F) (o : Option (RouteResult F)) (a : Attempt F) (t : Turn F)
      → Keeps t
      → IsKept (after_attempt body o a t)
  after_attempt-IsKept body none a t k = tt
  after_attempt-IsKept body (some retry) a t k = k

  escalate_with_verdict-IsKept :
      (body : Json F) (o : Result (Attempt F)) (t : Turn F)
      → Keeps t
      → IsKept (escalate_with_verdict body o t)
  escalate_with_verdict-IsKept body (raises why) t k = tt
  escalate_with_verdict-IsKept body (ok a) t k = after_attempt-IsKept body a.retry a t k

  grade-IsKept :
      (wanted : Bool) (s : Server F) (n : ℕ) (body : Json F) (verdict : Verdict F) (t : Turn F)
      → Keeps t
      → IsKept (grade wanted s n body verdict t)
  grade-IsKept false s n body verdict t k = tt
  grade-IsKept true s n body verdict t k = escalate_with_verdict-IsKept body _ _ k

  ran_out-IsKept : (s : Server F) (n : ℕ) (t : Turn F) → Keeps t → IsKept (ran_out s n t)
  ran_out-IsKept s n t k = from t.truncation_retries
    where
      from :
          (left : ℕ)
          → IsKept (elim left [
            | zero ↦ breaks t
            | suc m ↦ fall_back s true n (record t { truncation_retries = m })
          ])
      from zero = k
      from (suc m) = fall_back-IsKept s true n (record t { truncation_retries = m }) k

  or_first-kept :
      (o : Option (Json F × RouteResult F)) (p : Json F × RouteResult F)
      → is_some (or_first o p) ≡ true
  or_first-kept none p = refl
  or_first-kept (some q) p = refl

  by_label_cut-IsKept :
      (s : Server F) (n : ℕ) (body : Json F) (label : String) (usage : Usage) (t : Turn F)
      → IsKept (by_label s n body (some label) usage t)
  by_label_cut-IsKept s n body label usage t = ran_out-IsKept s n _ (or_first-kept _ _)

  by_label-IsKept :
      (s : Server F) (n : ℕ) (body : Json F) (label : Option String) (usage : Usage) (t : Turn F)
      → Keeps t
      → IsKept (by_label s n body label usage t)
  by_label-IsKept s n body none usage t k =
      grade-IsKept _ s n body _ _ (record_observed-Keeps s "ok" 200 (some usage) (suc n) _ k)
  by_label-IsKept s n body (some label) usage t k = by_label_cut-IsKept s n body label usage t

  by_reply-IsKept :
      (s : Server F) (n : ℕ) (reply : Reply F) (t : Turn F)
      → Keeps t
      → IsKept (by_reply s n reply t)
  by_reply-IsKept s n (broken body) t k =
      fall_back-IsKept s true n _ (record_observed-Keeps s "transport_error" 502 none (suc n) _ k)
  by_reply-IsKept s n (replied status body usage details) t k =
      elim (Bool-cases (nat_beq status 200 && has_choices body)) [
        | inl h ↦ rw h (by_label-IsKept s n body _ _ t k)
        | inr h ↦ rw h (
            fall_back-IsKept s (leb 500 status) n _
              (record_observed-Keeps s "upstream_error" status none (suc n) _ k))
      ]

  attempt-IsKept : (s : Server F) (n : ℕ) (t : Turn F) → Keeps t → IsKept (attempt s n t)
  unfolding attempt
  attempt-IsKept s n t k = elim (Bool-cases (s.has_provider t.result.model.provider)) [
    | inl h ↦ rw h (by_reply-IsKept s n (s.upstream n t.result.model t.messages) (post t) k)
    | inr h ↦ rw h tt
  ]

  after_loop-IsNoFailure : (t : Turn F) → Keeps t → IsNoFailure (after_loop t)
  after_loop-IsNoFailure t k = from t.unfinished k
    where
      from :
          (o : Option (Json F × RouteResult F))
          → is_some o ≡ true
          → IsNoFailure (elim o [
            | none ↦ failed t.last_error.0 t.last_error.1 t.result
            | some (body, result) ↦ partial body result
          ])
      from none e = cc
      from (some p) e = tt

  next_attempt-IsNoFailure :
      (go : Turn F → Response F × Turn F) (o : Outcome F)
      → ((t : Turn F) → Keeps t → IsNoFailure (go t).0)
      → IsKept o
      → IsNoFailure (next_attempt go o).0
  next_attempt-IsNoFailure go (returns response t) later k = k
  next_attempt-IsNoFailure go (breaks t) later k = after_loop-IsNoFailure t k
  next_attempt-IsNoFailure go (continues t) later k = later t k

  attempts-IsNoFailure :
      (left : ℕ) (s : Server F) (n : ℕ) (t : Turn F) → Keeps t → IsNoFailure (attempts left s n t).0
  unfolding attempts
  attempts-IsNoFailure zero s n t k = after_loop-IsNoFailure t k
  attempts-IsNoFailure (suc left) s n t k =
      next_attempt-IsNoFailure (λ u. attempts left s (suc n) u) (attempt s n t)
        (λ u. attempts-IsNoFailure left s (suc n) u) (attempt-IsKept s n t k)

  -- The reply is a success with choices, and its stop label is `label`.
  pub record IsServed (s : Server F) (n : ℕ) (t : Turn F) (body : Json F) (label : Option String)
      : Type 0 where
    pub usage : Dict String ℕ
    pub details : Option (Dict String ℕ)
    pub provided : s.has_provider t.result.model.provider ≡ true
    pub reply : s.upstream n t.result.model t.messages ≡ replied 200 body usage details
    pub choices : has_choices body ≡ true
    pub stop : truncation_label body ≡ label

  pub served-attempt :
      (s : Server F) (n : ℕ) (t : Turn F) (body : Json F) (label : Option String)
      (served : IsServed s n t body label)
      → attempt s n t
        ≡ by_label s n body label (parse_openai_usage served.usage served.details) (post t)
  unfolding attempt
  served-attempt s n t body label served =
      rw served.provided (rw served.reply (rw served.choices (rw served.stop refl)))

  -- Where an attempt brings an answer that its provider did not finish, the turn does not end with an
  -- error of the upstream, whatever the other attempts bring.
  pub attempts-keeps_partial :
      (left : ℕ) (s : Server F) (n : ℕ) (t : Turn F) (body : Json F) (label : String)
      → IsServed s n t body (some label)
      → IsNoFailure (attempts (suc left) s n t).0
  unfolding attempts
  attempts-keeps_partial left s n t body label served =
      rw (served-attempt s n t body (some label) served) (
        next_attempt-IsNoFailure (λ u. attempts left s (suc n) u)
          (by_label s n body (some label) (parse_openai_usage served.usage served.details) (post t))
          (λ u. attempts-IsNoFailure left s (suc n) u)
          (by_label_cut-IsKept s n body label _ (post t)))
