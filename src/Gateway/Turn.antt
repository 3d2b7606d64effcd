-- ===== src/Gateway/Turn.antt =====
-- The turn of `chat_completions` in auto_router/server.py, where the answer is not streamed: the loop over
-- the attempts, from the first route to the response. What the upstream replies to each attempt is
-- given, and so are the context and the time of each attempt.
use auto_model_router.Prelude.{
  ℕ, zero, suc, ◌-◌, nat_beq, String, Bool, true, false, not, ◌&&◌, Option, none, some, List, [],
  ◌∷◌, str_eq, string_eq, if◌then◌else◌, ltb, leb,
}
use auto_model_router.Prelude.Float.{Float}
use auto_model_router.Prelude.Json.{Json, obj, field, str, end}
use auto_model_router.Prelude.Dict.{Dict}
use auto_model_router.Catalog.{ModelInfo, truthy}
use auto_model_router.Usage.{Usage, total_input, parse_openai_usage}
use auto_model_router.Metrics.{Metrics, record_turn, record_error}
use auto_model_router.Truncation.{choices_of, truncation_label}
use auto_model_router.Verify.{Verdict}
use auto_model_router.Policies.State.{Context, Result, ok, raises, Error}
use auto_model_router.Router.Messages.{Message}
use auto_model_router.Router.State.{Settings, Router, RouteResult, commit, observe}
use auto_model_router.Router.Checking.{check}
use auto_model_router.Router.Attempts.{escalate, Attempt, escalate_after_verdict}
use auto_model_router.Gateway.{member, answer_text, has_tool_calls, observed_cost}

-- A broken connection, or a status and a body with the counts of its `usage`
pub data Reply (F : Type 0) : Type 0 where
  broken : Json F → Reply F
  replied : ℕ → Json F → Dict String ℕ → Option (Dict String ℕ) → Reply F

-- What the server is given: its settings, the configured providers, and for each attempt the
-- context, the time and the upstream.
pub record Server (F : Type 0) : Type 0 where
  pub settings : Settings F
  pub has_provider : String → Bool
  pub context : ℕ → Context F
  pub clock : ℕ → F
  pub upstream : ℕ → ModelInfo F → List Message → Reply F
  pub prompt : String
  pub first : RouteResult F
  pub classification_ms : F

-- The variables of the loop. `posted` holds the routes that were called, the newest first.
pub record Turn (F : Type 0) : Type 0 where
  pub router : Router F
  pub metrics : Metrics F
  pub result : RouteResult F
  pub messages : List Message
  pub unfinished : Option (Json F × RouteResult F)
  pub truncation_retries : ℕ
  pub verify_budget : ℕ
  pub checked : Option (Verdict F)
  pub last_error : ℕ × Json F
  pub posted : List String

pub data Response (F : Type 0) : Type 0 where
  answered : Json F → Verdict F → RouteResult F → Response F
  partial : Json F → RouteResult F → Response F
  failed : ℕ → Json F → RouteResult F → Response F
  no_provider : String → Response F
  internal_error : Error → Response F

-- How an attempt ends: with a return, a `break` or a `continue`
pub data Outcome (F : Type 0) : Type 0 where
  returns : Response F → Turn F → Outcome F
  breaks : Turn F → Outcome F
  continues : Turn F → Outcome F

module _ {F : Type 0} ⦃fl : Float F⦄ where
  abbrev pub escalated_from : Server F → ModelInfo F → Option String
  escalated_from s m = if str_eq s.first.model.name m.name then none else some s.first.model.name

  -- `record_observed`
  unfoldable pub record_observed : Server F → String → ℕ → Option Usage → ℕ → Turn F → Turn F
  record_observed s status http_status usage attempt t =
      let (result, router) =
        observe t.result
          (record {
            model = t.result.model.name;
            status = status;
            http_status = some http_status;
            cost_usd = observed_cost t.result.model usage;
            attempts = attempt;
            escalated_from = escalated_from s t.result.model;
          })
          t.router in
      record t { result = result; router = router }

  abbrev pub count_error : Turn F → Turn F
  count_error t = record t { metrics = record_error t.result.model.name t.metrics }

  abbrev pub count_served : Server F → Usage → Turn F → Turn F
  count_served s usage t = record t {
    metrics =
        record_turn
          (record {
            category = t.result.request.category;
            model = t.result.model;
            classification_ms = s.classification_ms;
            usage = some usage;
            switched = false;
            stickiness_save = false;
            escalated = elim t.result.tried [ [] ↦ false | n ∷ ns ↦ true ];
            classifier_failed = false;
          })
          t.metrics;
  }

  abbrev pub commit_usage : Usage → Turn F → Turn F
  commit_usage usage t = record t {
    router = commit t.result (some (total_input usage)) usage.output none t.router;
  }

  -- The next attempt, where `escalate` found a route
  abbrev pub retry_with : Result (Option (RouteResult F)) → Turn F → Outcome F
  retry_with (raises why) t = returns (internal_error why) t
  retry_with (ok none) t = breaks t
  retry_with (ok (some retry)) t = continues (record t { result = retry })

  abbrev pub fall_back : Server F → Bool → ℕ → Turn F → Outcome F
  fall_back s availability n t =
      let (retry, router) =
        escalate s.settings (s.context n) t.result availability false (s.clock n) t.router in
      retry_with retry (record t { router = router })

  -- An error of the upstream, or an answer without choices
  abbrev pub upstream_failed : Server F → String → Bool → ℕ → Json F → ℕ → Turn F → Outcome F
  upstream_failed s status availability http_status body n t =
      fall_back s availability n
        (record (record_observed s status http_status none (suc n) (count_error t)) {
          last_error = (http_status, body);
        })

  abbrev pub or_first :
      Option (Json F × RouteResult F) → Json F × RouteResult F → Option (Json F × RouteResult F)
  or_first none p = some p
  or_first (some q) p = some q

  -- An answer that its provider did not finish
  abbrev pub ran_out : Server F → ℕ → Turn F → Outcome F
  ran_out s n t = elim t.truncation_retries [
    | zero ↦ breaks t
    | suc left ↦ fall_back s true n (record t { truncation_retries = left })
  ]

  abbrev pub keep_unfinished : Json F → Turn F → Turn F
  keep_unfinished body t = record t { unfinished = or_first t.unfinished (body, t.result) }

  abbrev pub reported : Option (Verdict F) → Verdict F → Verdict F
  reported none verdict = verdict
  reported (some checked) verdict = if verdict.verified then verdict else checked

  abbrev pub after_attempt : Json F → Option (RouteResult F) → Attempt F → Turn F → Outcome F
  after_attempt body none a t =
      returns (answered body a.verdict a.result) (record t { result = a.result })
  after_attempt body (some retry) a t =
      continues
        (record (count_error t) { checked = some a.verdict; messages = a.messages; result = retry })

  abbrev pub escalate_with_verdict : Json F → Result (Attempt F) → Turn F → Outcome F
  escalate_with_verdict body (raises why) t = returns (internal_error why) t
  escalate_with_verdict body (ok a) t = after_attempt body a.retry a t

  abbrev pub wants_retry : Verdict F → ℕ → Bool
  wants_retry verdict budget = verdict.escalate && not (truthy verdict.escalated_to) && ltb 0 budget

  abbrev pub grade : Bool → Server F → ℕ → Json F → Verdict F → Turn F → Outcome F
  grade false s n body verdict t = returns (answered body verdict t.result) t
  grade true s n body verdict t =
      let (attempt, router) =
        escalate_after_verdict s.settings (s.context n) t.result verdict t.messages
          (answer_text body) true (s.clock n) t.router in
      escalate_with_verdict body attempt
        (record t { router = router; verify_budget = t.verify_budget - 1 })

  -- A finished answer is graded.
  abbrev pub finished : Server F → ℕ → Json F → Turn F → Outcome F
  finished s n body t =
      let (fresh, result, router) =
        check s.settings (s.context n) t.result s.prompt (answer_text body) (has_tool_calls body)
          t.router in
      let verdict = reported t.checked fresh in
      grade (wants_retry verdict t.verify_budget) s n body verdict
        (record t { result = result; router = router })

  abbrev pub by_label : Server F → ℕ → Json F → Option String → Usage → Turn F → Outcome F
  by_label s n body none usage t = finished s n body (
      count_served s usage (record_observed s "ok" 200 (some usage) (suc n) (commit_usage usage t)))
  by_label s n body (some label) usage t = ran_out s n (
      keep_unfinished body (
        count_error (
          count_served s usage
            (record_observed s "truncated" 200 (some usage) (suc n) (commit_usage usage t)))))

  abbrev pub has_choices : Json F → Bool
  has_choices body = elim (choices_of (member "choices" body)) [ [] ↦ false | c ∷ cs ↦ true ]

  abbrev pub by_reply : Server F → ℕ → Reply F → Turn F → Outcome F
  by_reply s n (broken body) t = upstream_failed s "transport_error" true 502 body n t
  by_reply s n (replied status body usage details) t =
      if nat_beq status 200 && has_choices body
      then by_label s n body (truncation_label body) (parse_openai_usage usage details) t
      else upstream_failed s "upstream_error" (leb 500 status) status body n t

  abbrev pub post : Turn F → Turn F
  post t = record t { posted = t.result.model.name ∷ t.posted }

  -- The body of the loop for the attempt `suc n`
  unfoldable pub attempt : Server F → ℕ → Turn F → Outcome F
  attempt s n t =
      if s.has_provider t.result.model.provider
      then by_reply s n (s.upstream n t.result.model t.messages) (post t)
      else returns (no_provider t.result.model.name) t

  -- What follows the loop
  abbrev pub after_loop : Turn F → Response F
  after_loop t = elim t.unfinished [
    | none ↦ failed t.last_error.0 t.last_error.1 t.result
    | some (body, result) ↦ partial body result
  ]

  abbrev pub next_attempt : (Turn F → Response F × Turn F) → Outcome F → Response F × Turn F
  next_attempt go (returns response t) = (response, t)
  next_attempt go (breaks t) = (after_loop t, t)
  next_attempt go (continues t) = go t

  -- The loop, with the attempts that are left and the number of those that were made
  unfoldable pub attempts : ℕ → Server F → ℕ → Turn F → Response F × Turn F
  attempts zero s n t = (after_loop t, t)
  attempts (suc left) s n t = next_attempt (λ u. attempts left s (suc n) u) (attempt s n t)

  -- The turn of a request, routed to `s.first`; `{"error": "no attempt made"}` stands as the last error.
  abbrev pub new_turn : Server F → Router F → Metrics F → List Message → ℕ → Turn F
  new_turn s router metrics messages truncation_retries = record {
    router = router;
    metrics = metrics;
    result = s.first;
    messages = messages;
    unfinished = none;
    truncation_retries = truncation_retries;
    verify_budget = s.settings.verify.max_escalations;
    checked = none;
    last_error = (502, obj (field "error" (str "no attempt made") end));
    posted = [];
  }

  -- The loop of `chat_completions` over `MAX_ATTEMPTS` attempts
  unfoldable pub answer_turn :
      ℕ → Server F → Router F → Metrics F → List Message → ℕ → Response F × Turn F
  answer_turn max_attempts s router metrics messages truncation_retries =
      attempts max_attempts s 0 (new_turn s router metrics messages truncation_retries)
