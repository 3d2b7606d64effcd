-- ===== src/Gateway/Static.antt =====
-- The attempts of a turn of auto_router/server.py under the policy that never leaves its route,
-- `StaticPolicy` of auto_router/policies.py.
use auto_model_router.Prelude.{
  ◌≡◌, ◌∙◌, refl, ap, sym, subst, ℕ, zero, suc, true, false, Option, none, some, String, List, [],
  ◌∷◌,
}
use auto_model_router.Prelude.Float.{Float}
use auto_model_router.Prelude.Json.{Json}
use auto_model_router.Catalog
use auto_model_router.Catalog.{ModelInfo}
use auto_model_router.Metrics.{Metrics}
use auto_model_router.Retries.{retry_catalog}
use auto_model_router.Policies.State.{Context, Result, ok}
use auto_model_router.Router.Messages.{Message}
use auto_model_router.Router.Records.{RoutingExplanation, ObservedOutcome}
use auto_model_router.Router.State.{Settings, Router, RouteResult, result_of, observe, observed_by}
use auto_model_router.Router.Attempts.{escalate}
use auto_model_router.Router.Interface.{static_interface}
use auto_model_router.Gateway.Turn.{
  broken, Server, Turn, Outcome, continues, record_observed, retry_with, by_reply, attempt,
  attempts, answer_turn, post,
}

-- The name, `n` times, before the names that were there
abbrev pub repeated : ℕ → String → List String → List String
repeated zero name names = names
repeated (suc n) name names = repeated n name (name ∷ names)

module _ {F : Type 0} ⦃fl : Float F⦄ where
  -- The retry is on the route `m`.
  IsOn : ModelInfo F → Result (Option (RouteResult F)) → Type 0
  IsOn m o = (retry : RouteResult F) × (o ≡ ok (some retry)) × (retry.model ≡ m)

  escalate-IsOn :
      (st : Settings F) (model : Option String) (ctx : Context F) (result : RouteResult F) (now : F)
      (r : Router F) {m : ModelInfo F}
      → st.policy ≡ static_interface model
      → Catalog.get ctx.catalog (some result.model.name) ≡ some m
      → IsOn m (escalate st ctx result true false now r).0
  unfolding escalate IsOn result_of retry_catalog
  escalate-IsOn st model ctx result now r static found = rw static (rw found (_, refl, refl))

  -- The turn goes on with the route `m`, and these routes were called.
  GoesOn : ModelInfo F → List String → Outcome F → Type 0
  GoesOn m names o = (u : Turn F) × (o ≡ continues u) × (u.result.model ≡ m) × (u.posted ≡ names)

  retry_with-GoesOn :
      (m : ModelInfo F) (o : Result (Option (RouteResult F))) (t : Turn F)
      → IsOn m o
      → GoesOn m t.posted (retry_with o t)
  unfolding IsOn GoesOn
  retry_with-GoesOn m o t (retry, e, on) = rw e (_, refl, on, refl)

  observed_by-model :
      (outcome : ObservedOutcome F) (o : Option (RoutingExplanation F)) (result : RouteResult F)
      (r : Router F)
      → (observed_by outcome o result r).0.model ≡ result.model
  observed_by-model outcome none result r = refl
  observed_by-model outcome (some e) result r = refl

  observe-model :
      (result : RouteResult F) (outcome : ObservedOutcome F) (r : Router F)
      → (observe result outcome r).0.model ≡ result.model
  unfolding observe
  observe-model result outcome r = observed_by-model outcome result.explanation result _

  module _ (s : Server F) (model : Option String) (m : ModelInfo F)
      (static : s.settings.policy ≡ static_interface model)
      (listed : (n : ℕ) → Catalog.get (s.context n).catalog (some m.name) ≡ some m)
      (provided : s.has_provider m.provider ≡ true)
      (down : (n : ℕ) (messages : List Message)
        → (body : Json F) × (s.upstream n m messages ≡ broken body)) where
    broken-GoesOn :
        (n : ℕ) (body : Json F) (t : Turn F)
        → t.result.model ≡ m
        → GoesOn m t.posted (by_reply s n (broken body) t)
    unfolding record_observed
    broken-GoesOn n body t on = retry_with-GoesOn m _ _ (
        escalate-IsOn s.settings model (s.context n) _ (s.clock n) _ static
          (rw (observe-model t.result _ t.router) (rw on (listed n))))

    attempt-broken :
        (n : ℕ) (body : Json F) (t : Turn F)
        → s.has_provider t.result.model.provider ≡ true
        → s.upstream n t.result.model t.messages ≡ broken body
        → attempt s n t ≡ by_reply s n (broken body) (post t)
    unfolding attempt
    attempt-broken n body t p q = rw p (rw q refl)

    attempt-GoesOn :
        (n : ℕ) (t : Turn F) → t.result.model ≡ m → GoesOn m (m.name ∷ t.posted) (attempt s n t)
    attempt-GoesOn n t on =
        let (body, fails) = down n t.messages in
        let made =
          attempt-broken n body t
            (ap (λ (x : ModelInfo F). s.has_provider x.provider) on ∙ provided)
            (ap (λ x. s.upstream n x t.messages) on ∙ fails) in
        subst (λ (x : ModelInfo F). GoesOn m (x.name ∷ t.posted) (attempt s n t)) on
          (subst (GoesOn m (t.result.model.name ∷ t.posted)) (sym made)
            (broken-GoesOn n body (post t) on))

    attempts-repeats :
        (left n : ℕ) (t : Turn F)
        → t.result.model ≡ m
        → (attempts left s n t).1.posted ≡ repeated left m.name t.posted
    unfolding attempts GoesOn
    attempts-repeats zero n t on = refl
    attempts-repeats (suc left) n t on =
        let (u, e, next, names) = attempt-GoesOn n t on in
        rw e (attempts-repeats left (suc n) u next ∙ ap (repeated left m.name) names)

  -- With policy A, a route of the catalog whose provider is there and whose every call breaks is called
  -- again at each attempt: the turn makes all its attempts on the route it was first given, and no
  -- attempt falls back to another usable one.
  pub answer_turn-repeats :
      (s : Server F) (model : Option String)
      → s.settings.policy ≡ static_interface model
      → ((n : ℕ) → Catalog.get (s.context n).catalog (some s.first.model.name) ≡ some s.first.model)
      → s.has_provider s.first.model.provider ≡ true
      → ((n : ℕ) (messages : List Message)
          → (body : Json F) × (s.upstream n s.first.model messages ≡ broken body))
      → (max_attempts : ℕ) (router : Router F) (metrics : Metrics F) (messages : List Message)
        (truncation_retries : ℕ)
      → (answer_turn max_attempts s router metrics messages truncation_retries).1.posted
        ≡ repeated max_attempts s.first.model.name []
  unfolding answer_turn
  answer_turn-repeats s model static listed provided down max_attempts router metrics messages
        truncation_retries =
      attempts-repeats s model s.first.model static listed provided down max_attempts 0 _ refl
