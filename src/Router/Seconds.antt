-- ===== src/Router/Seconds.antt =====
-- What a second attempt of auto_router/router.py is, and the three ways to one: the step up of a
-- verified failure, the policy's own retry, and the next usable route.
use mathlib.Core.Option.{some-injective}
use auto_model_router.Prelude.{
  ◌≡◌, ◌⊎◌, inl, inr, refl, sym, ap, Bool, true, false, Option, none, some, String, List, arith,
  string_eq, In, Option-cases,
}
use auto_model_router.Prelude.Float.{Float, lit, ◌⊕◌, ◌≤?◌, ◌<?◌}
use auto_model_router.Catalog.{ModelInfo, Catalog, values, item, truthy, cap, equals, of_list}
use auto_model_router.Catalog
use auto_model_router.Catalog.Keyed.{IsKeyed, of_list-IsKeyed, item-values, get-item}
use auto_model_router.Catalog.Listed.{item-In, get-In}
use auto_model_router.Verify.{VerifyPolicy}
use auto_model_router.Policies.State.{
  TurnRequest, Conversation, Context, Choice, ok, key_error, or_raise, >>=-eq-ok, or_raise-ok,
  ok-injective,
}
use auto_model_router.Policies.Escalation.{untried}
use auto_model_router.Policies.Safety.{untried-fresh}
use auto_model_router.Retries.{
  model_of, retry_catalog, target_of, or_available, next_available, bar_of,
}
use auto_model_router.Retries.Choices.{
  escalation_choice-clears, escalation_choice-found, next_available-fresh,
}
use auto_model_router.Router.Records
use auto_model_router.Router.Records.{Why}
use auto_model_router.Router.State.{Policy, Settings, RouteResult, result_of}
use auto_model_router.Router.Attempts.{
  tried_with, retry_of, retry_on_target, step_up_to, verified_retry,
}
use auto_model_router.Router.Interface.{IsLawful}

module _ {F : Type 0} ⦃fl : Float F⦄ where
  pub retry_catalog-IsKeyed :
      (exclude : Bool) (c : Catalog F) → IsKeyed c → IsKeyed (retry_catalog exclude c)
  unfolding retry_catalog
  retry_catalog-IsKeyed false c keyed = keyed
  retry_catalog-IsKeyed true c keyed = of_list-IsKeyed _

  -- The second attempt at `result` in the context `ctx`: another route of the catalog, never one that
  -- the turn already tried, which keeps the conversation, the request and the memory's key.
  pub record IsSecond (ctx : Context F) (result retry : RouteResult F) : Type 0 where
    pub in_catalog : In retry.model (values ctx.catalog)
    pub fresh : ¬ In retry.model.name (tried_with result)
    pub tried : retry.tried ≡ tried_with result
    pub conversation : retry.conversation_id ≡ result.conversation_id
    pub request : retry.request ≡ result.request
    pub key : retry.outcome_key ≡ result.outcome_key

  -- Rated above the failed route, by the gain of a verified failure or by more than a point
  pub record IsStronger (policy : VerifyPolicy F) (ctx : Context F) (result retry : RouteResult F)
      : Type 0 where
    pub failed : ModelInfo F
    pub found : item ctx.catalog result.model.name ≡ some failed
    pub gain :
        (bar_of policy failed result.request.category ≤? cap retry.model result.request.category
          ≡ true)
        ⊎ (((cap failed result.request.category ⊕ lit 1) <? cap retry.model result.request.category)
            ≡ true)

  retry_of-IsSecond :
      (st : Settings F) (ctx : Context F) (conv : Conversation F) (result : RouteResult F) (now : F)
      (why : Why F) (m : ModelInfo F) {retry : RouteResult F}
      → In m (values ctx.catalog)
      → ¬ In m.name (tried_with result)
      → retry_of st ctx conv result now why m ≡ retry
      → IsSecond ctx result retry
  unfolding result_of
  retry_of-IsSecond st ctx conv result now why m i new e = rw (← e) (record {
    in_catalog = i;
    fresh = new;
    tried = refl;
    conversation = refl;
    request = refl;
    key = refl;
  })

  retry_of-model :
      (st : Settings F) (ctx : Context F) (conv : Conversation F) (result : RouteResult F) (now : F)
      (why : Why F) (m : ModelInfo F) {retry : RouteResult F}
      → retry_of st ctx conv result now why m ≡ retry
      → m ≡ retry.model
  unfolding result_of
  retry_of-model st ctx conv result now why m e = ap (λ (x : RouteResult F). x.model) e

  step_up_to-some :
      (st : Settings F) (ctx : Context F) (conv : Conversation F) (result : RouteResult F) (now : F)
      (o : Option String) {retry : RouteResult F}
      → step_up_to st ctx conv result now o ≡ ok (some retry)
      → (name : String) × (m : ModelInfo F) × (o ≡ some name)
        × (item ctx.catalog name ≡ some m)
        × (retry_of st ctx conv result now Records.clear_step_up m ≡ retry)
  step_up_to-some st ctx conv result now none h = cc
  step_up_to-some st ctx conv result now (some name) h =
      let (m, found, done) = >>=-eq-ok (or_raise (item ctx.catalog name) key_error) _ h in
      (name, m, refl, or_raise-ok _ _ found, some-injective _ _ (ok-injective done))

  pub same_model :
      (c : Catalog F) (name : String) (n : ModelInfo F) {m : ModelInfo F}
      → IsKeyed c
      → In n (values c)
      → n.name ≡ name
      → item c name ≡ some m
      → n ≡ m
  same_model c name n {m} keyed i named found =
      let own : item c n.name ≡ some n = item-values c n keyed i in
      let moved : item c n.name ≡ item c name = ap (item c) named in
      let both : some n ≡ some m = cc in some-injective _ _ both

  pub verified_retry-IsSecond :
      (st : Settings F)
      → IsLawful st.policy
      → (ctx : Context F) (conv : Conversation F) (result : RouteResult F) (rule : Option String)
        (now : F) {retry : RouteResult F}
      → IsKeyed ctx.catalog
      → verified_retry st ctx conv result rule now ≡ ok (some retry)
      → IsSecond ctx result retry × IsStronger st.verify ctx result retry
  unfolding verified_retry
  verified_retry-IsSecond st law ctx conv result rule now {retry} keyed h =
      let (name, m, chosen, found, done) = step_up_to-some st ctx conv result now _ h in
      let (f, at) = escalation_choice-found st.verify ctx.catalog _ _ _ _ _ chosen in
      let (r, i, named, up) = escalation_choice-clears st.verify ctx.catalog _ _ _ _ _ at chosen in
      let same : model_of r ≡ m =
        same_model ctx.catalog name (model_of r) keyed (law.listed conv result.request ctx r i)
          named found in
      let new : untried (tried_with result) (model_of r) ≡ true = ground arith in
      let gain : bar_of st.verify f result.request.category
            ≤? cap (model_of r) result.request.category
          ≡ true =
        ground arith in
      (
        retry_of-IsSecond st ctx conv result now Records.clear_step_up m
            (item-In ctx.catalog name found)
            (rw (← same) (untried-fresh (tried_with result) (model_of r) new)) done,
        record {
          failed = f;
          found = get-item ctx.catalog result.model.name at;
          gain = inl (rw (← retry_of-model st ctx conv result now _ m done) (rw (← same) gain));
        },
      )

  target_of-some :
      (c : Catalog F) (o : Option (Choice F)) {m : ModelInfo F}
      → target_of c o ≡ some m
      → (retry : Choice F) × (o ≡ some retry) × (Catalog.get c (some retry.model) ≡ some m)
  target_of-some c none h = cc
  target_of-some c (some retry) h = (retry, refl, h)

  pub or_available-some :
      (availability : Bool) (named next : Option (ModelInfo F)) {m : ModelInfo F}
      → or_available availability named next ≡ some m
      → (named ≡ some m) ⊎ ((availability ≡ true) × (next ≡ some m))
  or_available-some availability (some n) next h = inl h
  or_available-some true none next h = inr (refl, h)
  or_available-some false none next h = cc

  pub retry_on_target-some :
      (st : Settings F) (ctx : Context F) (conv : Conversation F) (result : RouteResult F) (now : F)
      (why : Why F) (o : Option (ModelInfo F)) {retry : RouteResult F}
      → retry_on_target st ctx conv result now why o ≡ some retry
      → (m : ModelInfo F) × (o ≡ some m) × (retry_of st ctx conv result now why m ≡ retry)
  retry_on_target-some st ctx conv result now why none h = cc
  retry_on_target-some st ctx conv result now why (some m) h = (m, refl, some-injective _ _ h)

  listed_failed :
      (p : Policy F)
      → IsLawful p
      → (conv : Conversation F) (req : TurnRequest F) (ctx : Context F) (failed : String)
        (tried : List String) {c : Option (Choice F)}
      → (p.on_failure conv req ctx failed tried).0 ≡ ok c
      → (f : ModelInfo F) × (item ctx.catalog failed ≡ some f)
  listed_failed p law conv req ctx failed tried {c} h =
      elim (Option-cases (item ctx.catalog failed)) [
        | inl e ↦ (let raised = law.unlisted conv req ctx failed tried e in cc)
        | inr (f, e) ↦ (f, e)
      ]

  -- A retry on the route that the policy named
  pub named-IsSecond :
      (st : Settings F)
      → IsLawful st.policy
      → (ctx : Context F) (conv conv' : Conversation F) (result : RouteResult F) (now : F)
        (why : Why F) (o : Option (Choice F)) (m : ModelInfo F) {retry : RouteResult F}
      → IsKeyed ctx.catalog
      → (st.policy.on_failure conv result.request ctx result.model.name (tried_with result)).0
        ≡ ok o
      → target_of ctx.catalog o ≡ some m
      → retry_of st ctx conv' result now why m ≡ retry
      → IsSecond ctx result retry × IsStronger st.verify ctx result retry
  named-IsSecond st law ctx conv conv' result now why o m {retry} keyed h target done =
      let (c, chosen, found) = target_of-some ctx.catalog o target in
      let (f, at) =
        listed_failed st.policy law conv result.request ctx result.model.name (tried_with result)
          h in
      let (n, fit) =
        law.retries conv result.request ctx result.model.name (tried_with result) f c at
          (rw chosen at h) in
      let same : n ≡ m =
        same_model ctx.catalog c.model n keyed fit.in_catalog (sym fit.named)
          (get-item ctx.catalog c.model found) in
      (
        retry_of-IsSecond st ctx conv' result now why m (get-In ctx.catalog _ found)
            (rw (← same) fit.fresh) done,
        record {
          failed = f;
          found = at;
          gain =
              inr (
                rw (← retry_of-model st ctx conv' result now why m done)
                  (rw (← same) fit.stronger));
        },
      )

  pub available-IsSecond :
      (st : Settings F)
      → IsLawful st.policy
      → (ctx : Context F) (conv conv' : Conversation F) (result : RouteResult F) (now : F)
        (why : Why F) (m : ModelInfo F) {retry : RouteResult F}
      → next_available (st.policy.evaluate conv result.request ctx) (tried_with result) ≡ some m
      → retry_of st ctx conv' result now why m ≡ retry
      → IsSecond ctx result retry
  available-IsSecond st law ctx conv conv' result now why m h done =
      let (r, i, same, new, rest) = next_available-fresh _ (tried_with result) h in
      retry_of-IsSecond st ctx conv' result now why m
        (rw (← same) (law.listed conv result.request ctx r i))
        (untried-fresh (tried_with result) m new) done
