-- ===== src/Router/Interface.antt =====
-- What auto_router/router.py relies on of a policy object, and the policies of
-- auto_router/policies.py as such objects; all but `StaticPolicy` keep the laws.
use auto_model_router.Prelude.{
  ◌≡◌, refl, Bool, true, false, Option, none, some, String, List, In, In-map,
}
use auto_model_router.Prelude.Float.{Float, lit, ◌⊕◌, ◌<?◌}
use auto_model_router.Catalog.{ModelInfo, values, item, cap}
use auto_model_router.Policies.State.{
  TurnRequest, Conversation, Context, Choice, ok, raises, key_error,
}
use auto_model_router.Policies.Candidates.{candidates}
use auto_model_router.Policies.Escalation.{
  Row, evaluate, choose_escalate, on_failure, remember_failure, on_failure_escalate, choose_static,
  on_failure_static, choose_naive, choose_ev_switch,
}
use auto_model_router.Policies.Expected.{ExpectedPolicy, choose_expected, evaluate_expected}
use auto_model_router.Policies.Safety.{candidates-MayServe, on_failure-IsStepUp}
use auto_model_router.Retries.{model_of}
use auto_model_router.Router.State.{Policy}

module _ {F : Type 0} ⦃fl : Float F⦄ where
  -- `StaticPolicy` with its model; it inherits `evaluate`
  abbrev pub static_interface : Option String → Policy F
  static_interface model = record {
    choose = λ conv req ctx. choose_static model req ctx;
    on_failure = λ conv req ctx failed tried. (ok (some (on_failure_static failed)), conv);
    evaluate = evaluate false;
  }

  -- `NaivePolicy`, which inherits `on_failure` and `evaluate`
  abbrev pub naive_interface : F → Policy F
  naive_interface target_p = record {
    choose = λ conv req ctx. choose_naive target_p req ctx;
    on_failure = λ conv req ctx failed tried. (on_failure false conv req ctx failed tried, conv);
    evaluate = evaluate false;
  }

  -- `EVSwitchPolicy`, which inherits them too
  abbrev pub ev_switch_interface : F → F → Policy F
  ev_switch_interface target_p horizon = record {
    choose = choose_ev_switch target_p horizon;
    on_failure = λ conv req ctx failed tried. (on_failure false conv req ctx failed tried, conv);
    evaluate = evaluate false;
  }

  -- `EscalatePolicy` and, with `allow`, `EscalateSubscriptionPolicy`
  abbrev pub escalate_interface : Bool → F → F → F → Policy F
  escalate_interface allow start_p horizon half_life = record {
    choose = choose_escalate allow start_p horizon half_life;
    on_failure = on_failure_escalate allow;
    evaluate = evaluate allow;
  }

  -- `ExpectedCostPolicy`, which inherits `on_failure`
  abbrev pub expected_interface : ExpectedPolicy F → Policy F
  expected_interface pol = record {
    choose = choose_expected pol;
    on_failure = on_failure_escalate true;
    evaluate = evaluate_expected pol;
  }

  -- A route of the catalog that was not tried and is rated more than one point above `failed`
  pub record IsRetry (req : TurnRequest F) (ctx : Context F) (failed : ModelInfo F)
      (tried : List String) (name : String) (m : ModelInfo F) : Type 0 where
    pub named : name ≡ m.name
    pub in_catalog : In m (values ctx.catalog)
    pub fresh : ¬ In m.name tried
    pub stronger : ((cap failed req.category ⊕ lit 1) <? cap m req.category) ≡ true

  -- The laws: rows and retries are routes of the catalog, and a failed route outside it raises.
  pub record IsLawful (p : Policy F) : Type 0 where
    pub listed :
        (conv : Conversation F) (req : TurnRequest F) (ctx : Context F) (r : Row F)
        → In r (p.evaluate conv req ctx)
        → In (model_of r) (values ctx.catalog)
    pub retries :
        (conv : Conversation F) (req : TurnRequest F) (ctx : Context F) (failed : String)
        (tried : List String) (f : ModelInfo F) (c : Choice F)
        → item ctx.catalog failed ≡ some f
        → (p.on_failure conv req ctx failed tried).0 ≡ ok (some c)
        → (m : ModelInfo F) × IsRetry req ctx f tried c.model m
    pub unlisted :
        (conv : Conversation F) (req : TurnRequest F) (ctx : Context F) (failed : String)
        (tried : List String)
        → item ctx.catalog failed ≡ none
        → (p.on_failure conv req ctx failed tried).0 ≡ raises key_error

  on_failure-unlisted :
      (allow : Bool) (conv : Conversation F) (req : TurnRequest F) (ctx : Context F)
      (failed : String) (tried : List String)
      → item ctx.catalog failed ≡ none
      → on_failure allow conv req ctx failed tried ≡ raises key_error
  unfolding on_failure
  on_failure-unlisted allow conv req ctx failed tried missing = rw missing refl

  on_failure_escalate-unlisted :
      (allow : Bool) (conv : Conversation F) (req : TurnRequest F) (ctx : Context F)
      (failed : String) (tried : List String)
      → item ctx.catalog failed ≡ none
      → (on_failure_escalate allow conv req ctx failed tried).0 ≡ raises key_error
  unfolding on_failure_escalate
  on_failure_escalate-unlisted allow conv req ctx failed tried missing = rw missing refl

  on_failure-IsRetry :
      (allow : Bool) (conv : Conversation F) (req : TurnRequest F) (ctx : Context F)
      (failed : String) (tried : List String) (f : ModelInfo F) (c : Choice F)
      → item ctx.catalog failed ≡ some f
      → on_failure allow conv req ctx failed tried ≡ ok (some c)
      → (m : ModelInfo F) × IsRetry req ctx f tried c.model m
  on_failure-IsRetry allow conv req ctx failed tried f c found h =
      let (m, up, name) = on_failure-IsStepUp allow conv req ctx failed tried found h in
      (
        m,
        record {
          named = name;
          in_catalog = (candidates-MayServe req ctx allow m up.candidate).listed;
          fresh = up.fresh;
          stronger = up.stronger;
        },
      )

  on_failure_escalate-IsRetry :
      (allow : Bool) (conv : Conversation F) (req : TurnRequest F) (ctx : Context F)
      (failed : String) (tried : List String) (f : ModelInfo F) (c : Choice F)
      → item ctx.catalog failed ≡ some f
      → (on_failure_escalate allow conv req ctx failed tried).0 ≡ ok (some c)
      → (m : ModelInfo F) × IsRetry req ctx f tried c.model m
  unfolding on_failure_escalate
  on_failure_escalate-IsRetry allow conv req ctx failed tried f c found h =
      on_failure-IsRetry allow (remember_failure conv req ctx f) req ctx failed tried f c found
        (rw found at h)

  evaluate-listed :
      (allow : Bool) (conv : Conversation F) (req : TurnRequest F) (ctx : Context F) (r : Row F)
      → In r (evaluate allow conv req ctx)
      → In (model_of r) (values ctx.catalog)
  unfolding evaluate
  evaluate-listed allow conv req ctx r i =
      let (m, j, e) = In-map _ r (candidates req ctx allow) i in
      rw e ((candidates-MayServe req ctx allow m j).listed)

  evaluate_expected-listed :
      (pol : ExpectedPolicy F) (conv : Conversation F) (req : TurnRequest F) (ctx : Context F)
      (r : Row F)
      → In r (evaluate_expected pol conv req ctx)
      → In (model_of r) (values ctx.catalog)
  unfolding evaluate_expected
  evaluate_expected-listed pol conv req ctx r i =
      let pool = candidates req ctx true in
      let (m, j, e) = In-map _ r pool i in rw e ((candidates-MayServe req ctx true m j).listed)

  pub naive_interface-IsLawful : (target_p : F) → IsLawful (naive_interface target_p)
  naive_interface-IsLawful target_p = record {
    listed = evaluate-listed false;
    retries = on_failure-IsRetry false;
    unlisted = on_failure-unlisted false;
  }

  pub ev_switch_interface-IsLawful :
      (target_p horizon : F) → IsLawful (ev_switch_interface target_p horizon)
  ev_switch_interface-IsLawful target_p horizon = record {
    listed = evaluate-listed false;
    retries = on_failure-IsRetry false;
    unlisted = on_failure-unlisted false;
  }

  pub escalate_interface-IsLawful :
      (allow : Bool) (start_p horizon half_life : F)
      → IsLawful (escalate_interface allow start_p horizon half_life)
  escalate_interface-IsLawful allow start_p horizon half_life = record {
    listed = evaluate-listed allow;
    retries = on_failure_escalate-IsRetry allow;
    unlisted = on_failure_escalate-unlisted allow;
  }

  pub expected_interface-IsLawful : (pol : ExpectedPolicy F) → IsLawful (expected_interface pol)
  expected_interface-IsLawful pol = record {
    listed = evaluate_expected-listed pol;
    retries = on_failure_escalate-IsRetry true;
    unlisted = on_failure_escalate-unlisted true;
  }
