-- ===== src/Gateway/Covered.antt =====
-- The routes that a turn of auto_router/server.py has called, and the set of tried routes of its result.
use auto_model_router.Prelude.{
  ◌≡◌, refl, Bool, true, Option, none, some, String, List, [], ◌∷◌, arith, eq_iff, str_eq, any,
  string_eq, In, inl, inr, Bool-cases,
}
use auto_model_router.Prelude.Float.{Float}
use auto_model_router.Verify.{Verdict}
use auto_model_router.Policies.State.{Context}
use auto_model_router.Policies.Escalation.{untried}
use auto_model_router.Router.Records.{ObservedOutcome, RoutingExplanation}
use auto_model_router.Verify.{Gate}
use auto_model_router.Router.State.{Settings, Router, RouteResult, observe, observed_by}
use auto_model_router.Router.Checking.{check, check_carried, carried_of, gate_of, may_regrade}
use auto_model_router.Router.Attempts.{tried_with}
use auto_model_router.Router.Seconds.{IsSecond}

-- No name stands twice in the list.
abbrev pub IsDistinct : List String → Type 0
IsDistinct [] = Unit
IsDistinct (n ∷ ns) = (¬ In n ns) × IsDistinct ns

any-found : (name : String) (ns : List String) → any (λ n. str_eq n name) ns ≡ true → In name ns
any-found name [] h = cc
any-found name (n ∷ ns) h = ground (arith, eq_iff n name, any-found name ns)

module _ {F : Type 0} ⦃fl : Float F⦄ where
  -- Before a call: the routes called so far were tried, and the next one is not among them.
  pub record IsReady (posted : List String) (result : RouteResult F) : Type 0 where
    pub distinct : IsDistinct posted
    pub tried : (n : String) → In n posted → In n result.tried
    pub fresh : ¬ In result.model.name posted

  -- After it: they count as tried for the next route.
  pub record IsCovered (posted : List String) (result : RouteResult F) : Type 0 where
    pub distinct : IsDistinct posted
    pub tried : (n : String) → In n posted → In n (tried_with result)

  tried_with-In :
      (result : RouteResult F) (n : String) → In n result.tried → In n (tried_with result)
  tried_with-In result n i = ground arith

  tried_with-name : (result : RouteResult F) → In result.model.name (tried_with result)
  tried_with-name result = elim (Bool-cases (untried result.tried result.model)) [
    | inl e ↦ rw e (inl refl)
    | inr e ↦ rw e (any-found result.model.name result.tried (ground arith))
  ]

  pub post-IsCovered :
      (posted : List String) (result : RouteResult F)
      → IsReady posted result
      → IsCovered (result.model.name ∷ posted) result
  post-IsCovered posted result ready = record {
    distinct = (ready.fresh, ready.distinct);
    tried = λ n i. elim i [
      | inl e ↦ rw e (tried_with-name result)
      | inr j ↦ tried_with-In result n (ready.tried n j)
    ];
  }

  pub second-IsReady :
      (posted : List String) (ctx : Context F) (result retry : RouteResult F)
      → IsCovered posted result
      → IsSecond ctx result retry
      → IsReady posted retry
  second-IsReady posted ctx result retry covered second = record {
    distinct = covered.distinct;
    tried = λ n i. rw second.tried (covered.tried n i);
    fresh = λ i. second.fresh (covered.tried _ i);
  }

  observed_by-IsCovered :
      (posted : List String) (outcome : ObservedOutcome F) (o : Option (RoutingExplanation F))
      (result : RouteResult F) (r : Router F)
      → IsCovered posted result
      → IsCovered posted (observed_by outcome o result r).0
  observed_by-IsCovered posted outcome none result r covered = covered
  observed_by-IsCovered posted outcome (some e) result r covered = record {
    distinct = covered.distinct;
    tried = covered.tried;
  }

  pub observe-IsCovered :
      (posted : List String) (result : RouteResult F) (outcome : ObservedOutcome F) (r : Router F)
      → IsCovered posted result
      → IsCovered posted (observe result outcome r).0
  unfolding observe
  observe-IsCovered posted result outcome r =
      observed_by-IsCovered posted outcome result.explanation result _

  check_carried-IsCovered :
      (posted : List String) (st : Settings F) (g : Gate) (result : RouteResult F)
      (carried : Option (Verdict F)) (text answer : String) (tool_calls : Bool) (r : Router F)
      → IsCovered posted result
      → IsCovered posted (check_carried st g result carried text answer tool_calls r).1
  check_carried-IsCovered posted st g result none text answer tool_calls r covered = record {
    distinct = covered.distinct;
    tried = covered.tried;
  }
  check_carried-IsCovered posted st g result (some carried) text answer tool_calls r covered =
      elim (Bool-cases (may_regrade st g carried)) [
        | inl h ↦ rw h (record { distinct = covered.distinct; tried = covered.tried })
        | inr h ↦ rw h covered
      ]

  pub check-IsCovered :
      (posted : List String) (st : Settings F) (ctx : Context F) (result : RouteResult F)
      (text answer : String) (tool_calls : Bool) (r : Router F)
      → IsCovered posted result
      → IsCovered posted (check st ctx result text answer tool_calls r).1
  unfolding check
  check-IsCovered posted st ctx result text answer tool_calls r =
      check_carried-IsCovered posted st (gate_of st ctx result text) result (carried_of result) text
        answer tool_calls r
