-- ===== src/Policies/Chosen.antt =====
-- What the `choose` methods of auto_router/policies.py name is a candidate of the turn.
use auto_model_router.Prelude.{
  ◌≡◌, ◌⊎◌, inl, inr, refl, ap, sym, ◌∙◌, String, Bool, true, false, Option, none, some, List, [],
  ◌∷◌, arith, eq_iff, str_eq, keep, any, best, In, In-keep, best-In, Bool-cases, subst,
}
use auto_model_router.Prelude.Float.{Float}
use auto_model_router.Catalog
use auto_model_router.Catalog.{ModelInfo, cap, truthy, or_else, is_free}
use auto_model_router.Policies.State.{
  TurnRequest, Conversation, Context, Choice, Result, ok, or_raise-ok, ok-injective, >>=-eq-ok,
}
use auto_model_router.Policies.Candidates.{candidates}
use auto_model_router.Policies.Escalation.{
  is_named, target, likelier, cheaper_listed, adequate, choose_naive, cheaper_call, choose_escalate,
  stay_or_leave, downgrade, or_best, lifted,
}
use auto_model_router.Policies.Safety.{Names, strongest-In}

module _ {F : Type 0} ⦃fl : Float F⦄ where
  or_best-In :
      (o : Option (ModelInfo F)) (other : Result (ModelInfo F)) (pool : List (ModelInfo F))
      {m : ModelInfo F}
      → ((b : ModelInfo F) → o ≡ some b → In b pool)
      → ((b : ModelInfo F) → other ≡ ok b → In b pool)
      → or_best o other ≡ ok m
      → In m pool
  or_best-In none other pool {m} f g h = g m h
  or_best-In (some b) other pool {m} f g h = f m (ap some (ok-injective h))

  kept-In :
      (better : ModelInfo F → ModelInfo F → Bool) (test : ModelInfo F → Bool)
      (pool : List (ModelInfo F)) (b : ModelInfo F)
      → best better (keep test pool) ≡ some b
      → In b pool
  kept-In better test pool b h = (In-keep test b pool (best-In better (keep test pool) h)).0

  target-In :
      (bar : F) (req : TurnRequest F) (ctx : Context F) (d : F) (allow : Bool) {m : ModelInfo F}
      → target bar req ctx d allow ≡ ok m
      → In m (candidates req ctx allow)
  unfolding target
  target-In bar req ctx d allow h =
      let pool = candidates req ctx allow in
      or_best-In _ _ pool (kept-In (cheaper_listed req) (adequate req ctx bar d) pool)
        (λ b e. best-In (likelier req ctx d) pool (or_raise-ok _ _ e)) h

  -- The naive policy names a candidate that is no plan.
  pub choose_naive-Names :
      (bar : F) (req : TurnRequest F) (ctx : Context F) {c : Choice F}
      → choose_naive bar req ctx ≡ ok c
      → Names c (candidates req ctx false)
  unfolding choose_naive
  choose_naive-Names bar req ctx h =
      let (m, e, k) = >>=-eq-ok _ _ h in
      (m, target-In bar req ctx req.difficulty false e, sym (ap (λ c. c.model) (ok-injective k)))

  named-In :
      (name : String) (pool : List (ModelInfo F))
      → any (is_named name) pool ≡ true
      → (m : ModelInfo F) × In m pool × (name ≡ m.name)
  named-In name [] h = cc
  named-In name (x ∷ xs) h = elim (Bool-cases (str_eq x.name name)) [
    | inl e ↦ (x, inl refl, sym ((eq_iff x.name name).0 e))
    | inr e ↦ let (m, i, n) = named-In name xs (ground arith) in (m, inr i, n)
  ]

  downgrade-either :
      (horizon : F) (conv : Conversation F) (req : TurnRequest F) (ctx : Context F)
      (current goal : ModelInfo F) (d : F)
      → let c = downgrade horizon conv req ctx current goal d in
        (c.model ≡ goal.name) ⊎ (c.model ≡ current.name)
  unfolding downgrade
  downgrade-either horizon conv req ctx current goal d = ground arith

  stay_or_leave-Names :
      (start_p horizon : F) (conv : Conversation F) (req : TurnRequest F) (ctx : Context F) (d : F)
      (pool : List (ModelInfo F)) (cheapest : ModelInfo F) (current : Option (ModelInfo F))
      → In cheapest pool
      → Names (stay_or_leave start_p horizon conv req ctx d pool cheapest current) pool
  stay_or_leave-Names start_p horizon conv req ctx d pool cheapest none i = (cheapest, i, refl)
  stay_or_leave-Names start_p horizon conv req ctx d pool cheapest (some current) i =
      elim (Bool-cases (any (is_named current.name) pool)) [
        | inr out ↦ (cheapest, i, rw out)
        | inl here ↦
            let (m, j, n) = named-In current.name pool here in
            elim (either here) [ inl e ↦ (cheapest, i, e) | inr e ↦ (m, j, e ∙ n) ]
      ]
    where
      either :
          any (is_named current.name) pool ≡ true
          → let c = stay_or_leave start_p horizon conv req ctx d pool cheapest (some current) in
            (c.model ≡ cheapest.name) ⊎ (c.model ≡ current.name)
      either here = ground (arith, downgrade-either horizon conv req ctx current cheapest d)

  -- The escalating policies D and E name a candidate, also when they stay.
  pub choose_escalate-Names :
      (allow : Bool) (start_p horizon half_life : F) (conv : Conversation F) (req : TurnRequest F)
      (ctx : Context F) {c : Choice F}
      → choose_escalate allow start_p horizon half_life conv req ctx ≡ ok c
      → Names c (candidates req ctx allow)
  unfolding choose_escalate
  choose_escalate-Names allow start_p horizon half_life conv req ctx {c} h =
      let pool = candidates req ctx allow in
      let d : F = lifted half_life conv req in
      let (m, e, k) = >>=-eq-ok _ _ h in
      let i =
        or_best-In _ _ pool (kept-In (cheaper_call conv req ctx) (adequate req ctx start_p d) pool)
          (λ b. strongest-In pool req.category ctx) e in
      subst (λ c. Names c pool) (ok-injective k)
        (stay_or_leave-Names start_p horizon conv req ctx d pool m
          (Catalog.get ctx.catalog conv.current) i)
