-- ===== src/Policies/Safety.antt =====
-- Whatever a policy of auto_router/policies.py chooses is a route that the turn may use.
use auto_model_router.Prelude.{
  ◌≡◌, ◌≢◌, ◌⊎◌, inl, inr, refl, String, Bool, true, false, Option, none, some, List, [], ◌∷◌,
  arith, nat_beq_iff, eq_iff, str_eq, leb, is_some, keep, best, In, In-keep, keep-In, best-In,
  any-In, Bool-cases,
}
use auto_model_router.Prelude.Float.{Float, lit, ◌⊕◌, ◌<?◌}
use auto_model_router.Catalog.{ModelInfo, values, cap, truthy, item}
use auto_model_router.Catalog.Eligible.{Suits, eligible_iff}
use auto_model_router.Policies.State.{
  TurnRequest, Conversation, Context, Choice, ok, priced, or_raise-ok, ok-injective,
}
use auto_model_router.Policies.Candidates.{
  usable, widest, fitting, usable_all, widest_of, or_rest, candidates, strongest,
}
use auto_model_router.Policies.Escalation.{
  on_failure, better_pool, cheaper_retry, untried, retry_on,
}

module _ {F : Type 0} ⦃fl : Float F⦄ where
  -- A plan route is in the pool only where plans are allowed and its quota is open.
  pub record MayServe (allow : Bool) (ctx : Context F) (m : ModelInfo F) : Type 0 where
    pub listed : In m (values ctx.catalog)
    pub paced : (truthy m.subscription ≡ false) ⊎ ((allow ≡ true) × (is_some (priced m ctx) ≡ true))

  usable-paced :
      (allow : Bool) (ctx : Context F) (m : ModelInfo F)
      → usable allow ctx m ≡ true
      → (truthy m.subscription ≡ false) ⊎ ((allow ≡ true) × (is_some (priced m ctx) ≡ true))
  unfolding usable
  usable-paced allow ctx m h = ground arith

  or_rest-In :
      (m : ModelInfo F) (xs ys : List (ModelInfo F)) → In m (or_rest xs ys) → In m xs ⊎ In m ys
  or_rest-In m [] ys h = inr h
  or_rest-In m (x ∷ xs) ys h = inl h

  -- Every candidate is in the catalog, and a plan only where plans are allowed and its pacing is open.
  pub candidates-MayServe :
      (req : TurnRequest F) (ctx : Context F) (allow : Bool) (m : ModelInfo F)
      → In m (candidates req ctx allow)
      → MayServe allow ctx m
  unfolding candidates
  candidates-MayServe req ctx allow m i =
      from (or_rest-In m (fitting allow req ctx) (widest_of (usable_all allow ctx)) i)
    where
      from :
          In m (fitting allow req ctx) ⊎ In m (widest_of (usable_all allow ctx))
          → MayServe allow ctx m
      from (inl j) =
          let (k, u) = In-keep (usable allow ctx) m _ j in
          let suits =
            (eligible_iff ctx.catalog req.needs_vision req.needs_tools req.prompt_tokens [] m).0
              k in
          record { listed = suits.0; paced = usable-paced allow ctx m u }
      from (inr j) =
          let (k, w) = In-keep _ m (usable_all allow ctx) j in
          let (l, u) = In-keep (usable allow ctx) m _ k in
          record { listed = l; paced = usable-paced allow ctx m u }

  -- If a usable route of the catalog suits the request, every candidate suits it.
  pub candidates-Suits :
      (req : TurnRequest F) (ctx : Context F) (allow : Bool) (m n : ModelInfo F)
      → In n (values ctx.catalog)
      → Suits req.needs_vision req.needs_tools req.prompt_tokens [] n
      → usable allow ctx n ≡ true
      → In m (candidates req ctx allow)
      → Suits req.needs_vision req.needs_tools req.prompt_tokens [] m
  unfolding candidates
  candidates-Suits req ctx allow m n i s u j =
      let pass = eligible_iff ctx.catalog req.needs_vision req.needs_tools req.prompt_tokens [] in
      let fit : In n (fitting allow req ctx) =
        keep-In (usable allow ctx) n _ ((pass n).1 (i, s)) u in
      ((pass m).0 (In-keep (usable allow ctx) m _ (only _ _ fit j)).0).1
    where
      only : (xs ys : List (ModelInfo F)) → In n xs → In m (or_rest xs ys) → In m xs
      only [] ys h k = absurd h
      only (x ∷ xs) ys h k = k

  widest-attained :
      (n : ModelInfo F) (ms : List (ModelInfo F))
      → In n ms
      → (m : ModelInfo F) × In m ms × (m.context_tokens ≡ widest ms)
  unfolding widest
  widest-attained n [] i = absurd i
  widest-attained n (x ∷ []) i = (x, inl refl, omega arith)
  widest-attained n (x ∷ (y ∷ ms)) i =
      let (m, j, e) = widest-attained y (y ∷ ms) (inl refl) in
      elim (Bool-cases (leb (widest (y ∷ ms)) x.context_tokens)) [
        | inl le ↦ (x, inl refl, ground arith)
        | inr lt ↦ (m, inr j, ground arith)
      ]

  -- A turn has a candidate whenever one route of the catalog is usable, whatever the request asks
  -- for.
  pub candidates-ne-nil :
      (req : TurnRequest F) (ctx : Context F) (allow : Bool) (n : ModelInfo F)
      → In n (values ctx.catalog)
      → usable allow ctx n ≡ true
      → candidates req ctx allow ≢ []
  unfolding candidates
  candidates-ne-nil req ctx allow n i u =
      let rest = usable_all allow ctx in
      let (m, j, e) = widest-attained n rest (keep-In (usable allow ctx) n _ i u) in
      full (fitting allow req ctx) _ m (keep-In _ m rest j ((nat_beq_iff _ _).1 e))
    where
      full : (xs ys : List (ModelInfo F)) (m : ModelInfo F) → In m ys → or_rest xs ys ≢ []
      full [] [] m k h = k
      full [] (y ∷ ys) m k h = cc
      full (x ∷ xs) ys m k h = cc

  -- The choice names a route of the list.
  abbrev pub Names : Choice F → List (ModelInfo F) → Type 0
  Names c pool = (m : ModelInfo F) × In m pool × (c.model ≡ m.name)

  pub strongest-In :
      (pool : List (ModelInfo F)) (category : String) (ctx : Context F) {m : ModelInfo F}
      → strongest pool category ctx ≡ ok m
      → In m pool
  unfolding strongest
  strongest-In pool category ctx h = best-In _ pool (or_raise-ok _ _ h)

  -- A candidate that was not tried and is clearly more capable than the route that failed.
  pub record IsStepUp (allow : Bool) (req : TurnRequest F) (ctx : Context F) (failed : ModelInfo F)
      (tried : List String) (m : ModelInfo F) : Type 0 where
    pub candidate : In m (candidates req ctx allow)
    pub fresh : ¬ In m.name tried
    pub stronger : ((cap failed req.category ⊕ lit 1) <? cap m req.category) ≡ true

  pub untried-fresh :
      (tried : List String) (m : ModelInfo F) → untried tried m ≡ true → ¬ In m.name tried
  untried-fresh tried m h i =
      let t = any-In (λ n. str_eq n m.name) m.name tried i ((eq_iff m.name m.name).1 refl) in
      ground arith

  retry_on-some :
      (failed : String) (o : Option (ModelInfo F)) {c : Choice F}
      → retry_on failed o ≡ some c
      → (m : ModelInfo F) × (o ≡ some m) × (c.model ≡ m.name)
  retry_on-some failed none h = cc
  retry_on-some failed (some m) h = (m, refl, cc)

  -- With the ordinary rules, where the failed route is in the catalog, the route that a failure leads
  -- to is a candidate that was not tried and is rated more than one point above the failed one.
  pub on_failure-IsStepUp :
      (allow : Bool) (conv : Conversation F) (req : TurnRequest F) (ctx : Context F)
      (failed : String) (tried : List String) {f : ModelInfo F} {c : Choice F}
      → item ctx.catalog failed ≡ some f
      → on_failure allow conv req ctx failed tried ≡ ok (some c)
      → (m : ModelInfo F) × IsStepUp allow req ctx f tried m × (c.model ≡ m.name)
  unfolding on_failure
  on_failure-IsStepUp allow conv req ctx failed tried {f} {c} found h =
      let pool = candidates req ctx allow in
      let (m, e, name) =
        retry_on-some failed (best (cheaper_retry conv req ctx) (better_pool allow req ctx f tried))
          (ok-injective (rw found at h)) in
      let (i, up) = In-keep _ m (keep (untried tried) pool) (best-In _ _ e) in
      let (j, new) = In-keep _ m pool i in
      (m, record { candidate = j; fresh = untried-fresh tried m new; stronger = up }, name)
