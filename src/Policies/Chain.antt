-- ===== src/Policies/Chain.antt =====
-- Chains of escalations by `on_failure` of auto_router/policies.py.
use mathlib.Core.Option.{some-injective}
use auto_model_router.Prelude.{◌≡◌, ◌≢◌, ap, sym, ◌∙◌, subst, String, Bool, true, some, List, arith}
use auto_model_router.Prelude.Float.{Float, IsMonotone, lit, ◌⊕◌, ◌<?◌, ◌≼◌}
use auto_model_router.Catalog.{ModelInfo, cap, item}
use auto_model_router.Catalog.Keyed.{IsKeyed, item-values}
use auto_model_router.Policies.State.{TurnRequest, Conversation, Context, Choice, ok}
use auto_model_router.Policies.Escalation.{on_failure}
use auto_model_router.Policies.Safety.{on_failure-IsStepUp, candidates-MayServe}

module _ {F : Type 0} ⦃fl : Float F⦄ where
  -- The turn moves from the route `f` through failures to the route `g`. The conversation and the
  -- list of tried routes may be any at each step.
  pub data Chain (allow : Bool) (req : TurnRequest F) (ctx : Context F) (f : ModelInfo F)
      : ModelInfo F → Type 0 where
    first_retry :
        (conv : Conversation F) (tried : List String) (c : Choice F) (g : ModelInfo F)
        → item ctx.catalog f.name ≡ some f
        → on_failure allow conv req ctx f.name tried ≡ ok (some c)
        → item ctx.catalog c.model ≡ some g
        → Chain allow req ctx f g
    next_retry :
        (conv : Conversation F) (tried : List String) (c : Choice F) (h g : ModelInfo F)
        → Chain allow req ctx f h
        → item ctx.catalog h.name ≡ some h
        → on_failure allow conv req ctx h.name tried ≡ ok (some c)
        → item ctx.catalog c.model ≡ some g
        → Chain allow req ctx f g

module _ {F : Type 0} ⦃fl : Float F⦄ (laws : IsMonotone F) where
  open laws use {le_refl, le_trans, le_total, of_ℕ_mono, add_mono, add_zero}

  less_than_more : (a b : F) → ((a ⊕ lit 1) <? b) ≡ true → (a <? b) ≡ true
  less_than_more a b h =
      let up : a ≼ a ⊕ lit 1 =
        subst (λ x. x ≼ a ⊕ lit 1) (add_zero a)
          (add_mono a a (lit 0) (lit 1) (le_refl a) (of_ℕ_mono 0 1 (omega arith))) in
      ground (arith, le_trans b a (a ⊕ lit 1))

  less_trans : (a b c : F) → (a <? b) ≡ true → (b <? c) ≡ true → (a <? c) ≡ true
  less_trans a b c h k = ground (arith, le_trans b c a, le_total b c)

  module _ (allow : Bool) (req : TurnRequest F) (ctx : Context F)
      (keyed : IsKeyed ctx.catalog) where
    step-cap :
        (conv : Conversation F) (tried : List String) (c : Choice F) (f g : ModelInfo F)
        → item ctx.catalog f.name ≡ some f
        → on_failure allow conv req ctx f.name tried ≡ ok (some c)
        → item ctx.catalog c.model ≡ some g
        → (cap f req.category <? cap g req.category) ≡ true
    step-cap conv tried c f g found retry next =
        let (m, up, name) = on_failure-IsStepUp allow conv req ctx f.name tried found retry in
        let listed = (candidates-MayServe req ctx allow m up.candidate).listed in
        let same : m ≡ g = some-injective _ _ (
          sym (item-values ctx.catalog m keyed listed) ∙ ap (item ctx.catalog) (sym name) ∙ next) in
        less_than_more _ _ (
          subst (λ (x : ModelInfo F). ((cap f req.category ⊕ lit 1) <? cap x req.category) ≡ true)
            same up.stronger)

    -- In a catalog that holds each model under its name, a chain of escalations ends on a route
    -- that is rated above the one it started from, for the turn's category.
    pub Chain-cap :
        {f g : ModelInfo F}
        → Chain allow req ctx f g
        → (cap f req.category <? cap g req.category) ≡ true
    Chain-cap {f} (first_retry conv tried c g found retry next) =
        step-cap conv tried c f g found retry next
    Chain-cap {f} (next_retry conv tried c h g before found retry next) =
        less_trans _ _ _ (Chain-cap before) (step-cap conv tried c h g found retry next)

    pub Chain-ne : {f g : ModelInfo F} → Chain allow req ctx f g → f ≢ g
    Chain-ne {f} {g} ch e =
        let up = Chain-cap ch in
        let up' =
          subst (λ (x : ModelInfo F). (cap f req.category <? cap x req.category) ≡ true) (sym e)
            up in
        ground (arith, le_refl (cap f req.category))
