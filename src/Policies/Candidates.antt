-- ===== src/Policies/Candidates.antt =====
-- The helpers of auto_router/policies.py: which routes a turn may use, and the strongest of them.
use auto_model_router.Prelude.{
  ℕ, max, String, Bool, true, ◌&&◌, ◌||◌, List, [], ◌∷◌, nat_beq, if◌then◌else◌, is_some, keep,
  best,
}
use auto_model_router.Prelude.Float.{Float, lit, decimal, ◌⊕◌, ◌⊖◌, ◌⊗◌, ◌<?◌, ◌=?◌}
use auto_model_router.Catalog.{ModelInfo, values, eligible, cap_with, truthy}
use auto_model_router.Policies.State.{
  TurnRequest, Conversation, Context, Result, no_route_available, priced, or_raise,
}

module _ {F : Type 0} ⦃fl : Float F⦄ where
  unfoldable pub usable : Bool → Context F → ModelInfo F → Bool
  usable allow_subscription ctx m =
      if truthy m.subscription then allow_subscription && is_some (priced m ctx) else true

  -- `max((m.context_tokens for m in rest), default=0)`
  unfoldable pub widest : List (ModelInfo F) → ℕ
  widest [] = 0
  widest (m ∷ ms) = max m.context_tokens (widest ms)

  abbrev pub fitting : Bool → TurnRequest F → Context F → List (ModelInfo F)
  fitting allow_subscription req ctx =
      keep (usable allow_subscription ctx)
        (eligible ctx.catalog req.needs_vision req.needs_tools req.prompt_tokens [])

  abbrev pub usable_all : Bool → Context F → List (ModelInfo F)
  usable_all allow_subscription ctx = keep (usable allow_subscription ctx) (values ctx.catalog)

  abbrev pub widest_of : List (ModelInfo F) → List (ModelInfo F)
  widest_of rest = keep (λ m. nat_beq m.context_tokens (widest rest)) rest

  abbrev pub or_rest : List (ModelInfo F) → List (ModelInfo F) → List (ModelInfo F)
  or_rest [] rest = rest
  or_rest (m ∷ ms) rest = m ∷ ms

  unfoldable pub candidates : TurnRequest F → Context F → Bool → List (ModelInfo F)
  candidates req ctx allow_subscription =
      or_rest (fitting allow_subscription req ctx) (widest_of (usable_all allow_subscription ctx))

  unfoldable pub list_blended : ModelInfo F → F
  list_blended m = m.prices.input ⊗ decimal 8 1 ⊕ m.prices.output ⊗ decimal 2 1

  unfoldable pub effective_difficulty : Conversation F → TurnRequest F → F
  effective_difficulty conv req =
      let d : F = req.difficulty in
      if d <? conv.floor then d ⊕ (conv.floor ⊖ d) ⊗ req.follow_up else d

  -- The order of Python's tuples `(a, b)`: the second part decides where the first is equal.
  abbrev pub tuple_less : F × F → F × F → Bool
  tuple_less (a, b) (c, d) = (a <? c) || (a =? c && b <? d)

  abbrev pub strength : Context F → String → ModelInfo F → F
  strength ctx category m = cap_with m category ctx.success.benchmaxxing_weight (lit 0) (lit 50)

  -- The key `(cap, -blended)` of `max`, the sign taken into the order of the second part.
  abbrev pub stronger_than : Context F → String → ModelInfo F → ModelInfo F → Bool
  stronger_than ctx category x cur =
      tuple_less (strength ctx category cur, list_blended x)
        (strength ctx category x, list_blended cur)

  unfoldable pub strongest : List (ModelInfo F) → String → Context F → Result (ModelInfo F)
  strongest models category ctx =
      or_raise (best (stronger_than ctx category) models) no_route_available
