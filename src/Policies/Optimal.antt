-- ===== src/Policies/Optimal.antt =====
-- The expected-cost policy of auto_router/policies.py names a candidate, and within the switching
-- margin no candidate is expected to cost less.
use auto_model_router.Prelude.{
  ◌≡◌, ◌⊎◌, inl, inr, refl, ap, sym, ◌∙◌, subst, String, true, false, not, ◌&&◌, Option, none, some,
  List, [], ◌∷◌, arith, str_eq, first, In, In-keep, keep-In, first-In, sort_by-In, In-sort_by,
  sort_by-IsLeast, IsPreference, IsLeast, In-map, map-In, Bool-cases,
}
use auto_model_router.Prelude.Float.{Float, IsMonotone, lit, ◌⊕◌, ◌⊗◌, ◌≤?◌, ◌≼◌}
use auto_model_router.Catalog.{ModelInfo, cap, truthy, is_free}
use auto_model_router.Policies.State.{
  TurnRequest, Conversation, Context, Choice, ok, ok-injective, >>=-eq-ok,
}
use auto_model_router.Policies.Candidates.{candidates, tuple_less}
use auto_model_router.Policies.Escalation.{lifted}
use auto_model_router.Policies.Expected.{
  ExpectedPolicy, Scored, value, score, scored_routes, choose_by_cost, choose_expected, pick_first,
  keep_or_take, other_route, cheaper_scored, by_rule, rule_route, is_route, is_finite, rule_applies,
}
use auto_model_router.Policies.Safety.{Names, strongest-In}

module _ {F : Type 0} ⦃fl : Float F⦄ where
  other_route-In :
      (current : Option (ModelInfo F)) (best : Scored F) (scored : List (Scored F)) {s : Scored F}
      → other_route current best scored ≡ some s
      → In s scored
  other_route-In none best scored h = cc
  other_route-In (some m) best scored {s} h =
      ground (arith, first-In (is_route m.name) scored {a = s})

  -- The choice comes from an entry of the scored list.
  abbrev From : Choice F → List (Scored F) → Type 0
  From c scored =
      (s : Scored F) × In s scored × (c.model ≡ s.route.name) × (c.expected_cost ≡ s.worth)

  keep_or_take-From :
      (margin : F) (best : Scored F) (other : Option (Scored F)) (scored : List (Scored F))
      → In best scored
      → ((s : Scored F) → other ≡ some s → In s scored)
      → From (keep_or_take margin best other) scored
  keep_or_take-From margin best none scored i f = (best, i, refl, refl)
  keep_or_take-From margin best (some cur) scored i f =
      elim (Bool-cases (cur.worth ≤? best.worth ⊗ (lit 1 ⊕ margin))) [
        | inl e ↦ (cur, f cur refl, rw e, rw e)
        | inr e ↦ (best, i, rw e, rw e)
      ]

  module _ (pol : ExpectedPolicy F) (conv : Conversation F) (req : TurnRequest F) (ctx : Context F)
      (d : F) where
    scored-In :
        (pool : List (ModelInfo F)) (s : Scored F)
        → In s (scored_routes pol conv req ctx d pool)
        → (m : ModelInfo F) × In m pool × (s ≡ score pol conv req ctx d pool m)
    scored-In pool s i = In-map (score pol conv req ctx d pool) s pool (In-keep is_finite s _ i).0

    pick_first-Names :
        (pool : List (ModelInfo F)) (current : Option (ModelInfo F)) (scored : List (Scored F))
        {c : Choice F}
        → ((s : Scored F)
            → In s scored
            → (m : ModelInfo F) × In m pool × (s ≡ score pol conv req ctx d pool m))
        → pick_first pol req ctx pool current scored ≡ ok c
        → Names c pool
    pick_first-Names pool current [] f h =
        let (m, e, k) = >>=-eq-ok _ _ h in
        (m, strongest-In pool req.category ctx e, sym (ap (λ c. c.model) (ok-injective k)))
    pick_first-Names pool current (best ∷ rest) {c} f h =
        let other = other_route current best (best ∷ rest) in
        let (s, i, n, _) =
          keep_or_take-From pol.switch_margin best other (best ∷ rest) (inl refl)
            (λ s. other_route-In current best (best ∷ rest)) in
        let (m, j, e) = f s i in
        (m, j, sym (ap (λ c. c.model) (ok-injective h)) ∙ n ∙ ap (λ s. s.route.name) e)

    choose_by_cost-Names :
        (pool : List (ModelInfo F)) {c : Choice F}
        → choose_by_cost pol conv req ctx d pool ≡ ok c
        → Names c pool
    unfolding choose_by_cost
    choose_by_cost-Names pool h =
        pick_first-Names pool _ _ (λ s i. scored-In pool s (sort_by-In _ s _ i)) h

    by_rule-Names :
        (pool : List (ModelInfo F)) (route : Option (ModelInfo F)) {c : Choice F}
        → ((m : ModelInfo F) → route ≡ some m → In m pool)
        → by_rule pol conv req ctx d pool route ≡ ok c
        → Names c pool
    by_rule-Names pool none f h =
        let (b, e, k) = >>=-eq-ok _ _ h in
        let (m, i, n) = choose_by_cost-Names pool e in
        (m, i, sym (ap (λ c. c.model) (ok-injective k)) ∙ n)
    by_rule-Names pool (some route) f h =
        elim (Bool-cases (not (is_free route.prices) && not (truthy route.subscription))) [
          | inl e ↦
              let same = ok-injective (rw e at h) in
              (route, f route refl, sym (ap (λ c. c.model) same))
          | inr e ↦
              let (b, e', k) = >>=-eq-ok _ _ (rw e at h) in
              let (m, i, n) = choose_by_cost-Names pool e' in
              (m, i, sym (ap (λ c. c.model) (ok-injective k)) ∙ n)
        ]

  -- Policy F names a candidate, whichever rule chose it.
  pub choose_expected-Names :
      (pol : ExpectedPolicy F) (conv : Conversation F) (req : TurnRequest F) (ctx : Context F)
      {c : Choice F}
      → choose_expected pol conv req ctx ≡ ok c
      → Names c (candidates req ctx true)
  unfolding choose_expected
  choose_expected-Names pol conv req ctx h =
      let pool = candidates req ctx true in
      let d : F = lifted pol.half_life conv req in
      elim (Bool-cases (rule_applies pol req)) [
        | inl e ↦
            by_rule-Names pol conv req ctx d pool (first (λ m. str_eq m.name (rule_route pol)) pool)
              (λ m e'. (first-In _ pool e').0) (rw e at h)
        | inr e ↦ choose_by_cost-Names pol conv req ctx d pool (rw e at h)
      ]

module _ {F : Type 0} ⦃fl : Float F⦄ where
  -- The value of a route, over all candidates of the turn.
  abbrev pub turn_value :
      ExpectedPolicy F → Conversation F → TurnRequest F → Context F → ModelInfo F → F
  turn_value pol conv req ctx m =
      (value pol m conv req ctx (lifted pol.half_life conv req) (candidates req ctx true)).0

module _ {F : Type 0} ⦃fl : Float F⦄ (laws : IsMonotone F) where
  open laws use {order, le_refl, le_trans, le_total, mul_mono}

  -- The keys (value, -capability), the sign taken into the order.
  key-asym : (a b x y : F) → tuple_less (a, y) (b, x) ≡ true → tuple_less (b, x) (a, y) ≡ false
  key-asym a b x y h = ground (arith, le_total a b, le_total x y)

  key-le : (a b x y : F) → tuple_less (a, x) (b, y) ≡ false → b ≼ a
  key-le a b x y h = ground arith

  key_trans :
      (a b c x y z : F)
      → tuple_less (a, y) (b, x) ≡ false
      → tuple_less (b, z) (c, y) ≡ false
      → tuple_less (a, z) (c, x) ≡ false
  key_trans a b c x y z h k =
      ground (arith, le_trans c b a, le_trans a c b, le_trans b a c, le_trans x y z)

  cheaper_scored-IsPreference : (category : String) → IsPreference (cheaper_scored {F = F} category)
  cheaper_scored-IsPreference category = record {
    asym = λ s t. key-asym s.worth t.worth (cap s.route category) (cap t.route category);
    trans = λ s t u.
        key_trans s.worth t.worth u.worth (cap s.route category) (cap t.route category)
          (cap u.route category);
  }

  -- Where the best route is known, what is chosen is no worse than it up to the margin.
  keep_or_take-le :
      (margin : F) (best : Scored F) (other : Option (Scored F))
      → ((keep_or_take margin best other).expected_cost ≼ best.worth)
        ⊎ ((keep_or_take margin best other).expected_cost ≼ best.worth ⊗ (lit 1 ⊕ margin))
  keep_or_take-le margin best none = inl (le_refl best.worth)
  keep_or_take-le margin best (some cur) = ground (arith, le_refl best.worth)

  module _ (pol : ExpectedPolicy F) (conv : Conversation F) (req : TurnRequest F) (ctx : Context F)
      (d : F) (pool : List (ModelInfo F)) (m : ModelInfo F) (i : In m pool)
      (finite : fl.finite (value pol m conv req ctx d pool).0 ≡ true) where
    abbrev worth_of : F
    worth_of = (value pol m conv req ctx d pool).0

    m_scored : In (score pol conv req ctx d pool m) (scored_routes pol conv req ctx d pool)
    m_scored = keep-In is_finite _ _ (map-In (score pol conv req ctx d pool) m pool i) finite

    least-le :
        (best : Scored F) (rest : List (Scored F))
        → IsLeast (cheaper_scored-IsPreference req.category) (best ∷ rest)
        → In (score pol conv req ctx d pool m) (best ∷ rest)
        → best.worth ≼ worth_of
    least-le best rest least j =
        key-le worth_of best.worth (cap best.route req.category) (cap m req.category)
          (least (score pol conv req ctx d pool m) j)

    pick_first-le :
        (current : Option (ModelInfo F)) (scored : List (Scored F)) {c : Choice F}
        → IsLeast (cheaper_scored-IsPreference req.category) scored
        → In (score pol conv req ctx d pool m) scored
        → lit 0 ≼ lit 1 ⊕ pol.switch_margin
        → pick_first pol req ctx pool current scored ≡ ok c
        → (c.expected_cost ≼ worth_of) ⊎ (c.expected_cost ≼ worth_of ⊗ (lit 1 ⊕ pol.switch_margin))
    pick_first-le current [] least j pos h = absurd j
    pick_first-le current (best ∷ rest) {c} least j pos h =
        let up = least-le best rest least j in
        let scaled = mul_mono (lit 1 ⊕ pol.switch_margin) best.worth worth_of pos up in
        subst
          (λ c.
            (c.expected_cost ≼ worth_of)
            ⊎ (c.expected_cost ≼ worth_of ⊗ (lit 1 ⊕ pol.switch_margin)))
          (ok-injective h)
          (widen _ up scaled
            (keep_or_take-le pol.switch_margin best (other_route current best (best ∷ rest))))
      where
        widen :
            (x : F)
            → best.worth ≼ worth_of
            → best.worth ⊗ (lit 1 ⊕ pol.switch_margin) ≼ worth_of ⊗ (lit 1 ⊕ pol.switch_margin)
            → (x ≼ best.worth) ⊎ (x ≼ best.worth ⊗ (lit 1 ⊕ pol.switch_margin))
            → (x ≼ worth_of) ⊎ (x ≼ worth_of ⊗ (lit 1 ⊕ pol.switch_margin))
        widen x u v (inl e) = inl (le_trans _ _ _ e u)
        widen x u v (inr e) = inr (le_trans _ _ _ e v)

    choose_by_cost-le :
        {c : Choice F}
        → lit 0 ≼ lit 1 ⊕ pol.switch_margin
        → choose_by_cost pol conv req ctx d pool ≡ ok c
        → (c.expected_cost ≼ worth_of) ⊎ (c.expected_cost ≼ worth_of ⊗ (lit 1 ⊕ pol.switch_margin))
    unfolding choose_by_cost
    choose_by_cost-le pos h =
        pick_first-le _ _
          (sort_by-IsLeast (cheaper_scored-IsPreference req.category)
            (scored_routes pol conv req ctx d pool))
          (In-sort_by _ _ _ m_scored) pos h

  -- Where the operator's rule does not apply and the switching margin is not below -1, what policy F
  -- expects to pay is at most the value of any candidate of finite value, or at most that value
  -- times one plus the margin.
  pub choose_expected-le :
      (pol : ExpectedPolicy F) (conv : Conversation F) (req : TurnRequest F) (ctx : Context F)
      (m : ModelInfo F) {c : Choice F}
      → rule_applies pol req ≡ false
      → In m (candidates req ctx true)
      → fl.finite (turn_value pol conv req ctx m) ≡ true
      → lit 0 ≼ lit 1 ⊕ pol.switch_margin
      → choose_expected pol conv req ctx ≡ ok c
      → (c.expected_cost ≼ turn_value pol conv req ctx m)
        ⊎ (c.expected_cost ≼ turn_value pol conv req ctx m ⊗ (lit 1 ⊕ pol.switch_margin))
  unfolding choose_expected
  choose_expected-le pol conv req ctx m plain i finite pos h =
      choose_by_cost-le pol conv req ctx (lifted pol.half_life conv req) (candidates req ctx true) m
        i finite pos (rw plain at h)
