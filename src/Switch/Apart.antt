-- ===== src/Switch/Apart.antt =====
-- When the loop of `cheap_equivalent` of auto_router/switch.py names no route.
use auto_model_router.Prelude.{
  ◌≡◌, inl, inr, refl, String, true, false, Option, none, some, List, [], ◌∷◌, arith, first,
  Bool-cases, Option-cases, str_eq,
}
use auto_model_router.Prelude.Float.{Float, decimal, ◌⊕◌, ◌⊖◌, ◌≤?◌}
use auto_model_router.Catalog.{truthy}
use auto_model_router.Policies.State.{Result, ok}
use auto_model_router.Switch.{
  JobRow, JobRoute, is_close, compared, is_skipped, first_close, close_in, cheap_equivalent,
}

some-ne-none : {P : Type 0} {name : String} → ok (some name) ≡ ok none → P
some-ne-none h = cc

module _ {F : Type 0} ⦃fl : Float F⦄ where
  -- The row is no alternative to the chosen one: it is of a plan, or rejected, or it costs over a cent
  -- more, or its chance of success is more than two points lower.
  pub data IsApart (chosen row : JobRow F) : Type 0 where
    of_plan : truthy row.subscription ≡ true → IsApart chosen row
    is_rejected : truthy row.rejected ≡ true → IsApart chosen row
    dearer :
        (usd chosen_usd : F)
        → row.expected ≡ some usd
        → chosen.expected ≡ some chosen_usd
        → (usd ≤? chosen_usd ⊕ decimal 1 2) ≡ false
        → IsApart chosen row
    weaker : ((chosen.p_success ⊖ decimal 2 2) ≤? row.p_success) ≡ false → IsApart chosen row

  pub data AllApart (chosen : JobRow F) : List (JobRow F) → Type 0 where
    no_more : AllApart chosen []
    and_more :
        {row : JobRow F} {rows : List (JobRow F)}
        → IsApart chosen row
        → AllApart chosen rows
        → AllApart chosen (row ∷ rows)

  -- No route of the explanation comes close to the chosen one: there are no rows, none is of the
  -- chosen route, or every one is apart from the row of the chosen route.
  pub data NoneClose (route : JobRoute F) : Type 0 where
    without_rows : route.rows ≡ none → NoneClose route
    not_listed :
        (rows : List (JobRow F))
        → route.rows ≡ some rows
        → first (λ r. str_eq r.model route.model.name) rows ≡ none
        → NoneClose route
    all_apart :
        (rows : List (JobRow F)) (chosen : JobRow F)
        → route.rows ≡ some rows
        → first (λ r. str_eq r.model route.model.name) rows ≡ some chosen
        → AllApart chosen rows
        → NoneClose route

  not_close-IsApart :
      (chosen row : JobRow F) (usd chosen_usd : F)
      → row.expected ≡ some usd
      → chosen.expected ≡ some chosen_usd
      → is_close chosen chosen_usd usd row ≡ false
      → IsApart chosen row
  not_close-IsApart chosen row usd chosen_usd p q f =
      elim (Bool-cases (usd ≤? chosen_usd ⊕ decimal 1 2)) [
        | inl t ↦ weaker (ground arith)
        | inr d ↦ dearer usd chosen_usd p q d
      ]

  compared-AllApart :
      (chosen row : JobRow F) (usd chosen_usd : Option F) (rest : Result (Option String))
      (rows : List (JobRow F))
      → row.expected ≡ usd
      → chosen.expected ≡ chosen_usd
      → (rest ≡ ok none → AllApart chosen rows)
      → compared chosen row usd chosen_usd rest ≡ ok none
      → AllApart chosen (row ∷ rows)
  compared-AllApart chosen row none chosen_usd rest rows p q ih h = cc
  compared-AllApart chosen row (some usd) none rest rows p q ih h = cc
  compared-AllApart chosen row (some usd) (some chosen_usd) rest rows p q ih h =
      elim (Bool-cases (is_close chosen chosen_usd usd row)) [
        | inl t ↦ some-ne-none (rw t at h)
        | inr f ↦ and_more (not_close-IsApart chosen row usd chosen_usd p q f) (ih (rw f at h))
      ]

  skipped-IsApart : (chosen row : JobRow F) → is_skipped row ≡ true → IsApart chosen row
  skipped-IsApart chosen row s = elim (Bool-cases (truthy row.subscription)) [
    | inl t ↦ of_plan t
    | inr f ↦ is_rejected (ground arith)
  ]

  first_close-AllApart :
      (chosen : JobRow F) (rows : List (JobRow F))
      → first_close chosen rows ≡ ok none
      → AllApart chosen rows
  unfolding first_close
  first_close-AllApart chosen [] h = no_more
  first_close-AllApart chosen (row ∷ rows) h = elim (Bool-cases (is_skipped row)) [
    | inl t ↦ and_more (skipped-IsApart chosen row t) (first_close-AllApart chosen rows (rw t at h))
    | inr f ↦
        compared-AllApart chosen row row.expected chosen.expected (first_close chosen rows) rows
          refl refl (first_close-AllApart chosen rows) (rw f at h)
  ]

  close_in-NoneClose :
      (route : JobRoute F) (rows : Option (List (JobRow F)))
      → route.rows ≡ rows
      → close_in route.model.name rows ≡ ok none
      → NoneClose route
  close_in-NoneClose route none e h = without_rows e
  close_in-NoneClose route (some rows) e h =
      elim (Option-cases (first (λ r. str_eq r.model route.model.name) rows)) [
        | inl n ↦ not_listed rows e n
        | inr (chosen, n) ↦ all_apart rows chosen e n (first_close-AllApart chosen rows (rw n at h))
      ]

  -- Where `cheap_equivalent` names no route and does not raise, none of the rows comes close.
  pub cheap_equivalent-NoneClose :
      (route : JobRoute F) → cheap_equivalent route ≡ ok none → NoneClose route
  unfolding cheap_equivalent
  cheap_equivalent-NoneClose route h = close_in-NoneClose route route.rows refl h
