-- ===== src/Examples/Pricing.antt =====
-- The properties of the catalog and of the economics on concrete routes.
use auto_model_router.Prelude.{◌↔◌, true, false, [], ◌∷◌, In}
use auto_model_router.Prelude.Fixed.{fixed_float}
use auto_model_router.Catalog.{eligible, values}
use auto_model_router.Catalog.Eligible.{Suits, eligible_iff}
use auto_model_router.Examples.{large, catalog}

eligible_iff_example :
    In large (eligible catalog false true 4000 ("small" ∷ []))
    ↔ (In large (values catalog) × Suits false true 4000 ("small" ∷ []) large)
eligible_iff_example = eligible_iff catalog false true 4000 ("small" ∷ []) large
