-- ===== src/Catalog/Listed.antt =====
-- Which routes a look-up in a catalog of auto_router/catalog.py finds.
use auto_model_router.Prelude.{
  ◌≡◌, ◌⊎◌, inl, Option, none, some, String, List, [], ◌∷◌, arith, string_eq, In,
}
use auto_model_router.Prelude.Dict
use auto_model_router.Prelude.Dict.{Dict}
use auto_model_router.Catalog.{ModelInfo, Catalog, insert_all, of_list, values, item}
use auto_model_router.Catalog

module _ {F : Type 0} where
  pub item-In :
      (c : Catalog F) (name : String) {m : ModelInfo F} → item c name ≡ some m → In m (values c)
  unfolding Dict.get
  item-In [] name h = cc
  item-In ((k, w) ∷ c) name {m} h = ground (arith, item-In c name {m = m})

  insert-In :
      (n m : ModelInfo F) (name : String) (c : Catalog F)
      → In n (values (Dict.insert name m c))
      → (n ≡ m) ⊎ In n (values c)
  unfolding Dict.insert
  insert-In n m name [] i = ground arith
  insert-In n m name ((k, w) ∷ c) i = ground (arith, insert-In n m name c)

  insert_all-In :
      (n : ModelInfo F) (c : Catalog F) (ms : List (ModelInfo F))
      → In n (values (insert_all c ms))
      → In n (values c) ⊎ In n ms
  unfolding insert_all
  insert_all-In n c [] i = inl i
  insert_all-In n c (m ∷ ms) i =
      ground (arith, insert_all-In n (Dict.insert m.name m c) ms i, insert-In n m m.name c)

  pub get-In :
      (c : Catalog F) (name : Option String) {m : ModelInfo F}
      → Catalog.get c name ≡ some m
      → In m (values c)
  unfolding Catalog.get
  get-In c none h = cc
  get-In c (some name) {m} h = ground (arith, item-In c name {m = m})

  -- A catalog built from a list holds only routes of the list.
  pub of_list-In :
      (n : ModelInfo F) (ms : List (ModelInfo F)) → In n (values (of_list ms)) → In n ms
  unfolding of_list
  of_list-In n ms i = ground (arith, insert_all-In n [] ms i)
