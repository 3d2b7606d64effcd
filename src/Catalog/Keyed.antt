-- ===== src/Catalog/Keyed.antt =====
-- A catalog built by `Catalog.__init__` of auto_router/catalog.py holds each model under its name.
use auto_model_router.Prelude.{
  ◌≡◌, inl, inr, refl, ap, String, none, some, List, [], ◌∷◌, arith, string_eq, eq_iff, In,
}
use auto_model_router.Prelude.Dict
use auto_model_router.Prelude.Dict.{Dict, get-insert}
use auto_model_router.Catalog
use auto_model_router.Catalog.{ModelInfo, Catalog, insert_all, of_list, values, item}

module _ {F : Type 0} where
  -- Every key is its model's name, and no key stands twice.
  abbrev pub IsKeyed : Catalog F → Type 0
  IsKeyed [] = Unit
  IsKeyed ((k, m) ∷ c) = (k ≡ m.name) × (Dict.get k c ≡ none) × IsKeyed c

  insert-IsKeyed : (m : ModelInfo F) (c : Catalog F) → IsKeyed c → IsKeyed (Dict.insert m.name m c)
  unfolding Dict.insert Dict.get
  insert-IsKeyed m [] h = (refl, refl, tt)
  insert-IsKeyed m ((k, w) ∷ c) (e, new, rest) =
      ground
        (arith, eq_iff k m.name, eq_iff m.name k, get-insert m.name k m c, insert-IsKeyed m c rest)

  insert_all-IsKeyed :
      (c : Catalog F) (ms : List (ModelInfo F)) → IsKeyed c → IsKeyed (insert_all c ms)
  unfolding insert_all
  insert_all-IsKeyed c [] h = h
  insert_all-IsKeyed c (m ∷ ms) h =
      insert_all-IsKeyed (Dict.insert m.name m c) ms (insert-IsKeyed m c h)

  pub of_list-IsKeyed : (ms : List (ModelInfo F)) → IsKeyed (of_list ms)
  unfolding of_list
  of_list-IsKeyed ms = insert_all-IsKeyed [] ms tt

  -- In such a catalog a listed model is the one that its name finds.
  pub item-values :
      (c : Catalog F) (m : ModelInfo F) → IsKeyed c → In m (values c) → item c m.name ≡ some m
  unfolding Dict.get
  item-values [] m h i = absurd i
  item-values ((k, w) ∷ c) m (e, new, rest) (inl q) =
      ground (arith, eq_iff k m.name, ap (λ (x : ModelInfo F). x.name) q)
  item-values ((k, w) ∷ c) m (e, new, rest) (inr i) =
      ground (arith, eq_iff k m.name, item-values c m rest i)

  -- What a name finds is a model of that name.
  pub item-named :
      (c : Catalog F) (name : String) {m : ModelInfo F}
      → IsKeyed c
      → item c name ≡ some m
      → m.name ≡ name
  unfolding Dict.get
  item-named [] name h e = cc
  item-named ((k, w) ∷ c) name {m} (e, new, rest) h =
      ground (arith, eq_iff k name, item-named c name {m = m} rest)

  pub get-named :
      (c : Catalog F) (name : String) {m : ModelInfo F}
      → IsKeyed c
      → Catalog.get c (some name) ≡ some m
      → m.name ≡ name
  unfolding Catalog.get
  get-named c name {m} keyed h = ground (arith, item-named c name {m = m} keyed)

  pub get-item :
      (c : Catalog F) (name : String) {m : ModelInfo F}
      → Catalog.get c (some name) ≡ some m
      → item c name ≡ some m
  unfolding Catalog.get
  get-item c name h = ground arith
