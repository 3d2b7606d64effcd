-- ===== src/Catalog/Eligible.antt =====
-- What `Catalog.__init__`, `get` and `eligible` of auto_router/catalog.py promise.
use auto_model_router.Prelude.{
  ℕ, ◌≢◌, ◌≡◌, ◌↔◌, refl, String, Bool, true, false, Option, none, some, List, [], ◌∷◌, arith,
  string_eq, str_eq, eq_iff, if◌then◌else◌, any, In, In-keep, keep-In, any-In,
}
use auto_model_router.Prelude.Float.{Float, lit, decimal, ◌<?◌}
use auto_model_router.Prelude.Dict
use auto_model_router.Prelude.Dict.{Dict, get-insert}
use auto_model_router.Catalog.{
  ModelInfo, Catalog, insert_all, of_list, get, values, passes, eligible,
}

module _ {F : Type 0} where
  -- The last model of the list that bears the name.
  abbrev pub last_named : String → Option (ModelInfo F) → List (ModelInfo F) → Option (ModelInfo F)
  last_named name found [] = found
  last_named name found (m ∷ ms) = last_named name (if str_eq m.name name then some m else found) ms

  get-insert_all :
      (name : String) (c : Catalog F) (ms : List (ModelInfo F))
      → Dict.get name (insert_all c ms) ≡ last_named name (Dict.get name c) ms
  unfolding insert_all
  get-insert_all name c [] = refl
  get-insert_all name c (m ∷ ms) =
      ground (arith, get-insert_all name (Dict.insert m.name m c) ms, get-insert m.name name m c)

  -- A catalog built from a list finds, under a name that is not empty, the last model of that name,
  -- and nothing under a name that no model bears.
  pub get-of_list :
      (ms : List (ModelInfo F)) (name : String)
      → str_eq name "" ≡ false
      → get (of_list ms) (some name) ≡ last_named name none ms
  unfolding of_list get Dict.get
  get-of_list ms name h = rw h (get-insert_all name [] ms)

any_name : (name : String) (xs : List String) → any (λ n. str_eq n name) xs ≡ true → In name xs
any_name name [] h = cc
any_name name (x ∷ xs) h = ground (arith, eq_iff x name, any_name name xs)

In-name : (name : String) (xs : List String) → In name xs → any (λ n. str_eq n name) xs ≡ true
In-name name xs i = any-In (λ n. str_eq n name) name xs i ((eq_iff name name).1 refl)

module _ {F : Type 0} ⦃fl : Float F⦄ where
  -- What a request asks of a model.
  pub record Suits (needs_vision needs_tools : Bool) (prompt : ℕ) (exclude : List String)
      (m : ModelInfo F) : Type 0 where
    pub not_excluded : ¬ In m.name exclude
    pub sees : needs_vision ≡ true → m.vision ≡ true
    pub calls_tools : needs_tools ≡ true → m.tools ≡ true
    pub fits : prompt ≢ 0 → ((fl.mul (lit m.context_tokens) (decimal 9 1)) <? lit prompt) ≡ false

  passes-Suits :
      (v t : Bool) (n : ℕ) (ex : List String) (m : ModelInfo F)
      → passes v t n ex m ≡ true
      → Suits v t n ex m
  unfolding passes
  passes-Suits v t n ex m h = record {
    not_excluded = λ i. ground (arith, In-name m.name ex i);
    sees = λ e. ground arith;
    calls_tools = λ e. ground arith;
    fits = λ e. ground arith;
  }

  Suits-passes :
      (v t : Bool) (n : ℕ) (ex : List String) (m : ModelInfo F)
      → Suits v t n ex m
      → passes v t n ex m ≡ true
  unfolding passes
  Suits-passes v t n ex m s =
      ground (arith, any_name m.name ex, s.not_excluded, s.sees, s.calls_tools, s.fits)

  -- `eligible` keeps exactly the catalog's models that are not excluded, see and call tools where
  -- the request needs it, and have room for the prompt in nine tenths of their context.
  pub eligible_iff :
      (c : Catalog F) (v t : Bool) (n : ℕ) (ex : List String) (m : ModelInfo F)
      → In m (eligible c v t n ex) ↔ (In m (values c) × Suits v t n ex m)
  unfolding eligible
  eligible_iff c v t n ex m = (
    λ i. let (j, h) = In-keep (passes v t n ex) m (values c) i in (j, passes-Suits v t n ex m h),
    λ p. keep-In (passes v t n ex) m (values c) p.0 (Suits-passes v t n ex m p.1),
  )
