-- ===== src/Catalog.antt =====
-- auto_router/catalog.py: prices, cache rules, the model record and the catalog.
-- The provenance fields `evidence` and `runner` hold dictionaries that no modelled code reads, and
-- are left out. The loaders of the benchmark data are elsewhere (bench.py, config.py).
pub mod Eligible
pub mod Keyed
pub mod Listed
use auto_model_router.Prelude.{
  ℕ, zero, String, Bool, true, false, not, ◌&&◌, ◌||◌, Option, none, some, List, [], ◌∷◌, string_eq,
  str_eq, nat_beq, if◌then◌else◌, is_some, keep, any,
}
use auto_model_router.Prelude.Float.{Float, lit, decimal, ◌⊕◌, ◌⊖◌, ◌⊗◌, ◌≤?◌, ◌<?◌, ◌=?◌, fmax}
use auto_model_router.Prelude.Dict
use auto_model_router.Prelude.Dict.{Dict}

-- USD per million tokens.
pub record Prices (F : Type 0) : Type 0 where
  pub input : F
  pub output : F
  pub cache_read : Option F
  pub cache_write : Option F

abbrev pub or_else {ℓ} : {A : Type ℓ} → Option A → A → A
or_else none a = a
or_else (some x) a = x

-- Python's test of a text that may be `None`.
abbrev pub truthy : Option String → Bool
truthy none = false
truthy (some s) = not (str_eq s "")

-- `d.get(k) == s`
abbrev pub equals : Option String → String → Bool
equals none s = false
equals (some t) s = str_eq t s

module _ {F : Type 0} where
  abbrev pub read : Prices F → F
  read p = or_else p.cache_read p.input

  abbrev pub write : Prices F → F
  write p = or_else p.cache_write p.input

pub record CacheRules (F : Type 0) : Type 0 where
  pub ttl_seconds : ℕ
  pub min_tokens : ℕ
  pub refresh_on_hit : Bool
  pub hit_rate : F

pub record ModelInfo (F : Type 0) : Type 0 where
  pub name : String
  pub provider : String
  pub upstream_id : String
  pub prices : Prices F
  pub cache : CacheRules F
  pub context_tokens : ℕ
  pub max_output_tokens : ℕ
  pub vision : Bool
  pub tools : Bool
  pub capability : Dict String F
  pub benchmaxxing : F
  pub subscription : Option String
  pub capability_source : String
  pub capability_basis : Dict String String
  pub capability_strength : Dict String String
  pub evidence_stale : Bool
  pub bench_id : Option String
  pub latency_s : F
  pub success_key : Option String
  pub launch_only : Bool
  pub intelligence_index : Option F
  pub task_tokens : Option F
  pub output_appetite : F
  pub capability_assumed_from : Option String
  pub local : Bool

abbrev pub config_override : String
config_override = "config override"

module _ {F : Type 0} where
  unfoldable pub measurement_key : ModelInfo F → String
  measurement_key m = if truthy m.success_key then or_else m.success_key m.name else m.name

  unfoldable pub evidence_strength : ModelInfo F → String → String
  evidence_strength m category =
      if not (is_some (Dict.get category m.capability))
      then "none"
      else if equals (Dict.get category m.capability_basis) config_override
      then or_else (Dict.get category m.capability_strength) "direct"
      else if m.evidence_stale
      then (if equals (Dict.get category m.capability_strength) "direct" then "weak" else "none")
      else or_else (Dict.get category m.capability_strength) "derived"

module _ {F : Type 0} ⦃fl : Float F⦄ where
  unfoldable pub is_free : Prices F → Bool
  is_free p = p.input =? lit 0 && p.output =? lit 0

  abbrev pub free : Prices F
  free = record {
    input = lit 0;
    output = lit 0;
    cache_read = some (lit 0);
    cache_write = some (lit 0);
  }

  abbrev pub evidence_weight : Dict String F
  evidence_weight =
      ("direct", lit 1) ∷ ("derived", decimal 6 1) ∷ ("weak", decimal 4 1) ∷ ("none", lit 0) ∷ []

  unfoldable pub cap_with : ModelInfo F → String → F → F → F → F
  cap_with m category benchmaxxing_weight evidence_discount neutral =
      let base : F =
        or_else (Dict.get category m.capability)
          (or_else (Dict.get "general" m.capability) neutral) in
      let score : F = base ⊖ benchmaxxing_weight ⊗ fmax (lit 0) m.benchmaxxing in
      let weight : F = or_else (Dict.get (evidence_strength m category) evidence_weight) (lit 0) in
      let shrink : F = evidence_discount ⊗ (lit 1 ⊖ weight) in
      if lit 0 <? evidence_discount then score ⊗ (lit 1 ⊖ shrink) ⊕ neutral ⊗ shrink else score

  -- `m.cap(category)` with the default arguments.
  unfoldable pub cap : ModelInfo F → String → F
  cap m category = cap_with m category (decimal 5 1) (lit 0) (lit 50)

-- The catalog is the dictionary from names to models, in the order of insertion.
abbrev pub Catalog : Type 0 → Type 0
Catalog F = Dict String (ModelInfo F)

module _ {F : Type 0} where
  insert_all : Catalog F → List (ModelInfo F) → Catalog F
  insert_all c [] = c
  insert_all c (m ∷ ms) = insert_all (Dict.insert m.name m c) ms

  unfoldable pub of_list : List (ModelInfo F) → Catalog F
  unfolding insert_all
  of_list ms = insert_all [] ms

  -- `catalog[name]`: `none` is the `KeyError`.
  abbrev pub item : Catalog F → String → Option (ModelInfo F)
  item c name = Dict.get name c

  abbrev pub contains : Catalog F → String → Bool
  contains c name = is_some (Dict.get name c)

  -- `catalog.get(name)`, where an absent or an empty name finds nothing.
  unfoldable pub get : Catalog F → Option String → Option (ModelInfo F)
  get c none = none
  get c (some name) = if str_eq name "" then none else Dict.get name c

  -- `catalog.all()`
  abbrev pub values : Catalog F → List (ModelInfo F)
  values [] = []
  values ((k, m) ∷ c) = m ∷ values c

  unfoldable pub http_routable : Catalog F → List (ModelInfo F)
  http_routable c = keep (λ m. not m.launch_only) (values c)

module _ {F : Type 0} ⦃fl : Float F⦄ where
  -- The body of the loop of `eligible`, each `continue` a conjunct.
  unfoldable pub passes : Bool → Bool → ℕ → List String → ModelInfo F → Bool
  passes needs_vision needs_tools prompt_tokens exclude m =
      let room : F = lit m.context_tokens ⊗ decimal 9 1 in
      not (any (λ n. str_eq n m.name) exclude)
      && not (needs_vision && not m.vision)
      && not (needs_tools && not m.tools)
      && not (not (nat_beq prompt_tokens 0) && room <? lit prompt_tokens)

  unfoldable pub eligible : Catalog F → Bool → Bool → ℕ → List String → List (ModelInfo F)
  eligible c needs_vision needs_tools prompt_tokens exclude =
      keep (passes needs_vision needs_tools prompt_tokens exclude) (values c)
