-- ===== src/OutcomeMemory.antt =====
-- auto_router/outcome_memory.py: what earlier attempts on comparable requests did. `from_config`,
-- the texts of `label` and `basis`, and `stats` are not modelled.
pub mod Window
pub mod Avoidance
use auto_model_router.Prelude.{
  ℕ, ◌-◌, ◌≡◌, ◌↔◌, arith, String, Bool, true, false, not, ◌&&◌, ◌||◌, Option, none, some, List, [],
  ◌∷◌, ◌++◌, Eq, string_eq, pair_eq, str_eq, leb, ltb, if◌then◌else◌, keep, length, drop,
}
use auto_model_router.Prelude.Float.{Float, lit, ◌⊖◌, ◌⊘◌, ◌≤?◌}
use auto_model_router.Prelude.Dict
use auto_model_router.Prelude.Dict.{Dict}
use auto_model_router.Prelude.Json.{Json, int}
use auto_model_router.Catalog.{or_else}

module _ {F : Type 0} where
  -- Only a positive `int` is a budget; a `bool`, a float, a text, zero and a negative number are not.
  unfoldable pub explicit_budget : Json F → Option ℕ
  explicit_budget (int n) = if ltb 0 n then some n else none
  explicit_budget _ = none

-- The labels of `budget_bucket`.
pub data Bucket : Type 0 where
  default up_to_1024 up_to_4096 up_to_16384 up_to_65536 above_65536 : Bucket

abbrev pub bucket_beq : Bucket → Bucket → Bool
bucket_beq default default = true
bucket_beq up_to_1024 up_to_1024 = true
bucket_beq up_to_4096 up_to_4096 = true
bucket_beq up_to_16384 up_to_16384 = true
bucket_beq up_to_65536 up_to_65536 = true
bucket_beq above_65536 above_65536 = true
bucket_beq _ _ = false

pub bucket_beq_iff : (a b : Bucket) → (bucket_beq a b ≡ true) ↔ (a ≡ b)
bucket_beq_iff a b = ground arith

instance abbrev pub bucket_eq : Eq Bucket
bucket_eq = record { same = bucket_beq; same_iff = bucket_beq_iff }

abbrev pub bucket_of : ℕ → Bucket
bucket_of n =
    if leb n 1024
    then up_to_1024
    else if leb n 4096
    then up_to_4096
    else if leb n 16384
    then up_to_16384
    else if leb n 65536
    then up_to_65536
    else above_65536

module _ {F : Type 0} where
  unfoldable pub budget_bucket : Json F → Bucket
  unfolding explicit_budget
  budget_bucket max_tokens = elim (explicit_budget max_tokens) [
    | none ↦ default
    | some n ↦ bucket_of n
  ]

-- OutcomeKey: the category and the budget's bucket.
abbrev pub OutcomeKey : Type 0
OutcomeKey = String × Bucket

pub record AvoidanceRule (F : Type 0) : Type 0 where
  pub enabled : Bool
  pub min_truncations : ℕ
  pub min_rate : F
  pub window : ℕ
  pub ttl_s : F

pub record RouteRecord (F : Type 0) : Type 0 where
  pub model : String
  pub key : OutcomeKey
  pub observed : ℕ
  pub truncated : ℕ
  pub window : ℕ
  pub ttl_s : F

-- An observed outcome: when, and the status.
abbrev pub Seen : Type 0 → Type 0
Seen F = F × String

pub record OutcomeMemory (F : Type 0) : Type 0 where
  pub rule : AvoidanceRule F
  pub seen : Dict (String × OutcomeKey) (List (Seen F))

-- `status in COUNTED_STATUSES`
abbrev pub is_counted : String → Bool
is_counted status = str_eq status "ok" || str_eq status "truncated"

-- `deque(maxlen=window).append`: a full deque drops its oldest entry. `last n` is `xs[-n:]`.
module _ {A : Type 0} where
  abbrev pub last : ℕ → List A → List A
  last n xs = drop (length xs - n) xs

  unfoldable pub push : ℕ → List A → A → List A
  push window entries a = last window (entries ++ (a ∷ []))

module _ {F : Type 0} where
  abbrev pub entries_at : OutcomeMemory F → String → OutcomeKey → List (Seen F)
  entries_at memory model key = or_else (Dict.get (model, key) memory.seen) []

  -- `record`: the new memory, and whether the outcome was counted.
  unfoldable pub record_outcome :
      OutcomeMemory F → String → Option OutcomeKey → String → F → OutcomeMemory F × Bool
  record_outcome memory model none status now = (memory, false)
  record_outcome memory model (some key) status now =
      if is_counted status
      then (
        record memory {
          seen =
              Dict.insert (model, key)
                (push memory.rule.window (entries_at memory model key) (now, status)) memory.seen;
        },
        true,
      )
      else (memory, false)

module _ {F : Type 0} ⦃fl : Float F⦄ where
  unfoldable pub rate : RouteRecord F → F
  rate r = if ltb 0 r.observed then lit r.truncated ⊘ lit r.observed else lit 0

  abbrev pub is_recent : F → F → Seen F → Bool
  is_recent now ttl_s e = (now ⊖ e.0) ≤? ttl_s

  abbrev pub is_truncated : Seen F → Bool
  is_truncated e = str_eq e.1 "truncated"

  abbrev pub recent : OutcomeMemory F → String → OutcomeKey → F → List (Seen F)
  recent memory model key now = keep (is_recent now memory.rule.ttl_s) (entries_at memory model key)

  abbrev pub counts : OutcomeMemory F → String → OutcomeKey → List (Seen F) → Option (RouteRecord F)
  counts memory model key [] = none
  counts memory model key (e ∷ es) = some (record {
    model = model;
    key = key;
    observed = length (e ∷ es);
    truncated = length (keep is_truncated (e ∷ es));
    window = memory.rule.window;
    ttl_s = memory.rule.ttl_s;
  })

  unfoldable pub evidence :
      OutcomeMemory F → String → Option OutcomeKey → F → Option (RouteRecord F)
  evidence memory model none now = none
  evidence memory model (some key) now = counts memory model key (recent memory model key now)

  abbrev pub meets : AvoidanceRule F → RouteRecord F → Bool
  meets rule r = leb rule.min_truncations r.truncated && rule.min_rate ≤? rate r

  abbrev pub if_meets : AvoidanceRule F → Option (RouteRecord F) → Option (RouteRecord F)
  if_meets rule none = none
  if_meets rule (some r) = if meets rule r then some r else none

  unfoldable pub should_avoid :
      OutcomeMemory F → String → Option OutcomeKey → F → Option (RouteRecord F)
  should_avoid memory model key now =
      if memory.rule.enabled then if_meets memory.rule (evidence memory model key now) else none
