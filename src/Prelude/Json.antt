-- ===== src/Prelude/Json.antt =====
-- What `json.loads` gives: one data type of values. An integer below zero is `negative n`, for
-- -(n + 1); a dictionary holds each key once.
use Prim.Native.Nat.{ℕ}
use Prim.Native.String.{String}
use mathlib.Core.Bool.{Bool}
use mathlib.Core.Option.{Option, none, some}
use mathlib.Core.List.{List, [], ◌∷◌}
use text.Mathlib.Text.{◌==◌}
use auto_model_router.Prelude.Tests.{if◌then◌else◌}

mutual
  pub data Json (F : Type 0) : Type 0 where
    null : Json F
    bool : Bool → Json F
    int : ℕ → Json F
    negative : ℕ → Json F
    float : F → Json F
    str : String → Json F
    arr : Items F → Json F
    obj : Fields F → Json F

  pub data Items (F : Type 0) : Type 0 where
    nil : Items F
    cons : Json F → Items F → Items F

  pub data Fields (F : Type 0) : Type 0 where
    end : Fields F
    field : String → Json F → Fields F → Fields F

module _ {F : Type 0} where
  -- `d.get(k)`
  unfoldable pub lookup : String → Fields F → Option (Json F)
  lookup k end = none
  lookup k (field j v d) = if j == k then some v else lookup k d

  abbrev pub to_list : Items F → List (Json F)
  to_list nil = []
  to_list (cons x xs) = x ∷ to_list xs
