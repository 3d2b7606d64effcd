-- ===== src/Prelude/Dict.antt =====
-- Python's `dict` as an association list in insertion order: a write to a key that is there keeps
-- its place, and a new key goes to the end.
use mathlib.Core.Path.{◌≡◌}
use mathlib.Core.Bool.{Bool}
use mathlib.Core.Option.{Option, none, some}
use mathlib.Core.List.{List, [], ◌∷◌}
use native.Mathlib.Omega.{arith}
use auto_model_router.Prelude.Tests.{Eq, ◌==◌, if◌then◌else◌}

abbrev pub Dict : Type 0 → Type 0 → Type 0
Dict K V = List (K × V)

module _ {K V : Type 0} ⦃e : Eq K⦄ where
  unfoldable pub get : K → Dict K V → Option V
  get k [] = none
  get k ((j, v) ∷ d) = if j == k then some v else get k d

  unfoldable pub insert : K → V → Dict K V → Dict K V
  insert k v [] = (k, v) ∷ []
  insert k v ((j, w) ∷ d) = if j == k then (j, v) ∷ d else (j, w) ∷ insert k v d

  pub get-insert :
      (k j : K) (v : V) (d : Dict K V) → get j (insert k v d) ≡ (if k == j then some v else get j d)
  unfolding get insert
  get-insert k j v [] = ground arith
  get-insert k j v ((i, w) ∷ d) =
      ground (arith, e.same_iff k j, e.same_iff i k, e.same_iff i j, get-insert k j v d)

  pub get-insert_same : (k : K) (v : V) (d : Dict K V) → get k (insert k v d) ≡ some v
  get-insert_same k v d = ground (arith, e.same_iff k k, get-insert k k v d)

  -- `del` of each key that the test picks
  unfoldable pub remove_if : (K → V → Bool) → Dict K V → Dict K V
  remove_if p [] = []
  remove_if p ((j, w) ∷ d) = if p j w then remove_if p d else (j, w) ∷ remove_if p d
