-- ===== src/Prelude/Lists.antt =====
-- Lists measured by native numbers, and the list loops that the components share.
use Prim.Native.Nat.{ℕ, zero, suc, ◌-◌}
use mathlib.Core.Path.{◌≡◌, refl, ap}
use mathlib.Core.Logic.{◌⊎◌, ◌≢◌, inl, inr}
use mathlib.Core.Bool.{Bool, true, false, ◌||◌}
use mathlib.Core.List.{List, [], ◌∷◌, ◌++◌, map}
use mathlib.Core.Option.{Option, none, some}
use native.Mathlib.Omega.{arith}
use auto_model_router.Prelude.Tests.{Bool-cases, if◌then◌else◌}

module _ {ℓ} {A : Type ℓ} where
  abbrev pub length : List A → ℕ
  length [] = 0
  length (x ∷ xs) = suc (length xs)

  abbrev pub get_elem? : List A → ℕ → Option A
  get_elem? [] i = none
  get_elem? (x ∷ xs) zero = some x
  get_elem? (x ∷ xs) (suc i) = get_elem? xs i

  abbrev pub take : ℕ → List A → List A
  take zero xs = []
  take (suc n) [] = []
  take (suc n) (x ∷ xs) = x ∷ take n xs

  abbrev pub drop : ℕ → List A → List A
  drop zero xs = xs
  drop (suc n) [] = []
  drop (suc n) (x ∷ xs) = drop n xs

  -- A comprehension's test.
  abbrev pub keep : (A → Bool) → List A → List A
  keep p [] = []
  keep p (x ∷ xs) = if p x then x ∷ keep p xs else keep p xs

  abbrev pub any : (A → Bool) → List A → Bool
  any p [] = false
  any p (x ∷ xs) = p x || any p xs

  -- `next((x for x in xs if p(x)), None)`
  abbrev pub first : (A → Bool) → List A → Option A
  first p [] = none
  first p (x ∷ xs) = if p x then some x else first p xs

  abbrev pub last? : List A → Option A
  last? [] = none
  last? (x ∷ []) = some x
  last? (x ∷ (y ∷ ys)) = last? (y ∷ ys)

  abbrev pub All {κ} : (A → Type κ) → List A → Type κ
  All P [] = Unit
  All P (x ∷ xs) = P x × All P xs

module _ {A : Type 0} where
  pub length-snoc : (xs : List A) (a : A) → length (xs ++ (a ∷ [])) ≡ suc (length xs)
  length-snoc [] a = refl
  length-snoc (x ∷ xs) a = ap suc (length-snoc xs a)

  pub length-drop : (n : ℕ) (xs : List A) → length (drop n xs) ≡ length xs - n
  length-drop zero xs = omega arith
  length-drop (suc n) [] = omega arith
  length-drop (suc n) (x ∷ xs) = omega (arith, length-drop n xs)

module _ {A : Type 0} where
  -- Membership with the place kept.
  abbrev pub In : A → List A → Type 0
  In a [] = ⊥
  In a (x ∷ xs) = (a ≡ x) ⊎ In a xs

  pub In-keep : (p : A → Bool) (a : A) (xs : List A) → In a (keep p xs) → In a xs × (p a ≡ true)
  In-keep p a [] h = absurd h
  In-keep p a (x ∷ xs) h = ground (arith, In-keep p a xs)

  pub keep-In : (p : A → Bool) (a : A) (xs : List A) → In a xs → p a ≡ true → In a (keep p xs)
  keep-In p a [] h t = absurd h
  keep-In p a (x ∷ xs) h t = ground (arith, keep-In p a xs)

  pub first-In : (p : A → Bool) (xs : List A) {a : A} → first p xs ≡ some a → In a xs × (p a ≡ true)
  first-In p [] h = cc
  first-In p (x ∷ xs) {a} h = ground (arith, first-In p xs {a = a})

  pub any-In : (p : A → Bool) (a : A) (xs : List A) → In a xs → p a ≡ true → any p xs ≡ true
  any-In p a [] h t = absurd h
  any-In p a (x ∷ xs) h t = ground (arith, any-In p a xs)

  -- `min(xs, key=…)` and `max(xs, key=…)`: the first element that no later one is better than.
  abbrev pub best_from : (A → A → Bool) → A → List A → A
  best_from better cur [] = cur
  best_from better cur (x ∷ xs) = best_from better (if better x cur then x else cur) xs

  abbrev pub best : (A → A → Bool) → List A → Option A
  best better [] = none
  best better (x ∷ xs) = some (best_from better x xs)

  pub best_from-In :
      (better : A → A → Bool) (cur : A) (xs : List A) → In (best_from better cur xs) (cur ∷ xs)
  best_from-In better cur [] = inl refl
  best_from-In better cur (x ∷ xs) =
      ground (arith, best_from-In better x xs, best_from-In better cur xs)

  pub best-In : (better : A → A → Bool) (xs : List A) {b : A} → best better xs ≡ some b → In b xs
  best-In better [] h = cc
  best-In better (x ∷ xs) h = ground (arith, best_from-In better x xs)

  -- `sorted(xs, key=…)`, which is stable.
  abbrev pub insert_by : (A → A → Bool) → A → List A → List A
  insert_by less x [] = x ∷ []
  insert_by less x (y ∷ ys) = if less y x then y ∷ insert_by less x ys else x ∷ y ∷ ys

  abbrev pub sort_by : (A → A → Bool) → List A → List A
  sort_by less [] = []
  sort_by less (x ∷ xs) = insert_by less x (sort_by less xs)

  insert_by-In :
      (less : A → A → Bool) (x a : A) (ys : List A) → In a (insert_by less x ys) → (a ≡ x) ⊎ In a ys
  insert_by-In less x a [] h = h
  insert_by-In less x a (y ∷ ys) h = ground (arith, insert_by-In less x a ys)

  In-insert_by :
      (less : A → A → Bool) (x a : A) (ys : List A) → (a ≡ x) ⊎ In a ys → In a (insert_by less x ys)
  In-insert_by less x a [] h = h
  In-insert_by less x a (y ∷ ys) h = ground (arith, In-insert_by less x a ys)

  pub sort_by-In : (less : A → A → Bool) (a : A) (xs : List A) → In a (sort_by less xs) → In a xs
  sort_by-In less a [] h = h
  sort_by-In less a (x ∷ xs) h =
      ground (arith, insert_by-In less x a (sort_by less xs), sort_by-In less a xs)

  pub In-sort_by : (less : A → A → Bool) (a : A) (xs : List A) → In a xs → In a (sort_by less xs)
  In-sort_by less a [] h = h
  In-sort_by less a (x ∷ xs) h =
      ground (arith, In-insert_by less x a (sort_by less xs), In-sort_by less a xs)

  -- A strict preference whose complement is transitive, as a comparison of keys is.
  pub record IsPreference (better : A → A → Bool) : Type 0 where
    pub asym : (x y : A) → better x y ≡ true → better y x ≡ false
    pub trans : (x y z : A) → better x y ≡ false → better y z ≡ false → better x z ≡ false

  module _ {better : A → A → Bool} (pref : IsPreference better) where
    irrefl : (x : A) → better x x ≡ false
    irrefl x = ground (arith, pref.asym x x)

    pub best_from_best :
        (cur : A) (xs : List A) (y : A)
        → In y (cur ∷ xs)
        → better y (best_from better cur xs) ≡ false
    best_from_best cur [] y h = ground (arith, irrefl cur)
    best_from_best cur (x ∷ xs) y h = ground (
      arith,
      best_from_best x xs x,
      best_from_best x xs y,
      best_from_best cur xs cur,
      best_from_best cur xs y,
      pref.asym x cur,
      pref.trans cur x (best_from better x xs),
      pref.trans x cur (best_from better cur xs),
    )

    -- Nothing in the list is better than the element chosen.
    pub best-best :
        (xs : List A) {b : A} (y : A) → best better xs ≡ some b → In y xs → better y b ≡ false
    best-best [] y h i = absurd i
    best-best (x ∷ xs) y h i = ground (arith, best_from_best x xs y)

    pub best_some : (xs : List A) (y : A) → In y xs → best better xs ≢ none
    best_some [] y i = absurd i
    best_some (x ∷ xs) y i = cc

    -- The first of the sorted list is no worse than any other.
    abbrev pub IsLeast : List A → Type 0
    IsLeast [] = Unit
    IsLeast (b ∷ bs) = (y : A) → In y (b ∷ bs) → better y b ≡ false

    insert_by-IsLeast : (x : A) (ys : List A) → IsLeast ys → IsLeast (insert_by better x ys)
    insert_by-IsLeast x [] h = λ y i. ground (arith, irrefl x)
    insert_by-IsLeast x (z ∷ ys) h = elim (Bool-cases (better z x)) [
      | inl e ↦
          rw e (λ y i. ground (arith, insert_by-In better x y ys, pref.asym z x, irrefl z, h y))
      | inr e ↦ rw e (λ y i. ground (arith, irrefl x, h y, pref.trans y z x))
    ]

    pub sort_by-IsLeast : (xs : List A) → IsLeast (sort_by better xs)
    sort_by-IsLeast [] = tt
    sort_by-IsLeast (x ∷ xs) = insert_by-IsLeast x (sort_by better xs) (sort_by-IsLeast xs)

module _ {A B : Type 0} where
  pub In-map : (f : A → B) (b : B) (xs : List A) → In b (map f xs) → (a : A) × In a xs × (b ≡ f a)
  In-map f b [] h = absurd h
  In-map f b (x ∷ xs) (inl e) = (x, inl refl, e)
  In-map f b (x ∷ xs) (inr i) = let (a, j, e) = In-map f b xs i in (a, inr j, e)

  pub map-In : (f : A → B) (a : A) (xs : List A) → In a xs → In (f a) (map f xs)
  map-In f a [] h = absurd h
  map-In f a (x ∷ xs) (inl e) = inl (ap f e)
  map-In f a (x ∷ xs) (inr i) = inr (map-In f a xs i)
