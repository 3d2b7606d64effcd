-- ===== src/OutcomeMemory/Window.antt =====
-- The bounded deques of auto_router/outcome_memory.py against the whole history of outcomes.
use mathlib.Core.List.{append-nil, append_assoc}
use mathlib.Core.Path.{ap₂}
use auto_model_router.Prelude.{
  ℕ, zero, suc, ◌+◌, ◌-◌, ◌≤◌, ◌≡◌, refl, sym, ap, ◌∙◌, String, Bool, false, ◌&&◌, Option, none,
  some, List, [], ◌∷◌, ◌++◌, arith, string_eq, pair_eq, ◌==◌, if◌then◌else◌, length, drop,
  length-snoc, length-drop, str_eq, eq_iff, Bool-cases, inl, inr,
}
use auto_model_router.Prelude.Dict
use auto_model_router.Prelude.Dict.{Dict, get-insert}
use auto_model_router.OutcomeMemory.{
  OutcomeKey, bucket_eq, bucket_beq_iff, AvoidanceRule, Seen, OutcomeMemory, is_counted, push, last,
  entries_at, record_outcome,
}

module _ {A : Type 0} where
  drop-snoc :
      (n : ℕ) (xs : List A) (a : A)
      → n ≤ length xs
      → drop n (xs ++ (a ∷ [])) ≡ drop n xs ++ (a ∷ [])
  drop-snoc zero xs a h = refl
  drop-snoc (suc n) [] a h = absurd (omega arith)
  drop-snoc (suc n) (x ∷ xs) a h = drop-snoc n xs a (omega arith)

  drop-nil : (n : ℕ) → drop {A = A} n [] ≡ []
  drop-nil zero = refl
  drop-nil (suc n) = refl

  drop-drop : (m n : ℕ) (xs : List A) → drop m (drop n xs) ≡ drop (n + m) xs
  drop-drop m zero xs = let e : m ≡ 0 + m = omega arith in ap (λ k. drop k xs) e
  drop-drop m (suc n) [] = drop-nil m ∙ sym (drop-nil (suc n + m))
  drop-drop m (suc n) (x ∷ xs) =
      let e : suc (n + m) ≡ suc n + m = omega arith in
      drop-drop m n xs ∙ ap (λ k. drop k (x ∷ xs)) e

  -- Appending to the kept part keeps the same as appending to the whole.
  push-last : (n : ℕ) (xs : List A) (a : A) → push n (last n xs) a ≡ last n (xs ++ (a ∷ []))
  unfolding push
  push-last n xs a =
      let k = length xs - n in
      let ys : List A = xs ++ (a ∷ []) in
      let count : k + (length (drop k ys) - n) ≡ length ys - n =
        omega (arith, length-drop k ys, length-snoc xs a) in
      rw (← drop-snoc k xs a (omega arith))
        (drop-drop (length (drop k ys) - n) k ys ∙ ap (λ j. drop j ys) count)

-- An outcome as `record` is given it.
pub record Outcome (F : Type 0) : Type 0 where
  pub model : String
  pub key : Option OutcomeKey
  pub status : String
  pub at : F

abbrev pub same_key : OutcomeKey → Option OutcomeKey → Bool
same_key key none = false
same_key key (some k) = k == key

abbrev pub concerns : String → OutcomeKey → String → Option OutcomeKey → String → Bool
concerns model key m k status = str_eq m model && same_key key k && is_counted status

module _ {F : Type 0} where
  pub remember : OutcomeMemory F → List (Outcome F) → OutcomeMemory F
  remember memory [] = memory
  remember memory (o ∷ os) = remember (record_outcome memory o.model o.key o.status o.at).0 os

  abbrev pub cold : AvoidanceRule F → OutcomeMemory F
  cold rule = record { rule = rule; seen = [] }

  -- The counted outcomes of one route on one key, in order.
  abbrev pub history : String → OutcomeKey → List (Outcome F) → List (Seen F)
  history model key [] = []
  history model key (o ∷ os) =
      if concerns model key o.model o.key o.status
      then (o.at, o.status) ∷ history model key os
      else history model key os

  entries-record_outcome :
      (memory : OutcomeMemory F) (m : String) (k : Option OutcomeKey) (status : String) (at : F)
      (model : String) (key : OutcomeKey)
      → entries_at (record_outcome memory m k status at).0 model key ≡ (
          if concerns model key m k status
          then push memory.rule.window (entries_at memory model key) (at, status)
          else entries_at memory model key)
  unfolding record_outcome
  entries-record_outcome memory m none status at model key = ground arith
  entries-record_outcome memory m (some (c, b)) status at model (c', b') = ground (
    arith,
    get-insert (m, (c, b)) (model, (c', b'))
        (push memory.rule.window (entries_at memory m (c, b)) (at, status)) memory.seen,
    eq_iff m model,
    eq_iff c c',
    bucket_beq_iff b b',
  )

  rule-record_outcome :
      (memory : OutcomeMemory F) (m : String) (k : Option OutcomeKey) (status : String) (at : F)
      → (record_outcome memory m k status at).0.rule ≡ memory.rule
  unfolding record_outcome
  rule-record_outcome memory m none status at = refl
  rule-record_outcome memory m (some k) status at = ground arith

  entries-remember :
      (memory : OutcomeMemory F) (os : List (Outcome F)) (w : ℕ) (model : String) (key : OutcomeKey)
      (before : List (Seen F))
      → memory.rule.window ≡ w
      → entries_at memory model key ≡ last w before
      → entries_at (remember memory os) model key ≡ last w (before ++ history model key os)
  unfolding remember
  entries-remember memory [] w model key before r h = rw append-nil h
  entries-remember memory (o ∷ os) w model key before r h =
      let next = (record_outcome memory o.model o.key o.status o.at).0 in
      let step = entries-record_outcome memory o.model o.key o.status o.at model key in
      let r' : next.rule.window ≡ w =
        ap (λ (x : AvoidanceRule F). x.window)
          (rule-record_outcome memory o.model o.key o.status o.at)
        ∙ r in
      let added : List (Seen F) = before ++ ((o.at, o.status) ∷ []) in
      let pushed : push memory.rule.window (entries_at memory model key) (o.at, o.status)
          ≡ last w added =
        ap₂ (λ n es. push n es (o.at, o.status)) r h ∙ push-last w before (o.at, o.status) in
      elim (Bool-cases (concerns model key o.model o.key o.status)) [
        | inl e ↦ rw e (
            entries-remember next os w model key added r' ((rw e at step) ∙ pushed)
            ∙ ap (last w) (append_assoc before ((o.at, o.status) ∷ []) (history model key os)))
        | inr e ↦ rw e (entries-remember next os w model key before r' ((rw e at step) ∙ h))
      ]

  -- After any outcomes a cold memory holds, for each route and key, exactly the last `window` of its
  -- counted outcomes, in order.
  pub entries-history :
      (rule : AvoidanceRule F) (os : List (Outcome F)) (model : String) (key : OutcomeKey)
      → entries_at (remember (cold rule) os) model key ≡ last rule.window (history model key os)
  unfolding Dict.get
  entries-history rule os model key =
      entries-remember (cold rule) os rule.window model key [] refl
        (sym (drop-nil (0 - rule.window)))
