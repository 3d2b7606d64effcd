-- ===== src/Metrics/Counted.antt =====
-- How the counters of auto_router/metrics.py relate to the turns that were recorded.
use auto_model_router.Prelude.{
  ℕ, length-snoc, length-drop, ◌+◌, ◌-◌, ◌≤◌, ◌≡◌, refl, ap, ◌∙◌, String, Bool, true, false, Option,
  none, some, List, [], ◌∷◌, ◌++◌, length, string_eq, arith,
}
use auto_model_router.Prelude.Dict
use auto_model_router.Prelude.Dict.{Dict}
use auto_model_router.Prelude.Float.{Float}
use auto_model_router.Catalog.{ModelInfo, or_else, truthy}
use auto_model_router.Usage.{Usage}
use auto_model_router.Metrics.{
  Metrics, Served, increment, append_bounded, int_of, no_metrics, add_usage, record_turn,
  record_error,
}

-- The sum of a counter
abbrev pub total : Dict String ℕ → ℕ
total [] = 0
total ((key, n) ∷ d) = n + total d

total-insert :
    (key : String) (v : ℕ) (d : Dict String ℕ)
    → total (Dict.insert key v d) + or_else (Dict.get key d) 0 ≡ total d + v
unfolding Dict.insert Dict.get
total-insert key v [] = ground arith
total-insert key v ((j, n) ∷ d) = ground (arith, total-insert key v d)

total-increment : (key : String) (d : Dict String ℕ) → total (increment key d) ≡ total d + 1
unfolding increment
total-increment key d = ground (arith, total-insert key (or_else (Dict.get key d) 0 + 1) d)

length-append_bounded :
    {A : Type 0} (xs : List A) (x : A)
    → length (append_bounded xs x) ≡ (length xs + 1) - (length xs + 1 - 500)
unfolding append_bounded
length-append_bounded xs x =
    length-drop (length xs + 1 - 500) (xs ++ (x ∷ []))
    ∙ ap (λ n. n - (length xs + 1 - 500)) (length-snoc xs x ∙ omega arith)

int_of-le : (b : Bool) → int_of b ≤ 1
int_of-le true = omega arith
int_of-le false = omega arith

-- A call of one of the two methods
pub data Call (F : Type 0) : Type 0 where
  served : Served F → Call F
  failed : String → Call F

module _ {F : Type 0} where
  abbrev pub served_count : List (Call F) → ℕ
  served_count [] = 0
  served_count (served s ∷ cs) = served_count cs + 1
  served_count (failed name ∷ cs) = served_count cs

  abbrev pub failed_count : List (Call F) → ℕ
  failed_count [] = 0
  failed_count (served s ∷ cs) = failed_count cs
  failed_count (failed name ∷ cs) = failed_count cs + 1

module _ {F : Type 0} ⦃fl : Float F⦄ where
  abbrev pub run : List (Call F) → Metrics F → Metrics F
  run [] m = m
  run (served s ∷ cs) m = run cs (record_turn s m)
  run (failed name ∷ cs) m = run cs (record_error name m)

  pub record IsCounted (m : Metrics F) : Type 0 where
    pub categories : total m.by_category ≡ m.total_requests
    pub models : total m.by_model ≡ m.total_requests
    pub plan_calls : m.subscription_calls ≤ m.total_requests
    pub switched : m.switches ≤ m.total_requests
    pub saved : m.stickiness_saves ≤ m.total_requests
    pub escalated : m.escalations ≤ m.total_requests
    pub unclassified : m.classifier_failures ≤ m.total_requests
    pub timed : length m.classification_ms ≤ m.total_requests
    pub at_most_500 : length m.classification_ms ≤ 500

  add_usage-IsCounted :
      (model : ModelInfo F) (u : Option Usage) (m : Metrics F)
      → IsCounted m
      → IsCounted (add_usage model u m)
  add_usage-IsCounted model none m c = c
  add_usage-IsCounted model (some u) m c = record {
    categories = c.categories;
    models = c.models;
    plan_calls = c.plan_calls;
    switched = c.switched;
    saved = c.saved;
    escalated = c.escalated;
    unclassified = c.unclassified;
    timed = c.timed;
    at_most_500 = c.at_most_500;
  }

  record_turn-IsCounted : (s : Served F) (m : Metrics F) → IsCounted m → IsCounted (record_turn s m)
  unfolding record_turn
  record_turn-IsCounted s m c = add_usage-IsCounted s.model s.usage _ (record {
    categories = total-increment s.category m.by_category ∙ ap (λ n. n + 1) c.categories;
    models = total-increment s.model.name m.by_model ∙ ap (λ n. n + 1) c.models;
    plan_calls = ground (arith, c.plan_calls, int_of-le (truthy s.model.subscription));
    switched = ground (arith, c.switched, int_of-le s.switched);
    saved = ground (arith, c.saved, int_of-le s.stickiness_save);
    escalated = ground (arith, c.escalated, int_of-le s.escalated);
    unclassified = ground (arith, c.unclassified, int_of-le s.classifier_failed);
    timed = ground (arith, c.timed, length-append_bounded m.classification_ms s.classification_ms);
    at_most_500 =
        ground
          (arith, c.at_most_500, length-append_bounded m.classification_ms s.classification_ms);
  })

  record_error-IsCounted :
      (name : String) (m : Metrics F) → IsCounted m → IsCounted (record_error name m)
  unfolding record_error
  record_error-IsCounted name m c = record {
    categories = c.categories;
    models = c.models;
    plan_calls = c.plan_calls;
    switched = c.switched;
    saved = c.saved;
    escalated = c.escalated;
    unclassified = c.unclassified;
    timed = c.timed;
    at_most_500 = c.at_most_500;
  }

  add_usage-same :
      (model : ModelInfo F) (u : Option Usage) (m : Metrics F)
      → ((add_usage model u m).total_requests ≡ m.total_requests)
        × ((add_usage model u m).errors_by_model ≡ m.errors_by_model)
  add_usage-same model none m = (refl, refl)
  add_usage-same model (some u) m = (refl, refl)

  run-IsCounted : (cs : List (Call F)) (m : Metrics F) → IsCounted m → IsCounted (run cs m)
  run-IsCounted [] m c = c
  run-IsCounted (served s ∷ cs) m c =
      run-IsCounted cs (record_turn s m) (record_turn-IsCounted s m c)
  run-IsCounted (failed name ∷ cs) m c =
      run-IsCounted cs (record_error name m) (record_error-IsCounted name m c)

  run-served :
      (cs : List (Call F)) (m : Metrics F)
      → (run cs m).total_requests ≡ m.total_requests + served_count cs
  unfolding record_turn record_error
  run-served [] m = ground arith
  run-served (served s ∷ cs) m =
      run-served cs (record_turn s m)
      ∙ ap (λ n. n + served_count cs) (add_usage-same s.model s.usage _).0
      ∙ omega arith
  run-served (failed name ∷ cs) m = run-served cs (record_error name m)

  run-failed :
      (cs : List (Call F)) (m : Metrics F)
      → total (run cs m).errors_by_model ≡ total m.errors_by_model + failed_count cs
  unfolding record_turn record_error
  run-failed [] m = ground arith
  run-failed (served s ∷ cs) m =
      run-failed cs (record_turn s m)
      ∙ ap (λ d. total d + failed_count cs) (add_usage-same s.model s.usage _).1
  run-failed (failed name ∷ cs) m =
      run-failed cs (record_error name m)
      ∙ ap (λ n. n + failed_count cs) (total-increment name m.errors_by_model)
      ∙ omega arith

  -- After any calls of its methods, the metrics hold one request for each turn recorded and one error
  -- for each failure, the requests by category and by model each sum to all requests, no
  -- other count of turns exceeds them, and at most 500 times are kept.
  pub run-counts :
      (cs : List (Call F))
      → ((run cs no_metrics).total_requests ≡ served_count cs)
        × (total (run cs no_metrics).errors_by_model ≡ failed_count cs)
        × IsCounted (run cs no_metrics)
  run-counts cs = (
    run-served cs no_metrics ∙ omega arith,
    run-failed cs no_metrics ∙ omega arith,
    run-IsCounted cs no_metrics (record {
      categories = refl;
      models = refl;
      plan_calls = omega arith;
      switched = omega arith;
      saved = omega arith;
      escalated = omega arith;
      unclassified = omega arith;
      timed = omega arith;
      at_most_500 = omega arith;
    }),
  )
