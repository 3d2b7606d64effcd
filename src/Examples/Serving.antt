-- ===== src/Examples/Serving.antt =====
-- The properties of the plan pacing, the outcome memory, the length stops, the prefix cache and the
-- judge's rules on concrete values.
use auto_model_router.Prelude.{
  ℕ, ◌≡◌, ◌↔◌, refl, arith, String, true, false, some, List, [], ◌∷◌, is_some,
}
use auto_model_router.Prelude.Float.{lit, decimal}
use auto_model_router.Prelude.Fixed.{Fixed, fixed_float, Fixed-IsMonotone}
use auto_model_router.Prelude.Dict
use auto_model_router.Prelude.Json.{Fields, str, arr, obj, nil, cons, end, field, lookup}
use auto_model_router.Quota.{decide}
use auto_model_router.Quota.Pacing
use auto_model_router.OutcomeMemory.{
  OutcomeMemory, up_to_4096, default, entries_at, last, recent, should_avoid,
}
use auto_model_router.OutcomeMemory.Window
use auto_model_router.OutcomeMemory.Window.{Outcome, remember, cold, history}
use auto_model_router.OutcomeMemory.Avoidance
use auto_model_router.Truncation.{truncation_label, stop_word}
use auto_model_router.Truncation.Labels
use auto_model_router.CacheIndex.{
  PrefixCacheIndex, Warm, lookup as warm_lookup, scan, record_prefixes, warm_of, entry_of,
  write_all,
}
use auto_model_router.CacheIndex.Lookup
use auto_model_router.Verify.{Judgement, applies, gate, tier_ok, blended_price, intelligence_gate}
use auto_model_router.Verify.Checks
use auto_model_router.Catalog.{cap_with}
use auto_model_router.Examples.{small, quiet_week, pacing, rule, verify_policy}

decide_open_example :
    ((decide (some quiet_week) pacing (lit 1000)).open_for_use ≡ true)
    ↔ Pacing.MayBeUsed quiet_week pacing (lit 1000)
decide_open_example = Pacing.decide_open quiet_week pacing (lit 1000)

decide_use_mono_example :
    (decide (some (record quiet_week { week_used = decimal 5 2 })) pacing (lit 1000)).open_for_use
    ≡ true
unfolding decide
decide_use_mono_example =
    Pacing.decide_use_mono Fixed-IsMonotone quiet_week pacing (decimal 5 2) (lit 1000) refl refl

abbrev outcomes : List (Outcome Fixed)
outcomes =
    record { model = "small"; key = some ("coding", up_to_4096); status = "ok"; at = lit 1 }
    ∷ record {
      model = "small";
      key = some ("coding", up_to_4096);
      status = "truncated";
      at = lit 2;
    }
    ∷ record { model = "small"; key = some ("coding", default); status = "ok"; at = lit 3 }
    ∷ record { model = "small"; key = some ("coding", up_to_4096); status = "error"; at = lit 4 }
    ∷ record {
      model = "small";
      key = some ("coding", up_to_4096);
      status = "truncated";
      at = lit 5;
    }
    ∷ record { model = "small"; key = some ("coding", up_to_4096); status = "ok"; at = lit 6 }
    ∷ []

entries-history_example :
    entries_at (remember (cold rule) outcomes) "small" ("coding", up_to_4096)
    ≡ last 3 (history "small" ("coding", up_to_4096) outcomes)
entries-history_example = Window.entries-history rule outcomes "small" ("coding", up_to_4096)

abbrev memory : OutcomeMemory Fixed
memory = record {
  rule = rule;
  seen =
      (
        ("small", ("coding", up_to_4096)),
        (lit 2, "truncated") ∷ (lit 5, "truncated") ∷ (lit 6, "ok") ∷ [],
      )
      ∷ [];
}

should_avoid_iff_example :
    (is_some (should_avoid memory "small" (some ("coding", up_to_4096)) (lit 10)) ≡ true)
    ↔ Avoidance.IsPattern rule (recent memory "small" ("coding", up_to_4096) (lit 10))
should_avoid_iff_example = Avoidance.should_avoid_iff memory "small" ("coding", up_to_4096) (lit 10)

abbrev stopped : Fields Fixed
stopped = field "choices" (arr (cons (obj (field "finish_reason" (str " Length ") end)) nil)) end

abbrev finished : Fields Fixed
finished = field "choices" (arr (cons (obj (field "finish_reason" (str "stop") end)) nil)) end

truncation_label-IsLabel_example : Labels.IsLabel Labels.all_fields "finish_reason:length"
unfolding truncation_label lookup stop_word
truncation_label-IsLabel_example = Labels.truncation_label-IsLabel (obj stopped) refl

abbrev index : PrefixCacheIndex Fixed
index = record { entries = []; safety = 5; max_entries = 100; hits = 0; misses = 0 }

abbrev hashes : List String
hashes = "h1" ∷ "h2" ∷ []

abbrev filled : PrefixCacheIndex Fixed
filled = record {
  entries = (("small", "h1"), entry_of small (lit 1000) 1500 0) ∷ [];
  safety = 5;
  max_entries = 100;
  hits = 0;
  misses = 0;
}

abbrev first_prefix : Warm Fixed
first_prefix = warm_of 0 (entry_of small (lit 1000) 1500 0)

lookup-IsLongest_example : Lookup.IsLongest filled "small" hashes (lit 1100) 2 first_prefix
unfolding warm_lookup scan Dict.get
lookup-IsLongest_example =
    Lookup.lookup-IsLongest filled "small" hashes (lit 1100) first_prefix refl

lookup-record_prefixes_example :
    (warm_lookup
      (record_prefixes index small hashes (1200 ∷ 1500 ∷ []) (lit 1000) (lit 1000))
      "small"
      hashes
      (lit 1100)).0
    ≡ some (warm_of 1 (entry_of small (lit 1000) 1500 1))
unfolding write_all Dict.insert
lookup-record_prefixes_example =
    Lookup.lookup-record_prefixes index small "h1" ("h2" ∷ []) (1200 ∷ 1500 ∷ []) 1500 (lit 1000)
      (lit 1000) (lit 1100) refl refl (omega arith) (omega arith) refl

abbrev as_code : ℕ → List ℕ
as_code n = n ∷ []

abbrev count : List ℕ → String
count fed = "h"

applies-MayBeChecked_example : Checks.MayBeChecked verify_policy small "coding" 900 false true
unfolding applies gate tier_ok blended_price intelligence_gate cap_with Dict.get
applies-MayBeChecked_example =
    Checks.applies-MayBeChecked verify_policy small "coding" 900 false true (lit 0) refl

abbrev weak_answer : Judgement Fixed
weak_answer = record {
  failed = false;
  p_adequate = decimal 2 1;
  failure = "wrong";
  latency_s = decimal 5 1;
  model = "judge";
}
