-- ===== src/Examples/Surface.antt =====
-- The properties of auto_router/switch.py, auto_router/pricing.py, auto_router/metrics.py and
-- auto_router/ledger.py on concrete prompts, counts and turns.
use auto_model_router.Prelude.{
  Bool, ◌+◌, true, false, ℕ, ◌≡◌, refl, String, Option, none, some, List, [], ◌∷◌,
}
use auto_model_router.Prelude.Float.{decimal, lit}
use auto_model_router.Prelude.Fixed.{Fixed, fixed_float}
use auto_model_router.Prelude.Text.{codes, lstrip, is_space}
use auto_model_router.Switch.{
  JobRow, JobRoute, decide, strip_force, force_loop, after_prefix, cheap_equivalent, first_close,
}
use auto_model_router.Switch.Target
use auto_model_router.Prelude.Dict.{Dict}
use auto_model_router.Usage.{parse_openai_usage}
use auto_model_router.Ledger.{new_ledger}
use auto_model_router.Ledger.Written
use auto_model_router.Metrics.{Served, no_metrics}
use auto_model_router.Metrics.Counted
use auto_model_router.Examples.{planned}

abbrev args : List String
args = "--resume" ∷ "0f3a" ∷ "--verbose" ∷ "-c" ∷ "fix the test" ∷ []

abbrev plan_row : JobRow Fixed
plan_row = record {
  model = "planned";
  subscription = some "claude";
  rejected = none;
  expected = some (decimal 3 1);
  p_success = decimal 9 1;
}

abbrev free_row : JobRow Fixed
free_row = record {
  model = "small";
  subscription = none;
  rejected = none;
  expected = some (decimal 305 3);
  p_success = decimal 89 2;
}

abbrev weak_row : JobRow Fixed
weak_row = record free_row { p_success = decimal 5 1 }

abbrev job_route : JobRow Fixed → JobRoute Fixed
job_route other = record {
  model = planned;
  difficulty = some (decimal 5 1);
  rows = some (other ∷ plan_row ∷ []);
}

abbrev router : Option (List ℕ → Option (JobRoute Fixed))
router = some (λ text. some (job_route weak_row))

decide-MovesToPlan_example : Target.MovesToPlan (codes "prove it") router
unfolding decide strip_force force_loop after_prefix cheap_equivalent first_close lstrip is_space
decide-MovesToPlan_example =
    Target.decide-MovesToPlan (codes "prove it") router (decimal 35 2) refl refl

abbrev openai_block : Dict String ℕ
openai_block = ("prompt_tokens", 5000) ∷ ("completion_tokens", 300) ∷ []

abbrev openai_details : Dict String ℕ
openai_details = ("cached_tokens", 4000) ∷ []

abbrev anthropic_block : Dict String ℕ
anthropic_block =
    ("input_tokens", 1000) ∷ ("cache_read_input_tokens", 4000) ∷ ("output_tokens", 300) ∷ []

abbrev served_turn : Served Fixed
served_turn = record {
  category = "code";
  model = planned;
  classification_ms = lit 12;
  usage = some (parse_openai_usage openai_block (some openai_details));
  switched = true;
  stickiness_save = false;
  escalated = false;
  classifier_failed = false;
}

abbrev calls : List (Counted.Call Fixed)
calls = Counted.served served_turn ∷ Counted.failed "small" ∷ Counted.served served_turn ∷ []

run-counts_example :
    ((Counted.run calls no_metrics).total_requests ≡ 2)
    × (Counted.total (Counted.run calls no_metrics).errors_by_model ≡ 1)
    × Counted.IsCounted (Counted.run calls no_metrics)
run-counts_example = Counted.run-counts calls

abbrev attempts : List (String × Bool)
attempts = ("{}", true) ∷ ("{}", false) ∷ ("{}", false) ∷ []

write_all-lines_example :
    let l = Written.write_all attempts (new_ledger (some "ledger.jsonl")) in
    (l.file ≡ "{}" ∷ [])
    × (l.written ≡ 1)
    × (l.written + l.failed ≡ 3)
    × (l.warnings ≡ Written.warnings_due l.failed)
write_all-lines_example = Written.write_all-lines "ledger.jsonl" attempts
