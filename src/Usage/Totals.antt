-- ===== src/Usage/Totals.antt =====
-- The two dialects of auto_router/pricing.py on the same call.
use auto_model_router.Prelude.{ℕ, ◌+◌, ◌≡◌, String, some, arith, string_eq}
use auto_model_router.Prelude.Dict.{Dict}
use auto_model_router.Usage.{total_input, count, parse_openai_usage, parse_anthropic_usage}

-- A call that both dialects report, the prompt being the plain, the cached and the written tokens
-- together, is read as the same counts, and no token is counted twice: the total is the prompt.
pub parse_openai_usage-total_input :
    (raw details other : Dict String ℕ)
    → count "input_tokens" other
        + count "cached_tokens" details
        + count "cache_write_tokens" details
      ≡ count "prompt_tokens" raw
    → count "cache_read_input_tokens" other ≡ count "cached_tokens" details
    → count "cache_creation_input_tokens" other ≡ count "cache_write_tokens" details
    → count "output_tokens" other ≡ count "completion_tokens" raw
    → (parse_openai_usage raw (some details) ≡ parse_anthropic_usage other)
      × (total_input (parse_openai_usage raw (some details)) ≡ count "prompt_tokens" raw)
unfolding parse_openai_usage parse_anthropic_usage
parse_openai_usage-total_input raw details other whole r w o = ground arith
