-- ===== src/Usage.antt =====
-- auto_router/pricing.py: the token counts of a call and what it cost. A `usage` block is a
-- dictionary of the counts that the providers document, which are natural numbers; the nested
-- block of details is an argument of its own.
pub mod Totals
use auto_model_router.Prelude.{
  ℕ, ◌+◌, ◌-◌, nat_beq, String, Option, none, some, List, [], ◌∷◌, string_eq, if◌then◌else◌,
}
use auto_model_router.Prelude.Float.{Float, lit, ◌⊕◌, ◌⊗◌, ◌⊘◌}
use auto_model_router.Prelude.Dict
use auto_model_router.Prelude.Dict.{Dict}
use auto_model_router.Catalog.{ModelInfo, or_else, read, write}

pub record Usage : Type 0 where
  pub uncached_input : ℕ
  pub cached_read : ℕ
  pub cache_write : ℕ
  pub output : ℕ

abbrev pub total_input : Usage → ℕ
total_input u = u.uncached_input + u.cached_read + u.cache_write

-- `int(raw.get(name) or 0)`
unfoldable pub count : String → Dict String ℕ → ℕ
count name raw = or_else (Dict.get name raw) 0

unfoldable pub parse_openai_usage : Dict String ℕ → Option (Dict String ℕ) → Usage
parse_openai_usage raw prompt_tokens_details =
    let details = or_else prompt_tokens_details [] in
    let cached = count "cached_tokens" details in
    let written = count "cache_write_tokens" details in
    record {
      uncached_input = count "prompt_tokens" raw - cached - written;
      cached_read = cached;
      cache_write = written;
      output = count "completion_tokens" raw;
    }

unfoldable pub parse_anthropic_usage : Dict String ℕ → Usage
parse_anthropic_usage raw = record {
  uncached_input = count "input_tokens" raw;
  cached_read = count "cache_read_input_tokens" raw;
  cache_write = count "cache_creation_input_tokens" raw;
  output = count "output_tokens" raw;
}

module _ {F : Type 0} ⦃fl : Float F⦄ where
  unfoldable pub cost_usd : ModelInfo F → Usage → F
  cost_usd m u =
      let p = m.prices in
      (lit u.uncached_input ⊗ p.input
        ⊕ lit u.cached_read ⊗ read p
        ⊕ lit u.cache_write ⊗ write p
        ⊕ lit u.output ⊗ p.output)
      ⊘ lit 1_000_000

  unfoldable pub cache_hit_rate : Usage → F
  cache_hit_rate u =
      if nat_beq (total_input u) 0 then lit 0 else lit u.cached_read ⊘ lit (total_input u)
