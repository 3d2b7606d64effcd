-- ===== src/Router/Requests.antt =====
-- `_turn_request` of auto_router/router.py: what a classification says of a turn. A classifier's scores
-- are not negative.
use auto_model_router.Prelude.{
  ℕ, min, String, Bool, false, ◌&&◌, Option, none, some, List, [], ◌∷◌, str_eq, nat_beq,
  if◌then◌else◌, any,
}
use auto_model_router.Prelude.Float.{Float, lit, decimal, ◌⊖◌, ◌⊗◌, ◌⊘◌, ◌<?◌, fmin, fmax}
use auto_model_router.Policies.State.{TurnRequest}
use auto_model_router.Router.Records.{Classification}

-- `x or y` of counts
abbrev pub count_or : Option ℕ → ℕ → ℕ
count_or none other = other
count_or (some n) other = if nat_beq n 0 then other else n

-- `catalog.CATEGORIES`
abbrev pub categories : List String
categories =
    "coding" ∷ "agentic" ∷ "math" ∷ "knowledge" ∷ "long_context" ∷ "tool_use" ∷ "design"
    ∷ "summarisation" ∷ "general" ∷ []

abbrev pub is_known : String → Bool
is_known category = any (λ c. str_eq c category) categories

module _ {F : Type 0} ⦃fl : Float F⦄ where
  -- STAKES_USD[i]
  abbrev pub stakes_usd : ℕ → F
  stakes_usd i =
      if nat_beq i 0
      then decimal 5 2
      else if nat_beq i 1
      then decimal 5 1
      else if nat_beq i 2
      then lit 3
      else lit 20

  abbrev pub stakes_index : F → ℕ
  stakes_index stakes = min 3 (fl.truncate (fl.round (stakes ⊗ lit 3) 0))

  -- The fields that a `TurnRequest` has where nothing else is said
  abbrev pub plain_request : String → F → ℕ → ℕ → F → TurnRequest F
  plain_request category difficulty prompt_tokens output_tokens now = record {
    category = category;
    difficulty = difficulty;
    prompt_tokens = prompt_tokens;
    output_tokens = output_tokens;
    now = now;
    steps = 1;
    growth_per_step = 1500;
    needs_tools = false;
    needs_vision = false;
    follow_up = decimal 5 1;
    stakes_usd = lit 2;
    detect_prob = decimal 6 1;
    remaining_turns = lit 3;
    difficulty_confidence = lit 1;
    needs_long_context = false;
    request_chars = 0;
    stated_max_tokens = none;
  }

  abbrev pub cautious_request : ℕ → Option ℕ → F → Bool → ℕ → Option ℕ → TurnRequest F
  cautious_request prompt_tokens max_tokens now has_tools chars stated =
      record (plain_request (if has_tools then "agentic" else "general") (decimal 5 1) prompt_tokens
        (count_or max_tokens 1500) now) {
          needs_tools = has_tools;
          stakes_usd = stakes_usd 2;
          difficulty_confidence = lit 0;
          request_chars = chars;
          stated_max_tokens = stated;
        }

  abbrev pub calibrated : F → F → F → F
  calibrated offset scale difficulty = fmax (lit 0) (fmin (lit 1) ((difficulty ⊖ offset) ⊘ scale))

  abbrev pub classified_request :
      F → F → Classification F → ℕ → Option ℕ → F → Bool → ℕ → Option ℕ → TurnRequest F
  classified_request offset scale c prompt_tokens max_tokens now has_tools chars stated =
      let agentic : Bool = has_tools && decimal 5 1 <? c.needs_tools in
      record (plain_request (if is_known c.category then c.category else "general")
        (calibrated offset scale c.difficulty) prompt_tokens
        (if agentic then 6000 else min (count_or max_tokens 4000) 4000) now) {
          steps = if agentic then 8 else 1;
          needs_tools = has_tools;
          needs_vision = decimal 5 1 <? c.needs_vision;
          follow_up = c.follow_up;
          stakes_usd = stakes_usd (stakes_index c.stakes);
          detect_prob = if agentic then decimal 8 1 else decimal 5 1;
          difficulty_confidence = c.difficulty_confidence;
          needs_long_context = decimal 5 1 <? c.needs_long_context;
          request_chars = chars;
          stated_max_tokens = stated;
        }

  -- `_turn_request`; `chars` is the length of the newest text of the user.
  unfoldable pub turn_request :
      F → F → Option (Classification F) → ℕ → Option ℕ → F → Bool → ℕ → Option ℕ → TurnRequest F
  turn_request offset scale none prompt_tokens max_tokens now has_tools chars stated =
      cautious_request prompt_tokens max_tokens now has_tools chars stated
  turn_request offset scale (some c) prompt_tokens max_tokens now has_tools chars stated =
      if c.failed
      then cautious_request prompt_tokens max_tokens now has_tools chars stated
      else classified_request offset scale c prompt_tokens max_tokens now has_tools chars stated
