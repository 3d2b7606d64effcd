-- ===== src/Translate/Events.antt =====
-- The Anthropic stream events that `_sse` of auto_router/translate.py writes, and its map of stop
-- reasons. An event is a constructor that holds what its JSON payload holds.
use auto_model_router.Prelude.{ℕ, String, Option, [], ◌∷◌, string_eq}
use auto_model_router.Prelude.Dict
use auto_model_router.Prelude.Dict.{Dict}
use auto_model_router.Catalog.{or_else}
use auto_model_router.Usage.{Usage}

-- The `content_block` of a start, the tool's input being `{}`.
pub data Block : Type 0 where
  text_block : Block
  tool_block : String → String → Block

pub data Delta : Type 0 where
  text_delta input_json_delta : String → Delta

-- A `message_start` holds the counts of the input; its `output_tokens` are 0.
pub data Event : Type 0 where
  message_start : String → String → Usage → Event
  content_block_start : ℕ → Block → Event
  content_block_delta : ℕ → Delta → Event
  content_block_stop : ℕ → Event
  -- the stop reason, the stop sequence and the output tokens
  message_delta : Option String → Option String → ℕ → Event
  message_stop : Event

abbrev pub stop_reason_map : Dict String String
stop_reason_map =
    ("stop", "end_turn")
    ∷ ("length", "max_tokens")
    ∷ ("tool_calls", "tool_use")
    ∷ ("content_filter", "end_turn")
    ∷ ("function_call", "tool_use")
    ∷ []

-- `STOP_REASON_MAP.get(finish, "end_turn")`
unfoldable pub mapped_stop : String → String
mapped_stop finish = or_else (Dict.get finish stop_reason_map) "end_turn"
