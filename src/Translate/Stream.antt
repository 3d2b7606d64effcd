-- ===== src/Translate/Stream.antt =====
-- auto_router/stream_translate.py: chat-completion chunks to Anthropic stream events. A chunk is the
-- parsed JSON of one line, with the fields that the code reads; `loads` is `json.loads`, `none`
-- where it raises. `fresh i` is the random id of the tool call that block `i` is for. A
-- `TranslationError` ends the stream after the events that were sent.
pub mod Blocks
pub mod Agrees
pub mod Calls
pub mod Accepted
pub mod Text
use auto_model_router.Prelude.{
  ℕ, ◌+◌, String, Bool, true, false, not, ◌&&◌, ◌||◌, Option, none, some, List, [], ◌∷◌, ◌++◌,
  str_eq, if◌then◌else◌, nat_eq,
}
use auto_model_router.Prelude.Dict
use auto_model_router.Prelude.Dict.{Dict}
use auto_model_router.Prelude.Text.{codes, codes_eq, text_after, strip}
use auto_model_router.Catalog.{truthy, or_else}
use auto_model_router.Usage.{Usage, parse_openai_usage}
use auto_model_router.Translate.Events.{
  Block, text_block, tool_block, text_delta, input_json_delta, Event, message_start,
  content_block_start, content_block_delta, content_block_stop, message_delta, message_stop,
  mapped_stop,
}
use auto_model_router.Translate.Ids.{anthropic_tool_id}

-- One entry of `delta["tool_calls"]`, with its `function`.
pub record CallDelta : Type 0 where
  pub index : ℕ
  pub id : Option String
  pub name : Option String
  pub arguments : Option String

pub record ChunkChoice : Type 0 where
  pub content : Option String
  pub tool_calls : List CallDelta
  pub finish_reason : Option String

-- `usage` is the block of counts and the block of details in it.
pub record Chunk : Type 0 where
  pub usage : Dict String ℕ × Option (Dict String ℕ)
  pub choices : List ChunkChoice

-- `_ToolAccumulator`
pub record Tool : Type 0 where
  pub block_index : ℕ
  pub call_id : String
  pub name : String
  pub started : Bool

pub record StreamOutcome : Type 0 where
  pub usage : Usage
  pub stop_reason : String
  pub saw_content : Bool
  pub finish_reason : Option String
  pub text : List String
  pub tool_calls : ℕ

-- The local variables of `translate_stream`, and the outcome that it fills in. The local
-- `finish_reason` always equals the outcome's.
pub record StreamState : Type 0 where
  pub next_index : ℕ
  pub text_at : Option ℕ
  pub tools : Dict ℕ Tool
  pub started : Bool
  pub outcome : StreamOutcome

abbrev pub no_usage : Usage
no_usage = record { uncached_input = 0; cached_read = 0; cache_write = 0; output = 0 }

abbrev pub no_outcome : StreamOutcome
no_outcome = record {
  usage = no_usage;
  stop_reason = "end_turn";
  saw_content = false;
  finish_reason = none;
  text = [];
  tool_calls = 0;
}

abbrev pub initial : StreamState
initial = record {
  next_index = 0;
  text_at = none;
  tools = [];
  started = false;
  outcome = no_outcome;
}

-- What a step yields, and the state after it unless it raised.
abbrev pub Sent : Type 0
Sent = List Event × Option StreamState

abbrev pub and_then : Sent → (StreamState → Sent) → Sent
and_then (sent, none) next = (sent, none)
and_then (sent, some s) next = (sent ++ (next s).0, (next s).1)

abbrev pub has_usage : Chunk → Bool
has_usage chunk = elim chunk.usage.0 [ [] ↦ truthy_details chunk.usage.1 | c ∷ cs ↦ true ]
  where
    truthy_details : Option (Dict String ℕ) → Bool
    truthy_details none = false
    truthy_details (some d) = true

unfoldable pub read_usage : Chunk → StreamState → StreamState
read_usage chunk s =
    if has_usage chunk
    then record s {
      outcome = record s.outcome { usage = parse_openai_usage chunk.usage.0 chunk.usage.1 };
    }
    else s

unfoldable pub note_finish : ChunkChoice → StreamState → StreamState
note_finish choice s =
    if truthy choice.finish_reason
    then record s { outcome = record s.outcome { finish_reason = choice.finish_reason } }
    else s

abbrev pub start_unless : Bool → String → String → StreamState → Sent
start_unless true message_id model_name s = ([], some s)
start_unless false message_id model_name s =
    (message_start message_id model_name s.outcome.usage ∷ [], some (record s { started = true }))

-- `start_message`, unless it was sent
unfoldable pub start_message : String → String → StreamState → Sent
start_message message_id model_name s = start_unless s.started message_id model_name s

abbrev pub see_text : String → StreamState → StreamState
see_text content s = record s {
  outcome = record s.outcome { saw_content = true; text = s.outcome.text ++ (content ∷ []) };
}

abbrev pub text_event : ℕ → String → Event
text_event i content = content_block_delta i (text_delta content)

abbrev pub into_text : String → Option ℕ → StreamState → Sent
into_text content none s = (
  content_block_start s.next_index text_block ∷ text_event s.next_index content ∷ [],
  some (record s { text_at = some s.next_index; next_index = s.next_index + 1 }),
)
into_text content (some i) s = (text_event i content ∷ [], some s)

abbrev pub text_if : Bool → String → StreamState → Sent
text_if false content s = ([], some s)
text_if true content s = into_text content s.text_at (see_text content s)

unfoldable pub write_text : Option String → StreamState → Sent
write_text content s = text_if (truthy content) (or_else content "") s

-- The state with an accumulator for the call, and the accumulator.
abbrev pub new_tool : (ℕ → String) → CallDelta → StreamState → StreamState × Tool
new_tool fresh call s =
    let acc : Tool = record {
      block_index = s.next_index;
      call_id = anthropic_tool_id (fresh s.next_index) call.id;
      name = "";
      started = false;
    } in
    (
      record s {
        next_index = s.next_index + 1;
        tools = Dict.insert call.index acc s.tools;
        outcome = record s.outcome { tool_calls = s.outcome.tool_calls + 1 };
      },
      acc,
    )

abbrev pub tool_or_new : (ℕ → String) → CallDelta → StreamState → Option Tool → StreamState × Tool
tool_or_new fresh call s none = new_tool fresh call s
tool_or_new fresh call s (some acc) = (s, acc)

abbrev pub saw_call : StreamState → StreamState
saw_call s = record s { outcome = record s.outcome { saw_content = true } }

abbrev pub named : CallDelta → Tool → Tool
named call acc = if truthy call.name then record acc { name = or_else call.name "" } else acc

abbrev pub may_start : Tool → Bool
may_start acc = not acc.started && not (str_eq acc.name "")

-- The accumulator after its block may have been started. It is shared with the dictionary.
abbrev pub start_if : Bool → ℕ → Tool → StreamState → Sent
start_if false key acc s = ([], some (record s { tools = Dict.insert key acc s.tools }))
start_if true key acc s = (
  content_block_start acc.block_index (tool_block acc.call_id acc.name) ∷ [],
  some (record s { tools = Dict.insert key (record acc { started = true }) s.tools }),
)

abbrev pub start_tool : ℕ → Tool → StreamState → Sent
start_tool key acc s = start_if (may_start acc) key acc s

-- Whether there are arguments, and whether the block is started.
abbrev pub arguments_if : Bool → Bool → String → ℕ → StreamState → Sent
arguments_if false started json i s = ([], some s)
arguments_if true false json i s = ([], none)
arguments_if true true json i s = (content_block_delta i (input_json_delta json) ∷ [], some s)

abbrev pub write_arguments : Option String → Tool → StreamState → Sent
write_arguments arguments acc s =
    arguments_if (truthy arguments) (acc.started || may_start acc) (or_else arguments "")
      acc.block_index s

abbrev pub feed_tool : CallDelta → StreamState × Tool → Sent
feed_tool call (s, acc) =
    and_then (start_tool call.index (named call acc) s)
      (write_arguments call.arguments (named call acc))

-- One round of the loop over `delta["tool_calls"]`
unfoldable pub feed_call : (ℕ → String) → CallDelta → StreamState → Sent
feed_call fresh call s =
    let s' = saw_call s in feed_tool call (tool_or_new fresh call s' (Dict.get call.index s'.tools))

unfoldable pub feed_calls : (ℕ → String) → List CallDelta → StreamState → Sent
feed_calls fresh [] s = ([], some s)
feed_calls fresh (call ∷ calls) s = and_then (feed_call fresh call s) (feed_calls fresh calls)

abbrev pub feed_choice : (ℕ → String) → String → String → ChunkChoice → StreamState → Sent
feed_choice fresh message_id model_name choice s =
    and_then (start_message message_id model_name (note_finish choice s))
      (λ s. and_then (write_text choice.content s) (feed_calls fresh choice.tool_calls))

abbrev pub feed_choices : (ℕ → String) → String → String → List ChunkChoice → StreamState → Sent
feed_choices fresh message_id model_name [] s = ([], some s)
feed_choices fresh message_id model_name (choice ∷ choices) s =
    feed_choice fresh message_id model_name choice s

unfoldable pub feed_chunk : (ℕ → String) → String → String → Chunk → StreamState → Sent
feed_chunk fresh message_id model_name chunk s =
    feed_choices fresh message_id model_name chunk.choices (read_usage chunk s)

-- The payload of a line, `none` where the loop continues without it.
abbrev pub payload_text : Option (List ℕ) → Option (List ℕ)
payload_text none = none
payload_text (some rest) =
    let payload = strip rest in
    if codes_eq payload [] || codes_eq payload (codes "[DONE]") then none else some payload

abbrev pub feed_parsed : (ℕ → String) → String → String → Option Chunk → StreamState → Sent
feed_parsed fresh message_id model_name none s = ([], some s)
feed_parsed fresh message_id model_name (some chunk) s =
    feed_chunk fresh message_id model_name chunk s

abbrev pub parsed : (List ℕ → Option Chunk) → Option (List ℕ) → Option Chunk
parsed loads none = none
parsed loads (some payload) = loads payload

abbrev pub parsed_line : (List ℕ → Option Chunk) → List ℕ → Option Chunk
parsed_line loads line = parsed loads (payload_text (text_after (codes "data:") line))

unfoldable pub feed_lines :
    (List ℕ → Option Chunk) → (ℕ → String) → String → String → List (List ℕ) → StreamState → Sent
feed_lines loads fresh message_id model_name [] s = ([], some s)
feed_lines loads fresh message_id model_name (line ∷ lines) s =
    and_then (feed_parsed fresh message_id model_name (parsed_line loads line) s)
      (feed_lines loads fresh message_id model_name lines)

unfoldable pub stop_tools : Dict ℕ Tool → List Event
stop_tools [] = []
stop_tools ((key, acc) ∷ tools) =
    if acc.started then content_block_stop acc.block_index ∷ stop_tools tools else stop_tools tools

abbrev pub stop_text : Option ℕ → List Event
stop_text none = []
stop_text (some i) = content_block_stop i ∷ []

abbrev pub finish_or_stop : Option String → String
finish_or_stop finish_reason = if truthy finish_reason then or_else finish_reason "stop" else "stop"

abbrev pub final_stop : Dict ℕ Tool → Option String → String
final_stop [] finish_reason = mapped_stop (finish_or_stop finish_reason)
final_stop (tool ∷ tools) finish_reason = "tool_use"

-- After the loop: the open blocks are stopped, then the message.
unfoldable pub finish_stream : StreamState → Sent
finish_stream s =
    let reason = final_stop s.tools s.outcome.finish_reason in
    (
      stop_text s.text_at
          ++ (stop_tools s.tools
              ++ (message_delta (some reason) none s.outcome.usage.output ∷ message_stop ∷ [])),
      some (record s { outcome = record s.outcome { stop_reason = reason } }),
    )

-- `translate_stream`
unfoldable pub translate_stream :
    (List ℕ → Option Chunk) → (ℕ → String) → String → String → List (List ℕ) → Sent
translate_stream loads fresh message_id model_name lines =
    and_then (feed_lines loads fresh message_id model_name lines initial)
      (λ s. and_then (start_message message_id model_name s) finish_stream)
