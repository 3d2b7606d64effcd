-- ===== src/Translate/Responses/Chat.antt =====
-- `responses_to_chat` and `chat_sse` of auto_router/responses_api.py: a result as a chat completion, and
-- its replay as the lines of a stream.
use auto_model_router.Prelude.{
  ℕ, ◌+◌, String, Option, none, some, List, [], ◌∷◌, ◌++◌, str_eq, string_eq, if◌then◌else◌,
}
use auto_model_router.Prelude.Dict
use auto_model_router.Prelude.Dict.{Dict}
use auto_model_router.Prelude.Text.{codes, join}
use auto_model_router.Catalog.{truthy, or_else}
use auto_model_router.Translate.Answers.{text_or}
use auto_model_router.Translate.Stream.{CallDelta, ChunkChoice, Chunk}

-- An item of a result's `output`. The texts of a message are those of its `output_text` parts.
pub data OutputItem : Type 0 where
  message_item : List String → OutputItem
  -- `call_id or id`, the name and the arguments
  call_item : Option String → Option String → Option String → OutputItem
  other_item : OutputItem

pub record ChatCall : Type 0 where
  pub id : Option String
  pub name : Option String
  pub arguments : String

pub record ChatMessage : Type 0 where
  pub content : Option String
  pub tool_calls : List ChatCall
  pub finish_reason : Option String
  pub usage : Dict String ℕ × Option (Dict String ℕ)

abbrev pub output_texts : List OutputItem → List String
output_texts [] = []
output_texts (message_item texts ∷ is) = texts ++ output_texts is
output_texts (call_item id name arguments ∷ is) = output_texts is
output_texts (other_item ∷ is) = output_texts is

abbrev pub output_calls : List OutputItem → List ChatCall
output_calls [] = []
output_calls (message_item texts ∷ is) = output_calls is
output_calls (call_item id name arguments ∷ is) =
    record { id = id; name = name; arguments = text_or arguments "{}" } ∷ output_calls is
output_calls (other_item ∷ is) = output_calls is

abbrev pub calls_or_stop : List ChatCall → String
calls_or_stop [] = "stop"
calls_or_stop (c ∷ cs) = "tool_calls"

-- `reason` is `incomplete_details.reason` where the status is "incomplete".
unfoldable pub finish_of : Option String → List ChatCall → String
finish_of none calls = calls_or_stop calls
finish_of (some reason) calls =
    if str_eq reason "max_output_tokens"
    then "length"
    else if str_eq reason "content_filter"
    then "content_filter"
    else calls_or_stop calls

-- The usage counts are renamed; `raw` is the `usage` block and its `input_tokens_details`.
abbrev pub chat_usage : Dict String ℕ → Dict String ℕ → Dict String ℕ × Option (Dict String ℕ)
chat_usage raw details = (
  ("prompt_tokens", or_else (Dict.get "input_tokens" raw) 0)
      ∷ ("completion_tokens", or_else (Dict.get "output_tokens" raw) 0)
      ∷ ("total_tokens", or_else (Dict.get "total_tokens" raw) 0)
      ∷ [],
  some (("cached_tokens", or_else (Dict.get "cached_tokens" details) 0) ∷ []),
)

unfoldable pub responses_to_chat :
    List OutputItem → Option String → Dict String ℕ → Dict String ℕ → ChatMessage
responses_to_chat output reason raw details =
    let text = join "" (output_texts output) in
    record {
      content = if truthy (some text) then some text else none;
      tool_calls = output_calls output;
      finish_reason = some (finish_of reason (output_calls output));
      usage = chat_usage raw details;
    }

abbrev pub delta_choice : Option String → List CallDelta → Option String → ChunkChoice
delta_choice content tool_calls finish_reason = record {
  content = content;
  tool_calls = tool_calls;
  finish_reason = finish_reason;
}

abbrev pub delta_chunk : Option String → List CallDelta → Option String → Chunk
delta_chunk content tool_calls finish_reason = record {
  usage = ([], none);
  choices = delta_choice content tool_calls finish_reason ∷ [];
}

abbrev pub content_chunks : Option String → List Chunk
content_chunks content = if truthy content then delta_chunk content [] none ∷ [] else []

abbrev pub call_delta : ℕ → ChatCall → CallDelta
call_delta i call = record {
  index = i;
  id = call.id;
  name = call.name;
  arguments = some call.arguments;
}

abbrev pub call_chunks : ℕ → List ChatCall → List Chunk
call_chunks i [] = []
call_chunks i (call ∷ calls) =
    delta_chunk none (call_delta i call ∷ []) none ∷ call_chunks (i + 1) calls

-- The chunks of `chat_sse`, without their text and the last line
unfoldable pub chat_chunks : ChatMessage → List Chunk
chat_chunks chat =
    delta_chunk none [] none
    ∷ (content_chunks chat.content
        ++ (call_chunks 0 chat.tool_calls
            ++ (delta_chunk none [] chat.finish_reason
                ∷ record { usage = chat.usage; choices = [] }
                ∷ [])))

-- `dumps` is `json.dumps` of a chunk with the chat's id, time and model.
abbrev pub sse_lines : (Chunk → List ℕ) → List Chunk → List (List ℕ)
sse_lines dumps [] = codes "data: [DONE]" ∷ []
sse_lines dumps (c ∷ cs) = (codes "data: " ++ dumps c) ∷ sse_lines dumps cs

unfoldable pub chat_sse : (Chunk → List ℕ) → ChatMessage → List (List ℕ)
chat_sse dumps chat = sse_lines dumps (chat_chunks chat)
