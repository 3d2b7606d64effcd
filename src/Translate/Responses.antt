-- ===== src/Translate/Responses.antt =====
-- auto_router/responses_api.py: chat completions as a Responses request, a Responses result as a
-- chat completion, and a chat completion replayed as the chunks of a stream. The messages are those
-- that Requests returns, the chunks those that Stream reads.
pub mod Items
pub mod Chat
pub mod Steps
pub mod Lines
pub mod Ends
pub mod Finish
pub mod Streamed
use auto_model_router.Prelude.{
  ℕ, ◌+◌, String, Bool, true, false, ◌||◌, Option, none, some, List, [], ◌∷◌, ◌++◌, ◌<>◌, str_eq,
  string_eq, nat_beq, if◌then◌else◌, keep,
}
use auto_model_router.Prelude.Dict
use auto_model_router.Prelude.Dict.{Dict}
use auto_model_router.Prelude.Text.{codes, join}
use auto_model_router.Catalog.{truthy, or_else}
use auto_model_router.Translate.Answers.{text_or}
use auto_model_router.Translate.Requests.{
  Part, text_out, image_out, OpenaiBody, null_body, text_only, with_images, OpenaiCall,
  OpenaiMessage, said, assistant, tool, part_texts,
}
use auto_model_router.Translate.Stream.{CallDelta, ChunkChoice, Chunk}

-- `_text`
unfoldable pub body_text : OpenaiBody → String
body_text null_body = ""
body_text (text_only text) = text
body_text (with_images parts) = join "" (part_texts parts)

pub data InputPart : Type 0 where
  input_text input_image : String → InputPart

pub data UserContent : Type 0 where
  plain_content : String → UserContent
  part_content : List InputPart → UserContent

abbrev pub input_parts : List Part → List InputPart
input_parts [] = []
input_parts (text_out text ∷ ps) = input_text text ∷ input_parts ps
input_parts (image_out url ∷ ps) =
    let rest = input_parts ps in if truthy (some url) then input_image url ∷ rest else rest

-- `_user_content`
unfoldable pub user_content : OpenaiBody → UserContent
user_content null_body = plain_content ""
user_content (text_only text) = plain_content text
user_content (with_images parts) = part_content (input_parts parts)

pub data Item : Type 0 where
  user_item : UserContent → Item
  assistant_item : String → Item
  -- the id, the name and the arguments
  function_call : OpenaiCall → Item
  -- the id, if there is one, and the output
  function_call_output : Option String → String → Item

abbrev pub text_items : OpenaiBody → List Item
text_items body =
    if truthy (some (body_text body)) then assistant_item (body_text body) ∷ [] else []

abbrev pub call_items : List OpenaiCall → List Item
call_items [] = []
call_items ((id, (name, arguments)) ∷ calls) =
    function_call (id, (name, text_or (some arguments) "{}")) ∷ call_items calls

abbrev pub is_instruction : String → Bool
is_instruction role = str_eq role "system" || str_eq role "developer"

-- A message of no known role is left out.
abbrev pub said_items : String → OpenaiBody → List Item
said_items role body =
    if is_instruction role
    then []
    else if str_eq role "user"
    then user_item (user_content body) ∷ []
    else if str_eq role "assistant"
    then text_items body
    else if str_eq role "tool"
    then function_call_output none (body_text body) ∷ []
    else []

abbrev pub items_of : OpenaiMessage → List Item
items_of (said role body) = said_items role body
items_of (assistant body calls) = text_items body ++ call_items calls
items_of (tool id produced) = function_call_output (some id) produced ∷ []

abbrev pub instructions_of : OpenaiMessage → List String
instructions_of (said role body) = if is_instruction role then body_text body ∷ [] else []
instructions_of (assistant body calls) = []
instructions_of (tool id produced) = []

unfoldable pub all_items : List OpenaiMessage → List Item
all_items [] = []
all_items (m ∷ ms) = items_of m ++ all_items ms

unfoldable pub all_instructions : List OpenaiMessage → List String
all_instructions [] = []
all_instructions (m ∷ ms) = instructions_of m ++ all_instructions ms

abbrev pub joined_instructions : List String → Option String
joined_instructions [] = none
joined_instructions (i ∷ is) = some (join "\n\n" (keep (λ t. truthy (some t)) (i ∷ is)))

-- A function tool, and the choice of a tool. A description or a schema that Python takes for false is
-- `none`.
pub record ChatFunction (J : Type 0) : Type 0 where
  pub name : Option String
  pub description : Option String
  pub parameters : Option J

pub data ChatToolChoice : Type 0 where
  text_tool_choice : String → ChatToolChoice
  -- `choice["function"]["name"]`, if there is one
  function_tool_choice : Option String → ChatToolChoice

-- `tools` has `none` for a tool that is no function; `fields` holds the other fields of the payload.
pub record ChatRequest (J : Type 0) : Type 0 where
  pub model : Option String
  pub messages : List OpenaiMessage
  pub tools : List (Option (ChatFunction J))
  pub tool_choice : Option ChatToolChoice
  pub max_output_tokens : Option ℕ
  pub max_completion_tokens : Option ℕ
  pub max_tokens : Option ℕ
  pub reasoning_effort : Option String
  pub fields : Dict String J

pub record ResponseFunction (J : Type 0) : Type 0 where
  pub name : Option String
  pub description : String
  pub parameters : J

-- `store` is false in every request.
pub record ResponsesRequest (J : Type 0) : Type 0 where
  pub model : Option String
  pub input : List Item
  pub instructions : Option String
  pub tools : List (ResponseFunction J)
  pub tool_choice : Option ChatToolChoice
  pub max_output_tokens : Option ℕ
  pub reasoning : Option String
  pub fields : Dict String J

-- `x or y` of counts
abbrev pub or_count : Option ℕ → Option ℕ → Option ℕ
or_count none other = other
or_count (some n) other = if nat_beq n 0 then other else some n

abbrev pub choice_of : Option ChatToolChoice → Option ChatToolChoice
choice_of none = none
choice_of (some (text_tool_choice text)) = some (text_tool_choice text)
choice_of (some (function_tool_choice name)) =
    if truthy name then some (function_tool_choice name) else none

-- `_PASS`
abbrev pub pass_keys : List String
pass_keys =
    "temperature" ∷ "top_p" ∷ "parallel_tool_calls" ∷ "user" ∷ "metadata" ∷ "service_tier" ∷ []

module _ {J : Type 0} where
  abbrev pub passed : List String → Dict String J → Dict String J
  passed [] fields = []
  passed (key ∷ keys) fields =
      let rest = passed keys fields in
      elim (Dict.get key fields) [ none ↦ rest | some value ↦ (key, value) ∷ rest ]

-- `no_parameters` is the schema of an object without properties.
module _ {J : Type 0} (no_parameters : J) where
  abbrev pub response_tools : List (Option (ChatFunction J)) → List (ResponseFunction J)
  response_tools [] = []
  response_tools (none ∷ ts) = response_tools ts
  response_tools (some f ∷ ts) =
      record {
        name = f.name;
        description = or_else f.description "";
        parameters = or_else f.parameters no_parameters;
      }
      ∷ response_tools ts

  unfoldable pub chat_to_responses : ChatRequest J → ResponsesRequest J
  chat_to_responses payload = record {
    model = payload.model;
    input = all_items payload.messages;
    instructions = joined_instructions (all_instructions payload.messages);
    tools = response_tools payload.tools;
    tool_choice = choice_of payload.tool_choice;
    max_output_tokens =
        or_count
          (or_count payload.max_output_tokens
            (or_count payload.max_completion_tokens payload.max_tokens))
          none;
    reasoning = if truthy payload.reasoning_effort then payload.reasoning_effort else none;
    fields = passed pass_keys payload.fields;
  }
