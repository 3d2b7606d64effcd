-- ===== src/Translate/Answers.antt =====
-- `openai_response_to_anthropic` and `anthropic_sse_from_message` of auto_router/translate.py. `J` is
-- the type of a tool's input, with `json.loads` (`none` where it raises), `json.dumps` and `{}`.
-- `none` is a `TranslationError`. An id that the answer lacks is the random one given.
pub mod Replayed
pub mod Calls
use auto_model_router.Prelude.{
  ℕ, suc, ◌+◌, ◌-◌, String, Bool, true, false, Option, none, some, List, [], ◌∷◌, ◌++◌,
  if◌then◌else◌,
}
use auto_model_router.Prelude.Dict.{Dict}
use auto_model_router.Prelude.Text.{codes, codes_eq, strip}
use auto_model_router.Catalog.{truthy, or_else}
use auto_model_router.Usage.{Usage, count}
use auto_model_router.Translate.Events.{
  text_block, tool_block, text_delta, input_json_delta, Event, message_start, content_block_start,
  content_block_delta, content_block_stop, message_delta, message_stop, mapped_stop,
}
use auto_model_router.Translate.Ids.{anthropic_tool_id}

-- `function.arguments`: a text, an object, or something else.
pub data Arguments (J : Type 0) : Type 0 where
  text_arguments : String → Arguments J
  object_arguments : J → Arguments J
  no_arguments : Arguments J

pub record AnswerCall (J : Type 0) : Type 0 where
  pub id : Option String
  pub name : Option String
  pub arguments : Arguments J

pub record AnswerChoice (J : Type 0) : Type 0 where
  pub content : Option String
  pub tool_calls : List (AnswerCall J)
  pub finish_reason : Option String

pub record Answer (J : Type 0) : Type 0 where
  pub id : Option String
  pub choices : List (AnswerChoice J)
  pub usage : Dict String ℕ
  pub details : Dict String ℕ

pub data Content (J : Type 0) : Type 0 where
  text_content : String → Content J
  -- the id, the name and the input, or `{}` for an input that Python takes for false
  tool_content : String → String → J → Content J
  other_content : String → Content J

pub record Message (J : Type 0) : Type 0 where
  pub id : String
  pub content : List (Content J)
  pub model : String
  pub stop_reason : Option String
  pub stop_sequence : Option String
  pub usage : Usage

-- `x or y` of a text
abbrev pub text_or : Option String → String → String
text_or text other = if truthy text then or_else text other else other

module _ {J : Type 0} (loads : String → Option J) (empty : J) where
  abbrev pub read_arguments : Arguments J → Option J
  read_arguments (text_arguments raw) =
      if codes_eq (strip (codes raw)) [] then some empty else loads raw
  read_arguments (object_arguments input) = some input
  read_arguments no_arguments = some empty

module _ {J : Type 0} (fresh : ℕ → String) where
  abbrev pub with_call :
      ℕ → AnswerCall J → Option J → Option (List (Content J)) → Option (List (Content J))
  with_call i call none rest = none
  with_call i call (some input) none = none
  with_call i call (some input) (some blocks) =
      some
        (tool_content (anthropic_tool_id (fresh i) call.id) (text_or call.name "") input ∷ blocks)

module _ {J : Type 0} (loads : String → Option J) (empty : J) (fresh : ℕ → String) where
  -- The loop over `tool_calls`; `i` numbers the random ids.
  unfoldable pub call_blocks : ℕ → List (AnswerCall J) → Option (List (Content J))
  call_blocks i [] = some []
  call_blocks i (call ∷ calls) =
      with_call fresh i call (read_arguments loads empty call.arguments) (call_blocks (i + 1) calls)

abbrev pub text_blocks : {J : Type 0} → Option String → List (Content J)
text_blocks content = if truthy content then text_content (or_else content "") ∷ [] else []

abbrev pub or_empty_text : {J : Type 0} → List (Content J) → List (Content J)
or_empty_text [] = text_content "" ∷ []
or_empty_text (b ∷ bs) = b ∷ bs

abbrev pub mapped_finish : Option String → String
mapped_finish none = "end_turn"
mapped_finish (some finish) = mapped_stop finish

abbrev pub answer_stop : {J : Type 0} → List (AnswerCall J) → Option String → String
answer_stop [] finish = mapped_finish finish
answer_stop (call ∷ calls) finish = "tool_use"

abbrev pub answer_usage : Dict String ℕ → Dict String ℕ → Usage
answer_usage usage details =
    let cached = count "cached_tokens" details in
    let written = count "cache_write_tokens" details in
    record {
      uncached_input = count "prompt_tokens" usage - cached - written;
      cached_read = cached;
      cache_write = written;
      output = count "completion_tokens" usage;
    }

module _ {J : Type 0} (loads : String → Option J) (empty : J) (fresh : ℕ → String)
    (message_id model_name : String) where
  abbrev pub answer_message :
      Answer J → AnswerChoice J → Option (List (Content J)) → Option (Message J)
  answer_message answer choice none = none
  answer_message answer choice (some calls) = some (record {
    id = text_or answer.id message_id;
    content = or_empty_text (text_blocks choice.content ++ calls);
    model = model_name;
    stop_reason = some (answer_stop choice.tool_calls choice.finish_reason);
    stop_sequence = none;
    usage = answer_usage answer.usage answer.details;
  })

  abbrev pub first_choice : Answer J → List (AnswerChoice J) → Option (Message J)
  first_choice answer [] = none
  first_choice answer (choice ∷ choices) =
      answer_message answer choice (call_blocks loads empty fresh 0 choice.tool_calls)

  -- `openai_response_to_anthropic`
  unfoldable pub openai_response_to_anthropic : Answer J → Option (Message J)
  openai_response_to_anthropic answer = first_choice answer answer.choices

abbrev pub before_rest : Option (List Event) → List Event × Bool → List Event × Bool
before_rest none rest = ([], false)
before_rest (some es) rest = (es ++ rest.0, rest.1)

module _ {J : Type 0} (dumps : J → String) where
  -- A block's events, `none` where its type cannot be streamed.
  abbrev pub block_events : ℕ → Content J → Option (List Event)
  block_events i (text_content text) = some (
      content_block_start i text_block
      ∷ ((if truthy (some text) then content_block_delta i (text_delta text) ∷ [] else [])
          ++ (content_block_stop i ∷ [])))
  block_events i (tool_content id name input) = some (
      content_block_start i (tool_block id name)
      ∷ content_block_delta i (input_json_delta (dumps input))
      ∷ content_block_stop i
      ∷ [])
  block_events i (other_content kind) = none

  -- What the loop and the lines after it yield, and whether no block raised.
  unfoldable pub replay_from : ℕ → List (Content J) → List Event → List Event × Bool
  replay_from i [] ending = (ending, true)
  replay_from i (b ∷ bs) ending = before_rest (block_events i b) (replay_from (i + 1) bs ending)

  unfoldable pub anthropic_sse_from_message : Message J → List Event × Bool
  anthropic_sse_from_message m =
      let rest =
        replay_from 0 m.content
          (message_delta m.stop_reason m.stop_sequence m.usage.output ∷ message_stop ∷ []) in
      (message_start m.id m.model m.usage ∷ rest.0, rest.1)
