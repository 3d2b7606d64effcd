-- ===== src/Examples/Dialects.antt =====
-- The properties of auto_router/translate.py and auto_router/stream_translate.py on concrete chunks,
-- messages and answers.
use auto_model_router.Prelude.{
  get_elem?, All, ℕ, ◌≡◌, refl, String, true, Option, none, some, List, [], ◌∷◌,
}
use auto_model_router.Prelude.Text.{
  codes, text_after, strip, lstrip, is_space, strip_text, lstrip_text, rstrip_text, join,
}
use auto_model_router.Prelude.Dict
use auto_model_router.Translate.Ids.{anthropic_tool_id}
use auto_model_router.Translate.Ids.Kept
use auto_model_router.Translate.Protocol.{Client, waiting, Accepts, IsComplete}
use auto_model_router.Translate.Stream.{
  ChunkChoice, StreamState, CallDelta, Chunk, translate_stream, read_usage, note_finish,
  start_message, write_text, feed_call, feed_calls, feed_chunk, feed_lines, finish_stream,
}
use auto_model_router.Translate.Stream.Accepted
use auto_model_router.Translate.Stream.Text
use auto_model_router.Translate.Answers.{
  text_arguments, AnswerChoice, Answer, Message, text_content, tool_content,
  openai_response_to_anthropic, call_blocks, anthropic_sse_from_message, replay_from,
}
use auto_model_router.Translate.Answers.Replayed
use auto_model_router.Translate.Answers.Calls
use auto_model_router.Translate.Requests.{
  text_in, tool_use, tool_result, text_output, text_body, blocks_body, RequestMessage, text_system,
  OpenaiMessage, said, assistant, tool, text_only, messages_to_openai, add_messages, read_blocks,
  append_user_text, extract_system_text, system_message_text, coerce_tool_result,
}
use auto_model_router.Translate.Requests.Results
use auto_model_router.Translate.Responses.{ChatRequest, chat_to_responses}
use auto_model_router.Translate.Responses.Chat.{ChatMessage, chat_chunks, chat_sse}
use auto_model_router.Translate.Responses.Items
use auto_model_router.Translate.Responses.Lines
use auto_model_router.Translate.Responses.Streamed
use auto_model_router.Translate.Requests.Order

-- A chunk with a text and a whole tool call, sent twice.
abbrev call_delta : CallDelta
call_delta = record { index = 0; id = some "call_1"; name = some "read"; arguments = some "{}" }

abbrev chunk : Chunk
chunk = record {
  usage = ([], none);
  choices =
      record {
        content = some "look";
        tool_calls = call_delta ∷ [];
        finish_reason = some "tool_calls";
      }
      ∷ [];
}

abbrev data_lines : List (List ℕ)
data_lines = codes "data: 1" ∷ codes ": ping" ∷ codes "data: 2" ∷ codes "data: [DONE]" ∷ []

abbrev loaded : List ℕ → Option Chunk
loaded payload = some chunk

abbrev random_id : ℕ → String
random_id i = "toolu_0"

translate_stream-Accepts_example :
    (c : Client) × Accepts waiting
      (translate_stream loaded random_id "msg_1" "large" data_lines).0
      c
translate_stream-Accepts_example =
    Accepted.translate_stream-Accepts loaded random_id "msg_1" "large" data_lines

translate_stream-IsComplete_example :
    IsComplete (translate_stream loaded random_id "msg_1" "large" data_lines).0
unfolding translate_stream feed_lines feed_chunk feed_calls feed_call write_text start_message
    note_finish read_usage finish_stream text_after strip Dict.get Dict.insert
translate_stream-IsComplete_example =
    Accepted.translate_stream-IsComplete loaded random_id "msg_1" "large" data_lines refl

translate_stream-texts_example :
    Text.texts (translate_stream loaded random_id "msg_1" "large" data_lines).0
    ≡ "look" ∷ "look" ∷ []
unfolding translate_stream feed_lines feed_chunk feed_calls feed_call write_text start_message
    note_finish read_usage finish_stream text_after strip Dict.get Dict.insert
translate_stream-texts_example =
    Text.translate_stream-texts loaded random_id "msg_1" "large" data_lines refl

abbrev two_blocks : Message ℕ
two_blocks = record {
  id = "msg_1";
  content = text_content "look" ∷ tool_content "toolu_1" "read" 7 ∷ [];
  model = "large";
  stop_reason = some "tool_use";
  stop_sequence = none;
  usage = record { uncached_input = 10; cached_read = 0; cache_write = 0; output = 3 };
}

abbrev written : ℕ → String
written n = "7"

anthropic_sse_from_message-IsComplete_example :
    IsComplete (anthropic_sse_from_message written two_blocks).0
unfolding anthropic_sse_from_message replay_from
anthropic_sse_from_message-IsComplete_example =
    Replayed.anthropic_sse_from_message-IsComplete written two_blocks refl

abbrev answer_choice : AnswerChoice ℕ
answer_choice = record {
  content = some "look";
  tool_calls =
      record { id = some "call_1"; name = some "read"; arguments = text_arguments "7" } ∷ [];
  finish_reason = some "tool_calls";
}

abbrev answer : Answer ℕ
answer = record { id = none; choices = answer_choice ∷ []; usage = []; details = [] }

abbrev number : String → Option ℕ
number text = some 7

openai_response_to_anthropic-Keeps_example :
    (m : Message ℕ) × (Calls.Keeps number 0 random_id 0 answer_choice.tool_calls
        (Calls.tool_uses m.content)
      × ((anthropic_sse_from_message written m).1 ≡ true))
unfolding openai_response_to_anthropic call_blocks strip is_space lstrip
openai_response_to_anthropic-Keeps_example = (
  _,
  Calls.openai_response_to_anthropic-Keeps number 0 written random_id "msg_1" "large" answer
      answer_choice [] refl refl,
)

abbrev messages : List (RequestMessage ℕ)
messages =
    record { role = "user"; content = text_body "fix it" }
    ∷ record { role = "system"; content = text_body "be brief" }
    ∷ record {
      role = "assistant";
      content =
          blocks_body (text_in (some "look") ∷ tool_use (some "toolu_1") (some "read") 7 ∷ []);
    }
    ∷ record {
      role = "user";
      content =
          blocks_body
            (text_in (some "go on") ∷ tool_result (some "toolu_1") (text_output "done") ∷ []);
    }
    ∷ []

abbrev random_ids : ℕ → ℕ → String
random_ids n i = "toolu_0"

abbrev sent_messages : List OpenaiMessage
sent_messages =
    said "system" (text_only "You help.")
    ∷ said "user" (text_only "fix it\n\nbe brief")
    ∷ assistant (text_only "look") (("toolu_1", ("read", "7")) ∷ [])
    ∷ tool "toolu_1" "done"
    ∷ said "user" (text_only "go on")
    ∷ []

messages_to_openai-Holds_example :
    Results.Holds sent_messages (tool "toolu_1" "done" ∷ []) (("toolu_1", ("read", "7")) ∷ [])
unfolding messages_to_openai add_messages read_blocks append_user_text extract_system_text
    system_message_text coerce_tool_result strip_text lstrip_text rstrip_text join is_space
messages_to_openai-Holds_example =
    Results.messages_to_openai-Holds written random_ids messages (text_system "You help.") refl

messages_to_openai-OnlyFirst_example : Order.OnlyFirst sent_messages
unfolding messages_to_openai add_messages read_blocks append_user_text extract_system_text
    system_message_text coerce_tool_result strip_text lstrip_text rstrip_text join is_space
messages_to_openai-OnlyFirst_example =
    Order.messages_to_openai-OnlyFirst written random_ids messages (text_system "You help.")
      {out = sent_messages} refl

abbrev chat_request : ChatRequest ℕ
chat_request = record {
  model = some "large";
  messages = sent_messages;
  tools = some (record { name = some "read"; description = none; parameters = none }) ∷ [];
  tool_choice = none;
  max_output_tokens = none;
  max_completion_tokens = none;
  max_tokens = some 4096;
  reasoning_effort = some "high";
  fields = [];
}

chat_to_responses-keeps_example :
    (Items.item_calls (chat_to_responses 0 chat_request).input ≡ ("toolu_1", ("read", "7")) ∷ [])
    × (Items.item_outputs (chat_to_responses 0 chat_request).input ≡ ("toolu_1", "done") ∷ [])
chat_to_responses-keeps_example = Items.chat_to_responses-keeps 0 chat_request

abbrev chat : ChatMessage
chat = record {
  content = some "look";
  tool_calls = record { id = some "call_1"; name = some "read"; arguments = "{}" } ∷ [];
  finish_reason = some "tool_calls";
  usage = (("completion_tokens", 3) ∷ [], none);
}

-- A text for each chunk of the chat, with its place in it.
abbrev place_of : List ChunkChoice → ℕ
place_of [] = 4
place_of (c ∷ cs) = elim c.content [
  | some text ↦ 1
  | none ↦ elim c.tool_calls [
    | call ∷ calls ↦ 2
    | [] ↦ elim c.finish_reason [ some reason ↦ 3 | none ↦ 0 ]
  ]
]

abbrev dumped : Chunk → List ℕ
dumped c = b'{' ∷ place_of c.choices ∷ b'}' ∷ []

abbrev read_back : List ℕ → Option Chunk
read_back (open_code ∷ n ∷ text) = get_elem? (chat_chunks chat) n
read_back text = none

chat-Reads : All (Lines.Reads read_back dumped) (chat_chunks chat)
unfolding chat_chunks strip lstrip is_space
chat-Reads = (
  record { trimmed = refl; no_mark = refl; reads = refl },
  (
    record { trimmed = refl; no_mark = refl; reads = refl },
    (
      record { trimmed = refl; no_mark = refl; reads = refl },
      (
        record { trimmed = refl; no_mark = refl; reads = refl },
        (record { trimmed = refl; no_mark = refl; reads = refl }, tt),
      ),
    ),
  ),
)

translate_stream-chat_sse_example :
    (t : StreamState) × (translate_stream read_back random_id "msg_1" "large" (chat_sse dumped chat)
      ≡ (Streamed.chat_events random_id "msg_1" "large" chat, some t))
translate_stream-chat_sse_example =
    Streamed.translate_stream-chat_sse read_back dumped random_id "msg_1" "large" chat chat-Reads
      (refl, tt)

anthropic_tool_id-is_id_example :
    (Kept.is_id (anthropic_tool_id "toolu_0" (some "functions.Write:0")) ≡ true)
    × (anthropic_tool_id "toolu_1" (some (anthropic_tool_id "toolu_0" (some "functions.Write:0")))
        ≡ anthropic_tool_id "toolu_0" (some "functions.Write:0"))
anthropic_tool_id-is_id_example =
    Kept.anthropic_tool_id-is_id "toolu_0" "toolu_1" "functions.Write:0" refl
