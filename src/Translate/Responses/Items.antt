-- ===== src/Translate/Responses/Items.antt =====
-- What `chat_to_responses` of auto_router/responses_api.py keeps of a conversation.
use mathlib.Core.List.{append_assoc}
use auto_model_router.Prelude.{
  ◌≡◌, refl, ap, ◌∙◌, String, Bool, true, false, none, some, List, [], ◌∷◌, ◌++◌, str_eq,
  if◌then◌else◌,
}
use auto_model_router.Catalog.{truthy}
use auto_model_router.Translate.Answers.{text_or}
use auto_model_router.Translate.Requests.{
  OpenaiMessage, said, assistant, tool, OpenaiCall, OpenaiBody,
}
use auto_model_router.Translate.Responses.{
  ChatRequest, Item, user_item, assistant_item, function_call, function_call_output, text_items,
  call_items, all_items, chat_to_responses, body_text, is_instruction, user_content,
}

-- The calls of an input, and the outputs that name their call.
abbrev pub item_calls : List Item → List OpenaiCall
item_calls [] = []
item_calls (function_call call ∷ is) = call ∷ item_calls is
item_calls (user_item content ∷ is) = item_calls is
item_calls (assistant_item text ∷ is) = item_calls is
item_calls (function_call_output id produced ∷ is) = item_calls is

abbrev pub item_outputs : List Item → List (String × String)
item_outputs [] = []
item_outputs (function_call_output (some id) produced ∷ is) = (id, produced) ∷ item_outputs is
item_outputs (function_call_output none produced ∷ is) = item_outputs is
item_outputs (function_call call ∷ is) = item_outputs is
item_outputs (user_item content ∷ is) = item_outputs is
item_outputs (assistant_item text ∷ is) = item_outputs is

-- The same of the conversation; a call without arguments gets `{}`.
abbrev pub with_arguments : List OpenaiCall → List OpenaiCall
with_arguments [] = []
with_arguments ((id, (name, arguments)) ∷ cs) =
    (id, (name, text_or (some arguments) "{}")) ∷ with_arguments cs

abbrev pub asked_calls : List OpenaiMessage → List OpenaiCall
asked_calls [] = []
asked_calls (said role body ∷ ms) = asked_calls ms
asked_calls (assistant body calls ∷ ms) = with_arguments calls ++ asked_calls ms
asked_calls (tool id produced ∷ ms) = asked_calls ms

abbrev pub tool_outputs : List OpenaiMessage → List (String × String)
tool_outputs [] = []
tool_outputs (said role body ∷ ms) = tool_outputs ms
tool_outputs (assistant body calls ∷ ms) = tool_outputs ms
tool_outputs (tool id produced ∷ ms) = (id, produced) ∷ tool_outputs ms

-- Items after others that hold neither a call nor such an output
abbrev Silent : List Item → Type 0
Silent is =
    (rest : List Item)
    → (item_calls (is ++ rest) ≡ item_calls rest) × (item_outputs (is ++ rest) ≡ item_outputs rest)

text_if-Silent :
    (flag : Bool) (text : String) → Silent (if flag then assistant_item text ∷ [] else [])
text_if-Silent true text rest = (refl, refl)
text_if-Silent false text rest = (refl, refl)

-- `said_items` by the answers of its tests
said_if-Silent :
    (i u a t : Bool) (body : OpenaiBody)
    → Silent (
        if i
        then []
        else if u
        then user_item (user_content body) ∷ []
        else if a
        then text_items body
        else if t
        then function_call_output none (body_text body) ∷ []
        else [])
said_if-Silent true u a t body rest = (refl, refl)
said_if-Silent false true a t body rest = (refl, refl)
said_if-Silent false false true t body rest =
    text_if-Silent (truthy (some (body_text body))) (body_text body) rest
said_if-Silent false false false true body rest = (refl, refl)
said_if-Silent false false false false body rest = (refl, refl)

call_items-keep :
    (calls : List OpenaiCall) (rest : List Item)
    → (item_calls (call_items calls ++ rest) ≡ with_arguments calls ++ item_calls rest)
      × (item_outputs (call_items calls ++ rest) ≡ item_outputs rest)
call_items-keep [] rest = (refl, refl)
call_items-keep ((id, (name, arguments)) ∷ cs) rest =
    let (c, o) = call_items-keep cs rest in
    (ap (λ l. (id, (name, text_or (some arguments) "{}")) ∷ l) c, o)

all_items-keeps :
    (ms : List OpenaiMessage)
    → (item_calls (all_items ms) ≡ asked_calls ms) × (item_outputs (all_items ms) ≡ tool_outputs ms)
unfolding all_items
all_items-keeps [] = (refl, refl)
all_items-keeps (said role body ∷ ms) =
    let (c, o) =
      said_if-Silent (is_instruction role) (str_eq role "user") (str_eq role "assistant")
        (str_eq role "tool") body (all_items ms) in
    let (cs, os) = all_items-keeps ms in (c ∙ cs, o ∙ os)
all_items-keeps (assistant body calls ∷ ms) =
    let rest = call_items calls ++ all_items ms in
    let same = append_assoc (text_items body) (call_items calls) (all_items ms) in
    let (c, o) = text_if-Silent (truthy (some (body_text body))) (body_text body) rest in
    let (d, p) = call_items-keep calls (all_items ms) in
    let (cs, os) = all_items-keeps ms in
    (
      ap item_calls same ∙ c ∙ d ∙ ap (λ l. with_arguments calls ++ l) cs,
      ap item_outputs same ∙ o ∙ p ∙ os,
    )
all_items-keeps (tool id produced ∷ ms) =
    let (cs, os) = all_items-keeps ms in (cs, ap (λ l. (id, produced) ∷ l) os)

-- The input of the translated request holds the calls of the assistant's messages, with their ids,
-- names and arguments, and the outputs of the tool messages under the ids of their calls,
-- each in the order of the conversation.
pub chat_to_responses-keeps :
    {J : Type 0} (no_parameters : J) (payload : ChatRequest J)
    → let input = (chat_to_responses no_parameters payload).input in
      (item_calls input ≡ asked_calls payload.messages)
      × (item_outputs input ≡ tool_outputs payload.messages)
unfolding chat_to_responses
chat_to_responses-keeps no_parameters payload = all_items-keeps payload.messages
