-- ===== src/Translate/Requests.antt =====
-- Requests of auto_router/translate.py: Anthropic messages to chat-completion messages. A value of
-- the request's JSON is a constructor for each shape that the code tells apart; `J` is the type of
-- other JSON values, with `json.dumps`. `none` is a `TranslationError`. `fresh i` is the random id
-- of the i-th call of a message where it has none.
pub mod Kept
pub mod Results
pub mod Order
use auto_model_router.Prelude.{
  ℕ, ◌+◌, String, Bool, true, false, not, ◌&&◌, ◌||◌, Option, none, some, List, [], ◌∷◌, ◌++◌, ◌<>◌,
  str_eq, string_eq, if◌then◌else◌, length, keep, map, any,
}
use auto_model_router.Prelude.Dict
use auto_model_router.Prelude.Dict.{Dict}
use auto_model_router.Prelude.Text.{strip_text, join}
use auto_model_router.Catalog.{truthy, or_else}
use auto_model_router.Translate.Answers.{text_or}

-- `content` of a tool result
pub data ResultPart (J : Type 0) : Type 0 where
  text_part : Option String → ResultPart J
  object_part : J → ResultPart J
  -- anything else, as `str` writes it
  plain_part : String → ResultPart J

pub data ToolOutput (J : Type 0) : Type 0 where
  no_output : ToolOutput J
  text_output : String → ToolOutput J
  parts_output : List (ResultPart J) → ToolOutput J
  other_output : J → ToolOutput J

pub data ImageSource : Type 0 where
  -- the media type and the data, `none` where it is no text
  base64 : Option String → Option String → ImageSource
  url : String → ImageSource
  other_source : ImageSource

pub data RequestBlock (J : Type 0) : Type 0 where
  text_in : Option String → RequestBlock J
  thinking redacted_thinking : RequestBlock J
  image : ImageSource → RequestBlock J
  -- the id, the name and the input, or `{}` for an input that Python takes for false
  tool_use : Option String → Option String → J → RequestBlock J
  tool_result : Option String → ToolOutput J → RequestBlock J
  no_object unknown : RequestBlock J

pub data RequestBody (J : Type 0) : Type 0 where
  text_body : String → RequestBody J
  blocks_body : List (RequestBlock J) → RequestBody J
  other_body : RequestBody J

pub record RequestMessage (J : Type 0) : Type 0 where
  pub role : String
  pub content : RequestBody J

-- `system`: the texts of a list are those of its objects that hold one.
pub data System : Type 0 where
  no_system : System
  text_system : String → System
  list_system : List (Option String) → System
  other_system : System

pub data Part : Type 0 where
  text_out image_out : String → Part

pub data OpenaiBody : Type 0 where
  null_body : OpenaiBody
  text_only : String → OpenaiBody
  with_images : List Part → OpenaiBody

-- The id, the name and the arguments
abbrev pub OpenaiCall : Type 0
OpenaiCall = String × (String × String)

pub data OpenaiMessage : Type 0 where
  said : String → OpenaiBody → OpenaiMessage
  assistant : OpenaiBody → List OpenaiCall → OpenaiMessage
  -- the call's id and its output
  tool : String → String → OpenaiMessage

abbrev pub texts_of : List (Option String) → List String
texts_of [] = []
texts_of (none ∷ ts) = texts_of ts
texts_of (some t ∷ ts) = t ∷ texts_of ts

-- What comes after a call that may raise.
abbrev pub or_raise : {A B : Type 0} → Option A → (A → Option B) → Option B
or_raise none next = none
or_raise (some x) next = next x

abbrev pub or_none : String → Option String
or_none text = if truthy (some text) then some text else none

-- `none` where it raises
unfoldable pub extract_system_text : System → Option (Option String)
extract_system_text no_system = some none
extract_system_text (text_system text) = some (or_none text)
extract_system_text (list_system parts) = some (or_none (join "\n" (texts_of parts)))
extract_system_text other_system = none

module _ {J : Type 0} (dumps : J → String) where
  abbrev pub result_text : ResultPart J → String
  result_text (text_part text) = text_or text ""
  result_text (object_part value) = dumps value
  result_text (plain_part text) = text

  -- `_coerce_tool_result`
  unfoldable pub coerce_tool_result : ToolOutput J → String
  coerce_tool_result no_output = ""
  coerce_tool_result (text_output text) = text
  coerce_tool_result (parts_output parts) = join "\n" (map result_text parts)
  coerce_tool_result (other_output value) = dumps value

module _ {J : Type 0} where
  abbrev pub block_texts : List (RequestBlock J) → List String
  block_texts [] = []
  block_texts (text_in text ∷ bs) = or_else text "" ∷ block_texts bs
  block_texts (b ∷ bs) = block_texts bs

  -- `_system_message_text`
  unfoldable pub system_message_text : RequestBody J → String
  system_message_text (text_body text) = strip_text text
  system_message_text (blocks_body blocks) = strip_text (join "\n" (block_texts blocks))
  system_message_text other_body = ""

abbrev pub user_text : String → OpenaiMessage
user_text text = said "user" (text_only text)

abbrev pub merged : String → OpenaiMessage → List OpenaiMessage
merged text (said role (text_only before)) =
    if str_eq role "user"
    then said role (text_only (before <> ("\n\n" <> text))) ∷ []
    else said role (text_only before) ∷ user_text text ∷ []
merged text (said role (with_images parts)) =
    if str_eq role "user"
    then said role (with_images (parts ++ (text_out text ∷ []))) ∷ []
    else said role (with_images parts) ∷ user_text text ∷ []
merged text m = m ∷ user_text text ∷ []

abbrev pub merge_last : String → List OpenaiMessage → List OpenaiMessage
merge_last text [] = user_text text ∷ []
merge_last text (m ∷ []) = merged text m
merge_last text (m ∷ (n ∷ ms)) = m ∷ merge_last text (n ∷ ms)

-- `_append_user_text`
unfoldable pub append_user_text : List OpenaiMessage → String → List OpenaiMessage
append_user_text out text = if truthy (some text) then merge_last text out else out

-- What the loop over the blocks of a message has collected.
pub record Collected : Type 0 where
  pub parts : List Part
  pub tool_calls : List OpenaiCall
  pub tool_results : List OpenaiMessage

abbrev pub nothing : Collected
nothing = record { parts = []; tool_calls = []; tool_results = [] }

abbrev pub add_part : Part → Collected → Collected
add_part p c = record c { parts = c.parts ++ (p ∷ []) }

abbrev pub read_image : ImageSource → Collected → Option Collected
read_image (base64 media none) c = none
read_image (base64 media (some payload)) c =
    if str_eq (strip_text payload) ""
    then none
    else some
        (add_part (image_out ("data:" <> (text_or media "image/png" <> (";base64," <> payload)))) c)
read_image (url address) c = some (add_part (image_out address) c)
read_image other_source c = none

module _ {J : Type 0} (dumps : J → String) (fresh : ℕ → String) where
  abbrev pub read_block : RequestBlock J → Collected → Option Collected
  read_block (text_in text) c =
      some (if truthy text then add_part (text_out (or_else text "")) c else c)
  read_block thinking c = some c
  read_block redacted_thinking c = some c
  read_block (image source) c = read_image source c
  read_block (tool_use id name input) c = some (record c {
    tool_calls =
        c.tool_calls
        ++ ((text_or id (fresh (length c.tool_calls)), (text_or name "", dumps input)) ∷ []);
  })
  read_block (tool_result id produced) c =
      if truthy id
      then some (record c {
        tool_results =
            c.tool_results ++ (tool (or_else id "") (coerce_tool_result dumps produced) ∷ []);
      })
      else none
  read_block no_object c = none
  read_block unknown c = none

  unfoldable pub read_blocks : List (RequestBlock J) → Collected → Option Collected
  read_blocks [] c = some c
  read_blocks (b ∷ bs) c = or_raise (read_block b c) (λ c'. read_blocks bs c')

abbrev pub is_image : Part → Bool
is_image (text_out text) = false
is_image (image_out address) = true

abbrev pub part_texts : List Part → List String
part_texts [] = []
part_texts (text_out text ∷ ps) = text ∷ part_texts ps
part_texts (image_out address ∷ ps) = part_texts ps

abbrev pub joined_text : Collected → String
joined_text c = strip_text (join "\n" (part_texts c.parts))

abbrev pub has_image : Collected → Bool
has_image c = any is_image c.parts

abbrev pub body_of : Collected → OpenaiBody
body_of c = if has_image c then with_images c.parts else text_only (joined_text c)

-- `body or None`
abbrev pub body_or_null : OpenaiBody → OpenaiBody
body_or_null null_body = null_body
body_or_null (with_images parts) = with_images parts
body_or_null (text_only text) = if truthy (some text) then text_only text else null_body

abbrev pub says_something : Collected → Bool
says_something c = truthy (some (joined_text c)) || has_image c

abbrev pub has_calls : Collected → Bool
has_calls c = elim c.tool_calls [ [] ↦ false | call ∷ calls ↦ true ]

-- What a message with blocks becomes: tool results come before the user's text.
abbrev pub emitted : String → Collected → List OpenaiMessage
emitted role c =
    if str_eq role "assistant"
    then (if says_something c || has_calls c
        then assistant (body_or_null (body_of c)) c.tool_calls ∷ []
        else [])
    else c.tool_results ++ (if says_something c then said "user" (body_of c) ∷ [] else [])

abbrev pub or_no_messages : Option (List OpenaiMessage) → Option (List OpenaiMessage)
or_no_messages none = none
or_no_messages (some []) = none
or_no_messages (some (m ∷ ms)) = some (m ∷ ms)

abbrev pub system_first : Option String → List OpenaiMessage
system_first none = []
system_first (some text) = said "system" (text_only text) ∷ []

module _ {J : Type 0} (dumps : J → String) (fresh : ℕ → ℕ → String) where
  abbrev pub add_blocks :
      String → List OpenaiMessage → Option Collected → Option (List OpenaiMessage)
  add_blocks role out none = none
  add_blocks role out (some c) = some (out ++ emitted role c)

  abbrev pub add_body :
      ℕ → String → RequestBody J → List OpenaiMessage → Option (List OpenaiMessage)
  add_body n role (text_body text) out = some (out ++ (said role (text_only text) ∷ []))
  add_body n role (blocks_body blocks) out =
      add_blocks role out (read_blocks dumps (fresh n) blocks nothing)
  add_body n role other_body out = none

  abbrev pub add_message : ℕ → RequestMessage J → List OpenaiMessage → Option (List OpenaiMessage)
  add_message n m out =
      if str_eq m.role "system"
      then some (append_user_text out (system_message_text m.content))
      else add_body n m.role m.content out

  -- The loop over `messages`, `n` counting them
  unfoldable pub add_messages :
      ℕ → List (RequestMessage J) → List OpenaiMessage → Option (List OpenaiMessage)
  add_messages n [] out = some out
  add_messages n (m ∷ ms) out =
      or_raise (add_message n m out) (λ out'. add_messages (n + 1) ms out')

  abbrev pub after_system :
      List (RequestMessage J) → Option (Option String) → Option (List OpenaiMessage)
  after_system messages none = none
  after_system messages (some text) = or_no_messages (add_messages 0 messages (system_first text))

  unfoldable pub messages_to_openai : List (RequestMessage J) → System → Option (List OpenaiMessage)
  messages_to_openai messages system = after_system messages (extract_system_text system)
