-- ===== src/Gateway.antt =====
-- auto_router/server.py: what the HTTP server reads of a request and of an upstream's answer. The
-- objects of an answer's `choices` are objects or null, and the texts of its parts are texts.
pub mod Turn
pub mod Covered
pub mod Distinct
pub mod Kept
pub mod Lost
pub mod Static
use auto_model_router.Prelude.{
  ℕ, nat_beq, String, Bool, true, false, not, ◌&&◌, ◌||◌, Option, none, some, List, [], ◌∷◌, str_eq,
  string_eq, any, is_some, if◌then◌else◌, ltb,
}
use mathlib.Core.List.{reverse}
use auto_model_router.Prelude.Float.{Float}
use auto_model_router.Prelude.Json.{
  Json, null, bool, int, negative, float, str, arr, obj, Items, nil, cons, Fields, end, field,
  lookup, to_list,
}
use auto_model_router.Prelude.Text.{join, strip_text}
use auto_model_router.Prelude.Dict.{Dict}
use auto_model_router.Catalog.{ModelInfo, or_else, truthy, is_free}
use auto_model_router.Usage.{Usage, cost_usd}
use auto_model_router.Truncation.{choices_of}
use auto_model_router.OutcomeMemory.{explicit_budget}
use auto_model_router.Router.Messages.{
  Piece, text_piece, untyped_piece, result_piece, other_piece, Content, text_content, piece_content,
  other_content, Message,
}
use auto_model_router.Router.Checking.{is_blank}

-- `p.get("type", "text") == "text"`
abbrev pub shown_texts : List Piece → List String
shown_texts [] = []
shown_texts (text_piece text ∷ ps) = or_else text "" ∷ shown_texts ps
shown_texts (untyped_piece text ∷ ps) = or_else text "" ∷ shown_texts ps
shown_texts (result_piece failed text ∷ ps) = shown_texts ps
shown_texts (other_piece ∷ ps) = shown_texts ps

abbrev pub shown : Content → String
shown (text_content text) = text
shown (piece_content pieces) = join "" (shown_texts pieces)
shown other_content = ""

abbrev pub newest_request : List Message → String
newest_request [] = ""
newest_request (m ∷ ms) =
    let rest = newest_request ms in
    if str_eq m.role "user" && not (is_blank (shown m.content)) then shown m.content else rest

unfoldable pub request_text : List Message → String
request_text messages = newest_request (reverse messages)

-- `explicit_max_tokens`: the inner `none` is no budget, and the outer one the `ValueError`.
abbrev pub stated_budget : Option ℕ → Option (Option ℕ)
stated_budget none = none
stated_budget (some n) = some (some n)

module _ {F : Type 0} where
  abbrev pub member : String → Json F → Option (Json F)
  member k (obj d) = lookup k d
  member k null = none
  member k (bool b) = none
  member k (int n) = none
  member k (negative n) = none
  member k (float x) = none
  member k (str s) = none
  member k (arr xs) = none

  -- `d.get(k) or {}`, then a key of it
  abbrev pub inner : Option (Json F) → String → Option (Json F)
  inner none k = none
  inner (some v) k = member k v

  abbrev pub text_of : Option (Json F) → String
  text_of (some (str s)) = s
  text_of _ = ""

  abbrev pub part_texts : List (Json F) → List String
  part_texts [] = []
  part_texts (obj d ∷ ps) = text_of (lookup "text" d) ∷ part_texts ps
  part_texts (_ ∷ ps) = part_texts ps

  abbrev pub content_text : Option (Json F) → Option String
  content_text (some (str s)) = some s
  content_text (some (arr ps)) = some (join "" (part_texts (to_list ps)))
  content_text _ = none

  abbrev pub first_text : List (Json F) → String
  first_text [] = ""
  first_text (c ∷ cs) =
      or_else (content_text (inner (member "message" c) "content")) (first_text cs)

  unfoldable pub answer_text : Json F → String
  answer_text body = first_text (choices_of (member "choices" body))

  -- A value that `if` takes for true; a float is not zero.
  abbrev pub is_truthy : Option (Json F) → Bool
  is_truthy none = false
  is_truthy (some null) = false
  is_truthy (some (bool b)) = b
  is_truthy (some (int n)) = not (nat_beq n 0)
  is_truthy (some (negative n)) = true
  is_truthy (some (float x)) = true
  is_truthy (some (str s)) = not (str_eq s "")
  is_truthy (some (arr nil)) = false
  is_truthy (some (arr (cons x xs))) = true
  is_truthy (some (obj end)) = false
  is_truthy (some (obj (field k v d))) = true

  abbrev pub asks_tools : Json F → Bool
  asks_tools c =
      str_eq (text_of (member "finish_reason" c)) "tool_calls"
      || is_truthy (inner (member "message" c) "tool_calls")

  unfoldable pub has_tool_calls : Json F → Bool
  has_tool_calls body = any asks_tools (choices_of (member "choices" body))

  unfoldable pub explicit_max_tokens : Option (Json F) → Option (Option ℕ)
  explicit_max_tokens none = some none
  explicit_max_tokens (some null) = some none
  explicit_max_tokens (some v) = stated_budget (explicit_budget v)

module _ {F : Type 0} ⦃fl : Float F⦄ where
  -- The cost that `record_observed` writes down
  unfoldable pub observed_cost : ModelInfo F → Option Usage → Option F
  observed_cost m none = none
  observed_cost m (some usage) =
      if truthy m.subscription || m.local || is_free m.prices then none else some (cost_usd m usage)
