-- ===== src/Router/Messages.antt =====
-- What auto_router/router.py reads of the messages: `last_user_text`, `is_tool_continuation` and
-- `recent_tool_errors`. A piece of a list is a constructor for each shape that the code tells apart.
use auto_model_router.Prelude.{
  ℕ, ◌+◌, ◌-◌, String, Bool, true, false, not, ◌&&◌, ◌||◌, Option, none, some, List, [], ◌∷◌,
  str_eq, is_some, if◌then◌else◌, any, length, drop, last?,
}
use mathlib.Core.List.{reverse}
use auto_model_router.Prelude.Text.{codes, text_after, join}
use auto_model_router.Catalog.{or_else}

pub data Piece : Type 0 where
  -- `text`, which may be absent
  text_piece : Option String → Piece
  -- a piece without a type
  untyped_piece : Option String → Piece
  -- whether `is_error` is true, and the content, as `str` writes it where it is no text
  result_piece : Bool → String → Piece
  -- another type, or no object
  other_piece : Piece

pub data Content : Type 0 where
  text_content : String → Content
  piece_content : List Piece → Content
  other_content : Content

pub record Message : Type 0 where
  pub role : String
  pub content : Content

abbrev pub piece_texts : List Piece → List String
piece_texts [] = []
piece_texts (text_piece text ∷ ps) = or_else text "" ∷ piece_texts ps
piece_texts (untyped_piece text ∷ ps) = piece_texts ps
piece_texts (result_piece failed text ∷ ps) = piece_texts ps
piece_texts (other_piece ∷ ps) = piece_texts ps

abbrev pub joined_or : List String → String → String
joined_or [] rest = rest
joined_or (t ∷ ts) rest = join "\n" (t ∷ ts)

abbrev pub text_or_rest : Content → String → String
text_or_rest (text_content text) rest = text
text_or_rest (piece_content pieces) rest = joined_or (piece_texts pieces) rest
text_or_rest other_content rest = rest

-- The loop over the messages from the newest on
abbrev pub newest_text : List Message → String
newest_text [] = ""
newest_text (m ∷ ms) =
    let rest = newest_text ms in if str_eq m.role "user" then text_or_rest m.content rest else rest

unfoldable pub last_user_text : List Message → String
last_user_text messages = newest_text (reverse messages)

abbrev pub is_result : Piece → Bool
is_result (result_piece failed text) = true
is_result (text_piece text) = false
is_result (untyped_piece text) = false
is_result other_piece = false

abbrev pub is_text : Piece → Bool
is_text (text_piece text) = true
is_text (result_piece failed text) = false
is_text (untyped_piece text) = false
is_text other_piece = false

abbrev pub only_results : Content → Bool
only_results (text_content text) = false
only_results (piece_content pieces) = any is_result pieces && not (any is_text pieces)
only_results other_content = false

abbrev pub feeds_result : Option Message → Bool
feeds_result none = false
feeds_result (some m) = str_eq m.role "tool" || (str_eq m.role "user" && only_results m.content)

unfoldable pub is_tool_continuation : List Message → Bool
is_tool_continuation messages = feeds_result (last? messages)

-- `needle in text`
unfoldable pub occurs : List ℕ → List ℕ → Bool
occurs needle [] = is_some (text_after needle [])
occurs needle (c ∷ cs) = is_some (text_after needle (c ∷ cs)) || occurs needle cs

abbrev pub markers : List String
markers =
    "Traceback" ∷ "FAILED" ∷ "Error:" ∷ "error:" ∷ "AssertionError" ∷ "exit code 1" ∷ "is_error"
    ∷ []

abbrev pub is_marked : String → Bool
is_marked blob = any (λ m. occurs (codes m) (codes blob)) markers

abbrev pub result_blobs : List Piece → List String
result_blobs [] = []
result_blobs (result_piece true text ∷ ps) = "is_error" ∷ text ∷ result_blobs ps
result_blobs (result_piece false text ∷ ps) = text ∷ result_blobs ps
result_blobs (text_piece text ∷ ps) = result_blobs ps
result_blobs (untyped_piece text ∷ ps) = result_blobs ps
result_blobs (other_piece ∷ ps) = result_blobs ps

abbrev pub blobs_of : Message → List String
blobs_of m = elim m.content [
  | text_content text ↦ if str_eq m.role "tool" then text ∷ [] else []
  | piece_content pieces ↦ result_blobs pieces
  | other_content ↦ []
]

-- What a message does to the count: it goes on, it stops, or it counts one more.
abbrev pub count_blobs : Bool → List String → ℕ → ℕ
count_blobs true [] rest = rest
count_blobs false [] rest = 0
count_blobs is_assistant (b ∷ bs) rest = if any is_marked (b ∷ bs) then rest + 1 else 0

abbrev pub count_errors : List Message → ℕ
count_errors [] = 0
count_errors (m ∷ ms) =
    let rest = count_errors ms in count_blobs (str_eq m.role "assistant") (blobs_of m) rest

-- `recent_tool_errors` with its window of 6
unfoldable pub recent_tool_errors : List Message → ℕ
recent_tool_errors messages = count_errors (reverse (drop (length messages - 12) messages))
