-- ===== src/Translate/Ids.antt =====
-- `anthropic_tool_id` of auto_router/translate.py.
pub mod Kept
use Prim.Native.Char.{code}
use auto_model_router.Prelude.{
  ℕ, String, Bool, ◌&&◌, ◌||◌, Option, none, some, leb, nat_beq, str_eq, if◌then◌else◌,
}

-- [a-zA-Z0-9_-]
unfoldable pub is_id_code : ℕ → Bool
is_id_code c =
    (leb b'a' c && leb c b'z')
    || (leb b'A' c && leb c b'Z')
    || (leb b'0' c && leb c b'9')
    || nat_beq c b'_'
    || nat_beq c b'-'

-- `_TOOL_ID_BAD.sub("_", s)`
unfoldable pub sub_bad : String → String
sub_bad String.[] = String.[]
sub_bad (String.◌∷◌ c s) =
    if is_id_code (code c) then String.◌∷◌ c (sub_bad s) else String.◌∷◌ "_" (sub_bad s)

-- `fresh` is the random id that a call without one is given.
unfoldable pub anthropic_tool_id : String → Option String → String
anthropic_tool_id fresh none = fresh
anthropic_tool_id fresh (some raw) = if str_eq raw "" then fresh else sub_bad raw
