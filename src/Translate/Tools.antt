-- ===== src/Translate/Tools.antt =====
-- `tools_to_openai` and `tool_choice_to_openai` of auto_router/translate.py. `J` is the type of a
-- schema; a description or schema that Python takes for false is `none`. `none` of a result
-- with two options is a `TranslationError` first, then Python's `None`.
use mathlib.Core.Option.{some-injective}
use auto_model_router.Prelude.{
  ℕ, String, Bool, true, false, Option, none, some, List, [], ◌∷◌, str_eq, string_eq, if◌then◌else◌,
  map, ◌≡◌, refl, ap, arith,
}
use auto_model_router.Prelude.Dict
use auto_model_router.Prelude.Dict.{Dict}
use auto_model_router.Prelude.Text.{codes, codes_eq}
use auto_model_router.Switch.{lower_code}
use auto_model_router.Catalog.{truthy, or_else}

pub data Tool (J : Type 0) : Type 0 where
  no_tool : Tool J
  -- the name, the description, `input_schema` and `parameters`
  tool_object : Option String → Option String → Option J → Option J → Tool J

pub record Function (J : Type 0) : Type 0 where
  pub name : String
  pub description : Option String
  pub parameters : Option J

abbrev pub or_parameters : {J : Type 0} → Option J → Option J → Option J
or_parameters none parameters = parameters
or_parameters (some schema) parameters = some schema

module _ {J : Type 0} where
  abbrev pub function_of : Tool J → Option (Function J)
  function_of no_tool = none
  function_of (tool_object name description schema parameters) =
      if truthy name
      then some (record {
        name = or_else name "";
        description = description;
        parameters = or_parameters schema parameters;
      })
      else none

  abbrev pub with_function :
      Option (Function J) → Option (List (Function J)) → Option (List (Function J))
  with_function none rest = none
  with_function (some f) none = none
  with_function (some f) (some fs) = some (f ∷ fs)

  unfoldable pub functions_of : List (Tool J) → Option (List (Function J))
  functions_of [] = some []
  functions_of (t ∷ ts) = with_function (function_of t) (functions_of ts)

  abbrev pub none_if_nil : Option (List (Function J)) → Option (Option (List (Function J)))
  none_if_nil none = none
  none_if_nil (some []) = some none
  none_if_nil (some (f ∷ fs)) = some (some (f ∷ fs))

  unfoldable pub tools_to_openai : List (Tool J) → Option (Option (List (Function J)))
  tools_to_openai tools = none_if_nil (functions_of tools)

pub data ToolChoice : Type 0 where
  no_choice : ToolChoice
  text_choice : String → ToolChoice
  -- the type and the name
  object_choice : Option String → Option String → ToolChoice

pub data OpenaiChoice : Type 0 where
  mode : String → OpenaiChoice
  function_choice : String → OpenaiChoice

abbrev pub text_modes : Dict String String
text_modes = ("auto", "auto") ∷ ("any", "required") ∷ ("none", "none") ∷ []

abbrev pub object_modes : Dict String String
object_modes = ("auto", "auto") ∷ ("any", "required") ∷ ("none", "none") ∷ ("tool", "required") ∷ []

-- The entry of a dictionary for a lowered text.
abbrev pub text_mode : List ℕ → Dict String String → Option String
text_mode text [] = none
text_mode text ((key, value) ∷ modes) =
    let rest = text_mode text modes in if codes_eq text (codes key) then some value else rest

abbrev pub mode_of : Option String → Option OpenaiChoice
mode_of none = none
mode_of (some m) = some (mode m)

-- `is_tool` is whether the type is "tool".
abbrev pub object_mode : Bool → String → Option String → Option OpenaiChoice
object_mode true ctype name =
    if truthy name
    then some (function_choice (or_else name ""))
    else mode_of (Dict.get ctype object_modes)
object_mode false ctype name = mode_of (Dict.get ctype object_modes)

unfoldable pub tool_choice_to_openai : ToolChoice → Option OpenaiChoice
tool_choice_to_openai no_choice = none
tool_choice_to_openai (text_choice text) =
    mode_of (text_mode (map lower_code (codes text)) text_modes)
tool_choice_to_openai (object_choice none name) = none
tool_choice_to_openai (object_choice (some ctype) name) =
    object_mode (str_eq ctype "tool") ctype name

module _ {J : Type 0} where
  abbrev pub tool_name : Tool J → Option String
  tool_name no_tool = none
  tool_name (tool_object name description schema parameters) = name

  function_of-name :
      (t : Tool J) {f : Function J} → function_of t ≡ some f → tool_name t ≡ some f.name
  function_of-name no_tool e = cc
  function_of-name (tool_object none description schema parameters) e = cc
  function_of-name (tool_object (some name) description schema parameters) e = ground arith

  with_function-names :
      (t : Tool J) (ts : List (Tool J)) (o : Option (Function J))
      (rest : Option (List (Function J))) {fs : List (Function J)}
      → function_of t ≡ o
      → ((gs : List (Function J)) → rest ≡ some gs → map tool_name ts ≡ map (λ f. some f.name) gs)
      → with_function o rest ≡ some fs
      → map tool_name (t ∷ ts) ≡ map (λ f. some f.name) fs
  with_function-names t ts none rest e h k = cc
  with_function-names t ts (some f) none e h k = cc
  with_function-names t ts (some f) (some gs) e h k =
      rw (function_of-name t e)
        (rw (h gs refl) (ap (map (λ f. some f.name)) (some-injective _ _ k)))

  none_if_nil-some :
      (o : Option (List (Function J))) {fs : List (Function J)}
      → none_if_nil o ≡ some (some fs)
      → o ≡ some fs
  none_if_nil-some none e = cc
  none_if_nil-some (some []) e = cc
  none_if_nil-some (some (f ∷ fs)) e = some-injective _ _ e

  functions_of-names :
      (ts : List (Tool J)) (fs : List (Function J))
      → functions_of ts ≡ some fs
      → map tool_name ts ≡ map (λ f. some f.name) fs
  unfolding functions_of
  functions_of-names [] fs e = ap (map (λ f. some f.name)) (some-injective _ _ e)
  functions_of-names (t ∷ ts) fs e =
      with_function-names t ts (function_of t) (functions_of ts) refl (functions_of-names ts) e

  -- A translation that does not raise keeps every tool, in order, under its name.
  pub tools_to_openai-names :
      (ts : List (Tool J)) (fs : List (Function J))
      → tools_to_openai ts ≡ some (some fs)
      → map tool_name ts ≡ map (λ f. some f.name) fs
  unfolding tools_to_openai
  tools_to_openai-names ts fs e = functions_of-names ts fs (none_if_nil-some (functions_of ts) e)
