-- ===== src/Truncation.antt =====
-- auto_router/truncation.py: did the provider say that it ran out of output budget?
pub mod Labels
use auto_model_router.Prelude.{
  String, ◌<>◌, Bool, true, false, ◌||◌, Option, none, some, List, [], ◌∷◌, str_eq, if◌then◌else◌,
  any, first, ℕ,
}
use auto_model_router.Prelude.Json.{
  Json, null, bool, int, negative, float, str, arr, obj, Fields, lookup, to_list,
}
use auto_model_router.Prelude.Text.{codes, codes_eq, strip, casefold}

abbrev pub length_stop_words : List String
length_stop_words =
    "length" ∷ "max_tokens" ∷ "max_output_tokens" ∷ "maxtokens" ∷ "model_length" ∷ "output_limit"
    ∷ "token_limit" ∷ []

abbrev pub choice_fields : List String
choice_fields = "finish_reason" ∷ "native_finish_reason" ∷ []

abbrev pub top_level_fields : List String
top_level_fields = "stop_reason" ∷ "finish_reason" ∷ []

-- The test of a stripped and folded text against the vocabulary.
abbrev spells : List ℕ → String → Bool
spells word w = codes_eq (codes w) word

stop_word_of : List ℕ → Option String
stop_word_of word = first (spells word) length_stop_words

abbrev pub or_next : Option String → Option String → Option String
or_next none next = next
or_next (some l) next = some l

abbrev label : String → Option String → Option String
label field none = none
label field (some word) = some (field <> ":" <> word)

module _ {F : Type 0} where
  -- `_stop_word` of `d.get(field)`
  unfoldable pub stop_word : Option (Json F) → Option String
  unfolding stop_word_of strip casefold
  stop_word none = none
  stop_word (some (str s)) = stop_word_of (casefold (strip (codes s)))
  stop_word (some _) = none

  -- The first field, in the order of the list, whose value is a stop word.
  unfoldable pub label_in : List String → Fields F → Option String
  label_in [] d = none
  label_in (field ∷ fields) d =
      or_next (label field (stop_word (lookup field d))) (label_in fields d)

  abbrev pub choice_label : Json F → Option String
  choice_label (obj d) = label_in choice_fields d
  choice_label _ = none

  unfoldable pub choices_label : List (Json F) → Option String
  unfolding label_in
  choices_label [] = none
  choices_label (c ∷ cs) = or_next (choice_label c) (choices_label cs)

  abbrev pub choices_of : Option (Json F) → List (Json F)
  choices_of (some (arr cs)) = to_list cs
  choices_of _ = []

  unfoldable pub truncation_label : Json F → Option String
  unfolding choices_label label_in
  truncation_label (obj d) =
      or_next (choices_label (choices_of (lookup "choices" d))) (label_in top_level_fields d)
  truncation_label _ = none

abbrev pub known_field : String → Bool
known_field field =
    any (λ f. str_eq f field) choice_fields || any (λ f. str_eq f field) top_level_fields

-- `label_for_stop_reason`; the outer `none` is the `ValueError` on an unknown field.
module _ {F : Type 0} where
  unfoldable pub label_for_stop_reason : Json F → String → Option (Option String)
  label_for_stop_reason value field =
      if known_field field then some (label field (stop_word (some value))) else none
