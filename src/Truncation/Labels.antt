-- ===== src/Truncation/Labels.antt =====
-- What a label of auto_router/truncation.py can say, and when there is one.
use mathlib.Core.Option.{some-injective}
use auto_model_router.Prelude.{
  ℕ, sym, ◌≡◌, ◌≢◌, ◌⊎◌, inl, inr, refl, String, ◌<>◌, Option, none, some, List, [], ◌∷◌, arith, In,
  first-In,
}
use auto_model_router.Prelude.Json.{Json, str, obj, Fields, lookup}
use auto_model_router.Prelude.Text.{codes, strip, casefold}
use auto_model_router.Truncation.{
  length_stop_words, choice_fields, top_level_fields, stop_word, stop_word_of, spells, label,
  label_in, choice_label, choices_label, choices_of, truncation_label, or_next,
}

-- A label made of a field and a stop word of the vocabularies.
pub record IsLabel (fields : List String) (l : String) : Type 0 where
  pub name : String
  pub word : String
  pub field_known : In name fields
  pub word_known : In word length_stop_words
  pub joined : l ≡ name <> ":" <> word

stop_word_of-In : (word : List ℕ) {w : String} → stop_word_of word ≡ some w → In w length_stop_words
unfolding stop_word_of
stop_word_of-In word h = (first-In (spells word) length_stop_words h).0

label-IsLabel :
    (fields : List String) (name : String) (word : Option String) {l : String}
    → In name fields
    → ((w : String) → word ≡ some w → In w length_stop_words)
    → label name word ≡ some l
    → IsLabel fields l
label-IsLabel fields name none i f h = cc
label-IsLabel fields name (some w) {l} i f h = record {
  name = name;
  word = w;
  field_known = i;
  word_known = f w refl;
  joined = sym (some-injective _ _ h);
}

or_next-some :
    (a b : Option String) {l : String} → or_next a b ≡ some l → (a ≡ some l) ⊎ (b ≡ some l)
or_next-some none b h = inr h
or_next-some (some x) b h = inl h

or_next-none : (a b : Option String) → or_next a b ≡ none → (a ≡ none) × (b ≡ none)
or_next-none none b h = (refl, h)
or_next-none (some x) b h = cc

IsLabel-more :
    {xs ys : List String} {l : String}
    → ((n : String) → In n xs → In n ys)
    → IsLabel xs l
    → IsLabel ys l
IsLabel-more f i = record {
  name = i.name;
  word = i.word;
  field_known = f i.name i.field_known;
  word_known = i.word_known;
  joined = i.joined;
}

abbrev pub all_fields : List String
all_fields = "finish_reason" ∷ "native_finish_reason" ∷ "stop_reason" ∷ []

module _ {F : Type 0} where
  stop_word-In : (v : Option (Json F)) (w : String) → stop_word v ≡ some w → In w length_stop_words
  unfolding stop_word
  stop_word-In none w h = cc
  stop_word-In (some (str s)) w h = stop_word_of-In (casefold (strip (codes s))) h
  stop_word-In (some _) w h = cc

  label_in-IsLabel :
      (fields : List String) (d : Fields F) {l : String}
      → label_in fields d ≡ some l
      → IsLabel fields l
  unfolding label_in
  label_in-IsLabel [] d h = cc
  label_in-IsLabel (f ∷ fs) d h = elim (or_next-some _ (label_in fs d) h) [
    | inl e ↦ label-IsLabel (f ∷ fs) f _ (inl refl) (stop_word-In (lookup f d)) e
    | inr e ↦ IsLabel-more (λ n i. inr i) (label_in-IsLabel fs d e)
  ]

  choices_label-IsLabel :
      (cs : List (Json F)) {l : String} → choices_label cs ≡ some l → IsLabel choice_fields l
  unfolding choices_label
  choices_label-IsLabel [] h = cc
  choices_label-IsLabel (c ∷ cs) h = elim (or_next-some (choice_label c) _ h) [
    | inl e ↦ one c e
    | inr e ↦ choices_label-IsLabel cs e
  ]
    where
      one : (c : Json F) {l : String} → choice_label c ≡ some l → IsLabel choice_fields l
      one (obj d) e = label_in-IsLabel choice_fields d e
      one _ e = cc

  -- Whatever the payload, a label is one of the known field names, a colon and one of the known stop
  -- words, so that it repeats no other text of the payload.
  pub truncation_label-IsLabel :
      (payload : Json F) {l : String} → truncation_label payload ≡ some l → IsLabel all_fields l
  unfolding truncation_label
  truncation_label-IsLabel (obj d) h =
      elim (or_next-some (choices_label (choices_of (lookup "choices" d))) _ h) [
        | inl e ↦
            IsLabel-more (λ n i. ground arith)
              (choices_label-IsLabel (choices_of (lookup "choices" d)) e)
        | inr e ↦ IsLabel-more (λ n i. ground arith) (label_in-IsLabel top_level_fields d e)
      ]
  truncation_label-IsLabel _ h = cc

  -- A dictionary says that the budget ran out if one of its choices does, or else one of its own
  -- fields: a value that is one of the stop words after stripping and folding.
  abbrev pub Says : List String → Fields F → Type 0
  Says fields d = (f : String) × In f fields × (stop_word (lookup f d) ≢ none)

  abbrev pub ChoiceSays : Json F → Type 0
  ChoiceSays (obj d) = Says choice_fields d
  ChoiceSays _ = ⊥

  label_in-none : (fields : List String) (d : Fields F) → label_in fields d ≡ none → ¬ Says fields d
  unfolding label_in
  label_in-none [] d h (f, i, s) = i
  label_in-none (g ∷ gs) d h (f, inl e, s) = s (rw e (quiet (stop_word (lookup g d)) h))
    where
      quiet : (w : Option String) → or_next (label g w) (label_in gs d) ≡ none → w ≡ none
      quiet none k = refl
      quiet (some w) k = cc
  label_in-none (g ∷ gs) d h (f, inr i, s) =
      label_in-none gs d (later (label g (stop_word (lookup g d))) h) (f, i, s)
    where
      later : (a : Option String) → or_next a (label_in gs d) ≡ none → label_in gs d ≡ none
      later none k = k
      later (some w) k = cc

  choices_label-none :
      (cs : List (Json F)) (c : Json F) → choices_label cs ≡ none → In c cs → ¬ ChoiceSays c
  unfolding choices_label
  choices_label-none [] c h i = absurd i
  choices_label-none (x ∷ xs) c h (inl e) = rw e (silent x (or_next-none (choice_label x) _ h).0)
    where
      silent : (x : Json F) → choice_label x ≡ none → ¬ ChoiceSays x
      silent (obj d) k s = label_in-none choice_fields d k s
      silent _ k s = s
  choices_label-none (x ∷ xs) c h (inr i) =
      choices_label-none xs c (or_next-none (choice_label x) _ h).1 i

  -- No flag is missed: where there is no label, no choice and no top-level field says that the
  -- budget ran out.
  pub truncation_label-none :
      (d : Fields F)
      → truncation_label (obj d) ≡ none
      → ((c : Json F) → In c (choices_of (lookup "choices" d)) → ¬ ChoiceSays c)
        × (¬ Says top_level_fields d)
  unfolding truncation_label
  truncation_label-none d h =
      let (a, b) = or_next-none (choices_label (choices_of (lookup "choices" d))) _ h in
      (
        λ c. choices_label-none (choices_of (lookup "choices" d)) c a,
        label_in-none top_level_fields d b,
      )
