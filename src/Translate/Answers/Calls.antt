-- ===== src/Translate/Answers/Calls.antt =====
-- What `openai_response_to_anthropic` of auto_router/translate.py keeps of an answer.
use mathlib.Core.Option.{some-injective}
use auto_model_router.Prelude.{
  ℕ, ◌+◌, ◌≡◌, refl, sym, ap, ◌∙◌, subst, String, Bool, true, false, Option, none, some, List, [],
  ◌∷◌, ◌++◌, if◌then◌else◌, str_eq, Bool-cases, inl, inr,
}
use auto_model_router.Prelude.Text.{codes, codes_eq, strip}
use auto_model_router.Translate.Ids.{sub_bad, anthropic_tool_id}
use auto_model_router.Translate.Ids.Kept.{is_id, sub_bad-same}
use auto_model_router.Catalog.{truthy, or_else}
use auto_model_router.Translate.Events.{Event}
use auto_model_router.Translate.Answers.{
  Arguments, text_arguments, object_arguments, no_arguments, AnswerCall, AnswerChoice, Answer,
  Content, text_content, tool_content, other_content, Message, text_or, read_arguments, with_call,
  call_blocks, text_blocks, or_empty_text, answer_message, first_choice,
  openai_response_to_anthropic, replay_from, anthropic_sse_from_message,
}

-- The id that a call is sent under: its own where it has one that is not empty, as it is or with
-- each letter that is not allowed replaced, and else the random one.
pub data IsIdOf (random : String) : Option String → String → Type 0 where
  lacks_id : IsIdOf random none random
  has_empty_id : {raw : String} → str_eq raw "" ≡ true → IsIdOf random (some raw) random
  kept_id : {raw : String} → str_eq raw "" ≡ false → is_id raw ≡ true → IsIdOf random (some raw) raw
  cleaned_id :
      {raw : String}
      → str_eq raw "" ≡ false
      → is_id raw ≡ false
      → IsIdOf random (some raw) (sub_bad raw)

anthropic_tool_id-IsIdOf :
    (random : String) (o : Option String) → IsIdOf random o (anthropic_tool_id random o)
unfolding anthropic_tool_id
anthropic_tool_id-IsIdOf random none = lacks_id
anthropic_tool_id-IsIdOf random (some raw) = elim (Bool-cases (str_eq raw "")) [
  | inl t ↦ rw t (has_empty_id t)
  | inr f ↦ elim (Bool-cases (is_id raw)) [
    | inl k ↦ rw f (rw (sub_bad-same raw k) (kept_id f k))
    | inr k ↦ rw f (cleaned_id f k)
  ]
]

module _ {J : Type 0} where
  -- The tool calls of the blocks, in order: the id, the name and the input.
  abbrev pub tool_uses : List (Content J) → List (String × (String × J))
  tool_uses [] = []
  tool_uses (text_content text ∷ bs) = tool_uses bs
  tool_uses (other_content kind ∷ bs) = tool_uses bs
  tool_uses (tool_content id name input ∷ bs) = (id, (name, input)) ∷ tool_uses bs

  -- Nothing that the replay refuses.
  abbrev Streamable : List (Content J) → Type 0
  Streamable [] = Unit
  Streamable (text_content text ∷ bs) = Streamable bs
  Streamable (other_content kind ∷ bs) = ⊥
  Streamable (tool_content id name input ∷ bs) = Streamable bs

  module _ (loads : String → Option J) (empty : J) where
    -- What the arguments of a call mean: a blank text and no arguments mean `{}`, another text what it
    -- reads as, and an object itself.
    pub data Means : Arguments J → J → Type 0 where
      blank :
          {raw : String} → codes_eq (strip (codes raw)) [] ≡ true → Means (text_arguments raw) empty
      reads :
          {raw : String} {input : J}
          → codes_eq (strip (codes raw)) [] ≡ false
          → loads raw ≡ some input
          → Means (text_arguments raw) input
      itself : {input : J} → Means (object_arguments input) input
      left_out : Means no_arguments empty

    read_arguments-Means :
        (arguments : Arguments J) {input : J}
        → read_arguments loads empty arguments ≡ some input
        → Means arguments input
    read_arguments-Means (text_arguments raw) {input} e =
        elim (Bool-cases (codes_eq (strip (codes raw)) [])) [
          | inl t ↦
              subst (λ x. Means (text_arguments raw) x) (some-injective _ _ (rw t at e)) (blank t)
          | inr f ↦ reads f (rw f at e)
        ]
    read_arguments-Means (object_arguments input) e =
        subst (λ x. Means (object_arguments input) x) (some-injective _ _ e) itself
    read_arguments-Means no_arguments e =
        subst (λ x. Means no_arguments x) (some-injective _ _ e) left_out

    -- These are the calls of the answer, one for one, each under its id, with its name and with the
    -- input that its arguments mean. `i` numbers the calls.
    pub data Keeps (fresh : ℕ → String)
        : ℕ → List (AnswerCall J) → List (String × (String × J)) → Type 0 where
      none_called : {i : ℕ} → Keeps fresh i [] []
      called :
          {i : ℕ} {calls : List (AnswerCall J)} {uses : List (String × (String × J))}
          (call : AnswerCall J) (id : String) (input : J)
          → IsIdOf (fresh i) call.id id
          → Means call.arguments input
          → Keeps fresh (i + 1) calls uses
          → Keeps fresh i (call ∷ calls) ((id, (text_or call.name "", input)) ∷ uses)

    with_call-Keeps :
        (fresh : ℕ → String) (i : ℕ) (call : AnswerCall J) (calls : List (AnswerCall J))
        (input : Option J) (rest : Option (List (Content J))) {bs : List (Content J)}
        → read_arguments loads empty call.arguments ≡ input
        → ((cs : List (Content J))
            → rest ≡ some cs
            → Keeps fresh (i + 1) calls (tool_uses cs) × Streamable cs)
        → with_call fresh i call input rest ≡ some bs
        → Keeps fresh i (call ∷ calls) (tool_uses bs) × Streamable bs
    with_call-Keeps fresh i call calls none rest e h k = cc
    with_call-Keeps fresh i call calls (some input) none e h k = cc
    with_call-Keeps fresh i call calls (some input) (some cs) e h k =
        let (kept, able) = h cs refl in
        subst (λ bs. Keeps fresh i (call ∷ calls) (tool_uses bs) × Streamable bs)
          (some-injective _ _ k)
          (
            called call _ input (anthropic_tool_id-IsIdOf (fresh i) call.id)
                (read_arguments-Means call.arguments e) kept,
            able,
          )

    call_blocks-Keeps :
        (fresh : ℕ → String) (i : ℕ) (calls : List (AnswerCall J)) (bs : List (Content J))
        → call_blocks loads empty fresh i calls ≡ some bs
        → Keeps fresh i calls (tool_uses bs) × Streamable bs
    unfolding call_blocks
    call_blocks-Keeps fresh i [] bs e =
        subst (λ bs. Keeps fresh i [] (tool_uses bs) × Streamable bs) (some-injective _ _ e)
          (none_called, tt)
    call_blocks-Keeps fresh i (call ∷ calls) bs e =
        with_call-Keeps fresh i call calls (read_arguments loads empty call.arguments)
          (call_blocks loads empty fresh (i + 1) calls) refl (call_blocks-Keeps fresh (i + 1) calls)
          e

    all_blocks-Keeps :
        (fresh : ℕ → String) (calls : List (AnswerCall J)) (text : Option String)
        (cs : List (Content J))
        → Keeps fresh 0 calls (tool_uses cs)
        → Streamable cs
        → let bs = or_empty_text (text_blocks text ++ cs) in
          Keeps fresh 0 calls (tool_uses bs) × Streamable bs
    all_blocks-Keeps fresh calls text cs k s = go (truthy text) cs k s
      where
        go :
            (flag : Bool) (cs : List (Content J))
            → Keeps fresh 0 calls (tool_uses cs)
            → Streamable cs
            → let bs =
                or_empty_text ((if flag then text_content (or_else text "") ∷ [] else []) ++ cs) in
              Keeps fresh 0 calls (tool_uses bs) × Streamable bs
        go true cs k s = (k, s)
        go false [] k s = (k, s)
        go false (c ∷ cs) k s = (k, s)

    answer_message-Keeps :
        (fresh : ℕ → String) (message_id model_name : String) (answer : Answer J)
        (choice : AnswerChoice J) (o : Option (List (Content J))) {m : Message J}
        → call_blocks loads empty fresh 0 choice.tool_calls ≡ o
        → answer_message loads empty fresh message_id model_name answer choice o ≡ some m
        → Keeps fresh 0 choice.tool_calls (tool_uses m.content) × Streamable m.content
    answer_message-Keeps fresh message_id model_name answer choice none e h = cc
    answer_message-Keeps fresh message_id model_name answer choice (some cs) e h =
        let (k, s) = call_blocks-Keeps fresh 0 choice.tool_calls cs e in
        subst
          (λ (m : Message J).
            Keeps fresh 0 choice.tool_calls (tool_uses m.content) × Streamable m.content)
          (some-injective _ _ h) (all_blocks-Keeps fresh choice.tool_calls choice.content cs k s)

    replay_from-total :
        (dumps : J → String) (i : ℕ) (bs : List (Content J)) (ending : List Event)
        → Streamable bs
        → (replay_from dumps i bs ending).1 ≡ true
    unfolding replay_from
    replay_from-total dumps i [] ending s = refl
    replay_from-total dumps i (text_content text ∷ bs) ending s =
        replay_from-total dumps (i + 1) bs ending s
    replay_from-total dumps i (tool_content id name input ∷ bs) ending s =
        replay_from-total dumps (i + 1) bs ending s
    replay_from-total dumps i (other_content kind ∷ bs) ending s = absurd s

    -- A translated answer holds every tool call of its first choice, one for one and in order: its id,
    -- with each letter that Anthropic refuses replaced, or the random one where it has none; its name, or
    -- the empty one; and the input that its arguments mean, `{}` for none and for a blank text, the
    -- read value for another text, an object as it is. The replay of the message does not raise.
    pub openai_response_to_anthropic-Keeps :
        (dumps : J → String) (fresh : ℕ → String) (message_id model_name : String)
        (answer : Answer J) (choice : AnswerChoice J) (choices : List (AnswerChoice J))
        {m : Message J}
        → answer.choices ≡ choice ∷ choices
        → openai_response_to_anthropic loads empty fresh message_id model_name answer ≡ some m
        → Keeps fresh 0 choice.tool_calls (tool_uses m.content)
          × ((anthropic_sse_from_message dumps m).1 ≡ true)
    unfolding openai_response_to_anthropic anthropic_sse_from_message
    openai_response_to_anthropic-Keeps dumps fresh message_id model_name answer choice choices {m} e
          h =
        let (k, s) =
          answer_message-Keeps fresh message_id model_name answer choice
            (call_blocks loads empty fresh 0 choice.tool_calls) refl
            (ap (first_choice loads empty fresh message_id model_name answer) (sym e) ∙ h) in
        (k, replay_from-total dumps 0 m.content _ s)
