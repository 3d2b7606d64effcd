-- ===== src/Translate/Responses/Ends.antt =====
-- What the last chunks of `chat_sse` of auto_router/responses_api.py leave of the state of
-- `translate_stream`.
use auto_model_router.Prelude.{
  ℕ, ◌+◌, ◌≡◌, refl, ap, ◌∙◌, String, true, false, Option, none, some, List, [], ◌∷◌, if◌then◌else◌,
  Bool-cases, inl, inr, nat_eq,
}
use auto_model_router.Prelude.Dict
use auto_model_router.Prelude.Dict.{Dict}
use auto_model_router.Catalog.{truthy}
use auto_model_router.Usage.{parse_openai_usage, count}
use auto_model_router.Translate.Events.{Event, content_block_stop, mapped_stop}
use auto_model_router.Translate.Stream.{
  Chunk, ChunkChoice, StreamState, has_usage, read_usage, note_finish, no_usage, stop_text,
  finish_or_stop,
}
use auto_model_router.Translate.Responses.Chat.{ChatCall, ChatMessage, delta_choice}
use auto_model_router.Translate.Responses.Steps.{said_state}

abbrev pub stop_of : List ChatCall → Option String → String
stop_of [] finish = mapped_stop (finish_or_stop finish)
stop_of (c ∷ cs) finish = "tool_use"

pub record Same (s t : StreamState) : Type 0 where
  pub started_still : t.started ≡ s.started
  pub text_still : t.text_at ≡ s.text_at
  pub tools_still : t.tools ≡ s.tools

pub note_finish-Same : (choice : ChunkChoice) (s : StreamState) → Same s (note_finish choice s)
unfolding note_finish
note_finish-Same choice s = elim (Bool-cases (truthy choice.finish_reason)) [
  | inl e ↦ rw e (record { started_still = refl; text_still = refl; tools_still = refl })
  | inr e ↦ rw e (record { started_still = refl; text_still = refl; tools_still = refl })
]

note_finish-usage :
    (choice : ChunkChoice) (s : StreamState)
    → (note_finish choice s).outcome.usage ≡ s.outcome.usage
unfolding note_finish
note_finish-usage choice s = elim (Bool-cases (truthy choice.finish_reason)) [
  | inl e ↦ rw e refl
  | inr e ↦ rw e refl
]

note_finish-finish :
    (choice : ChunkChoice) (s : StreamState)
    → s.outcome.finish_reason ≡ none
    → finish_or_stop (note_finish choice s).outcome.finish_reason
      ≡ finish_or_stop choice.finish_reason
unfolding note_finish
note_finish-finish choice s n = elim (Bool-cases (truthy choice.finish_reason)) [
  | inl e ↦ rw e (rw e refl)
  | inr e ↦ rw e (rw n refl)
]

read_usage-Same : (c : Chunk) (s : StreamState) → Same s (read_usage c s)
unfolding read_usage
read_usage-Same c s = elim (Bool-cases (has_usage c)) [
  | inl e ↦ rw e (record { started_still = refl; text_still = refl; tools_still = refl })
  | inr e ↦ rw e (record { started_still = refl; text_still = refl; tools_still = refl })
]

read_usage-finish :
    (c : Chunk) (s : StreamState) → (read_usage c s).outcome.finish_reason ≡ s.outcome.finish_reason
unfolding read_usage
read_usage-finish c s = elim (Bool-cases (has_usage c)) [ inl e ↦ rw e refl | inr e ↦ rw e refl ]

no_counts :
    (u : Dict String ℕ × Option (Dict String ℕ))
    → has_usage (record { usage = u; choices = [] }) ≡ false
    → no_usage ≡ parse_openai_usage u.0 u.1
unfolding parse_openai_usage count Dict.get
no_counts ([], none) e = refl
no_counts ([], some d) e = cc
no_counts (c ∷ cs, d) e = cc

read_usage-usage :
    (u : Dict String ℕ × Option (Dict String ℕ)) (s : StreamState)
    → s.outcome.usage ≡ no_usage
    → (read_usage (record { usage = u; choices = [] }) s).outcome.usage ≡ parse_openai_usage u.0 u.1
unfolding read_usage
read_usage-usage u s n = elim (Bool-cases (has_usage (record { usage = u; choices = [] }))) [
  | inl e ↦ rw e refl
  | inr e ↦ rw e (n ∙ no_counts u e)
]

-- The chunk after the last call, and the one with the usage
unfoldable pub end_state : ChatMessage → StreamState → StreamState
end_state chat s =
    read_usage (record { usage = chat.usage; choices = [] })
      (note_finish (delta_choice none [] chat.finish_reason) s)

pub record Ended (chat : ChatMessage) (s t : StreamState) : Type 0 where
  pub same : Same s t
  pub finish_read : finish_or_stop t.outcome.finish_reason ≡ finish_or_stop chat.finish_reason
  pub usage_read : t.outcome.usage ≡ parse_openai_usage chat.usage.0 chat.usage.1

pub end_state-Ended :
    (chat : ChatMessage) (s : StreamState)
    → s.outcome.finish_reason ≡ none
    → s.outcome.usage ≡ no_usage
    → Ended chat s (end_state chat s)
unfolding end_state
end_state-Ended chat s f u =
    let choice = delta_choice none [] chat.finish_reason in
    let noted = note_finish choice s in
    let last : Chunk = record { usage = chat.usage; choices = [] } in
    let a = note_finish-Same choice s in
    let b = read_usage-Same last noted in
    record {
      same = record {
        started_still = b.started_still ∙ a.started_still;
        text_still = b.text_still ∙ a.text_still;
        tools_still = b.tools_still ∙ a.tools_still;
      };
      finish_read =
          ap finish_or_stop (read_usage-finish last noted) ∙ note_finish-finish choice s f;
      usage_read = read_usage-usage chat.usage noted (note_finish-usage choice s ∙ u);
    }

abbrev pub text_stop : Option String → List Event
text_stop content = if truthy content then content_block_stop 0 ∷ [] else []

-- The index of the first call's block
abbrev pub first_call : Option String → ℕ
first_call content = if truthy content then 1 else 0

abbrev pub call_stops : ℕ → List ChatCall → List Event
call_stops i [] = []
call_stops i (c ∷ cs) = content_block_stop i ∷ call_stops (i + 1) cs

-- What `said_state` is, after either kind of content
pub record Said (content : Option String) (s : StreamState) : Type 0 where
  pub is_started : s.started ≡ true
  pub next : s.next_index ≡ first_call content
  pub stop : stop_text s.text_at ≡ text_stop content
  pub no_tools : s.tools ≡ []
  pub no_finish : s.outcome.finish_reason ≡ none
  pub no_usage_yet : s.outcome.usage ≡ no_usage

pub said_state-Said : (content : Option String) → Said content (said_state content)
said_state-Said content = elim (Bool-cases (truthy content)) [
  | inl e ↦ rw e (record {
    is_started = refl;
    next = rw e refl;
    stop = rw e refl;
    no_tools = refl;
    no_finish = refl;
    no_usage_yet = refl;
  })
  | inr e ↦ rw e (record {
    is_started = refl;
    next = rw e refl;
    stop = rw e refl;
    no_tools = refl;
    no_finish = refl;
    no_usage_yet = refl;
  })
]
