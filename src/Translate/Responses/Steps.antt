-- ===== src/Translate/Responses/Steps.antt =====
-- The chunks of `chat_sse` of auto_router/responses_api.py, one by one, in the stream translation of
-- auto_router/stream_translate.py.
use mathlib.Core.List.{append-nil}
use auto_model_router.Prelude.{
  ℕ, ◌+◌, ◌≡◌, refl, sym, ap, ◌∙◌, String, Bool, true, false, not, Option, none, some, List, [],
  ◌∷◌, ◌++◌, arith, str_eq, if◌then◌else◌, nat_eq, string_eq, nat_beq_iff, ◌==◌, Bool-cases, inl,
  inr,
}
use auto_model_router.Prelude.Dict
use auto_model_router.Prelude.Dict.{Dict}
use auto_model_router.Catalog.{truthy, or_else}
use auto_model_router.Translate.Events.{
  Event, text_block, tool_block, input_json_delta, message_start, content_block_start,
  content_block_delta,
}
use auto_model_router.Translate.Ids.{anthropic_tool_id}
use auto_model_router.Translate.Stream.{
  Chunk, Tool, StreamState, initial, Sent, and_then, read_usage, note_finish, start_message,
  write_text, feed_call, feed_calls, feed_chunk, text_event, no_usage, into_text, see_text,
  start_unless, arguments_if, write_arguments, new_tool, CallDelta, feed_tool, tool_or_new,
  saw_call, start_tool, named,
}
use auto_model_router.Translate.Requests.Kept.{none-ne-some}
use auto_model_router.Translate.Responses.Chat.{ChatCall, delta_chunk, content_chunks, call_delta}

pub start_unless-started :
    (flag : Bool) (id model : String) (s : StreamState)
    → flag ≡ true
    → start_unless flag id model s ≡ ([], some s)
start_unless-started true id model s e = refl
start_unless-started false id model s e = cc

arguments_if-started :
    (flag : Bool) (json : String) (i : ℕ) (s : StreamState)
    → arguments_if flag true json i s
      ≡ ((if flag then content_block_delta i (input_json_delta json) ∷ [] else []), some s)
arguments_if-started true json i s = refl
arguments_if-started false json i s = refl

truthy-ne-nil : (o : Option String) → truthy o ≡ true → not (str_eq (or_else o "") "") ≡ true
truthy-ne-nil none e = cc
truthy-ne-nil (some text) e = e

-- A key that is new goes to the end, and stays there when it is written again.
insert-twice :
    (k : ℕ) (v w : Tool) (d : Dict ℕ Tool)
    → Dict.get k d ≡ none
    → Dict.insert k w (Dict.insert k v d) ≡ d ++ ((k, w) ∷ [])
unfolding Dict.insert Dict.get
insert-twice k v w [] g = ground (arith, nat_beq_iff k k)
insert-twice k v w ((j, t) ∷ d) g = elim (Bool-cases (j == k)) [
  | inl e ↦ none-ne-some (sym (rw e at g))
  | inr e ↦ rw e (rw e (ap (λ d. (j, t) ∷ d) (insert-twice k v w d (rw e at g))))
]

-- The state after the first chunk
abbrev pub begun : StreamState
begun = record initial { started = true }

abbrev pub content_events : Option String → List Event
content_events content =
    if truthy content
    then content_block_start 0 text_block ∷ text_event 0 (or_else content "") ∷ []
    else []

abbrev pub said_state : Option String → StreamState
said_state content =
    if truthy content
    then record begun {
      next_index = 1;
      text_at = some 0;
      outcome = record begun.outcome { saw_content = true; text = or_else content "" ∷ [] };
    }
    else begun

write_text-Sent :
    (content : Option String) (s : StreamState)
    → truthy content ≡ true
    → write_text content s
      ≡ into_text (or_else content "") s.text_at (see_text (or_else content "") s)
unfolding write_text
write_text-Sent content s t = rw t refl

module _ (fresh : ℕ → String) where
  -- The accumulator of a call whose block starts at `i`
  abbrev pub tool_at : ℕ → ChatCall → Tool
  tool_at i call = record {
    block_index = i;
    call_id = anthropic_tool_id (fresh i) call.id;
    name = or_else call.name "";
    started = true;
  }

  abbrev pub one_call : ℕ → ChatCall → List Event
  one_call i call =
      content_block_start i
        (tool_block (anthropic_tool_id (fresh i) call.id) (or_else call.name ""))
      ∷ (if truthy (some call.arguments)
          then content_block_delta i (input_json_delta call.arguments) ∷ []
          else [])

  abbrev pub called_state : ℕ → ChatCall → StreamState → StreamState
  called_state key call s = record s {
    next_index = s.next_index + 1;
    tools = s.tools ++ ((key, tool_at s.next_index call) ∷ []);
    outcome = record s.outcome { saw_content = true; tool_calls = s.outcome.tool_calls + 1 };
  }

  new_at : ℕ → ChatCall → Tool
  new_at i call = record {
    block_index = i;
    call_id = anthropic_tool_id (fresh i) call.id;
    name = "";
    started = false;
  }

  start_tool-named :
      (call : ChatCall) (key i : ℕ) (s : StreamState)
      → truthy call.name ≡ true
      → start_tool key (named (call_delta key call) (new_at i call)) s ≡ (
        content_block_start i
              (tool_block (anthropic_tool_id (fresh i) call.id) (or_else call.name ""))
            ∷ [],
        some (record s { tools = Dict.insert key (tool_at i call) s.tools }),
      )
  unfolding new_at
  start_tool-named call key i s nm = rw nm (rw (truthy-ne-nil call.name nm) refl)

  write_arguments-named :
      (call : ChatCall) (key i : ℕ) (s : StreamState)
      → truthy call.name ≡ true
      → write_arguments (some call.arguments) (named (call_delta key call) (new_at i call)) s ≡ (
        (if truthy (some call.arguments)
            then content_block_delta i (input_json_delta call.arguments) ∷ []
            else []),
        some s,
      )
  unfolding new_at
  write_arguments-named call key i s nm = rw nm (
      rw (truthy-ne-nil call.name nm)
        (arguments_if-started (truthy (some call.arguments)) call.arguments i s))

  feed_call-Sent :
      (key : ℕ) (call : ChatCall) (s : StreamState)
      → Dict.get key s.tools ≡ none
      → truthy call.name ≡ true
      → feed_call fresh (call_delta key call) s
        ≡ (one_call s.next_index call, some (called_state key call s))
  unfolding feed_call new_at
  feed_call-Sent key call s g nm =
      let d = call_delta key call in
      let acc = new_at s.next_index call in
      ap (λ o. feed_tool d (tool_or_new fresh d (saw_call s) o)) g
      ∙ ap (λ x. and_then x (write_arguments (some call.arguments) (named d acc)))
          (start_tool-named call key s.next_index (new_tool fresh d (saw_call s)).0 nm)
      ∙ ap
          (λ (x : Sent).
            and_then
              (
                content_block_start s.next_index (
                      tool_block (anthropic_tool_id (fresh s.next_index) call.id)
                        (or_else call.name ""))
                    ∷ [],
                some initial,
              )
              (λ s. x))
          (write_arguments-named call key s.next_index
            (record (new_tool fresh d (saw_call s)).0 {
              tools =
                  Dict.insert key (tool_at s.next_index call)
                    (new_tool fresh d (saw_call s)).0.tools;
            })
            nm)
      ∙ ap
          (λ t. (one_call s.next_index call, some (record (called_state key call s) { tools = t })))
          (insert-twice key acc (tool_at s.next_index call) s.tools g)

module _ (fresh : ℕ → String) (id model : String) where
  unfoldable pub feed_chunks : List Chunk → StreamState → Sent
  feed_chunks [] s = ([], some s)
  feed_chunks (c ∷ cs) s = and_then (feed_chunk fresh id model c s) (feed_chunks cs)

  pub first-Sent :
      feed_chunk fresh id model (delta_chunk none [] none) initial
      ≡ (message_start id model no_usage ∷ [], some begun)
  unfolding feed_chunk read_usage note_finish start_message write_text feed_calls
  first-Sent = refl

  delta-Sent :
      (content : Option String) (calls : List CallDelta) (s : StreamState)
      → s.started ≡ true
      → feed_chunk fresh id model (delta_chunk content calls none) s
        ≡ and_then (write_text content s) (feed_calls fresh calls)
  unfolding feed_chunk read_usage note_finish start_message
  delta-Sent content calls s st =
      ap (λ x. and_then x (λ s. and_then (write_text content s) (feed_calls fresh calls)))
        (start_unless-started s.started id model s st)

  pub content-Sent :
      (content : Option String)
      → feed_chunks (content_chunks content) begun
        ≡ (content_events content, some (said_state content))
  unfolding feed_chunks feed_calls
  content-Sent content = elim (Bool-cases (truthy content)) [
    | inl t ↦ rw t (
        ap (λ x. and_then x (feed_chunks []))
          (delta-Sent content [] begun refl
            ∙ ap (λ w. and_then w (feed_calls fresh [])) (write_text-Sent content begun t)))
    | inr f ↦ rw f refl
  ]

  pub call-Sent :
      (key : ℕ) (call : ChatCall) (s : StreamState)
      → s.started ≡ true
      → Dict.get key s.tools ≡ none
      → truthy call.name ≡ true
      → feed_chunk fresh id model (delta_chunk none (call_delta key call ∷ []) none) s
        ≡ (one_call fresh s.next_index call, some (called_state fresh key call s))
  unfolding feed_calls write_text
  call-Sent key call s st g nm =
      delta-Sent none (call_delta key call ∷ []) s st
      ∙ ap (λ x. and_then x (λ s. ([], some s))) (feed_call-Sent fresh key call s g nm)
      ∙ ap (λ es. (es, some (called_state fresh key call s)))
          (append-nil (one_call fresh s.next_index call))
