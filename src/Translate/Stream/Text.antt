-- ===== src/Translate/Stream/Text.antt =====
-- What the outcome of `translate_stream` of auto_router/stream_translate.py says about the events.
use mathlib.Core.List.{append_assoc, append-nil}
use mathlib.Core.Option.{some-injective}
use auto_model_router.Prelude.{
  ℕ, ◌≡◌, refl, sym, ap, ◌∙◌, String, Bool, true, false, Option, none, some, List, [], ◌∷◌, ◌++◌,
  arith, nat_eq, subst, Bool-cases, inl, inr,
}
use auto_model_router.Prelude.Dict
use auto_model_router.Prelude.Dict.{Dict}
use auto_model_router.Catalog.{truthy, or_else}
use auto_model_router.Translate.Events.{
  text_delta, input_json_delta, Event, message_start, content_block_start, content_block_delta,
  content_block_stop, message_delta, message_stop,
}
use auto_model_router.Translate.Stream.{
  CallDelta, ChunkChoice, Chunk, Tool, StreamState, initial, Sent, and_then, read_usage,
  note_finish, start_message, start_unless, text_if, start_if, arguments_if, into_text, write_text,
  tool_or_new, saw_call, named, may_start, start_tool, write_arguments, feed_tool, feed_call,
  feed_calls, feed_choices, feed_chunk, feed_parsed, parsed_line, feed_lines, stop_tools, stop_text,
  finish_stream, translate_stream,
}

-- The texts that a client puts together.
abbrev pub texts : List Event → List String
texts [] = []
texts (content_block_delta i (text_delta text) ∷ es) = text ∷ texts es
texts (content_block_delta i (input_json_delta json) ∷ es) = texts es
texts (message_start id model usage ∷ es) = texts es
texts (content_block_start i block ∷ es) = texts es
texts (content_block_stop i ∷ es) = texts es
texts (message_delta reason sequence tokens ∷ es) = texts es
texts (message_stop ∷ es) = texts es

texts-append : (es fs : List Event) → texts (es ++ fs) ≡ texts es ++ texts fs
texts-append [] fs = refl
texts-append (content_block_delta i (text_delta text) ∷ es) fs =
    ap (λ t. text ∷ t) (texts-append es fs)
texts-append (content_block_delta i (input_json_delta json) ∷ es) fs = texts-append es fs
texts-append (message_start id model usage ∷ es) fs = texts-append es fs
texts-append (content_block_start i block ∷ es) fs = texts-append es fs
texts-append (content_block_stop i ∷ es) fs = texts-append es fs
texts-append (message_delta reason sequence tokens ∷ es) fs = texts-append es fs
texts-append (message_stop ∷ es) fs = texts-append es fs

-- The step recorded the texts that it sent.
abbrev Recorded : List String → Sent → Type 0
Recorded before (sent, none) = Unit
Recorded before (sent, some s) = s.outcome.text ≡ before ++ texts sent

Recorded-and_then :
    (before : List String) (x : Sent) (next : StreamState → Sent)
    → Recorded before x
    → ((s : StreamState) → Recorded s.outcome.text (next s))
    → Recorded before (and_then x next)
Recorded-and_then before (sent, none) next r h = tt
Recorded-and_then before (sent, some s) next r h = append_step (next s) (h s)
  where
    append_step : (y : Sent) → Recorded s.outcome.text y → Recorded before (sent ++ y.0, y.1)
    append_step (more, none) q = tt
    append_step (more, some t) q =
        q
        ∙ ap (λ l. l ++ texts more) r
        ∙ append_assoc before (texts sent) (texts more)
        ∙ ap (λ l. before ++ l) (sym (texts-append sent more))

start_message-Recorded :
    (id model : String) (s : StreamState) → Recorded s.outcome.text (start_message id model s)
unfolding start_message
start_message-Recorded id model s = go s.started
  where
    go : (flag : Bool) → Recorded s.outcome.text (start_unless flag id model s)
    go true = sym (append-nil s.outcome.text)
    go false = sym (append-nil s.outcome.text)

into_text-Recorded :
    (content : String) (text_at : Option ℕ) (s : StreamState) (before : List String)
    → s.outcome.text ≡ before ++ (content ∷ [])
    → Recorded before (into_text content text_at s)
into_text-Recorded content none s before e = e
into_text-Recorded content (some i) s before e = e

write_text-Recorded :
    (content : Option String) (s : StreamState) → Recorded s.outcome.text (write_text content s)
unfolding write_text
write_text-Recorded content s = go (truthy content)
  where
    go : (flag : Bool) → Recorded s.outcome.text (text_if flag (or_else content "") s)
    go false = sym (append-nil s.outcome.text)
    go true = into_text-Recorded (or_else content "") s.text_at _ s.outcome.text refl

start_if-Recorded :
    (flag : Bool) (key : ℕ) (acc : Tool) (s : StreamState)
    → Recorded s.outcome.text (start_if flag key acc s)
start_if-Recorded false key acc s = sym (append-nil s.outcome.text)
start_if-Recorded true key acc s = sym (append-nil s.outcome.text)

arguments_if-Recorded :
    (has flag : Bool) (json : String) (i : ℕ) (s : StreamState)
    → Recorded s.outcome.text (arguments_if has flag json i s)
arguments_if-Recorded false flag json i s = sym (append-nil s.outcome.text)
arguments_if-Recorded true false json i s = tt
arguments_if-Recorded true true json i s = sym (append-nil s.outcome.text)

feed_tool-Recorded :
    (call : CallDelta) (r : StreamState × Tool) → Recorded r.0.outcome.text (feed_tool call r)
feed_tool-Recorded call (s, acc) =
    let next = named call acc in
    Recorded-and_then s.outcome.text (start_tool call.index next s)
      (write_arguments call.arguments next) (start_if-Recorded (may_start next) call.index next s)
      (arguments_if-Recorded (truthy call.arguments) _ (or_else call.arguments "") next.block_index)

tool_or_new-text :
    (fresh : ℕ → String) (call : CallDelta) (s : StreamState) (o : Option Tool)
    → (tool_or_new fresh call s o).0.outcome.text ≡ s.outcome.text
tool_or_new-text fresh call s none = refl
tool_or_new-text fresh call s (some acc) = refl

feed_call-Recorded :
    (fresh : ℕ → String) (call : CallDelta) (s : StreamState)
    → Recorded s.outcome.text (feed_call fresh call s)
unfolding feed_call
feed_call-Recorded fresh call s =
    let s' = saw_call s in
    let r = tool_or_new fresh call s' (Dict.get call.index s'.tools) in
    subst (λ t. Recorded t (feed_tool call r))
      (tool_or_new-text fresh call s' (Dict.get call.index s'.tools)) (feed_tool-Recorded call r)

feed_calls-Recorded :
    (fresh : ℕ → String) (calls : List CallDelta) (s : StreamState)
    → Recorded s.outcome.text (feed_calls fresh calls s)
unfolding feed_calls
feed_calls-Recorded fresh [] s = sym (append-nil s.outcome.text)
feed_calls-Recorded fresh (call ∷ calls) s =
    Recorded-and_then s.outcome.text (feed_call fresh call s) (feed_calls fresh calls)
      (feed_call-Recorded fresh call s) (feed_calls-Recorded fresh calls)

note_finish-text :
    (choice : ChunkChoice) (s : StreamState) → (note_finish choice s).outcome.text ≡ s.outcome.text
unfolding note_finish
note_finish-text choice s = ground arith

read_usage-text :
    (chunk : Chunk) (s : StreamState) → (read_usage chunk s).outcome.text ≡ s.outcome.text
unfolding read_usage
read_usage-text chunk s = ground arith

feed_choices-Recorded :
    (fresh : ℕ → String) (id model : String) (choices : List ChunkChoice) (s : StreamState)
    → Recorded s.outcome.text (feed_choices fresh id model choices s)
feed_choices-Recorded fresh id model [] s = sym (append-nil s.outcome.text)
feed_choices-Recorded fresh id model (choice ∷ choices) s =
    Recorded-and_then s.outcome.text (start_message id model (note_finish choice s)) _
      (subst (λ t. Recorded t (start_message id model (note_finish choice s)))
        (note_finish-text choice s) (start_message-Recorded id model (note_finish choice s)))
      (λ s.
        Recorded-and_then s.outcome.text (write_text choice.content s)
          (feed_calls fresh choice.tool_calls) (write_text-Recorded choice.content s)
          (feed_calls-Recorded fresh choice.tool_calls))

feed_parsed-Recorded :
    (fresh : ℕ → String) (id model : String) (o : Option Chunk) (s : StreamState)
    → Recorded s.outcome.text (feed_parsed fresh id model o s)
unfolding feed_chunk
feed_parsed-Recorded fresh id model none s = sym (append-nil s.outcome.text)
feed_parsed-Recorded fresh id model (some chunk) s =
    subst (λ t. Recorded t (feed_choices fresh id model chunk.choices (read_usage chunk s)))
      (read_usage-text chunk s)
      (feed_choices-Recorded fresh id model chunk.choices (read_usage chunk s))

feed_lines-Recorded :
    (loads : List ℕ → Option Chunk) (fresh : ℕ → String) (id model : String) (lines : List (List ℕ))
    (s : StreamState)
    → Recorded s.outcome.text (feed_lines loads fresh id model lines s)
unfolding feed_lines
feed_lines-Recorded loads fresh id model [] s = sym (append-nil s.outcome.text)
feed_lines-Recorded loads fresh id model (line ∷ lines) s =
    Recorded-and_then s.outcome.text (feed_parsed fresh id model (parsed_line loads line) s)
      (feed_lines loads fresh id model lines)
      (feed_parsed-Recorded fresh id model (parsed_line loads line) s)
      (feed_lines-Recorded loads fresh id model lines)

texts-stop_tools :
    (tools : Dict ℕ Tool) (es : List Event) → texts (stop_tools tools ++ es) ≡ texts es
unfolding stop_tools
texts-stop_tools [] es = refl
texts-stop_tools ((key, acc) ∷ tools) es = elim (Bool-cases acc.started) [
  | inl t ↦ rw t (texts-stop_tools tools es)
  | inr f ↦ rw f (texts-stop_tools tools es)
]

texts-stop_text :
    (text_at : Option ℕ) (es : List Event) → texts (stop_text text_at ++ es) ≡ texts es
texts-stop_text none es = refl
texts-stop_text (some i) es = refl

finish_stream-Recorded : (s : StreamState) → Recorded s.outcome.text (finish_stream s)
unfolding finish_stream
finish_stream-Recorded s =
    sym (append-nil s.outcome.text)
    ∙ ap (λ l. s.outcome.text ++ l) (sym (texts-stop_text s.text_at _ ∙ texts-stop_tools s.tools _))

Recorded-equal :
    (x : Sent) {s : StreamState} → Recorded [] x → x.1 ≡ some s → texts x.0 ≡ s.outcome.text
Recorded-equal (sent, none) r e = cc
Recorded-equal (sent, some s) r e =
    sym r ∙ ap (λ (t : StreamState). t.outcome.text) (some-injective _ _ e)

-- Where the stream does not raise, the texts that the outcome keeps for the judge are, in order, the
-- texts that the client was sent.
pub translate_stream-texts :
    (loads : List ℕ → Option Chunk) (fresh : ℕ → String) (id model : String) (lines : List (List ℕ))
    {s : StreamState}
    → (translate_stream loads fresh id model lines).1 ≡ some s
    → texts (translate_stream loads fresh id model lines).0 ≡ s.outcome.text
unfolding translate_stream
translate_stream-texts loads fresh id model lines e =
    Recorded-equal (translate_stream loads fresh id model lines)
      (Recorded-and_then [] (feed_lines loads fresh id model lines initial)
        (λ s. and_then (start_message id model s) finish_stream)
        (feed_lines-Recorded loads fresh id model lines initial)
        (λ s.
          Recorded-and_then s.outcome.text (start_message id model s) finish_stream
            (start_message-Recorded id model s) finish_stream-Recorded))
      e
