-- ===== src/Translate/Stream/Calls.antt =====
-- What `translate_stream` of auto_router/stream_translate.py sends for the text and the calls of one
-- chunk, and the client that reads it.
use auto_model_router.Prelude.{
  ℕ, ◌≡◌, refl, sym, ap, ◌∙◌, String, Bool, true, false, ◌||◌, Option, none, some, List, [], ◌∷◌,
  arith, nat_eq,
}
use auto_model_router.Prelude.Dict
use auto_model_router.Prelude.Dict.{Dict, get-insert, get-insert_same}
use auto_model_router.Catalog.{truthy, or_else}
use auto_model_router.Translate.Events.{tool_block, input_json_delta}
use auto_model_router.Translate.Protocol.{
  of_tool, unused, opened, inside, Client, mark, mark_same, starts, writes, done, more,
}
use auto_model_router.Translate.Stream.Blocks.{
  Tools, tool_status, Distinct-new, Distinct-same, status-insert_new, status-insert_same,
  status-insert_started, status-get_idle, status-get_started, TextApart-new, TextApart-same,
  TextApart-get, text-same, text-mark,
}
use auto_model_router.Translate.Stream.{
  CallDelta, Tool, StreamState, start_if, arguments_if, new_tool, tool_or_new, saw_call, named,
  may_start, start_tool, write_arguments, feed_tool, feed_call, feed_calls,
}
use auto_model_router.Translate.Stream.Agrees.{phase_of, InMessage, Good, Good-and_then}

-- The accumulator of a call is in the dictionary.
abbrev Holds : ℕ → Tool → StreamState → Client → Type 0
Holds key acc s c = InMessage s c × (Dict.get key s.tools ≡ some acc)

tool_or_new-Holds :
    (fresh : ℕ → String) (call : CallDelta) (s : StreamState) (c : Client) (o : Option Tool)
    → Dict.get call.index s.tools ≡ o
    → InMessage s c
    → let r = tool_or_new fresh call s o in Holds call.index r.1 r.0 c
tool_or_new-Holds fresh call s c none e (v, t) =
    let acc = (new_tool fresh call s).1 in
    (
      (
        record {
          phase = v.phase;
          blocks = λ j.
              v.blocks j
              ∙ text-same s.text_at s.tools (Dict.insert call.index acc s.tools) j
                  (sym (status-insert_new j call.index acc s.tools refl e));
          distinct = Distinct-new s.next_index call.index acc s.tools refl e v.distinct;
          apart = TextApart-new s.next_index call.index s.text_at acc s.tools refl v.apart;
        },
        t,
      ),
      get-insert_same call.index acc s.tools,
    )
tool_or_new-Holds fresh call s c (some acc) e v = (v, e)

status-insert_started_at :
    (j key : ℕ) (acc old : Tool) (tools : Tools)
    → Dict.get key tools ≡ some old
    → old.block_index ≡ acc.block_index
    → old.started ≡ false
    → acc.started ≡ true
    → tool_status (Dict.insert key acc tools) j
      ≡ mark old.block_index (opened of_tool) (tool_status tools) j
status-insert_started_at j key acc old tools h e f t =
    status-insert_started j key acc old tools h e f t
    ∙ ap (λ i. mark i (opened of_tool) (tool_status tools) j) (sym e)

-- The block of a call that is started is open.
abbrev Opened : Tool → Bool → StreamState → Client → Type 0
Opened acc flag s c = InMessage s c × (flag ≡ true → c.blocks acc.block_index ≡ opened of_tool)

start_if-Good :
    (flag : Bool) (key : ℕ) (old acc : Tool) (s : StreamState) (c : Client)
    → old.block_index ≡ acc.block_index
    → old.started ≡ acc.started
    → (flag ≡ true → old.started ≡ false)
    → Holds key old s c
    → Good (Opened acc (acc.started || flag)) c (start_if flag key acc s)
start_if-Good false key old acc s c e f g ((v, t), h) = (
  c,
  done,
  (
    (
      record {
        phase = v.phase;
        blocks = λ j.
            v.blocks j
            ∙ text-same s.text_at s.tools (Dict.insert key acc s.tools) j
                (sym (status-insert_same j key acc old s.tools h e f));
        distinct = Distinct-same s.next_index key acc old s.tools h e v.distinct;
        apart = TextApart-same s.next_index key s.text_at acc old s.tools h e v.apart;
      },
      t,
    ),
    λ k.
        let open_before : old.started ≡ true = ground arith in
        ap c.blocks (sym e)
        ∙ v.blocks old.block_index
        ∙ TextApart-get s.next_index key s.text_at old s.tools h v.apart
        ∙ status-get_started s.next_index key old s.tools h open_before v.distinct,
  ),
)
start_if-Good true key old acc s c e f g ((v, t), h) =
    let i = acc.block_index in
    let acc' : Tool = record acc { started = true } in
    let p : c.phase ≡ inside = v.phase ∙ ap phase_of t in
    let idle : c.blocks i ≡ unused =
      ap c.blocks (sym e)
      ∙ v.blocks old.block_index
      ∙ TextApart-get s.next_index key s.text_at old s.tools h v.apart
      ∙ status-get_idle s.next_index key old s.tools h (g refl) v.distinct in
    let d : Client = record c { blocks = mark i (opened of_tool) c.blocks } in
    (
      d,
      more (starts i (tool_block acc.call_id acc.name) p idle) done,
      (
        (
          record {
            phase = v.phase;
            blocks = λ j. ground (
              arith,
              v.blocks j,
              e,
              text-mark s.next_index key s.text_at old (Dict.insert key acc' s.tools) s.tools j h
                  v.apart (status-insert_started_at j key acc' old s.tools h e (g refl) refl),
            );
            distinct = Distinct-same s.next_index key acc' old s.tools h e v.distinct;
            apart = TextApart-same s.next_index key s.text_at acc' old s.tools h e v.apart;
          },
          t,
        ),
        λ k. mark_same i (opened of_tool) c.blocks,
      ),
    )

arguments_if-Good :
    (has flag : Bool) (json : String) (acc : Tool) (s : StreamState) (c : Client)
    → Opened acc flag s c
    → Good InMessage c (arguments_if has flag json acc.block_index s)
arguments_if-Good false flag json acc s c (v, o) = (c, done, v)
arguments_if-Good true false json acc s c (v, o) = (c, done, tt)
arguments_if-Good true true json acc s c ((v, t), o) =
    let i = acc.block_index in
    (c, more (writes i (input_json_delta json) (v.phase ∙ ap phase_of t) (o refl)) done, (v, t))

named-same :
    (call : CallDelta) (acc : Tool)
    → (acc.block_index ≡ (named call acc).block_index) × (acc.started ≡ (named call acc).started)
named-same call acc = ground arith

may_start-idle : (acc : Tool) → may_start acc ≡ true → acc.started ≡ false
may_start-idle acc h = ground arith

feed_tool-Good :
    (call : CallDelta) (acc : Tool) (s : StreamState) (c : Client)
    → Holds call.index acc s c
    → Good InMessage c (feed_tool call (s, acc))
feed_tool-Good call acc s c h =
    let next = named call acc in
    let (e, f) = named-same call acc in
    Good-and_then (Opened next (next.started || may_start next)) InMessage c
      (start_tool call.index next s) (write_arguments call.arguments next)
      (start_if-Good (may_start next) call.index acc next s c e f (λ k. f ∙ may_start-idle next k)
        h)
      (λ s d.
        arguments_if-Good (truthy call.arguments) (next.started || may_start next)
          (or_else call.arguments "") next s d)

feed_call-Good :
    (fresh : ℕ → String) (call : CallDelta) (s : StreamState) (c : Client)
    → InMessage s c
    → Good InMessage c (feed_call fresh call s)
unfolding feed_call
feed_call-Good fresh call s c (v, t) =
    let s' = saw_call s in
    let o = Dict.get call.index s'.tools in
    let r = tool_or_new fresh call s' o in
    feed_tool-Good call r.1 r.0 c (
      tool_or_new-Holds fresh call s' c o refl
        (record { phase = v.phase; blocks = v.blocks; distinct = v.distinct; apart = v.apart }, t))

pub feed_calls-Good :
    (fresh : ℕ → String) (calls : List CallDelta) (s : StreamState) (c : Client)
    → InMessage s c
    → Good InMessage c (feed_calls fresh calls s)
unfolding feed_calls
feed_calls-Good fresh [] s c v = (c, done, v)
feed_calls-Good fresh (call ∷ calls) s c v =
    Good-and_then InMessage InMessage c (feed_call fresh call s) (feed_calls fresh calls)
      (feed_call-Good fresh call s c v) (λ s d. feed_calls-Good fresh calls s d)
