-- ===== src/Translate/Stream/Accepted.antt =====
-- A client accepts what `translate_stream` of auto_router/stream_translate.py sends.
use auto_model_router.Prelude.{
  ℕ, ◌≡◌, ◌≢◌, ◌⊎◌, inl, inr, refl, ap, ◌∙◌, String, Option, none, some, List, [], ◌∷◌, arith,
  nat_beq_iff, nat_eq, Bool-cases,
}
use auto_model_router.Catalog.{truthy, or_else}
use auto_model_router.Translate.Protocol.{
  Kind, of_text, of_tool, unused, closed, opened, inside, over, Client, mark, waiting, stops, ends,
  finishes, Accepts, done, more, Accepts-append, IsComplete,
}
use auto_model_router.Translate.Stream.Blocks.{
  Tools, Apart-status, tool_status, text_status, Distinct, TextApart,
}
use auto_model_router.Translate.Stream.{
  ChunkChoice, Chunk, StreamState, initial, Sent, and_then, read_usage, note_finish, start_message,
  write_text, feed_calls, feed_choice, feed_choices, feed_chunk, feed_parsed, parsed_line,
  feed_lines, stop_tools, stop_text, final_stop, finish_stream, translate_stream,
}
use auto_model_router.Translate.Stream.Agrees.{
  phase_of, Agrees, InMessage, Good, Good-and_then, start_message-Good, text_if-Good,
  note_finish-Agrees, read_usage-Agrees,
}
use auto_model_router.Translate.Stream.Calls.{feed_calls-Good}

Good-weaken :
    (P Q : StreamState → Client → Type 0) (c : Client) (x : Sent)
    → Good P c x
    → ((s : StreamState) (d : Client) → P s d → Q s d)
    → Good Q c x
Good-weaken P Q c (sent, none) g h = g
Good-weaken P Q c (sent, some s) (d, a, p) h = (d, a, h s d p)

write_text-Good :
    (content : Option String) (s : StreamState) (c : Client)
    → InMessage s c
    → Good InMessage c (write_text content s)
unfolding write_text
write_text-Good content s c v = text_if-Good (truthy content) (or_else content "") s c v

feed_choice-Good :
    (fresh : ℕ → String) (id model : String) (choice : ChunkChoice) (s : StreamState) (c : Client)
    → Agrees s c
    → Good InMessage c (feed_choice fresh id model choice s)
feed_choice-Good fresh id model choice s c v =
    Good-and_then InMessage InMessage c (start_message id model (note_finish choice s)) _
      (start_message-Good id model (note_finish choice s) c (note_finish-Agrees choice s c v))
      (λ s d w.
        Good-and_then InMessage InMessage d (write_text choice.content s)
          (feed_calls fresh choice.tool_calls) (write_text-Good choice.content s d w)
          (feed_calls-Good fresh choice.tool_calls))

feed_choices-Good :
    (fresh : ℕ → String) (id model : String) (choices : List ChunkChoice) (s : StreamState)
    (c : Client)
    → Agrees s c
    → Good Agrees c (feed_choices fresh id model choices s)
feed_choices-Good fresh id model [] s c v = (c, done, v)
feed_choices-Good fresh id model (choice ∷ choices) s c v =
    Good-weaken InMessage Agrees c (feed_choice fresh id model choice s)
      (feed_choice-Good fresh id model choice s c v) (λ s d w. w.0)

feed_parsed-Good :
    (fresh : ℕ → String) (id model : String) (o : Option Chunk) (s : StreamState) (c : Client)
    → Agrees s c
    → Good Agrees c (feed_parsed fresh id model o s)
unfolding feed_chunk
feed_parsed-Good fresh id model none s c v = (c, done, v)
feed_parsed-Good fresh id model (some chunk) s c v =
    feed_choices-Good fresh id model chunk.choices (read_usage chunk s) c
      (read_usage-Agrees chunk s c v)

feed_lines-Good :
    (loads : List ℕ → Option Chunk) (fresh : ℕ → String) (id model : String) (lines : List (List ℕ))
    (s : StreamState) (c : Client)
    → Agrees s c
    → Good Agrees c (feed_lines loads fresh id model lines s)
unfolding feed_lines
feed_lines-Good loads fresh id model [] s c v = (c, done, v)
feed_lines-Good loads fresh id model (line ∷ lines) s c v =
    Good-and_then Agrees Agrees c (feed_parsed fresh id model (parsed_line loads line) s)
      (feed_lines loads fresh id model lines)
      (feed_parsed-Good fresh id model (parsed_line loads line) s c v)
      (feed_lines-Good loads fresh id model lines)

-- The blocks of these calls are the open ones.
abbrev Left : Tools → Client → Type 0
Left tools c =
    (j : ℕ)
    → (c.blocks j ≡ tool_status tools j) ⊎ ((c.blocks j ≡ closed) × (tool_status tools j ≡ unused))

stop_tools-Left :
    (next : ℕ) (tools : Tools) (c : Client)
    → c.phase ≡ inside
    → Distinct next tools
    → Left tools c
    → (d : Client) × Accepts c (stop_tools tools) d × (d.phase ≡ inside) × Left [] d
unfolding stop_tools
stop_tools-Left next [] c p d l = (c, done, p, l)
stop_tools-Left next ((key, acc) ∷ tools) c p d l = elim (Bool-cases acc.started) [
  | inl t ↦
      let i = acc.block_index in
      let is_open : c.blocks i ≡ opened of_tool = ground (arith, l i, t, nat_beq_iff i i) in
      let rest =
        stop_tools-Left next tools (record c { blocks = mark i closed c.blocks }) p d.2
          (λ j. ground (arith, l j, t, Apart-status i tools d.1, nat_beq_iff i j)) in
      rw t (rest.0, more (stops i of_tool p is_open) rest.1, rest.2, rest.3)
  | inr f ↦ rw f (stop_tools-Left next tools c p d.2 (λ j. ground (arith, l j, f)))
]

stop_text-Left :
    (next : ℕ) (text_at : Option ℕ) (tools : Tools) (c : Client)
    → c.phase ≡ inside
    → ((j : ℕ) → c.blocks j ≡ text_status text_at tools j)
    → TextApart next text_at tools
    → (d : Client) × Accepts c (stop_text text_at) d × (d.phase ≡ inside) × Left tools d
stop_text-Left next none tools c p b a = (c, done, p, λ j. inl (b j))
stop_text-Left next (some i) tools c p b a =
    let is_open : c.blocks i ≡ opened of_text = ground (arith, b i, nat_beq_iff i i) in
    (
      record c { blocks = mark i closed c.blocks },
      more (stops i of_text p is_open) done,
      p,
      λ j. ground (arith, b j, Apart-status i tools a.1, nat_beq_iff i j),
    )

none-Left : (c : Client) → Left [] c → (i : ℕ) (k : Kind) → c.blocks i ≢ opened k
none-Left c l i k e = ground (arith, l i)

abbrev Finished : StreamState → Client → Type 0
Finished s c = (c.phase ≡ over) × ((i : ℕ) (k : Kind) → c.blocks i ≢ opened k)

finish_stream-Finished :
    (s : StreamState) (c : Client) → InMessage s c → Good Finished c (finish_stream s)
unfolding finish_stream
finish_stream-Finished s c (v, t) =
    let reason = some (final_stop s.tools s.outcome.finish_reason) in
    let p : c.phase ≡ inside = v.phase ∙ ap phase_of t in
    let (c1, a1, p1, l1) = stop_text-Left s.next_index s.text_at s.tools c p v.blocks v.apart in
    let (c2, a2, p2, l2) = stop_tools-Left s.next_index s.tools c1 p1 v.distinct l1 in
    let last =
      more (ends reason none s.outcome.usage.output p2 (none-Left c2 l2))
        (more (finishes refl) done) in
    (
      record c2 { phase = over },
      Accepts-append a1 (Accepts-append a2 last),
      (refl, none-Left c2 l2),
    )

Good-Accepts :
    (Q : StreamState → Client → Type 0) (x : Sent)
    → Good Q waiting x
    → (c : Client) × Accepts waiting x.0 c
Good-Accepts Q (sent, none) (c, a, f) = (c, a)
Good-Accepts Q (sent, some s) (c, a, f) = (c, a)

Finished-IsComplete :
    (x : Sent) {s : StreamState} → Good Finished waiting x → x.1 ≡ some s → IsComplete x.0
Finished-IsComplete (sent, none) g e = cc
Finished-IsComplete (sent, some s) (c, a, f) e = record {
  client = c;
  accepted = a;
  ended_here = f.0;
  all_stopped = f.1;
}

initial-Agrees : Agrees initial waiting
initial-Agrees = record { phase = refl; blocks = λ j. refl; distinct = tt; apart = tt }

translate_stream-Good :
    (loads : List ℕ → Option Chunk) (fresh : ℕ → String) (id model : String) (lines : List (List ℕ))
    → Good Finished waiting (translate_stream loads fresh id model lines)
unfolding translate_stream
translate_stream-Good loads fresh id model lines =
    Good-and_then Agrees Finished waiting (feed_lines loads fresh id model lines initial)
      (λ s. and_then (start_message id model s) finish_stream)
      (feed_lines-Good loads fresh id model lines initial waiting initial-Agrees)
      (λ s c v.
        Good-and_then InMessage Finished c (start_message id model s) finish_stream
          (start_message-Good id model s c v) finish_stream-Finished)

-- A client of the stream protocol accepts every event that is sent, in its order, whatever lines
-- the upstream sends, also where the translation raises in the middle.
pub translate_stream-Accepts :
    (loads : List ℕ → Option Chunk) (fresh : ℕ → String) (id model : String) (lines : List (List ℕ))
    → (c : Client) × Accepts waiting (translate_stream loads fresh id model lines).0 c
translate_stream-Accepts loads fresh id model lines =
    Good-Accepts Finished (translate_stream loads fresh id model lines)
      (translate_stream-Good loads fresh id model lines)

-- A stream that does not raise is a complete message: one start, every block started under an index
-- of its own, written only while it is open and stopped, then the stop reason and the end.
pub translate_stream-IsComplete :
    (loads : List ℕ → Option Chunk) (fresh : ℕ → String) (id model : String) (lines : List (List ℕ))
    {s : StreamState}
    → (translate_stream loads fresh id model lines).1 ≡ some s
    → IsComplete (translate_stream loads fresh id model lines).0
translate_stream-IsComplete loads fresh id model lines e =
    Finished-IsComplete (translate_stream loads fresh id model lines)
      (translate_stream-Good loads fresh id model lines) e
