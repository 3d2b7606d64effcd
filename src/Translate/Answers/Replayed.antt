-- ===== src/Translate/Answers/Replayed.antt =====
-- A client accepts the replay of a finished message by auto_router/translate.py.
use mathlib.Core.Option.{some-injective}
use auto_model_router.Prelude.{
  ℕ, ◌+◌, ◌≤◌, ◌≡◌, ◌≢◌, refl, subst, String, Bool, true, false, Option, none, some, List, [], ◌∷◌,
  ◌++◌, arith, nat_beq_iff, if◌then◌else◌,
}
use auto_model_router.Catalog.{truthy}
use auto_model_router.Translate.Events.{
  Block, text_block, tool_block, text_delta, input_json_delta, Event, content_block_start,
  content_block_delta, content_block_stop, message_delta, message_stop,
}
use auto_model_router.Translate.Protocol.{
  block_kind, Kind, of_text, of_tool, unused, closed, opened, inside, over, Client, mark, mark_same,
  waiting, begins, starts, writes, stops, ends, finishes, Accepts, done, more, Accepts-append,
  IsComplete,
}
use auto_model_router.Translate.Answers.{
  Content, text_content, tool_content, other_content, Message, block_events, before_rest,
  replay_from, anthropic_sse_from_message,
}

-- From this index on no block was used, and none before it is open.
record Ready (i : ℕ) (c : Client) : Type 0 where
  phase : c.phase ≡ inside
  free : (j : ℕ) → i ≤ j → c.blocks j ≡ unused
  settled : (j : ℕ) (k : Kind) → c.blocks j ≢ opened k

unused_opened : {k : Kind} → unused ≡ opened k → ⊥
unused_opened e = cc

closed-Ready :
    (i : ℕ) (k : Kind) (c : Client)
    → Ready i c
    → Ready (i + 1) (record c { blocks = mark i closed (mark i (opened k) c.blocks) })
closed-Ready i k c r = record {
  phase = r.phase;
  free = λ j le. ground (arith, r.free j, nat_beq_iff i j);
  settled = λ j l e. ground (arith, r.settled j l);
}

-- One block with the deltas that are sent for it, which are accepted while it is open.
one_block-Accepts :
    (i : ℕ) (b : Block) (k : Kind) (c : Client) (es : List Event)
    → block_kind b ≡ k
    → Ready i c
    → (let d : Client = record c { blocks = mark i (opened (block_kind b)) c.blocks } in
        Accepts d es d)
    → (d : Client) × Accepts c (content_block_start i b ∷ (es ++ (content_block_stop i ∷ []))) d
      × Ready (i + 1) d
one_block-Accepts i b k c es e r a =
    let o = opened (block_kind b) in
    (
      record c { blocks = mark i closed (mark i o c.blocks) },
      more (starts i b r.phase (r.free i (omega arith)))
          (Accepts-append a (more (stops i (block_kind b) r.phase (mark_same i o c.blocks)) done)),
      closed-Ready i (block_kind b) c r,
    )

module _ {J : Type 0} (dumps : J → String) where
  block_events-Accepts :
      (i : ℕ) (b : Content J) (c : Client) {es : List Event}
      → Ready i c
      → block_events dumps i b ≡ some es
      → (d : Client) × Accepts c es d × Ready (i + 1) d
  block_events-Accepts i (other_content kind) c r e = cc
  block_events-Accepts i (tool_content id name input) c r e =
      subst (λ es. (d : Client) × Accepts c es d × Ready (i + 1) d) (some-injective _ _ e)
        (one_block-Accepts i (tool_block id name) of_tool c
          (content_block_delta i (input_json_delta (dumps input)) ∷ []) refl r
          (more
            (writes i (input_json_delta (dumps input)) r.phase
              (mark_same i (opened of_tool) c.blocks))
            done))
  block_events-Accepts i (text_content text) c r e =
      subst (λ es. (d : Client) × Accepts c es d × Ready (i + 1) d) (some-injective _ _ e)
        (one_block-Accepts i text_block of_text c _ refl r (deltas (truthy (some text))))
    where
      deltas :
          (flag : Bool)
          → let d : Client = record c { blocks = mark i (opened of_text) c.blocks } in
            Accepts d (if flag then content_block_delta i (text_delta text) ∷ [] else []) d
      deltas false = done
      deltas true =
          more (writes i (text_delta text) r.phase (mark_same i (opened of_text) c.blocks)) done

  -- The replay from here on is accepted, and complete unless a block raised.
  abbrev Replays : Client → List Event × Bool → Type 0
  Replays c x =
      (d : Client) × Accepts c x.0 d
      × (x.1 ≡ true → (d.phase ≡ over) × ((j : ℕ) (k : Kind) → d.blocks j ≢ opened k))

  before_rest-Replays :
      (i : ℕ) (c : Client) (o : Option (List Event)) (rest : List Event × Bool)
      → ((es : List Event) → o ≡ some es → (d : Client) × Accepts c es d × Ready (i + 1) d)
      → ((d : Client) → Ready (i + 1) d → Replays d rest)
      → Replays c (before_rest o rest)
  before_rest-Replays i c none rest b h = (c, done, λ e. cc)
  before_rest-Replays i c (some es) rest b h =
      let (d, a, r) = b es refl in let (f, a', l) = h d r in (f, Accepts-append a a', l)

  replay_from-Replays :
      (i : ℕ) (bs : List (Content J)) (m : Message J) (c : Client)
      → Ready i c
      → Replays c (
          replay_from dumps i bs
            (message_delta m.stop_reason m.stop_sequence m.usage.output ∷ message_stop ∷ []))
  unfolding replay_from
  replay_from-Replays i [] m c r = (
    record c { phase = over },
    more (ends m.stop_reason m.stop_sequence m.usage.output r.phase r.settled)
        (more (finishes refl) done),
    λ e. (refl, r.settled),
  )
  replay_from-Replays i (b ∷ bs) m c r =
      before_rest-Replays i c (block_events dumps i b) _ (λ es. block_events-Accepts i b c r)
        (replay_from-Replays (i + 1) bs m)

  -- A replay that does not raise is a complete message of the stream protocol: one start, every block
  -- started under an index of its own, written only while it is open and stopped, then the stop
  -- reason and the end.
  pub anthropic_sse_from_message-IsComplete :
      (m : Message J)
      → (anthropic_sse_from_message dumps m).1 ≡ true
      → IsComplete (anthropic_sse_from_message dumps m).0
  unfolding anthropic_sse_from_message
  anthropic_sse_from_message-IsComplete m e =
      let (c, a, f) =
        replay_from-Replays 0 m.content m (record waiting { phase = inside })
          (record { phase = refl; free = λ j le. refl; settled = λ j k e. unused_opened e }) in
      record {
        client = c;
        accepted = more (begins m.id m.model m.usage refl) a;
        ended_here = (f e).0;
        all_stopped = (f e).1;
      }
