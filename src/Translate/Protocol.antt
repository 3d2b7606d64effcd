-- ===== src/Translate/Protocol.antt =====
-- The Anthropic Messages stream, as a client reads it: one message, content blocks that are
-- started, written and stopped under indices of their own, then the stop reason and the end.
use auto_model_router.Prelude.{
  arith, ℕ, ◌≡◌, ◌≢◌, Option, String, List, [], ◌∷◌, ◌++◌, nat_beq, if◌then◌else◌,
}
use auto_model_router.Usage.{Usage}
use auto_model_router.Translate.Events.{
  Block, text_block, tool_block, Delta, text_delta, input_json_delta, Event, message_start,
  content_block_start, content_block_delta, content_block_stop, message_delta, message_stop,
}

pub data Kind : Type 0 where
  of_text of_tool : Kind

pub data Status : Type 0 where
  unused closed : Status
  opened : Kind → Status

pub data Phase : Type 0 where
  before inside ended over : Phase

abbrev pub block_kind : Block → Kind
block_kind text_block = of_text
block_kind (tool_block id name) = of_tool

abbrev pub delta_kind : Delta → Kind
delta_kind (text_delta text) = of_text
delta_kind (input_json_delta json) = of_tool

pub record Client : Type 0 where
  pub phase : Phase
  pub blocks : ℕ → Status

abbrev pub mark : ℕ → Status → (ℕ → Status) → ℕ → Status
mark i status blocks j = if nat_beq i j then status else blocks j

pub mark_same : (i : ℕ) (status : Status) (blocks : ℕ → Status) → mark i status blocks i ≡ status
mark_same i status blocks = ground arith

-- The client before the first event.
abbrev pub waiting : Client
waiting = record { phase = before; blocks = λ i. unused }

pub data Step (c : Client) : Event → Client → Type 0 where
  begins :
      (id model : String) (usage : Usage)
      → c.phase ≡ before
      → Step c (message_start id model usage) (record c { phase = inside })
  starts :
      (i : ℕ) (b : Block)
      → c.phase ≡ inside
      → c.blocks i ≡ unused
      → Step c
          (content_block_start i b)
          (record c { blocks = mark i (opened (block_kind b)) c.blocks })
  writes :
      (i : ℕ) (d : Delta)
      → c.phase ≡ inside
      → c.blocks i ≡ opened (delta_kind d)
      → Step c (content_block_delta i d) c
  stops :
      (i : ℕ) (k : Kind)
      → c.phase ≡ inside
      → c.blocks i ≡ opened k
      → Step c (content_block_stop i) (record c { blocks = mark i closed c.blocks })
  ends :
      (reason sequence : Option String) (tokens : ℕ)
      → c.phase ≡ inside
      → ((i : ℕ) (k : Kind) → c.blocks i ≢ opened k)
      → Step c (message_delta reason sequence tokens) (record c { phase = ended })
  finishes : c.phase ≡ ended → Step c message_stop (record c { phase = over })

-- The client reads the events one by one.
pub data Accepts : Client → List Event → Client → Type 0 where
  done : {c : Client} → Accepts c [] c
  more :
      {c d f : Client} {e : Event} {es : List Event}
      → Step c e d
      → Accepts d es f
      → Accepts c (e ∷ es) f

pub Accepts-append :
    {c d f : Client} {es fs : List Event} → Accepts c es d → Accepts d fs f → Accepts c (es ++ fs) f
Accepts-append done b = b
Accepts-append (more s a) b = more s (Accepts-append a b)

pub Accepts-one : {c d : Client} {e : Event} → Step c e d → Accepts c (e ∷ []) d
Accepts-one s = more s done

-- The whole message was read: every block that was started was stopped.
pub record IsComplete (es : List Event) : Type 0 where
  pub client : Client
  pub accepted : Accepts waiting es client
  pub ended_here : client.phase ≡ over
  pub all_stopped : (i : ℕ) (k : Kind) → client.blocks i ≢ opened k
