-- ===== src/Translate/Stream/Agrees.antt =====
-- What the state of `translate_stream` of auto_router/stream_translate.py says of its client, and the
-- steps that send no tool call.
use auto_model_router.Prelude.{
  ℕ, ◌≡◌, refl, ap, ◌∙◌, String, Bool, true, false, Option, none, some, arith, nat_eq,
}
use auto_model_router.Translate.Events.{text_block, text_delta}
use auto_model_router.Translate.Protocol.{
  of_text, unused, opened, Phase, before, inside, Client, mark, mark_same, begins, starts, writes,
  Accepts, done, more, Accepts-append,
}
use auto_model_router.Translate.Stream.Blocks.{
  Apart-status, text_status, Distinct, Distinct-Apart, Distinct-suc, TextApart,
}
use auto_model_router.Translate.Stream.{
  ChunkChoice, Chunk, StreamState, Sent, and_then, read_usage, note_finish, start_message,
  start_unless, text_if, see_text, into_text,
}

abbrev pub phase_of : Bool → Phase
phase_of false = before
phase_of true = inside

-- The client agrees with the variables of the loop about every block.
pub record Agrees (s : StreamState) (c : Client) : Type 0 where
  pub phase : c.phase ≡ phase_of s.started
  pub blocks : (j : ℕ) → c.blocks j ≡ text_status s.text_at s.tools j
  pub distinct : Distinct s.next_index s.tools
  pub apart : TextApart s.next_index s.text_at s.tools

abbrev pub InMessage : StreamState → Client → Type 0
InMessage s c = Agrees s c × (s.started ≡ true)

abbrev pub Then : (StreamState → Client → Type 0) → Option StreamState → Client → Type 0
Then P none c = Unit
Then P (some s) c = P s c

-- What was sent is accepted, and unless the step raised, the client is as `P` says.
abbrev pub Good : (StreamState → Client → Type 0) → Client → Sent → Type 0
Good P c x = (d : Client) × Accepts c x.0 d × Then P x.1 d

pub Good-and_then :
    (P Q : StreamState → Client → Type 0) (c : Client) (x : Sent) (next : StreamState → Sent)
    → Good P c x
    → ((s : StreamState) (d : Client) → P s d → Good Q d (next s))
    → Good Q c (and_then x next)
Good-and_then P Q c (sent, none) next g h = g
Good-and_then P Q c (sent, some s) next (d, a, p) h =
    let (f, b, q) = h s d p in (f, Accepts-append a b, q)

start_unless-Good :
    (flag : Bool) (id model : String) (s : StreamState) (c : Client)
    → s.started ≡ flag
    → Agrees s c
    → Good InMessage c (start_unless flag id model s)
start_unless-Good true id model s c e v = (c, done, (v, e))
start_unless-Good false id model s c e v = (
  record c { phase = inside },
  more (begins id model s.outcome.usage (v.phase ∙ ap phase_of e)) done,
  (record { phase = refl; blocks = v.blocks; distinct = v.distinct; apart = v.apart }, refl),
)

pub start_message-Good :
    (id model : String) (s : StreamState) (c : Client)
    → Agrees s c
    → Good InMessage c (start_message id model s)
unfolding start_message
start_message-Good id model s c v = start_unless-Good s.started id model s c refl v

pub blocks_at :
    (s : StreamState) (c : Client) (j : ℕ) (text_at : Option ℕ)
    → Agrees s c
    → s.text_at ≡ text_at
    → c.blocks j ≡ text_status text_at s.tools j
blocks_at s c j text_at v e = v.blocks j ∙ ap (λ o. text_status o s.tools j) e

into_text-Good :
    (content : String) (text_at : Option ℕ) (s : StreamState) (c : Client)
    → s.text_at ≡ text_at
    → InMessage s c
    → Good InMessage c (into_text content text_at s)
into_text-Good content none s c e (v, t) =
    let i = s.next_index in
    let p : c.phase ≡ inside = v.phase ∙ ap phase_of t in
    let alone = Distinct-Apart i i s.tools (omega arith) v.distinct in
    let idle : c.blocks i ≡ unused = blocks_at s c i none v e ∙ Apart-status i s.tools alone in
    let d : Client = record c { blocks = mark i (opened of_text) c.blocks } in
    let w : d.blocks i ≡ opened of_text = mark_same i (opened of_text) c.blocks in
    (
      d,
      more (starts i text_block p idle) (more (writes i (text_delta content) p w) done),
      (
        record {
          phase = v.phase;
          blocks = λ j. ground (arith, blocks_at s c j none v e);
          distinct = Distinct-suc i s.tools v.distinct;
          apart = (omega arith, alone);
        },
        t,
      ),
    )
into_text-Good content (some i) s c e (v, t) =
    let p : c.phase ≡ inside = v.phase ∙ ap phase_of t in
    let w : c.blocks i ≡ opened of_text = ground (arith, blocks_at s c i (some i) v e) in
    (c, more (writes i (text_delta content) p w) done, (v, t))

pub text_if-Good :
    (flag : Bool) (content : String) (s : StreamState) (c : Client)
    → InMessage s c
    → Good InMessage c (text_if flag content s)
text_if-Good false content s c v = (c, done, v)
text_if-Good true content s c (v, t) =
    into_text-Good content s.text_at (see_text content s) c refl
      (record { phase = v.phase; blocks = v.blocks; distinct = v.distinct; apart = v.apart }, t)

-- What only touches the outcome leaves the client in agreement.
pub note_finish-Agrees :
    (choice : ChunkChoice) (s : StreamState) (c : Client)
    → Agrees s c
    → Agrees (note_finish choice s) c
unfolding note_finish
note_finish-Agrees choice s c v = ground arith

pub read_usage-Agrees :
    (chunk : Chunk) (s : StreamState) (c : Client) → Agrees s c → Agrees (read_usage chunk s) c
unfolding read_usage
read_usage-Agrees chunk s c v = ground arith
