-- ===== src/Translate/Responses/Lines.antt =====
-- The lines of `chat_sse` of auto_router/responses_api.py, read as the chunks that they were written for.
use mathlib.Core.Path.{fun_ext}
use mathlib.Core.List.{append_assoc}
use auto_model_router.Prelude.{
  ℕ, ◌≡◌, refl, sym, ap, ◌∙◌, String, false, ◌||◌, Option, none, some, List, [], ◌∷◌, ◌++◌, All,
  nat_eq,
}
use auto_model_router.Prelude.Text.{codes, codes_eq, strip, text_after}
use auto_model_router.Translate.Events.{Event}
use auto_model_router.Translate.Stream.{
  Chunk, StreamState, Sent, and_then, feed_chunk, feed_lines, feed_parsed, parsed_line,
}
use auto_model_router.Translate.Responses.Chat.{sse_lines}
use auto_model_router.Translate.Responses.Steps.{feed_chunks}

-- What JSON texts are like: a reader reads what the writer wrote, which is no blank text, no end
-- mark, and has no space around it.
pub record Reads (loads : List ℕ → Option Chunk) (dumps : Chunk → List ℕ) (c : Chunk) : Type 0 where
  pub trimmed : strip (32 ∷ dumps c) ≡ dumps c
  pub no_mark : (codes_eq (dumps c) [] || codes_eq (dumps c) (codes "[DONE]")) ≡ false
  pub reads : loads (dumps c) ≡ some c

glued :
    (sent : List Event) (y : Sent) (g : StreamState → Sent)
    → and_then (sent ++ y.0, y.1) g ≡ (sent ++ (and_then y g).0, (and_then y g).1)
glued sent (es, none) g = refl
glued sent (es, some t) g = ap (λ l. (l, (g t).1)) (append_assoc sent es (g t).0)

and_then_assoc :
    (x : Sent) (f g : StreamState → Sent)
    → and_then (and_then x f) g ≡ and_then x (λ s. and_then (f s) g)
and_then_assoc (sent, none) f g = refl
and_then_assoc (sent, some s) f g = glued sent (f s) g

pub Sent-and_then :
    (x : Sent) (next : StreamState → Sent) (es fs : List Event) (s : StreamState)
    (o : Option StreamState)
    → x ≡ (es, some s)
    → next s ≡ (fs, o)
    → and_then x next ≡ (es ++ fs, o)
Sent-and_then x next es fs s o a b =
    ap (λ x. and_then x next) a ∙ ap (λ (y : Sent). (es ++ y.0, y.1)) b

module _ (loads : List ℕ → Option Chunk) (dumps : Chunk → List ℕ) where
  line-Reads :
      (c : Chunk) → Reads loads dumps c → parsed_line loads (codes "data: " ++ dumps c) ≡ some c
  unfolding text_after
  line-Reads c r = rw r.trimmed (rw r.no_mark r.reads)

  pub feed_lines-Reads :
      (fresh : ℕ → String) (id model : String) (cs : List Chunk) (s : StreamState)
      → All (Reads loads dumps) cs
      → feed_lines loads fresh id model (sse_lines dumps cs) s ≡ feed_chunks fresh id model cs s
  unfolding feed_lines feed_chunks text_after strip
  feed_lines-Reads fresh id model [] s r = refl
  feed_lines-Reads fresh id model (c ∷ cs) s r =
      ap
        (λ o.
          and_then (feed_parsed fresh id model o s)
            (feed_lines loads fresh id model (sse_lines dumps cs)))
        (line-Reads c r.0)
      ∙ ap (and_then (feed_chunk fresh id model c s))
          (fun_ext (λ t. feed_lines-Reads fresh id model cs t r.1))

module _ (fresh : ℕ → String) (id model : String) where
  pub feed_chunks-append :
      (cs ds : List Chunk) (s : StreamState)
      → feed_chunks fresh id model (cs ++ ds) s
        ≡ and_then (feed_chunks fresh id model cs s) (feed_chunks fresh id model ds)
  unfolding feed_chunks
  feed_chunks-append [] ds s = refl
  feed_chunks-append (c ∷ cs) ds s =
      ap (and_then (feed_chunk fresh id model c s)) (fun_ext (feed_chunks-append cs ds))
      ∙ sym (
          and_then_assoc (feed_chunk fresh id model c s) (feed_chunks fresh id model cs)
            (feed_chunks fresh id model ds))
