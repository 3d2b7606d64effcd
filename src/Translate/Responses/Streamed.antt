-- ===== src/Translate/Responses/Streamed.antt =====
-- `chat_sse` of auto_router/responses_api.py read by `translate_stream` of
-- auto_router/stream_translate.py.
use mathlib.Core.List.{append_assoc}
use auto_model_router.Prelude.{
  ℕ, ◌+◌, ◌≤◌, ◌≡◌, refl, sym, ap, ◌∙◌, String, true, Option, none, some, List, [], ◌∷◌, ◌++◌,
  arith, Bool-cases, inl, inr, All, nat_eq, nat_beq_iff, ◌==◌,
}
use auto_model_router.Prelude.Dict
use auto_model_router.Prelude.Dict.{Dict}
use auto_model_router.Catalog.{truthy}
use auto_model_router.Usage.{parse_openai_usage}
use auto_model_router.Translate.Events.{Event, message_start, message_delta, message_stop}
use auto_model_router.Translate.Stream.{
  Chunk, Tool, StreamState, initial, Sent, and_then, read_usage, note_finish, start_message,
  write_text, feed_calls, feed_chunk, no_usage, feed_lines, final_stop, finish_stream,
  translate_stream,
}
use auto_model_router.Translate.Requests.Kept.{none-ne-some}
use auto_model_router.Translate.Responses.Chat.{
  ChatCall, ChatMessage, delta_chunk, delta_choice, content_chunks, call_chunks, chat_chunks,
  chat_sse,
}
use auto_model_router.Translate.Responses.Steps.{
  feed_chunks, begun, first-Sent, content_events, said_state, content-Sent, tool_at, one_call,
  called_state, call-Sent, start_unless-started,
}
use auto_model_router.Translate.Responses.Lines.{
  Reads, Sent-and_then, feed_lines-Reads, feed_chunks-append,
}
use auto_model_router.Translate.Responses.Ends.{
  stop_of, note_finish-Same, end_state, end_state-Ended, text_stop, first_call, call_stops,
  said_state-Said,
}
use auto_model_router.Translate.Responses.Finish.{
  call_events, called_all, called_all-Called, finish-Sent, full,
}

get-append : (k : ℕ) (d e : Dict ℕ Tool) → Dict.get k d ≡ none → Dict.get k (d ++ e) ≡ Dict.get k e
unfolding Dict.get
get-append k [] e n = refl
get-append k ((j, t) ∷ d) e n = elim (Bool-cases (j == k)) [
  | inl q ↦ none-ne-some (sym (rw q at n))
  | inr q ↦ rw q (get-append k d e (rw q at n))
]

abbrev Free : ℕ → Dict ℕ Tool → Type 0
Free i d = (j : ℕ) → i ≤ j → Dict.get j d ≡ none

Free-next : (i : ℕ) (t : Tool) (d : Dict ℕ Tool) → Free i d → Free (i + 1) (d ++ ((i, t) ∷ []))
unfolding Dict.get
Free-next i t d f j le =
    get-append j d ((i, t) ∷ []) (f j (omega arith)) ∙ ground (arith, nat_beq_iff i j)

abbrev pub Named : ChatCall → Type 0
Named c = truthy c.name ≡ true

module _ (fresh : ℕ → String) (id model : String) where
  calls-Sent :
      (key : ℕ) (cs : List ChatCall) (s : StreamState)
      → s.started ≡ true
      → Free key s.tools
      → All Named cs
      → feed_chunks fresh id model (call_chunks key cs) s
        ≡ (call_events fresh s.next_index cs, some (called_all fresh key cs s))
  unfolding feed_chunks
  calls-Sent key [] s st f n = refl
  calls-Sent key (c ∷ cs) s st f n =
      let t = called_state fresh key c s in
      ap (λ x. and_then x (feed_chunks fresh id model (call_chunks (key + 1) cs)))
        (call-Sent fresh id model key c s st (f key (omega arith)) n.0)
      ∙ ap (λ (x : Sent). and_then (one_call fresh s.next_index c, some t) (λ s. x))
          (calls-Sent (key + 1) cs t st (Free-next key (tool_at fresh s.next_index c) s.tools f)
            n.1)

  end-Sent :
      (chat : ChatMessage) (s : StreamState)
      → s.started ≡ true
      → feed_chunks fresh id model
          (delta_chunk none [] chat.finish_reason
            ∷ record { usage = chat.usage; choices = [] }
            ∷ [])
          s
        ≡ ([], some (end_state chat s))
  unfolding feed_chunks feed_chunk end_state read_usage start_message write_text feed_calls
  end-Sent chat s st =
      let noted = note_finish (delta_choice none [] chat.finish_reason) s in
      ap
        (λ x.
          and_then (and_then x (λ s. and_then (write_text none s) (feed_calls fresh [])))
            (feed_chunks fresh id model (record { usage = chat.usage; choices = [] } ∷ [])))
        (start_unless-started noted.started id model noted
          ((note_finish-Same (delta_choice none [] chat.finish_reason) s).started_still ∙ st))

  -- What the client should see of a chat's answer.
  abbrev pub chat_events : ChatMessage → List Event
  chat_events chat =
      message_start id model no_usage
      ∷ (content_events chat.content
          ++ (call_events fresh (first_call chat.content) chat.tool_calls
              ++ (text_stop chat.content
                  ++ (call_stops (first_call chat.content) chat.tool_calls
                      ++ (message_delta (some (stop_of chat.tool_calls chat.finish_reason)) none
                            (parse_openai_usage chat.usage.0 chat.usage.1).output
                          ∷ message_stop
                          ∷ [])))))

  feed_chunks-chat :
      (chat : ChatMessage)
      → All Named chat.tool_calls
      → feed_chunks fresh id model (chat_chunks chat) initial ≡ (
        message_start id model no_usage
            ∷ (content_events chat.content
                ++ (call_events fresh (first_call chat.content) chat.tool_calls ++ [])),
        some (full fresh chat),
      )
  unfolding chat_chunks feed_chunks Dict.get
  feed_chunks-chat chat n =
      let s = said_state chat.content in
      let said = said_state-Said chat.content in
      let t = called_all fresh 0 chat.tool_calls s in
      let tail =
        delta_chunk none [] chat.finish_reason ∷ record { usage = chat.usage; choices = [] } ∷ [] in
      let calls = call_chunks 0 chat.tool_calls in
      let called = called_all-Called fresh 0 chat.tool_calls s in
      Sent-and_then (feed_chunk fresh id model (delta_chunk none [] none) initial) _ _ _ begun _
        (first-Sent fresh id model)
        (feed_chunks-append fresh id model (content_chunks chat.content) (calls ++ tail) begun
          ∙ Sent-and_then (feed_chunks fresh id model (content_chunks chat.content) begun) _ _ _ s _
              (content-Sent fresh id model chat.content)
              (feed_chunks-append fresh id model calls tail s
                ∙ Sent-and_then (feed_chunks fresh id model calls s) _ _ _ t _
                    (calls-Sent 0 chat.tool_calls s said.is_started (λ j le. rw said.no_tools refl)
                        n
                      ∙ ap (λ i. (call_events fresh i chat.tool_calls, some t)) said.next)
                    (end-Sent chat t (called.started_same ∙ said.is_started))))

module _ (loads : List ℕ → Option Chunk) (dumps : Chunk → List ℕ) (fresh : ℕ → String)
    (id model : String) where
  -- A chat whose chunks' texts are read back, and whose calls are named, is replayed without raising
  -- as exactly the events of its text, its calls with their arguments, its stop reason and
  -- its output tokens.
  pub translate_stream-chat_sse :
      (chat : ChatMessage)
      → All (Reads loads dumps) (chat_chunks chat)
      → All Named chat.tool_calls
      → (t : StreamState) × (translate_stream loads fresh id model (chat_sse dumps chat)
          ≡ (chat_events fresh id model chat, some t))
  unfolding translate_stream chat_sse start_message finish_stream
  translate_stream-chat_sse chat r n =
      let s = said_state chat.content in
      let said = said_state-Said chat.content in
      let called = called_all-Called fresh 0 chat.tool_calls s in
      let t = full fresh chat in
      let ended =
        end_state-Ended chat (called_all fresh 0 chat.tool_calls s)
          (called.finish_same ∙ said.no_finish) (called.usage_same ∙ said.no_usage_yet) in
      let t' : StreamState = record t {
        outcome = record t.outcome { stop_reason = final_stop t.tools t.outcome.finish_reason };
      } in
      let texts = content_events chat.content in
      let calls = call_events fresh (first_call chat.content) chat.tool_calls in
      (
        t',
        Sent-and_then (feed_lines loads fresh id model (chat_sse dumps chat) initial) _ _ _ t _
              (feed_lines-Reads loads dumps fresh id model (chat_chunks chat) initial r
                ∙ feed_chunks-chat fresh id model chat n)
              (Sent-and_then (start_message id model t) finish_stream [] _ t _
                (start_unless-started t.started id model t
                  (ended.same.started_still ∙ called.started_same ∙ said.is_started))
                (ap (λ (es : List Event). (es, some t')) (finish-Sent fresh chat s t said ended)))
            ∙ ap (λ (es : List Event). (message_start id model no_usage ∷ es, some t'))
                (append_assoc texts (calls ++ []) _
                  ∙ ap (λ l. texts ++ l) (append_assoc calls [] _)),
      )
