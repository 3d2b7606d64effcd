-- ===== src/Translate/Responses/Finish.antt =====
-- The calls of a chat that `chat_sse` of auto_router/responses_api.py replays, and the end of the
-- stream after them.
use mathlib.Core.List.{append_assoc, append-nil}
use auto_model_router.Prelude.{
  ℕ, ◌+◌, ◌≡◌, refl, sym, ap, ◌∙◌, String, Option, none, some, List, [], ◌∷◌, ◌++◌, nat_eq,
}
use auto_model_router.Prelude.Dict.{Dict}
use auto_model_router.Usage.{Usage, parse_openai_usage}
use auto_model_router.Translate.Events.{
  Event, content_block_stop, message_delta, message_stop, mapped_stop,
}
use auto_model_router.Translate.Stream.{
  Tool, StreamState, stop_tools, stop_text, final_stop, finish_or_stop, finish_stream,
}
use auto_model_router.Translate.Responses.Chat.{ChatCall, ChatMessage}
use auto_model_router.Translate.Responses.Steps.{said_state, tool_at, one_call, called_state}
use auto_model_router.Translate.Responses.Ends.{
  stop_of, end_state, Ended, text_stop, first_call, call_stops, Said,
}

module _ (fresh : ℕ → String) where
  abbrev pub call_events : ℕ → List ChatCall → List Event
  call_events i [] = []
  call_events i (c ∷ cs) = one_call fresh i c ++ call_events (i + 1) cs

  abbrev pub called_all : ℕ → List ChatCall → StreamState → StreamState
  called_all key [] s = s
  called_all key (c ∷ cs) s = called_all (key + 1) cs (called_state fresh key c s)

  abbrev started_tools : ℕ → ℕ → List ChatCall → Dict ℕ Tool
  started_tools key i [] = []
  started_tools key i (c ∷ cs) = (key, tool_at fresh i c) ∷ started_tools (key + 1) (i + 1) cs

  -- What the calls leave of the state as it was, and the accumulators that they add
  pub record Called (key : ℕ) (cs : List ChatCall) (s t : StreamState) : Type 0 where
    pub started_same : t.started ≡ s.started
    pub text_same : t.text_at ≡ s.text_at
    pub finish_same : t.outcome.finish_reason ≡ s.outcome.finish_reason
    pub usage_same : t.outcome.usage ≡ s.outcome.usage
    pub tools_added : t.tools ≡ s.tools ++ started_tools key s.next_index cs

  pub called_all-Called :
      (key : ℕ) (cs : List ChatCall) (s : StreamState) → Called key cs s (called_all key cs s)
  called_all-Called key [] s = record {
    started_same = refl;
    text_same = refl;
    finish_same = refl;
    usage_same = refl;
    tools_added = sym (append-nil s.tools);
  }
  called_all-Called key (c ∷ cs) s =
      let r = called_all-Called (key + 1) cs (called_state fresh key c s) in
      record {
        started_same = r.started_same;
        text_same = r.text_same;
        finish_same = r.finish_same;
        usage_same = r.usage_same;
        tools_added =
            r.tools_added
            ∙ append_assoc s.tools ((key, tool_at fresh s.next_index c) ∷ [])
                (started_tools (key + 1) (s.next_index + 1) cs);
      }

  stop_tools-started :
      (key i : ℕ) (cs : List ChatCall) → stop_tools (started_tools key i cs) ≡ call_stops i cs
  unfolding stop_tools
  stop_tools-started key i [] = refl
  stop_tools-started key i (c ∷ cs) =
      ap (λ l. content_block_stop i ∷ l) (stop_tools-started (key + 1) (i + 1) cs)

  final_stop-started :
      (key i : ℕ) (cs : List ChatCall) (finish finish' : Option String)
      → finish_or_stop finish ≡ finish_or_stop finish'
      → final_stop (started_tools key i cs) finish ≡ stop_of cs finish'
  final_stop-started key i [] finish finish' e = ap mapped_stop e
  final_stop-started key i (c ∷ cs) finish finish' e = refl

  pub finish-Sent :
      (chat : ChatMessage) (s t : StreamState)
      → Said chat.content s
      → Ended chat (called_all 0 chat.tool_calls s) t
      → (finish_stream t).0
        ≡ text_stop chat.content
          ++ (call_stops (first_call chat.content) chat.tool_calls
              ++ (message_delta
                    (some (stop_of chat.tool_calls chat.finish_reason))
                    none
                    (parse_openai_usage chat.usage.0 chat.usage.1).output
                  ∷ message_stop
                  ∷ []))
  unfolding finish_stream
  finish-Sent chat s t said ended =
      let called = called_all-Called 0 chat.tool_calls s in
      let tools : t.tools ≡ started_tools 0 (first_call chat.content) chat.tool_calls =
        ended.same.tools_still ∙ called.tools_added ∙ rw said.no_tools (rw said.next refl) in
      let stops : stop_tools t.tools ≡ call_stops (first_call chat.content) chat.tool_calls =
        ap stop_tools tools ∙ stop_tools-started 0 (first_call chat.content) chat.tool_calls in
      let reason : final_stop t.tools t.outcome.finish_reason
          ≡ stop_of chat.tool_calls chat.finish_reason =
        ap (λ d. final_stop d t.outcome.finish_reason) tools
        ∙ final_stop-started 0 (first_call chat.content) chat.tool_calls _ _ ended.finish_read in
      let text : stop_text t.text_at ≡ text_stop chat.content =
        ap stop_text (ended.same.text_still ∙ called.text_same) ∙ said.stop in
      ap
        (λ l.
          l
          ++ (stop_tools t.tools
              ++ (message_delta (some (final_stop t.tools t.outcome.finish_reason)) none
                    t.outcome.usage.output
                  ∷ message_stop
                  ∷ [])))
        text
      ∙ ap
          (λ l.
            text_stop chat.content
            ++ (l
                ++ (message_delta (some (final_stop t.tools t.outcome.finish_reason)) none
                      t.outcome.usage.output
                    ∷ message_stop
                    ∷ [])))
          stops
      ∙ ap
          (λ r.
            text_stop chat.content
            ++ (call_stops (first_call chat.content) chat.tool_calls
                ++ (message_delta (some r) none t.outcome.usage.output ∷ message_stop ∷ [])))
          reason
      ∙ ap
          (λ (u : Usage).
            text_stop chat.content
            ++ (call_stops (first_call chat.content) chat.tool_calls
                ++ (message_delta (some (stop_of chat.tool_calls chat.finish_reason)) none u.output
                    ∷ message_stop
                    ∷ [])))
          ended.usage_read

  abbrev pub full : ChatMessage → StreamState
  full chat = end_state chat (called_all 0 chat.tool_calls (said_state chat.content))
