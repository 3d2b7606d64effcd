-- ===== src/Translate/Requests/Results.antt =====
-- The tool calls and results of whole conversations in `messages_to_openai` of auto_router/translate.py.
use mathlib.Core.Option.{some-injective}
use mathlib.Core.List.{append_assoc, append-nil}
use auto_model_router.Prelude.{
  ℕ, ◌+◌, ◌≡◌, refl, sym, ap, ◌∙◌, String, Bool, true, false, Option, none, some, List, [], ◌∷◌,
  ◌++◌, str_eq, if◌then◌else◌, Bool-cases, Option-cases, inl, inr, ◌||◌,
}
use auto_model_router.Catalog.{truthy, or_else}
use auto_model_router.Translate.Requests.{
  RequestBlock, text_in, thinking, redacted_thinking, image, tool_use, tool_result, no_object,
  unknown, RequestBody, text_body, blocks_body, other_body, RequestMessage, System, text_only,
  with_images, null_body, OpenaiCall, OpenaiMessage, said, assistant, tool, merged, merge_last,
  append_user_text, Collected, nothing, read_blocks, emitted, body_of, body_or_null, says_something,
  add_body, add_message, add_messages, or_no_messages, system_first, messages_to_openai,
  system_message_text, extract_system_text,
}
use auto_model_router.Translate.Requests.Kept.{
  output_says, block_results, block_calls, Adds, read_blocks-Adds, or_raise-some, none-ne-some,
}

-- The tool messages of a conversation, and its calls.
abbrev pub tools_in : List OpenaiMessage → List OpenaiMessage
tools_in [] = []
tools_in (said role body ∷ ms) = tools_in ms
tools_in (assistant body calls ∷ ms) = tools_in ms
tools_in (tool id produced ∷ ms) = tool id produced ∷ tools_in ms

abbrev pub calls_in : List OpenaiMessage → List OpenaiCall
calls_in [] = []
calls_in (said role body ∷ ms) = calls_in ms
calls_in (assistant body calls ∷ ms) = calls ++ calls_in ms
calls_in (tool id produced ∷ ms) = calls_in ms

tools_in-append : (xs ys : List OpenaiMessage) → tools_in (xs ++ ys) ≡ tools_in xs ++ tools_in ys
tools_in-append [] ys = refl
tools_in-append (said role body ∷ xs) ys = tools_in-append xs ys
tools_in-append (assistant body calls ∷ xs) ys = tools_in-append xs ys
tools_in-append (tool id produced ∷ xs) ys = ap (λ l. tool id produced ∷ l) (tools_in-append xs ys)

calls_in-append : (xs ys : List OpenaiMessage) → calls_in (xs ++ ys) ≡ calls_in xs ++ calls_in ys
calls_in-append [] ys = refl
calls_in-append (said role body ∷ xs) ys = calls_in-append xs ys
calls_in-append (assistant body calls ∷ xs) ys =
    ap (λ l. calls ++ l) (calls_in-append xs ys)
    ∙ sym (append_assoc calls (calls_in xs) (calls_in ys))
calls_in-append (tool id produced ∷ xs) ys = calls_in-append xs ys

-- Both at once: what a conversation holds of its tools.
abbrev pub Holds : List OpenaiMessage → List OpenaiMessage → List OpenaiCall → Type 0
Holds out results calls = (tools_in out ≡ results) × (calls_in out ≡ calls)

Holds-append :
    (xs ys : List OpenaiMessage) {r s : List OpenaiMessage} {c d : List OpenaiCall}
    → Holds xs r c
    → Holds ys s d
    → Holds (xs ++ ys) (r ++ s) (c ++ d)
Holds-append xs ys (a, b) (e, f) =
    (tools_in-append xs ys ∙ rw a (rw e refl), calls_in-append xs ys ∙ rw b (rw f refl))

merged-Holds :
    (text : String) (m : OpenaiMessage)
    → Holds (merged text m) (tools_in (m ∷ [])) (calls_in (m ∷ []))
merged-Holds text (said role null_body) = (refl, refl)
merged-Holds text (said role (text_only before)) = elim (Bool-cases (str_eq role "user")) [
  | inl e ↦ rw e (refl, refl)
  | inr e ↦ rw e (refl, refl)
]
merged-Holds text (said role (with_images parts)) = elim (Bool-cases (str_eq role "user")) [
  | inl e ↦ rw e (refl, refl)
  | inr e ↦ rw e (refl, refl)
]
merged-Holds text (assistant body calls) = (refl, refl)
merged-Holds text (tool id produced) = (refl, refl)

merge_last-Holds :
    (text : String) (ms : List OpenaiMessage)
    → Holds (merge_last text ms) (tools_in ms) (calls_in ms)
merge_last-Holds text [] = (refl, refl)
merge_last-Holds text (m ∷ []) = merged-Holds text m
merge_last-Holds text (m ∷ (n ∷ ms)) = (
  tools_in-append (m ∷ []) (merge_last text (n ∷ ms))
      ∙ ap (λ l. tools_in (m ∷ []) ++ l) (merge_last-Holds text (n ∷ ms)).0
      ∙ sym (tools_in-append (m ∷ []) (n ∷ ms)),
  calls_in-append (m ∷ []) (merge_last text (n ∷ ms))
      ∙ ap (λ l. calls_in (m ∷ []) ++ l) (merge_last-Holds text (n ∷ ms)).1
      ∙ sym (calls_in-append (m ∷ []) (n ∷ ms)),
)

append_user_text-Holds :
    (out : List OpenaiMessage) (text : String)
    → Holds (append_user_text out text) (tools_in out) (calls_in out)
unfolding append_user_text
append_user_text-Holds out text = elim (Bool-cases (truthy (some text))) [
  | inl t ↦ rw t (merge_last-Holds text out)
  | inr f ↦ rw f (refl, refl)
]

-- A body that says nothing and calls nothing is left out.
said_if-Holds :
    (t : Bool) (c : Collected) → Holds (if t then said "user" (body_of c) ∷ [] else []) [] []
said_if-Holds true c = (refl, refl)
said_if-Holds false c = (refl, refl)

answered-Holds :
    (t : Bool) (c : Collected) (calls : List OpenaiCall)
    → Holds
        (if t || (elim calls [ [] ↦ false | call ∷ calls ↦ true ])
          then assistant (body_or_null (body_of c)) calls ∷ []
          else [])
        []
        calls
answered-Holds true c calls = (refl, append-nil calls)
answered-Holds false c [] = (refl, refl)
answered-Holds false c (call ∷ calls) = (refl, append-nil (call ∷ calls))

pub or_no_messages-some :
    (o : Option (List OpenaiMessage)) {out : List OpenaiMessage}
    → or_no_messages o ≡ some out
    → o ≡ some out
or_no_messages-some none e = e
or_no_messages-some (some []) e = cc
or_no_messages-some (some (m ∷ ms)) e = e

Holds-same :
    {out out' r : List OpenaiMessage} {c : List OpenaiCall}
    → out ≡ out'
    → Holds out r c
    → Holds out' r c
Holds-same same (a, b) = (ap tools_in (sym same) ∙ a, ap calls_in (sym same) ∙ b)

Holds-nil :
    (out : List OpenaiMessage) {r : List OpenaiMessage} {c : List OpenaiCall}
    → Holds out r c
    → Holds out (r ++ []) (c ++ [])
Holds-nil out (a, b) = (a ∙ sym (append-nil _), b ∙ sym (append-nil _))

module _ {J : Type 0} (dumps : J → String) where
  block_results-tools :
      (bs : List (RequestBlock J)) → Holds (block_results dumps bs) (block_results dumps bs) []
  block_results-tools [] = (refl, refl)
  block_results-tools (text_in text ∷ bs) = block_results-tools bs
  block_results-tools (thinking ∷ bs) = block_results-tools bs
  block_results-tools (redacted_thinking ∷ bs) = block_results-tools bs
  block_results-tools (image source ∷ bs) = block_results-tools bs
  block_results-tools (tool_use id name input ∷ bs) = block_results-tools bs
  block_results-tools (no_object ∷ bs) = block_results-tools bs
  block_results-tools (unknown ∷ bs) = block_results-tools bs
  block_results-tools (tool_result id produced ∷ bs) =
      let (r, k) = block_results-tools bs in
      (ap (λ l. tool (or_else id "") (output_says dumps produced) ∷ l) r, k)

  -- What a message asks to be kept: the results of a user, the calls of the assistant.
  abbrev pub body_results : String → RequestBody J → List OpenaiMessage
  body_results role (blocks_body blocks) =
      if str_eq role "assistant" then [] else block_results dumps blocks
  body_results role body = []

  abbrev pub body_calls : (ℕ → String) → String → RequestBody J → List OpenaiCall
  body_calls fresh role (blocks_body blocks) =
      if str_eq role "assistant" then block_calls dumps fresh 0 blocks else []
  body_calls fresh role body = []

  abbrev pub kept_results : RequestMessage J → List OpenaiMessage
  kept_results m = if str_eq m.role "system" then [] else body_results m.role m.content

  abbrev pub kept_calls : (ℕ → String) → RequestMessage J → List OpenaiCall
  kept_calls fresh m = if str_eq m.role "system" then [] else body_calls fresh m.role m.content

  abbrev pub results_of : List (RequestMessage J) → List OpenaiMessage
  results_of [] = []
  results_of (m ∷ ms) = kept_results m ++ results_of ms

  -- The `n`-th message has the random ids `fresh n`.
  abbrev pub calls_of : (ℕ → ℕ → String) → ℕ → List (RequestMessage J) → List OpenaiCall
  calls_of fresh n [] = []
  calls_of fresh n (m ∷ ms) = kept_calls (fresh n) m ++ calls_of fresh (n + 1) ms

  user-Holds :
      (fresh : ℕ → String) (blocks : List (RequestBlock J)) (c : Collected)
      → Adds dumps fresh nothing c blocks
      → Holds
          (c.tool_results ++ (if says_something c then said "user" (body_of c) ∷ [] else []))
          (block_results dumps blocks)
          []
  user-Holds fresh blocks c a =
      let (r, k) =
        Holds-append (block_results dumps blocks)
          (if says_something c then said "user" (body_of c) ∷ [] else [])
          (block_results-tools blocks) (said_if-Holds (says_something c) c) in
      rw a.results (r ∙ append-nil (block_results dumps blocks), k)

  emitted-Holds :
      (fresh : ℕ → String) (role : String) (blocks : List (RequestBlock J)) (c : Collected)
      → Adds dumps fresh nothing c blocks
      → Holds
          (emitted role c)
          (body_results role (blocks_body blocks))
          (body_calls fresh role (blocks_body blocks))
  emitted-Holds fresh role blocks c a = elim (Bool-cases (str_eq role "assistant")) [
    | inl e ↦
        let (none_kept, kept_calls) = answered-Holds (says_something c) c c.tool_calls in
        rw e (none_kept, kept_calls ∙ a.calls)
    | inr e ↦ rw e (user-Holds fresh blocks c a)
  ]

module _ {J : Type 0} (dumps : J → String) (fresh : ℕ → ℕ → String) where
  add_body-Holds :
      (n : ℕ) (role : String) (content : RequestBody J) (out out' : List OpenaiMessage)
      → add_body dumps fresh n role content out ≡ some out'
      → Holds out'
          (tools_in out ++ body_results dumps role content)
          (calls_in out ++ body_calls dumps (fresh n) role content)
  add_body-Holds n role (text_body text) out out' e =
      Holds-same (some-injective _ _ e)
        (Holds-append out (said role (text_only text) ∷ []) (refl, refl) (refl, refl))
  add_body-Holds n role other_body out out' e = cc
  add_body-Holds n role (blocks_body blocks) out out' e =
      elim (Option-cases (read_blocks dumps (fresh n) blocks nothing)) [
        | inl r ↦ none-ne-some (rw r at e)
        | inr (c, r) ↦ Holds-same (some-injective _ _ (rw r at e)) (
            Holds-append out (emitted role c) (refl, refl)
              (emitted-Holds dumps (fresh n) role blocks c
                (read_blocks-Adds dumps (fresh n) blocks nothing c r)))
      ]

  add_message-Holds :
      (n : ℕ) (m : RequestMessage J) (out out' : List OpenaiMessage)
      → add_message dumps fresh n m out ≡ some out'
      → Holds out'
          (tools_in out ++ kept_results dumps m)
          (calls_in out ++ kept_calls dumps (fresh n) m)
  add_message-Holds n m out out' e = elim (Bool-cases (str_eq m.role "system")) [
    | inl s ↦ rw s (
        Holds-same (some-injective _ _ (rw s at e)) (
          Holds-nil (append_user_text out (system_message_text m.content))
            (append_user_text-Holds out (system_message_text m.content))))
    | inr s ↦ rw s (add_body-Holds n m.role m.content out out' (rw s at e))
  ]

  add_messages-Holds :
      (n : ℕ) (ms : List (RequestMessage J)) (out out' : List OpenaiMessage)
      → add_messages dumps fresh n ms out ≡ some out'
      → Holds out' (tools_in out ++ results_of dumps ms) (calls_in out ++ calls_of dumps fresh n ms)
  unfolding add_messages
  add_messages-Holds n [] out out' e =
      Holds-same (some-injective _ _ e) (Holds-nil out (refl, refl))
  add_messages-Holds n (m ∷ ms) out out' e =
      let (mid, first, rest) =
        or_raise-some (add_message dumps fresh n m out) (add_messages dumps fresh (n + 1) ms) e in
      let (r, k) = add_message-Holds n m out mid first in
      let (rs, ks) = add_messages-Holds (n + 1) ms mid out' rest in
      (
        rs
            ∙ ap (λ l. l ++ results_of dumps ms) r
            ∙ append_assoc (tools_in out) (kept_results dumps m) (results_of dumps ms),
        ks
            ∙ ap (λ l. l ++ calls_of dumps fresh (n + 1) ms) k
            ∙ append_assoc (calls_in out) (kept_calls dumps (fresh n) m)
                (calls_of dumps fresh (n + 1) ms),
      )

  after_system-Holds :
      (messages : List (RequestMessage J)) (text : Option String) {out : List OpenaiMessage}
      → or_no_messages (add_messages dumps fresh 0 messages (system_first text)) ≡ some out
      → Holds out (results_of dumps messages) (calls_of dumps fresh 0 messages)
  after_system-Holds messages none e = add_messages-Holds 0 messages [] _ (or_no_messages-some _ e)
  after_system-Holds messages (some text) e =
      add_messages-Holds 0 messages _ _ (or_no_messages-some _ e)

  -- What `messages_to_openai` returns holds exactly the tool results of the request's messages that are
  -- neither the assistant's nor the system's, each under the id of its call and with the text of its
  -- output, and exactly the calls of the assistant's, each with its name, its arguments and its id, which
  -- is the random one only where the call has none or an empty one, in the order of the request.
  pub messages_to_openai-Holds :
      (messages : List (RequestMessage J)) (system : System) {out : List OpenaiMessage}
      → messages_to_openai dumps fresh messages system ≡ some out
      → Holds out (results_of dumps messages) (calls_of dumps fresh 0 messages)
  unfolding messages_to_openai
  messages_to_openai-Holds messages system e = elim (Option-cases (extract_system_text system)) [
    | inl n ↦ none-ne-some (rw n at e)
    | inr (text, n) ↦ after_system-Holds messages text (rw n at e)
  ]
