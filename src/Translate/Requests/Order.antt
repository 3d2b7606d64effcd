-- ===== src/Translate/Requests/Order.antt =====
-- Where a system message stands in what `messages_to_openai` of auto_router/translate.py returns.
use mathlib.Core.Option.{some-injective}
use auto_model_router.Prelude.{
  ℕ, ◌+◌, ◌≡◌, refl, subst, String, Bool, true, false, Option, none, some, List, [], ◌∷◌, ◌++◌, All,
  str_eq, if◌then◌else◌, Bool-cases, Option-cases, inl, inr, ◌||◌,
}
use auto_model_router.Catalog.{truthy}
use auto_model_router.Translate.Requests.{
  RequestBlock, RequestBody, text_body, blocks_body, other_body, RequestMessage, System, OpenaiBody,
  OpenaiCall, text_only, with_images, null_body, OpenaiMessage, said, assistant, tool, merged,
  merge_last, append_user_text, Collected, nothing, read_blocks, emitted, add_body, add_message,
  add_messages, or_no_messages, system_first, messages_to_openai, system_message_text,
  extract_system_text, image, thinking, redacted_thinking, text_in, tool_use, tool_result,
  no_object, unknown, body_of, body_or_null, says_something, has_calls,
}
use auto_model_router.Translate.Requests.Kept.{
  block_results, Adds, read_blocks-Adds, or_raise-some, none-ne-some,
}
use auto_model_router.Translate.Requests.Results.{or_no_messages-some}

abbrev pub role_of : OpenaiMessage → String
role_of (said role body) = role
role_of (assistant body calls) = "assistant"
role_of (tool id output) = "tool"

abbrev pub NotSystem : OpenaiMessage → Type 0
NotSystem m = str_eq (role_of m) "system" ≡ false

abbrev pub OnlyFirst : List OpenaiMessage → Type 0
OnlyFirst [] = Unit
OnlyFirst (m ∷ ms) = All NotSystem ms

All-append :
    (xs ys : List OpenaiMessage) → All NotSystem xs → All NotSystem ys → All NotSystem (xs ++ ys)
All-append [] ys a b = b
All-append (x ∷ xs) ys a b = (a.0, All-append xs ys a.1 b)

OnlyFirst-append :
    (xs ys : List OpenaiMessage) → OnlyFirst xs → All NotSystem ys → OnlyFirst (xs ++ ys)
OnlyFirst-append [] [] a b = tt
OnlyFirst-append [] (y ∷ ys) a b = b.1
OnlyFirst-append (x ∷ xs) ys a b = All-append xs ys a b

merged-All : (text : String) (m : OpenaiMessage) → NotSystem m → All NotSystem (merged text m)
merged-All text (said role null_body) n = (n, (refl, tt))
merged-All text (said role (text_only before)) n = elim (Bool-cases (str_eq role "user")) [
  | inl e ↦ rw e (n, tt)
  | inr e ↦ rw e (n, (refl, tt))
]
merged-All text (said role (with_images parts)) n = elim (Bool-cases (str_eq role "user")) [
  | inl e ↦ rw e (n, tt)
  | inr e ↦ rw e (n, (refl, tt))
]
merged-All text (assistant body calls) n = (n, (refl, tt))
merged-All text (tool id output) n = (n, (refl, tt))

merged-OnlyFirst : (text : String) (m : OpenaiMessage) → OnlyFirst (merged text m)
merged-OnlyFirst text (said role null_body) = (refl, tt)
merged-OnlyFirst text (said role (text_only before)) = elim (Bool-cases (str_eq role "user")) [
  | inl e ↦ rw e tt
  | inr e ↦ rw e (refl, tt)
]
merged-OnlyFirst text (said role (with_images parts)) = elim (Bool-cases (str_eq role "user")) [
  | inl e ↦ rw e tt
  | inr e ↦ rw e (refl, tt)
]
merged-OnlyFirst text (assistant body calls) = (refl, tt)
merged-OnlyFirst text (tool id output) = (refl, tt)

merge_last-All :
    (text : String) (ms : List OpenaiMessage)
    → All NotSystem ms
    → All NotSystem (merge_last text ms)
merge_last-All text [] a = (refl, tt)
merge_last-All text (m ∷ []) a = merged-All text m a.0
merge_last-All text (m ∷ (n ∷ ms)) a = (a.0, merge_last-All text (n ∷ ms) a.1)

append_user_text-OnlyFirst :
    (out : List OpenaiMessage) (text : String)
    → OnlyFirst out
    → OnlyFirst (append_user_text out text)
unfolding append_user_text
append_user_text-OnlyFirst out text a = elim (Bool-cases (truthy (some text))) [
  | inl t ↦ rw t (go out a)
  | inr f ↦ rw f a
]
  where
    go : (out : List OpenaiMessage) → OnlyFirst out → OnlyFirst (merge_last text out)
    go [] a = tt
    go (m ∷ []) a = merged-OnlyFirst text m
    go (m ∷ (n ∷ ms)) a = merge_last-All text (n ∷ ms) a

-- A body that says nothing is left out.
said_if-All :
    (t : Bool) (c : Collected) → All NotSystem (if t then said "user" (body_of c) ∷ [] else [])
said_if-All true c = (refl, tt)
said_if-All false c = tt

answered-All :
    (t : Bool) (body : OpenaiBody) (calls : List OpenaiCall)
    → All NotSystem (if t then assistant body calls ∷ [] else [])
answered-All true body calls = (refl, tt)
answered-All false body calls = tt

module _ {J : Type 0} (dumps : J → String) where
  block_results-All : (bs : List (RequestBlock J)) → All NotSystem (block_results dumps bs)
  block_results-All [] = tt
  block_results-All (text_in text ∷ bs) = block_results-All bs
  block_results-All (thinking ∷ bs) = block_results-All bs
  block_results-All (redacted_thinking ∷ bs) = block_results-All bs
  block_results-All (image source ∷ bs) = block_results-All bs
  block_results-All (tool_use id name input ∷ bs) = block_results-All bs
  block_results-All (no_object ∷ bs) = block_results-All bs
  block_results-All (unknown ∷ bs) = block_results-All bs
  block_results-All (tool_result id produced ∷ bs) = (refl, block_results-All bs)

  emitted-All :
      (fresh : ℕ → String) (role : String) (blocks : List (RequestBlock J)) (c : Collected)
      → Adds dumps fresh nothing c blocks
      → All NotSystem (emitted role c)
  emitted-All fresh role blocks c a = elim (Bool-cases (str_eq role "assistant")) [
    | inl e ↦
        rw e
          (answered-All (says_something c || has_calls c) (body_or_null (body_of c)) c.tool_calls)
    | inr e ↦ rw e (
        All-append c.tool_results (if says_something c then said "user" (body_of c) ∷ [] else [])
          (rw a.results (block_results-All blocks)) (said_if-All (says_something c) c))
  ]

module _ {J : Type 0} (dumps : J → String) (fresh : ℕ → ℕ → String) where
  add_body-OnlyFirst :
      (n : ℕ) (role : String) (content : RequestBody J) (out out' : List OpenaiMessage)
      → str_eq role "system" ≡ false
      → OnlyFirst out
      → add_body dumps fresh n role content out ≡ some out'
      → OnlyFirst out'
  add_body-OnlyFirst n role (text_body text) out out' s a e =
      subst OnlyFirst (some-injective _ _ e)
        (OnlyFirst-append out (said role (text_only text) ∷ []) a (s, tt))
  add_body-OnlyFirst n role other_body out out' s a e = cc
  add_body-OnlyFirst n role (blocks_body blocks) out out' s a e =
      elim (Option-cases (read_blocks dumps (fresh n) blocks nothing)) [
        | inl r ↦ none-ne-some (rw r at e)
        | inr (c, r) ↦ subst OnlyFirst (some-injective _ _ (rw r at e)) (
            OnlyFirst-append out (emitted role c) a (
              emitted-All dumps (fresh n) role blocks c
                (read_blocks-Adds dumps (fresh n) blocks nothing c r)))
      ]

  add_message-OnlyFirst :
      (n : ℕ) (m : RequestMessage J) (out out' : List OpenaiMessage)
      → OnlyFirst out
      → add_message dumps fresh n m out ≡ some out'
      → OnlyFirst out'
  add_message-OnlyFirst n m out out' a e = elim (Bool-cases (str_eq m.role "system")) [
    | inl s ↦
        subst OnlyFirst (some-injective _ _ (rw s at e))
          (append_user_text-OnlyFirst out (system_message_text m.content) a)
    | inr s ↦ add_body-OnlyFirst n m.role m.content out out' s a (rw s at e)
  ]

  add_messages-OnlyFirst :
      (n : ℕ) (ms : List (RequestMessage J)) (out out' : List OpenaiMessage)
      → OnlyFirst out
      → add_messages dumps fresh n ms out ≡ some out'
      → OnlyFirst out'
  unfolding add_messages
  add_messages-OnlyFirst n [] out out' a e = subst OnlyFirst (some-injective _ _ e) a
  add_messages-OnlyFirst n (m ∷ ms) out out' a e =
      let (mid, first, rest) =
        or_raise-some (add_message dumps fresh n m out) (add_messages dumps fresh (n + 1) ms) e in
      add_messages-OnlyFirst (n + 1) ms mid out' (add_message-OnlyFirst n m out mid a first) rest

  after_system-OnlyFirst :
      (messages : List (RequestMessage J)) (text : Option String) {out : List OpenaiMessage}
      → or_no_messages (add_messages dumps fresh 0 messages (system_first text)) ≡ some out
      → OnlyFirst out
  after_system-OnlyFirst messages none e =
      add_messages-OnlyFirst 0 messages [] _ tt (or_no_messages-some _ e)
  after_system-OnlyFirst messages (some text) e =
      add_messages-OnlyFirst 0 messages (system_first (some text)) _ tt (or_no_messages-some _ e)

  -- Only the first message that `messages_to_openai` returns can be a system message, wherever the
  -- request has its own.
  pub messages_to_openai-OnlyFirst :
      (messages : List (RequestMessage J)) (system : System) {out : List OpenaiMessage}
      → messages_to_openai dumps fresh messages system ≡ some out
      → OnlyFirst out
  unfolding messages_to_openai
  messages_to_openai-OnlyFirst messages system e =
      elim (Option-cases (extract_system_text system)) [
        | inl n ↦ none-ne-some (rw n at e)
        | inr (text, n) ↦ after_system-OnlyFirst messages text (rw n at e)
      ]
