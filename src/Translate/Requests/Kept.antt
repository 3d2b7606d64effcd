-- ===== src/Translate/Requests/Kept.antt =====
-- The tool calls and the tool results that `messages_to_openai` of auto_router/translate.py carries over.
use mathlib.Core.Option.{some-injective}
use mathlib.Core.List.{append_assoc, append-nil}
use auto_model_router.Prelude.{
  ℕ, ◌≡◌, refl, sym, ap, ◌∙◌, String, Option, none, some, List, [], ◌∷◌, ◌++◌, arith, Bool-cases,
  inl, inr, length, length-snoc, ◌+◌, map, str_eq, eq_iff, ◌<>◌, if◌then◌else◌,
}
use auto_model_router.Catalog.{truthy, or_else}
use auto_model_router.Translate.Answers.{text_or}
use auto_model_router.Translate.Requests.{
  RequestBlock, image, thinking, redacted_thinking, text_in, tool_use, tool_result, no_object,
  unknown, base64, url, other_source, OpenaiCall, OpenaiMessage, tool, Collected, read_block,
  read_blocks, or_raise, coerce_tool_result, ResultPart, text_part, object_part, plain_part,
  ToolOutput, no_output, text_output, parts_output, other_output, result_text,
}
use auto_model_router.Prelude.Text.{join}

pub or_raise-some :
    {A B : Type 0} (o : Option A) (next : A → Option B) {b : B}
    → or_raise o next ≡ some b
    → (a : A) × (o ≡ some a) × (next a ≡ some b)
or_raise-some none next e = cc
or_raise-some (some a) next e = (a, refl, e)

pub none-ne-some : {A P : Type 0} {a : A} → none ≡ some a → P
none-ne-some h = cc

module _ {J : Type 0} (dumps : J → String) where
  -- The text of a tool's output: a list is the text of its parts, a line each.
  abbrev pub part_says : ResultPart J → String
  part_says (text_part none) = ""
  part_says (text_part (some text)) = text
  part_says (object_part value) = dumps value
  part_says (plain_part text) = text

  abbrev pub lines_say : List (ResultPart J) → String
  lines_say [] = ""
  lines_say (p ∷ []) = part_says p
  lines_say (p ∷ (q ∷ ps)) = part_says p <> ("\n" <> lines_say (q ∷ ps))

  abbrev pub output_says : ToolOutput J → String
  output_says no_output = ""
  output_says (text_output text) = text
  output_says (parts_output parts) = lines_say parts
  output_says (other_output value) = dumps value

  result_text-says : (p : ResultPart J) → result_text dumps p ≡ part_says p
  result_text-says (text_part none) = refl
  result_text-says (text_part (some text)) = elim (Bool-cases (str_eq text "")) [
    | inl e ↦ rw e (sym ((eq_iff text "").0 e))
    | inr e ↦ rw e refl
  ]
  result_text-says (object_part value) = refl
  result_text-says (plain_part text) = refl

  join-says : (ps : List (ResultPart J)) → join "\n" (map (result_text dumps) ps) ≡ lines_say ps
  unfolding join
  join-says [] = refl
  join-says (p ∷ []) = result_text-says p
  join-says (p ∷ (q ∷ ps)) = rw (result_text-says p) (rw (join-says (q ∷ ps)) refl)

  coerce_tool_result-says : (o : ToolOutput J) → coerce_tool_result dumps o ≡ output_says o
  unfolding coerce_tool_result
  coerce_tool_result-says no_output = refl
  coerce_tool_result-says (text_output text) = refl
  coerce_tool_result-says (parts_output parts) = join-says parts
  coerce_tool_result-says (other_output value) = refl

  -- What the request's blocks hold: the results in order, and the calls in order.
  abbrev pub block_results : List (RequestBlock J) → List OpenaiMessage
  block_results [] = []
  block_results (tool_result id produced ∷ bs) =
      tool (or_else id "") (output_says produced) ∷ block_results bs
  block_results (b ∷ bs) = block_results bs

module _ {J : Type 0} (dumps : J → String) (fresh : ℕ → String) where
  -- A call has its own id, and the random one where it has none or an empty one; `i` numbers the calls.
  abbrev pub block_calls : ℕ → List (RequestBlock J) → List OpenaiCall
  block_calls i [] = []
  block_calls i (tool_use id name input ∷ bs) =
      (if truthy id then or_else id (fresh i) else fresh i, (text_or name "", dumps input))
      ∷ block_calls (i + 1) bs
  block_calls i (b ∷ bs) = block_calls i bs

  -- The blocks were added to what was collected.
  pub record Adds (c d : Collected) (bs : List (RequestBlock J)) : Type 0 where
    pub results : d.tool_results ≡ c.tool_results ++ block_results dumps bs
    pub calls : d.tool_calls ≡ c.tool_calls ++ block_calls (length c.tool_calls) bs

  Adds-none :
      (c d : Collected) (b : RequestBlock J)
      → block_results dumps (b ∷ []) ≡ []
      → ((i : ℕ) → block_calls i (b ∷ []) ≡ [])
      → c.tool_results ≡ d.tool_results
      → c.tool_calls ≡ d.tool_calls
      → Adds c d (b ∷ [])
  Adds-none c d b r k e f = record {
    results = sym e ∙ sym (append-nil c.tool_results) ∙ ap (λ l. c.tool_results ++ l) (sym r);
    calls =
        sym f
        ∙ sym (append-nil c.tool_calls)
        ∙ ap (λ l. c.tool_calls ++ l) (sym (k (length c.tool_calls)));
  }

  read_block-Adds :
      (b : RequestBlock J) (c d : Collected)
      → read_block dumps fresh b c ≡ some d
      → Adds c d (b ∷ [])
  read_block-Adds (text_in text) c d e =
      Adds-none c d (text_in text) refl (λ i. refl) (ground arith) (ground arith)
  read_block-Adds thinking c d e =
      Adds-none c d thinking refl (λ i. refl) (ground arith) (ground arith)
  read_block-Adds redacted_thinking c d e =
      Adds-none c d redacted_thinking refl (λ i. refl) (ground arith) (ground arith)
  read_block-Adds (image (base64 media none)) c d e = cc
  read_block-Adds (image (base64 media (some payload))) c d e =
      Adds-none c d (image (base64 media (some payload))) refl (λ i. refl) (ground arith)
        (ground arith)
  read_block-Adds (image (url address)) c d e =
      Adds-none c d (image (url address)) refl (λ i. refl) (ground arith) (ground arith)
  read_block-Adds (image other_source) c d e = cc
  read_block-Adds (tool_use id name input) c d e =
      let same = some-injective _ _ e in
      record {
        results =
            ap (λ (d : Collected). d.tool_results) (sym same) ∙ sym (append-nil c.tool_results);
        calls = ap (λ (d : Collected). d.tool_calls) (sym same);
      }
  read_block-Adds (tool_result id produced) c d e = elim (Bool-cases (truthy id)) [
    | inl t ↦
        let same = some-injective _ _ (rw t at e) in
        record {
          results =
              ap (λ (d : Collected). d.tool_results) (sym same)
              ∙ ap (λ text. c.tool_results ++ (tool (or_else id "") text ∷ []))
                  (coerce_tool_result-says dumps produced);
          calls = ap (λ (d : Collected). d.tool_calls) (sym same) ∙ sym (append-nil c.tool_calls);
        }
    | inr f ↦ none-ne-some (rw f at e)
  ]
  read_block-Adds no_object c d e = cc
  read_block-Adds unknown c d e = cc

  block_results_one :
      (b : RequestBlock J) (bs : List (RequestBlock J))
      → block_results dumps (b ∷ []) ++ block_results dumps bs ≡ block_results dumps (b ∷ bs)
  block_results_one (text_in text) bs = refl
  block_results_one thinking bs = refl
  block_results_one redacted_thinking bs = refl
  block_results_one (image source) bs = refl
  block_results_one (tool_use id name input) bs = refl
  block_results_one (tool_result id produced) bs = refl
  block_results_one no_object bs = refl
  block_results_one unknown bs = refl

  length-nil : (cs : List OpenaiCall) → length (cs ++ []) ≡ length cs
  length-nil cs = ap length (append-nil cs)

  length-one : (cs : List OpenaiCall) (c : OpenaiCall) → length (cs ++ (c ∷ [])) ≡ length cs + 1
  length-one cs c = omega (arith, length-snoc cs c)

  block_calls_one :
      (b : RequestBlock J) (bs : List (RequestBlock J)) (cs : List OpenaiCall)
      → block_calls (length cs) (b ∷ [])
          ++ block_calls (length (cs ++ block_calls (length cs) (b ∷ []))) bs
        ≡ block_calls (length cs) (b ∷ bs)
  block_calls_one (text_in text) bs cs = rw (length-nil cs) refl
  block_calls_one thinking bs cs = rw (length-nil cs) refl
  block_calls_one redacted_thinking bs cs = rw (length-nil cs) refl
  block_calls_one (image source) bs cs = rw (length-nil cs) refl
  block_calls_one (tool_use id name input) bs cs = rw (length-one cs _) refl
  block_calls_one (tool_result id produced) bs cs = rw (length-nil cs) refl
  block_calls_one no_object bs cs = rw (length-nil cs) refl
  block_calls_one unknown bs cs = rw (length-nil cs) refl

  Adds-and_then :
      (c d f : Collected) (b : RequestBlock J) (bs : List (RequestBlock J))
      → Adds c d (b ∷ [])
      → Adds d f bs
      → Adds c f (b ∷ bs)
  Adds-and_then c d f b bs x y = record {
    results =
        y.results
        ∙ ap (λ l. l ++ block_results dumps bs) x.results
        ∙ append_assoc c.tool_results (block_results dumps (b ∷ [])) (block_results dumps bs)
        ∙ ap (λ l. c.tool_results ++ l) (block_results_one b bs);
    calls =
        y.calls
        ∙ ap (λ (l : List OpenaiCall). l ++ block_calls (length l) bs) x.calls
        ∙ append_assoc c.tool_calls (block_calls (length c.tool_calls) (b ∷ [])) _
        ∙ ap (λ l. c.tool_calls ++ l) (block_calls_one b bs c.tool_calls);
  }

  pub read_blocks-Adds :
      (bs : List (RequestBlock J)) (c f : Collected)
      → read_blocks dumps fresh bs c ≡ some f
      → Adds c f bs
  unfolding read_blocks
  read_blocks-Adds [] c f e =
      let same = some-injective _ _ e in
      record {
        results =
            ap (λ (d : Collected). d.tool_results) (sym same) ∙ sym (append-nil c.tool_results);
        calls = ap (λ (d : Collected). d.tool_calls) (sym same) ∙ sym (append-nil c.tool_calls);
      }
  read_blocks-Adds (b ∷ bs) c f e =
      let (d, n, next) =
        or_raise-some (read_block dumps fresh b c) (read_blocks dumps fresh bs) e in
      Adds-and_then c d f b bs (read_block-Adds b c d n) (read_blocks-Adds bs d f next)
