-- ===== src/Router/Verdicts.antt =====
-- The verdicts of `check` in auto_router/router.py: when one asks for a second attempt, and how many
-- attempts a turn may have.
use mathlib.Core.Option.{some-injective}
use auto_model_router.Prelude.{
  ◌≡◌, refl, ℕ, ◌<◌, ◌≤◌, Bool, true, false, not, Option, none, some, String, arith, Bool-cases,
  inl, inr, if◌then◌else◌, string_eq,
}
use auto_model_router.Prelude.Float.{Float, ◌<?◌}
use auto_model_router.Catalog.{truthy}
use auto_model_router.Verify.{
  VerifyPolicy, Judgement, Verdict, asks, threshold, not_verified, verdict_from,
}
use auto_model_router.Policies.State.{Context}
use auto_model_router.Router.State.{Settings, Router, RouteResult}
use auto_model_router.Router.Checking.{
  check, check_carried, graded, decorated, judged, asked, unasked, refusal, is_blank, may_regrade,
  gate_of, carried_of, verification_of,
}

module _ {F : Type 0} ⦃fl : Float F⦄ where
  -- The judge was asked about a final answer, and rated it below the threshold of the category.
  pub record IsRejection (st : Settings F) (ctx : Context F) (result : RouteResult F)
      (text answer : String) (tool_calls : Bool) : Type 0 where
    pub gated : asks (gate_of st ctx result text) ≡ true
    pub final : tool_calls ≡ false
    pub written : is_blank answer ≡ false
    pub judge : String → String → String → Option (Judgement F)
    pub has_judge : st.judge ≡ some judge
    pub judgement : Judgement F
    pub reply : judge text answer result.request.category ≡ some judgement
    pub usable : judgement.failed ≡ false
    pub low : (judgement.p_adequate <? threshold st.verify result.request.category) ≡ true

  verdict_from-escalates :
      (j : Judgement F) (policy : VerifyPolicy F) (category model : String)
      → (verdict_from j policy category model).escalate ≡ true
      → (j.failed ≡ false) × ((j.p_adequate <? threshold policy category) ≡ true)
  unfolding verdict_from
  verdict_from-escalates j policy category model h = elim (Bool-cases j.failed) [
    | inl e ↦ ground arith
    | inr e ↦ ground arith
  ]

  unasked-stays :
      (result : RouteResult F) (reason : String) → (unasked result reason).escalate ≡ false
  unfolding not_verified
  unasked-stays result reason = refl

  judged-escalates :
      (st : Settings F) (result : RouteResult F) (o : Option (Judgement F))
      → (judged st result o).escalate ≡ true
      → (j : Judgement F) × (o ≡ some j)
        × (j.failed ≡ false)
        × ((j.p_adequate <? threshold st.verify result.request.category) ≡ true)
  judged-escalates st result none h =
      (let stays = unasked-stays result "the judge raised an error" in cc)
  judged-escalates st result (some j) h =
      let (usable, low) =
        verdict_from-escalates j st.verify result.request.category result.model.name h in
      (j, refl, usable, low)

  asked-escalates :
      (st : Settings F) (ctx : Context F) (result : RouteResult F) (text answer : String)
      (tool_calls : Bool) (o : Option (String → String → String → Option (Judgement F)))
      → asks (gate_of st ctx result text) ≡ true
      → tool_calls ≡ false
      → is_blank answer ≡ false
      → st.judge ≡ o
      → (asked st result text answer o).escalate ≡ true
      → IsRejection st ctx result text answer tool_calls
  asked-escalates st ctx result text answer tool_calls none g t b e h =
      (let stays = unasked-stays result "the judge raised an error" in cc)
  asked-escalates st ctx result text answer tool_calls (some judge) g t b e h =
      let (j, reply, usable, low) =
        judged-escalates st result (judge text answer result.request.category) h in
      record {
        gated = g;
        final = t;
        written = b;
        judge = judge;
        has_judge = e;
        judgement = j;
        reply = reply;
        usable = usable;
        low = low;
      }

  graded-escalates :
      (st : Settings F) (ctx : Context F) (result : RouteResult F) (text answer : String)
      (tool_calls : Bool)
      → (graded st result (gate_of st ctx result text) text answer tool_calls).escalate ≡ true
      → IsRejection st ctx result text answer tool_calls
  graded-escalates st ctx result text answer tool_calls h =
      from (asks (gate_of st ctx result text)) tool_calls (is_blank answer) refl refl refl h
    where
      from :
          (g t b : Bool)
          → asks (gate_of st ctx result text) ≡ g
          → tool_calls ≡ t
          → is_blank answer ≡ b
          → (if not g
              then unasked result (refusal (gate_of st ctx result text))
              else if t
              then unasked result "intermediate tool-call step; only final answers are graded"
              else if b
              then unasked result "the route returned no text to check"
              else asked st result text answer st.judge).escalate
            ≡ true
          → IsRejection st ctx result text answer tool_calls
      from false t b eg et eb k =
          (let stays = unasked-stays result (refusal (gate_of st ctx result text)) in cc)
      from true true b eg et eb k =
          (let stays =
              unasked-stays result "intermediate tool-call step; only final answers are graded" in
            cc)
      from true false true eg et eb k =
          (let stays = unasked-stays result "the route returned no text to check" in cc)
      from true false false eg et eb k =
          asked-escalates st ctx result text answer tool_calls st.judge eg et eb refl k

  carried_of-truthy :
      (result : RouteResult F) {v : Verdict F}
      → carried_of result ≡ some v
      → truthy v.escalated_to ≡ true
  carried_of-truthy result h = from (verification_of result.explanation) h
    where
      from :
          (o : Option (Verdict F)) {v : Verdict F}
          → (elim o [ none ↦ none | some w ↦ if truthy w.escalated_to then some w else none ])
            ≡ some v
          → truthy v.escalated_to ≡ true
      from none k = cc
      from (some w) {v} k = elim (Bool-cases (truthy w.escalated_to)) [
        | inl e ↦ rw (← some-injective _ _ (rw e at k)) e
        | inr e ↦ absurd (nothing (rw e at k))
      ]
        where
          nothing : {u : Verdict F} → none ≡ some u → ⊥
          nothing q = cc

  -- What `check` returns is a new verdict, or the one that the second attempt brought along.
  data IsOutcome (st : Settings F) (ctx : Context F) (result : RouteResult F) (text answer : String)
      (tool_calls : Bool) : Verdict F → Type 0 where
    new :
        (escalations : ℕ)
        → ((1 ≤ st.verify.max_escalations) → escalations < st.verify.max_escalations)
        → IsOutcome st ctx result text answer tool_calls (
            decorated st
              (gate_of st ctx result text)
              escalations
              (graded st result (gate_of st ctx result text) text answer tool_calls))
    old :
        (v : Verdict F)
        → truthy v.escalated_to ≡ true
        → IsOutcome st ctx result text answer tool_calls v

  check_carried-IsOutcome :
      (st : Settings F) (ctx : Context F) (result : RouteResult F) (text answer : String)
      (tool_calls : Bool) (r : Router F) (o : Option (Verdict F))
      → carried_of result ≡ o
      → IsOutcome st ctx result text answer tool_calls
          (check_carried st (gate_of st ctx result text) result o text answer tool_calls r).0
  check_carried-IsOutcome st ctx result text answer tool_calls r none e = new 0 (λ le. le)
  check_carried-IsOutcome st ctx result text answer tool_calls r (some carried) e =
      elim (Bool-cases (may_regrade st (gate_of st ctx result text) carried)) [
        | inl h ↦ rw h (new carried.escalations (λ le. ground arith))
        | inr h ↦ rw h (old carried (carried_of-truthy result e))
      ]

  check-IsOutcome :
      (st : Settings F) (ctx : Context F) (result : RouteResult F) (text answer : String)
      (tool_calls : Bool) (r : Router F)
      → IsOutcome st ctx result text answer tool_calls
          (check st ctx result text answer tool_calls r).0
  unfolding check
  check-IsOutcome st ctx result text answer tool_calls r =
      check_carried-IsOutcome st ctx result text answer tool_calls r (carried_of result) refl

  outcome-escalates :
      (st : Settings F) (ctx : Context F) (result : RouteResult F) (text answer : String)
      (tool_calls : Bool) {v : Verdict F}
      → IsOutcome st ctx result text answer tool_calls v
      → v.escalate ≡ true
      → truthy v.escalated_to ≡ false
      → IsRejection st ctx result text answer tool_calls
  outcome-escalates st ctx result text answer tool_calls (new n below) h fresh =
      graded-escalates st ctx result text answer tool_calls h
  outcome-escalates st ctx result text answer tool_calls (old v spent) h fresh =
      (let clash = spent in cc)

  outcome-below_max :
      (st : Settings F) (ctx : Context F) (result : RouteResult F) (text answer : String)
      (tool_calls : Bool) {v : Verdict F}
      → IsOutcome st ctx result text answer tool_calls v
      → 1 ≤ st.verify.max_escalations
      → truthy v.escalated_to ≡ false
      → v.escalations < st.verify.max_escalations
  outcome-below_max st ctx result text answer tool_calls (new n below) le fresh = below le
  outcome-below_max st ctx result text answer tool_calls (old v spent) le fresh =
      (let clash = spent in cc)

  -- A verdict of `check` that has not led to a second attempt yet asks for one only where a rule
  -- covers the route, the answer is final and has text, and the judge gave a usable rating below the
  -- threshold of the category.
  pub check-escalates :
      (st : Settings F) (ctx : Context F) (result : RouteResult F) (text answer : String)
      (tool_calls : Bool) (r : Router F)
      → (check st ctx result text answer tool_calls r).0.escalate ≡ true
      → truthy (check st ctx result text answer tool_calls r).0.escalated_to ≡ false
      → IsRejection st ctx result text answer tool_calls
  check-escalates st ctx result text answer tool_calls r =
      outcome-escalates st ctx result text answer tool_calls
        (check-IsOutcome st ctx result text answer tool_calls r)

  -- Where the policy allows an escalation at all, a verdict of `check` that has not led to a second
  -- attempt yet counts fewer escalations than the policy allows.
  pub check-below_max :
      (st : Settings F) (ctx : Context F) (result : RouteResult F) (text answer : String)
      (tool_calls : Bool) (r : Router F)
      → 1 ≤ st.verify.max_escalations
      → truthy (check st ctx result text answer tool_calls r).0.escalated_to ≡ false
      → (check st ctx result text answer tool_calls r).0.escalations < st.verify.max_escalations
  check-below_max st ctx result text answer tool_calls r =
      outcome-below_max st ctx result text answer tool_calls
        (check-IsOutcome st ctx result text answer tool_calls r)
