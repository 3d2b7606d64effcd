-- ===== src/Verify/Checks.antt =====
-- When the judge of auto_router/verify.py is asked, and when its verdict escalates.
use auto_model_router.Prelude.{ℕ, ◌≤◌, ◌≡◌, ◌↔◌, ◌⊎◌, String, Bool, true, false, arith}
use auto_model_router.Prelude.Float.{Float, ◌<?◌}
use auto_model_router.Catalog.{ModelInfo, truthy}
use auto_model_router.Verify.{
  VerifyPolicy, named, tier_ok, applies, Judgement, verdict_from, threshold,
}

module _ {F : Type 0} ⦃fl : Float F⦄ where
  -- What holds of every route whose answer is checked.
  pub record MayBeChecked (v : VerifyPolicy F) (m : ModelInfo F) (category : String) (chars : ℕ)
      (long judge : Bool) : Type 0 where
    pub enabled : v.enabled ≡ true
    pub judged : judge ≡ true
    pub readable : (named category v.skip_categories ≡ false) × (long ≡ false)
    pub short : chars ≤ v.max_request_chars
    pub permitted : named m.name v.never ≡ false
    pub metered : (named m.name v.always ≡ true) ⊎ (truthy m.subscription ≡ false)

  -- No answer is checked without a judge, for a request that the judge cannot read, of a route that
  -- is never checked, or of a plan route that is not always checked.
  pub applies-MayBeChecked :
      (v : VerifyPolicy F) (m : ModelInfo F) (category : String) (chars : ℕ) (long judge : Bool)
      (discount : F)
      → applies v m category chars long discount judge ≡ true
      → MayBeChecked v m category chars long judge
  unfolding applies tier_ok
  applies-MayBeChecked v m category chars long judge discount h = record {
    enabled = ground arith;
    judged = ground arith;
    readable = (ground arith, ground arith);
    short = ground arith;
    permitted = ground arith;
    metered = ground arith;
  }

  -- A verdict escalates exactly when the judge answered and its score is below the threshold of the
  -- category; a judge that failed never does.
  pub verdict_from-escalate :
      (j : Judgement F) (v : VerifyPolicy F) (category model : String)
      → ((verdict_from j v category model).escalate ≡ true)
        ↔ ((j.failed ≡ false) × ((j.p_adequate <? threshold v category) ≡ true))
  unfolding verdict_from
  verdict_from-escalate j v category model = ground arith
