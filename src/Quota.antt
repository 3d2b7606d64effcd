-- ===== src/Quota.antt =====
-- auto_router/quota.py: the pacing of a flat-rate plan. The readers of budget files, commands and
-- rollout logs (`from_budget_file`, `from_command`, `from_codex_rollouts`) are input and output and
-- are not modelled; a measurement enters as an optional `QuotaState`. The texts of `reason` are
-- constructors that hold the numbers which the source formats.
pub mod Pacing
use auto_model_router.Prelude.{
  ◌*◌, String, Bool, true, false, not, ◌&&◌, Option, none, some, if◌then◌else◌,
}
use auto_model_router.Prelude.Float.{Float, lit, ◌⊕◌, ◌⊖◌, ◌⊗◌, ◌⊘◌, ◌≤?◌, ◌<?◌, ◌=?◌, fmax}

pub record QuotaState (F : Type 0) : Type 0 where
  pub week_used : F
  pub week_resets_at : Option F
  pub session_used : Option F
  pub measured_at : F
  pub source : String

pub record PacingRule (F : Type 0) : Type 0 where
  pub weekly_reserve : F
  pub hard_stop : F
  pub session_stop : F
  pub ramp : F
  pub late_week_hours : F
  pub late_week_reserve : F
  pub max_staleness_s : F

pub data QuotaReason (F : Type 0) : Type 0 where
  no_measurement : QuotaReason F
  stale : QuotaReason F
  at_hard_stop : F → F → QuotaReason F
  session_full : F → QuotaReason F
  over_reserve : F → F → QuotaReason F
  paced : F → F → F → QuotaReason F

pub record QuotaDecision (F : Type 0) : Type 0 where
  pub open_for_use : Bool
  pub multiplier : F
  pub projected : Option F
  pub reason : QuotaReason F

module _ {F : Type 0} ⦃fl : Float F⦄ where
  abbrev pub week_seconds : F
  week_seconds = lit (7 * 24 * 3600)

  abbrev pub closed : Option F → QuotaReason F → QuotaDecision F
  closed projected why = record {
    open_for_use = false;
    multiplier = lit 1;
    projected = projected;
    reason = why;
  }

  -- `decide` after the early returns: the projected use and the reserve line, then the price.
  abbrev pub projection : QuotaState F → F → F → F
  projection s now resets_at =
      let remaining : F = fmax (lit 0) (resets_at ⊖ now) in
      let elapsed : F = fmax (lit 3600) (week_seconds ⊖ remaining) in
      s.week_used ⊕ s.week_used ⊘ elapsed ⊗ remaining

  abbrev pub reserve_line : PacingRule F → F → F → F
  reserve_line r now resets_at =
      if fmax (lit 0) (resets_at ⊖ now) ≤? r.late_week_hours ⊗ lit 3600
      then fmax r.weekly_reserve r.late_week_reserve
      else r.weekly_reserve

  price : PacingRule F → F → F → QuotaDecision F
  price r projected reserve =
      let slack : F = reserve ⊖ projected in
      let multiplier : F = if r.ramp ≤? slack then lit 0 else lit 1 ⊖ slack ⊘ r.ramp in
      if reserve ≤? projected
      then closed (some projected) (over_reserve projected reserve)
      else record {
        open_for_use = true;
        multiplier = fl.round multiplier 3;
        projected = some projected;
        reason = paced projected reserve multiplier;
      }

  pace : QuotaState F → PacingRule F → F → QuotaDecision F
  unfolding price
  pace s r now = elim s.week_resets_at [
    | none ↦ price r s.week_used r.weekly_reserve
    | some at ↦
        if at =? lit 0
        then price r s.week_used r.weekly_reserve
        else price r (projection s now at) (reserve_line r now at)
  ]

  abbrev pub session_is_full : QuotaState F → PacingRule F → Bool
  session_is_full s r = elim s.session_used [ none ↦ false | some used ↦ r.session_stop ≤? used ]

  abbrev pub session_or_zero : QuotaState F → F
  session_or_zero s = elim s.session_used [ none ↦ lit 0 | some used ↦ used ]

  abbrev pub is_stale : QuotaState F → PacingRule F → F → Bool
  is_stale s r now = not (s.measured_at =? lit 0) && r.max_staleness_s <? (now ⊖ s.measured_at)

  unfoldable pub decide : Option (QuotaState F) → PacingRule F → F → QuotaDecision F
  unfolding pace
  decide none r now = closed none no_measurement
  decide (some s) r now =
      if is_stale s r now
      then closed none stale
      else if r.hard_stop ≤? s.week_used
      then closed (some s.week_used) (at_hard_stop s.week_used r.hard_stop)
      else if session_is_full s r
      then closed (some s.week_used) (session_full (session_or_zero s))
      else pace s r now
