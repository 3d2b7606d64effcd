-- ===== src/Quota/Pacing.antt =====
-- When `decide` of auto_router/quota.py opens a plan.
use auto_model_router.Prelude.{
  ◌≡◌, refl, ◌↔◌, true, false, Option, none, some, arith, if◌then◌else◌, Bool-cases, inl, inr,
}
use auto_model_router.Prelude.Float.{
  Float, IsMonotone, le_fmax, lit, ◌≼◌, ◌⊕◌, ◌⊖◌, ◌⊗◌, ◌⊘◌, ◌<?◌, ◌≤?◌, ◌=?◌, fmax,
}
use auto_model_router.Quota.{
  QuotaState, PacingRule, projection, reserve_line, decide, is_stale, session_is_full, week_seconds,
}

module _ {F : Type 0} ⦃fl : Float F⦄ where
  -- What the projected use is, and the line that it is held to.
  abbrev forecast_at : QuotaState F → F → Option F → F
  forecast_at s now none = s.week_used
  forecast_at s now (some at) = if at =? lit 0 then s.week_used else projection s now at

  abbrev pub forecast : QuotaState F → F → F
  forecast s now = forecast_at s now s.week_resets_at

  abbrev pub line : QuotaState F → PacingRule F → F → F
  line s r now = elim s.week_resets_at [
    | none ↦ r.weekly_reserve
    | some at ↦ if at =? lit 0 then r.weekly_reserve else reserve_line r now at
  ]

  -- The conditions in the words of `decide`
  record IsPassed (s : QuotaState F) (r : PacingRule F) (now : F) : Type 0 where
    fresh : is_stale s r now ≡ false
    below_stop : (r.hard_stop ≤? s.week_used) ≡ false
    session_free : session_is_full s r ≡ false
    below_line : (line s r now ≤? forecast s now) ≡ false

  decide-IsPassed :
      (s : QuotaState F) (r : PacingRule F) (now : F)
      → ((decide (some s) r now).open_for_use ≡ true) ↔ IsPassed s r now
  unfolding decide
  decide-IsPassed s r now = (λ h. ground arith, λ m. ground arith)

  -- The measurement bears no time, or it is not older than the rule allows.
  pub data IsFresh (s : QuotaState F) (r : PacingRule F) (now : F) : Type 0 where
    without_time : (s.measured_at =? lit 0) ≡ true → IsFresh s r now
    recent : (r.max_staleness_s <? (now ⊖ s.measured_at)) ≡ false → IsFresh s r now

  -- The session window is not measured, or it is below its stop.
  pub data HasSession (s : QuotaState F) (r : PacingRule F) : Type 0 where
    unmeasured : s.session_used ≡ none → HasSession s r
    below_session_stop :
        (used : F) → s.session_used ≡ some used → (r.session_stop ≤? used) ≡ false → HasSession s r

  -- The week's use when the window resets, at the rate of the time that has passed, an hour at least
  abbrev pub extrapolated : QuotaState F → F → F
  extrapolated s remaining =
      s.week_used ⊕ s.week_used ⊘ fmax (lit 3600) (lit 604800 ⊖ remaining) ⊗ remaining

  -- Without a time of the reset, the use so far is below the reserve; with one, the extrapolated use
  -- is below the reserve, which in the last hours of the week may be a higher one.
  pub data IsBelowReserve (s : QuotaState F) (r : PacingRule F) (now : F) : Type 0 where
    without_reset :
        s.week_resets_at ≡ none → (r.weekly_reserve ≤? s.week_used) ≡ false → IsBelowReserve s r now
    zero_reset :
        (at : F)
        → s.week_resets_at ≡ some at
        → (at =? lit 0) ≡ true
        → (r.weekly_reserve ≤? s.week_used) ≡ false
        → IsBelowReserve s r now
    early :
        (at remaining : F)
        → s.week_resets_at ≡ some at
        → (at =? lit 0) ≡ false
        → remaining ≡ fmax (lit 0) (at ⊖ now)
        → (remaining ≤? r.late_week_hours ⊗ lit 3600) ≡ false
        → (r.weekly_reserve ≤? extrapolated s remaining) ≡ false
        → IsBelowReserve s r now
    late :
        (at remaining : F)
        → s.week_resets_at ≡ some at
        → (at =? lit 0) ≡ false
        → remaining ≡ fmax (lit 0) (at ⊖ now)
        → (remaining ≤? r.late_week_hours ⊗ lit 3600) ≡ true
        → (fmax r.weekly_reserve r.late_week_reserve ≤? extrapolated s remaining) ≡ false
        → IsBelowReserve s r now

  pub record MayBeUsed (s : QuotaState F) (r : PacingRule F) (now : F) : Type 0 where
    pub fresh : IsFresh s r now
    pub below_stop : (r.hard_stop ≤? s.week_used) ≡ false
    pub session_free : HasSession s r
    pub below_reserve : IsBelowReserve s r now

  is_stale-IsFresh :
      (s : QuotaState F) (r : PacingRule F) (now : F) → is_stale s r now ≡ false → IsFresh s r now
  is_stale-IsFresh s r now e = elim (Bool-cases (s.measured_at =? lit 0)) [
    | inl t ↦ without_time t
    | inr f ↦ recent (ground arith)
  ]

  IsFresh-is_stale :
      (s : QuotaState F) (r : PacingRule F) (now : F) → IsFresh s r now → is_stale s r now ≡ false
  IsFresh-is_stale s r now (without_time t) = ground arith
  IsFresh-is_stale s r now (recent e) = ground arith

  full-HasSession :
      (s : QuotaState F) (r : PacingRule F) (o : Option F)
      → s.session_used ≡ o
      → session_is_full (record s { session_used = o }) r ≡ false
      → HasSession s r
  full-HasSession s r none e h = unmeasured e
  full-HasSession s r (some used) e h = below_session_stop used e h

  HasSession-full :
      (s : QuotaState F) (r : PacingRule F) → HasSession s r → session_is_full s r ≡ false
  HasSession-full s r (unmeasured e) = rw e refl
  HasSession-full s r (below_session_stop used e h) = rw e h

  below-IsBelowReserve :
      (s : QuotaState F) (r : PacingRule F) (now : F) (o : Option F)
      → s.week_resets_at ≡ o
      → (line (record s { week_resets_at = o }) r now ≤? forecast_at s now o) ≡ false
      → IsBelowReserve s r now
  below-IsBelowReserve s r now none e h = without_reset e h
  below-IsBelowReserve s r now (some at) e h = elim (Bool-cases (at =? lit 0)) [
    | inl z ↦ zero_reset at e z (rw z at h)
    | inr z ↦ elim (Bool-cases (fmax (lit 0) (at ⊖ now) ≤? r.late_week_hours ⊗ lit 3600)) [
      | inl w ↦ late at _ e z refl w (rw w at (rw z at h))
      | inr w ↦ early at _ e z refl w (rw w at (rw z at h))
    ]
  ]

  IsBelowReserve-below :
      (s : QuotaState F) (r : PacingRule F) (now : F)
      → IsBelowReserve s r now
      → (line s r now ≤? forecast s now) ≡ false
  IsBelowReserve-below s r now (without_reset e h) = rw e h
  IsBelowReserve-below s r now (zero_reset at e z h) = rw e (rw z h)
  IsBelowReserve-below s r now (early at remaining e z k w h) = rw e (rw z (rw (← k) (rw w h)))
  IsBelowReserve-below s r now (late at remaining e z k w h) = rw e (rw z (rw (← k) (rw w h)))

  -- A measured plan is open exactly when the measurement bears no time or is not older than the rule
  -- allows, the week's use is below the hard stop, the session window is not measured or below its
  -- stop, and the use is below the reserve: the use so far where the reset is not known, and else the
  -- use that the rate so far gives by the reset, against the late week's reserve in the last hours.
  pub decide_open :
      (s : QuotaState F) (r : PacingRule F) (now : F)
      → ((decide (some s) r now).open_for_use ≡ true) ↔ MayBeUsed s r now
  decide_open s r now = (
    λ h.
        let p = (decide-IsPassed s r now).0 h in
        record {
          fresh = is_stale-IsFresh s r now p.fresh;
          below_stop = p.below_stop;
          session_free = full-HasSession s r s.session_used refl p.session_free;
          below_reserve = below-IsBelowReserve s r now s.week_resets_at refl p.below_line;
        },
    λ m. (decide-IsPassed s r now).1 (record {
      fresh = IsFresh-is_stale s r now m.fresh;
      below_stop = m.below_stop;
      session_free = HasSession-full s r m.session_free;
      below_line = IsBelowReserve-below s r now m.below_reserve;
    }),
  )

  -- A plan that is not open, for want of a measurement or by one, is priced at the full list
  -- price.
  pub decide_closed :
      (o : Option (QuotaState F)) (r : PacingRule F) (now : F)
      → (decide o r now).open_for_use ≡ false
      → (decide o r now).multiplier ≡ lit 1
  unfolding decide
  decide_closed none r now h = refl
  decide_closed (some s) r now h = ground arith

  -- An open plan whose slack is at least the ramp has the multiplier 0, rounded to three places.
  pub decide_slack :
      (s : QuotaState F) (r : PacingRule F) (now : F)
      → (decide (some s) r now).open_for_use ≡ true
      → r.ramp ≼ (line s r now ⊖ forecast s now)
      → (decide (some s) r now).multiplier ≡ fl.round (lit 0) 3
  unfolding decide
  decide_slack s r now h k = ground arith

module _ {F : Type 0} ⦃fl : Float F⦄ (laws : IsMonotone F) where
  open laws use {le_refl, le_trans, of_ℕ_mono, of_ℕ_pos, add_mono, mul_mono, div_mono}

  elapsed_pos : (x : F) → (fmax (lit 3600) x ≤? lit 0) ≡ false
  elapsed_pos x =
      let up = (le_fmax laws.order (lit 3600) x).0 in
      ground
        (arith, of_ℕ_pos 3600 (omega arith), le_trans (lit 3600) (fmax (lit 3600) x) (lit 0) up)

  projection_mono :
      (s : QuotaState F) (used now at : F)
      → used ≼ s.week_used
      → projection (record s { week_used = used }) now at ≼ projection s now at
  projection_mono s used now at h =
      let remaining : F = fmax (lit 0) (at ⊖ now) in
      add_mono _ _ _ _ h (
        mul_mono remaining _ _ (le_fmax laws.order (lit 0) (at ⊖ now)).0
          (div_mono _ _ _ (elapsed_pos (week_seconds ⊖ remaining)) h))

  forecast_mono :
      (s : QuotaState F) (used now : F) (reset : Option F)
      → used ≼ s.week_used
      → forecast_at (record s { week_used = used }) now reset ≼ forecast_at s now reset
  forecast_mono s used now none h = h
  forecast_mono s used now (some at) h = elim (Bool-cases (at =? lit 0)) [
    | inl e ↦ rw e h
    | inr e ↦ rw e (projection_mono s used now at h)
  ]

  -- Use only ever closes a plan: what is open at some weekly use is open at any lower one, the
  -- other measurements being equal.
  pub decide_use_mono :
      (s : QuotaState F) (r : PacingRule F) (used now : F)
      → used ≼ s.week_used
      → (decide (some s) r now).open_for_use ≡ true
      → (decide (some (record s { week_used = used })) r now).open_for_use ≡ true
  decide_use_mono s r used now h o =
      let m = (decide-IsPassed s r now).0 o in
      let s' = record s { week_used = used } in
      (decide-IsPassed s' r now).1 (record {
        fresh = m.fresh;
        below_stop = ground (arith, le_trans r.hard_stop used s.week_used, m.below_stop);
        session_free = m.session_free;
        below_line = ground (
          arith,
          forecast_mono s used now s.week_resets_at h,
          m.below_line,
          le_trans (line s r now) (forecast s' now) (forecast s now),
        );
      })
