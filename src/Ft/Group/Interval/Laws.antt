-- ===== src/Ft/Group/Interval/Laws.antt =====
-- After `start_hb` the intervals are in order, and the heartbeat timer runs on the interval in force.
use sassrv.Base.{
  ℕ, ◌+◌, ◌<◌, ◌≤◌, ◌≡◌, ◌⊎◌, inl, inr, refl, sym, ◌∙◌, if_either, Bool-cases, u32_mod, arith, true,
  false, if◌then◌else◌,
}
use mathlib.Core.Path.{subst}
use sassrv.Ft.Group.{Action, on_heartbeat, on_prepare, on_activate, Env, Group, cancel_timer}
use sassrv.Ft.Group.Interval.{
  Intervals, take_intervals, adjust_activate, adjust_prepare, new_intervals, start_hb, intervals,
  arm_heartbeat, install, restart_timers,
}

-- The heartbeat comes before the activation, and a prepare interval that is set lies between them.
abbrev pub IsOrdered : ℕ → ℕ → ℕ → Type 0
IsOrdered hb act prep = (hb < act) × ((prep ≡ 0) ⊎ ((hb ≤ prep) × (prep < act)))

adjust_activate-above :
    (v : Intervals) → 0 < v.hb → v.hb < 2000000000 → v.hb < (adjust_activate v).act
adjust_activate-above v some_hb small = ground arith

adjust_activate-hb : (v : Intervals) → (adjust_activate v).hb ≡ v.hb
adjust_activate-hb v = ground arith

adjust_prepare-same :
    (v : Intervals) → ((adjust_prepare v).hb ≡ v.hb) × ((adjust_prepare v).act ≡ v.act)
adjust_prepare-same v = ground arith

adjust_prepare-IsOrdered :
    (v : Intervals)
    → v.hb < v.act
    → v.hb + v.act < u32_mod
    → let r = adjust_prepare v in IsOrdered r.hb r.act r.prep
adjust_prepare-IsOrdered v less small = ground arith

adjusted-IsOrdered :
    (v : Intervals)
    → let r = adjust_prepare (adjust_activate v) in
      0 < r.hb → r.hb < 2000000000 → r.hb + r.act < u32_mod → IsOrdered r.hb r.act r.prep
adjusted-IsOrdered v some_hb small fits =
    let w = adjust_activate v in
    let (e, f) = adjust_prepare-same w in
    let k = adjust_activate-hb v in
    let above =
      adjust_activate-above v (omega (arith, e, k, some_hb)) (omega (arith, e, k, small)) in
    adjust_prepare-IsOrdered w (omega (arith, k, above)) (omega (arith, e, f, fits))

new_intervals-IsOrdered :
    (hb_ival act_ival prep_ival : ℕ) (v : Intervals)
    → let r = new_intervals hb_ival act_ival prep_ival v in
      0 < r.hb → r.hb < 2000000000 → r.hb + r.act < u32_mod → IsOrdered r.hb r.act r.prep
unfolding new_intervals
new_intervals-IsOrdered hb_ival act_ival prep_ival v =
    adjusted-IsOrdered (take_intervals hb_ival act_ival prep_ival v)

module _ {E : Env} where
  cancel_timer-intervals : (a : Action) (g : Group E) → intervals (cancel_timer a g) ≡ intervals g
  cancel_timer-intervals a g = if_either intervals _ (g.timer_mask a) _ _ refl refl

  install-intervals :
      (v : Intervals) (g : Group E) → intervals (install v g) ≡ record v { changed = false }
  install-intervals v g =
      let h = record g { heartbeat_ms = v.hb; activate_ms = v.act; prepare_ms = v.prep } in
      let k = if v.changed then restart_timers h else h in
      if_either intervals (intervals k) (k.timer_mask on_heartbeat) _ _ refl refl
      ∙ if_either intervals (intervals h) v.changed (restart_timers h) h
          (cancel_timer-intervals on_heartbeat
              (cancel_timer on_prepare (cancel_timer on_activate h))
            ∙ cancel_timer-intervals on_prepare (cancel_timer on_activate h)
            ∙ cancel_timer-intervals on_activate h)
          refl

  arm_heartbeat-mask : (g : Group E) → (arm_heartbeat g).timer_mask on_heartbeat ≡ true
  arm_heartbeat-mask g = elim (Bool-cases (g.timer_mask on_heartbeat)) [
    | inl e ↦
        if_either {A = Group E} (λ h. h.timer_mask on_heartbeat) true (g.timer_mask on_heartbeat) _
          _ e refl
    | inr e ↦ ground (arith, e)
  ]

  install-mask : (v : Intervals) (g : Group E) → (install v g).timer_mask on_heartbeat ≡ true
  install-mask v g =
      let h = record g { heartbeat_ms = v.hb; activate_ms = v.act; prepare_ms = v.prep } in
      arm_heartbeat-mask (if v.changed then restart_timers h else h)

  -- `start_hb`, when the heartbeat then in force is above 0 and below 2,000,000,000 ms and its sum with
  -- the activate interval fits its word: whatever was asked for and in force before, the heartbeat
  -- is shorter than the activate interval, the prepare interval is 0 or lies between the two, and
  -- the heartbeat timer is set.
  pub start_hb-IsOrdered :
      (hb_ival act_ival prep_ival : ℕ) (g : Group E)
      → let h = start_hb hb_ival act_ival prep_ival g in
        0 < h.heartbeat_ms
        → h.heartbeat_ms < 2000000000
        → h.heartbeat_ms + h.activate_ms < u32_mod
        → IsOrdered h.heartbeat_ms h.activate_ms h.prepare_ms × (h.timer_mask on_heartbeat ≡ true)
  unfolding start_hb
  start_hb-IsOrdered hb_ival act_ival prep_ival g some_hb small fits = (
    subst (λ v. 0 < v.hb → v.hb < 2000000000 → v.hb + v.act < u32_mod → IsOrdered v.hb v.act v.prep)
        (sym (install-intervals (new_intervals hb_ival act_ival prep_ival (intervals g)) g))
        (new_intervals-IsOrdered hb_ival act_ival prep_ival (intervals g)) some_hb small fits,
    install-mask (new_intervals hb_ival act_ival prep_ival (intervals g)) g,
  )
