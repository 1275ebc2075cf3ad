-- ===== src/Ft/Group/Interval.antt =====
-- `start_hb` of src/ft.cpp: the heartbeat, activate and prepare intervals, and their timers.
pub mod Laws
use sassrv.Base.{
  ℕ, ◌+◌, ◌*◌, ◌/◌, Bool, true, false, not, ◌&&◌, ◌||◌, ltb, leb, ◌==◌, if◌then◌else◌, add32, ◌%◌,
  u32_mod,
}
use sassrv.Ft.Group.{
  on_activate, on_heartbeat, on_prepare, Env, Group, emit, timer_active, cancel_timer,
  add_timer_millis,
}

-- The three intervals, and whether one of them has changed.
pub record Intervals : Type 0 where
  pub hb : ℕ
  pub act : ℕ
  pub prep : ℕ
  pub changed : Bool

-- Whether a new interval is taken.
abbrev pub differs : ℕ → ℕ → Bool
differs old new = not (new == 0) && not (old == new)

abbrev pub take_intervals : ℕ → ℕ → ℕ → Intervals → Intervals
take_intervals hb_ival act_ival prep_ival v = record {
  hb = if differs v.hb hb_ival then hb_ival else v.hb;
  act = if differs v.act act_ival then act_ival else v.act;
  prep = if differs v.prep prep_ival then prep_ival else v.prep;
  changed = differs v.hb hb_ival || (differs v.act act_ival || differs v.prep prep_ival);
}

abbrev pub adjust_activate : Intervals → Intervals
adjust_activate v =
    if leb v.act v.hb
    then record v { act = add32 (v.hb * 2 % u32_mod) (v.hb / 10); changed = true }
    else v

abbrev pub adjust_prepare : Intervals → Intervals
adjust_prepare v =
    if not (v.prep == 0) && (ltb v.prep v.hb || leb v.act v.prep)
    then record v { prep = add32 v.hb v.act / 2; changed = true }
    else v

unfoldable pub new_intervals : ℕ → ℕ → ℕ → Intervals → Intervals
new_intervals hb_ival act_ival prep_ival v =
    adjust_prepare (adjust_activate (take_intervals hb_ival act_ival prep_ival v))

module _ {E : Env} where
  abbrev pub intervals : Group E → Intervals
  intervals g = record {
    hb = g.heartbeat_ms;
    act = g.activate_ms;
    prep = g.prepare_ms;
    changed = false;
  }

  abbrev pub restart_timers : Group E → Group E
  restart_timers g =
      cancel_timer on_heartbeat (cancel_timer on_prepare (cancel_timer on_activate g))

  -- `if ( ! this->timer_test_set( ACTION_HEARTBEAT ) )`
  abbrev pub arm_heartbeat : Group E → Group E
  arm_heartbeat g =
      if g.timer_mask on_heartbeat
      then g
      else emit (add_timer_millis g.heartbeat_ms on_heartbeat)
          (record (timer_active on_heartbeat g) { last_hb_ns = g.mono_ns })

  abbrev pub install : Intervals → Group E → Group E
  install v g =
      let h = record g { heartbeat_ms = v.hb; activate_ms = v.act; prepare_ms = v.prep } in
      arm_heartbeat (if v.changed then restart_timers h else h)

  unfoldable pub start_hb : ℕ → ℕ → ℕ → Group E → Group E
  unfolding new_intervals
  start_hb hb_ival act_ival prep_ival g =
      install (new_intervals hb_ival act_ival prep_ival (intervals g)) g
