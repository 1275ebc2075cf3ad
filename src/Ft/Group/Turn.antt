-- ===== src/Ft/Group/Turn.antt =====
-- The changes of state of `RvFt`: `set_state` and `prepare_takeover`, which call each other. A result
-- of `none` says that an entry past the end of the queue was read, or that the turns ran out.
pub mod Total
use sassrv.Base.{
  ℕ, zero, suc, Bool, true, false, not, ◌&&◌, ◌||◌, List, [], ◌∷◌, ltb, ◌==◌, if◌then◌else◌, Option,
  none, some,
}
use sassrv.Base.Int.{ℤ, pos, ltb_ℤ}
use sassrv.Ft.Peer.{
  Peer, State, listen, joining, primary, secondary, finished, MsgType, announce, activate,
  deactivate, exiting, code, same_state, is_greater_weight,
}
use sassrv.Ft.Queue.{insert, update, in_array}
use sassrv.Ft.Group.{
  ◌>>=◌, Action, on_listen, on_join, on_activate, on_deactivate, on_heartbeat, on_prepare,
  on_finish, same_action, Env, Group, emit, me, turn_peer, cancel_timer, send_msg, notify_change,
  notify_update, expired_delta_ms, entry, set_prepare_timer, set_activate_timer, unsubscribe,
}

abbrev pub has_expired : ℤ → Bool
has_expired x = not (ltb_ℤ (pos 0) x)

abbrev pub leaves_join : State → State → Bool
leaves_join old_state s = same_state old_state joining && (ltb 1 (code s) && ltb (code s) 4)

module _ {E : Env} where
  -- `stop_timers`
  abbrev pub stop_timers : Group E → Group E
  stop_timers g =
      cancel_timer on_finish
        (cancel_timer on_prepare (cancel_timer on_activate (cancel_timer on_join g)))

  -- `RvFt::finish`
  unfoldable pub leave_group : Group E → Group E
  unfolding send_msg notify_change
  leave_group g =
      let told = if same_state (me g).state listen then g else send_msg exiting [] g in
      let quiet = stop_timers (cancel_timer on_heartbeat told) in
      notify_change on_finish (emit (unsubscribe quiet.ft_sub) quiet)

  abbrev pub turned : State → Group E → Group E
  turned s g = record (turn_peer 0 s g) { state_ns = g.mono_ns }

  -- `queue.update` of the member, which reads the entry at its position.
  abbrev pub reranked : Group E → Option (Group E)
  reranked g = if in_array 0 g.queue then some (record g { queue = update 0 g.queue }) else none

  -- The change of `me.state` at the head of `set_state`.
  unfoldable pub move_to : State → Group E → Option (Group E)
  unfolding update
  move_to s g =
      if same_state s (me g).state
      then some g
      else (if leaves_join (me g).state s then reranked (turned s g) else some (turned s g))

  abbrev pub is_early : ℕ → Group E → Bool
  is_early origin_ns g =
      ltb 0 g.prepare_ms && ltb_ℤ (pos 0) (expired_delta_ms g origin_ns g.prepare_ms)

  abbrev pub announce_prepare : Action → ℕ → Group E → Group E
  announce_prepare action p g =
      if same_action action on_prepare
        && not (
            same_state (me g).state joining
            && (not (p == 0) && is_greater_weight (g.queue.heap p) (me g)))
      then notify_change on_prepare g
      else g

  -- The end of `prepare_takeover`: the timer that comes next.
  abbrev pub prepare : Action → ℕ → ℕ → Group E → Option (Group E)
  prepare action p origin_ns g =
      if is_early origin_ns g
      then set_prepare_timer g
      else set_activate_timer (announce_prepare action p g)

  -- Whether `me` is to become the primary, when `p` is the head of the queue.
  abbrev pub wins : ℕ → Group E → Bool
  wins p g =
      (p == 0) || (same_state (me g).state joining && is_greater_weight (me g) (g.queue.heap p))

  -- The second member waits for the head of the queue, or for its announced end.
  abbrev pub takeover_next : Action → ℕ → ℕ → Group E → Option (Group E)
  takeover_next action deadline p g = entry 1 g >>= λ next.
      if not (next == 0)
      then some g
      else (if not (deadline == 0)
          then (let quiet = cancel_timer on_activate (cancel_timer on_prepare g) in
              some (if ltb 0 g.prepare_ms then notify_change on_prepare quiet else quiet))
          else prepare action p (g.queue.heap p).last_rcv_ns g)

  -- Whether the member decides by its own start, and not by the head of the queue.
  abbrev pub decides : ℕ → Group E → Bool
  decides p g = (p == 0) || same_state (me g).state joining

  abbrev pub decide : (State → Group E → Option (Group E)) → Action → ℕ → Group E → Option (Group E)
  decide set_state action p g =
      if has_expired (expired_delta_ms g g.start_mono g.activate_ms)
      then (set_state (if wins p g then primary else secondary) g >>= λ h. some (notify_update h))
      else prepare action p g.start_mono g

  -- `prepare_takeover`, with the `set_state` that it calls.
  unfoldable pub prepare_takeover :
      (State → Group E → Option (Group E)) → Action → ℕ → Group E → Option (Group E)
  unfolding expired_delta_ms notify_update notify_change set_prepare_timer set_activate_timer
      is_greater_weight
  prepare_takeover set_state action deadline g = entry 0 g >>= λ p.
      if decides p g then decide set_state action p g else takeover_next action deadline p g

  abbrev pub announced : Group E → Group E
  announced g = send_msg announce [] (record g { queue = insert 0 g.queue })

  abbrev pub deactivated : State → Group E → Group E
  deactivated old_state g =
      if same_state old_state secondary
      then g
      else notify_change on_deactivate
          (send_msg deactivate [] (record g { deactivate_ns = g.state_ns }))

  -- The part of `set_state` after the change, on the state before it.
  unfoldable pub enter :
      (State → Group E → Option (Group E)) → State → State → Group E → Option (Group E)
  unfolding prepare_takeover send_msg notify_change leave_group insert
  enter set_state old_state listen g = some (send_msg announce [] g)
  enter set_state old_state joining g =
      prepare_takeover set_state on_join 0 (announced g) >>= λ h. some (notify_change on_join h)
  enter set_state old_state primary g =
      some
        (send_msg activate [] (notify_change on_activate (record g { activate_ns = g.state_ns })))
  enter set_state old_state secondary g =
      prepare_takeover set_state on_deactivate 0 (deactivated old_state g)
  enter set_state old_state finished g = some (leave_group g)

  -- `set_state`, the first argument the number of calls that may stand inside each other.
  unfoldable pub set_state_in : ℕ → State → Group E → Option (Group E)
  unfolding enter move_to
  set_state_in zero s g = none
  set_state_in (suc n) s g = move_to s g >>= λ h. enter (set_state_in n) (me g).state s h

  unfoldable pub set_state : State → Group E → Option (Group E)
  set_state s g = set_state_in 3 s g
