-- ===== src/Ft/Group/Tests.antt =====
-- A group of one member, from its start to its election, and the arrival of a peer.
use native.Mathlib.Decide.{ℕ_discrete}
use sassrv.Base.{◌≡◌, refl, true, false, none, some, Option, [], ◌∷◌, arith}
use sassrv.Base.Int.{pos}
use sassrv.Base.Wire.{function_tab}
use sassrv.Ft.Peer.{State, joining, primary, is_greater_weight}
use sassrv.Ft.Queue.{
  insert, update, reorder, sift, rev_append, number, is_missing, get_pos, in_order2, close_gap,
}
use sassrv.Ft.Group.{
  Env, Group, me, on_heartbeat, expired_delta_ms, notify_update, notify_change, send_msg,
}
use sassrv.Ft.Group.Turn.{set_state, set_state_in, enter, move_to, prepare_takeover}
use sassrv.Ft.Group.Turn.Total.{IsSome, set_state-IsSome}
use sassrv.Ft.Group.Interval.{start_hb, new_intervals}
use sassrv.Ft.Group.Interval.Laws.{IsOrdered, start_hb-IsOrdered}
use sassrv.Ft.Group.Run.{zero_peer}

abbrev env : Env
env = record { tab = function_tab ℕ_discrete; make_inbox = λ n. n ∷ []; max_timer_range = 4000000 }

-- A member whose start lies 8000 ms back, with no peers.
abbrev alone : Group env
alone = record {
  now_ns = 100000000000;
  mono_ns = 8000000000;
  queue = record {
    heap = λ a. record zero_peer { start_ns = 1; weight = 20 };
    ptr = [];
    seqno = 0;
  };
  peer_ht = λ _. none;
  tid = 1;
  state_ns = 0;
  start_mono = 0;
  last_rcv_ns = 0;
  last_hb_ns = 0;
  activate_ns = 0;
  deactivate_ns = 0;
  prepare_origin = 0;
  prepare_expires = 0;
  activate_origin = 0;
  activate_expires = 0;
  oldest_peer = 0;
  last_seqno = 0;
  accuracy_warn = pos 100;
  join_ms = 500;
  heartbeat_ms = 3000;
  activate_ms = 7000;
  prepare_ms = 6500;
  finish_ms = 500;
  inbox_num = 10;
  sync_inbox_num = 11;
  timer_mask = λ _. false;
  state_count = record { primaries = 0; secondaries = 0; joins = 0 };
  pool = [];
  ft_sub = 95 ∷ [];
  sync_inbox = 11 ∷ [];
  last_warn = 0;
  effects = [];
}

abbrev state_after : Option (Group env) → Option State
state_after none = none
state_after (some g) = some (me g).state

-- With no other member, the one that joins becomes the primary.
elected : state_after (set_state joining alone) ≡ some primary
unfolding set_state set_state_in enter move_to prepare_takeover insert update reorder sift
    rev_append number is_missing get_pos in_order2 close_gap expired_delta_ms notify_update
    notify_change send_msg is_greater_weight
elected = refl

set_state-IsSome_example : IsSome (set_state joining alone)
set_state-IsSome_example = set_state-IsSome joining alone (omega arith) (λ e. ground (arith, e))

-- An activate interval that is asked for below the heartbeat is raised.
start_hb-IsOrdered_example :
    let h = start_hb 4000 1000 0 alone in
    IsOrdered h.heartbeat_ms h.activate_ms h.prepare_ms × (h.timer_mask on_heartbeat ≡ true)
unfolding start_hb new_intervals
start_hb-IsOrdered_example =
    start_hb-IsOrdered 4000 1000 0 alone (omega arith) (omega arith) (omega arith)
