-- ===== src/Ft/Group/Run.antt =====
-- The operations of `RvFt` that its owner, its timers and the network call: start, activate,
-- deactivate, stop, `timer_cb` and `on_peer_msg` of src/ft.cpp.
use sassrv.Base.{
  ℕ, zero, suc, ◌*◌, ◌/◌, Bool, true, false, not, ◌&&◌, ◌||◌, List, [], length, take, ltb, ◌==◌,
  if◌then◌else◌, Option, none, some, sub64,
}
use sassrv.Base.Int.{ℤ, pos, ltb_ℤ, ◌+ℤ◌, ◌-ℤ◌, ◌/ℤ◌, to_int64}
use sassrv.Ft.Peer.{
  Peer, PeerMsg, State, listen, joining, primary, secondary, finished, announce, heartbeat,
  keepalive, ack, finish, exiting, update_count, set_peer, same_state, latency, accum_latency,
}
use sassrv.Ft.Pool.{make_peer, release_peer}
use sassrv.Ft.Queue.{remove, update}
use sassrv.Ft.Group.{
  ◌>>=◌, Action, on_listen, on_join, on_activate, on_heartbeat, on_prepare, on_finish, Env, Group,
  emit, me, put_peer, turn_peer, timer_active, clear_bit, cancel_timer, send_msg, notify_change,
  notify_update, expired_delta_ms, entry, add_timer_millis, subscribe,
}
use sassrv.Ft.Group.Turn.{has_expired, stop_timers, set_state, prepare_takeover}
use sassrv.Ft.Group.Interval.{start_hb}

-- `FtParameters`
pub record Parameters : Type 0 where
  pub weight : ℕ
  pub join_ms : ℕ
  pub heartbeat_ms : ℕ
  pub activate_ms : ℕ
  pub prepare_ms : ℕ
  pub finish_ms : ℕ
  pub inbox_num : ℕ
  pub sync_inbox_num : ℕ
  pub ft_sub : List ℕ
  pub user : List ℕ

-- A peer all of whose fields are 0.
abbrev pub zero_peer : Peer
zero_peer = record {
  start_ns = 0;
  weight = 0;
  last_rcv_ns = 0;
  latency_accum = pos 0;
  position = 0;
  latency_cnt = 0;
  state = listen;
  old_state = listen;
  user = [];
  sync_inbox = [];
}

abbrev pub is_accurate : ℤ → Bool
is_accurate ival = ltb_ℤ (pos 0 -ℤ pos 100) ival && ltb_ℤ ival (pos 100)

-- Whether `ms` lies outside the interval, the skew allowed for.
abbrev pub outside : ℤ → ℤ → ℕ → Bool
outside ms skew interval =
    ltb_ℤ ms (pos 0 -ℤ (pos interval -ℤ skew)) || ltb_ℤ (pos interval +ℤ skew) ms

module _ {E : Env} where
  abbrev pub arm_join : Group E → Group E
  arm_join g =
      if g.join_ms == 0
      then g
      else emit (add_timer_millis g.join_ms on_join) (timer_active on_join g)

  -- The fields that `start` sets, and the subscription.
  abbrev pub configure : Parameters → Group E → Group E
  configure param g =
      let sub = take 63 param.ft_sub in
      let self = record zero_peer {
        start_ns = g.now_ns;
        weight = param.weight;
        user = take 63 param.user;
      } in
      emit (subscribe sub) (record (put_peer 0 self g) {
        state_count = record { primaries = 0; secondaries = 0; joins = 0 };
        tid = g.now_ns;
        state_ns = g.mono_ns;
        start_mono = g.mono_ns;
        join_ms = param.join_ms;
        heartbeat_ms = param.heartbeat_ms;
        activate_ms = param.activate_ms;
        prepare_ms = param.prepare_ms;
        finish_ms = param.finish_ms;
        inbox_num = param.inbox_num;
        sync_inbox_num = param.sync_inbox_num;
        sync_inbox = E.make_inbox param.sync_inbox_num;
        ft_sub = sub;
        accuracy_warn = pos 100;
      })

  pub start : Parameters → Group E → Option (Group E)
  unfolding start_hb set_state notify_change
  start param g =
      set_state listen (
        start_hb param.heartbeat_ms param.activate_ms param.prepare_ms
          (arm_join (configure param g)))
      >>= λ h. some (notify_change on_listen h)

  -- The milliseconds until the end are returned with the new state.
  pub stop : Group E → Option (ℕ × Group E)
  unfolding set_state send_msg
  stop g =
      if g.finish_ms == 0
      then (set_state finished g >>= λ h. some (0, h))
      else some (
        g.finish_ms,
        if g.timer_mask on_finish
            then g
            else emit (add_timer_millis g.finish_ms on_finish)
                (send_msg finish [] (timer_active on_finish g)),
      )

  pub activate_group : Group E → Option (Group E)
  unfolding set_state
  activate_group g =
      if same_state (me g).state listen
      then set_state joining (cancel_timer on_join (record g { start_mono = g.mono_ns }))
      else some g

  pub deactivate_group : Group E → Option (Group E)
  unfolding set_state notify_change remove
  deactivate_group g =
      if same_state (me g).state listen
      then some g
      else (set_state listen (stop_timers (record g { queue = remove 0 g.queue })) >>= λ h.
          some (notify_change on_listen h))

  -- `update_state` of a peer that leaves, and its removal from the queue, the index and the pool.
  abbrev pub drop_peer : ℕ → State → Group E → Group E
  drop_peer a s g =
      let h = turn_peer a s g in
      let start_ns = (h.queue.heap a).start_ns in
      record h {
        queue = remove a h.queue;
        peer_ht = elim (E.tab.find h.peer_ht start_ns) [
          | none ↦ h.peer_ht
          | some _ ↦ E.tab.remove h.peer_ht start_ns
        ];
        pool = release_peer a h.pool;
      }

  -- `trim_ft_queue`, from the entry before `i` down.
  pub trim_from : ℕ → Group E → Option (Group E)
  unfolding expired_delta_ms remove release_peer
  trim_from zero g = some g
  trim_from (suc i) g = entry i g >>= λ p. trim_from i (
      if not (p == 0) && has_expired (expired_delta_ms g (g.queue.heap p).last_rcv_ns g.activate_ms)
      then drop_peer p finished g
      else g)

  abbrev pub trim_ft_queue : Group E → Option (Group E)
  trim_ft_queue g = trim_from (length g.queue.ptr) g

  -- The warning level of the heartbeat timer.
  abbrev pub raise_warn : ℤ → Group E → Group E
  raise_warn ival g =
      if not (is_accurate ival)
        && (not (ltb_ℤ ival g.accuracy_warn) || not (ltb_ℤ (pos 0 -ℤ g.accuracy_warn) ival))
      then record g { accuracy_warn = g.accuracy_warn +ℤ pos 100 }
      else g

  abbrev pub takeover_timer : Action → ℕ → ℕ → Group E → Option (Group E)
  takeover_timer action origin delta g =
      let h = clear_bit action g in
      (if is_accurate (expired_delta_ms g origin delta)
          && (same_state (me h).state secondary || same_state (me h).state joining)
        then (trim_ft_queue h >>= λ k. prepare_takeover set_state action 0 k)
        else some h)
      >>= λ k. some (notify_update k)

  abbrev pub heartbeat_timer : Group E → Option (Group E)
  heartbeat_timer g =
      let ival = expired_delta_ms g g.last_hb_ns g.heartbeat_ms in
      let h = raise_warn ival g in
      (if is_accurate ival then trim_ft_queue h else some h) >>= λ k.
      (if same_state (me k).state primary
        then some (send_msg heartbeat [] k)
        else (if same_state (me k).state listen
            then some k
            else ((if is_accurate ival then prepare_takeover set_state on_heartbeat 0 k else some k)
                >>= λ l. some (send_msg keepalive [] l))))
      >>= λ l. some (notify_update (record l { last_hb_ns = l.mono_ns }))

  -- Whether the timer is to run again is returned with the new state.
  pub timer_cb : ℕ → Action → Group E → Option (Bool × Group E)
  unfolding expired_delta_ms trim_from prepare_takeover set_state send_msg notify_update
  timer_cb id action g = if not (id == g.tid) then some (false, g) else elim action [
    | on_activate ↦
        takeover_timer on_activate g.activate_origin g.activate_ms g >>= λ h. some (false, h)
    | on_prepare ↦
        takeover_timer on_prepare g.prepare_origin g.prepare_ms g >>= λ h. some (false, h)
    | on_heartbeat ↦ heartbeat_timer g >>= λ h. some (true, h)
    | on_join ↦ set_state joining (clear_bit on_join g) >>= λ h. some (false, h)
    | on_finish ↦ set_state finished (clear_bit on_finish g) >>= λ h. some (false, h)
    | _ ↦ some (false, g)
  ]

  abbrev pub note_warn : Group E → Group E
  note_warn g = record g { last_warn = g.mono_ns / (1000 * 1000 * 1000) }

  -- `check_latency` of the peer at an address.
  pub check_latency : ℕ → ℤ → Group E → Bool × Group E
  unfolding latency accum_latency
  check_latency a ns g =
      let p = g.queue.heap a in
      let skew = latency p in
      let ms = ◌/ℤ◌ ns (1000 * 1000) in
      let skew_ms = ◌/ℤ◌ skew (1000 * 1000) in
      let has_samples = ltb_ℤ skew (pos 0) || ltb_ℤ (pos 0) skew in
      if has_samples && outside ms skew_ms g.activate_ms
      then (false, note_warn g)
      else (if has_samples && outside ms skew_ms g.heartbeat_ms
          then (true, note_warn g)
          else (true, put_peer a (accum_latency ns p) g))

  -- `check that my heartbeat matches peer`
  abbrev pub match_oldest : PeerMsg → Group E → Group E
  match_oldest m g =
      if same_state (me g).state listen
        && (ltb m.start_ns (me g).start_ns
            && ((g.oldest_peer == 0) || ltb m.start_ns g.oldest_peer))
      then start_hb m.hb_ival m.act_ival m.prep_ival (record g { oldest_peer = m.start_ns })
      else g

  abbrev pub acknowledge : PeerMsg → Group E → Group E
  acknowledge m g = elim m.kind [
    | announce ↦ if same_state (me g).state listen then g else send_msg ack m.reply g
    | _ ↦ g
  ]

  -- `check if I am primary or secondary`, and what follows it.
  abbrev pub check_role : PeerMsg → Group E → Option (Group E)
  check_role m g =
      (if same_state (me g).state secondary
        then (entry 0 g >>= λ p. set_state (if p == 0 then primary else secondary) g)
        else (if same_state (me g).state primary
            then (entry 0 g >>= λ p. if p == 0 then some g else set_state secondary g)
            else some g))
      >>= λ h. some (acknowledge m (notify_update h))

  -- A message of the peer at an address, once the peer is known.
  pub on_member : PeerMsg → ℕ → Group E → Option (Group E)
  unfolding update remove set_state prepare_takeover send_msg notify_update release_peer
  on_member m a g =
      let seen = put_peer a (record (g.queue.heap a) { last_rcv_ns = g.last_rcv_ns }) g in
      let placed = record seen { queue = update a seen.queue } in
      let go =
        (if same_state (me placed).state listen
          then some (notify_update placed)
          else check_role m placed) in
      elim m.kind [
        | exiting ↦ check_role m (drop_peer a finished seen)
        | finish ↦
            if same_state (me placed).state listen
            then some (notify_update placed)
            else ((entry 0 placed >>= λ p.
                  if p == a
                  then prepare_takeover set_state on_finish m.fin_time placed
                  else some placed)
                >>= λ h. some (notify_update h))
        | _ ↦ go
      ]

  -- `new FtPeer( msg, count )` in memory of the pool, with its first sample and its place in the index.
  abbrev pub add_peer : PeerMsg → ℤ → Group E → Group E × ℕ
  add_peer m ns g =
      let (pool, a) = make_peer g.pool in
      (
        record (put_peer a (accum_latency ns (set_peer m zero_peer)) g) {
          pool = pool;
          state_count = update_count listen m.state g.state_count;
          peer_ht = E.tab.set_rsz g.peer_ht m.start_ns a;
        },
        a,
      )

  abbrev pub hear_peer : PeerMsg → ℕ → Group E → Group E
  hear_peer m a g =
      let p = g.queue.heap a in
      record (put_peer a (set_peer m p) g) {
        state_count = update_count p.state m.state g.state_count;
      }

  pub on_peer_msg : PeerMsg → Group E → Option (Group E)
  unfolding start_hb on_member check_latency make_peer accum_latency update_count send_msg
      notify_update remove release_peer
  on_peer_msg m g0 =
      let g = match_oldest m (record g0 { last_rcv_ns = g0.mono_ns }) in
      let found = E.tab.find g.peer_ht m.start_ns in
      let ns = to_int64 (sub64 g.now_ns m.cur_time) in
      if same_state m.state listen
      then some
          (acknowledge m (notify_update (elim found [ none ↦ g | some a ↦ drop_peer a listen g ])))
      else elim found [
        | none ↦ let (h, a) = add_peer m ns g in on_member m a h
        | some a ↦
            let (timely, h) = check_latency a ns g in
            if timely then on_member m a (hear_peer m a h) else some h
      ]
