-- ===== src/Ft/Group.antt =====
-- `RvFt` of src/ft.cpp and include/sassrv/ft.h: the state of a group's member, the effects of its
-- operations, its timers and the messages it sends. `me` has the address 0.
pub mod Turn
pub mod Interval
pub mod Run
mod Tests
use sassrv.Base.{
  ℕ, ◌+◌, ◌-◌, ◌*◌, ◌/◌, ◌%◌, Bool, true, false, not, ◌&&◌, ◌||◌, List, [], ◌∷◌, ◌++◌, length, ltb,
  leb, ◌==◌, if◌then◌else◌, add32, add64, u32_mod, u64_mod, get_or, Option, none, some,
}
use sassrv.Base.Int.{ℤ, pos, sub_ℕ}
use sassrv.Base.Wire.{HashTab}
use sassrv.Ft.Peer.{
  Peer, PeerMsg, State, joining, MsgType, announce, finish, StateCount, update_state, update_count,
  same_state,
}
use sassrv.Ft.Pool.{Pool}
use sassrv.Ft.Queue.{Queue, write}

-- `FtAction`
pub data Action : Type 0 where
  on_listen on_join on_activate on_deactivate on_heartbeat on_prepare on_finish on_update : Action

abbrev pub action_code : Action → ℕ
action_code on_listen = 0
action_code on_join = 1
action_code on_activate = 2
action_code on_deactivate = 3
action_code on_heartbeat = 4
action_code on_prepare = 5
action_code on_finish = 6
action_code on_update = 7

abbrev pub same_action : Action → Action → Bool
same_action a b = action_code a == action_code b

-- The calls of the listener, the client and the timer queue, in the order in which they are made.
pub data Effect : Type 0 where
  publish : PeerMsg → List ℕ → ℕ → Effect
  on_ft_change : Action → Effect
  add_timer_millis add_timer_micros : ℕ → Action → Effect
  remove_timer_cb : Action → Effect
  subscribe unsubscribe : List ℕ → Effect

-- What is taken from raikv and from the client: the index of peers by start time, the name of an
-- inbox, and MAX_TIMER_RANGE.
pub record Env : Type 1 where
  pub tab : HashTab ℕ ℕ
  pub make_inbox : ℕ → List ℕ
  pub max_timer_range : ℕ

-- `RvFt`, with the two clocks of its poll.
pub record Group (E : Env) : Type 0 where
  pub now_ns : ℕ
  pub mono_ns : ℕ
  pub queue : Queue
  pub peer_ht : E.tab.Tab
  pub tid : ℕ
  pub state_ns : ℕ
  pub start_mono : ℕ
  pub last_rcv_ns : ℕ
  pub last_hb_ns : ℕ
  pub activate_ns : ℕ
  pub deactivate_ns : ℕ
  pub prepare_origin : ℕ
  pub prepare_expires : ℕ
  pub activate_origin : ℕ
  pub activate_expires : ℕ
  pub oldest_peer : ℕ
  pub last_seqno : ℕ
  pub accuracy_warn : ℤ
  pub join_ms : ℕ
  pub heartbeat_ms : ℕ
  pub activate_ms : ℕ
  pub prepare_ms : ℕ
  pub finish_ms : ℕ
  pub inbox_num : ℕ
  pub sync_inbox_num : ℕ
  pub timer_mask : Action → Bool
  pub state_count : StateCount
  pub pool : Pool
  pub ft_sub : List ℕ
  pub sync_inbox : List ℕ
  pub last_warn : ℕ
  pub effects : List Effect

infixl 5 ◌>>=◌
abbrev pub ◌>>=◌ : {A B : Type 0} → Option A → (A → Option B) → Option B
none >>= f = none
some a >>= f = f a

module _ {E : Env} where
  abbrev pub emit : Effect → Group E → Group E
  emit e g = record g { effects = g.effects ++ e ∷ [] }

  abbrev pub me : Group E → Peer
  me g = g.queue.heap 0

  abbrev pub put_peer : ℕ → Peer → Group E → Group E
  put_peer a p g = record g { queue = record g.queue { heap = write g.queue.heap a p } }

  -- `FtPeer::update_state` with the count.
  abbrev pub turn_peer : ℕ → State → Group E → Group E
  turn_peer a s g =
      let p = g.queue.heap a in
      record (put_peer a (update_state s p) g) {
        state_count = update_count p.state s g.state_count;
      }

  -- `timer_active`
  abbrev pub timer_active : Action → Group E → Group E
  timer_active a g = record g { timer_mask = λ b. same_action a b || g.timer_mask b }

  abbrev pub clear_bit : Action → Group E → Group E
  clear_bit a g = record g { timer_mask = λ b. not (same_action a b) && g.timer_mask b }

  -- `if ( this->timer_clear( action ) ) remove_timer_cb( action )`
  abbrev pub cancel_timer : Action → Group E → Group E
  cancel_timer a g =
      if g.timer_mask a then emit (remove_timer_cb a) (clear_bit a g) else clear_bit a g

  -- `send_msg`, to the group's subject if there is no other destination.
  unfoldable pub send_msg : MsgType → List ℕ → Group E → Group E
  send_msg t dest g =
      emit
        (publish
          (record {
            kind = t;
            state = (me g).state;
            hb_ival = g.heartbeat_ms;
            act_ival = g.activate_ms;
            prep_ival = g.prepare_ms;
            start_ns = (me g).start_ns;
            weight = (me g).weight;
            cur_time = g.now_ns;
            fin_time = elim t [ finish ↦ add64 g.now_ns (g.finish_ms * 1000000 % u32_mod) | _ ↦ 0 ];
            reply = elim t [ announce ↦ E.make_inbox g.inbox_num | _ ↦ [] ];
            user = (me g).user;
            sync_inbox = g.sync_inbox;
          })
          (if length dest == 0 then g.ft_sub else dest) (length g.queue.ptr % u32_mod))
        g

  unfoldable pub notify_change : Action → Group E → Group E
  notify_change a g = record (emit (on_ft_change a) g) { last_seqno = g.queue.seqno }

  unfoldable pub notify_update : Group E → Group E
  notify_update g =
      if g.last_seqno == g.queue.seqno
      then g
      else record (emit (on_ft_change on_update) g) { last_seqno = g.queue.seqno }

  -- Milliseconds from now until `delta_ms` after the stamp, below 0 when that is past.
  unfoldable pub expired_delta_ms : Group E → ℕ → ℕ → ℤ
  expired_delta_ms g stamp_ns delta_ms =
      let delta = add64 stamp_ns (delta_ms * 1000 * 1000 % u64_mod) in
      if ltb delta g.mono_ns
      then sub_ℕ 0 ((g.mono_ns - delta) / 1000 / 1000)
      else pos ((delta - g.mono_ns) / 1000 / 1000)

  -- `ptr[ i ]`; there is none past the end.
  abbrev pub entry : ℕ → Group E → Option ℕ
  entry i g = if ltb i (length g.queue.ptr) then some (get_or g.queue.ptr i 0) else none

  -- Timers of up to MAX_TIMER_RANGE microseconds run on the fine clock.
  abbrev pub arm_timer : Action → ℕ → Group E → Group E
  arm_timer a expire_ns g =
      let expire_us = (add64 expire_ns 999 / 1000 + 1000) % u32_mod in
      if leb expire_us E.max_timer_range
      then emit (add_timer_micros expire_us a) g
      else emit (add_timer_millis ((add64 expire_ns 999999 / (1000 * 1000) + 1) % u32_mod) a) g

  abbrev pub origin_of : ℕ → Group E → ℕ
  origin_of p g =
      if not (same_state (me g).state joining) && not (p == 0)
      then (g.queue.heap p).last_rcv_ns
      else g.start_mono

  abbrev pub time_left : ℕ → ℕ → Group E → ℕ
  time_left origin_ns delta_ms g =
      let expire_ns = add64 origin_ns (delta_ms * 1000 * 1000 % u64_mod) in
      if ltb g.mono_ns expire_ns then expire_ns - g.mono_ns else 0

  -- `set_timer`, its two references as what they hold and a function that writes them.
  unfoldable pub set_timer :
      Action → ℕ → ℕ → ℕ → (ℕ → ℕ → Group E → Group E) → Group E → Option (Group E)
  set_timer a delta_ms ori_ns exp_ns store g = entry 0 g >>= λ p.
      let origin_ns = origin_of p g in
      let expire_ns = time_left origin_ns delta_ms g in
      some (
        if g.timer_mask a
        then (if add64 ori_ns exp_ns == add64 origin_ns expire_ns
            then g
            else arm_timer a expire_ns
                (store origin_ns expire_ns (timer_active a (emit (remove_timer_cb a) g))))
        else arm_timer a expire_ns (store origin_ns expire_ns (timer_active a g)))

  abbrev pub store_prepare : ℕ → ℕ → Group E → Group E
  store_prepare o x h = record h { prepare_origin = o; prepare_expires = x }

  abbrev pub store_activate : ℕ → ℕ → Group E → Group E
  store_activate o x h = record h { activate_origin = o; activate_expires = x }

  unfoldable pub set_prepare_timer : Group E → Option (Group E)
  unfolding set_timer
  set_prepare_timer g =
      set_timer on_prepare g.prepare_ms g.prepare_origin g.prepare_expires store_prepare g

  unfoldable pub set_activate_timer : Group E → Option (Group E)
  unfolding set_timer
  set_activate_timer g =
      set_timer on_activate g.activate_ms g.activate_origin g.activate_expires store_activate g
