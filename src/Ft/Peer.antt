-- ===== src/Ft/Peer.antt =====
-- src/ft.cpp, include/sassrv/ft.h: the states, messages and actions of the group, `FtPeer`, its
-- rank and its latency, and the counts of members by state.
pub mod Rank
pub mod Counts
pub mod Latency
use sassrv.Base.{
  ℕ, ◌+◌, ◌%◌, Bool, true, false, not, ◌&&◌, ◌||◌, List, ltb, ◌==◌, if◌then◌else◌, add32, sub32,
}
use sassrv.Base.Int.{ℤ, pos, ◌+ℤ◌, ◌/ℤ◌}

-- `FtState`
pub data State : Type 0 where
  listen joining primary secondary finished : State

abbrev pub code : State → ℕ
code listen = 0
code joining = 1
code primary = 2
code secondary = 3
code finished = 4

-- `FtMsgType`
pub data MsgType : Type 0 where
  announce heartbeat keepalive activate deactivate ack finish exiting : MsgType

abbrev pub same_state : State → State → Bool
same_state a b = code a == code b

-- `FtStateCount`
pub record StateCount : Type 0 where
  pub primaries : ℕ
  pub secondaries : ℕ
  pub joins : ℕ

abbrev pub leave_state : State → StateCount → StateCount
leave_state joining c = record c { joins = sub32 c.joins 1 }
leave_state primary c = record c { primaries = sub32 c.primaries 1 }
leave_state secondary c = record c { secondaries = sub32 c.secondaries 1 }
leave_state listen c = c
leave_state finished c = c

abbrev pub enter_state : State → StateCount → StateCount
enter_state joining c = record c { joins = add32 c.joins 1 }
enter_state primary c = record c { primaries = add32 c.primaries 1 }
enter_state secondary c = record c { secondaries = add32 c.secondaries 1 }
enter_state listen c = c
enter_state finished c = c

-- `FtStateCount::update`
unfoldable pub update_count : State → State → StateCount → StateCount
update_count old_state new_state c = enter_state new_state (leave_state old_state c)

unfoldable pub member_count : StateCount → ℕ
member_count c = add32 (add32 c.primaries c.secondaries) c.joins

-- What a message of a peer says: `FtPeerMsg`.
pub record PeerMsg : Type 0 where
  pub kind : MsgType
  pub state : State
  pub hb_ival : ℕ
  pub act_ival : ℕ
  pub prep_ival : ℕ
  pub start_ns : ℕ
  pub weight : ℕ
  pub cur_time : ℕ
  pub fin_time : ℕ
  pub reply : List ℕ
  pub user : List ℕ
  pub sync_inbox : List ℕ

-- `FtPeer`
pub record Peer : Type 0 where
  pub start_ns : ℕ
  pub weight : ℕ
  pub last_rcv_ns : ℕ
  pub latency_accum : ℤ
  pub position : ℕ
  pub latency_cnt : ℕ
  pub state : State
  pub old_state : State
  pub user : List ℕ
  pub sync_inbox : List ℕ

-- The fields of `FtPeer::set`; the count is updated beside them.
abbrev pub set_peer : PeerMsg → Peer → Peer
set_peer m p = record p {
  start_ns = m.start_ns;
  weight = m.weight;
  old_state = p.state;
  state = m.state;
  user = m.user;
  sync_inbox = m.sync_inbox;
}

abbrev pub update_state : State → Peer → Peer
update_state s p = record p { old_state = p.state; state = s }

unfoldable pub latency : Peer → ℤ
latency p = if p.latency_cnt % 256 == 0 then pos 0 else ◌/ℤ◌ p.latency_accum (p.latency_cnt % 256)

-- When 255 samples are in, they are replaced by their mean.
abbrev pub roll_latency : Peer → Peer
roll_latency p =
    if (p.latency_cnt + 1) % 256 == 0
    then record p { latency_accum = latency p; latency_cnt = add32 p.latency_cnt 1 }
    else p

unfoldable pub accum_latency : ℤ → Peer → Peer
unfolding latency
accum_latency lat p =
    let q = roll_latency p in
    record q { latency_accum = q.latency_accum +ℤ lat; latency_cnt = add32 q.latency_cnt 1 }

-- `FtPeer::is_greater_weight`
unfoldable pub is_greater_weight : Peer → Peer → Bool
is_greater_weight p q =
    if ltb q.weight p.weight
    then true
    else (if p.weight == q.weight then ltb p.start_ns q.start_ns else false)

abbrev pub running : State → ℕ
running s = if ltb 1 (code s) then 1 else 0

-- `FtPeer::is_greater`
unfoldable pub is_greater : Peer → Peer → Bool
unfolding is_greater_weight
is_greater p q =
    if ltb (running q.state) (running p.state)
    then true
    else (if running p.state == running q.state then is_greater_weight p q else false)
