-- ===== src/Host/Clients.antt =====
-- The clients of a host and the life of its network: `start_host2`, `start_host`, `stop_network` and
-- `stop_host` of src/rv_host.cpp, and what src/ev_rv.cpp does with them for a client that comes or goes.
pub mod Life
mod Tests
use sassrv.Base.{
  ℕ, zero, suc, ◌+◌, ◌<◌, Bool, true, false, not, ◌&&◌, ◌||◌, List, [], ◌∷◌, ◌++◌, length, get_or,
  set, ◌==◌, if◌then◌else◌, add64, sub64, u64_mod,
}

-- Of `RvHost`, what its clients and its network are concerned with. A client is a connection that is
-- open, and of it its `host_started`.
pub record Host : Type 0 where
  pub clients : List Bool
  pub active_clients : ℕ
  pub network_started : Bool
  pub start_in_progress : Bool
  pub has_rpc : Bool
  pub daemon_subscribed : Bool
  pub host_started : Bool
  pub host_status_timer : ℕ
  pub host_delay_timer : ℕ
  pub host_loss_timer : ℕ
  pub timer_id : ℕ

-- The loop over the connections of the host.
abbrev pub start_clients : List Bool → ℕ → List Bool × ℕ
start_clients [] active = ([], active)
start_clients (c ∷ clients) active =
    let (rest, n) = start_clients clients (if c then active else add64 active 1) in (true ∷ rest, n)

abbrev pub subscribe_daemon : Host → Host
subscribe_daemon h = record h { daemon_subscribed = h.daemon_subscribed || h.has_rpc }

abbrev pub start_status_timer : Host → Host
start_status_timer h =
    if h.host_status_timer == 0
    then record h { timer_id = add64 h.timer_id 1; host_status_timer = add64 h.timer_id 1 }
    else h

abbrev pub delay_start : Host → Host
delay_start h =
    if h.host_delay_timer == 0
    then record h { timer_id = add64 h.timer_id 1; host_delay_timer = add64 h.timer_id 1 }
    else h

unfoldable pub start_host2 : ℕ → Host → Host
start_host2 delay_secs h =
    if not (delay_secs == 0)
    then delay_start h
    else (let k = start_status_timer (subscribe_daemon h) in
        let (clients, active) = start_clients k.clients k.active_clients in
        record k {
          clients = clients;
          active_clients = active;
          network_started = true;
          start_in_progress = false;
        })

unfoldable pub start_host : Host → Host
unfolding start_host2
start_host h = if h.host_status_timer == 0 then start_host2 0 h else h

-- Whether the host is to be stopped is returned with the new state.
unfoldable pub stop_network : Host → Bool × Host
stop_network h =
    if h.network_started
    then (let n = sub64 h.active_clients 1 in
        if n == 0
        then (
          true,
          record h { active_clients = n; network_started = false; start_in_progress = false },
        )
        else (false, record h { active_clients = n }))
    else (false, h)

unfoldable pub stop_host : Host → Host
stop_host h = if h.host_status_timer == 0 then h else record h {
  host_status_timer = 0;
  host_delay_timer = 0;
  host_loss_timer = 0;
  daemon_subscribed = h.daemon_subscribed && not h.has_rpc;
  host_started = false;
}

-- A client has sent its request, and the network may have been started for it.
unfoldable pub init_client : ℕ → Host → Host
init_client i h =
    if h.network_started && not (get_or h.clients i true)
    then record h { clients = set h.clients i true; active_clients = add64 h.active_clients 1 }
    else h

-- The connections that are left when the one at `i` is closed.
abbrev pub remove_at : List Bool → ℕ → List Bool
remove_at [] i = []
remove_at (c ∷ clients) zero = clients
remove_at (c ∷ clients) (suc i) = c ∷ remove_at clients i

-- A connection is closed, and is no longer one of the host's.
unfoldable pub close_client : ℕ → Host → Host
unfolding stop_network stop_host
close_client i h =
    let left = record h { clients = remove_at h.clients i } in
    if get_or h.clients i false
    then (let (stop, k) = stop_network left in if stop then stop_host k else k)
    else left

-- What can happen to a host, one thing after the other.
pub data Step : Host → Host → Type 0 where
  connect :
      {h : Host}
      → length h.clients + 1 < u64_mod
      → Step h (record h { clients = h.clients ++ false ∷ [] })
  init : {h : Host} (i : ℕ) → Step h (init_client i h)
  start_after : {h : Host} (delay_secs : ℕ) → Step h (start_host2 delay_secs h)
  start : {h : Host} → Step h (start_host h)
  close : {h : Host} (i : ℕ) → Step h (close_client i h)

pub data Steps : Host → Host → Type 0 where
  stay : {h : Host} → Steps h h
  step : {h k l : Host} → Step h k → Steps k l → Steps h l
