-- ===== src/Host/Clients/Tests.antt =====
-- A client comes, its host is started for it, and it goes again.
use sassrv.Base.{◌≡◌, refl, true, false, [], ◌∷◌, ◌++◌, ◌+◌, ◌<◌, length, u64_mod, arith}
use sassrv.Host.Clients.{
  Host, start_host2, start_host, stop_network, stop_host, close_client, Steps, connect, start,
  close, stay, step,
}
use sassrv.Host.Clients.Life.{IsCounted, Steps-IsCounted}

abbrev idle : Host
idle = record {
  clients = [];
  active_clients = 0;
  network_started = false;
  start_in_progress = false;
  has_rpc = true;
  daemon_subscribed = false;
  host_started = false;
  host_status_timer = 0;
  host_delay_timer = 0;
  host_loss_timer = 0;
  timer_id = 0;
}

abbrev waiting : Host
waiting = record idle { clients = false ∷ [] }

running : (start_host waiting).active_clients ≡ 1
unfolding start_host start_host2
running = refl

stopped : (close_client 0 (start_host waiting)).network_started ≡ false
unfolding start_host start_host2 close_client stop_network stop_host
stopped = refl

-- One more client connects after the first has gone, and is the only one that is started.
abbrev again : Host
again =
    let gone = close_client 0 (start_host waiting) in
    record gone { clients = gone.clients ++ false ∷ [] }

counted_again : (start_host again).active_clients ≡ 1
unfolding start_host start_host2 close_client stop_network stop_host
counted_again = refl

room_again : length (close_client 0 (start_host waiting)).clients + 1 < u64_mod
unfolding start_host start_host2 close_client stop_network stop_host
room_again = omega arith

visits : Steps idle (start_host again)
visits =
    step (connect (omega arith))
      (step start (step (close 0) (step (connect room_again) (step start stay))))

Steps-IsCounted_example : IsCounted (start_host again)
Steps-IsCounted_example = Steps-IsCounted visits (refl, ((λ e. refl), omega arith))
