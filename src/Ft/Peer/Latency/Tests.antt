-- ===== src/Ft/Peer/Latency/Tests.antt =====
-- A peer with 255 samples of 4: its mean is 4, and one more sample of 4 makes it 8.
use sassrv.Base.{◌≡◌, refl, [], arith}
use sassrv.Base.Int.{pos, ◌+ℤ◌, ◌/ℤ◌}
use sassrv.Ft.Peer.{Peer, secondary, latency, accum_latency}
use sassrv.Ft.Peer.Latency.{latency-rolled}

abbrev seen : Peer
seen = record {
  start_ns = 1;
  weight = 20;
  last_rcv_ns = 0;
  latency_accum = pos 1020;
  position = 1;
  latency_cnt = 255;
  state = secondary;
  old_state = secondary;
  user = [];
  sync_inbox = [];
}

mean_before : latency seen ≡ pos 4
unfolding latency ◌/ℤ◌
mean_before = refl

mean_after : latency (accum_latency (pos 4) seen) ≡ pos 8
unfolding latency accum_latency ◌/ℤ◌ ◌+ℤ◌
mean_after = refl

latency-rolled_example : latency (accum_latency (pos 4) seen) ≡ latency seen +ℤ pos 4
latency-rolled_example = latency-rolled seen (pos 4) (omega arith) refl
