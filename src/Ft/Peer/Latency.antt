-- ===== src/Ft/Peer/Latency.antt =====
-- The mean latency of a peer over its samples, and what it becomes when they are rolled up.
mod Tests
use sassrv.Base.{
  ℕ, suc, zero, ◌+◌, ◌%◌, ◌/◌, ◌<◌, ◌≡◌, refl, true, ap, ◌∙◌, arith, u32_mod, add32, if◌then◌else◌,
  ◌==◌, eq→==,
}
use sassrv.Base.Int.{ℤ, pos, negsuc, ◌+ℤ◌, ◌/ℤ◌}
use sassrv.Ft.Peer.{Peer, latency, accum_latency, roll_latency}

div_one : (x : ℤ) → ◌/ℤ◌ x 1 ≡ x
unfolding ◌/ℤ◌
div_one (pos n) = ground arith
div_one (negsuc n) = ground arith

latency-single : (p : Peer) → p.latency_cnt % 256 ≡ 1 → latency p ≡ p.latency_accum
unfolding latency
latency-single p e =
    ap (λ n. if n == 0 then pos 0 else ◌/ℤ◌ p.latency_accum n) e ∙ div_one p.latency_accum

abbrev sample : ℤ → Peer → Peer
sample lat q = record q {
  latency_accum = q.latency_accum +ℤ lat;
  latency_cnt = add32 q.latency_cnt 1;
}

abbrev rolled : Peer → Peer
rolled p = record p { latency_accum = latency p; latency_cnt = add32 p.latency_cnt 1 }

-- At the 256th sample the 255 before it are replaced by their mean, which then counts as no sample:
-- the latency that comes next is the mean plus the whole of the new sample. The count is a 32-bit
-- word.
pub latency-rolled :
    (p : Peer) (lat : ℤ)
    → p.latency_cnt < u32_mod
    → p.latency_cnt % 256 ≡ 255
    → latency (accum_latency lat p) ≡ latency p +ℤ lat
unfolding accum_latency
latency-rolled p lat less e =
    let full : ((p.latency_cnt + 1) % 256 == 0) ≡ true = eq→== _ 0 (omega arith) in
    ap (λ b. latency (sample lat (if b then rolled p else p))) full
    ∙ latency-single (sample lat (rolled p)) (omega arith)
