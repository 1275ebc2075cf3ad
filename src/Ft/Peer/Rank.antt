-- ===== src/Ft/Peer/Rank.antt =====
-- The rank of peers is a strict total order on peers that started at different times.
use sassrv.Base.{◌≡◌, ◌≢◌, true, false, arith}
use sassrv.Ft.Peer.{Peer, is_greater}

pub is_greater_irrefl : (p : Peer) → is_greater p p ≡ false
unfolding is_greater
is_greater_irrefl p = ground arith

pub is_greater_trans :
    (p q r : Peer) → is_greater p q ≡ true → is_greater q r ≡ true → is_greater p r ≡ true
unfolding is_greater
is_greater_trans p q r a b = ground arith

pub is_greater_total :
    (p q : Peer) → p.start_ns ≢ q.start_ns → is_greater p q ≡ false → is_greater q p ≡ true
unfolding is_greater
is_greater_total p q ne a = ground arith

pub is_greater_asym : (p q : Peer) → is_greater p q ≡ true → is_greater q p ≡ false
unfolding is_greater
is_greater_asym p q a = ground arith
