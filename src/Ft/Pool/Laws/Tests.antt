-- ===== src/Ft/Pool/Laws/Tests.antt =====
-- A pool of one full block: the next peer goes to a second block.
use sassrv.Base.{◌≡◌, refl, Bool, true, List, [], ◌∷◌}
use sassrv.Ft.Pool.{Pool, make_peer, release_peer}
use sassrv.Ft.Pool.Laws.{IsTaken, make_peer-IsTaken}

abbrev full_block : List Bool
full_block =
    true ∷ true ∷ true ∷ true ∷ true ∷ true ∷ true ∷ true ∷ true ∷ true ∷ true ∷ true ∷ true ∷ true
    ∷ true ∷ true ∷ []

abbrev full : Pool
full = full_block ∷ []

next_address : (make_peer full).1 ≡ 17
unfolding make_peer
next_address = refl

reused_address : (make_peer (release_peer 5 full)).1 ≡ 5
unfolding make_peer release_peer
reused_address = refl

make_peer-IsTaken_example : IsTaken full (make_peer full).0 (make_peer full).1
make_peer-IsTaken_example = make_peer-IsTaken full (refl, tt)
