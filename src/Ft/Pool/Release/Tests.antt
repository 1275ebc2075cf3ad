-- ===== src/Ft/Pool/Release/Tests.antt =====
-- A full block, one of whose peers is released.
use sassrv.Base.{◌≡◌, refl, Bool, true, List, [], ◌∷◌, length}
use sassrv.Ft.Pool.{Pool, release_peer, is_used}
use sassrv.Ft.Pool.Release.{IsReleased, release_peer-IsReleased}

abbrev full_block : List Bool
full_block =
    true ∷ true ∷ true ∷ true ∷ true ∷ true ∷ true ∷ true ∷ true ∷ true ∷ true ∷ true ∷ true ∷ true
    ∷ true ∷ true ∷ []

abbrev full : Pool
full = full_block ∷ []

used : is_used 5 full ≡ true
unfolding is_used
used = refl

release_peer-IsReleased_example :
    (length (release_peer 5 full) ≡ 1) × IsReleased full (release_peer 5 full) 5
release_peer-IsReleased_example = release_peer-IsReleased full 5 (refl, tt) used
