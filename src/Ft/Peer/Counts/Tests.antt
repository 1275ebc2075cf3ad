-- ===== src/Ft/Peer/Counts/Tests.antt =====
-- A group of three peers, one of which is raised.
use sassrv.Base.{◌≡◌, refl, [], ◌∷◌, arith}
use sassrv.Ft.Peer.{listen, joining, primary, secondary, StateCount, update_count, member_count}
use sassrv.Ft.Peer.Counts.{IsCounted, members, update_count-IsCounted}

abbrev counts : StateCount
counts = record { primaries = 1; secondaries = 0; joins = 1 }

update_count-IsCounted_example :
    IsCounted (update_count joining secondary counts) (primary ∷ secondary ∷ listen ∷ [])
    × (member_count (update_count joining secondary counts)
        ≡ members (primary ∷ secondary ∷ listen ∷ []))
update_count-IsCounted_example =
    update_count-IsCounted counts (primary ∷ []) (listen ∷ []) joining secondary (omega arith)
      ((refl, (refl, refl)))
