-- ===== src/Ft/Pool.antt =====
-- `FtPeerFree` of src/ft.cpp and include/sassrv/ft.h: blocks of 16 peers, the newest first, each with
-- the mask of those in use. The oldest block has the addresses 1 to 16, as 0 is `me`.
pub mod Laws
pub mod Release
use sassrv.Base.{
  ℕ, zero, suc, ◌+◌, ◌-◌, ◌*◌, Bool, true, false, not, ◌&&◌, List, [], ◌∷◌, length, get_or, set,
  ltb, leb, if◌then◌else◌,
}

abbrev pub Pool : Type 0
Pool = List (List Bool)

abbrev pub all_used : List Bool → Bool
all_used [] = true
all_used (b ∷ m) = b && all_used m

abbrev pub lowest_clear : List Bool → ℕ
lowest_clear [] = 0
lowest_clear (b ∷ m) = if b then suc (lowest_clear m) else 0

-- The first address of the block in front of `older`.
abbrev pub base : Pool → ℕ
base older = 1 + 16 * length older

abbrev pub in_block : ℕ → Pool → Bool
in_block a older = leb (base older) a && ltb a (base older + 16)

-- `is_all_used`
abbrev pub is_all_used : Pool → Bool
is_all_used [] = true
is_all_used (m ∷ older) = all_used m && is_all_used older

-- `FtPeerFree::make_peer`, which is called where a block has room.
abbrev pub make_slot : Pool → Pool × ℕ
make_slot [] = ([], 0)
make_slot (m ∷ older) =
    let rest = make_slot older in
    if not (all_used m)
    then (set m (lowest_clear m) true ∷ older, base older + lowest_clear m)
    else (m ∷ rest.0, rest.1)

abbrev pub new_block : List Bool
new_block =
    false ∷ false ∷ false ∷ false ∷ false ∷ false ∷ false ∷ false ∷ false ∷ false ∷ false ∷ false
    ∷ false ∷ false ∷ false ∷ false ∷ []

-- `RvFt::make_peer`, less the peer itself.
unfoldable pub make_peer : Pool → Pool × ℕ
make_peer p = make_slot (if is_all_used p then new_block ∷ p else p)

-- `release_peer`; an address is that of a block.
unfoldable pub release_peer : ℕ → Pool → Pool
release_peer a [] = []
release_peer a (m ∷ older) =
    let rest = release_peer a older in
    if in_block a older then set m (a - base older) false ∷ older else m ∷ rest

-- Whether the address is that of a peer in use.
unfoldable pub is_used : ℕ → Pool → Bool
is_used a [] = false
is_used a (m ∷ older) =
    let rest = is_used a older in if in_block a older then get_or m (a - base older) false else rest
