-- ===== src/Ft/Peer/Counts.antt =====
-- The counts of `FtStateCount` are the numbers of peers in each state.
mod Tests
use sassrv.Base.{
  ℕ, ◌+◌, ◌<◌, ◌≡◌, refl, List, [], ◌∷◌, ◌++◌, length, arith, u32_mod, if◌then◌else◌, ◌==◌,
}
use sassrv.Ft.Peer.{
  State, listen, joining, primary, secondary, finished, code, same_state, StateCount, update_count,
  leave_state, enter_state, member_count,
}

-- How many of the states are `s`.
abbrev pub tally : State → List State → ℕ
tally s [] = 0
tally s (t ∷ ts) = (if same_state s t then 1 else 0) + tally s ts

abbrev pub IsCounted : StateCount → List State → Type 0
IsCounted c states =
    (c.primaries ≡ tally primary states)
    × ((c.secondaries ≡ tally secondary states) × (c.joins ≡ tally joining states))

tally-append : (s : State) (xs ys : List State) → tally s (xs ++ ys) ≡ tally s xs + tally s ys
tally-append s [] ys = omega arith
tally-append s (x ∷ xs) ys = omega (arith, tally-append s xs ys)

-- How many of the states count towards the members.
abbrev pub members : List State → ℕ
members [] = 0
members (listen ∷ ts) = members ts
members (joining ∷ ts) = 1 + members ts
members (primary ∷ ts) = 1 + members ts
members (secondary ∷ ts) = 1 + members ts
members (finished ∷ ts) = members ts

members-tally :
    (ts : List State) → members ts ≡ tally primary ts + tally secondary ts + tally joining ts
members-tally [] = omega arith
members-tally (listen ∷ ts) = ground (arith, members-tally ts)
members-tally (joining ∷ ts) = ground (arith, members-tally ts)
members-tally (primary ∷ ts) = ground (arith, members-tally ts)
members-tally (secondary ∷ ts) = ground (arith, members-tally ts)
members-tally (finished ∷ ts) = ground (arith, members-tally ts)

-- `update_count` follows one peer, with fewer than 2^32 peers in all, from a state to another: counts
-- that are those of the group stay those of the group, whatever the two states are, and
-- `member_count` is the number of peers that are joining, primary or secondary.
pub update_count-IsCounted :
    (c : StateCount) (front back : List State) (old new : State)
    → members (front ++ old ∷ back) + 1 < u32_mod
    → IsCounted c (front ++ old ∷ back)
    → let c' = update_count old new c in
      IsCounted c' (front ++ new ∷ back) × (member_count c' ≡ members (front ++ new ∷ back))
unfolding update_count member_count
update_count-IsCounted c front back old new less k =
    let total = members-tally (front ++ old ∷ back) in
    let after = members-tally (front ++ new ∷ back) in
    let p = tally-append primary front (old ∷ back) in
    let p' = tally-append primary front (new ∷ back) in
    let s = tally-append secondary front (old ∷ back) in
    let s' = tally-append secondary front (new ∷ back) in
    let j = tally-append joining front (old ∷ back) in
    let j' = tally-append joining front (new ∷ back) in ground arith
