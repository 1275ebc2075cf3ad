-- ===== src/Monitor/Wildcard.antt =====
-- Subject wildcards: `match_rv_wildcard` and `is_rv_wildcard` of include/sassrv/ev_rv_client.h.
-- A position `w` of the pattern is the list of what is left of it, with a flag for
-- `w == wild || *(w-1) == '.'`.
pub mod Laws
mod Tests
use sassrv.Base.{
  Bool, true, false, ◌&&◌, ℕ, List, [], ◌∷◌, ◌==◌, if◌then◌else◌, Option, none, some, suc,
}

-- `w+1 == end || *(w+1) == '.'`
abbrev pub at_edge : List ℕ → Bool
at_edge [] = true
at_edge (c ∷ cs) = c == 46

abbrev pub is_last : List ℕ → Bool
is_last [] = true
is_last (c ∷ cs) = false

-- The inner loop: what is left of the subject at the end of its segment.
abbrev pub skip_segment : List ℕ → List ℕ
skip_segment [] = []
skip_segment (c ∷ cs) = let rest = skip_segment cs in if c == 46 then c ∷ cs else rest

abbrev pub is_gt : Bool → ℕ → List ℕ → Bool
is_gt start w ws = (w == 62) && (start && is_last ws)

abbrev pub is_star : Bool → ℕ → List ℕ → Bool
is_star start w ws = (w == 42) && (start && at_edge ws)

unfoldable pub match_from : Bool → List ℕ → List ℕ → Bool
match_from start [] [] = true
match_from start [] (c ∷ cs) = false
match_from start (w ∷ ws) [] = false
match_from start (w ∷ ws) (c ∷ cs) =
    let star = match_from false ws (skip_segment (c ∷ cs)) in
    let next = match_from (w == 46) ws cs in
    if is_gt start w ws then true else (if is_star start w ws then star else ((w == c) && next))

abbrev pub match_rv_wildcard : List ℕ → List ℕ → Bool
match_rv_wildcard wild sub = match_from true wild sub

-- The offset of the wildcard.
unfoldable pub wildcard_from : Bool → ℕ → List ℕ → Option ℕ
wildcard_from start i [] = none
wildcard_from start i (w ∷ ws) =
    let rest = wildcard_from (w == 46) (suc i) ws in
    if is_gt start w ws then some i else (if is_star start w ws then some i else rest)

abbrev pub is_rv_wildcard : List ℕ → Option ℕ
is_rv_wildcard wild = wildcard_from true 0 wild
