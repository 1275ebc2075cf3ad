-- ===== src/Monitor/Wildcard/Laws.antt =====
-- The matcher against a description by segments.
use sassrv.Base.{
  Bool, true, false, ◌&&◌, ℕ, List, [], ◌∷◌, ◌++◌, ◌==◌, if◌then◌else◌, none, suc, ◌≡◌, refl, ◌≢◌,
  arith, All, ◌∙◌, inl, inr, Bool-cases,
}
use sassrv.Monitor.Wildcard.{
  match_from, wildcard_from, match_rv_wildcard, is_rv_wildcard, skip_segment, at_edge, is_last,
}
use sassrv.Host.Services.{same_bytes}

-- Without a wildcard, the pattern matches itself and nothing else.
pub literal :
    (start : Bool) (i : ℕ) (w s : List ℕ)
    → wildcard_from start i w ≡ none
    → match_from start w s ≡ same_bytes w s
unfolding match_from wildcard_from
literal start i [] [] h = refl
literal start i [] (c ∷ cs) h = refl
literal start i (w ∷ ws) [] h = refl
literal start i (w ∷ ws) (c ∷ cs) h = ground (arith, literal (w == 46) (suc i) ws cs)

-- A subject is a list of segments, here with the dot in front of each.
abbrev pub tail : List (List ℕ) → List ℕ
tail [] = []
tail (s ∷ ss) = 46 ∷ s ++ tail ss

abbrev pub join : List (List ℕ) → List ℕ
join [] = []
join (s ∷ ss) = s ++ tail ss

abbrev pub IsSegment : List ℕ → Type 0
IsSegment s = (s ≢ []) × All (λ c. c ≢ 46) s

abbrev pub ends : List ℕ → List (List ℕ) → Bool
ends [] [] = true
ends [] (s ∷ ss) = false
ends (c ∷ w) ss = false

-- The segment `>` at the end, which stands for every segment that is left.
abbrev pub is_rest : List ℕ → List (List ℕ) → Bool
is_rest [] ws = false
is_rest (c ∷ w) ws = (c == 62) && ends w ws

-- The segment `*`, which stands for one segment.
abbrev pub is_one : List ℕ → Bool
is_one [] = false
is_one (c ∷ w) = (c == 42) && is_last w

-- What a pattern means, segment by segment.
abbrev pub match_segments : List (List ℕ) → List (List ℕ) → Bool
match_segments [] [] = true
match_segments [] (s ∷ ss) = false
match_segments (w ∷ ws) [] = false
match_segments (w ∷ ws) (s ∷ ss) =
    let rest = match_segments ws ss in
    if is_rest w ws then true else (if is_one w then rest else (same_bytes w s && rest))

skip_segment-tail :
    (s : List ℕ) (ss : List (List ℕ)) → All (λ c. c ≢ 46) s → skip_segment (s ++ tail ss) ≡ tail ss
skip_segment-tail [] [] h = refl
skip_segment-tail [] (s ∷ ss) h = refl
skip_segment-tail (c ∷ s) ss h = ground (arith, skip_segment-tail s ss)

match_from-run :
    (w s : List ℕ) (ws ss : List (List ℕ))
    → All (λ c. c ≢ 46) w
    → All (λ c. c ≢ 46) s
    → match_from false (w ++ tail ws) (s ++ tail ss)
      ≡ (same_bytes w s && match_from false (tail ws) (tail ss))
unfolding match_from
match_from-run [] [] ws ss h k = refl
match_from-run [] (d ∷ s) [] ss h k = refl
match_from-run [] (d ∷ s) (w ∷ ws) ss h k = ground arith
match_from-run (c ∷ w) [] ws [] h k = refl
match_from-run (c ∷ w) [] ws (s ∷ ss) h k = ground arith
match_from-run (c ∷ w) (d ∷ s) ws ss h k = ground (arith, match_from-run w s ws ss)

is_last-tail : (w : List ℕ) (ws : List (List ℕ)) → is_last (w ++ tail ws) ≡ ends w ws
is_last-tail [] [] = refl
is_last-tail [] (s ∷ ss) = refl
is_last-tail (c ∷ w) ws = refl

at_edge-tail :
    (w : List ℕ) (ws : List (List ℕ)) → All (λ c. c ≢ 46) w → at_edge (w ++ tail ws) ≡ is_last w
at_edge-tail [] [] h = refl
at_edge-tail [] (s ∷ ss) h = refl
at_edge-tail (c ∷ w) ws h = ground arith

after_star :
    (w : List ℕ) (ws ss : List (List ℕ))
    → is_last w ≡ true
    → match_from false (w ++ tail ws) (tail ss) ≡ match_from false (tail ws) (tail ss)
after_star [] ws ss h = refl
after_star (c ∷ w) ws ss h = cc

-- One step of the matcher at the start of a segment, over what its tests give.
start_step :
    (c d : ℕ) (W S T : List ℕ) (gt star same rest : Bool)
    → is_last W ≡ gt
    → at_edge W ≡ star
    → skip_segment (d ∷ S) ≡ T
    → match_from (c == 46) W S ≡ same
    → (star ≡ true → (c ≡ 42) → match_from false W T ≡ rest)
    → match_from true (c ∷ W) (d ∷ S)
      ≡ (if (c == 62) && gt then true else (if (c == 42) && star then rest else ((c == d) && same)))
unfolding match_from
start_step c d W S T gt star same rest e f g h r = elim (Bool-cases star) [
  | inl t ↦ ground (arith, e, f, g, h, r t)
  | inr t ↦ ground (arith, e, f, g, h)
]

match_from-segment :
    (w s : List ℕ) (ws ss : List (List ℕ))
    → IsSegment w
    → IsSegment s
    → match_from false (tail ws) (tail ss) ≡ match_segments ws ss
    → match_from true (w ++ tail ws) (s ++ tail ss) ≡ match_segments (w ∷ ws) (s ∷ ss)
match_from-segment [] s ws ss h k e = absurd (h.0 refl)
match_from-segment (c ∷ w) [] ws ss h k e = absurd (k.0 refl)
match_from-segment (c ∷ w) (d ∷ s) ws ss h k e =
    let run = match_from-run w s ws ss h.1.1 k.1.1 in
    let step =
      start_step c d (w ++ tail ws) (s ++ tail ss) (tail ss) (ends w ws) (is_last w)
        (same_bytes w s && match_segments ws ss) (match_segments ws ss) (is_last-tail w ws)
        (at_edge-tail w ws h.1.1) (skip_segment-tail (d ∷ s) ss k.1) (ground (arith, run, e, h.1.0))
        (λ t _. after_star w ws ss t ∙ e) in
    ground (arith, step)

match_from-tail :
    (ws ss : List (List ℕ))
    → All IsSegment ws
    → All IsSegment ss
    → match_from false (tail ws) (tail ss) ≡ match_segments ws ss
unfolding match_from
match_from-tail [] [] h k = refl
match_from-tail [] (s ∷ ss) h k = refl
match_from-tail (w ∷ ws) [] h k = refl
match_from-tail (w ∷ ws) (s ∷ ss) h k =
    match_from-segment w s ws ss h.0 k.0 (match_from-tail ws ss h.1 k.1)

-- A pattern matches a subject just when it matches segment by segment: `*` stands for one segment,
-- `>` at the end for all that are left, and every other segment for itself; the segments are not
-- empty and hold no dot.
pub match_rv_wildcard-match_segments :
    (w : List ℕ) (ws : List (List ℕ)) (s : List ℕ) (ss : List (List ℕ))
    → All IsSegment (w ∷ ws)
    → All IsSegment (s ∷ ss)
    → match_rv_wildcard (join (w ∷ ws)) (join (s ∷ ss)) ≡ match_segments (w ∷ ws) (s ∷ ss)
match_rv_wildcard-match_segments w ws s ss h k =
    match_from-segment w s ws ss h.0 k.0 (match_from-tail ws ss h.1 k.1)

-- A pattern in which no wildcard is found matches itself and nothing else.
pub match_rv_wildcard-same_bytes :
    (w s : List ℕ) → is_rv_wildcard w ≡ none → match_rv_wildcard w s ≡ same_bytes w s
match_rv_wildcard-same_bytes w s h = literal true 0 w s h
