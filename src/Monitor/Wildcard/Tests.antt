-- ===== src/Monitor/Wildcard/Tests.antt =====
-- Patterns and subjects.
use sassrv.Base.{ℕ, ◌≡◌, ◌≢◌, refl, true, List, [], ◌∷◌, none, All, arith}
use sassrv.Host.Services.{same_bytes}
use sassrv.Monitor.Wildcard.{match_from, match_rv_wildcard, wildcard_from, is_rv_wildcard}
use sassrv.Monitor.Wildcard.Laws.{
  IsSegment, join, match_segments, match_rv_wildcard-match_segments, match_rv_wildcard-same_bytes,
}

-- "A.*.>" and "A.BB.C.D"
star_matches :
    match_rv_wildcard (65 ∷ 46 ∷ 42 ∷ 46 ∷ 62 ∷ []) (65 ∷ 46 ∷ 66 ∷ 66 ∷ 46 ∷ 67 ∷ 46 ∷ 68 ∷ [])
    ≡ true
unfolding match_from
star_matches = refl

abbrev pattern_rest : List (List ℕ)
pattern_rest = (42 ∷ []) ∷ (62 ∷ []) ∷ []

abbrev subject_rest : List (List ℕ)
subject_rest = (66 ∷ 66 ∷ []) ∷ (67 ∷ []) ∷ (68 ∷ []) ∷ []

one_byte : (c : ℕ) → c ≢ 46 → IsSegment (c ∷ [])
one_byte c h = ((λ e. ground (arith, e)), (h, tt))

pattern_segments : All IsSegment ((65 ∷ []) ∷ pattern_rest)
pattern_segments = (
  one_byte 65 (λ e. omega arith),
  (one_byte 42 (λ e. omega arith), (one_byte 62 (λ e. omega arith), tt)),
)

two_bytes : IsSegment (66 ∷ 66 ∷ [])
two_bytes = ((λ e. ground (arith, e)), ((λ e. omega arith), ((λ e. omega arith), tt)))

subject_segments : All IsSegment ((65 ∷ []) ∷ subject_rest)
subject_segments = (
  one_byte 65 (λ e. omega arith),
  (two_bytes, (one_byte 67 (λ e. omega arith), (one_byte 68 (λ e. omega arith), tt))),
)

match_rv_wildcard-match_segments_example :
    match_rv_wildcard (join ((65 ∷ []) ∷ pattern_rest)) (join ((65 ∷ []) ∷ subject_rest))
    ≡ match_segments ((65 ∷ []) ∷ pattern_rest) ((65 ∷ []) ∷ subject_rest)
match_rv_wildcard-match_segments_example =
    match_rv_wildcard-match_segments (65 ∷ []) pattern_rest (65 ∷ []) subject_rest pattern_segments
      subject_segments

-- "A*" has no wildcard.
literal_star : is_rv_wildcard (65 ∷ 42 ∷ []) ≡ none
unfolding wildcard_from
literal_star = refl

match_rv_wildcard-same_bytes_example :
    match_rv_wildcard (65 ∷ 42 ∷ []) (65 ∷ 66 ∷ []) ≡ same_bytes (65 ∷ 42 ∷ []) (65 ∷ 66 ∷ [])
match_rv_wildcard-same_bytes_example =
    match_rv_wildcard-same_bytes (65 ∷ 42 ∷ []) (65 ∷ 66 ∷ []) literal_star
