-- ===== src/Trdp/Db/Totals.antt =====
-- The totals: the sum over the windows, and which sources are reported.
use sassrv.Base.{
  ℕ, ◌+◌, ◌%◌, ◌<◌, ◌≡◌, refl, sym, ap, ◌∙◌, List, [], ◌∷◌, arith, ltb, add64, u64_mod,
  if◌then◌else◌,
}
use sassrv.Trdp.Window.{Window}
use sassrv.Trdp.Db.{total, lost_seqno, repeat_seqno, reorder_seqno, nak_count}

abbrev pub sum_of : (Window → ℕ) → List Window → ℕ
sum_of get [] = 0
sum_of get (w ∷ ws) = get w + sum_of get ws

-- The sources whose counter is above the mark, in the order of the windows.
abbrev pub grown_of : (Window → ℕ) → (Window → ℕ) → List Window → List ℕ
grown_of get seen [] = []
grown_of get seen (w ∷ ws) =
    if ltb (seen w) (get w) then w.tsid.src_addr ∷ grown_of get seen ws else grown_of get seen ws

abbrev marked : (Window → ℕ) → (Window → ℕ) → (Window → Window) → List Window → List Window
marked get seen mark [] = []
marked get seen mark (w ∷ ws) =
    (if ltb (seen w) (get w) then mark w else w) ∷ marked get seen mark ws

total_lem :
    (get seen : Window → ℕ) (mark : Window → Window) (sum : ℕ) (ws : List Window)
    → sum < u64_mod
    → total get seen mark sum ws
      ≡ ((sum + sum_of get ws) % u64_mod, grown_of get seen ws, marked get seen mark ws)
unfolding total
total_lem get seen mark sum [] h = ground arith
total_lem get seen mark sum (w ∷ ws) h =
    ground (arith, total_lem get seen mark (add64 sum (get w)) ws)

-- A total is the sum of its counter over all windows, as a 64-bit number, and lists the sources
-- where the counter is above its mark; a second call at once has the same sum and lists none.
abbrev pub IsTotal :
    (List Window → ℕ × List ℕ × List Window) → (Window → ℕ) → (Window → ℕ) → List Window → Type 0
IsTotal f get seen ws =
    ((f ws).0 ≡ sum_of get ws % u64_mod)
    × ((f ws).1 ≡ grown_of get seen ws)
    × ((f (f ws).2).0 ≡ (f ws).0)
    × ((f (f ws).2).1 ≡ [])

module _ (get seen : Window → ℕ) (mark : Window → Window)
    (keeps : (w : Window) → get (mark w) ≡ get w)
    (marks : (w : Window) → seen (mark w) ≡ get w) where
  grown_of-marked : (ws : List Window) → grown_of get seen (marked get seen mark ws) ≡ []
  grown_of-marked [] = refl
  grown_of-marked (w ∷ ws) = ground (arith, keeps w, marks w, grown_of-marked ws)

  sum_of-marked : (ws : List Window) → sum_of get (marked get seen mark ws) ≡ sum_of get ws
  sum_of-marked [] = refl
  sum_of-marked (w ∷ ws) = ground (arith, keeps w, sum_of-marked ws)

  total-IsTotal : (ws : List Window) → IsTotal (total get seen mark 0) get seen ws
  total-IsTotal ws =
      let ws' = marked get seen mark ws in
      let once = total_lem get seen mark 0 ws (omega arith) in
      let twice = total_lem get seen mark 0 ws' (omega arith) in
      let again : total get seen mark 0 (total get seen mark 0 ws).2
          ≡ ((0 + sum_of get ws') % u64_mod, grown_of get seen ws', marked get seen mark ws') =
        ap (λ (t : ℕ × List ℕ × List Window). total get seen mark 0 t.2) once ∙ twice in
      (
        ap (λ (t : ℕ × List ℕ × List Window). t.0) once ∙ ap (λ (n : ℕ). n % u64_mod) (omega arith),
        ap (λ (t : ℕ × List ℕ × List Window). t.1) once,
        ap (λ (t : ℕ × List ℕ × List Window). t.0) again
            ∙ ap (λ (n : ℕ). (0 + n) % u64_mod) (sum_of-marked ws)
            ∙ sym (ap (λ (t : ℕ × List ℕ × List Window). t.0) once),
        ap (λ (t : ℕ × List ℕ × List Window). t.1) again ∙ grown_of-marked ws,
      )

-- Each of the four totals is the sum of its own counter over all windows, as a 64-bit number, and
-- lists the sources where that counter has grown since the last call; a second call at once gives
-- the same sum and lists no source.
pub totals-IsTotal :
    (ws : List Window)
    → IsTotal lost_seqno (λ w. w.lost_seqno) (λ w. w.last_lost) ws
      × IsTotal repeat_seqno (λ w. w.repeat_seqno) (λ w. w.last_repeat) ws
      × IsTotal reorder_seqno (λ w. w.reorder_seqno) (λ w. w.last_reorder) ws
      × IsTotal nak_count (λ w. w.nak_count) (λ w. w.last_nak) ws
unfolding lost_seqno repeat_seqno reorder_seqno nak_count
totals-IsTotal ws = (
  total-IsTotal (λ w. w.lost_seqno) (λ w. w.last_lost) (λ w. record w { last_lost = w.lost_seqno })
      (λ w. refl) (λ w. refl) ws,
  total-IsTotal (λ w. w.repeat_seqno) (λ w. w.last_repeat)
      (λ w. record w { last_repeat = w.repeat_seqno }) (λ w. refl) (λ w. refl) ws,
  total-IsTotal (λ w. w.reorder_seqno) (λ w. w.last_reorder)
      (λ w. record w { last_reorder = w.reorder_seqno }) (λ w. refl) (λ w. refl) ws,
  total-IsTotal (λ w. w.nak_count) (λ w. w.last_nak) (λ w. record w { last_nak = w.nak_count })
      (λ w. refl) (λ w. refl) ws,
)
