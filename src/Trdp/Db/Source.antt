-- ===== src/Trdp/Db/Source.antt =====
-- A packet of one source: what its window keeps.
use sassrv.Base.{ℕ, ◌≡◌, sym, ◌∙◌, inl, inr, not, ◌&&◌, ◌||◌, List, arith, ◌==◌, Bool-cases}
use mathlib.Core.Path.{subst}
use sassrv.Base.Wire.{Decoder}
use sassrv.Trdp.Header.{Hdr, Tsid}
use sassrv.Trdp.Window.{
  Window, done, ◌>>=◌, merge, packet, above_one, not_positive, seqno_diff, count_repeat,
}
use sassrv.Trdp.Window.Sorted.{IsValid, IsQueue, Fits}
use sassrv.Trdp.Window.Merge.{merge-IsValid, merge-tsid}
use sassrv.Trdp.Output.{Sink, output, output_all}
use sassrv.Trdp.Output.Same.{IsSame, output-IsSame, output_all-IsSame, >>=-done}
use sassrv.Trdp.Db.{on_data, on_next, start_window, note_reorder, advance}

-- The window of a source stays the source's, with a valid queue.
abbrev pub IsOf : Tsid → Window → Type 0
IsOf t w = (w.tsid ≡ t) × IsValid w

Same-IsOf : (t : Tsid) (w v : Window) → IsSame w v → IsOf t w → IsOf t v
Same-IsOf t w v (a, b, c) (e, q) =
    (a ∙ e, subst (IsQueue v.save_size) (sym c) (subst (λ n. IsQueue n w.queue) (sym b) q))

module _ (md : Decoder) where
  merge_all-IsOf :
      (fuel now : ℕ) (s : Sink) (t : Tsid) (w : Window) (hdr : Hdr) (payload : List ℕ)
      (r : Sink × Window)
      → Fits (packet hdr payload now)
      → IsOf t w
      → (merge fuel now w hdr payload >>= λ m. output_all md fuel s m.0 m.1) ≡ done r
      → IsOf t r.1
  merge_all-IsOf fuel now s t w hdr payload r f (e, q) h =
      let (m, a, b) = >>=-done (merge fuel now w hdr payload) h in
      Same-IsOf t m.0 r.1 (output_all-IsSame md fuel s m.0 m.1 r b)
        (merge-tsid fuel now w hdr payload m a ∙ e, merge-IsValid fuel now w hdr payload m q f a)

  output_one-IsOf :
      (fuel now len : ℕ) (s : Sink) (t : Tsid) (w : Window) (payload : List ℕ) (r : Sink × Window)
      → IsOf t w
      → (output md fuel s w len payload >>= λ m. done (m.0, advance now m.1)) ≡ done r
      → IsOf t r.1
  output_one-IsOf fuel now len s t w payload r i h =
      let (m, a, b) = >>=-done (output md fuel s w len payload) h in
      let k = Same-IsOf t w m.1 (output-IsSame md fuel s w len payload m a) i in
      let same : advance now m.1 ≡ r.1 = ground arith in
      subst (IsOf t) same (let v : IsOf t (advance now m.1) = k in v)

  on_next-IsOf :
      (fuel now : ℕ) (s : Sink) (t : Tsid) (w : Window) (hdr : Hdr) (payload : List ℕ) (diff : ℕ)
      (r : Sink × Window)
      → Fits (packet hdr payload now)
      → IsOf t w
      → on_next md fuel now s w hdr payload diff ≡ done r
      → IsOf t r.1
  unfolding on_next
  on_next-IsOf fuel now s t w hdr payload diff r f i h = elim (Bool-cases (not_positive diff)) [
    | inl old ↦
        let same : count_repeat w ≡ r.1 = ground arith in
        subst (IsOf t) same (let v : IsOf t (count_repeat w) = i in v)
    | inr new ↦
        elim (Bool-cases (above_one diff || (diff == 1 && not (hdr.total_len == hdr.data_len)))) [
          | inl queued ↦ merge_all-IsOf fuel now s t w hdr payload r f i (rw (new, queued) at h)
          | inr direct ↦
              output_one-IsOf fuel now hdr.data_len s t w payload r i (rw (new, direct) at h)
        ]
  ]

  -- A DATA packet that is taken leaves the window with its source, and with a queue that is sorted
  -- and whose size is in `save_size`.
  pub on_data-IsOf :
      (fuel now : ℕ) (s : Sink) (t : Tsid) (w : Window) (hdr : Hdr) (payload : List ℕ)
      (r : Sink × Window)
      → Fits (packet hdr payload now)
      → IsOf t w
      → on_data md fuel now s w hdr payload ≡ done r
      → IsOf t r.1
  unfolding on_data
  on_data-IsOf fuel now s t w hdr payload r f i h = elim (Bool-cases (w.last_mono_time == 0)) [
    | inl first ↦ elim (Bool-cases (hdr.frag_num == 0)) [
      | inl whole ↦
          Same-IsOf t (start_window now hdr w) r.1
            (output-IsSame md fuel s (start_window now hdr w) hdr.data_len payload r
              (rw (first, whole) at h))
            i
      | inr part ↦ let same : w ≡ r.1 = ground arith in subst (IsOf t) same i
    ]
    | inr later ↦
        on_next-IsOf fuel now s t (note_reorder hdr w) hdr payload
          (seqno_diff hdr.seqno w.last_seqno) r f i (rw later at h)
  ]
