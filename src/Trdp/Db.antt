-- ===== src/Trdp/Db.antt =====
-- src/mc.cpp: `TrdpWindowDB`, the windows of all sources behind one hash table, and what a
-- datagram does to them.
pub mod Windows
pub mod Source
pub mod Totals
pub mod Datagram
mod Tests
use sassrv.Base.{
  ℕ, ◌+◌, Bool, true, false, not, ◌&&◌, ◌||◌, Option, none, some, List, [], ◌∷◌, ◌++◌, ltb, ◌==◌,
  if◌then◌else◌, length, drop, get_or, set, add32, add64,
}
use sassrv.Base.Wire.{Decoder, HashTab}
use sassrv.Trdp.Header.{Tsid, Hdr, tsid, hdr_type, data_type, nak_type, copy_in, trdp_data_hdr_size}
use sassrv.Trdp.Window.{
  Window, Outcome, done, ◌>>=◌, seqno_diff, above_one, not_positive, merge, count_repeat,
}
use sassrv.Trdp.Output.{Sink, output, output_all}

-- `windows` is an `ArrayCount`; a slot that `push` hands out is `blank`, which raikv zeroes.
pub record Db (H : HashTab Tsid ℕ) : Type 0 where
  pub sink : Sink
  pub hash : Option H.Tab
  pub windows : List Window

-- The first packet of a source starts its sequence.
abbrev pub start_window : ℕ → Hdr → Window → Window
start_window now hdr w = record w {
  last_seqno = hdr.seqno;
  last_recv_seqno = hdr.seqno;
  last_mono_time = now;
}

abbrev pub note_reorder : Hdr → Window → Window
note_reorder hdr w = record w {
  last_recv_seqno = hdr.seqno;
  reorder_seqno =
      if above_one (seqno_diff hdr.seqno w.last_recv_seqno)
      then add64 w.reorder_seqno 1
      else w.reorder_seqno;
}

-- `w.last_seqno++; w.last_mono_time = cur_mono_time`
abbrev pub advance : ℕ → Window → Window
advance now w = record w { last_seqno = add32 w.last_seqno 1; last_mono_time = now }

module _ (md : Decoder) where
  -- A packet behind the first, its difference to `last_seqno` given.
  pub on_next : ℕ → ℕ → Sink → Window → Hdr → List ℕ → ℕ → Outcome (Sink × Window)
  on_next fuel now s w hdr payload diff =
      if not_positive diff
      then done (s, count_repeat w)
      else if above_one diff || (diff == 1 && not (hdr.total_len == hdr.data_len))
      then (merge fuel now w hdr payload >>= λ r. output_all md fuel s r.0 r.1)
      else (output md fuel s w hdr.data_len payload >>= λ r. done (r.0, advance now r.1))

  -- What `process_msg` does with a DATA packet and the window of its source.
  pub on_data : ℕ → ℕ → Sink → Window → Hdr → List ℕ → Outcome (Sink × Window)
  unfolding on_next seqno_diff
  on_data fuel now s w hdr payload =
      if w.last_mono_time == 0
      then if hdr.frag_num == 0
        then output md fuel s (start_window now hdr w) hdr.data_len payload
        else done (s, w)
      else on_next fuel now s (note_reorder hdr w) hdr payload (seqno_diff hdr.seqno w.last_seqno)

module _ (H : HashTab Tsid ℕ) (blank : Window) where
  abbrev pub table : Db H → H.Tab
  table db = elim db.hash [ none ↦ H.empty | some t ↦ t ]

  abbrev pub add_window : Db H → Tsid → Db H
  add_window db t = record db {
    hash = some (H.set_rsz (table db) t (length db.windows));
    windows = db.windows ++ record blank { tsid = t } ∷ [];
  }

  -- The window is returned by its index.
  pub get_window : Db H → Tsid → Db H × ℕ
  get_window db t = elim (H.find (table db) t) [
    | none ↦ (add_window db t, length db.windows)
    | some k ↦ (record db { hash = some (table db) }, k)
  ]

  abbrev pub window_at : Db H → ℕ → Window
  window_at db k = get_or db.windows k blank

  abbrev pub put_window : Db H → ℕ → Sink × Window → Db H
  put_window db k r = record db { sink = r.0; windows = set db.windows k r.1 }

  abbrev pub count_nak : Window → Window
  count_nak w = record w { nak_count = add64 w.nak_count 1 }

  pub process_hdr : Decoder → ℕ → ℕ → Db H → List ℕ → Hdr → Outcome (Db H)
  unfolding get_window on_data
  process_hdr md fuel now db msg hdr =
      if hdr_type hdr == data_type
      then (let (db', k) = get_window db (tsid hdr) in
          on_data md fuel now db'.sink (window_at db' k) hdr (drop trdp_data_hdr_size msg) >>= λ r.
          done (put_window db' k r))
      else if hdr_type hdr == nak_type
      then (let (db', k) = get_window db (tsid hdr) in
          done (put_window db' k (db'.sink, count_nak (window_at db' k))))
      else done db

  -- A datagram that is no TRDP packet is ignored.
  pub process_msg : Decoder → ℕ → ℕ → Db H → List ℕ → Outcome (Db H)
  unfolding process_hdr copy_in
  process_msg md fuel now db msg = elim (copy_in md msg) [
    | none ↦ done db
    | some hdr ↦ process_hdr md fuel now db msg hdr
  ]

-- The four totals: `lost_seqno`, `repeat_seqno`, `reorder_seqno` and `nak_count`. Each adds a counter
-- up over the windows, lists the sources where it has grown since the last call, and marks them.
-- `get`, `seen` and `mark` are the fields that one of them reads and writes.
module _ (get seen : Window → ℕ) (mark : Window → Window) where
  abbrev grown_step : Window → ℕ × List ℕ × List Window → ℕ × List ℕ × List Window
  grown_step w (sum, grown, ws) =
      if ltb (seen w) (get w)
      then (sum, w.tsid.src_addr ∷ grown, mark w ∷ ws)
      else (sum, grown, w ∷ ws)

  pub total : ℕ → List Window → ℕ × List ℕ × List Window
  total sum [] = (sum, [], [])
  total sum (w ∷ ws) = grown_step w (total (add64 sum (get w)) ws)

pub lost_seqno : List Window → ℕ × List ℕ × List Window
unfolding total
lost_seqno =
    total (λ w. w.lost_seqno) (λ w. w.last_lost) (λ w. record w { last_lost = w.lost_seqno }) 0

pub repeat_seqno : List Window → ℕ × List ℕ × List Window
unfolding total
repeat_seqno =
    total (λ w. w.repeat_seqno) (λ w. w.last_repeat)
      (λ w. record w { last_repeat = w.repeat_seqno }) 0

pub reorder_seqno : List Window → ℕ × List ℕ × List Window
unfolding total
reorder_seqno =
    total (λ w. w.reorder_seqno) (λ w. w.last_reorder)
      (λ w. record w { last_reorder = w.reorder_seqno }) 0

pub nak_count : List Window → ℕ × List ℕ × List Window
unfolding total
nak_count = total (λ w. w.nak_count) (λ w. w.last_nak) (λ w. record w { last_nak = w.nak_count }) 0
