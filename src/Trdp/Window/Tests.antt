-- ===== src/Trdp/Window/Tests.antt =====
-- `merge` at concrete windows: a gap that closes, a repeat, and a lone fragment.
use sassrv.Base.{ℕ, ◌≡◌, refl, inl, inr, List, [], ◌∷◌, arith, do_while}
use sassrv.Trdp.Header.{Hdr, trdp_magic}
use sassrv.Trdp.Window.{Packet, Window, done, unfinished, packet, merge, count_repeat}
use sassrv.Trdp.Window.Stuck.{goes_on, ends}
use sassrv.Trdp.Window.Merge.{IsMerged, merge-IsMerged, merge_repeat, merge_total, merge_lone}

abbrev header : ℕ → ℕ → Hdr
header seqno total = record {
  magic = trdp_magic;
  src_addr = 1;
  src_id = 2;
  dest_addr = 3;
  pkt_type = 1;
  status = 0;
  seqno = seqno;
  total_len = total;
  data_len = 2;
  frag_num = 0;
}

abbrev queued : ℕ → ℕ → Packet
queued seqno total = packet (header seqno total) (7 ∷ 8 ∷ []) 20

-- Packet 10 was the last one; what is queued came after a gap.
abbrev window : List Packet → ℕ → Window
window queue size = record {
  tsid = record { src_addr = 1; src_id = 2 };
  last_seqno = 10;
  last_recv_seqno = 12;
  save_size = size;
  output_len = 0;
  output_off = 0;
  lost_seqno = 0;
  repeat_seqno = 0;
  reorder_seqno = 1;
  nak_count = 0;
  last_lost = 0;
  last_repeat = 0;
  last_reorder = 0;
  last_nak = 0;
  last_mono_time = 15;
  output_buf = [];
  queue = queue;
}

abbrev waiting : Window
waiting = window (queued 12 4 ∷ queued 13 4 ∷ queued 15 2 ∷ []) 6

abbrev closed : Window × List Packet
closed = (
  record (window (queued 15 2 ∷ []) 2) { last_seqno = 13; last_mono_time = 20 },
  queued 11 2 ∷ queued 12 4 ∷ queued 13 4 ∷ [],
)

-- Packet 11 closes the gap: it goes out with the message in 12 and 13, and 15 stays.
merge_closes : merge 9 20 waiting (header 11 2) (7 ∷ 8 ∷ []) ≡ done closed
unfolding merge do_while
merge_closes = refl

-- Packet 12 was lost: 10^9 ns later it is given up, and counted.
merge_gives_up :
    merge 9 2000000000 (window (queued 13 2 ∷ []) 2) (header 15 2) (7 ∷ 8 ∷ [])
    ≡ done (
      record (window (packet (header 15 2) (7 ∷ 8 ∷ []) 2000000000 ∷ []) 2) {
        last_seqno = 13;
        lost_seqno = 2;
        last_mono_time = 20;
      },
      queued 13 2 ∷ [],
    )
unfolding merge do_while
merge_gives_up = refl

merge-IsMerged_example :
    IsMerged 20 waiting (queued 11 2 ∷ queued 12 4 ∷ queued 13 4 ∷ queued 15 2 ∷ []) closed
unfolding merge do_while
merge-IsMerged_example =
    merge-IsMerged 9 20 waiting (header 11 2) (7 ∷ 8 ∷ [])
      (queued 11 2 ∷ queued 12 4 ∷ queued 13 4 ∷ queued 15 2 ∷ []) closed (omega arith)
      (omega arith) refl refl

merge_repeat_example : merge 0 20 waiting (header 13 4) [] ≡ done (count_repeat waiting, [])
merge_repeat_example = merge_repeat 0 20 waiting (header 13 4) [] (omega arith) (inr (inl refl))

merge_total_example :
    (r : Window × List Packet) × (merge 5 20 waiting (header 11 2) (7 ∷ 8 ∷ []) ≡ done r)
unfolding merge
merge_total_example =
    merge_total 5 20 waiting (header 11 2) (7 ∷ 8 ∷ [])
      (queued 11 2 ∷ queued 12 4 ∷ queued 13 4 ∷ queued 15 2 ∷ []) (omega arith) (omega arith) refl
      (omega arith)
      (goes_on (queued 11 2) (queued 12 4 ∷ queued 13 4 ∷ queued 15 2 ∷ []) (queued 11 2 ∷ [])
        (queued 12 4 ∷ queued 13 4 ∷ queued 15 2 ∷ []) refl refl
        (ends (queued 12 4) (queued 13 4 ∷ queued 15 2 ∷ []) (queued 12 4 ∷ queued 13 4 ∷ [])
          (queued 15 2 ∷ []) refl refl refl))
      (omega arith)

-- The first half of the message in 11 and 12 is there, and then 15 comes.
merge_lone_example :
    merge 1000 20 (window (queued 11 4 ∷ []) 2) (header 15 2) (7 ∷ 8 ∷ []) ≡ unfinished
unfolding merge
merge_lone_example =
    merge_lone 1000 20 (window (queued 11 4 ∷ []) 2) (header 15 2) (7 ∷ 8 ∷ []) (queued 11 4)
      (queued 15 2 ∷ []) refl (λ e. cc) (omega arith) refl ((omega arith), refl)
