-- ===== src/Trdp/Db/Tests.antt =====
-- `process_msg` at a concrete database: two sources, and one datagram for the first of them.
use sassrv.Base.{ℕ, ◌≡◌, refl, none, some, List, [], ◌∷◌, arith}
use sassrv.Base.Wire.{big_endian, HashTab, function_tab}
use sassrv.Trdp.Header.{Hdr, Tsid, tsid, copy_in, trdp_magic}
use sassrv.Trdp.Header.Layout.{layout}
use sassrv.Trdp.Window.{Window, done}
use sassrv.Trdp.Output.{Sink, output, recv_msg}
use sassrv.Trdp.Db.{Db, process_msg, on_data, lost_seqno, repeat_seqno, reorder_seqno, nak_count}
use sassrv.Trdp.Db.Totals.{IsTotal, totals-IsTotal}
use sassrv.Trdp.Db.Windows.{IsDb, IsPut, window_of, Tsid-discrete}
use sassrv.Trdp.Db.Datagram.{IsIsolated, OtherSource, process_msg-IsIsolated, process_msg_data}

abbrev tab : HashTab Tsid ℕ
tab = function_tab Tsid-discrete

abbrev blank : Window
blank = record {
  tsid = record { src_addr = 0; src_id = 0 };
  last_seqno = 0;
  last_recv_seqno = 0;
  save_size = 0;
  output_len = 0;
  output_off = 0;
  lost_seqno = 0;
  repeat_seqno = 0;
  reorder_seqno = 0;
  nak_count = 0;
  last_lost = 0;
  last_repeat = 0;
  last_reorder = 0;
  last_nak = 0;
  last_mono_time = 0;
  output_buf = [];
  queue = [];
}

abbrev empty_db : Db tab
empty_db = record {
  sink = record { msgs_recv = 0; output_bytes = 0; conn = none };
  hash = none;
  windows = [];
}

abbrev header : Hdr
header = record {
  magic = trdp_magic;
  src_addr = 11;
  src_id = 7;
  dest_addr = 3;
  pkt_type = 1;
  status = 0;
  seqno = 40;
  total_len = 8;
  data_len = 8;
  frag_num = 0;
}

abbrev datagram : List ℕ
datagram = layout header (0 ∷ 0 ∷ 0 ∷ 8 ∷ 0x99 ∷ 0x55 ∷ 0xee ∷ 0xaa ∷ [])

abbrev after : Db tab
after = record {
  sink = record { msgs_recv = 1; output_bytes = 8; conn = none };
  hash = some (tab.set_rsz tab.empty (tsid header) 0);
  windows =
      record blank {
        tsid = tsid header;
        last_seqno = 40;
        last_recv_seqno = 40;
        last_mono_time = 99;
      }
      ∷ [];
}

process_msg_first : process_msg tab blank big_endian 3 99 empty_db datagram ≡ done after
unfolding process_msg output recv_msg
process_msg_first = refl

empty_db-IsDb : IsDb tab blank empty_db
empty_db-IsDb t k e = cc

process_msg-IsIsolated_example :
    IsIsolated tab blank empty_db after (OtherSource tab blank (copy_in big_endian datagram))
process_msg-IsIsolated_example =
    process_msg-IsIsolated tab blank big_endian 3 99 empty_db after datagram (omega arith)
      empty_db-IsDb (omega arith) process_msg_first

process_msg_data_example :
    (r : Sink × Window) × (on_data big_endian 3 99 empty_db.sink
        (window_of tab blank empty_db (tsid header))
        header
        (0 ∷ 0 ∷ 0 ∷ 8 ∷ 0x99 ∷ 0x55 ∷ 0xee ∷ 0xaa ∷ [])
      ≡ done r)
    × IsPut tab blank empty_db (tsid header) r.0 r.1 after
unfolding copy_in
process_msg_data_example =
    process_msg_data tab blank big_endian 3 99 empty_db after datagram header (omega arith)
      empty_db-IsDb (omega arith) refl refl process_msg_first

abbrev losing : Window
losing = record blank { lost_seqno = 4; last_lost = 1; nak_count = 2; last_nak = 2 }

totals-IsTotal_example :
    IsTotal lost_seqno (λ w. w.lost_seqno) (λ w. w.last_lost) (losing ∷ blank ∷ [])
    × IsTotal repeat_seqno (λ w. w.repeat_seqno) (λ w. w.last_repeat) (losing ∷ blank ∷ [])
    × IsTotal reorder_seqno (λ w. w.reorder_seqno) (λ w. w.last_reorder) (losing ∷ blank ∷ [])
    × IsTotal nak_count (λ w. w.nak_count) (λ w. w.last_nak) (losing ∷ blank ∷ [])
totals-IsTotal_example = totals-IsTotal (losing ∷ blank ∷ [])
