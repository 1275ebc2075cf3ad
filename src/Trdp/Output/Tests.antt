-- ===== src/Trdp/Output/Tests.antt =====
-- `output` at concrete payloads: two messages in one packet, one message in three, and bad frames.
use sassrv.Base.{ℕ, ◌≡◌, refl, inr, some, List, [], ◌∷◌, ◌++◌, arith, false}
use sassrv.Base.Wire.{big_endian}
use sassrv.Trdp.Window.{Window, done, unfinished}
use sassrv.Trdp.Output.{Sink, output, recv_msg, count_bytes}
use sassrv.Trdp.Output.Frames.{recv_all, output_frames, output_bad_frame}
use sassrv.Trdp.Output.Reassembly.{output_parts, count_parts, at_end, output_parts-at_end}

abbrev sink : Sink
sink = record {
  msgs_recv = 5;
  output_bytes = 100;
  conn = some (record {
    recv = [];
    bytes_recv = 0;
    recv_count = 0;
    read_ns = 0;
    now_ns = 33;
    queued = false;
  });
}

abbrev window : Window
window = record {
  tsid = record { src_addr = 1; src_id = 2 };
  last_seqno = 10;
  last_recv_seqno = 10;
  save_size = 0;
  output_len = 0;
  output_off = 0;
  lost_seqno = 0;
  repeat_seqno = 0;
  reorder_seqno = 0;
  nak_count = 0;
  last_lost = 0;
  last_repeat = 0;
  last_reorder = 0;
  last_nak = 0;
  last_mono_time = 15;
  output_buf = [];
  queue = [];
}

-- Ten bytes: the length, the magic number, and two more.
abbrev head : List ℕ
head = 0 ∷ 0 ∷ 0 ∷ 10 ∷ 0x99 ∷ 0x55 ∷ 0xee ∷ 0xaa ∷ []

abbrev short_message : List ℕ
short_message = 0 ∷ 0 ∷ 0 ∷ 8 ∷ 0x99 ∷ 0x55 ∷ 0xee ∷ 0xaa ∷ []

recv_msg_once : (recv_msg sink short_message).msgs_recv ≡ 6
unfolding recv_msg
recv_msg_once = refl

output_frames_example :
    output big_endian 2 sink window 18 ((head ++ 1 ∷ 2 ∷ []) ++ short_message ++ [])
    ≡ done (recv_all (count_bytes sink 18) ((head ++ 1 ∷ 2 ∷ []) ∷ short_message ∷ []), window)
output_frames_example =
    output_frames big_endian 2 sink window ((head ++ 1 ∷ 2 ∷ []) ∷ short_message ∷ [])
      (
        record { size_lem = refl; magic_lem = refl; header = omega arith },
        (record { size_lem = refl; magic_lem = refl; header = omega arith }, tt),
      )
      refl (omega arith)

output_parts_example :
    output_parts big_endian 1 sink window (head ∷ (1 ∷ []) ∷ (2 ∷ []) ∷ [])
    ≡ at_end (count_parts sink (head ∷ (1 ∷ []) ∷ (2 ∷ []) ∷ [])) window (head ++ 1 ∷ 2 ∷ [])
output_parts_example =
    output_parts-at_end big_endian 0 sink window head ((1 ∷ []) ∷ (2 ∷ []) ∷ [])
      (record { size_lem = refl; magic_lem = refl; header = omega arith }) refl (omega arith)
      (omega arith)

output_bad_frame_example :
    output big_endian 1000000 sink window 8 (0 ∷ 0 ∷ 0 ∷ 0 ∷ 0x99 ∷ 0x55 ∷ 0xee ∷ 0xaa ∷ [])
    ≡ unfinished
output_bad_frame_example =
    output_bad_frame big_endian 1000000 sink window 8
      (0 ∷ 0 ∷ 0 ∷ 0 ∷ 0x99 ∷ 0x55 ∷ 0xee ∷ 0xaa ∷ []) refl (omega arith) (omega arith)
      (inr (refl, refl))
