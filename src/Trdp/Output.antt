-- ===== src/Trdp/Output.antt =====
-- src/mc.cpp: `TrdpWindowDB::output`, which cuts the payload stream of a source into RV messages,
-- and `TrdpWindowDB::recv_msg`, which hands one to the connection.
pub mod Frames
pub mod Reassembly
pub mod Same
mod Tests
use sassrv.Base.{
  ℕ, zero, suc, ◌+◌, ◌-◌, Bool, true, false, Option, none, some, List, [], ◌∷◌, ◌++◌, ltb, leb,
  ◌==◌, if◌then◌else◌, length, take, drop, add64,
}
use sassrv.Base.Wire.{Decoder}
use sassrv.Trdp.Window.{Window, Outcome, done, overread, unfinished, read, ◌>>=◌, Packet}
use mathlib.Core.Option

-- The fields of the `EvConnection` that `recv_msg` writes. `recv` is what is unread in its buffer:
-- `adjust_recv` and `resize_recv_buf` move those bytes and keep them.
pub record Conn : Type 0 where
  pub recv : List ℕ
  pub bytes_recv : ℕ
  pub recv_count : ℕ
  pub read_ns : ℕ
  pub now_ns : ℕ
  pub queued : Bool

-- The part of `TrdpWindowDB` that output goes to.
pub record Sink : Type 0 where
  pub msgs_recv : ℕ
  pub output_bytes : ℕ
  pub conn : Option Conn

conn_recv : List ℕ → Conn → Conn
conn_recv msg c = record c {
  recv = c.recv ++ msg;
  bytes_recv = add64 c.bytes_recv (length msg);
  recv_count = add64 c.recv_count 1;
  read_ns = c.now_ns;
  queued = true;
}

unfoldable pub recv_msg : Sink → List ℕ → Sink
unfolding conn_recv
recv_msg s msg = record s {
  msgs_recv = add64 s.msgs_recv 1;
  conn = Option.map (conn_recv msg) s.conn;
}

abbrev pub rv_magic : ℕ
rv_magic = 0x9955eeaa

-- A message that does not end in this packet.
abbrev pub begin_message : Window → ℕ → ℕ → List ℕ → Window
begin_message w size len bytes = record w {
  output_buf = bytes;
  output_off = len;
  output_len = size;
}

-- The packet goes on with the message in `output_buf`; the guard keeps it within the buffer.
abbrev pub continue_message : Sink → Window → ℕ → List ℕ → Sink × Window
continue_message s w len bytes =
    let buf = take w.output_off w.output_buf ++ bytes in
    if w.output_off + len == w.output_len
    then (recv_msg s buf, record w { output_buf = buf; output_off = 0; output_len = 0 })
    else (s, record w { output_buf = buf; output_off = w.output_off + len })

abbrev pub count_bytes : Sink → ℕ → Sink
count_bytes s len = record s { output_bytes = add64 s.output_bytes len }

-- The copy of a message, which is made for a connection alone.
abbrev pub copy_msg : Sink → ℕ → List ℕ → Outcome (List ℕ)
copy_msg s n bytes = elim s.conn [ none ↦ done (take n bytes) | some c ↦ read n bytes ]

module _ (md : Decoder) where
  -- `for (;;)` over the messages of a packet. Where the magic is another the body does nothing.
  pub split : ℕ → Sink → Window → ℕ → List ℕ → Outcome (Sink × Window)
  split zero s w len bytes = unfinished
  split (suc fuel) s w len bytes = elim (ltb (length bytes) 8) [
    | true ↦ overread
    | false ↦ elim (md.get_u32 (drop 4 bytes) == rv_magic) [
      | false ↦ split fuel s w len bytes
      | true ↦ elim (leb (md.get_u32 bytes) len) [
        | false ↦ read len bytes >>= λ part. done (s, begin_message w (md.get_u32 bytes) len part)
        | true ↦ copy_msg s (md.get_u32 bytes) bytes >>= λ msg.
            elim (ltb (len - md.get_u32 bytes) 8) [
              | true ↦ done (recv_msg s msg, w)
              | false ↦
                  split fuel (recv_msg s msg) w (len - md.get_u32 bytes)
                    (drop (md.get_u32 bytes) bytes)
            ]
      ]
    ]
  ]

  -- A packet that overruns the message in progress is dropped.
  unfoldable pub output : ℕ → Sink → Window → ℕ → List ℕ → Outcome (Sink × Window)
  unfolding split
  output fuel s w len bytes =
      if w.output_len == 0
      then if leb 8 len
        then split fuel (count_bytes s len) w len bytes
        else done (count_bytes s len, w)
      else if leb (w.output_off + len) w.output_len
      then (read len bytes >>= λ part. done (continue_message (count_bytes s len) w len part))
      else done (count_bytes s len, w)

  -- The packets that `merge` gives out, in order.
  unfoldable pub output_all : ℕ → Sink → Window → List Packet → Outcome (Sink × Window)
  output_all fuel s w [] = done (s, w)
  output_all fuel s w (p ∷ ps) =
      output fuel s w p.data_len p.payload >>= λ r. output_all fuel r.0 r.1 ps
