-- ===== src/Trdp/Header.antt =====
-- src/mc.cpp: `TrdpHdr`, and `copy_in`, which reads it from a datagram.
pub mod Layout
pub mod Bounds
mod Tests
use sassrv.Base.{
  ℕ, ◌+◌, ◌%◌, ◌≡◌, Bool, true, false, ◌&&◌, ◌||◌, Option, none, some, List, [], ◌∷◌, ltb, ◌==◌,
  if◌then◌else◌, length, drop,
}
use sassrv.Base.Wire.{Decoder}

-- `TrdpTsid`
pub record Tsid : Type 0 where
  pub src_addr : ℕ
  pub src_id : ℕ

-- The packet types that the receiver tells apart.
abbrev pub data_type : ℕ
data_type = 1

abbrev pub nak_type : ℕ
nak_type = 3

-- SPM, NAK_ERR, P2P_DATA, P2P_SYN, P2P_ACK, P2P_NAK
abbrev pub is_seqno_type : ℕ → Bool
is_seqno_type t = ltb 3 t && ltb t 10

-- The union at the end is its widest member, `data`: `nak.seqno_len` and the bare `seqno` lie on
-- `data.seqno`, and `nak.seqno[ 0 ]` on `data.total_len`.
pub record Hdr : Type 0 where
  pub magic : ℕ
  pub src_addr : ℕ
  pub src_id : ℕ
  pub dest_addr : ℕ
  pub pkt_type : ℕ
  pub status : ℕ
  pub seqno : ℕ
  pub total_len : ℕ
  pub data_len : ℕ
  pub frag_num : ℕ

abbrev pub tsid : Hdr → Tsid
tsid h = record { src_addr = h.src_addr; src_id = h.src_id }

-- `pkt_type & 0xff`
abbrev pub hdr_type : Hdr → ℕ
hdr_type h = h.pkt_type % 256

abbrev pub trdp_magic : ℕ
trdp_magic = 0x88fa6923

abbrev pub trdp_hdr_size : ℕ
trdp_hdr_size = 20

abbrev pub trdp_data_hdr_size : ℕ
trdp_data_hdr_size = 32

module _ (md : Decoder) where
  -- The part that every packet has, its union zeroed.
  fixed_part : List ℕ → Hdr
  fixed_part msg = record {
    magic = md.get_u32 msg;
    src_addr = md.get_u32 (drop 4 msg);
    src_id = md.get_u32 (drop 8 msg);
    dest_addr = md.get_u32 (drop 12 msg);
    pkt_type = md.get_u16 (drop 16 msg);
    status = md.get_u16 (drop 18 msg);
    seqno = 0;
    total_len = 0;
    data_len = 0;
    frag_num = 0;
  }

  data_part : List ℕ → Hdr → Hdr
  data_part msg h = record h {
    seqno = md.get_u32 (drop 20 msg);
    total_len = md.get_u32 (drop 24 msg);
    data_len = md.get_u16 (drop 28 msg);
    frag_num = md.get_u16 (drop 30 msg);
  }

  seqno_part : List ℕ → Hdr → Hdr
  seqno_part msg h = record h { seqno = md.get_u32 (drop 20 msg) }

  union_part : List ℕ → Hdr → Option Hdr
  unfolding data_part seqno_part
  union_part msg h =
      if hdr_type h == data_type
      then if ltb (length msg) trdp_data_hdr_size then none else some (data_part msg h)
      else if hdr_type h == nak_type || is_seqno_type (hdr_type h)
      then if ltb (length msg) (trdp_hdr_size + 4) then none else some (seqno_part msg h)
      else some h

  -- `none` is the result `false`.
  unfoldable pub copy_in : List ℕ → Option Hdr
  unfolding fixed_part union_part
  copy_in msg =
      if ltb (length msg) trdp_hdr_size
      then none
      else if (fixed_part msg).magic == trdp_magic
      then union_part msg (fixed_part msg)
      else none
