-- ===== src/Trdp/Header/Layout.antt =====
-- The layout of a DATA header on the wire, and the ranges of the fields that `copy_in` reads.
use sassrv.Base.{ℕ, ◌/◌, ◌%◌, ◌<◌, ◌≡◌, ◌∙◌, some, List, ◌∷◌, arith, u32_mod}
use sassrv.Base.Wire.{Decoder}
use sassrv.Trdp.Header.{
  Hdr, copy_in, data_type, hdr_type, trdp_magic, fixed_part, union_part, data_part,
}

abbrev bytes16 : ℕ → List ℕ → List ℕ
bytes16 n rest = (n / 256 % 256) ∷ (n % 256) ∷ rest

abbrev bytes32 : ℕ → List ℕ → List ℕ
bytes32 n rest = (n / 16777216 % 256) ∷ (n / 65536 % 256) ∷ (n / 256 % 256) ∷ (n % 256) ∷ rest

-- The rest of the header from a field on, and the payload.
abbrev pub from_frag_num : Hdr → List ℕ → List ℕ
from_frag_num h payload = bytes16 h.frag_num payload

abbrev pub from_data_len : Hdr → List ℕ → List ℕ
from_data_len h payload = bytes16 h.data_len (from_frag_num h payload)

abbrev pub from_total_len : Hdr → List ℕ → List ℕ
from_total_len h payload = bytes32 h.total_len (from_data_len h payload)

abbrev pub from_seqno : Hdr → List ℕ → List ℕ
from_seqno h payload = bytes32 h.seqno (from_total_len h payload)

abbrev pub from_status : Hdr → List ℕ → List ℕ
from_status h payload = bytes16 h.status (from_seqno h payload)

abbrev pub from_pkt_type : Hdr → List ℕ → List ℕ
from_pkt_type h payload = bytes16 h.pkt_type (from_status h payload)

abbrev pub from_dest_addr : Hdr → List ℕ → List ℕ
from_dest_addr h payload = bytes32 h.dest_addr (from_pkt_type h payload)

abbrev pub from_src_id : Hdr → List ℕ → List ℕ
from_src_id h payload = bytes32 h.src_id (from_dest_addr h payload)

abbrev pub from_src_addr : Hdr → List ℕ → List ℕ
from_src_addr h payload = bytes32 h.src_addr (from_src_id h payload)

-- A DATA header followed by its payload, each field big-endian.
abbrev pub layout : Hdr → List ℕ → List ℕ
layout h payload = bytes32 h.magic (from_src_addr h payload)

-- A header whose fields fit their words, with the right magic number and of type DATA.
pub record IsDataHdr (h : Hdr) : Type 0 where
  pub magic_lem : h.magic ≡ trdp_magic
  pub src_addr_lt : h.src_addr < u32_mod
  pub src_id_lt : h.src_id < u32_mod
  pub dest_addr_lt : h.dest_addr < u32_mod
  pub pkt_type_lt : h.pkt_type < 65536
  pub status_lt : h.status < 65536
  pub seqno_lt : h.seqno < u32_mod
  pub total_len_lt : h.total_len < u32_mod
  pub data_len_lt : h.data_len < 65536
  pub frag_num_lt : h.frag_num < 65536
  pub type_lem : hdr_type h ≡ data_type

module _ (md : Decoder) where
  get_u16-bytes : (n : ℕ) (rest : List ℕ) → n < 65536 → md.get_u16 (bytes16 n rest) ≡ n
  get_u16-bytes n rest h = md.get_u16_lem (n / 256 % 256) (n % 256) rest ∙ omega arith

  get_u32-bytes : (n : ℕ) (rest : List ℕ) → n < u32_mod → md.get_u32 (bytes32 n rest) ≡ n
  get_u32-bytes n rest h =
      md.get_u32_lem (n / 16777216 % 256) (n / 65536 % 256) (n / 256 % 256) (n % 256) rest
      ∙ omega arith

  -- The header that a DATA datagram states is the one that is read, whatever payload follows.
  pub copy_in-layout :
      (h : Hdr) (payload : List ℕ) → IsDataHdr h → copy_in md (layout h payload) ≡ some h
  unfolding copy_in fixed_part union_part data_part
  copy_in-layout h payload v = ground (
    arith,
    get_u32-bytes h.magic (from_src_addr h payload) (omega (arith, v.magic_lem)),
    get_u32-bytes h.src_addr (from_src_id h payload) v.src_addr_lt,
    get_u32-bytes h.src_id (from_dest_addr h payload) v.src_id_lt,
    get_u32-bytes h.dest_addr (from_pkt_type h payload) v.dest_addr_lt,
    get_u16-bytes h.pkt_type (from_status h payload) v.pkt_type_lt,
    get_u16-bytes h.status (from_seqno h payload) v.status_lt,
    get_u32-bytes h.seqno (from_total_len h payload) v.seqno_lt,
    get_u32-bytes h.total_len (from_data_len h payload) v.total_len_lt,
    get_u16-bytes h.data_len (from_frag_num h payload) v.data_len_lt,
    get_u16-bytes h.frag_num payload v.frag_num_lt,
    v.magic_lem,
    v.type_lem,
  )
