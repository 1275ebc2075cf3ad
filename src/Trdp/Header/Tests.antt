-- ===== src/Trdp/Header/Tests.antt =====
-- `copy_in` at concrete datagrams.
use sassrv.Base.{◌≡◌, refl, none, some, [], ◌∷◌, arith, take}
use sassrv.Base.Wire.{big_endian}
use sassrv.Trdp.Header.{Hdr, copy_in, trdp_magic}
use sassrv.Trdp.Header.Layout.{layout, copy_in-layout}

abbrev header : Hdr
header = record {
  magic = trdp_magic;
  src_addr = 0x0a040416;
  src_id = 7;
  dest_addr = 0xe0000001;
  pkt_type = 0x0101;
  status = 0;
  seqno = 70000;
  total_len = 300;
  data_len = 3;
  frag_num = 1;
}

-- One byte short of a DATA header.
copy_in-short : copy_in big_endian (take 31 (layout header [])) ≡ none
unfolding copy_in
copy_in-short = refl

-- A type outside of those known has no more than the fixed part.
copy_in-other_type :
    copy_in big_endian (take 20 (layout (record header { pkt_type = 2 }) []))
    ≡ some (record header { pkt_type = 2; seqno = 0; total_len = 0; data_len = 0; frag_num = 0 })
unfolding copy_in
copy_in-other_type = refl

copy_in-layout_example : copy_in big_endian (layout header (1 ∷ 2 ∷ 3 ∷ [])) ≡ some header
copy_in-layout_example = copy_in-layout big_endian header (1 ∷ 2 ∷ 3 ∷ []) (omega arith)
