-- ===== src/Trdp/Header/Bounds.antt =====
-- The fields that `copy_in` reads from bytes fit their words.
use sassrv.Base.{
  ℕ, ◌+◌, ◌<◌, ◌≤◌, ◌≡◌, some, List, [], ◌∷◌, All, All-drop, arith, length, length-drop, drop,
  u32_mod,
}
use mathlib.Core.Path.{subst}
use sassrv.Base.Wire.{Decoder}
use sassrv.Trdp.Header.{
  Hdr, copy_in, data_type, hdr_type, trdp_data_hdr_size, fixed_part, union_part, data_part,
  seqno_part,
}

abbrev pub IsByte : ℕ → Type 0
IsByte b = b < 256

module _ (md : Decoder) where
  get_u32_lt : (xs : List ℕ) → All IsByte xs → 4 ≤ length xs → md.get_u32 xs < u32_mod
  get_u32_lt [] h l = absurd (omega arith)
  get_u32_lt (a ∷ []) h l = absurd (omega arith)
  get_u32_lt (a ∷ b ∷ []) h l = absurd (omega arith)
  get_u32_lt (a ∷ b ∷ c ∷ []) h l = absurd (omega arith)
  get_u32_lt (a ∷ b ∷ c ∷ d ∷ xs) (p, (q, (r, (s, t)))) l =
      rw (md.get_u32_lem a b c d xs) (omega arith)

  get_u16_lt : (xs : List ℕ) → All IsByte xs → 2 ≤ length xs → md.get_u16 xs < 65536
  get_u16_lt [] h l = absurd (omega arith)
  get_u16_lt (a ∷ []) h l = absurd (omega arith)
  get_u16_lt (a ∷ b ∷ xs) (p, (q, t)) l = rw (md.get_u16_lem a b xs) (omega arith)

  word_at :
      (n : ℕ) (msg : List ℕ)
      → All IsByte msg
      → n + 4 ≤ length msg
      → md.get_u32 (drop n msg) < u32_mod
  word_at n msg h l =
      get_u32_lt (drop n msg) (All-drop IsByte n msg h) (omega (arith, length-drop n msg))

  half_at :
      (n : ℕ) (msg : List ℕ) → All IsByte msg → n + 2 ≤ length msg → md.get_u16 (drop n msg) < 65536
  half_at n msg h l =
      get_u16_lt (drop n msg) (All-drop IsByte n msg h) (omega (arith, length-drop n msg))

  -- A DATA header is read only from a datagram that holds all of it.
  copy_in_data :
      (msg : List ℕ) (hdr : Hdr)
      → copy_in md msg ≡ some hdr
      → hdr_type hdr ≡ data_type
      → (trdp_data_hdr_size ≤ length msg) × (data_part md msg (fixed_part md msg) ≡ hdr)
  unfolding copy_in union_part fixed_part seqno_part data_part
  copy_in_data msg hdr e t = ground arith

  pub copy_in_bounds :
      (msg : List ℕ) (hdr : Hdr)
      → All IsByte msg
      → copy_in md msg ≡ some hdr
      → hdr_type hdr ≡ data_type
      → (hdr.seqno < u32_mod) × (hdr.data_len < 65536) × (hdr.total_len < u32_mod)
  unfolding data_part
  copy_in_bounds msg hdr h e t =
      let (l, same) = copy_in_data msg hdr e t in
      subst (λ (d : Hdr). (d.seqno < u32_mod) × (d.data_len < 65536) × (d.total_len < u32_mod)) same
        (
          word_at 20 msg h (omega arith),
          half_at 28 msg h (omega arith),
          word_at 24 msg h (omega arith),
        )
