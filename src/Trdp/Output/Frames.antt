-- ===== src/Trdp/Output/Frames.antt =====
-- Packets that hold whole RV messages, and packets that hold none.
use sassrv.Base.{
  ℕ, zero, suc, ◌-◌, ◌<◌, ◌≤◌, ◌≡◌, ◌≢◌, ◌⊎◌, inl, inr, refl, sym, ap, ◌∙◌, List, [], ◌∷◌, ◌++◌,
  All, arith, length, length-append, take, drop, take-append, drop-append, eq→==,
}
use mathlib.Core.Path.{subst}
use sassrv.Base.Wire.{Decoder}
use sassrv.Trdp.Window.{Window, done, unfinished}
use sassrv.Trdp.Output.{Sink, recv_msg, rv_magic, split, output, count_bytes}

-- `data` and `flatten` of the packets: the messages of a batch, one behind another.
abbrev pub joined : List (List ℕ) → List ℕ
joined [] = []
joined (m ∷ ms) = m ++ joined ms

abbrev pub recv_all : Sink → List (List ℕ) → Sink
recv_all s [] = s
recv_all s (m ∷ ms) = recv_all (recv_msg s m) ms

module _ (md : Decoder) where
  -- An RV message: its length, the magic number, and the rest.
  pub record IsFrame (m : List ℕ) : Type 0 where
    pub size_lem : md.get_u32 m ≡ length m
    pub magic_lem : md.get_u32 (drop 4 m) ≡ rv_magic
    pub header : 8 ≤ length m

  get_u32-append : (m rest : List ℕ) → 4 ≤ length m → md.get_u32 (m ++ rest) ≡ md.get_u32 m
  get_u32-append [] rest h = absurd (omega arith)
  get_u32-append (a ∷ []) rest h = absurd (omega arith)
  get_u32-append (a ∷ b ∷ []) rest h = absurd (omega arith)
  get_u32-append (a ∷ b ∷ c ∷ []) rest h = absurd (omega arith)
  get_u32-append (a ∷ b ∷ c ∷ d ∷ m) rest h =
      md.get_u32_lem a b c d (m ++ rest) ∙ sym (md.get_u32_lem a b c d m)

  drop_four-append : (m rest : List ℕ) → 4 ≤ length m → drop 4 (m ++ rest) ≡ drop 4 m ++ rest
  drop_four-append [] rest h = absurd (omega arith)
  drop_four-append (a ∷ []) rest h = absurd (omega arith)
  drop_four-append (a ∷ b ∷ []) rest h = absurd (omega arith)
  drop_four-append (a ∷ b ∷ c ∷ []) rest h = absurd (omega arith)
  drop_four-append (a ∷ b ∷ c ∷ d ∷ m) rest h = refl

  length-drop_four : (m : List ℕ) → 8 ≤ length m → 4 ≤ length (drop 4 m)
  length-drop_four [] h = absurd (omega arith)
  length-drop_four (a ∷ []) h = absurd (omega arith)
  length-drop_four (a ∷ b ∷ []) h = absurd (omega arith)
  length-drop_four (a ∷ b ∷ c ∷ []) h = absurd (omega arith)
  length-drop_four (a ∷ b ∷ c ∷ d ∷ m) h = omega arith

  -- The first eight bytes decide the two fields.
  pub size-append : (m rest : List ℕ) → 8 ≤ length m → md.get_u32 (m ++ rest) ≡ md.get_u32 m
  size-append m rest h = get_u32-append m rest (omega arith)

  pub magic-append :
      (m rest : List ℕ) → 8 ≤ length m → md.get_u32 (drop 4 (m ++ rest)) ≡ md.get_u32 (drop 4 m)
  magic-append m rest h =
      ap md.get_u32 (drop_four-append m rest (omega arith))
      ∙ get_u32-append (drop 4 m) rest (length-drop_four m h)

  -- One round of the loop over a packet that begins with a whole message.
  split_frame :
      (fuel : ℕ) (s : Sink) (w : Window) (m rest : List ℕ)
      → IsFrame m
      → 8 ≤ length rest
      → split md (suc fuel) s w (length (m ++ rest)) (m ++ rest)
        ≡ split md fuel (recv_msg s m) w (length rest) rest
  unfolding split
  split_frame fuel s w m rest f h =
      let size : md.get_u32 (m ++ rest) ≡ length m = size-append m rest f.header ∙ f.size_lem in
      let magic : md.get_u32 (drop 4 (m ++ rest)) ≡ rv_magic =
        magic-append m rest f.header ∙ f.magic_lem in
      let total = length-append m rest in
      ground (arith, f.header, take-append m rest, drop-append m rest)

  split_last :
      (fuel : ℕ) (s : Sink) (w : Window) (m : List ℕ)
      → IsFrame m
      → split md (suc fuel) s w (length (m ++ [])) (m ++ []) ≡ done (recv_msg s m, w)
  unfolding split
  split_last fuel s w m f =
      let size : md.get_u32 (m ++ []) ≡ length m = size-append m [] f.header ∙ f.size_lem in
      let magic : md.get_u32 (drop 4 (m ++ [])) ≡ rv_magic =
        magic-append m [] f.header ∙ f.magic_lem in
      let total = length-append m [] in ground (arith, f.header, take-append m [])

  split_frames :
      (fuel : ℕ) (s : Sink) (w : Window) (m : List ℕ) (ms : List (List ℕ))
      → All IsFrame (m ∷ ms)
      → length ms < fuel
      → split md fuel s w (length (joined (m ∷ ms))) (joined (m ∷ ms))
        ≡ done (recv_all s (m ∷ ms), w)
  split_frames zero s w m ms f h = absurd (omega arith)
  split_frames (suc fuel) s w m [] f h = split_last fuel s w m f.0
  split_frames (suc fuel) s w m (n ∷ ms) f h =
      split_frame fuel s w m (joined (n ∷ ms)) f.0
        (omega (arith, f.1.0.header, length-append n (joined ms)))
      ∙ split_frames fuel (recv_msg s m) w n ms f.1 (omega arith)

  -- A packet that is a row of whole messages, with none in progress: each of them is received, in
  -- order, and the window stays as it was. As many rounds as messages are enough.
  pub output_frames :
      (fuel : ℕ) (s : Sink) (w : Window) (ms : List (List ℕ))
      → All IsFrame ms
      → w.output_len ≡ 0
      → length ms ≤ fuel
      → output md fuel s w (length (joined ms)) (joined ms)
        ≡ done (recv_all (count_bytes s (length (joined ms))) ms, w)
  unfolding output
  output_frames fuel s w [] f e h = ground arith
  output_frames fuel s w (m ∷ ms) f e h = rw (eq→== w.output_len 0 e) (
      ground (
        arith,
        f.0.header,
        length-append m (joined ms),
        split_frames fuel (count_bytes s (length (joined (m ∷ ms)))) w m ms f,
      ))

  split_other_magic :
      (fuel : ℕ) (s : Sink) (w : Window) (len : ℕ) (bytes : List ℕ)
      → 8 ≤ length bytes
      → md.get_u32 (drop 4 bytes) ≢ rv_magic
      → split md fuel s w len bytes ≡ unfinished
  unfolding split
  split_other_magic zero s w len bytes h ne = refl
  split_other_magic (suc fuel) s w len bytes h ne =
      ground (arith, split_other_magic fuel s w len bytes h ne)

  split_no_size :
      (fuel : ℕ) (s : Sink) (w : Window) (len : ℕ) (bytes : List ℕ)
      → 8 ≤ length bytes
      → 8 ≤ len
      → md.get_u32 bytes ≡ 0
      → md.get_u32 (drop 4 bytes) ≡ rv_magic
      → split md fuel s w len bytes ≡ unfinished
  unfolding split
  split_no_size zero s w len bytes h l z m = refl
  split_no_size (suc fuel) s w len bytes h l z m =
      let again : (k : ℕ)
          → k ≡ 0
          → split md fuel (recv_msg s (take k bytes)) w (len - k) (drop k bytes) ≡ unfinished =
        λ k e.
          subst
            (λ j. split md fuel (recv_msg s (take j bytes)) w (len - j) (drop j bytes) ≡ unfinished)
            (sym e)
            (subst (λ n. split md fuel (recv_msg s []) w n bytes ≡ unfinished) (omega arith)
              (split_no_size fuel (recv_msg s []) w len bytes h l z m)) in
      ground (arith, again (md.get_u32 bytes) z)

  -- A packet of eight bytes or more, with no message in progress, whose magic number is another or
  -- whose stated length is zero: the loop never ends, on any fuel.
  pub output_bad_frame :
      (fuel : ℕ) (s : Sink) (w : Window) (len : ℕ) (bytes : List ℕ)
      → w.output_len ≡ 0
      → 8 ≤ len
      → 8 ≤ length bytes
      → (md.get_u32 (drop 4 bytes) ≢ rv_magic)
        ⊎ ((md.get_u32 bytes ≡ 0) × (md.get_u32 (drop 4 bytes) ≡ rv_magic))
      → output md fuel s w len bytes ≡ unfinished
  unfolding output
  output_bad_frame fuel s w len bytes e l h (inl ne) =
      ground (arith, split_other_magic fuel (count_bytes s len) w len bytes h ne)
  output_bad_frame fuel s w len bytes e l h (inr (z, m)) =
      ground (arith, split_no_size fuel (count_bytes s len) w len bytes h l z m)
