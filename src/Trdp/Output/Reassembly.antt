-- ===== src/Trdp/Output/Reassembly.antt =====
-- A message that comes in several packets is put together again.
use sassrv.Base.{
  ℕ, suc, ◌+◌, ◌<◌, ◌≤◌, ◌≡◌, refl, sym, ap, ◌∙◌, inl, inr, List, [], ◌∷◌, ◌++◌, arith, ltb, length,
  length-append, drop, take-length, append-nil, append_assoc, Bool-cases,
}
use sassrv.Base.Wire.{Decoder}
use sassrv.Trdp.Window.{Window, Outcome, done, ◌>>=◌}
use sassrv.Trdp.Output.{Sink, recv_msg, rv_magic, split, output, count_bytes, begin_message}
use sassrv.Trdp.Output.Frames.{joined, IsFrame, size-append, magic-append}

-- Payloads that are output one behind another.
pub output_parts : Decoder → ℕ → Sink → Window → List (List ℕ) → Outcome (Sink × Window)
output_parts md fuel s w [] = done (s, w)
output_parts md fuel s w (p ∷ ps) =
    output md fuel s w (length p) p >>= λ r. output_parts md fuel r.0 r.1 ps

-- The bytes of each payload are counted, and the message is received.
abbrev pub count_parts : Sink → List (List ℕ) → Sink
count_parts s [] = s
count_parts s (p ∷ ps) = count_parts (count_bytes s (length p)) ps

-- A message of `size` bytes is in progress, and `buf` of it is there.
pub record IsPartial (w : Window) (size : ℕ) (buf : List ℕ) : Type 0 where
  pub size_lem : w.output_len ≡ size
  pub off_lem : w.output_off ≡ length buf
  pub buf_lem : w.output_buf ≡ buf
  pub short : length buf < size

-- The message `m` is received, and none is in progress.
abbrev pub at_end : Sink → Window → List ℕ → Outcome (Sink × Window)
at_end s w m = done (recv_msg s m, record w { output_buf = m; output_off = 0; output_len = 0 })

module _ (md : Decoder) where
  output_first :
      (fuel : ℕ) (s : Sink) (w : Window) (p rest : List ℕ)
      → IsFrame md (p ++ rest)
      → w.output_len ≡ 0
      → 8 ≤ length p
      → length p < length (p ++ rest)
      → output md (suc fuel) s w (length p) p
        ≡ done (count_bytes s (length p), begin_message w (length (p ++ rest)) (length p) p)
  unfolding output split
  output_first fuel s w p rest f e h short =
      let size : md.get_u32 p ≡ length (p ++ rest) = sym (size-append md p rest h) ∙ f.size_lem in
      let magic : md.get_u32 (drop 4 p) ≡ rv_magic = sym (magic-append md p rest h) ∙ f.magic_lem in
      ground (arith, take-length p)

  output_more :
      (fuel : ℕ) (s : Sink) (w : Window) (size : ℕ) (buf p : List ℕ)
      → IsPartial w size buf
      → length buf + length p < size
      → output md fuel s w (length p) p
        ≡ done (
          count_bytes s (length p),
          record w { output_buf = buf ++ p; output_off = length buf + length p },
        )
  unfolding output
  output_more fuel s w size buf p i h =
      ground (arith, take-length p, take-length buf, i.size_lem, i.off_lem, i.buf_lem, i.short)

  output_final :
      (fuel : ℕ) (s : Sink) (w : Window) (size : ℕ) (buf p : List ℕ)
      → IsPartial w size buf
      → length buf + length p ≡ size
      → output md fuel s w (length p) p
        ≡ done (
          recv_msg (count_bytes s (length p)) (buf ++ p),
          record w { output_buf = buf ++ p; output_off = 0; output_len = 0 },
        )
  unfolding output
  output_final fuel s w size buf p i h =
      ground (arith, take-length p, take-length buf, i.size_lem, i.off_lem, i.buf_lem, i.short)

  nil_of_length : (xs : List ℕ) → length xs ≡ 0 → xs ≡ []
  nil_of_length [] e = refl
  nil_of_length (x ∷ xs) e = absurd (omega arith)

  parts_none :
      (fuel : ℕ) (s : Sink) (w : Window) (ps : List (List ℕ))
      → w.output_len ≡ 0
      → length (joined ps) ≡ 0
      → output_parts md fuel s w ps ≡ done (count_parts s ps, w)
  unfolding output_parts output
  parts_none fuel s w [] e h = refl
  parts_none fuel s w (p ∷ ps) e h =
      ground (arith, length-append p (joined ps), parts_none fuel (count_bytes s (length p)) w ps e)

  recv_msg-count :
      (s : Sink) (m : List ℕ) (ps : List (List ℕ))
      → count_parts (recv_msg s m) ps ≡ recv_msg (count_parts s ps) m
  unfolding recv_msg
  recv_msg-count s m [] = refl
  recv_msg-count s m (p ∷ ps) = recv_msg-count (count_bytes s (length p)) m ps

  parts_more :
      (fuel size : ℕ) (s : Sink) (w : Window) (buf : List ℕ) (ps : List (List ℕ))
      → IsPartial w size buf
      → length buf + length (joined ps) ≡ size
      → output_parts md fuel s w ps ≡ at_end (count_parts s ps) w (buf ++ joined ps)
  unfolding output_parts
  parts_more fuel size s w buf [] i h = absurd (omega (arith, i.short))
  parts_more fuel size s w buf (p ∷ ps) i h = elim (Bool-cases (ltb (length buf + length p) size)) [
    | inl more ↦
        let w' = record w { output_buf = buf ++ p; output_off = length buf + length p } in
        let i' : IsPartial w' size (buf ++ p) = record {
          size_lem = i.size_lem;
          off_lem = sym (length-append buf p);
          buf_lem = refl;
          short = ground (arith, length-append buf p);
        } in
        rw (output_more fuel s w size buf p i (ground arith), ← append_assoc buf p (joined ps))
          (parts_more fuel size (count_bytes s (length p)) w' (buf ++ p) ps i'
            (omega (arith, length-append buf p, length-append p (joined ps))))
    | inr last ↦
        let total = length-append p (joined ps) in
        let full : length buf + length p ≡ size = ground (arith, i.short) in
        let rest : joined ps ≡ [] = nil_of_length (joined ps) (omega arith) in
        let w' = record w { output_buf = buf ++ p; output_off = 0; output_len = 0 } in
        let same : buf ++ p ≡ buf ++ (p ++ joined ps) =
          ap (◌++◌ buf) (sym (ap (◌++◌ p) rest ∙ append-nil p)) in
        rw (output_final fuel s w size buf p i full) (
          parts_none fuel (recv_msg (count_bytes s (length p)) (buf ++ p)) w' ps refl (omega arith)
          ∙ ap (λ t. done (t, w')) (recv_msg-count (count_bytes s (length p)) (buf ++ p) ps)
          ∙ ap (at_end (count_parts (count_bytes s (length p)) ps) w) same)
  ]

  -- A message cut into packets, the first of eight bytes or more and not the whole of it, and the
  -- others as they fall: with none in progress before, exactly that message is received once, every
  -- packet is counted, and none is in progress after.
  pub output_parts-at_end :
      (fuel : ℕ) (s : Sink) (w : Window) (p : List ℕ) (ps : List (List ℕ))
      → IsFrame md (joined (p ∷ ps))
      → w.output_len ≡ 0
      → 8 ≤ length p
      → length p < length (joined (p ∷ ps))
      → output_parts md (suc fuel) s w (p ∷ ps)
        ≡ at_end (count_parts s (p ∷ ps)) w (joined (p ∷ ps))
  unfolding output_parts
  output_parts-at_end fuel s w p ps f e h short =
      rw (output_first fuel s w p (joined ps) f e h short) (
        parts_more (suc fuel) (length (p ++ joined ps)) (count_bytes s (length p))
          (begin_message w (length (p ++ joined ps)) (length p) p) p ps
          (record { size_lem = refl; off_lem = refl; buf_lem = refl; short = short })
          (sym (length-append p (joined ps))))
