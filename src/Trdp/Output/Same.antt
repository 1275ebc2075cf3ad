-- ===== src/Trdp/Output/Same.antt =====
-- Output leaves the source and the queue of a window alone.
use sassrv.Base.{ℕ, zero, suc, ◌-◌, ◌≡◌, refl, ◌∙◌, List, [], ◌∷◌, arith, take, drop}
use sassrv.Base.Wire.{Decoder}
use sassrv.Trdp.Window.{Window, Packet, Outcome, done, overread, unfinished, ◌>>=◌}
use sassrv.Trdp.Output.{Sink, split, output, output_all, count_bytes, recv_msg}

-- Output changes neither the source nor the queue of a window.
abbrev pub IsSame : Window → Window → Type 0
IsSame w v = (v.tsid ≡ w.tsid) × (v.save_size ≡ w.save_size) × (v.queue ≡ w.queue)

-- A result of two steps is a result of each.
pub >>=-done {ℓ κ} :
    {A : Type ℓ} {B : Type κ} (m : Outcome A) {f : A → Outcome B} {b : B}
    → (m >>= f) ≡ done b
    → (a : A) × (m ≡ done a) × (f a ≡ done b)
>>=-done (done a) e = (a, refl, e)
>>=-done overread e = cc
>>=-done unfinished e = cc

module _ (md : Decoder) where
  split-IsSame :
      (fuel : ℕ) (s : Sink) (w : Window) (len : ℕ) (bytes : List ℕ) (r : Sink × Window)
      → split md fuel s w len bytes ≡ done r
      → IsSame w r.1
  unfolding split
  split-IsSame zero s w len bytes r e = cc
  split-IsSame (suc fuel) s w len bytes r e =
      let size = md.get_u32 bytes in
      ground (
        arith,
        split-IsSame fuel s w len bytes r,
        split-IsSame fuel (recv_msg s (take size bytes)) w (len - size) (drop size bytes) r,
      )

  pub output-IsSame :
      (fuel : ℕ) (s : Sink) (w : Window) (len : ℕ) (bytes : List ℕ) (r : Sink × Window)
      → output md fuel s w len bytes ≡ done r
      → IsSame w r.1
  unfolding output
  output-IsSame fuel s w len bytes r e =
      ground (arith, split-IsSame fuel (count_bytes s len) w len bytes r)

  pub output_all-IsSame :
      (fuel : ℕ) (s : Sink) (w : Window) (ps : List Packet) (r : Sink × Window)
      → output_all md fuel s w ps ≡ done r
      → IsSame w r.1
  unfolding output_all
  output_all-IsSame fuel s w [] r e = ground arith
  output_all-IsSame fuel s w (p ∷ ps) r e =
      let (t, a, b) = >>=-done (output md fuel s w p.data_len p.payload) e in
      let x = output-IsSame fuel s w p.data_len p.payload t a in
      let y = output_all-IsSame fuel t.0 t.1 ps r b in (y.0 ∙ x.0, y.1 ∙ x.1, y.2 ∙ x.2)
