-- ===== src/Trdp/Db/Datagram.antt =====
-- What a whole datagram does: only the window of its source changes, and every window stays good.
use sassrv.Base.{
  ℕ, ◌≡◌, ◌≢◌, inl, inr, refl, sym, Option, some, none, List, All, arith, ◌==◌, drop, Bool-cases,
  Option-cases,
}
use mathlib.Core.Path.{subst}
use sassrv.Base.Wire.{Decoder, HashTab}
use sassrv.Trdp.Header.{Hdr, Tsid, tsid, copy_in, hdr_type, data_type, nak_type, trdp_data_hdr_size}
use sassrv.Trdp.Header.Bounds.{IsByte, copy_in_bounds}
use sassrv.Trdp.Window.{Window, done}
use sassrv.Trdp.Window.Sorted.{IsValid}
use sassrv.Trdp.Output.{Sink}
use sassrv.Trdp.Db.Windows.{IsDb, IsPut, window_of, process_data, process_nak}
use sassrv.Trdp.Db.{Db, on_data, process_hdr, process_msg}

module _ (H : HashTab Tsid ℕ) (blank : Window) where
  -- A datagram that is taken leaves the database good, and every window but its source's alone.
  abbrev pub IsIsolated : Db H → Db H → (Tsid → Type 0) → Type 0
  IsIsolated db out Other =
      IsDb H blank out × ((u : Tsid) → Other u → window_of H blank out u ≡ window_of H blank db u)

  abbrev pub OtherSource : Option Hdr → Tsid → Type 0
  OtherSource none u = Unit {0}
  OtherSource (some hdr) u = tsid hdr ≢ u

  process_hdr-IsIsolated :
      (md : Decoder) (fuel now : ℕ) (db out : Db H) (msg : List ℕ) (hdr : Hdr)
      → IsValid blank
      → IsDb H blank db
      → All IsByte msg
      → copy_in md msg ≡ some hdr
      → process_hdr H blank md fuel now db msg hdr ≡ done out
      → IsIsolated db out (λ u. tsid hdr ≢ u)
  unfolding process_hdr
  process_hdr-IsIsolated md fuel now db out msg hdr b g bytes c h =
      elim (Bool-cases (hdr_type hdr == data_type)) [
        | inl t ↦
            let f = copy_in_bounds md msg hdr bytes c (ground arith) in
            let (r, a, p) =
              process_data H blank md fuel now db out msg hdr b g f (ground arith) h in
            (p.good, p.others)
        | inr nt ↦ elim (Bool-cases (hdr_type hdr == nak_type)) [
          | inl t ↦
              let p = process_nak H blank md fuel now db out msg hdr b g (ground arith) h in
              (p.good, p.others)
          | inr other ↦
              let same : db ≡ out = ground arith in
              subst (λ (d : Db H). IsIsolated db d (λ u. tsid hdr ≢ u)) same (g, λ u ne. refl)
        ]
      ]

  pub process_msg-IsIsolated :
      (md : Decoder) (fuel now : ℕ) (db out : Db H) (msg : List ℕ)
      → IsValid blank
      → IsDb H blank db
      → All IsByte msg
      → process_msg H blank md fuel now db msg ≡ done out
      → IsIsolated db out (OtherSource (copy_in md msg))
  unfolding process_msg
  process_msg-IsIsolated md fuel now db out msg b g bytes h = elim (Option-cases (copy_in md msg)) [
    | inl e ↦
        let same : db ≡ out = ground arith in
        subst (λ (d : Db H). IsIsolated db d (OtherSource (copy_in md msg))) same (g, λ u ne. refl)
    | inr (hdr, e) ↦
        subst (λ (o : Option Hdr). IsIsolated db out (OtherSource o)) (sym e)
          (process_hdr-IsIsolated md fuel now db out msg hdr b g bytes e (ground arith))
  ]

  -- A DATA datagram is `on_data` on the window of its source, and nothing else.
  pub process_msg_data :
      (md : Decoder) (fuel now : ℕ) (db out : Db H) (msg : List ℕ) (hdr : Hdr)
      → IsValid blank
      → IsDb H blank db
      → All IsByte msg
      → copy_in md msg ≡ some hdr
      → hdr_type hdr ≡ data_type
      → process_msg H blank md fuel now db msg ≡ done out
      → (r : Sink × Window) × (on_data md fuel now db.sink
            (window_of H blank db (tsid hdr))
            hdr
            (drop trdp_data_hdr_size msg)
          ≡ done r)
        × IsPut H blank db (tsid hdr) r.0 r.1 out
  unfolding process_msg
  process_msg_data md fuel now db out msg hdr b g bytes c t h =
      process_data H blank md fuel now db out msg hdr b g (copy_in_bounds md msg hdr bytes c t) t
        (ground arith)
