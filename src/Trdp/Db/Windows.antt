-- ===== src/Trdp/Db/Windows.antt =====
-- The windows behind the hash table: one for each source, and a datagram changes its own only.
use sassrv.Base.{
  ℕ, ◌<◌, ◌≡◌, ◌≢◌, refl, sym, ap, ◌∙◌, inl, inr, some, none, List, [], ◌∷◌, arith, length,
  length-append, length-set, get_or-set_self, get_or-set_ne, get_or-append_left, get_or-append_end,
  Option-cases, drop,
}
use mathlib.Core.Path.{subst}
use mathlib.Core.Option as Option
use native.Mathlib.Decide.{ℕ_discrete}
use sassrv.Base.Wire.{Decoder, HashTab}
use sassrv.Trdp.Header.{Hdr, Tsid, tsid, hdr_type, data_type, nak_type, trdp_data_hdr_size}
use sassrv.Trdp.Window.{Window, done, ◌>>=◌, packet}
use sassrv.Trdp.Window.Sorted.{IsValid, Fits}
use sassrv.Trdp.Output.{Sink}
use sassrv.Trdp.Output.Same.{>>=-done}
use sassrv.Trdp.Db.Source.{IsOf, on_data-IsOf}
use sassrv.Trdp.Db.{
  Db, table, add_window, get_window, window_at, put_window, count_nak, on_data, process_hdr,
}

pub Tsid-discrete : Discrete Tsid
Tsid-discrete = hlevel ℕ_discrete

module _ (H : HashTab Tsid ℕ) (blank : Window) where
  -- The table leads each source that it knows to a window of that source, with a valid queue.
  abbrev pub IsDb : Db H → Type 0
  IsDb db =
      (t : Tsid) (k : ℕ)
      → H.find (table H blank db) t ≡ some k
      → (k < length db.windows) × IsOf t (window_at H blank db k)

  -- The abstract view: the window of each source, a blank one if nothing has come from it.
  abbrev pub window_of : Db H → Tsid → Window
  window_of db t = elim (H.find (table H blank db) t) [
    | none ↦ record blank { tsid = t }
    | some k ↦ window_at H blank db k
  ]

  window_of-some :
      (db : Db H) (t : Tsid) (k : ℕ)
      → H.find (table H blank db) t ≡ some k
      → window_of db t ≡ window_at H blank db k
  window_of-some db t k e = rw (e, window_of)

  window_of-none :
      (db : Db H) (t : Tsid)
      → H.find (table H blank db) t ≡ none
      → window_of db t ≡ record blank { tsid = t }
  window_of-none db t e = rw (e, window_of)

  -- What `get_window` gives: a good table again, in which `k` is the window of `t` and every
  -- source's window is as before.
  pub record IsGot (db : Db H) (t : Tsid) (r : Db H × ℕ) : Type 0 where
    pub good : IsDb r.0
    pub found : H.find (table H blank r.0) t ≡ some r.1
    pub same : (u : Tsid) → window_of r.0 u ≡ window_of db u
    pub sink_lem : r.0.sink ≡ db.sink

  add_find_ne :
      (db : Db H) (t u : Tsid)
      → t ≢ u
      → H.find (table H blank (add_window H blank db t)) u ≡ H.find (table H blank db) u
  add_find_ne db t u ne = H.find-set_ne (table H blank db) t u (length db.windows) ne

  add_window_at :
      (db : Db H) (t : Tsid) (k : ℕ)
      → k < length db.windows
      → window_at H blank (add_window H blank db t) k ≡ window_at H blank db k
  add_window_at db t k h = get_or-append_left db.windows (record blank { tsid = t } ∷ []) k blank h

  add-IsDb : (db : Db H) (t : Tsid) → IsValid blank → IsDb db → IsDb (add_window H blank db t)
  add-IsDb db t b g u k e = elim (Tsid-discrete t u) [
    | yes same ↦
        let here : length db.windows ≡ k = Option.some-injective _ _ (
          sym (H.find-set_self (table H blank db) t (length db.windows))
          ∙ ap (H.find (table H blank (add_window H blank db t))) same
          ∙ e) in
        let end = get_or-append_end db.windows (record blank { tsid = t }) blank in
        let w : IsOf u (record blank { tsid = t }) = (same, b) in
        (
          omega (arith, length-append db.windows (record blank { tsid = t } ∷ [])),
          subst (λ i. IsOf u (window_at H blank (add_window H blank db t) i)) here
              (subst (IsOf u) (sym end) w),
        )
    | no ne ↦
        let (lt, w) = g u k (sym (add_find_ne db t u ne) ∙ e) in
        (
          omega (arith, length-append db.windows (record blank { tsid = t } ∷ [])),
          subst (IsOf u) (sym (add_window_at db t k lt)) w,
        )
  ]

  add_same :
      (db : Db H) (t u : Tsid)
      → IsDb db
      → H.find (table H blank db) t ≡ none
      → window_of (add_window H blank db t) u ≡ window_of db u
  add_same db t u g e = elim (Tsid-discrete t u) [
    | yes same ↦
        window_of-some (add_window H blank db t) u (length db.windows) (
          ap (H.find (table H blank (add_window H blank db t))) (sym same)
          ∙ H.find-set_self (table H blank db) t (length db.windows))
        ∙ get_or-append_end db.windows (record blank { tsid = t }) blank
        ∙ sym (window_of-none db t e)
        ∙ ap (window_of db) same
    | no ne ↦ elim (Option-cases (H.find (table H blank db) u)) [
      | inl n ↦
          window_of-none (add_window H blank db t) u (add_find_ne db t u ne ∙ n)
          ∙ sym (window_of-none db u n)
      | inr (k, n) ↦
          window_of-some (add_window H blank db t) u k (add_find_ne db t u ne ∙ n)
          ∙ add_window_at db t k (g u k n).0
          ∙ sym (window_of-some db u k n)
    ]
  ]

  pub get_window-IsGot :
      (db : Db H) (t : Tsid) → IsValid blank → IsDb db → IsGot db t (get_window H blank db t)
  unfolding get_window
  get_window-IsGot db t b g = elim (Option-cases (H.find (table H blank db) t)) [
    | inl e ↦
        rw (e, get_window)
          (record {
            good = add-IsDb db t b g;
            found = H.find-set_self (table H blank db) t (length db.windows);
            same = λ u. add_same db t u g e;
            sink_lem = refl;
          })
    | inr (k, e) ↦
        rw (e, get_window) (record { good = g; found = e; same = λ u. refl; sink_lem = refl })
  ]

  -- What a write to the window of `t` does: that window is the new one, and no other changes.
  pub record IsPut (db : Db H) (t : Tsid) (s : Sink) (w : Window) (out : Db H) : Type 0 where
    pub good : IsDb out
    pub own : window_of out t ≡ w
    pub others : (u : Tsid) → t ≢ u → window_of out u ≡ window_of db u
    pub sink_lem : out.sink ≡ s

  index-ne :
      (db : Db H) (t u : Tsid) (j k : ℕ)
      → IsDb db
      → t ≢ u
      → H.find (table H blank db) t ≡ some j
      → H.find (table H blank db) u ≡ some k
      → j ≢ k
  index-ne db t u j k g ne a b e =
      ne (sym (g t j a).1.0 ∙ ap (λ i. (window_at H blank db i).tsid) e ∙ (g u k b).1.0)

  put-IsDb :
      (db : Db H) (t : Tsid) (k : ℕ) (r : Sink × Window)
      → IsDb db
      → H.find (table H blank db) t ≡ some k
      → IsOf t r.1
      → IsDb (put_window H blank db k r)
  put-IsDb db t k r g f w u j e = elim (Tsid-discrete t u) [
    | yes same ↦
        let here : k ≡ j =
          Option.some-injective _ _ (sym f ∙ ap (H.find (table H blank db)) same ∙ e) in
        (
          omega (arith, (g u j e).0, length-set db.windows k r.1),
          subst (λ i. IsOf u (window_at H blank (put_window H blank db k r) i)) here
              (subst (IsOf u) (sym (get_or-set_self db.windows k r.1 blank (g t k f).0))
                (subst (λ a. IsOf a r.1) same w)),
        )
    | no ne ↦ (
      omega (arith, (g u j e).0, length-set db.windows k r.1),
      subst (IsOf u) (sym (get_or-set_ne db.windows k j r.1 blank (index-ne db t u k j g ne f e)))
          (g u j e).1,
    )
  ]

  put_others :
      (db : Db H) (t : Tsid) (k : ℕ) (r : Sink × Window) (u : Tsid)
      → IsDb db
      → H.find (table H blank db) t ≡ some k
      → t ≢ u
      → window_of (put_window H blank db k r) u ≡ window_of db u
  put_others db t k r u g f ne = elim (Option-cases (H.find (table H blank db) u)) [
    | inl n ↦ window_of-none (put_window H blank db k r) u n ∙ sym (window_of-none db u n)
    | inr (j, n) ↦
        window_of-some (put_window H blank db k r) u j n
        ∙ get_or-set_ne db.windows k j r.1 blank (index-ne db t u k j g ne f n)
        ∙ sym (window_of-some db u j n)
  ]

  pub put_window-IsPut :
      (db : Db H) (t : Tsid) (k : ℕ) (r : Sink × Window)
      → IsDb db
      → H.find (table H blank db) t ≡ some k
      → IsOf t r.1
      → IsPut db t r.0 r.1 (put_window H blank db k r)
  put_window-IsPut db t k r g f w = record {
    good = put-IsDb db t k r g f w;
    own =
        window_of-some (put_window H blank db k r) t k f
        ∙ get_or-set_self db.windows k r.1 blank (g t k f).0;
    others = λ u ne. put_others db t k r u g f ne;
    sink_lem = refl;
  }

  update-IsPut :
      (db : Db H) (t : Tsid) (r : Sink × Window)
      → IsValid blank
      → IsDb db
      → IsOf t r.1
      → let (db', k) = get_window H blank db t in IsPut db t r.0 r.1 (put_window H blank db' k r)
  update-IsPut db t r b g w =
      let got = get_window-IsGot db t b g in
      let (db', k) = get_window H blank db t in
      let p = put_window-IsPut db' t k r got.good got.found w in
      record {
        good = p.good;
        own = p.own;
        others = λ u ne. p.others u ne ∙ got.same u;
        sink_lem = p.sink_lem;
      }

  -- The window that `get_window` finds, as the abstract view has it.
  got_window :
      (db : Db H) (t : Tsid)
      → IsValid blank
      → IsDb db
      → let (db', k) = get_window H blank db t in
        (window_at H blank db' k ≡ window_of db t)
        × IsOf t (window_at H blank db' k)
        × (db'.sink ≡ db.sink)
  got_window db t b g =
      let got = get_window-IsGot db t b g in
      let (db', k) = get_window H blank db t in
      (
        sym (window_of-some db' t k got.found) ∙ got.same t,
        (got.good t k got.found).1,
        got.sink_lem,
      )

  pub process_data :
      (md : Decoder) (fuel now : ℕ) (db out : Db H) (msg : List ℕ) (hdr : Hdr)
      → IsValid blank
      → IsDb db
      → Fits (packet hdr (drop trdp_data_hdr_size msg) now)
      → hdr_type hdr ≡ data_type
      → process_hdr H blank md fuel now db msg hdr ≡ done out
      → (r : Sink × Window) × (on_data md fuel now db.sink
            (window_of db (tsid hdr))
            hdr
            (drop trdp_data_hdr_size msg)
          ≡ done r)
        × IsPut db (tsid hdr) r.0 r.1 out
  unfolding process_hdr
  process_data md fuel now db out msg hdr b g f t h =
      let (at_own, own, sink) = got_window db (tsid hdr) b g in
      let (db', k) = get_window H blank db (tsid hdr) in
      let payload = drop trdp_data_hdr_size msg in
      let h' : (on_data md fuel now db'.sink (window_at H blank db' k) hdr payload >>= λ r.
      done (put_window H blank db' k r))
          ≡ done out =
        ground arith in
      let (r, a, e) =
        >>=-done (on_data md fuel now db'.sink (window_at H blank db' k) hdr payload) h' in
      let w =
        on_data-IsOf md fuel now db'.sink (tsid hdr) (window_at H blank db' k) hdr payload r f own
          a in
      let same : put_window H blank db' k r ≡ out = ground arith in
      (
        r,
        subst (λ (s : Sink). on_data md fuel now s (window_of db (tsid hdr)) hdr payload ≡ done r)
            sink (subst (λ v. on_data md fuel now db'.sink v hdr payload ≡ done r) at_own a),
        subst (IsPut db (tsid hdr) r.0 r.1) same (update-IsPut db (tsid hdr) r b g w),
      )

  pub process_nak :
      (md : Decoder) (fuel now : ℕ) (db out : Db H) (msg : List ℕ) (hdr : Hdr)
      → IsValid blank
      → IsDb db
      → hdr_type hdr ≡ nak_type
      → process_hdr H blank md fuel now db msg hdr ≡ done out
      → IsPut db (tsid hdr) db.sink (count_nak H blank (window_of db (tsid hdr))) out
  unfolding process_hdr
  process_nak md fuel now db out msg hdr b g t h =
      let (at_own, own, sink) = got_window db (tsid hdr) b g in
      let (db', k) = get_window H blank db (tsid hdr) in
      let w = count_nak H blank (window_at H blank db' k) in
      let same : put_window H blank db' k (db'.sink, w) ≡ out = ground arith in
      let put =
        subst (IsPut db (tsid hdr) db'.sink w) same
          (update-IsPut db (tsid hdr) (db'.sink, w) b g own) in
      subst (λ (s : Sink). IsPut db (tsid hdr) s (count_nak H blank (window_of db (tsid hdr))) out)
        sink (subst (λ v. IsPut db (tsid hdr) db'.sink (count_nak H blank v) out) at_own put)
