-- ===== src/Host/Refs/Counting.antt =====
-- In the view of the table as a count for each subject, `add_ref` adds one and `rem_ref` takes away.
use sassrv.Base.{
  ℕ, ◌+◌, ◌-◌, ◌<◌, ◌≡◌, ◌≢◌, refl, sym, ap, ◌∙◌, inl, inr, List, Option, none, some, Bool-cases,
  leb, if◌then◌else◌, add32, u32_mod, arith,
}
use sassrv.Base.Wire.{HashTab}
use sassrv.Host.Refs.{stored, add_ref, rem_found, rem_ref}
use mathlib.Core.Path.{subst}

module _ (H : HashTab (List ℕ) ℕ) where
  -- `r` is the table after the count of `sub` became `n`, and what was returned.
  abbrev pub IsCount : H.Tab → List ℕ → ℕ → H.Tab × ℕ → Type 0
  IsCount t sub n r =
      (r.1 ≡ n)
      × ((stored H r.0 sub ≡ n)
          × ((other : List ℕ) → sub ≢ other → stored H r.0 other ≡ stored H t other))

  -- A subject is in the table when its count is above 0.
  abbrev pub IsClean : H.Tab → Type 0
  IsClean t = (sub : List ℕ) → H.find t sub ≢ some 0

  pub stored-some : (t : H.Tab) (sub : List ℕ) (n : ℕ) → H.find t sub ≡ some n → stored H t sub ≡ n
  stored-some t sub n e = ap (λ o. elim o [ none ↦ 0 | some refcnt ↦ refcnt ]) e

  pub stored-none : (t : H.Tab) (sub : List ℕ) → H.find t sub ≡ none → stored H t sub ≡ 0
  stored-none t sub e = ap (λ o. elim o [ none ↦ 0 | some refcnt ↦ refcnt ]) e

  pub stored-find :
      (t u : H.Tab) (sub : List ℕ) → H.find t sub ≡ H.find u sub → stored H t sub ≡ stored H u sub
  stored-find t u sub e = ap (λ o. elim o [ none ↦ 0 | some refcnt ↦ refcnt ]) e

  add_ref-counts :
      (t : H.Tab) (sub : List ℕ)
      → stored H t sub + 1 < u32_mod
      → IsCount t sub (stored H t sub + 1) (add_ref H t sub)
  unfolding add_ref
  add_ref-counts t sub h =
      let n = add32 (stored H t sub) 1 in
      let fits : n ≡ stored H t sub + 1 = omega (arith, h) in
      (
        fits,
        (
          stored-some (H.set_rsz t sub n) sub n (H.find-set_self t sub n) ∙ fits,
          λ other ne. stored-find (H.set_rsz t sub n) t other (H.find-set_ne t sub other n ne),
        ),
      )

  rem_found-IsCount :
      (t : H.Tab) (sub : List ℕ) (cnt : ℕ) (o : Option ℕ)
      → H.find t sub ≡ o
      → IsCount t sub (stored H t sub - cnt) (rem_found H t sub cnt o)
  rem_found-IsCount t sub cnt none e =
      let z = stored-none t sub e in (omega (arith, z), (omega (arith, z), λ other ne. refl))
  rem_found-IsCount t sub cnt (some n) e =
      let k = stored-some t sub n e in
      elim (Bool-cases (leb n cnt)) [
        | inl b ↦
            subst
              (λ c.
                IsCount t sub (stored H t sub - cnt)
                  (if c then (H.remove t sub, 0) else (H.set_rsz t sub (n - cnt), n - cnt)))
              (sym b)
              (
                ground (arith, k, b),
                (
                  stored-none (H.remove t sub) sub (H.find-remove_self t sub)
                      ∙ ground (arith, k, b),
                  λ other ne.
                      stored-find (H.remove t sub) t other (H.find-remove_ne t sub other ne),
                ),
              )
        | inr b ↦
            subst
              (λ c.
                IsCount t sub (stored H t sub - cnt)
                  (if c then (H.remove t sub, 0) else (H.set_rsz t sub (n - cnt), n - cnt)))
              (sym b)
              (
                omega (arith, k),
                (
                  stored-some (H.set_rsz t sub (n - cnt)) sub (n - cnt)
                        (H.find-set_self t sub (n - cnt))
                      ∙ omega (arith, k),
                  λ other ne.
                      stored-find (H.set_rsz t sub (n - cnt)) t other
                        (H.find-set_ne t sub other (n - cnt) ne),
                ),
              )
      ]

  pub set_rsz-IsClean :
      (t : H.Tab) (sub : List ℕ) (n : ℕ) → 0 < n → IsClean t → IsClean (H.set_rsz t sub n)
  set_rsz-IsClean t sub n h k other e =
      let ne : sub ≢ other = (λ s.
        let stands : some n ≡ some 0 =
          sym (H.find-set_self t sub n) ∙ ap (H.find (H.set_rsz t sub n)) s ∙ e in
        ground (arith, stands, h)) in
      k other (sym (H.find-set_ne t sub other n ne) ∙ e)

  remove-IsClean : (t : H.Tab) (sub : List ℕ) → IsClean t → IsClean (H.remove t sub)
  remove-IsClean t sub k other e =
      let ne : sub ≢ other = (λ s.
        let stands : none ≡ some 0 =
          sym (H.find-remove_self t sub) ∙ ap (H.find (H.remove t sub)) s ∙ e in
        ground (arith, stands)) in
      k other (sym (H.find-remove_ne t sub other ne) ∙ e)

  rem_found-IsClean :
      (t : H.Tab) (sub : List ℕ) (cnt : ℕ) (o : Option ℕ)
      → IsClean t
      → IsClean (rem_found H t sub cnt o).0
  rem_found-IsClean t sub cnt none k = k
  rem_found-IsClean t sub cnt (some n) k = elim (Bool-cases (leb n cnt)) [
    | inl b ↦
        subst
          (λ c.
            let r : H.Tab × ℕ =
              if c then (H.remove t sub, 0) else (H.set_rsz t sub (n - cnt), n - cnt) in
            IsClean r.0)
          (sym b) (remove-IsClean t sub k)
    | inr b ↦
        subst
          (λ c.
            let r : H.Tab × ℕ =
              if c then (H.remove t sub, 0) else (H.set_rsz t sub (n - cnt), n - cnt) in
            IsClean r.0)
          (sym b) (set_rsz-IsClean t sub (n - cnt) (ground (arith, b)) k)
  ]

  -- `add_ref` adds one to the count of its subject, which does not reach 2^32, and returns the new count;
  -- all other counts stay, and a table without counts of 0 stays one.
  pub add_ref-IsCount :
      (t : H.Tab) (sub : List ℕ)
      → stored H t sub + 1 < u32_mod
      → IsClean t
      → IsCount t sub (stored H t sub + 1) (add_ref H t sub) × IsClean (add_ref H t sub).0
  unfolding add_ref
  add_ref-IsCount t sub h k = (
    add_ref-counts t sub h,
    set_rsz-IsClean t sub (add32 (stored H t sub) 1) (omega (arith, h)) k,
  )

  -- `rem_ref` takes its number from the count of its subject, down to 0 at most, and returns the new count;
  -- all other counts stay, and a subject whose count has become 0 is not in the table.
  pub rem_ref-IsCount :
      (t : H.Tab) (sub : List ℕ) (cnt : ℕ)
      → IsClean t
      → IsCount t sub (stored H t sub - cnt) (rem_ref H t sub cnt) × IsClean (rem_ref H t sub cnt).0
  unfolding rem_ref
  rem_ref-IsCount t sub cnt k = (
    rem_found-IsCount t sub cnt (H.find t sub) refl,
    rem_found-IsClean t sub cnt (H.find t sub) k,
  )
