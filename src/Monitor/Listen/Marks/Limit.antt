-- ===== src/Monitor/Listen/Marks/Limit.antt =====
-- `stop_marked_subscriptions` of src/submgr.cpp, whose arrays have 256 entries.
use sassrv.Base.{
  ℕ, ◌+◌, ◌<◌, ◌≤◌, zero, suc, Bool, true, false, List, [], ◌∷◌, ◌++◌, length, ltb, ◌==◌,
  if◌then◌else◌, Option, none, some, ◌≡◌, ◌≢◌, refl, sym, ap, ◌∙◌, arith, either, length-append,
  append_assoc, append-nil, lt→ltb, ltb→lt, ==→eq,
}
use mathlib.Core.Path.{subst}
use mathlib.Core.Option.{some-injective}
use sassrv.Base.Dict.{Dict}
use sassrv.Monitor.Entry.{Subscription, SessionEntry}
use sassrv.Monitor.Db.{
  Env, Db, Result, returned, null_read, overrun, stuck, ◌>>=◌, not_null, find_name, get_subject,
}
use sassrv.Monitor.Sessions.{entries_of}
use sassrv.Monitor.Listen.Marks.{
  end_max, collect, scan_subs, deref_all, sub_rounds, stop_marked_subscriptions,
}
use sassrv.Monitor.Counting.Calls.{Ends, Ends-bind, Ends-not_null, Ends-returned}

-- The entries of a table that are marked, as far as the subjects are found.
unfoldable pub marked : Db → Dict ℕ → Dict ℕ
marked db [] = []
marked db ((sub_id, sub_hash) ∷ d) = elim (get_subject sub_id sub_hash db.sub_tab) [
  | none ↦ []
  | some s ↦ elim (s.ref_mono == 0) [
    | true ↦ (sub_id, sub_hash) ∷ marked db d
    | false ↦ marked db d
  ]
]

collect_room :
    (ends : Dict ℕ) (e : ℕ × ℕ) (more : Result (Dict ℕ))
    → suc (length ends) < end_max
    → collect ends e more ≡ more
collect_room ends e more h = ground arith

length-snoc : (ends : Dict ℕ) (e : ℕ × ℕ) → length (ends ++ e ∷ []) ≡ suc (length ends)
length-snoc ends e = omega (arith, length-append ends (e ∷ []))

abbrev IsFull : Dict ℕ → Type 0
IsFull e = end_max ≤ length e

collect-IsFull :
    (ends : Dict ℕ) (e : ℕ × ℕ) (more : Result (Dict ℕ))
    → Ends IsFull more
    → Ends IsFull (collect ends e more)
collect-IsFull ends e more h =
    either (Ends IsFull) (ltb (length ends) end_max)
      (if suc (length ends) == end_max then returned (ends ++ e ∷ []) else more) overrun
      (last (suc (length ends) == end_max) refl) tt
  where
    last :
        (b : Bool)
        → (suc (length ends) == end_max) ≡ b
        → Ends IsFull (if b then returned (ends ++ e ∷ []) else more)
    last true t = omega (arith, length-snoc ends e, ==→eq _ _ t)
    last false t = h

scan_subs-next :
    (db : Db) (e : ℕ × ℕ) (d ends : Dict ℕ) (b : Bool)
    → (length (ends ++ e ∷ []) + length (marked db d) < end_max
        → scan_subs db d (ends ++ e ∷ []) ≡ returned ((ends ++ e ∷ []) ++ marked db d))
    → (length ends + length (marked db d) < end_max
        → scan_subs db d ends ≡ returned (ends ++ marked db d))
    → length ends
        + length (elim b as (λ _. Dict ℕ) [ true ↦ e ∷ marked db d | false ↦ marked db d ])
      < end_max
    → (elim b as (λ _. Result (Dict ℕ)) [
      | true ↦ collect ends e (scan_subs db d (ends ++ e ∷ []))
      | false ↦ scan_subs db d ends
    ])
      ≡ returned
          (ends ++ (elim b as (λ _. Dict ℕ) [ true ↦ e ∷ marked db d | false ↦ marked db d ]))
scan_subs-next db e d ends true with_e without h =
    collect_room ends e (scan_subs db d (ends ++ e ∷ [])) (omega arith)
    ∙ with_e (omega (arith, length-snoc ends e))
    ∙ ap returned (append_assoc ends (e ∷ []) (marked db d))
scan_subs-next db e d ends false with_e without h = without h

-- With room for all that are marked, the inner loop collects them.
scan_subs-marked :
    (db : Db) (d ends : Dict ℕ)
    → length ends + length (marked db d) < end_max
    → scan_subs db d ends ≡ returned (ends ++ marked db d)
unfolding scan_subs marked
scan_subs-marked db [] ends h = ap returned (sym (append-nil ends))
scan_subs-marked db ((sub_id, sub_hash) ∷ d) ends h =
    at (get_subject sub_id sub_hash db.sub_tab)
      (λ b.
        scan_subs-next db e d ends b (scan_subs-marked db d (ends ++ e ∷ []))
          (scan_subs-marked db d ends))
      h
  where
    e : ℕ × ℕ
    e = (sub_id, sub_hash)

    kept : Option Subscription → Dict ℕ
    kept none = []
    kept (some s) = elim (s.ref_mono == 0) [ true ↦ e ∷ marked db d | false ↦ marked db d ]

    scanned : Option Subscription → Result (Dict ℕ)
    scanned none = returned ends
    scanned (some s) = elim (s.ref_mono == 0) [
      | true ↦ collect ends e (scan_subs db d (ends ++ e ∷ []))
      | false ↦ scan_subs db d ends
    ]

    at :
        (o : Option Subscription)
        → ((b : Bool)
            → length ends
                + length (elim b as (λ _. Dict ℕ) [ true ↦ e ∷ marked db d | false ↦ marked db d ])
              < end_max
            → (elim b as (λ _. Result (Dict ℕ)) [
              | true ↦ collect ends e (scan_subs db d (ends ++ e ∷ []))
              | false ↦ scan_subs db d ends
            ])
              ≡ returned (
                  ends
                  ++ (elim b as (λ _. Dict ℕ) [ true ↦ e ∷ marked db d | false ↦ marked db d ])))
        → length ends + length (kept o) < end_max
        → scanned o ≡ returned (ends ++ kept o)
    at none next k = ap returned (sym (append-nil ends))
    at (some s) next k = next (s.ref_mono == 0) k

scan_subs-next-IsFull :
    (db : Db) (e : ℕ × ℕ) (d ends : Dict ℕ) (b : Bool)
    → (end_max ≤ length (ends ++ e ∷ []) + length (marked db d)
        → Ends IsFull (scan_subs db d (ends ++ e ∷ [])))
    → (end_max ≤ length ends + length (marked db d) → Ends IsFull (scan_subs db d ends))
    → end_max
      ≤ length ends
        + length (elim b as (λ _. Dict ℕ) [ true ↦ e ∷ marked db d | false ↦ marked db d ])
    → Ends IsFull (elim b as (λ _. Result (Dict ℕ)) [
      | true ↦ collect ends e (scan_subs db d (ends ++ e ∷ []))
      | false ↦ scan_subs db d ends
    ])
scan_subs-next-IsFull db e d ends true with_e without h =
    collect-IsFull ends e (scan_subs db d (ends ++ e ∷ []))
      (with_e (omega (arith, length-snoc ends e)))
scan_subs-next-IsFull db e d ends false with_e without h = without h

-- Without, it ends with an array that is full, or writes past it.
scan_subs-IsFull :
    (db : Db) (d ends : Dict ℕ)
    → end_max ≤ length ends + length (marked db d)
    → Ends IsFull (scan_subs db d ends)
unfolding scan_subs marked
scan_subs-IsFull db [] ends h = omega arith
scan_subs-IsFull db ((sub_id, sub_hash) ∷ d) ends h =
    at (get_subject sub_id sub_hash db.sub_tab)
      (λ b.
        scan_subs-next-IsFull db e d ends b (scan_subs-IsFull db d (ends ++ e ∷ []))
          (scan_subs-IsFull db d ends))
      h
  where
    e : ℕ × ℕ
    e = (sub_id, sub_hash)

    kept : Option Subscription → Dict ℕ
    kept none = []
    kept (some s) = elim (s.ref_mono == 0) [ true ↦ e ∷ marked db d | false ↦ marked db d ]

    scanned : Option Subscription → Result (Dict ℕ)
    scanned none = returned ends
    scanned (some s) = elim (s.ref_mono == 0) [
      | true ↦ collect ends e (scan_subs db d (ends ++ e ∷ []))
      | false ↦ scan_subs db d ends
    ]

    at :
        (o : Option Subscription)
        → ((b : Bool)
            → end_max
              ≤ length ends
                + length (elim b as (λ _. Dict ℕ) [ true ↦ e ∷ marked db d | false ↦ marked db d ])
            → Ends IsFull (elim b as (λ _. Result (Dict ℕ)) [
              | true ↦ collect ends e (scan_subs db d (ends ++ e ∷ []))
              | false ↦ scan_subs db d ends
            ]))
        → end_max ≤ length ends + length (kept o)
        → Ends IsFull (scanned o)
    at none next k = omega arith
    at (some s) next k = next (s.ref_mono == 0) k

Ends-any : {A : Type 0} (r : Result A) → Ends (λ _. Unit) r
Ends-any (returned a) = tt
Ends-any null_read = tt
Ends-any overrun = tt
Ends-any stuck = tt

module _ (E : Env) where
  abbrev Never : Result Db → Type 0
  Never r = Ends (λ _. ⊥) r

  -- Once the array is full, no round is the last.
  sub_rounds-Never :
      (fuel : ℕ) (name : List ℕ) (ends : Dict ℕ) (db : Db)
      → ((sess : SessionEntry)
          → find_name name db.session_tab ≡ some sess
          → end_max ≤ length ends + length (marked db (entries_of sess.sub_ht)))
      → Never (sub_rounds E fuel name ends db)
  unfolding sub_rounds
  sub_rounds-Never zero name ends db h = tt
  sub_rounds-Never (suc fuel) name ends db h =
      Ends-not_null (λ _. ⊥) (find_name name db.session_tab) _
        (λ sess found.
          Ends-bind IsFull (λ _. ⊥) (scan_subs db (entries_of sess.sub_ht) ends) _
            (scan_subs-IsFull db (entries_of sess.sub_ht) ends (h sess found))
            (λ ends' full.
              Ends-bind (λ _. Unit) (λ _. ⊥) (deref_all E name ends' db) _
                (Ends-any (deref_all E name ends' db))
                (λ db' _.
                  again ends' db' full (sub_rounds-Never fuel name ends' db' (λ s at. omega arith))
                    (ltb (length ends') end_max) refl)))
    where
      again :
          (ends' : Dict ℕ) (db' : Db)
          → IsFull ends'
          → Never (sub_rounds E fuel name ends' db')
          → (b : Bool) → ltb (length ends') end_max ≡ b
          → Never (elim b as (λ _. Result Db) [
            | true ↦ returned db'
            | false ↦ sub_rounds E fuel name ends' db'
          ])
      again ends' db' full next true t = absurd (omega (arith, ltb→lt _ _ t))
      again ends' db' full next false t = next

  bind_last :
      (r : Result Db) (b : Bool) (next : Db → Result Db)
      → b ≡ true
      → (r >>= λ d. elim b as (λ _. Result Db) [ true ↦ returned d | false ↦ next d ]) ≡ r
  bind_last (returned d) true next t = refl
  bind_last (returned d) false next t = cc
  bind_last null_read b next t = refl
  bind_last overrun b next t = refl
  bind_last stuck b next t = refl

  -- Fewer than 256 marked subjects of a session are dropped, each of them, in one round; with 256
  -- or more the call never returns, however long it runs: it writes past its arrays, or goes on for
  -- ever.
  pub stop_marked_subscriptions_lem :
      (name : List ℕ) (sess : SessionEntry) (db : Db)
      → find_name name db.session_tab ≡ some sess
      → (length (marked db (entries_of sess.sub_ht)) < end_max
          → (fuel : ℕ)
          → stop_marked_subscriptions E (suc fuel) name db
            ≡ deref_all E name (marked db (entries_of sess.sub_ht)) db)
        × (end_max ≤ length (marked db (entries_of sess.sub_ht))
            → (fuel : ℕ) (r : Db) → stop_marked_subscriptions E fuel name db ≢ returned r)
  unfolding sub_rounds
  stop_marked_subscriptions_lem name sess db found = (
    (λ few fuel.
        let table = entries_of sess.sub_ht in
        let ends = marked db table in
        ap (λ o. not_null o >>= λ s. round fuel s) found
        ∙ ap (λ r. r >>= λ e. finish fuel e) (scan_subs-marked db table [] (omega arith))
        ∙ bind_last (deref_all E name ends db) (ltb (length ends) end_max)
            (λ d. sub_rounds E fuel name ends d) (lt→ltb _ _ few)),
    λ many fuel r e.
        Ends-returned (λ _. ⊥) (stop_marked_subscriptions E fuel name db) r e
          (sub_rounds-Never fuel name [] db (λ s at.
            subst (λ x. end_max ≤ 0 + length (marked db (entries_of x.sub_ht)))
              (some-injective _ _ (sym found ∙ at)) (omega arith))),
  )
    where
      finish : ℕ → Dict ℕ → Result Db
      finish fuel ends' = deref_all E name ends' db >>= λ db'. elim (ltb (length ends') end_max) [
        | true ↦ returned db'
        | false ↦ sub_rounds E fuel name ends' db'
      ]

      round : ℕ → SessionEntry → Result Db
      round fuel s = scan_subs db (entries_of s.sub_ht) [] >>= λ ends'. finish fuel ends'
