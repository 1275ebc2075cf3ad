-- ===== src/Monitor/Counting/Listening.antt =====
-- The subject that `listen_ref`, `listen_stop`, `snapshot` and `tic` of src/submgr.cpp find or add.
pub mod Added
pub mod Removed
pub mod Asked
use sassrv.Base.{
  ℕ, ◌+◌, ◌-◌, ◌<◌, add32, u32_mod, true, not, List, [], ◌∷◌, ◌++◌, Option, none, some, ◌≡◌, ◌≢◌,
  refl, sym, ap, All-split, arith,
}
use mathlib.Core.Path.{subst}
use mathlib.Core.Option.{some-injective}
use sassrv.Base.Dict.{Dict}
use sassrv.Monitor.Entry.{Subscription, ref_sub, add_subject, rem_subject}
use sassrv.Monitor.Db.{Env, Db, find_sub, change_sub}
use sassrv.Monitor.Listen.{new_sub, insert_sub}
use sassrv.Monitor.Counting.{holders, HasCount, Balanced, IsValid, knows}
use sassrv.Monitor.Counting.Tables.{find_sub-All, knows-update}
use sassrv.Monitor.Counting.Tables.Held.{knows-snoc}
use sassrv.Monitor.Counting.Steps.{IsInjective, Balanced-keep, Balanced-insert}

-- The subject of a state: one of its entries, by what the tables say of it.
abbrev pub IsSubject : Db → Subscription → Type 0
IsSubject db s =
    (knows s.subject_id s.hash db.sub_tab ≡ true) × HasCount (λ x. holders x db.session_tab) s

none_not_some : {A : Type 0} (a : A) → none ≢ some a
none_not_some a e = cc

module _ (E : Env) (inj : IsInjective E) where
  -- The next identifier is a new one: the counter does not wrap.
  abbrev pub HasRoom : Db → Type 0
  HasRoom db = db.next_subject_ctr + 1 < u32_mod

  -- A subject with a state, and the sessions of the state before.
  abbrev IsFound : Db → Subscription × Db → Type 0
  IsFound db r = IsValid E r.1 × (IsSubject r.1 r.0 × (r.1.session_tab ≡ db.session_tab))

  pub insert_sub-IsFound :
      (sub : List ℕ) (db : Db)
      → HasRoom db
      → IsValid E db
      → IsFound db (new_sub E sub db, insert_sub E sub db)
  insert_sub-IsFound sub db room h =
      let next : add32 db.next_subject_ctr 1 ≡ db.next_subject_ctr + 1 = omega arith in
      let grown =
        Balanced-insert E db.session_tab db.sub_tab db.next_subject_ctr (new_sub E sub db) inj room
          (ap E.kv_hash_uint next) refl h.0 in
      let count =
        All-split (HasCount (λ x. holders x db.session_tab)) db.sub_tab (new_sub E sub db ∷ [])
          grown.0 in
      (
        (
          subst (Balanced E db.session_tab (db.sub_tab ++ new_sub E sub db ∷ [])) (sym next) grown,
          h.1,
        ),
        ((knows-snoc db.sub_tab (new_sub E sub db), count.1.0), refl),
      )

  pub known_sub-IsFound :
      (sub : List ℕ) (s : Subscription) (db : Db)
      → find_sub sub db.sub_tab ≡ some s
      → IsValid E db
      → IsFound db (s, db)
  known_sub-IsFound sub s db found h =
      let (known, count) =
        find_sub-All (HasCount (λ x. holders x db.session_tab)) sub db.sub_tab s found h.0.0 in
      (h, ((known, count), refl))

  ref_sub-IsFound :
      (sub : List ℕ) (s : Subscription) (db : Db)
      → find_sub sub db.sub_tab ≡ some s
      → IsValid E db
      → IsFound db (ref_sub db.cur_mono s, change_sub s.subject_id (ref_sub db.cur_mono) db)
  ref_sub-IsFound sub s db found h =
      let (known, count) =
        find_sub-All (HasCount (λ x. holders x db.session_tab)) sub db.sub_tab s found h.0.0 in
      (
        (
          Balanced-keep E db.session_tab db.sub_tab db.next_subject_ctr s.subject_id
              (ref_sub db.cur_mono) (λ t. (refl, refl)) (λ t. refl) h.0,
          h.1,
        ),
        (
          (
            knows-update s.subject_id s.hash s.subject_id (ref_sub db.cur_mono) db.sub_tab
                (λ t. (refl, refl)) known,
            count,
          ),
          refl,
        ),
      )

  abbrev upserted : List ℕ → Db → Option Subscription → Subscription × Db
  upserted sub db none = (new_sub E sub db, insert_sub E sub db)
  upserted sub db (some s) =
      (ref_sub db.cur_mono s, change_sub s.subject_id (ref_sub db.cur_mono) db)

  pub upserted-IsFound :
      (sub : List ℕ) (db : Db) (o : Option Subscription)
      → find_sub sub db.sub_tab ≡ o
      → HasRoom db
      → IsValid E db
      → IsFound db (upserted sub db o)
  upserted-IsFound sub db none absent room h = insert_sub-IsFound sub db room h
  upserted-IsFound sub db (some s) found room h = ref_sub-IsFound sub s db found h

  -- The table that `add_subject` and `rem_subject` read.
  pub with_table :
      {A : Type 0} (f : Dict ℕ → A) (o : Option (Dict ℕ)) (a : A)
      → (elim o as (λ _. Option A) [ none ↦ none | some ht ↦ some (f ht) ]) ≡ some a
      → (ht : Dict ℕ) × (o ≡ some ht) × (f ht ≡ a)
  with_table f none a e = absurd (none_not_some a e)
  with_table f (some ht) a e = (ht, refl, some-injective _ _ e)
