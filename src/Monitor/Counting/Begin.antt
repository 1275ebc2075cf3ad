-- ===== src/Monitor/Counting/Begin.antt =====
-- The begin of a session, which `session_start` and `session_ref` of src/submgr.cpp share.
pub mod Ref
pub mod Start
use sassrv.Base.{
  ℕ, ◌%◌, add32, Bool, true, false, not, List, [], ◌∷◌, ◌++◌, ◌==◌, if◌then◌else◌, Option, none,
  some, ◌≡◌, refl, sym, ap, ◌∙◌, All-append, Option-cases, inl, inr, if_either,
}
use mathlib.Core.Path.{subst}
use mathlib.Core.Option.{some-injective}
use sassrv.Monitor.Entry.{
  SessionEntry, in_session_state, rv_session_stop, rv_session_cid, rv_session_rv5, rv_session_rv7,
  rv_session_query, start_session, daemon_in, refcnt_mod,
}
use sassrv.Monitor.Db.{Env, Db, find_name}
use sassrv.Monitor.Sessions.{
  entries_of, add_session, upsert_session, blank_session, begun, begin_session, needs_start,
}
use sassrv.Monitor.Counting.{holders, HasCount, HasTable, IsValid, IsDistinct}
use sassrv.Monitor.Counting.Tables.Held.{All-map, find_name-All}
use sassrv.Monitor.Counting.Steps.{is_stopped}
use sassrv.Monitor.Counting.Moves.{Balanced-begin}
use sassrv.Monitor.Counting.Names.{names-update, find_name-new, IsDistinct-new}
use sassrv.Monitor.Counting.Calls.{
  Ends, Ends-not_null, Ends-mono, IsSame, IsSame-IsNear, IsValid-IsNear, HoldsNone, IsGone,
  add_session-IsSame, true_not_false, holders-blank,
}

module _ (E : Env) where
  -- Its state is none that stops a session.
  start_session-runs :
      (host_id cid id now : ℕ) (is_start : Bool) (user : Option (List ℕ)) (s : SessionEntry)
      → is_stopped (start_session host_id cid id now is_start user s) ≡ false
  unfolding start_session
  start_session-runs host_id cid id now is_start user s =
      if_either (λ x. in_session_state x rv_session_stop) false (not (cid == 0)) rv_session_cid
        (if is_start
          then rv_session_rv5
          else (if daemon_in s.value then rv_session_rv7 else rv_session_query))
        refl
        (if_either (λ x. in_session_state x rv_session_stop) false is_start rv_session_rv5
          (if daemon_in s.value then rv_session_rv7 else rv_session_query) refl
          (if_either (λ x. in_session_state x rv_session_stop) false (daemon_in s.value)
            rv_session_rv7 rv_session_query refl refl))

  -- The change of a new session's state, which does not stop it.
  abbrev pub IsAfter : (SessionEntry → SessionEntry) → Type 0
  IsAfter after =
      (s : SessionEntry)
      → ((after s).value ≡ s.value)
        × (((after s).sub_ht ≡ s.sub_ht) × (is_stopped s ≡ false → is_stopped (after s) ≡ false))

  begun-IsValid :
      (host_id cid : ℕ) (name : List ℕ) (is_start : Bool) (user : Option (List ℕ))
      (after : SessionEntry → SessionEntry) (db : Db)
      → IsAfter after
      → IsGone E name db
      → IsValid E (begun E host_id cid name is_start user after db)
  unfolding start_session
  begun-IsValid host_id cid name is_start user after db k h =
      let f : SessionEntry → SessionEntry = λ s.
        after
          (start_session host_id cid (add32 db.next_session_ctr 1) db.cur_mono is_start user s) in
      let runs : (s : SessionEntry) → is_stopped (f s) ≡ false = λ s.
        (k (
            start_session host_id cid (add32 db.next_session_ctr 1) db.cur_mono is_start user
              s)).1.1
          (start_session-runs host_id cid (add32 db.next_session_ctr 1) db.cur_mono is_start user
            s) in
      (
        Balanced-begin E db.session_tab db.sub_tab db.next_subject_ctr name f h.1
            (λ e.
              ap entries_of
                (k (
                  start_session host_id cid (add32 db.next_session_ctr 1) db.cur_mono is_start user
                    e)).1.0)
            (λ e stop. absurd (true_not_false (sym stop ∙ runs e))) h.0.0,
        subst IsDistinct
            (sym (
              names-update name f db.session_tab (λ e _.
                (k (
                  start_session host_id cid (add32 db.next_session_ctr 1) db.cur_mono is_start user
                    e)).0)))
            h.0.1,
      )

  pub begin_session-IsValid :
      (i host_id cid : ℕ) (name : List ℕ) (is_start : Bool) (user : Option (List ℕ))
      (after : SessionEntry → SessionEntry) (db : Db)
      → IsAfter after
      → IsGone E name db
      → Ends (IsValid E) (begin_session E i host_id cid name is_start user after db)
  begin_session-IsValid i host_id cid name is_start user after db k h =
      let db' = begun E host_id cid name is_start user after db in
      Ends-not_null (IsValid E) (find_name name db'.session_tab) (λ s. add_session E i s db')
        (λ s _.
          Ends-mono (IsSame db') (IsValid E) (add_session E i s db')
            (λ d same.
              IsValid-IsNear E db' d (IsSame-IsNear db' d same)
                (begun-IsValid host_id cid name is_start user after db k h))
            (add_session-IsSame E i s db'))

  blank-IsValid :
      (name : List ℕ) (hash : ℕ) (db : Db)
      → find_name name db.session_tab ≡ none
      → IsValid E db
      → IsGone E name (record db { session_tab = db.session_tab ++ blank_session hash name ∷ [] })
  blank-IsValid name hash db absent h =
      let new = blank_session hash name in
      (
        (
          (
            All-map (HasCount (λ x. holders x db.session_tab))
                (HasCount (λ x. holders x (db.session_tab ++ new ∷ []))) db.sub_tab
                (λ s count.
                  count
                  ∙ ap (λ n. n % refcnt_mod)
                      (sym (holders-blank s.subject_id db.session_tab new refl)))
                h.0.0,
            (
              All-append (HasTable db.sub_tab) db.session_tab (new ∷ []) h.0.1.0
                  ((tt, λ _. refl), tt),
              h.0.1.1,
            ),
          ),
          IsDistinct-new db.session_tab new absent h.1,
        ),
        λ e found.
            ap (λ x. entries_of x.sub_ht)
              (sym (find_name-new name db.session_tab new e absent found)),
      )

  pub upsert_session-IsValid :
      (name : List ℕ) (db : Db) → IsValid E db → IsValid E (upsert_session E name db)
  upsert_session-IsValid name db h = elim (Option-cases (find_name name db.session_tab)) [
    | inl absent ↦
        subst (λ o. IsValid E (upserted o)) (sym absent)
          (blank-IsValid name (E.kv_crc_c name 0) db absent h).0
    | inr present ↦ subst (λ o. IsValid E (upserted o)) (sym present.1) h
  ]
    where
      upserted : Option SessionEntry → Db
      upserted none = record db {
        session_tab = db.session_tab ++ blank_session (E.kv_crc_c name 0) name ∷ [];
      }
      upserted (some s) = db

  pub listen_stopped-HoldsNone :
      (name : List ℕ) (db : Db) (old : SessionEntry)
      → find_name name db.session_tab ≡ some old
      → is_stopped old ≡ true
      → IsValid E db
      → HoldsNone name db
  listen_stopped-HoldsNone name db old present stop h e found =
      let same : old ≡ e = some-injective _ _ (sym present ∙ found) in
      let quiet = (find_name-All (HasTable db.sub_tab) name db.session_tab e found h.0.1.0).1 in
      ap entries_of (quiet (ap is_stopped (sym same) ∙ stop))

  -- A session that is not there is added; one that has stopped holds nothing.
  pub upsert_session-IsGone :
      (name : List ℕ) (db : Db)
      → IsValid E db
      → needs_start E (find_name name db.session_tab) ≡ true
      → IsGone E name (upsert_session E name db)
  upsert_session-IsGone name db h listen_stopped =
      elim (Option-cases (find_name name db.session_tab)) [
        | inl absent ↦
            subst (λ o. IsGone E name (upserted o)) (sym absent)
              (blank-IsValid name (E.kv_crc_c name 0) db absent h)
        | inr present ↦
            subst (λ o. IsGone E name (upserted o)) (sym present.1)
              (
                h,
                listen_stopped-HoldsNone name db present.0 present.1
                    (sym (ap (needs_start E) present.1) ∙ listen_stopped) h,
              )
      ]
    where
      upserted : Option SessionEntry → Db
      upserted none = record db {
        session_tab = db.session_tab ++ blank_session (E.kv_crc_c name 0) name ∷ [];
      }
      upserted (some s) = db
