-- ===== src/Monitor/Counting/Listening/Removed.antt =====
-- `deref_subscription` and `listen_stop` of src/submgr.cpp keep the tables valid.
use sassrv.Base.{
  ℕ, ◌+◌, ◌-◌, ◌%◌, Bool, true, false, List, ltb, if◌then◌else◌, Option, none, some, ◌≡◌, refl, sym,
  ap, ◌∙◌, Bool-cases, inl, inr, either, if_either,
}
use mathlib.Core.Path.{subst}
use mathlib.Core.Option.{some-injective}
use sassrv.Base.Dict.{Dict, contains, erase}
use sassrv.Monitor.Entry.{
  Subscription, SessionEntry, less_ref, mark7, put_counts, rem_subject, subject_removed, refcnt_mod,
}
use sassrv.Monitor.Db.{
  Env, Db, returned, ◌>>=◌, find_name, find_sub, update_session, update_sub, change_session,
  host_digest,
}
use sassrv.Monitor.Sessions.{query_session, after_drop}
use sassrv.Monitor.Listen.{
  Listened, new_sub, insert_sub, put_added, after_rem, deref_subscription, orphan, listen_stopped,
  listen_stop,
}
use sassrv.Monitor.Counting.{Balanced, IsValid, IsDistinct}
use sassrv.Monitor.Counting.Steps.{IsInjective}
use sassrv.Monitor.Counting.Moves.{Balanced-drop}
use sassrv.Monitor.Counting.Names.{names-update}
use sassrv.Monitor.Counting.Operations.{
  IsNear-trans, IsNear-session, host_digest-IsNear, after_drop-IsNear, query_session-KeepsTable,
}
use sassrv.Monitor.Counting.Calls.{Ends, Ends-bind, Ends-not_null, IsValid-IsNear}
use sassrv.Monitor.Counting.Listening.{
  HasRoom, IsSubject, insert_sub-IsFound, known_sub-IsFound, with_table,
}

module _ (E : Env) (inj : IsInjective E) where
  -- The session lets the subject go: the state after `put_added`.
  dropped-IsValid :
      (name : List ℕ) (sess : SessionEntry) (script : Subscription) (ht : Dict ℕ) (bit : Bool)
      (db : Db)
      → find_name name db.session_tab ≡ some sess
      → sess.sub_ht ≡ some ht
      → contains script.subject_id ht ≡ true
      → IsSubject db script
      → IsValid E db
      → IsValid E (
          put_added E name
            (record sess { sub_ht = some (erase script.subject_id ht) })
            (mark7 bit false (less_ref script))
            db)
  dropped-IsValid name sess script ht bit db found table held is h =
      let sess' = record sess { sub_ht = some (erase script.subject_id ht) } in
      let script' = mark7 bit false (less_ref script) in
      let same_id : script'.subject_id ≡ script.subject_id =
        if_either (λ s. s.subject_id) script.subject_id bit
          (record (less_ref script) { ref7cnt = false }) (less_ref script) refl refl in
      let less : script'.refcnt ≡ (script.refcnt + refcnt_mod - 1) % refcnt_mod =
        if_either (λ s. s.refcnt) ((script.refcnt + refcnt_mod - 1) % refcnt_mod) bit
          (record (less_ref script) { ref7cnt = false }) (less_ref script) refl refl in
      (
        subst
            (λ k.
              Balanced E (update_session name (λ _. sess') db.session_tab)
                (update_sub k (put_counts script') db.sub_tab) db.next_subject_ctr)
            (sym same_id)
            (Balanced-drop E db.session_tab db.sub_tab db.next_subject_ctr name sess sess' ht script
              script' found table refl refl held is.1 less h.0),
        subst IsDistinct
            (sym (
              names-update name (λ _. sess') db.session_tab
                (λ e at. ap (λ x. x.value) (some-injective _ _ (sym found ∙ at)))))
            h.1,
      )

  abbrev RemovedValid : List ℕ → Db → Bool × SessionEntry × Subscription → Type 0
  RemovedValid name db r = IsValid E (after_rem E name r.0 r.1 r.2 db).db

  subject_removed-IsValid :
      (name : List ℕ) (sess : SessionEntry) (script : Subscription) (ht : Dict ℕ) (db : Db)
      → find_name name db.session_tab ≡ some sess
      → sess.sub_ht ≡ some ht
      → IsSubject db script
      → IsValid E db
      → RemovedValid name db (subject_removed sess script ht)
  subject_removed-IsValid name sess script ht db found table is h =
      let sess' = record sess { sub_ht = some (erase script.subject_id ht) } in
      let script' = mark7 sess.has_daemon false (less_ref script) in
      let put_db = put_added E name sess' script' db in
      let told = host_digest E sess' script'.value false put_db in
      elim (Bool-cases (contains script.subject_id ht)) [
        | inl t ↦
            subst
              (λ b.
                RemovedValid name db (if b then (true, sess', script') else (false, sess, script)))
              (sym t)
              (IsValid-IsNear E put_db (after_drop E sess'.host_id script' told).1
                (IsNear-trans put_db told (after_drop E sess'.host_id script' told).1
                  (host_digest-IsNear E sess' script'.value false put_db)
                  (after_drop-IsNear E sess'.host_id script' told))
                (dropped-IsValid name sess script ht sess.has_daemon db found table t is h))
        | inr t ↦
            subst
              (λ b.
                RemovedValid name db (if b then (true, sess', script') else (false, sess, script)))
              (sym t) h
      ]

  rem_from-IsValid :
      (name : List ℕ) (sess : SessionEntry) (script : Subscription) (db : Db)
      → find_name name db.session_tab ≡ some sess
      → IsSubject db script
      → IsValid E db
      → (r : Bool × SessionEntry × Subscription) → rem_subject sess script ≡ some r
      → RemovedValid name db r
  unfolding rem_subject
  rem_from-IsValid name sess script db found is h r e = elim (Bool-cases (ltb 0 script.refcnt)) [
    | inl t ↦
        let read =
          sym (
            ap
              (λ b.
                if b
                then (elim sess.sub_ht as (λ _. Option (Bool × SessionEntry × Subscription)) [
                  | none ↦ none
                  | some ht ↦ some (subject_removed sess script ht)
                ])
                else some (false, sess, script))
              t)
          ∙ e in
        let (ht, table, same) = with_table E inj (subject_removed sess script) sess.sub_ht r read in
        subst (RemovedValid name db) same
          (subject_removed-IsValid name sess script ht db found table is h)
    | inr t ↦
        let kept =
          sym (
            ap
              (λ b.
                if b
                then (elim sess.sub_ht as (λ _. Option (Bool × SessionEntry × Subscription)) [
                  | none ↦ none
                  | some ht ↦ some (subject_removed sess script ht)
                ])
                else some (false, sess, script))
              t)
          ∙ e in
        subst (RemovedValid name db) (some-injective _ _ kept) h
  ]

  pub deref_subscription-IsValid :
      (name : List ℕ) (script : Subscription) (db : Db)
      → IsSubject db script
      → IsValid E db
      → Ends (λ (l : Listened). IsValid E l.db) (deref_subscription E name script db)
  unfolding deref_subscription
  deref_subscription-IsValid name script db is h =
      Ends-not_null (λ (l : Listened). IsValid E l.db) (find_name name db.session_tab) _
        (λ sess found.
          Ends-not_null (λ (l : Listened). IsValid E l.db) (rem_subject sess script) _
            (λ r done. rem_from-IsValid name sess script db found is h r done))

  listen_stopped-IsValid :
      (name : List ℕ) (l : Listened) → IsValid E l.db → IsValid E (listen_stopped E name l).db
  listen_stopped-IsValid name l h =
      either {A = Listened} (λ x. IsValid E x.db) l.flag (record l { flag = false })
        (orphan E name l.script l.db) h
        (IsValid-IsNear E l.db (change_session name query_session l.db)
          (IsNear-session name query_session l.db query_session-KeepsTable) h)

  stop_found-IsValid :
      (name sub : List ℕ) (db : Db) (o : Option Subscription)
      → find_sub sub db.sub_tab ≡ o
      → HasRoom E inj db
      → IsValid E db
      → Ends
          (λ (l : Listened). IsValid E l.db)
          (elim o [
            | none ↦ returned (orphan E name (new_sub E sub db) (insert_sub E sub db))
            | some script ↦
                deref_subscription E name script db >>= λ l. returned (listen_stopped E name l)
          ])
  stop_found-IsValid name sub db none absent room h =
      IsValid-IsNear E (insert_sub E sub db)
        (change_session name query_session (insert_sub E sub db))
        (IsNear-session name query_session (insert_sub E sub db) query_session-KeepsTable)
        (insert_sub-IsFound E inj sub db room h).0
  stop_found-IsValid name sub db (some script) found room h =
      Ends-bind (λ (l : Listened). IsValid E l.db) (λ (l : Listened). IsValid E l.db)
        (deref_subscription E name script db) _
        (deref_subscription-IsValid name script db
          (known_sub-IsFound E inj sub script db found h).1.0 h)
        (λ l valid. listen_stopped-IsValid name l valid)

  pub listen_stop-IsValid :
      (name sub : List ℕ) (db : Db)
      → HasRoom E inj db
      → IsValid E db
      → Ends (λ (l : Listened). IsValid E l.db) (listen_stop E name sub db)
  unfolding listen_stop
  listen_stop-IsValid name sub db room h =
      stop_found-IsValid name sub db (find_sub sub db.sub_tab) refl room h
