-- ===== src/Monitor/Counting/Listening/Added.antt =====
-- `listen_ref` of src/submgr.cpp keeps the tables valid.
use sassrv.Base.{
  ℕ, ◌+◌, ◌%◌, Bool, true, false, List, ◌==◌, if◌then◌else◌, some, ◌≡◌, refl, sym, ap, ◌∙◌,
  Bool-cases, inl, inr, either, if_either,
}
use mathlib.Core.Path.{subst}
use mathlib.Core.Option.{some-injective}
use sassrv.Base.Dict.{Dict, contains, put}
use sassrv.Monitor.Entry.{
  Subscription, SessionEntry, more_ref, mark7, put_counts, add_subject, subject_added, refcnt_mod,
}
use sassrv.Monitor.Db.{Env, Db, find_name, find_sub, update_session, update_sub, host_digest, trim}
use sassrv.Monitor.Listen.{
  Listened, upsert_ref, put_added, listened, first_listened, after_add, listen_ref,
}
use sassrv.Monitor.Counting.{Balanced, IsValid, IsDistinct}
use sassrv.Monitor.Counting.Steps.{IsInjective}
use sassrv.Monitor.Counting.Moves.{Balanced-hold}
use sassrv.Monitor.Counting.Names.{names-update}
use sassrv.Monitor.Counting.Operations.{host_digest-IsNear}
use sassrv.Monitor.Counting.Calls.{Ends, Ends-not_null, IsValid-IsNear}
use sassrv.Monitor.Counting.Listening.{HasRoom, IsSubject, upserted-IsFound, with_table}

module _ (E : Env) (inj : IsInjective E) where
  -- The session takes the subject up: the state after `put_added`.
  held-IsValid :
      (name : List ℕ) (sess : SessionEntry) (script : Subscription) (ht : Dict ℕ) (bit : Bool)
      (db : Db)
      → find_name name db.session_tab ≡ some sess
      → sess.sub_ht ≡ some ht
      → contains script.subject_id ht ≡ false
      → IsSubject db script
      → IsValid E db
      → IsValid E (
          put_added E name
            (record sess { sub_ht = some (put script.subject_id script.hash ht) })
            (mark7 bit true (more_ref script))
            db)
  held-IsValid name sess script ht bit db found table fresh is h =
      let sess' = record sess { sub_ht = some (put script.subject_id script.hash ht) } in
      let script' = mark7 bit true (more_ref script) in
      let same_id : script'.subject_id ≡ script.subject_id =
        if_either (λ s. s.subject_id) script.subject_id bit
          (record (more_ref script) { ref7cnt = true }) (more_ref script) refl refl in
      let more : script'.refcnt ≡ (script.refcnt + 1) % refcnt_mod =
        if_either (λ s. s.refcnt) ((script.refcnt + 1) % refcnt_mod) bit
          (record (more_ref script) { ref7cnt = true }) (more_ref script) refl refl in
      (
        subst
            (λ k.
              Balanced E (update_session name (λ _. sess') db.session_tab)
                (update_sub k (put_counts script') db.sub_tab) db.next_subject_ctr)
            (sym same_id)
            (Balanced-hold E db.session_tab db.sub_tab db.next_subject_ctr name sess sess' ht script
              script' found table refl refl fresh is.0 is.1 more h.0),
        subst IsDistinct
            (sym (
              names-update name (λ _. sess') db.session_tab
                (λ e at. ap (λ x. x.value) (some-injective _ _ (sym found ∙ at)))))
            h.1,
      )

  after_add-IsValid :
      (name : List ℕ) (is_added : Bool) (sess : SessionEntry) (script : Subscription) (db : Db)
      → IsValid E db
      → (is_added ≡ true → IsValid E (put_added E name sess script db))
      → IsValid E (after_add E name is_added sess script db).db
  after_add-IsValid name false sess script db h k = h
  after_add-IsValid name true sess script db h k =
      let put_db = put_added E name sess script db in
      let after = host_digest E sess script.value true put_db in
      let valid =
        IsValid-IsNear E put_db after (host_digest-IsNear E sess script.value true put_db)
          (k refl) in
      either {A = Listened} (λ l. IsValid E l.db) (script.refcnt == 1)
        (first_listened E script after) (listened E true script after) valid valid

  abbrev AddedValid : List ℕ → Db → Bool × SessionEntry × Subscription → Type 0
  AddedValid name db r = IsValid E (after_add E name r.0 r.1 r.2 db).db

  subject_added-IsValid :
      (name : List ℕ) (sess : SessionEntry) (script : Subscription) (ht : Dict ℕ) (db : Db)
      → find_name name db.session_tab ≡ some sess
      → sess.sub_ht ≡ some ht
      → IsSubject db script
      → IsValid E db
      → AddedValid name db (subject_added sess script ht)
  subject_added-IsValid name sess script ht db found table is h =
      let sess' = record sess { sub_ht = some (put script.subject_id script.hash ht) } in
      let script' = mark7 sess.has_daemon true (more_ref script) in
      elim (Bool-cases (contains script.subject_id ht)) [
        | inl t ↦
            subst
              (λ b.
                AddedValid name db (if b then (false, sess, script) else (true, sess', script')))
              (sym t) h
        | inr t ↦
            subst
              (λ b.
                AddedValid name db (if b then (false, sess, script) else (true, sess', script')))
              (sym t)
              (after_add-IsValid name true sess' script' db h
                (λ _. held-IsValid name sess script ht sess.has_daemon db found table t is h))
      ]

  add_to-IsValid :
      (name : List ℕ) (sess : SessionEntry) (script : Subscription) (db : Db)
      → find_name name db.session_tab ≡ some sess
      → IsSubject db script
      → IsValid E db
      → (r : Bool × SessionEntry × Subscription) → add_subject sess script ≡ some r
      → AddedValid name db r
  unfolding add_subject
  add_to-IsValid name sess script db found is h r e =
      let (ht, table, same) = with_table E inj (subject_added sess script) sess.sub_ht r e in
      subst (AddedValid name db) same
        (subject_added-IsValid name sess script ht db found table is h)

  -- `listen_ref`, where the counter of subjects does not wrap.
  pub listen_ref-IsValid :
      (name sub : List ℕ) (db : Db)
      → HasRoom E inj db
      → IsValid E db
      → Ends (λ (l : Listened). IsValid E l.db) (listen_ref E name sub db)
  unfolding listen_ref
  listen_ref-IsValid name sub db room h =
      let r = upsert_ref E (trim E sub) db in
      let (valid, (is, same)) =
        upserted-IsFound E inj (trim E sub) db (find_sub (trim E sub) db.sub_tab) refl room h in
      Ends-not_null (λ (l : Listened). IsValid E l.db) (find_name name db.session_tab) _
        (λ sess found.
          Ends-not_null (λ (l : Listened). IsValid E l.db) (add_subject sess r.0) _
            (λ a done.
              add_to-IsValid name sess r.0 r.1 (ap (find_name name) same ∙ found) is valid a done))
