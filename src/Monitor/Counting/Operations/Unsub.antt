-- ===== src/Monitor/Counting/Operations/Unsub.antt =====
-- `unsub_session` of src/submgr.cpp drops every subject of a session, and its references with it.
use sassrv.Base.{
  ℕ, ◌+◌, ◌-◌, ◌%◌, true, false, [], ◌∷◌, if◌then◌else◌, none, some, ◌≡◌, ◌≢◌, refl, sym, ap, ◌∙◌,
  All, arith, if_either, ==→eq, ne→==, eq→==,
}
use mathlib.Core.Path.{subst}
use sassrv.Base.Dict.{Dict, contains}
use sassrv.Monitor.Entry.{
  Subscription, SessionEntry, refcnt_mod, put_counts, less_ref, mark7, stop_session,
}
use sassrv.Monitor.Db.{
  Env, Db, get_subject, find_name, update_session, update_sub, change_sub, host_digest,
}
use sassrv.Monitor.Sessions.{entries_of, after_drop, drop_subject, unsub_loop, unsub_session}
use sassrv.Monitor.Counting.{
  one_if, held_by, holders, HasCount, IsCount, IsTable, HasTable, knows, IsIssued, IsBalanced,
  names,
}
use sassrv.Monitor.Counting.Names.{names-update}
use sassrv.Monitor.Counting.Tables.{
  holders-update, All-update_session, knows-update, knows-get, get_subject-All,
}
use sassrv.Monitor.Counting.Tables.Held.{
  IsTable_mono, IsCount-update, find_name-All, All-update_sub, All-map,
}
use sassrv.Monitor.Counting.Steps.{IsLike, IsLike-refl, IsLike-trans, tables_mono, is_subject-id}
use sassrv.Monitor.Counting.Moves.{put_counts-Keeps}
use sassrv.Monitor.Counting.Operations.{
  IsNear, IsNear-sub, IsNear-trans, after_drop-IsNear, host_digest-IsNear, tell-IsNear,
}

module _ (E : Env) where
  abbrev left_of : SessionEntry → Subscription → Subscription
  left_of sess sub = less_ref (mark7 sess.has_daemon false sub)

  abbrev dropped : SessionEntry → Subscription → Db → Db
  dropped sess sub db =
      change_sub sub.subject_id (put_counts (left_of sess sub))
        (host_digest E sess sub.value false db)

  drop_subject-IsNear :
      (sess : SessionEntry) (sub : Subscription) (db : Db)
      → IsNear
          (change_sub sub.subject_id (put_counts (left_of sess sub)) db)
          (drop_subject E sess sub db)
  drop_subject-IsNear sess sub db =
      IsNear-trans (change_sub sub.subject_id (put_counts (left_of sess sub)) db)
        (dropped sess sub db) (drop_subject E sess sub db)
        (IsNear-sub sub.subject_id (put_counts (left_of sess sub)) db
          (host_digest E sess sub.value false db) (host_digest-IsNear E sess sub.value false db))
        (IsNear-trans (dropped sess sub db)
          (after_drop E sess.host_id (left_of sess sub) (dropped sess sub db)).1
          (drop_subject E sess sub db)
          (after_drop-IsNear E sess.host_id (left_of sess sub) (dropped sess sub db))
          (tell-IsNear E _ (after_drop E sess.host_id (left_of sess sub) (dropped sess sub db)).1))

  left_of-refcnt :
      (sess : SessionEntry) (sub : Subscription)
      → (left_of sess sub).refcnt ≡ (sub.refcnt + refcnt_mod - 1) % refcnt_mod
  left_of-refcnt sess sub =
      if_either (λ s. (less_ref s).refcnt) ((sub.refcnt + refcnt_mod - 1) % refcnt_mod)
        sess.has_daemon (record sub { ref7cnt = false }) sub refl refl

  -- What the loop keeps: `c` counts the references that stay, and `d` is what is left of the table.
  record IsDropping (c : ℕ → ℕ) (d : Dict ℕ) (db : Db) : Type 0 where
    counts : IsCount (λ x. c x + one_if (contains x d)) db.sub_tab
    table : IsTable db.sub_tab d
    tables : All (HasTable db.sub_tab) db.session_tab
    issued : All (λ s. IsIssued E db.next_subject_ctr s.subject_id) db.sub_tab

  IsDropping-IsNear :
      (c : ℕ → ℕ) (d : Dict ℕ) (db db' : Db)
      → IsNear db db'
      → IsDropping c d db
      → IsDropping c d db'
  IsDropping-IsNear c d db db' near h = record {
    counts = subst (IsCount (λ x. c x + one_if (contains x d))) (sym near.same_subs) h.counts;
    table = subst (λ subs. IsTable subs d) (sym near.same_subs) h.table;
    tables =
        near.like.same_tables db'.sub_tab
          (subst (λ subs. All (HasTable subs) db.session_tab) (sym near.same_subs) h.tables);
    issued =
        subst (λ subs. All (λ s. IsIssued E db'.next_subject_ctr s.subject_id) subs)
          (sym near.same_subs)
          (subst (λ ctr. All (λ s. IsIssued E ctr s.subject_id) db.sub_tab) (sym near.same_ctr)
            h.issued);
  }

  IsDropping-change :
      (c : ℕ → ℕ) (sub_id sub_hash : ℕ) (d : Dict ℕ) (sess : SessionEntry) (sub : Subscription)
      (db : Db)
      → get_subject sub_id sub_hash db.sub_tab ≡ some sub
      → IsDropping c ((sub_id, sub_hash) ∷ d) db
      → IsDropping c d (change_sub sub.subject_id (put_counts (left_of sess sub)) db)
  IsDropping-change c sub_id sub_hash d sess sub db found h =
      let (is, count) =
        get_subject-All (HasCount (λ x. c x + one_if (contains x ((sub_id, sub_hash) ∷ d)))) sub_id
          sub_hash db.sub_tab sub found h.counts in
      let same : sub.subject_id ≡ sub_id = ==→eq _ _ (is_subject-id sub_id sub_hash sub is) in
      let keep = put_counts-Keeps (left_of sess sub) in
      let known : (i v : ℕ)
          → knows i v db.sub_tab ≡ true
          → knows i v (update_sub sub.subject_id (put_counts (left_of sess sub)) db.sub_tab)
            ≡ true =
        λ i v. knows-update i v sub.subject_id (put_counts (left_of sess sub)) db.sub_tab keep in
      let gone : contains sub.subject_id d ≡ false = ap (λ x. contains x d) same ∙ h.table.0.0 in
      let held : contains sub.subject_id ((sub_id, sub_hash) ∷ d) ≡ true =
        ap (λ b. if b then true else contains sub.subject_id d) (eq→== _ _ same) in
      let fewer : (left_of sess sub).refcnt
          ≡ (c sub.subject_id + one_if (contains sub.subject_id d)) % refcnt_mod =
        omega (arith, left_of-refcnt sess sub, count, ap one_if gone, ap one_if held) in
      let others : (x : ℕ)
          → x ≢ sub.subject_id
          → c x + one_if (contains x d) ≡ c x + one_if (contains x ((sub_id, sub_hash) ∷ d)) =
        λ x ne.
          ap (λ b. c x + one_if (if b then true else contains x d))
            (sym (ne→== x sub_id (λ e. ne (e ∙ sym same)))) in
      record {
        counts =
            IsCount-update (λ x. c x + one_if (contains x ((sub_id, sub_hash) ∷ d)))
              (λ x. c x + one_if (contains x d)) sub.subject_id (put_counts (left_of sess sub))
              db.sub_tab keep (λ t _. fewer) (λ x ne. others x ne) h.counts;
        table =
            IsTable_mono db.sub_tab
              (update_sub sub.subject_id (put_counts (left_of sess sub)) db.sub_tab) known d
              h.table.1;
        tables =
            tables_mono db.sub_tab
              (update_sub sub.subject_id (put_counts (left_of sess sub)) db.sub_tab) db.session_tab
              known h.tables;
        issued =
            All-update_sub (λ s. IsIssued E db.next_subject_ctr s.subject_id) sub.subject_id
              (put_counts (left_of sess sub)) db.sub_tab (λ s i. i) h.issued;
      }

  IsDropping-step :
      (c : ℕ → ℕ) (sub_id sub_hash : ℕ) (d : Dict ℕ) (sess : SessionEntry) (sub : Subscription)
      (db : Db)
      → get_subject sub_id sub_hash db.sub_tab ≡ some sub
      → IsDropping c ((sub_id, sub_hash) ∷ d) db
      → IsDropping c d (drop_subject E sess sub db)
  IsDropping-step c sub_id sub_hash d sess sub db found h =
      IsDropping-IsNear c d (change_sub sub.subject_id (put_counts (left_of sess sub)) db)
        (drop_subject E sess sub db) (drop_subject-IsNear sess sub db)
        (IsDropping-change c sub_id sub_hash d sess sub db found h)

  -- After the loop: nothing of the table is left, and the sessions' tables are as before.
  abbrev IsDropped : (ℕ → ℕ) → Db → Db → Type 0
  IsDropped c db db' = IsDropping c [] db' × IsLike db.session_tab db'.session_tab

  unsub_loop-IsDropped :
      (c : ℕ → ℕ) (d : Dict ℕ) (sess : SessionEntry) (db : Db)
      → IsDropping c d db
      → IsDropped c db (unsub_loop E d sess db)
  unfolding unsub_loop
  unsub_loop-IsDropped c [] sess db h = (h, IsLike-refl db.session_tab)
  unsub_loop-IsDropped c ((sub_id, sub_hash) ∷ d) sess db h =
      let (sub, found) = knows-get sub_id sub_hash db.sub_tab h.table.0.1 in
      let next = drop_subject E sess sub db in
      let (done, like) =
        unsub_loop-IsDropped c d sess next
          (IsDropping-step c sub_id sub_hash d sess sub db found h) in
      subst
        (λ o.
          IsDropped c db
            (elim o [ none ↦ db | some s ↦ unsub_loop E d sess (drop_subject E sess s db) ]))
        (sym found)
        (
          done,
          IsLike-trans db.session_tab next.session_tab (unsub_loop E d sess next).session_tab
              (drop_subject-IsNear sess sub db).like like,
        )

  -- The references that stay when a session stops.
  abbrev others_of : SessionEntry → Db → ℕ → ℕ
  others_of sess db x =
      holders x (update_session sess.value (stop_session db.cur_mono) db.session_tab)

  others_of-held :
      (sess : SessionEntry) (db : Db)
      → find_name sess.value db.session_tab ≡ some sess
      → (x : ℕ) → others_of sess db x + held_by x sess ≡ holders x db.session_tab
  unfolding stop_session
  others_of-held sess db found x =
      omega
        (arith, holders-update x sess.value (stop_session db.cur_mono) db.session_tab sess found)

  others_of-after :
      (sess : SessionEntry) (db db' : Db)
      → find_name sess.value db.session_tab ≡ some sess
      → IsLike db.session_tab db'.session_tab
      → (x : ℕ)
      → holders x (update_session sess.value (stop_session db.cur_mono) db'.session_tab)
        ≡ others_of sess db x
  unfolding stop_session
  others_of-after sess db db' found like x =
      let (e, there, same) = like.same_entry sess.value sess found in
      let held : held_by x e ≡ held_by x sess = ap (λ t. one_if (contains x (entries_of t))) same in
      omega (
        arith,
        held,
        like.same_holders x,
        others_of-held sess db found x,
        holders-update x sess.value (stop_session db.cur_mono) db'.session_tab e there,
      )

  IsDropping-start :
      (sess : SessionEntry) (db : Db)
      → find_name sess.value db.session_tab ≡ some sess
      → IsBalanced E db
      → IsDropping (others_of sess db) (entries_of sess.sub_ht) db
  IsDropping-start sess db found h = record {
    counts =
        All-map (HasCount (λ x. holders x db.session_tab))
          (HasCount (λ x. others_of sess db x + held_by x sess)) db.sub_tab
          (λ s count.
            count ∙ ap (λ n. n % refcnt_mod) (sym (others_of-held sess db found s.subject_id)))
          h.0;
    table = (find_name-All (HasTable db.sub_tab) sess.value db.session_tab sess found h.1.0).0;
    tables = h.1.0;
    issued = h.1.1;
  }

  -- `unsub_session` of a session that is in the table.
  pub unsub_session-IsBalanced :
      (sess : SessionEntry) (db : Db)
      → find_name sess.value db.session_tab ≡ some sess
      → IsBalanced E db
      → IsBalanced E (unsub_session E sess db)
  unfolding unsub_session stop_session
  unsub_session-IsBalanced sess db found h =
      let after = unsub_loop E (entries_of sess.sub_ht) sess db in
      let (done, like) =
        unsub_loop-IsDropped (others_of sess db) (entries_of sess.sub_ht) sess db
          (IsDropping-start sess db found h) in
      (
        All-map (HasCount (λ x. others_of sess db x + one_if (contains {V = ℕ} x [])))
            (HasCount (λ x.
              holders x (update_session sess.value (stop_session db.cur_mono) after.session_tab)))
            after.sub_tab
            (λ s count.
              count
              ∙ ap (λ n. n % refcnt_mod)
                  (omega (arith, others_of-after sess db after found like s.subject_id)))
            done.counts,
        (
          All-update_session (HasTable after.sub_tab) sess.value (stop_session db.cur_mono)
              after.session_tab (λ e _ _. (tt, λ _. refl)) done.tables,
          done.issued,
        ),
      )

  pub unsub_session-names :
      (sess : SessionEntry) (db : Db)
      → find_name sess.value db.session_tab ≡ some sess
      → IsBalanced E db
      → names (unsub_session E sess db).session_tab ≡ names db.session_tab
  unfolding unsub_session stop_session
  unsub_session-names sess db found h =
      let after = unsub_loop E (entries_of sess.sub_ht) sess db in
      let (done, like) =
        unsub_loop-IsDropped (others_of sess db) (entries_of sess.sub_ht) sess db
          (IsDropping-start sess db found h) in
      names-update sess.value (stop_session db.cur_mono) after.session_tab (λ e _. refl)
      ∙ like.same_names
