-- ===== src/Monitor/Listen.antt =====
-- The subjects of the monitor: `listen_ref`, `listen_stop`, `deref_subscription`,
-- `get_subscription`, `snapshot`, `tic`, and the marks of the queries, of src/submgr.cpp.
pub mod Marks
use sassrv.Base.{
  ℕ, ◌+◌, Bool, true, false, not, ◌&&◌, List, [], ◌∷◌, ◌++◌, ltb, ◌==◌, if◌then◌else◌, Option, none,
  some, add32,
}
use sassrv.Monitor.Ids.{string_to_host_id}
use sassrv.Monitor.Entry.{
  Subscription, SessionEntry, rv_host_query, start_sub, ref_sub, add_subject, rem_subject,
  put_counts, set_host_state,
}
use sassrv.Monitor.Db.{
  Env, Db, Result, returned, ◌>>=◌, not_null, host_at, put_host, find_name, find_sub,
  change_session, change_sub, add_active, sub_hash_count, trim, host_digest,
}
use sassrv.Monitor.Db.Hosts.{host_ref}
use sassrv.Monitor.Sessions.{get_rv7_session, after_drop, query_session}

-- What `listen_ref` and `listen_stop` give back: the subject and the two flags, `is_added` or
-- `is_orphan` the first.
pub record Listened : Type 0 where
  pub script : Subscription
  pub flag : Bool
  pub coll : Bool
  pub db : Db

module _ (E : Env) where
  -- The entry of a text that is not there, with the next identifier.
  abbrev pub new_sub : List ℕ → Db → Subscription
  new_sub sub db =
      start_sub (E.kv_hash_uint (add32 db.next_subject_ctr 1)) db.cur_mono (E.kv_crc_c sub 0) sub

  abbrev pub insert_sub : List ℕ → Db → Db
  insert_sub sub db = record db {
    sub_tab = db.sub_tab ++ new_sub sub db ∷ [];
    next_subject_ctr = add32 db.next_subject_ctr 1;
  }

  -- `upsert`, and `start` or `ref`.
  abbrev pub upsert_ref : List ℕ → Db → Subscription × Db
  upsert_ref sub db = elim (find_sub sub db.sub_tab) [
    | none ↦ (new_sub sub db, insert_sub sub db)
    | some s ↦ (ref_sub db.cur_mono s, change_sub s.subject_id (ref_sub db.cur_mono) db)
  ]

  abbrev pub put_added : List ℕ → SessionEntry → Subscription → Db → Db
  put_added name sess script db =
      change_session name (λ _. sess) (change_sub script.subject_id (put_counts script) db)

  abbrev pub listened : Bool → Subscription → Db → Listened
  listened flag script db = record { script = script; flag = flag; coll = false; db = db }

  -- The subject's first reference.
  abbrev pub first_listened : Subscription → Db → Listened
  first_listened script db = record {
    script = script;
    flag = true;
    coll = ltb 1 (sub_hash_count script.value script.hash db.sub_tab);
    db = record db { subscriptions = add_active db.subscriptions };
  }

  -- What follows `add_subject`.
  abbrev pub after_add : List ℕ → Bool → SessionEntry → Subscription → Db → Listened
  after_add name false sess script db = listened false script db
  after_add name true sess script db =
      let db' = host_digest E sess script.value true (put_added name sess script db) in
      if script.refcnt == 1 then first_listened script db' else listened true script db'

  -- `listen_ref`, of the session of a name.
  unfoldable pub listen_ref : List ℕ → List ℕ → Db → Result Listened
  unfolding add_subject
  listen_ref name sub db =
      let (script, db') = upsert_ref (trim E sub) db in
      not_null (find_name name db.session_tab) >>= λ sess.
      not_null (add_subject sess script) >>= λ r. returned (after_add name r.0 r.1 r.2 db')

  abbrev pub after_rem : List ℕ → Bool → SessionEntry → Subscription → Db → Listened
  after_rem name false sess script db = listened false script db
  after_rem name true sess script db =
      let db' = host_digest E sess script.value false (put_added name sess script db) in
      let r : Bool × Db = after_drop E sess.host_id script db' in
      record { script = script; flag = true; coll = r.0; db = r.1 }

  -- `deref_subscription`; `flag` says whether the session held the subject.
  unfoldable pub deref_subscription : List ℕ → Subscription → Db → Result Listened
  unfolding rem_subject
  deref_subscription name script db = not_null (find_name name db.session_tab) >>= λ sess.
      not_null (rem_subject sess script) >>= λ r. returned (after_rem name r.0 r.1 r.2 db)

  -- A subject that the session did not hold makes a query of the session.
  abbrev pub orphan : List ℕ → Subscription → Db → Listened
  orphan name script db = record {
    script = script;
    flag = true;
    coll = false;
    db = change_session name query_session db;
  }

  abbrev pub listen_stopped : List ℕ → Listened → Listened
  listen_stopped name l = if l.flag then record l { flag = false } else orphan name l.script l.db

  unfoldable pub listen_stop : List ℕ → List ℕ → Db → Result Listened
  unfolding deref_subscription
  listen_stop name sub db = elim (find_sub sub db.sub_tab) [
    | none ↦ returned (orphan name (new_sub sub db) (insert_sub sub db))
    | some script ↦ deref_subscription name script db >>= λ l. returned (listen_stopped name l)
  ]

  abbrev pub get_subscription : List ℕ → Db → Subscription × Db
  get_subscription sub db = elim (find_sub sub db.sub_tab) [
    | none ↦ (new_sub sub db, insert_sub sub db)
    | some s ↦ (s, db)
  ]

  -- `get_session( sess, sess_len )`: the session of the name, or the host's daemon.
  abbrev pub get_session : List ℕ → Db → Option SessionEntry
  get_session name db = elim (find_name name db.session_tab) [
    | none ↦ get_rv7_session E (string_to_host_id name) db
    | some s ↦ some s
  ]

  -- The host of a name that is not a session's is queried.
  abbrev pub query_unknown : List ℕ → Db → Result Db
  query_unknown name db = host_ref E (string_to_host_id name) 0 false db >>= λ r.
      returned (put_host r.0 (set_host_state rv_host_query (host_at r.1 r.0)) r.1)

  -- A subject that sessions hold, and no daemon, makes a query of the session.
  abbrev pub query_held : Subscription → SessionEntry → Db → Db
  query_held script s db =
      if not (script.refcnt == 0) && not script.ref7cnt
      then change_session s.value query_session db
      else db

  -- The subject, the session, and the state.
  unfoldable pub snapshot : List ℕ → List ℕ → Db → Result (Subscription × Option SessionEntry × Db)
  unfolding host_ref
  snapshot sub name db =
      let (script, db') = get_subscription sub db in
      elim (get_session name db') [
        | none ↦ query_unknown name db' >>= λ db''. returned (script, none, db'')
        | some s ↦ returned (script, some s, query_held script s db')
      ]

  unfoldable pub tic : List ℕ → List ℕ → Db → Result (Subscription × Option SessionEntry × Db)
  unfolding host_ref
  tic sub name db =
      let (script, db') = get_subscription sub db in
      elim (get_session name db') [
        | none ↦ query_unknown name db' >>= λ db''. returned (script, none, db'')
        | some s ↦ returned (script, some s, db')
      ]
