-- ===== src/Monitor/Sessions.antt =====
-- The sessions of the monitor: `unsub_session`, `unsub_host`, `host_stop`, `session_start`,
-- `session_stop`, `session_ref`, `add_session`, `rem_session` and `query_rv7_session` of
-- src/submgr.cpp.
use sassrv.Base.{
  ℕ, Bool, true, false, not, ◌&&◌, ◌||◌, List, [], ◌∷◌, ◌++◌, ltb, ◌==◌, if◌then◌else◌, Option,
  none, some, add32,
}
use sassrv.Base.Dict.{Dict, lookup, put, erase}
use sassrv.Monitor.Ids.{string_to_host_id, name_cid}
use sassrv.Monitor.Entry.{
  Subscription, SessionEntry, HostEntry, SessionState, rv_session_unknown, rv_session_cid,
  rv_session_query, rv_session_stop, rv_session_self, in_session_state, less_ref, mark7, put_counts,
  start_session, stop_session, stop_host_entry, host_add_session, host_rem_session,
}
use sassrv.Monitor.Db.{
  Env, Db, Result, returned, ◌>>=◌, not_null, on_listen_stop, host_at, put_host, find_name,
  find_session, get_subject, change_session, change_sub, add_active, take_active, sub_hash_count,
  tell, host_index, host_exists, host_digest,
}
use sassrv.Monitor.Db.Hosts.{host_ref}

abbrev pub entries_of : Option (Dict ℕ) → Dict ℕ
entries_of none = []
entries_of (some d) = d

abbrev pub set_session_state : SessionState → SessionEntry → SessionEntry
set_session_state s sess = record sess { state = s }

-- A session is queried, unless it is the monitor's own or one of a client's connection.
abbrev pub query_session : SessionEntry → SessionEntry
query_session sess =
    if in_session_state sess.state rv_session_self || in_session_state sess.state rv_session_cid
    then sess
    else set_session_state rv_session_query sess

-- A session as `upsert` makes it.
abbrev pub blank_session : ℕ → List ℕ → SessionEntry
blank_session hash value = record {
  sub_ht = none;
  user_id = none;
  host_id = 0;
  session_id = 0;
  start_mono = 0;
  ref_mono = 0;
  stop_mono = 0;
  query_mono = 0;
  state = rv_session_unknown;
  cid = 0;
  has_daemon = false;
  hash = hash;
  value = value;
}

-- `get_session( sess_id )`
abbrev pub session_of_id : ℕ → Db → Option SessionEntry
session_of_id sess_id db = elim (lookup sess_id db.sess_ht) [
  | none ↦ none
  | some hash ↦ find_session sess_id hash db.session_tab
]

abbrev pub when_daemon : Option SessionEntry → Option SessionEntry
when_daemon none = none
when_daemon (some s) = if s.has_daemon then some s else none

module _ (E : Env) where
  abbrev pub get_rv7_session : ℕ → Db → Option SessionEntry
  get_rv7_session host_id db = elim (host_index E host_id 0 db) [
    | none ↦ none
    | some i ↦
        (if (host_at db i).rv7_sess_id == 0
          then none
          else when_daemon (session_of_id (host_at db i).rv7_sess_id db))
  ]

  unfoldable pub query_rv7_session : ℕ → Db → Db
  query_rv7_session host_id db = elim (get_rv7_session host_id db) [
    | none ↦ db
    | some s ↦ change_session s.value query_session db
  ]

  -- What follows the reference that was dropped: the counters and the flag `coll`, or a query.
  abbrev pub after_drop : ℕ → Subscription → Db → Bool × Db
  after_drop host_id sub db =
      if sub.refcnt == 0
      then (
        ltb 0 (sub_hash_count sub.value sub.hash db.sub_tab),
        record db { subscriptions = take_active db.subscriptions },
      )
      else (if sub.ref7cnt && (sub.refcnt == 1)
          then (false, query_rv7_session host_id db)
          else (false, db))

  -- One round of the loop of `unsub_session`.
  abbrev pub drop_subject : SessionEntry → Subscription → Db → Db
  drop_subject sess sub db =
      let left = less_ref (mark7 sess.has_daemon false sub) in
      let r : Bool × Db =
        after_drop sess.host_id left
          (change_sub sub.subject_id (put_counts left) (host_digest E sess sub.value false db)) in
      tell E (on_listen_stop sess.value sub.value false r.0) r.1

  -- The loop ends at a subject that is not found.
  unfoldable pub unsub_loop : Dict ℕ → SessionEntry → Db → Db
  unsub_loop [] sess db = db
  unsub_loop ((sub_id, sub_hash) ∷ rest) sess db = elim (get_subject sub_id sub_hash db.sub_tab) [
    | none ↦ db
    | some sub ↦ unsub_loop rest sess (drop_subject sess sub db)
  ]

  unfoldable pub unsub_session : SessionEntry → Db → Db
  unfolding unsub_loop
  unsub_session sess db =
      let db' = unsub_loop (entries_of sess.sub_ht) sess db in
      change_session sess.value (stop_session db.cur_mono)
        (record db' { sess_ht = erase sess.session_id db'.sess_ht })

  unfoldable pub unsub_sessions : Dict ℕ → Db → Db
  unfolding unsub_session
  unsub_sessions [] db = db
  unsub_sessions ((sess_id, sess_hash) ∷ rest) db =
      elim (find_session sess_id sess_hash db.session_tab) [
        | none ↦ db
        | some sess ↦ unsub_sessions rest (unsub_session sess db)
      ]

  unfoldable pub unsub_host : ℕ → Db → Db
  unfolding unsub_sessions
  unsub_host i db =
      let db' = unsub_sessions (entries_of (host_at db i).sess_ht) db in
      record (put_host i (stop_host_entry db.cur_mono (host_at db' i)) db') {
        hosts = take_active db'.hosts;
      }

  unfoldable pub host_stop : ℕ → ℕ → Db → Db
  unfolding unsub_host
  host_stop host_id cid db = elim (host_index E host_id cid db) [
    | none ↦ db
    | some i ↦ unsub_host i db
  ]

  abbrev pub host_joined : ℕ → SessionEntry → HostEntry → Db → Db
  host_joined i sess host db = record (put_host i host db) {
    sess_ht = put sess.session_id sess.hash db.sess_ht;
    sessions = add_active db.sessions;
  }

  abbrev pub host_parted : ℕ → HostEntry → Db → Db
  host_parted i host db = record (put_host i host db) { sessions = take_active db.sessions }

  -- `add_session` of the monitor, for a host of an index.
  unfoldable pub add_session : ℕ → SessionEntry → Db → Result Db
  add_session i sess db = not_null (host_add_session (host_at db i) sess) >>= λ r.
      returned (if r.0 then host_joined i sess r.1 db else db)

  unfoldable pub rem_session : ℕ → SessionEntry → Db → Result Db
  unfolding unsub_session
  rem_session i sess db =
      let db' = unsub_session sess db in
      not_null (host_rem_session (host_at db' i) sess) >>= λ r.
      returned (if r.0 then host_parted i r.1 db' else db')

  abbrev pub upsert_session : List ℕ → Db → Db
  upsert_session name db = elim (find_name name db.session_tab) [
    | none ↦ record db {
      session_tab = db.session_tab ++ blank_session (E.kv_crc_c name 0) name ∷ [];
    }
    | some s ↦ db
  ]

  -- `entry->start( ..., this->next_session_id(), ... )`, with a change of its state.
  abbrev pub begun :
      ℕ → ℕ → List ℕ → Bool → Option (List ℕ) → (SessionEntry → SessionEntry) → Db → Db
  begun host_id cid name is_start user after db =
      let id = add32 db.next_session_ctr 1 in
      change_session name (λ s. after (start_session host_id cid id db.cur_mono is_start user s))
        (record db { next_session_ctr = id })

  -- That, and `add_session`.
  abbrev pub begin_session :
      ℕ → ℕ → ℕ → List ℕ → Bool → Option (List ℕ) → (SessionEntry → SessionEntry) → Db → Result Db
  begin_session i host_id cid name is_start user after db =
      let db' = begun host_id cid name is_start user after db in
      not_null (find_name name db'.session_tab) >>= λ s. add_session i s db'

  -- A session that had not stopped is queried, but for one of a client's connection.
  abbrev pub restarted : Bool → SessionEntry → SessionEntry
  restarted was_live s =
      if was_live && not (in_session_state s.state rv_session_cid)
      then set_session_state rv_session_query s
      else s

  abbrev pub is_live : SessionEntry → Bool
  is_live s = not (in_session_state s.state rv_session_stop)

  abbrev pub mark_self : Bool → List ℕ → Db → Db
  mark_self is_self name db =
      if is_self then change_session name (set_session_state rv_session_self) db else db

  -- `loc.is_new` is that the name is not there before.
  abbrev pub start_found :
      ℕ → ℕ → ℕ → List ℕ → Bool → Option (List ℕ) → Option SessionEntry → Db → Result Db
  start_found i host_id cid name is_self user none db =
      begin_session i host_id cid name true user (λ s. s) (upsert_session name db) >>= λ db'.
      returned (mark_self is_self name db')
  start_found i host_id cid name is_self user (some old) db =
      (if is_live old then rem_session i old db else returned db) >>= λ db'.
      begin_session i host_id cid name true user (restarted (is_live old)) db' >>= λ db''.
      returned (mark_self is_self name db'')

  unfoldable pub session_start : ℕ → ℕ → List ℕ → Bool → Option (List ℕ) → Db → Result Db
  unfolding add_session rem_session
  session_start host_id cid name is_self user db = elim (host_exists E host_id cid db) [
    | none ↦ returned db
    | some i ↦ start_found i host_id cid name is_self user (find_name name db.session_tab) db
  ]

  unfoldable pub session_stop : List ℕ → Db → Result Db
  unfolding rem_session
  session_stop name db = elim (find_name name db.session_tab) [
    | none ↦ returned db
    | some entry ↦ elim (host_exists E entry.host_id entry.cid db) [
      | none ↦ returned db
      | some i ↦ rem_session i entry db
    ]
  ]

  abbrev pub touch : List ℕ → Db → Db
  touch name db = change_session name (λ s. record s { ref_mono = db.cur_mono }) db

  -- A session that is not known, or has stopped, is begun, and its host with it.
  abbrev pub needs_start : Option SessionEntry → Bool
  needs_start none = true
  needs_start (some s) = in_session_state s.state rv_session_stop

  unfoldable pub session_ref : ℕ → List ℕ → Db → Result Db
  unfolding host_ref add_session
  session_ref cid name db =
      let db' = upsert_session name db in
      let id = string_to_host_id name in
      let c = name_cid cid name in
      (if needs_start (find_name name db.session_tab)
        then (host_ref E id c false db' >>= λ r.
            begin_session r.0 id c name false none (λ s. s) r.1)
        else returned db')
      >>= λ db''. returned (touch name db'')
