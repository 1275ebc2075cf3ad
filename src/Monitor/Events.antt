-- ===== src/Monitor/Events.antt =====
-- The timer of the monitor: `process_events`, `send_host_query`, `send_session_query` and `gc` of
-- src/submgr.cpp.
pub mod Gc
use sassrv.Base.{
  ℕ, ◌+◌, ◌-◌, zero, suc, true, false, ◌&&◌, [], ◌∷◌, length, ltb, ◌++◌, if◌then◌else◌, none, some,
  add32,
}
use sassrv.Base.Dict.{Dict}
use sassrv.Host.Services.{same_bytes}
use sassrv.Monitor.Entry.{
  SessionEntry, rv_host_query, rv_host_stop, rv_session_query, rv_session_self, host_code,
  in_host_state, in_session_state, set_host_state, check_query_needed,
}
use sassrv.Monitor.Db.{
  Env, Db, Result, returned, ◌>>=◌, Event, get_sessions, get_subscriptions, host_at, put_host,
  find_session, change_session,
}
use sassrv.Monitor.Sessions.{entries_of, unsub_host, set_session_state}
use sassrv.Monitor.Sass3.{expire_sass3}
use sassrv.Monitor.Events.Gc.{gc}

abbrev pub host_query_interval : ℕ
host_query_interval = 30

abbrev pub host_timeout_interval : ℕ
host_timeout_interval = 120

abbrev pub session_query_interval : ℕ
session_query_interval = 30

abbrev pub session_timeout_interval : ℕ
session_timeout_interval = 60

-- A message that is published, whether there is a listener or not.
abbrev pub send_pub : Event → Db → Db
send_pub e db = record db { events = db.events ++ e ∷ [] }

abbrev pub ask_host : ℕ → Db → Db
ask_host i db =
    send_pub (get_sessions i) (put_host i (record (host_at db i) { query_mono = db.cur_mono }) db)

-- The host of `send_session_query` is its index; the result says nothing but the state.
abbrev pub ask_session : SessionEntry → Db → Db
ask_session sess db =
    send_pub (get_subscriptions sess.value)
      (change_session sess.value (λ s. record s { query_mono = db.cur_mono }) db)

module _ (E : Env) where
  unfoldable pub send_host_query : ℕ → Db → Db
  unfolding unsub_host
  send_host_query i db =
      if ltb db.cur_mono (add32 (host_at db i).query_mono host_query_interval)
      then db
      else (if ltb (add32 (host_at db i).ref_mono host_timeout_interval) db.cur_mono
          then unsub_host E i db
          else ask_host i db)

  unfoldable pub send_session_query : ℕ → SessionEntry → Db → Db
  send_session_query i sess db =
      if ltb db.cur_mono (add32 sess.query_mono session_query_interval)
      then db
      else (if ltb (add32 sess.ref_mono session_timeout_interval) db.cur_mono
          then put_host i (set_host_state rv_host_query (host_at db i)) db
          else (if same_bytes sess.value E.session
              then change_session sess.value (set_session_state rv_session_self) db
              else ask_session sess db))

  -- The loop over the sessions of a host, which ends when the host is to be queried.
  unfoldable pub query_sessions : ℕ → Dict ℕ → Db → Db
  unfolding send_session_query send_host_query
  query_sessions i [] db = db
  query_sessions i ((sess_id, sess_hash) ∷ rest) db =
      elim (find_session sess_id sess_hash db.session_tab) [
        | none ↦ db
        | some s ↦ elim (in_session_state s.state rv_session_query) [
          | true ↦
              elim (in_host_state (host_at (send_session_query i s db) i).state rv_host_query) [
                | true ↦ send_host_query i (send_session_query i s db)
                | false ↦ query_sessions i rest (send_session_query i s db)
              ]
          | false ↦ query_sessions i rest db
        ]
      ]

  abbrev pub query_if_needed : ℕ → Db → Db
  query_if_needed i db =
      if in_host_state (host_at db i).state rv_host_query then send_host_query i db else db

  abbrev pub query_running : ℕ → Db → Db
  query_running i db =
      if ltb (host_code (host_at db i).state) 4
      then query_sessions i (entries_of (host_at db i).sess_ht) db
      else db

  abbrev pub age_host : ℕ → Db → Db
  age_host i db = put_host i (check_query_needed db.cur_mono (host_at db i)).1 db

  -- One round of the loop over the hosts.
  unfoldable pub host_round : ℕ → Db → Db
  unfolding send_host_query query_sessions check_query_needed
  host_round i db =
      if in_host_state (host_at db i).state rv_host_stop
      then db
      else query_running i (query_if_needed i (age_host i db))

  -- `left` rounds from the host of index `i`.
  unfoldable pub host_rounds : ℕ → ℕ → Db → Db
  unfolding host_round
  host_rounds zero i db = db
  host_rounds (suc left) i db = host_rounds left (suc i) (host_round i db)

  -- The loop on `soft_host_query`, which queries the running hosts one at a time, from the last.
  unfoldable pub soft_query : ℕ → Db → Db
  soft_query zero db = record db { soft_host_query = 0 }
  soft_query (suc k) db =
      elim (ltb (suc k) (length db.host_tab)
        && in_host_state (host_at db (suc k)).state rv_host_query) [
          | true ↦ record db { soft_host_query = suc k }
          | false ↦ elim (in_host_state (host_at db k).state rv_host_stop) [
            | true ↦ soft_query k db
            | false ↦ record (put_host k (set_host_state rv_host_query (host_at db k)) db) {
              soft_host_query = k;
            }
          ]
        ]

  abbrev pub run_gc : Db → Db
  run_gc db =
      if ltb db.next_gc db.cur_mono then gc (record db { next_gc = add32 db.cur_mono 131 }) else db

  -- The rest of `process_events`, after the references that have expired.
  abbrev pub run_queries : Db → Db
  run_queries db =
      let db' = soft_query db.soft_host_query db in run_gc (host_rounds (length db'.host_tab) 0 db')

  -- `process_events`, at a time in seconds.
  unfoldable pub process_events : ℕ → Db → Result Db
  unfolding soft_query host_rounds gc expire_sass3
  process_events now db = expire_sass3 E db.sass3_list (record db { cur_mono = now }) >>= λ db'.
      returned (run_queries db')
