-- ===== src/Monitor/Listen/Marks.antt =====
-- The marks of a query of src/submgr.cpp: `mark_sessions`, `stop_marked_sessions`,
-- `mark_subscriptions` and `stop_marked_subscriptions`. What is marked has the time 0. The ends are
-- collected in arrays of 256, whose index is not reset from one round to the next; a round is one
-- unit of fuel.
pub mod Limit
use sassrv.Base.{
  ℕ, ◌+◌, zero, suc, true, false, List, [], ◌∷◌, ◌++◌, length, ltb, ◌==◌, if◌then◌else◌, none, some,
}
use sassrv.Base.Dict.{Dict}
use sassrv.Monitor.Entry.{Subscription, SessionEntry}
use sassrv.Monitor.Db.{
  Env, Db, Result, returned, overrun, stuck, ◌>>=◌, not_null, on_listen_stop, host_at, find_name,
  find_session, get_subject, change_session, change_sub, tell,
}
use sassrv.Monitor.Sessions.{entries_of, query_session, rem_session}
use sassrv.Monitor.Listen.{Listened, deref_subscription}

-- `end_sub_hash[ 256 ]`, and the others like it.
abbrev pub end_max : ℕ
end_max = 256

abbrev pub mark_sub : ℕ → Subscription → Subscription
mark_sub query_mono s = if ltb s.start_mono query_mono then record s { ref_mono = 0 } else s

-- The loop of `mark_subscriptions`, which ends at a subject that is not found.
unfoldable pub mark_subs : ℕ → Dict ℕ → Db → Db
mark_subs query_mono [] db = db
mark_subs query_mono ((sub_id, sub_hash) ∷ rest) db =
    elim (get_subject sub_id sub_hash db.sub_tab) [
      | none ↦ db
      | some s ↦ mark_subs query_mono rest (change_sub s.subject_id (mark_sub query_mono) db)
    ]

abbrev pub mark_subscriptions : SessionEntry → Db → Db
mark_subscriptions sess db = mark_subs sess.query_mono (entries_of sess.sub_ht) db

abbrev pub mark_session : ℕ → SessionEntry → SessionEntry
mark_session query_mono s = if ltb s.ref_mono query_mono then record s { ref_mono = 0 } else s

-- The loop of `mark_sessions`.
unfoldable pub mark_sessions_of : ℕ → Dict ℕ → Db → Db
mark_sessions_of query_mono [] db = db
mark_sessions_of query_mono ((sess_id, sess_hash) ∷ rest) db =
    elim (find_session sess_id sess_hash db.session_tab) [
      | none ↦ db
      | some s ↦
          mark_sessions_of query_mono rest (change_session s.value (mark_session query_mono) db)
    ]

abbrev pub mark_sessions : ℕ → Db → Db
mark_sessions i db =
    mark_sessions_of (host_at db i).query_mono (entries_of (host_at db i).sess_ht) db

-- One more end; the inner loop is left when the arrays are full.
abbrev pub collect : Dict ℕ → ℕ × ℕ → Result (Dict ℕ) → Result (Dict ℕ)
collect ends e more =
    if ltb (length ends) end_max
    then (if suc (length ends) == end_max then returned (ends ++ e ∷ []) else more)
    else overrun

-- The inner loop of `stop_marked_subscriptions`.
unfoldable pub scan_subs : Db → Dict ℕ → Dict ℕ → Result (Dict ℕ)
scan_subs db [] ends = returned ends
scan_subs db ((sub_id, sub_hash) ∷ rest) ends = elim (get_subject sub_id sub_hash db.sub_tab) [
  | none ↦ returned ends
  | some s ↦ elim (s.ref_mono == 0) [
    | true ↦ collect ends (sub_id, sub_hash) (scan_subs db rest (ends ++ (sub_id, sub_hash) ∷ []))
    | false ↦ scan_subs db rest ends
  ]
]

-- The inner loop of `stop_marked_sessions`, which makes queries of the sessions that go on.
unfoldable pub scan_sessions : Dict ℕ → Dict ℕ → Db → Result (Dict ℕ × Db)
scan_sessions [] ends db = returned (ends, db)
scan_sessions ((sess_id, sess_hash) ∷ rest) ends db =
    elim (find_session sess_id sess_hash db.session_tab) [
      | none ↦ returned (ends, db)
      | some s ↦ elim (s.ref_mono == 0) [
        | true ↦ elim (ltb (length ends) end_max) [
          | true ↦ elim (suc (length ends) == end_max) [
            | true ↦ returned (ends ++ (sess_id, sess_hash) ∷ [], db)
            | false ↦ scan_sessions rest (ends ++ (sess_id, sess_hash) ∷ []) db
          ]
          | false ↦ overrun
        ]
        | false ↦ scan_sessions rest ends (change_session s.value query_session db)
      ]
    ]

module _ (E : Env) where
  abbrev pub stop_sub : List ℕ → Listened → Db
  stop_sub name l =
      if l.flag then tell E (on_listen_stop name l.script.value false l.coll) l.db else l.db

  unfoldable pub deref_all : List ℕ → Dict ℕ → Db → Result Db
  unfolding deref_subscription
  deref_all name [] db = returned db
  deref_all name ((sub_id, sub_hash) ∷ rest) db =
      not_null (get_subject sub_id sub_hash db.sub_tab) >>= λ s.
      deref_subscription E name s db >>= λ l. deref_all name rest (stop_sub name l)

  unfoldable pub sub_rounds : ℕ → List ℕ → Dict ℕ → Db → Result Db
  unfolding scan_subs deref_all
  sub_rounds zero name ends db = stuck
  sub_rounds (suc fuel) name ends db = not_null (find_name name db.session_tab) >>= λ sess.
      scan_subs db (entries_of sess.sub_ht) ends >>= λ ends'. deref_all name ends' db >>= λ db'.
      elim (ltb (length ends') end_max) [
        | true ↦ returned db'
        | false ↦ sub_rounds fuel name ends' db'
      ]

  abbrev pub stop_marked_subscriptions : ℕ → List ℕ → Db → Result Db
  stop_marked_subscriptions fuel name db = sub_rounds fuel name [] db

  unfoldable pub rem_all : ℕ → Dict ℕ → Db → Result Db
  unfolding rem_session
  rem_all i [] db = returned db
  rem_all i ((sess_id, sess_hash) ∷ rest) db =
      not_null (find_session sess_id sess_hash db.session_tab) >>= λ s.
      rem_session E i s db >>= λ db'. rem_all i rest db'

  unfoldable pub session_rounds : ℕ → ℕ → Dict ℕ → Db → Result Db
  unfolding scan_sessions rem_all
  session_rounds zero i ends db = stuck
  session_rounds (suc fuel) i ends db =
      scan_sessions (entries_of (host_at db i).sess_ht) ends db >>= λ r.
      rem_all i r.0 r.1 >>= λ db'. elim (ltb (length r.0) end_max) [
        | true ↦ returned db'
        | false ↦ session_rounds fuel i r.0 db'
      ]

  abbrev pub stop_marked_sessions : ℕ → ℕ → Db → Result Db
  stop_marked_sessions fuel i db = session_rounds fuel i [] db
