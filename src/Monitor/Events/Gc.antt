-- ===== src/Monitor/Events/Gc.antt =====
-- `gc` of src/submgr.cpp.
use sassrv.Base.{
  ℕ, suc, Bool, ◌&&◌, List, [], ◌∷◌, length, ltb, ◌==◌, if◌then◌else◌, Option, none, some,
}
use sassrv.Monitor.Entry.{
  Subscription, SessionEntry, HostEntry, rv_host_stop, rv_session_stop, in_host_state,
  in_session_state,
}
use sassrv.Monitor.Db.{Db, Counters}

abbrev pub held_subs : List Subscription → List Subscription
held_subs [] = []
held_subs (s ∷ ss) = let rest = held_subs ss in if s.refcnt == 0 then rest else s ∷ rest

abbrev pub live_sessions : List SessionEntry → List SessionEntry
live_sessions [] = []
live_sessions (s ∷ ss) =
    let rest = live_sessions ss in
    if in_session_state s.state rv_session_stop then rest else s ∷ rest

-- The index of the first host that has stopped, counted from `i`.
abbrev pub first_stopped : ℕ → List HostEntry → Option ℕ
first_stopped i [] = none
first_stopped i (h ∷ hs) =
    let rest = first_stopped (suc i) hs in
    if in_host_state h.state rv_host_stop then some i else rest

abbrev pub no_removed : Counters → Counters
no_removed c = record c { removed = 0 }

abbrev pub is_due : Counters → Bool
is_due c = ltb c.active c.removed

abbrev pub gc_subs : Db → Db
gc_subs db =
    if is_due db.subscriptions
    then record db { subscriptions = no_removed db.subscriptions; sub_tab = held_subs db.sub_tab }
    else db

abbrev pub gc_sessions : Db → Db
gc_sessions db =
    if is_due db.sessions
    then record db { sessions = no_removed db.sessions; session_tab = live_sessions db.session_tab }
    else db

abbrev pub gc_hosts : Db → Db
gc_hosts db =
    if is_due db.hosts && (db.first_free_host == length db.host_tab)
    then record db {
      hosts = no_removed db.hosts;
      first_free_host = elim (first_stopped 0 db.host_tab) [
        | none ↦ db.first_free_host
        | some i ↦ i
      ];
    }
    else db

unfoldable pub gc : Db → Db
gc db = gc_hosts (gc_sessions (gc_subs db))
