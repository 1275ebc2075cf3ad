-- ===== src/Monitor/Entry.antt =====
-- The entries of the monitor's tables: `RvSubscription`, `RvSessionEntry` and `RvHostEntry` of
-- include/sassrv/submgr.h. A table that is a null pointer is `none`; an operation that reads
-- through a null pointer has the result `none`.
use sassrv.Base.{
  ℕ, ◌+◌, ◌-◌, ◌%◌, ◌^◌, Bool, true, false, not, ◌&&◌, ◌||◌, List, [], ◌∷◌, length, ltb, ◌==◌,
  if◌then◌else◌, Option, none, some,
}
use sassrv.Base.Dict.{Dict, contains, put, erase}

-- `RvSubscription`; the text is `value`, the bit `ref7cnt` a Boolean.
pub record Subscription : Type 0 where
  pub subject_id : ℕ
  pub refcnt : ℕ
  pub ref7cnt : Bool
  pub start_mono : ℕ
  pub ref_mono : ℕ
  pub hash : ℕ
  pub value : List ℕ

pub data SessionState : Type 0 where
  rv_session_unknown rv_session_cid rv_session_rv5 rv_session_query rv_session_stop rv_session_rv7
        rv_session_self :
      SessionState

pub data HostState : Type 0 where
  rv_host_unknown rv_host_cid rv_host_start rv_host_status rv_host_query rv_host_stop : HostState

abbrev pub host_code : HostState → ℕ
host_code rv_host_unknown = 0
host_code rv_host_cid = 1
host_code rv_host_start = 2
host_code rv_host_status = 3
host_code rv_host_query = 4
host_code rv_host_stop = 5

abbrev pub session_code : SessionState → ℕ
session_code rv_session_unknown = 0
session_code rv_session_cid = 1
session_code rv_session_rv5 = 2
session_code rv_session_query = 3
session_code rv_session_stop = 4
session_code rv_session_rv7 = 5
session_code rv_session_self = 6

abbrev pub in_host_state : HostState → HostState → Bool
in_host_state a b = host_code a == host_code b

abbrev pub in_session_state : SessionState → SessionState → Bool
in_session_state a b = session_code a == session_code b

-- `RvSessionEntry`
pub record SessionEntry : Type 0 where
  pub sub_ht : Option (Dict ℕ)
  pub user_id : Option (List ℕ)
  pub host_id : ℕ
  pub session_id : ℕ
  pub start_mono : ℕ
  pub ref_mono : ℕ
  pub stop_mono : ℕ
  pub query_mono : ℕ
  pub state : SessionState
  pub cid : ℕ
  pub has_daemon : Bool
  pub hash : ℕ
  pub value : List ℕ

-- `RvHostEntry`
pub record HostEntry : Type 0 where
  pub sess_ht : Option (Dict ℕ)
  pub host_id : ℕ
  pub start_mono : ℕ
  pub status_mono : ℕ
  pub ref_mono : ℕ
  pub stop_mono : ℕ
  pub query_mono : ℕ
  pub data_loss : ℕ
  pub rv7_sess_id : ℕ
  pub sub_count : ℕ
  pub sub_digest : ℕ
  pub state : HostState
  pub cid : ℕ

-- `RvSubscription::start`, on the entry of the hash and the text.
abbrev pub start_sub : ℕ → ℕ → ℕ → List ℕ → Subscription
start_sub sub_id cur_mono hash value = record {
  subject_id = sub_id;
  refcnt = 0;
  ref7cnt = false;
  start_mono = cur_mono;
  ref_mono = cur_mono;
  hash = hash;
  value = value;
}

abbrev pub ref_sub : ℕ → Subscription → Subscription
ref_sub cur_mono s = record s { ref_mono = cur_mono }

-- `refcnt` has 31 bits.
abbrev pub refcnt_mod : ℕ
refcnt_mod = 2 ^ 31

abbrev pub more_ref : Subscription → Subscription
more_ref s = record s { refcnt = (s.refcnt + 1) % refcnt_mod }

abbrev pub less_ref : Subscription → Subscription
less_ref s = record s { refcnt = (s.refcnt + refcnt_mod - 1) % refcnt_mod }

abbrev pub starts : List ℕ → List ℕ → Bool
starts [] s = true
starts (x ∷ p) [] = false
starts (x ∷ p) (c ∷ s) = (x == c) && starts p s

-- `.DAEMON.` with a byte behind it, anywhere in the name.
abbrev pub daemon_in : List ℕ → Bool
daemon_in [] = false
daemon_in (c ∷ s) =
    (ltb 7 (length s) && starts (46 ∷ 68 ∷ 65 ∷ 69 ∷ 77 ∷ 79 ∷ 78 ∷ 46 ∷ []) (c ∷ s)) || daemon_in s

abbrev pub add_user : Option (List ℕ) → SessionEntry → SessionEntry
add_user user sess = record sess { user_id = user }

-- `RvSessionEntry::start`; the name, its hash and nothing else stays.
unfoldable pub start_session : ℕ → ℕ → ℕ → ℕ → Bool → Option (List ℕ) → SessionEntry → SessionEntry
start_session host_id cid sess_id cur_mono is_start user sess =
    let daemon = daemon_in sess.value in
    record {
      sub_ht = some [];
      user_id = user;
      host_id = host_id;
      session_id = sess_id;
      start_mono = if is_start then cur_mono else 0;
      ref_mono = cur_mono;
      stop_mono = 0;
      query_mono = 0;
      state =
          if not (cid == 0)
          then rv_session_cid
          else (if is_start
              then rv_session_rv5
              else (if daemon then rv_session_rv7 else rv_session_query));
      cid = cid;
      has_daemon = daemon;
      hash = sess.hash;
      value = sess.value;
    }

unfoldable pub stop_session : ℕ → SessionEntry → SessionEntry
stop_session cur_mono sess = record sess {
  state = rv_session_stop;
  stop_mono = cur_mono;
  sub_ht = none;
  user_id = none;
}

-- The bit of a session of a daemon is set, and cleared, with the reference.
abbrev pub mark7 : Bool → Bool → Subscription → Subscription
mark7 has_daemon bit s = if has_daemon then record s { ref7cnt = bit } else s

-- The counts of a subject, written back to its entry.
abbrev pub put_counts : Subscription → Subscription → Subscription
put_counts script s = record s { refcnt = script.refcnt; ref7cnt = script.ref7cnt }

abbrev pub subject_added : SessionEntry → Subscription → Dict ℕ → Bool × SessionEntry × Subscription
subject_added sess script ht = if contains script.subject_id ht then (false, sess, script) else (
  true,
  record sess { sub_ht = some (put script.subject_id script.hash ht) },
  mark7 sess.has_daemon true (more_ref script),
)

-- `add_subject`
unfoldable pub add_subject :
    SessionEntry → Subscription → Option (Bool × SessionEntry × Subscription)
add_subject sess script = elim sess.sub_ht [
  | none ↦ none
  | some ht ↦ some (subject_added sess script ht)
]

abbrev pub subject_removed :
    SessionEntry → Subscription → Dict ℕ → Bool × SessionEntry × Subscription
subject_removed sess script ht =
    if contains script.subject_id ht
    then (
      true,
      record sess { sub_ht = some (erase script.subject_id ht) },
      mark7 sess.has_daemon false (less_ref script),
    )
    else (false, sess, script)

-- `rem_subject`, whose table is read only where the subject has references.
unfoldable pub rem_subject :
    SessionEntry → Subscription → Option (Bool × SessionEntry × Subscription)
rem_subject sess script =
    if ltb 0 script.refcnt
    then elim sess.sub_ht [ none ↦ none | some ht ↦ some (subject_removed sess script ht) ]
    else some (false, sess, script)

unfoldable pub start_host_entry : ℕ → ℕ → ℕ → Bool → Bool → HostEntry
start_host_entry host_id cid cur_mono is_start is_status = record {
  sess_ht = some [];
  host_id = host_id;
  start_mono = if is_start then cur_mono else 0;
  status_mono = if is_status then cur_mono else 0;
  ref_mono = cur_mono;
  stop_mono = 0;
  query_mono = 0;
  data_loss = 0;
  rv7_sess_id = 0;
  sub_count = 0;
  sub_digest = 0;
  state =
      if not (cid == 0) then rv_host_cid else (if is_start then rv_host_start else rv_host_query);
  cid = cid;
}

unfoldable pub stop_host_entry : ℕ → HostEntry → HostEntry
stop_host_entry cur_mono host = record host {
  stop_mono = cur_mono;
  state = rv_host_stop;
  sess_ht = none;
}

-- `state != RV_HOST_QUERY && state != RV_HOST_CID`
abbrev pub can_age : HostEntry → Bool
can_age host =
    not (in_host_state host.state rv_host_query) && not (in_host_state host.state rv_host_cid)

abbrev pub set_host_state : HostState → HostEntry → HostEntry
set_host_state s host = record host { state = s }

-- `check_query_needed`: the seconds by which the host is late, and the host.
unfoldable pub check_query_needed : ℕ → HostEntry → ℕ × HostEntry
check_query_needed cur_mono host =
    if can_age host
      && (not (in_host_state host.state rv_host_stop)
          && (ltb host.ref_mono cur_mono && ltb 100 (cur_mono - host.ref_mono)))
    then (cur_mono - host.ref_mono, set_host_state rv_host_query host)
    else (0, host)

abbrev pub stamp_status : ℕ → HostEntry → HostEntry
stamp_status cur_mono host = record host { status_mono = cur_mono; ref_mono = cur_mono }

-- `RvHostEntry::status`
unfoldable pub status_host_entry : ℕ → HostEntry → HostEntry
unfolding check_query_needed
status_host_entry cur_mono host =
    let stamped = stamp_status cur_mono (check_query_needed cur_mono host).1 in
    if can_age stamped then set_host_state rv_host_status stamped else stamped

abbrev pub ref_host_entry : ℕ → HostEntry → HostEntry
ref_host_entry cur_mono host = record host { ref_mono = cur_mono }

abbrev pub session_added : HostEntry → SessionEntry → Dict ℕ → Bool × HostEntry
session_added host sess ht = if contains sess.session_id ht then (false, host) else (
  true,
  record host {
    sess_ht = some (put sess.session_id sess.hash ht);
    rv7_sess_id = if sess.has_daemon then sess.session_id else host.rv7_sess_id;
  },
)

-- `RvHostEntry::add_session`
unfoldable pub host_add_session : HostEntry → SessionEntry → Option (Bool × HostEntry)
host_add_session host sess = elim host.sess_ht [
  | none ↦ none
  | some ht ↦ some (session_added host sess ht)
]

abbrev pub session_removed : HostEntry → SessionEntry → Dict ℕ → Bool × HostEntry
session_removed host sess ht =
    if contains sess.session_id ht
    then (
      true,
      record host {
        sess_ht = some (erase sess.session_id ht);
        rv7_sess_id = if sess.has_daemon then 0 else host.rv7_sess_id;
      },
    )
    else (false, host)

-- `RvHostEntry::rem_session`
unfoldable pub host_rem_session : HostEntry → SessionEntry → Option (Bool × HostEntry)
host_rem_session host sess = elim host.sess_ht [
  | none ↦ none
  | some ht ↦ some (session_removed host sess ht)
]
