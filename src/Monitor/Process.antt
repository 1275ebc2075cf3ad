-- ===== src/Monitor/Process.antt =====
-- The messages of the monitor: `process_pub2` of src/submgr.cpp, by kind of subject and for the
-- replies to the two queries. The fields that `MDFieldReader` finds are a record.
use sassrv.Base.{
  ℕ, ◌-◌, Bool, true, false, not, ◌&&◌, ◌||◌, List, [], ◌∷◌, length, ltb, leb, ◌==◌, if◌then◌else◌,
  Option, none, some, add32, u32_mod, ◌%◌, drop, take,
}
use sassrv.Monitor.Ids.{
  SubKind, is_host_status, is_host_start, is_host_stop, is_unreachable, is_session_start,
  is_session_stop, is_listen_start, is_listen_stop, is_snap, is_sass, is_tic_reply, prefix_of,
  match_rv_info, string_to_host_id, name_cid, inbox_session_len,
}
use sassrv.Monitor.Entry.{
  SessionEntry, HostEntry, rv_host_query, rv_host_status, rv_session_query, rv_session_rv5,
  rv_session_rv7, rv_session_self, in_host_state, in_session_state, set_host_state, add_user,
}
use sassrv.Monitor.Db.{
  Env, Db, Result, returned, null_read, ◌>>=◌, on_listen_start, on_listen_stop, on_orphan_stop,
  on_snapshot, on_tic_reply, host_at, put_host, find_name, change_session, tell,
}
use sassrv.Monitor.Db.Hosts.{host_ref, host_start}
use sassrv.Monitor.Sessions.{
  query_rv7_session, host_stop, session_start, session_stop, session_ref, session_of_id,
  set_session_state,
}
use sassrv.Monitor.Listen.{Listened, listen_ref, listen_stop, snapshot, tic}
use sassrv.Monitor.Listen.Marks.{
  mark_subscriptions, mark_sessions, stop_marked_subscriptions, stop_marked_sessions,
}
use sassrv.Monitor.Filters.{is_matched}
use sassrv.Monitor.Sass3.{SassMsg, on_sass}
use sassrv.Host.Services.{same_bytes}

-- The fields of an advisory that are read, 0 and empty where they are missing; `digest` is `sc`
-- and `sx`, where the message has both.
pub record Fields : Type 0 where
  pub idl : ℕ
  pub odl : ℕ
  pub cid : ℕ
  pub digest : Option (ℕ × ℕ)
  pub id : List ℕ
  pub sub : List ℕ
  pub user : Option (List ℕ)

-- A field of the reply to a query of a session: the user's name, or a subject.
pub data ReplyField : Type 0 where
  user_field : Option (List ℕ) → ReplyField
  subject_field : List ℕ → ReplyField

abbrev pub no_fields : Fields
no_fields = record { idl = 0; odl = 0; cid = 0; digest = none; id = []; sub = []; user = none }

-- What an unpacked message has for each use of it: an advisory, a `_SASS.` message, and the replies
-- to a query of a host and of a session.
pub record Content : Type 0 where
  pub fields : Fields
  pub sass : SassMsg
  pub session_names : List (List ℕ)
  pub reply_values : List ReplyField

-- There are no bytes, they are no message, or they are unpacked.
pub data Message : Type 0 where
  no_bytes bad_message : Message
  unpacked : Content → Message

abbrev pub host_inbox_base : ℕ
host_inbox_base = 1000000

abbrev pub session_inbox_base : ℕ
session_inbox_base = 1000

abbrev pub name_of : Option SessionEntry → Option (List ℕ)
name_of none = none
name_of (some s) = some s.value

abbrev pub reply_session : List ℕ → List ℕ
reply_session reply = take (inbox_session_len reply) (drop 7 reply)

module _ (E : Env) where
  -- The host is queried; if it is the monitor's own, every host is, one after the other.
  abbrev pub query_all : ℕ → HostEntry → Db → Db
  query_all i host db =
      let db' = put_host i (set_host_state rv_host_query host) db in
      if host.host_id == E.ipaddr then record db' { soft_host_query = length db.host_tab } else db'

  abbrev pub differs_from : HostEntry → ℕ × ℕ → Bool
  differs_from host d = not (host.sub_count == d.0) || not (host.sub_digest == d.1)

  abbrev pub check_digest : ℕ → Option (ℕ × ℕ) → Db → Db
  check_digest i none db = db
  check_digest i (some d) db =
      let host = host_at db i in
      if db.is_all_subscribed
        && (not (in_host_state host.state rv_host_query) && differs_from host d)
      then query_all i host db
      else db

  -- IS_HOST_STATUS, after `host_ref`.
  unfoldable pub check_status : ℕ → ℕ → Option (ℕ × ℕ) → Db → Db
  check_status i loss digest db =
      if (host_at db i).data_loss == loss
      then check_digest i digest db
      else query_all i (record (host_at db i) { data_loss = loss }) db

  abbrev pub is_self : List ℕ → Db → Bool
  is_self name db = elim (find_name name db.session_tab) [
    | none ↦ false
    | some s ↦ in_session_state s.state rv_session_self
  ]

  abbrev pub told_start : List ℕ → Bool → Listened → Db
  told_start name is_listen l = tell E (on_listen_start name l.script.value is_listen l.coll) l.db

  abbrev pub told_stop : List ℕ → Listened → Db
  told_stop name l =
      if l.flag
      then tell E (on_orphan_stop name l.script.value l.coll) l.db
      else tell E (on_listen_stop name l.script.value true l.coll) l.db

  -- IS_LISTEN_START and IS_LISTEN_STOP
  unfoldable pub on_start : ℕ → List ℕ → List ℕ → Db → Result Db
  unfolding session_ref listen_ref
  on_start cid name sub db = session_ref E cid name db >>= λ db'.
      if is_self name db'
      then returned db'
      else (listen_ref E name sub db' >>= λ l. returned (told_start name true l))

  unfoldable pub on_stop : ℕ → List ℕ → List ℕ → Db → Result Db
  unfolding session_ref listen_stop
  on_stop cid name sub db = session_ref E cid name db >>= λ db'.
      if is_self name db'
      then returned db'
      else (listen_stop E name sub db' >>= λ l. returned (told_stop name l))

  -- IS_SNAP, without the six bytes of `_SNAP.`, and IS_TIC_REPLY
  unfoldable pub on_snap : List ℕ → List ℕ → Db → Result Db
  unfolding snapshot
  on_snap subject reply db =
      if E.has_listener && (ltb 6 (length subject) && ltb 15 (length reply))
      then (snapshot E (drop 6 subject) (reply_session reply) db >>= λ r.
          returned (tell E (on_snapshot (name_of r.1) r.0.value) r.2))
      else returned db

  unfoldable pub on_tic : List ℕ → List ℕ → Db → Result Db
  unfolding tic
  on_tic subject reply db =
      if E.has_listener && ltb 15 (length reply)
      then (tic E subject (reply_session reply) db >>= λ r.
          returned (tell E (on_tic_reply (name_of r.1) r.0.value) r.2))
      else returned db

  -- The two `switch` statements; `host_id` is read from the subject.
  unfoldable pub process_kind : SubKind → List ℕ → List ℕ → Fields → Option SassMsg → Db → Result Db
  unfolding host_ref host_start host_stop session_start session_stop on_start on_stop on_snap on_tic
      check_status query_rv7_session on_sass
  process_kind k subject reply f sass db =
      let host_id = string_to_host_id (drop (length (prefix_of k)) subject) in
      let cid = name_cid f.cid f.id in
      elim k [
        | is_host_status ↦ host_ref E host_id cid true db >>= λ r.
            returned (check_status r.0 (add32 f.idl f.odl) f.digest r.1)
        | is_host_start ↦ returned (host_start E host_id cid db)
        | is_host_stop ↦ returned (host_stop E host_id cid db)
        | is_unreachable ↦ returned (query_rv7_session E host_id db)
        | is_session_start ↦ session_start E host_id cid f.id false f.user db
        | is_session_stop ↦ session_stop E f.id db
        | is_listen_start ↦ on_start cid f.id f.sub db
        | is_listen_stop ↦ on_stop cid f.id f.sub db
        | is_snap ↦ on_snap subject reply db
        | is_sass ↦ on_sass E sass db
        | is_tic_reply ↦ on_tic subject reply db
      ]

  abbrev pub ref_all : ℕ → List (List ℕ) → Db → Result Db
  ref_all cid [] db = returned db
  ref_all cid (name ∷ names) db = session_ref E cid name db >>= λ db'. ref_all cid names db'

  -- The reply to a query of a host, which has the names of its sessions.
  unfoldable pub host_reply : ℕ → ℕ → List (List ℕ) → Db → Result Db
  unfolding session_ref
  host_reply fuel i names db =
      if ltb i (length db.host_tab) && in_host_state (host_at db i).state rv_host_query
      then (ref_all (host_at db i).cid names (mark_sessions i db) >>= λ db'.
          stop_marked_sessions E fuel i db' >>= λ db''.
          returned (put_host i (set_host_state rv_host_status (host_at db'' i)) db''))
      else returned db

  abbrev pub told_if_added : List ℕ → Listened → Db
  told_if_added name l = if l.flag then told_start name false l else l.db

  abbrev pub reply_field : List ℕ → ReplyField → Db → Result Db
  reply_field name (user_field u) db = returned (change_session name (add_user u) db)
  reply_field name (subject_field sub) db =
      if is_matched db.filters sub
      then (listen_ref E name sub db >>= λ l. returned (told_if_added name l))
      else returned db

  abbrev pub reply_fields : List ℕ → List ReplyField → Db → Result Db
  reply_fields name [] db = returned db
  reply_fields name (f ∷ fs) db = reply_field name f db >>= λ db'. reply_fields name fs db'

  abbrev pub answered : SessionEntry → SessionEntry
  answered s = set_session_state (if s.has_daemon then rv_session_rv7 else rv_session_rv5) s

  abbrev pub answer_session : ℕ → List ReplyField → SessionEntry → Db → Result Db
  answer_session fuel fs s db =
      if in_session_state s.state rv_session_query
      then (reply_fields s.value fs (mark_subscriptions s db) >>= λ db'.
          stop_marked_subscriptions E fuel s.value (change_session s.value answered db'))
      else returned db

  -- The reply to a query of a session, which has its user and its subjects.
  unfoldable pub session_reply : ℕ → ℕ → List ReplyField → Db → Result Db
  unfolding listen_ref is_matched
  session_reply fuel sess_id fs db = elim (session_of_id sess_id db) [
    | none ↦ returned db
    | some s ↦ answer_session fuel fs s db
  ]

  -- `is_inbox` of the client: the number that follows `control` in an inbox, 0 for another subject.
  abbrev pub inbox_number : List ℕ → List ℕ → ℕ
  inbox_number subject [] = 0
  inbox_number subject (c ∷ number) =
      if (leb 48 c && leb c 57) && same_bytes (take (length E.control) subject) E.control
      then E.string_to_uint64 (c ∷ number)
      else 0

  abbrev pub is_inbox : List ℕ → ℕ
  is_inbox subject = inbox_number subject (drop (length E.control) subject)

  -- The number of an inbox is the base of the hosts' with an index, or that of the sessions' with an
  -- identifier.
  unfoldable pub process_inbox : ℕ → ℕ → List (List ℕ) → List ReplyField → Db → Result Db
  unfolding host_reply session_reply
  process_inbox fuel which names fs db =
      if leb host_inbox_base which
      then host_reply fuel ((which - host_inbox_base) % u32_mod) names db
      else session_reply fuel ((which - session_inbox_base) % u32_mod) fs db

  -- A message of a kind.
  abbrev pub process_advisory : SubKind → List ℕ → List ℕ → Message → Db → Result (Bool × Db)
  process_advisory k subject reply no_bytes db =
      process_kind k subject reply no_fields none db >>= λ db'. returned (true, db')
  process_advisory k subject reply bad_message db = returned (true, db)
  process_advisory k subject reply (unpacked m) db =
      process_kind k subject reply m.fields (some m.sass) db >>= λ db'. returned (true, db')

  -- A message in an inbox, which is read without a look at whether there is one.
  abbrev pub process_reply : ℕ → ℕ → Message → Db → Result (Bool × Db)
  process_reply fuel which no_bytes db = null_read
  process_reply fuel which bad_message db = returned (true, db)
  process_reply fuel which (unpacked m) db =
      process_inbox fuel which m.session_names m.reply_values db >>= λ db'. returned (true, db')

  -- `process_pub2`, at a time in seconds. A subject of no kind that is no inbox of a query is not
  -- processed.
  unfoldable pub process_pub2 : ℕ → ℕ → List ℕ → List ℕ → Message → Db → Result (Bool × Db)
  unfolding match_rv_info process_kind process_inbox
  process_pub2 fuel now subject reply m db = elim (match_rv_info subject) [
    | some k ↦ process_advisory k subject reply m (record db { cur_mono = now })
    | none ↦
        (let which = is_inbox subject in
          if (which == 0) || (ltb which session_inbox_base && ltb which host_inbox_base)
          then returned (false, db)
          else process_reply fuel which m (record db { cur_mono = now }))
  ]
