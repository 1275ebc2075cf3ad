-- ===== src/Monitor/Counting/Kinds.antt =====
-- `process_pub2` of src/submgr.cpp keeps the tables valid.
use sassrv.Base.{
  ℕ, ◌+◌, ◌<◌, add32, u32_mod, Bool, true, false, not, ◌&&◌, List, ◌==◌, ltb, Option, none, some,
  ◌≡◌, ◌≢◌, ◌||◌, refl, sym, either, length, drop, if◌then◌else◌,
}
use mathlib.Core.Path.{subst}
use sassrv.Monitor.Ids.{
  SubKind, is_host_status, is_host_start, is_host_stop, is_unreachable, is_session_start,
  is_session_stop, is_listen_start, is_listen_stop, is_snap, is_sass, is_tic_reply,
  string_to_host_id, name_cid, prefix_of, match_rv_info,
}
use sassrv.Monitor.Entry.{HostEntry, rv_host_query, set_host_state, in_host_state}
use sassrv.Monitor.Db.{
  Env, Db, Result, returned, null_read, overrun, stuck, ◌>>=◌, host_at, put_host, tell,
  on_listen_start, on_listen_stop, on_orphan_stop, on_snapshot, on_tic_reply,
}
use sassrv.Monitor.Db.Hosts.{host_ref, host_start}
use sassrv.Monitor.Sessions.{session_ref, query_rv7_session}
use sassrv.Monitor.Listen.{Listened, listen_ref, listen_stop, snapshot, tic}
use sassrv.Monitor.Process.{
  Fields, query_all, differs_from, check_digest, check_status, is_self, told_start, told_stop,
  on_start, on_stop, on_snap, on_tic, process_kind, process_pub2, reply_session, name_of, Message,
  no_bytes, bad_message, unpacked, no_fields, process_advisory, process_reply, is_inbox,
  host_inbox_base, session_inbox_base,
}
use sassrv.Monitor.Sass3.{SassMsg}
use sassrv.Monitor.Counting.{IsValid}
use sassrv.Monitor.Counting.Steps.{IsInjective}
use sassrv.Monitor.Counting.Operations.{
  IsNear, IsNear-refl, IsNear-tables, tell-IsNear, query_rv7_session-IsNear,
}
use sassrv.Monitor.Counting.Calls.{
  Ends, Ends-bind, Ends-mono, Ends-returned, IsSame-IsNear, IsValid-IsNear, host_ref-IsSame,
  host_start-IsSame, host_stop-IsValid,
}
use sassrv.Monitor.Counting.Begin.Start.{session_start-IsValid, session_stop-IsValid}
use sassrv.Monitor.Counting.Begin.Ref.{session_ref-IsValid, session_ref-ctr}
use sassrv.Monitor.Counting.Listening.{HasRoom}
use sassrv.Monitor.Counting.Listening.Asked.{ThirdValid, snapshot-IsValid, tic-IsValid}
use sassrv.Monitor.Counting.Listening.Added.{listen_ref-IsValid}
use sassrv.Monitor.Counting.Listening.Removed.{listen_stop-IsValid}

Ends-both :
    {A : Type 0} (P Q : A → Type 0) (r : Result A) → Ends P r → Ends Q r → Ends (λ a. P a × Q a) r
Ends-both P Q (returned a) h k = (h, k)
Ends-both P Q null_read h k = tt
Ends-both P Q overrun h k = tt
Ends-both P Q stuck h k = tt

module _ (E : Env) (inj : IsInjective E) where
  query_all-IsNear : (i : ℕ) (host : HostEntry) (db : Db) → IsNear db (query_all E i host db)
  query_all-IsNear i host db =
      let db' = put_host i (set_host_state rv_host_query host) db in
      either (IsNear db) (host.host_id == E.ipaddr)
        (record db' { soft_host_query = length db.host_tab }) db'
        (IsNear-tables db (record db' { soft_host_query = length db.host_tab }) refl refl refl)
        (IsNear-tables db db' refl refl refl)

  check_digest-IsNear :
      (i : ℕ) (digest : Option (ℕ × ℕ)) (db : Db) → IsNear db (check_digest E i digest db)
  check_digest-IsNear i none db = IsNear-refl db
  check_digest-IsNear i (some d) db =
      let host = host_at db i in
      either (IsNear db)
        (db.is_all_subscribed
          && (not (in_host_state host.state rv_host_query) && differs_from E host d))
        (query_all E i host db) db (query_all-IsNear i host db) (IsNear-refl db)

  check_status-IsNear :
      (i loss : ℕ) (digest : Option (ℕ × ℕ)) (db : Db) → IsNear db (check_status E i loss digest db)
  unfolding check_status
  check_status-IsNear i loss digest db =
      either (IsNear db) ((host_at db i).data_loss == loss) (check_digest E i digest db)
        (query_all E i (record (host_at db i) { data_loss = loss }) db)
        (check_digest-IsNear i digest db)
        (query_all-IsNear i (record (host_at db i) { data_loss = loss }) db)

  told_stop-IsValid :
      (name : List ℕ) (l : Listened) → IsValid E l.db → IsValid E (told_stop E name l)
  told_stop-IsValid name l h =
      either (IsValid E) l.flag (tell E (on_orphan_stop name l.script.value l.coll) l.db)
        (tell E (on_listen_stop name l.script.value true l.coll) l.db)
        (IsValid-IsNear E l.db (tell E (on_orphan_stop name l.script.value l.coll) l.db)
          (tell-IsNear E (on_orphan_stop name l.script.value l.coll) l.db) h)
        (IsValid-IsNear E l.db (tell E (on_listen_stop name l.script.value true l.coll) l.db)
          (tell-IsNear E (on_listen_stop name l.script.value true l.coll) l.db) h)

  abbrev HasRef : Db → Db → Type 0
  HasRef db d = IsValid E d × (d.next_subject_ctr ≡ db.next_subject_ctr)

  session_ref-HasRef :
      (cid : ℕ) (name : List ℕ) (db : Db)
      → IsValid E db
      → Ends (HasRef db) (session_ref E cid name db)
  session_ref-HasRef cid name db h =
      Ends-both (IsValid E) (λ d. d.next_subject_ctr ≡ db.next_subject_ctr)
        (session_ref E cid name db) (session_ref-IsValid E cid name db h)
        (session_ref-ctr E cid name db)

  on_start-IsValid :
      (cid : ℕ) (name sub : List ℕ) (db : Db)
      → HasRoom E inj db
      → IsValid E db
      → Ends (IsValid E) (on_start E cid name sub db)
  unfolding on_start
  on_start-IsValid cid name sub db room h =
      Ends-bind (HasRef db) (IsValid E) (session_ref E cid name db) _
        (session_ref-HasRef cid name db h)
        (λ d ref.
          either (Ends (IsValid E)) (is_self E name d) (returned d)
            (listen_ref E name sub d >>= λ l. returned (told_start E name true l)) ref.0
            (Ends-bind (λ (l : Listened). IsValid E l.db) (IsValid E) (listen_ref E name sub d) _
              (listen_ref-IsValid E inj name sub d (subst (λ n. n + 1 < u32_mod) (sym ref.1) room)
                ref.0)
              (λ l valid.
                IsValid-IsNear E l.db (told_start E name true l)
                  (tell-IsNear E (on_listen_start name l.script.value true l.coll) l.db) valid)))

  on_stop-IsValid :
      (cid : ℕ) (name sub : List ℕ) (db : Db)
      → HasRoom E inj db
      → IsValid E db
      → Ends (IsValid E) (on_stop E cid name sub db)
  unfolding on_stop
  on_stop-IsValid cid name sub db room h =
      Ends-bind (HasRef db) (IsValid E) (session_ref E cid name db) _
        (session_ref-HasRef cid name db h)
        (λ d ref.
          either (Ends (IsValid E)) (is_self E name d) (returned d)
            (listen_stop E name sub d >>= λ l. returned (told_stop E name l)) ref.0
            (Ends-bind (λ (l : Listened). IsValid E l.db) (IsValid E) (listen_stop E name sub d) _
              (listen_stop-IsValid E inj name sub d (subst (λ n. n + 1 < u32_mod) (sym ref.1) room)
                ref.0)
              (λ l valid. told_stop-IsValid name l valid)))

  on_snap-IsValid :
      (subject reply : List ℕ) (db : Db)
      → HasRoom E inj db
      → IsValid E db
      → Ends (IsValid E) (on_snap E subject reply db)
  unfolding on_snap
  on_snap-IsValid subject reply db room h =
      either (Ends (IsValid E))
        (E.has_listener && (ltb 6 (length subject) && ltb 15 (length reply)))
        (snapshot E (drop 6 subject) (reply_session reply) db >>= λ r.
          returned (tell E (on_snapshot (name_of r.1) r.0.value) r.2))
        (returned db)
        (Ends-bind (ThirdValid E inj) (IsValid E)
          (snapshot E (drop 6 subject) (reply_session reply) db) _
          (snapshot-IsValid E inj (drop 6 subject) (reply_session reply) db room h)
          (λ r valid.
            IsValid-IsNear E r.2 (tell E (on_snapshot (name_of r.1) r.0.value) r.2)
              (tell-IsNear E (on_snapshot (name_of r.1) r.0.value) r.2) valid))
        h

  on_tic-IsValid :
      (subject reply : List ℕ) (db : Db)
      → HasRoom E inj db
      → IsValid E db
      → Ends (IsValid E) (on_tic E subject reply db)
  unfolding on_tic
  on_tic-IsValid subject reply db room h =
      either (Ends (IsValid E)) (E.has_listener && ltb 15 (length reply))
        (tic E subject (reply_session reply) db >>= λ r.
          returned (tell E (on_tic_reply (name_of r.1) r.0.value) r.2))
        (returned db)
        (Ends-bind (ThirdValid E inj) (IsValid E) (tic E subject (reply_session reply) db) _
          (tic-IsValid E inj subject (reply_session reply) db room h)
          (λ r valid.
            IsValid-IsNear E r.2 (tell E (on_tic_reply (name_of r.1) r.0.value) r.2)
              (tell-IsNear E (on_tic_reply (name_of r.1) r.0.value) r.2) valid))
        h

  process_kind-IsValid :
      (k : SubKind) (subject reply : List ℕ) (f : Fields) (sass : Option SassMsg) (db : Db)
      → k ≢ is_sass
      → HasRoom E inj db
      → IsValid E db
      → Ends (IsValid E) (process_kind E k subject reply f sass db)
  unfolding process_kind
  process_kind-IsValid is_host_status subject reply f sass db ne room h =
      Ends-bind (λ (r : ℕ × Db). IsValid E r.1) (IsValid E)
        (host_ref E (string_to_host_id (drop (length (prefix_of is_host_status)) subject))
          (name_cid f.cid f.id) true db)
        _
        (Ends-mono _ (λ (r : ℕ × Db). IsValid E r.1)
          (host_ref E (string_to_host_id (drop (length (prefix_of is_host_status)) subject))
            (name_cid f.cid f.id) true db)
          (λ r same. IsValid-IsNear E db r.1 (IsSame-IsNear db r.1 same) h)
          (host_ref-IsSame E (string_to_host_id (drop (length (prefix_of is_host_status)) subject))
            (name_cid f.cid f.id) true db))
        (λ r valid.
          IsValid-IsNear E r.1 (check_status E r.0 (add32 f.idl f.odl) f.digest r.1)
            (check_status-IsNear r.0 (add32 f.idl f.odl) f.digest r.1) valid)
  process_kind-IsValid is_host_start subject reply f sass db ne room h =
      let id = string_to_host_id (drop (length (prefix_of is_host_start)) subject) in
      let after = host_start E id (name_cid f.cid f.id) db in
      IsValid-IsNear E db after
        (IsSame-IsNear db after (host_start-IsSame E id (name_cid f.cid f.id) db)) h
  process_kind-IsValid is_host_stop subject reply f sass db ne room h =
      host_stop-IsValid E (string_to_host_id (drop (length (prefix_of is_host_stop)) subject))
        (name_cid f.cid f.id) db h
  process_kind-IsValid is_unreachable subject reply f sass db ne room h =
      let id = string_to_host_id (drop (length (prefix_of is_unreachable)) subject) in
      IsValid-IsNear E db (query_rv7_session E id db) (query_rv7_session-IsNear E id db) h
  process_kind-IsValid is_session_start subject reply f sass db ne room h =
      session_start-IsValid E
        (string_to_host_id (drop (length (prefix_of is_session_start)) subject))
        (name_cid f.cid f.id) f.id false f.user db h
  process_kind-IsValid is_session_stop subject reply f sass db ne room h =
      session_stop-IsValid E f.id db h
  process_kind-IsValid is_listen_start subject reply f sass db ne room h =
      on_start-IsValid (name_cid f.cid f.id) f.id f.sub db room h
  process_kind-IsValid is_listen_stop subject reply f sass db ne room h =
      on_stop-IsValid (name_cid f.cid f.id) f.id f.sub db room h
  process_kind-IsValid is_snap subject reply f sass db ne room h =
      on_snap-IsValid subject reply db room h
  process_kind-IsValid is_sass subject reply f sass db ne room h = absurd (ne refl)
  process_kind-IsValid is_tic_reply subject reply f sass db ne room h =
      on_tic-IsValid subject reply db room h

  process_advisory-IsValid :
      (k : SubKind) (subject reply : List ℕ) (m : Message) (db : Db)
      → k ≢ is_sass
      → HasRoom E inj db
      → IsValid E db
      → Ends (λ (r : Bool × Db). IsValid E r.1) (process_advisory E k subject reply m db)
  process_advisory-IsValid k subject reply no_bytes db ne room h =
      Ends-bind (IsValid E) (λ (r : Bool × Db). IsValid E r.1)
        (process_kind E k subject reply no_fields none db) _
        (process_kind-IsValid k subject reply no_fields none db ne room h) (λ d valid. valid)
  process_advisory-IsValid k subject reply bad_message db ne room h = h
  process_advisory-IsValid k subject reply (unpacked m) db ne room h =
      Ends-bind (IsValid E) (λ (r : Bool × Db). IsValid E r.1)
        (process_kind E k subject reply m.fields (some m.sass) db) _
        (process_kind-IsValid k subject reply m.fields (some m.sass) db ne room h)
        (λ d valid. valid)

  -- Whatever advisory but a `_SASS.` message is processed, with or without a message that can be
  -- unpacked, while the references are those of sessions alone: when it returns, every subject's
  -- reference count is again the number of the sessions that hold it, as a word of 31 bits, no
  -- session holds a subject twice or one that is not in the table, a session that has stopped holds
  -- none, and no name has two sessions. The hash of a number is injective, and the counter of
  -- subjects has not reached its last value.
  pub process_pub2-IsValid :
      (k : SubKind) (fuel now : ℕ) (subject reply : List ℕ) (m : Message) (db db' : Db)
      (done : Bool)
      → match_rv_info subject ≡ some k
      → k ≢ is_sass
      → HasRoom E inj db
      → IsValid E db
      → process_pub2 E fuel now subject reply m db ≡ returned (done, db')
      → IsValid E db'
  unfolding process_pub2
  process_pub2-IsValid k fuel now subject reply m db db' done kind ne room h e =
      Ends-returned (λ (r : Bool × Db). IsValid E r.1) (process_pub2 E fuel now subject reply m db)
        (done, db') e
        (subst (λ o. Ends (λ (r : Bool × Db). IsValid E r.1) (of_kind o)) (sym kind)
          (process_advisory-IsValid k subject reply m (record db { cur_mono = now }) ne room h))
    where
      of_kind : Option SubKind → Result (Bool × Db)
      of_kind o = elim o [
        | some k ↦ process_advisory E k subject reply m (record db { cur_mono = now })
        | none ↦
            (let which = is_inbox E subject in
              if (which == 0) || (ltb which session_inbox_base && ltb which host_inbox_base)
              then returned (false, db)
              else process_reply E fuel which m (record db { cur_mono = now }))
      ]
