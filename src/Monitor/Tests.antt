-- ===== src/Monitor/Tests.antt =====
-- A monitor of the network of 10.4.4.22, from its empty state.
use sassrv.Base.{
  ℕ, ◌+◌, ◌<◌, ◌≤◌, suc, ◌≡◌, ◌≢◌, refl, true, false, Bool, List, [], ◌∷◌, length, none, some,
  arith, u32_mod, map, ◌++◌, ◌⊎◌, ◌↔◌,
}
use sassrv.Monitor.Ids.{is_listen_start, is_listen_stop, match_rv_info, name_cid, string_to_host_id}
use sassrv.Monitor.Entry.{
  start_session, add_subject, rem_subject, start_host_entry, host_add_session, SessionEntry,
  Subscription,
}
use sassrv.Monitor.Db.{
  Env, Db, Result, returned, null_read, overrun, stuck, host_digest, host_index, host_at,
  no_host_entry, ◌>>=◌,
}
use sassrv.Monitor.Db.Hosts.{host_ref, host_start, slot_is_free}
use mathlib.Core.Path.{subst}
use mathlib.Core.Option.{some-injective}
use sassrv.Monitor.Sass3.{SassMsg, on_sass, sass3}
use sassrv.Monitor.Db.Hosts.Slots.{Returns, IsKnown, host_ref-Returns, host_start-stuck}
use sassrv.Monitor.Db.Digest.{host_digest_twice, HasCounts}
use sassrv.Monitor.Sessions.{blank_session, entries_of, add_session, session_ref}
use sassrv.Monitor.Listen.{listen_ref, listen_stop, deref_subscription}
use sassrv.Monitor.Listen.Marks.{deref_all, end_max, stop_marked_subscriptions}
use sassrv.Monitor.Listen.Marks.Limit.{marked, stop_marked_subscriptions_lem}
use sassrv.Monitor.Process.{
  Fields, Content, Message, unpacked, no_fields, on_start, on_stop, process_kind, process_pub2,
}
use sassrv.Monitor.Counting.{IsValid}
use sassrv.Monitor.Counting.Steps.{IsInjective}
use sassrv.Monitor.Counting.Kinds.{process_pub2-IsValid}

abbrev checksum : List ℕ → ℕ → ℕ
checksum [] n = n
checksum (c ∷ s) n = checksum s (n + c)

abbrev env : Env
env = record {
  kv_hash_uint = λ n. n;
  kv_crc_c = checksum;
  ipaddr = 168035350;
  cid = 0;
  session = [];
  has_listener = true;
  rounds = 3;
  qf = record { qf_snapshot = 1; qf_unsubscribe = 2; qf_resubscribe = 4; qf_refresh = 8 };
  control = [];
  string_to_uint64 = λ s. 0;
}

env-IsInjective : IsInjective env
env-IsInjective a b ha hb e = e

abbrev empty : Db
empty = record {
  host_ht = [];
  sess_ht = [];
  host_tab = [];
  session_tab = [];
  sub_tab = [];
  filters = [];
  cur_mono = 500;
  next_session_ctr = 0;
  next_subject_ctr = 0;
  soft_host_query = 0;
  first_free_host = 0;
  subscriptions = record { active = 0; removed = 0 };
  sessions = record { active = 0; removed = 0 };
  hosts = record { active = 0; removed = 0 };
  next_gc = 600;
  is_subscribed = true;
  is_all_subscribed = true;
  is_sass2 = true;
  is_sass3 = false;
  is_tic = false;
  sass3_list = [];
  events = [];
}

empty-IsValid : IsValid env empty
empty-IsValid = ((tt, (tt, tt)), tt)

-- The session "0A040416.X" listens to "AB.C".
abbrev session : List ℕ
session = 48 ∷ 65 ∷ 48 ∷ 52 ∷ 48 ∷ 52 ∷ 49 ∷ 54 ∷ 46 ∷ 88 ∷ []

abbrev subject : List ℕ
subject = 65 ∷ 66 ∷ 46 ∷ 67 ∷ []

abbrev fields : Fields
fields = record {
  idl = 0;
  odl = 0;
  cid = 0;
  digest = none;
  id = session;
  sub = subject;
  user = none;
}

abbrev no_sass : SassMsg
no_sass = record { flags = none; sender = none; names = [] }

abbrev message : Message
message =
    unpacked (record { fields = fields; sass = no_sass; session_names = []; reply_values = [] })

abbrev listen_start_subject : List ℕ
listen_start_subject =
    95 ∷ 82 ∷ 86 ∷ 46 ∷ 73 ∷ 78 ∷ 70 ∷ 79 ∷ 46 ∷ 83 ∷ 89 ∷ 83 ∷ 84 ∷ 69 ∷ 77 ∷ 46 ∷ 76 ∷ 73 ∷ 83
    ∷ 84 ∷ 69 ∷ 78 ∷ 46 ∷ 83 ∷ 84 ∷ 65 ∷ 82 ∷ 84 ∷ 46 ∷ 65 ∷ 66 ∷ 46 ∷ 67 ∷ []

abbrev listen_stop_subject : List ℕ
listen_stop_subject =
    95 ∷ 82 ∷ 86 ∷ 46 ∷ 73 ∷ 78 ∷ 70 ∷ 79 ∷ 46 ∷ 83 ∷ 89 ∷ 83 ∷ 84 ∷ 69 ∷ 77 ∷ 46 ∷ 76 ∷ 73 ∷ 83
    ∷ 84 ∷ 69 ∷ 78 ∷ 46 ∷ 83 ∷ 84 ∷ 79 ∷ 80 ∷ 46 ∷ 65 ∷ 66 ∷ 46 ∷ 67 ∷ []

start_kind : match_rv_info listen_start_subject ≡ some is_listen_start
unfolding match_rv_info
start_kind = refl

stop_kind : match_rv_info listen_stop_subject ≡ some is_listen_stop
unfolding match_rv_info
stop_kind = refl

abbrev state_of : Result (Bool × Db) → Db
state_of (returned r) = r.1
state_of null_read = empty
state_of overrun = empty
state_of stuck = empty

unfoldable listening : Db
unfolding process_pub2
listening = state_of (process_pub2 env 1 500 listen_start_subject [] message empty)

started : process_pub2 env 1 500 listen_start_subject [] message empty ≡ returned (true, listening)
unfolding listening process_pub2 match_rv_info process_kind on_start session_ref host_ref
    start_host_entry start_session add_session host_add_session listen_ref add_subject name_cid
    host_digest string_to_host_id
started = refl

listening-IsValid : IsValid env listening
listening-IsValid =
    process_pub2-IsValid env env-IsInjective is_listen_start 1 500 listen_start_subject [] message
      empty listening true start_kind (λ e. cc) (omega arith) empty-IsValid started

unfoldable silent : Db
unfolding process_pub2
silent = state_of (process_pub2 env 1 500 listen_stop_subject [] message listening)

listening_room : listening.next_subject_ctr + 1 < u32_mod
unfolding listening process_pub2 match_rv_info process_kind on_start session_ref host_ref
    start_host_entry start_session add_session host_add_session listen_ref add_subject name_cid
    host_digest string_to_host_id
listening_room = omega arith

ended : process_pub2 env 1 500 listen_stop_subject [] message listening ≡ returned (true, silent)
unfolding silent listening process_pub2 match_rv_info process_kind on_start on_stop session_ref
    host_ref start_host_entry start_session add_session host_add_session listen_ref listen_stop
    add_subject rem_subject deref_subscription name_cid host_digest string_to_host_id
ended = refl

process_pub2-IsValid_example : IsValid env silent
process_pub2-IsValid_example =
    process_pub2-IsValid env env-IsInjective is_listen_stop 1 500 listen_stop_subject [] message
      listening silent true stop_kind (λ e. cc) listening_room listening-IsValid ended

-- A process of 10.4.4.22 asks for "AB.C", and lets it go.
abbrev sass_msg : ℕ → Content
sass_msg flags = record {
  fields = no_fields;
  sass = record {
    flags = some flags;
    sender = some (record { user = 97 ∷ []; host = []; app = 98 ∷ []; pid = 7 });
    names = (subject ++ 0 ∷ []) ∷ [];
  };
  session_names = [];
  reply_values = [];
}

abbrev refcnts : Result Db → List ℕ
refcnts (returned db) = map (λ (s : Subscription). s.refcnt) db.sub_tab
refcnts null_read = []
refcnts overrun = []
refcnts stuck = []

sass_held : refcnts (on_sass env (some (sass_msg 4).sass) empty) ≡ 1 ∷ []
unfolding on_sass sass3
sass_held = refl

sass_let_go :
    refcnts
      (on_sass env (some (sass_msg 4).sass) empty >>= λ db. on_sass env (some (sass_msg 2).sass) db)
    ≡ 0 ∷ []
unfolding on_sass sass3
sass_let_go = refl

-- A host is new to the empty state, whose only slot is free.
host_ref-Returns_example :
    (Returns (host_ref env 168035350 0 true empty)
      ↔ (IsKnown env 168035350 0 empty ⊎ (slot_is_free env empty ≡ true)))
    × ((r : ℕ × Db)
        → host_ref env 168035350 0 true empty ≡ returned r
        → host_index env 168035350 0 r.1 ≡ some r.0)
host_ref-Returns_example = host_ref-Returns env 168035350 0 true empty (omega arith)

other_new : host_index env 168035351 0 (host_start env 168035350 0 empty) ≡ none
unfolding host_start
other_new = refl

host_start-stuck_example :
    let after = host_start env 168035350 0 empty in
    (after.host_tab ≡ start_host_entry 168035350 0 500 true false ∷ [])
    × ((after.first_free_host ≡ 0)
        × ((slot_is_free env after ≡ false) × (host_ref env 168035351 0 true after ≡ stuck)))
host_start-stuck_example =
    host_start-stuck env 168035350 0 168035351 0 true empty refl refl other_new

-- A host with one pair, and a session of it.
abbrev counting : Db
counting = record empty {
  host_ht = (168035350, 0) ∷ [];
  host_tab = record no_host_entry { host_id = 168035350; sub_count = 1; sub_digest = 9 } ∷ [];
  first_free_host = 1;
}

abbrev counted_session : SessionEntry
counted_session = record (blank_session 0 session) { host_id = 168035350 }

counted_pair : (host_at (host_digest env counted_session subject true counting) 0).sub_count ≡ 2
unfolding host_digest
counted_pair = refl

host_digest_twice_example :
    host_digest env counted_session subject false
      (host_digest env counted_session subject true counting)
    ≡ counting
host_digest_twice_example = host_digest_twice env counted_session subject counting (λ i e.
    subst (λ k. HasCounts env (host_at counting k)) (some-injective _ _ e)
      (omega arith, omega arith))

-- The session holds one subject, which is marked.
abbrev marked_sub : Subscription
marked_sub = record {
  subject_id = 1;
  refcnt = 1;
  ref7cnt = false;
  start_mono = 3;
  ref_mono = 0;
  hash = 5;
  value = subject;
}

abbrev marked_session : SessionEntry
marked_session = record (blank_session 0 session) { sub_ht = some ((1, 5) ∷ []) }

abbrev marked_db : Db
marked_db = record empty { session_tab = marked_session ∷ []; sub_tab = marked_sub ∷ [] }

stop_marked_subscriptions_lem_example :
    (length (marked marked_db (entries_of marked_session.sub_ht)) < end_max
      → (fuel : ℕ)
      → stop_marked_subscriptions env (suc fuel) session marked_db
        ≡ deref_all env session (marked marked_db (entries_of marked_session.sub_ht)) marked_db)
    × (end_max ≤ length (marked marked_db (entries_of marked_session.sub_ht))
        → (fuel : ℕ) (r : Db) → stop_marked_subscriptions env fuel session marked_db ≢ returned r)
stop_marked_subscriptions_lem_example =
    stop_marked_subscriptions_lem env session marked_session marked_db refl
