-- ===== src/Monitor/Db.antt =====
-- The state of `RvSubscriptionDB` of src/submgr.cpp and its table of hosts: `host_ref`, `host_start`,
-- `find_host`, `host_exists` and `host_digest`, with the searches of the other tables. A table is
-- the list of its entries in the order in which it is visited; a host is known by its index, a
-- session by its name, a subject by its identifier.
pub mod Hosts
pub mod Digest
use sassrv.Base.{
  ℕ, ◌+◌, ◌-◌, zero, suc, Bool, true, false, not, ◌&&◌, List, [], ◌∷◌, ◌++◌, length, ltb, leb, ◌==◌,
  if◌then◌else◌, Option, none, some, get_or, set, add32, sub32, xor32,
}
use sassrv.Base.Dict.{Dict, lookup}
use sassrv.Host.Services.{same_bytes}
use sassrv.Monitor.Wildcard.{is_rv_wildcard}
use sassrv.Monitor.Entry.{Subscription, SessionEntry, HostEntry, rv_host_unknown, host_code}

-- How a call ends: it returns, it reads through a null pointer, it writes past the end of an array,
-- or it has not returned after all its rounds.
pub data Result (A : Type 0) : Type 0 where
  returned : A → Result A
  null_read overrun stuck : Result A

infixl 5 ◌>>=◌
abbrev pub ◌>>=◌ : {A B : Type 0} → Result A → (A → Result B) → Result B
returned a >>= f = f a
null_read >>= f = null_read
overrun >>= f = overrun
stuck >>= f = stuck

abbrev pub not_null : {A : Type 0} → Option A → Result A
not_null none = null_read
not_null (some a) = returned a

-- `GCCounters`
pub record Counters : Type 0 where
  pub active : ℕ
  pub removed : ℕ

-- `RvSass3Key` and `RvSass3Entry`: a reference to a subject by a process.
pub record Sass3Key : Type 0 where
  pub subj_hash : ℕ
  pub subject_id : ℕ
  pub pid : ℕ
  pub user_id : List ℕ
  pub host : List ℕ
  pub app : List ℕ

pub record Sass3Entry : Type 0 where
  pub key : Sass3Key
  pub start_mono : ℕ
  pub ref_mono : ℕ

-- The QF_ flags of raimd.
pub record QueryFlags : Type 0 where
  pub qf_snapshot : ℕ
  pub qf_unsubscribe : ℕ
  pub qf_resubscribe : ℕ
  pub qf_refresh : ℕ

-- The calls of the listener and of the client, in the order in which they are made. A session is
-- given by its name, a subject by its text.
pub data Event : Type 0 where
  on_listen_start on_listen_stop : List ℕ → List ℕ → Bool → Bool → Event
  on_orphan_stop : List ℕ → List ℕ → Bool → Event
  on_snapshot on_tic_reply : Option (List ℕ) → List ℕ → Event
  subscribe unsubscribe : List ℕ → Event
  on_sass3 : Sass3Entry → List ℕ → ℕ → Bool → Bool → Event
  get_sessions : ℕ → Event
  get_subscriptions : List ℕ → Event

-- What is taken from raikv and raimd, the hash of a number, the checksum of bytes, the number of a
-- string and the flags, and what is fixed for the monitor: its client, with the `control` that its
-- inboxes begin with, and whether it has a listener. `rounds` is how long a loop that waits is followed.
pub record Env : Type 0 where
  pub kv_hash_uint : ℕ → ℕ
  pub kv_crc_c : List ℕ → ℕ → ℕ
  pub ipaddr : ℕ
  pub cid : ℕ
  pub session : List ℕ
  pub has_listener : Bool
  pub rounds : ℕ
  pub qf : QueryFlags
  pub control : List ℕ
  pub string_to_uint64 : List ℕ → ℕ

-- `RvSubscriptionDB`
pub record Db : Type 0 where
  pub host_ht : Dict ℕ
  pub sess_ht : Dict ℕ
  pub host_tab : List HostEntry
  pub session_tab : List SessionEntry
  pub sub_tab : List Subscription
  pub filters : List (List ℕ)
  pub cur_mono : ℕ
  pub next_session_ctr : ℕ
  pub next_subject_ctr : ℕ
  pub soft_host_query : ℕ
  pub first_free_host : ℕ
  pub subscriptions : Counters
  pub sessions : Counters
  pub hosts : Counters
  pub next_gc : ℕ
  pub is_subscribed : Bool
  pub is_all_subscribed : Bool
  pub is_sass2 : Bool
  pub is_sass3 : Bool
  pub is_tic : Bool
  pub sass3_list : List Sass3Entry
  pub events : List Event

abbrev pub add_active : Counters → Counters
add_active c = record c { active = add32 c.active 1 }

abbrev pub take_active : Counters → Counters
take_active c = record { active = sub32 c.active 1; removed = add32 c.removed 1 }

abbrev pub no_host_entry : HostEntry
no_host_entry = record {
  sess_ht = none;
  host_id = 0;
  start_mono = 0;
  status_mono = 0;
  ref_mono = 0;
  stop_mono = 0;
  query_mono = 0;
  data_loss = 0;
  rv7_sess_id = 0;
  sub_count = 0;
  sub_digest = 0;
  state = rv_host_unknown;
  cid = 0;
}

abbrev pub host_at : Db → ℕ → HostEntry
host_at db i = get_or db.host_tab i no_host_entry

abbrev pub put_host : ℕ → HostEntry → Db → Db
put_host i host db = record db { host_tab = set db.host_tab i host }

-- The session of a name.
abbrev pub find_name : List ℕ → List SessionEntry → Option SessionEntry
find_name name [] = none
find_name name (s ∷ ss) =
    let rest = find_name name ss in if same_bytes s.value name then some s else rest

-- `get_session( sess_id, sess_hash )`
abbrev pub find_session : ℕ → ℕ → List SessionEntry → Option SessionEntry
find_session sess_id sess_hash [] = none
find_session sess_id sess_hash (s ∷ ss) =
    let rest = find_session sess_id sess_hash ss in
    if (s.hash == sess_hash) && (s.session_id == sess_id) then some s else rest

-- A change of the session of a name.
abbrev pub update_session :
    List ℕ → (SessionEntry → SessionEntry) → List SessionEntry → List SessionEntry
update_session name f [] = []
update_session name f (s ∷ ss) =
    let rest = update_session name f ss in if same_bytes s.value name then f s ∷ ss else s ∷ rest

abbrev pub find_sub : List ℕ → List Subscription → Option Subscription
find_sub value [] = none
find_sub value (s ∷ ss) =
    let rest = find_sub value ss in if same_bytes s.value value then some s else rest

-- `get_subject( sub_id, sub_hash )`
abbrev pub get_subject : ℕ → ℕ → List Subscription → Option Subscription
get_subject sub_id sub_hash [] = none
get_subject sub_id sub_hash (s ∷ ss) =
    let rest = get_subject sub_id sub_hash ss in
    if (s.hash == sub_hash) && (s.subject_id == sub_id) then some s else rest

-- A change of the subject of an identifier.
abbrev pub update_sub : ℕ → (Subscription → Subscription) → List Subscription → List Subscription
update_sub sub_id f [] = []
update_sub sub_id f (s ∷ ss) = (if s.subject_id == sub_id then f s else s) ∷ update_sub sub_id f ss

abbrev pub change_session : List ℕ → (SessionEntry → SessionEntry) → Db → Db
change_session name f db = record db { session_tab = update_session name f db.session_tab }

abbrev pub change_sub : ℕ → (Subscription → Subscription) → Db → Db
change_sub sub_id f db = record db { sub_tab = update_sub sub_id f db.sub_tab }

abbrev pub is_wild : List ℕ → Bool
is_wild value = elim (is_rv_wildcard value) [ none ↦ false | some i ↦ true ]

abbrev pub same_wild : Bool → Bool → Bool
same_wild true b = b
same_wild false b = not b

-- `sub_hash_count`
abbrev pub sub_hash_count : List ℕ → ℕ → List Subscription → ℕ
sub_hash_count sub sub_hash [] = 0
sub_hash_count sub sub_hash (s ∷ ss) =
    let rest = sub_hash_count sub sub_hash ss in
    if (s.hash == sub_hash) && (not (s.refcnt == 0) && same_wild (is_wild s.value) (is_wild sub))
    then suc rest
    else rest

module _ (E : Env) where
  abbrev pub tell : Event → Db → Db
  tell e db = if E.has_listener then record db { events = db.events ++ e ∷ [] } else db

  abbrev pub hash_host_id : ℕ → ℕ → ℕ
  hash_host_id host_id cid = if cid == 0 then host_id else xor32 host_id (E.kv_hash_uint cid)

  abbrev pub host_index : ℕ → ℕ → Db → Option ℕ
  host_index host_id cid db = lookup (hash_host_id host_id cid) db.host_ht

  -- `find_host`, by the index.
  abbrev pub find_host : ℕ → ℕ → Db → Option ℕ
  find_host host_id cid db = elim (host_index host_id cid db) [
    | none ↦ none
    | some i ↦ (if ltb i (length db.host_tab) then some i else none)
  ]

  -- `RV_HOST_START <= state < RV_HOST_STOP`
  abbrev pub is_running : HostEntry → Bool
  is_running host = leb 2 (host_code host.state) && ltb (host_code host.state) 5

  abbrev pub host_exists : ℕ → ℕ → Db → Option ℕ
  host_exists host_id cid db = elim (host_index host_id cid db) [
    | none ↦ none
    | some i ↦ (if is_running (host_at db i) then some i else none)
  ]

  -- A trailing zero byte of a name is not hashed.
  abbrev pub trim : List ℕ → List ℕ
  trim [] = []
  trim (c ∷ []) = if c == 0 then [] else c ∷ []
  trim (c ∷ d ∷ s) = c ∷ trim (d ∷ s)

  abbrev pub pair_hash : List ℕ → List ℕ → ℕ
  pair_hash session value = E.kv_crc_c value (E.kv_crc_c (trim session) 0)

  -- The subjects that the digest leaves out.
  abbrev pub is_hidden : List ℕ → Bool
  is_hidden [] = true
  is_hidden (c ∷ s) = c == 95

  abbrev pub count_pair : Bool → ℕ → HostEntry → HostEntry
  count_pair is_add hash host = record host {
    sub_count =
        if is_add
        then add32 host.sub_count 1
        else (if ltb 0 host.sub_count then host.sub_count - 1 else host.sub_count);
    sub_digest = xor32 host.sub_digest hash;
  }

  abbrev pub count_at : SessionEntry → List ℕ → Bool → Option ℕ → Db → Db
  count_at sess value is_add none db = db
  count_at sess value is_add (some i) db =
      put_host i (count_pair is_add (pair_hash sess.value value) (host_at db i)) db

  unfoldable pub host_digest : SessionEntry → List ℕ → Bool → Db → Db
  host_digest sess value is_add db =
      if is_hidden value
      then db
      else count_at sess value is_add (find_host sess.host_id sess.cid db) db
