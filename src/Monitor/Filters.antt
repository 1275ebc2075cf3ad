-- ===== src/Monitor/Filters.antt =====
-- What the monitor subscribes to: `add_wildcard`, `is_matched`, `start_subscriptions`,
-- `stop_subscriptions`, `do_subscriptions` and `do_wild_subscription` of src/submgr.cpp.
use sassrv.Base.{
  ℕ, ◌-◌, Bool, true, false, not, ◌&&◌, ◌||◌, List, [], ◌∷◌, ◌++◌, length, ltb, ◌==◌, if◌then◌else◌,
  some, add32, get_or, take,
}
use sassrv.Monitor.Wildcard.{match_rv_wildcard}
use sassrv.Monitor.Ids.{
  SubKind, is_listen_start, is_listen_stop, is_snap, is_sass, is_tic_reply, prefix_of, rv_info_sub,
}
use sassrv.Monitor.Entry.{rv_host_query, set_host_state}
use sassrv.Monitor.Db.{
  Env, Db, Result, returned, ◌>>=◌, Event, subscribe, unsubscribe, host_at, put_host,
}
use sassrv.Monitor.Db.Hosts.{host_ref}
use sassrv.Monitor.Sessions.{session_start}
use sassrv.Monitor.Events.{send_pub}

-- `wildcard[ len - 1 ]`
abbrev pub last_byte : List ℕ → ℕ
last_byte w = get_or w (length w - 1) 0

-- `suflen` is 2 for the empty pattern, and for one that does not end in `>`, and 0 otherwise.
abbrev pub suffixed : List ℕ → List ℕ
suffixed [] = 46 ∷ 62 ∷ []
suffixed (c ∷ w) = if last_byte (c ∷ w) == 62 then c ∷ w else (c ∷ w) ++ 46 ∷ 62 ∷ []

unfoldable pub add_wildcard : List ℕ → Db → Db
add_wildcard wildcard db = record db { filters = db.filters ++ suffixed wildcard ∷ [] }

abbrev pub any_match : List (List ℕ) → List ℕ → Bool
any_match [] sub = false
any_match (f ∷ fs) sub = match_rv_wildcard f sub || any_match fs sub

unfoldable pub is_matched : List (List ℕ) → List ℕ → Bool
is_matched [] sub = true
is_matched (f ∷ fs) sub = any_match (f ∷ fs) sub

-- A `>` at the end goes, and the dot before it, where the pattern has more than two bytes.
abbrev pub without_gt : List ℕ → List ℕ
without_gt w = if ltb 2 (length w) && (last_byte w == 62) then take (length w - 2) w else w

-- The subject of `do_wild_subscription`.
abbrev pub wild_subject : SubKind → List ℕ → List ℕ
wild_subject is_sass w = prefix_of is_sass ++ (without_gt w ++ 46 ∷ 83 ∷ 85 ∷ 66 ∷ [])
wild_subject k w = prefix_of k ++ w

abbrev pub is_filtered : SubKind → Bool
is_filtered is_listen_start = true
is_filtered is_listen_stop = true
is_filtered is_snap = true
is_filtered _ = false

abbrev pub wild_subjects : SubKind → List (List ℕ) → List (List ℕ)
wild_subjects k [] = []
wild_subjects k (f ∷ fs) = wild_subject k f ∷ wild_subjects k fs

-- The subjects of a kind, for the first, the second and the third test of the loop.
abbrev pub sass_subjects : Db → List (List ℕ)
sass_subjects db =
    if db.is_all_subscribed
    then wild_subjects is_sass ((42 ∷ []) ∷ [])
    else wild_subjects is_sass db.filters

abbrev pub info_subjects : SubKind → Db → List (List ℕ)
info_subjects k db =
    if not db.is_all_subscribed && is_filtered k
    then wild_subjects k db.filters
    else (prefix_of k ++ 62 ∷ []) ∷ []

abbrev pub kind_subjects : SubKind → Db → List (List ℕ)
kind_subjects is_sass db = if db.is_sass3 then sass_subjects db else []
kind_subjects is_tic_reply db =
    if db.is_tic then wild_subjects is_tic_reply ((62 ∷ []) ∷ []) else []
kind_subjects k db = if db.is_sass2 then info_subjects k db else []

abbrev pub all_subjects : List SubKind → Db → List (List ℕ)
all_subjects [] db = []
all_subjects (k ∷ ks) db = kind_subjects k db ++ all_subjects ks db

abbrev pub publish_all : (List ℕ → Event) → List (List ℕ) → Db → Db
publish_all f [] db = db
publish_all f (s ∷ ss) db = publish_all f ss (send_pub (f s) db)

unfoldable pub do_subscriptions : Bool → Db → Db
do_subscriptions is_subscribe db =
    publish_all (if is_subscribe then subscribe else unsubscribe) (all_subjects rv_info_sub db) db

unfoldable pub stop_subscriptions : Db → Db
unfolding do_subscriptions
stop_subscriptions db =
    if db.is_subscribed then do_subscriptions false (record db { is_subscribed = false }) else db

module _ (E : Env) where
  -- The session of the monitor's own client; "self" is its user.
  abbrev pub start_self : Db → Result Db
  start_self db = host_ref E E.ipaddr E.cid true db >>= λ r.
      session_start E (host_at r.1 r.0).host_id E.cid E.session true
        (some (115 ∷ 101 ∷ 108 ∷ 102 ∷ []))
        (put_host r.0 (set_host_state rv_host_query (host_at r.1 r.0)) r.1)

  abbrev pub subscribed : Bool → Bool → Bool → Bool → ℕ → Db → Db
  subscribed all s2 s3 tic now db = record db {
    host_ht = [];
    sess_ht = [];
    is_subscribed = true;
    is_all_subscribed = all;
    is_sass2 = s2;
    is_sass3 = s3;
    is_tic = tic;
    cur_mono = now;
    next_gc = add32 now 131;
  }

  unfoldable pub start_subscriptions : Bool → Bool → Bool → Bool → ℕ → Db → Result Db
  unfolding do_subscriptions host_ref session_start
  start_subscriptions all s2 s3 tic now db =
      if db.is_subscribed
      then returned db
      else (if s2
          then start_self (do_subscriptions true (subscribed all s2 s3 tic now db))
          else returned (do_subscriptions true (subscribed all s2 s3 tic now db)))
