-- ===== src/Monitor/Db/Hosts.antt =====
-- `host_ref` and `host_start` of src/submgr.cpp.
pub mod Slots
use sassrv.Base.{
  ℕ, ◌+◌, zero, suc, Bool, true, false, ◌||◌, [], ◌∷◌, ◌++◌, length, ltb, ◌==◌, if◌then◌else◌,
  Option, none, some,
}
use sassrv.Base.Dict.{put}
use sassrv.Monitor.Entry.{
  HostEntry, rv_host_stop, rv_host_query, in_host_state, start_host_entry, status_host_entry,
  ref_host_entry, set_host_state,
}
use sassrv.Monitor.Db.{
  Env, Db, Result, returned, stuck, ◌>>=◌, host_at, put_host, add_active, hash_host_id, host_index,
}

module _ (E : Env) where
  -- The test of the `for(;;)` of `host_ref`, whose body changes nothing.
  abbrev pub slot_is_free : Db → Bool
  slot_is_free db =
      (db.first_free_host == length db.host_tab)
      || in_host_state (host_at db db.first_free_host).state rv_host_stop

  -- The `for(;;)` itself, which leaves by `break` alone.
  unfoldable pub wait_slot : ℕ → Db → Result Db
  wait_slot zero db = stuck
  wait_slot (suc rounds) db =
      let later = wait_slot rounds db in if slot_is_free db then returned db else later

  -- The entry at `i`, or one more at the end.
  abbrev pub place_host : ℕ → HostEntry → Db → Db
  place_host i host db =
      if ltb i (length db.host_tab)
      then put_host i host db
      else record db { host_tab = db.host_tab ++ host ∷ [] }

  abbrev pub new_ref : ℕ → ℕ → Bool → Db → Db
  new_ref host_id cid is_status db =
      place_host db.first_free_host (start_host_entry host_id cid db.cur_mono false is_status)
        (record db {
          first_free_host = suc db.first_free_host;
          hosts = add_active db.hosts;
          host_ht = put (hash_host_id E host_id cid) db.first_free_host db.host_ht;
        })

  abbrev pub known_ref : ℕ → ℕ → Bool → ℕ → Db → Db
  known_ref host_id cid is_status i db =
      if in_host_state (host_at db i).state rv_host_stop
      then put_host i (start_host_entry host_id cid db.cur_mono false is_status)
          (record db { hosts = add_active db.hosts })
      else (if is_status
          then put_host i (status_host_entry db.cur_mono (host_at db i)) db
          else put_host i (ref_host_entry db.cur_mono (host_at db i)) db)

  abbrev pub ref_index : ℕ → ℕ → Bool → Db → Option ℕ → Result (ℕ × Db)
  ref_index host_id cid is_status db none = wait_slot E.rounds db >>= λ db'.
      returned (db'.first_free_host, new_ref host_id cid is_status db')
  ref_index host_id cid is_status db (some i) = returned (i, known_ref host_id cid is_status i db)

  -- The result is the index of the host.
  unfoldable pub host_ref : ℕ → ℕ → Bool → Db → Result (ℕ × Db)
  unfolding wait_slot
  host_ref host_id cid is_status db =
      ref_index host_id cid is_status db (host_index E host_id cid db)

  abbrev pub restart : ℕ → ℕ → ℕ → HostEntry → HostEntry
  restart host_id cid cur_mono old =
      if in_host_state old.state rv_host_stop
      then start_host_entry host_id cid cur_mono true false
      else set_host_state rv_host_query (start_host_entry host_id cid cur_mono true false)

  abbrev pub start_index : ℕ → ℕ → Db → Option ℕ → Db
  start_index host_id cid db none = record db {
    host_ht = put (hash_host_id E host_id cid) (length db.host_tab) db.host_ht;
    host_tab = db.host_tab ++ start_host_entry host_id cid db.cur_mono true false ∷ [];
  }
  start_index host_id cid db (some i) =
      put_host i (restart host_id cid db.cur_mono (host_at db i)) db

  unfoldable pub host_start : ℕ → ℕ → Db → Db
  host_start host_id cid db = start_index host_id cid db (host_index E host_id cid db)
