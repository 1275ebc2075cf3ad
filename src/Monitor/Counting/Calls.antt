-- ===== src/Monitor/Counting/Calls.antt =====
-- The calls on hosts and sessions keep the tables valid: `host_ref`, `host_start`, `unsub_host`,
-- `add_session` and `rem_session` of src/submgr.cpp.
use sassrv.Base.{
  zero, ℕ, suc, Bool, true, false, not, List, [], ◌∷◌, ◌++◌, ltb, if◌then◌else◌, Option, none, some,
  ◌≡◌, ◌≢◌, refl, sym, ap, ◌∙◌, arith, Option-cases, inl, inr, either, length,
}
use mathlib.Core.Path.{subst}
use sassrv.Base.Dict.{Dict, contains, put}
use sassrv.Monitor.Entry.{
  SessionEntry, HostEntry, in_host_state, rv_host_stop, start_host_entry, stop_session,
  status_host_entry, ref_host_entry, host_add_session, host_rem_session,
}
use sassrv.Monitor.Db.{
  Env, Db, Result, returned, null_read, overrun, stuck, ◌>>=◌, not_null, find_name, find_session,
  host_at, put_host, hash_host_id, host_index, add_active,
}
use sassrv.Monitor.Db.Hosts.{
  host_ref, host_start, slot_is_free, wait_slot, new_ref, known_ref, ref_index, place_host,
  start_index,
}
use sassrv.Monitor.Sessions.{
  entries_of, unsub_loop, unsub_session, unsub_sessions, unsub_host, host_stop, add_session,
  rem_session, host_joined, host_parted,
}
use sassrv.Monitor.Counting.{holders, one_if, IsValid, IsDistinct}
use sassrv.Monitor.Counting.Names.{find_session-find_name, find_name-updated}
use sassrv.Monitor.Counting.Operations.{IsNear, IsNear-tables, IsBalanced-IsNear}
use sassrv.Monitor.Counting.Operations.Unsub.{unsub_session-IsBalanced, unsub_session-names}

-- What holds of the result of a call that returns.
abbrev pub Ends : {A : Type 0} → (A → Type 0) → Result A → Type 0
Ends P (returned a) = P a
Ends P null_read = Unit
Ends P overrun = Unit
Ends P stuck = Unit

pub Ends-bind :
    {A B : Type 0} (P : A → Type 0) (Q : B → Type 0) (m : Result A) (f : A → Result B)
    → Ends P m
    → ((a : A) → P a → Ends Q (f a))
    → Ends Q (m >>= f)
Ends-bind P Q (returned a) f h k = k a h
Ends-bind P Q null_read f h k = tt
Ends-bind P Q overrun f h k = tt
Ends-bind P Q stuck f h k = tt

pub Ends-not_null :
    {A B : Type 0} (Q : B → Type 0) (o : Option A) (f : A → Result B)
    → ((a : A) → o ≡ some a → Ends Q (f a))
    → Ends Q (not_null o >>= f)
Ends-not_null Q none f k = tt
Ends-not_null Q (some a) f k = k a refl

pub Ends-returned :
    {A : Type 0} (P : A → Type 0) (r : Result A) (a : A) → r ≡ returned a → Ends P r → P a
Ends-returned P r a e h = subst (Ends P) e h

pub Ends-mono :
    {A : Type 0} (P Q : A → Type 0) (r : Result A) → ((a : A) → P a → Q a) → Ends P r → Ends Q r
Ends-mono P Q (returned a) k h = k a h
Ends-mono P Q null_read k h = tt
Ends-mono P Q overrun k h = tt
Ends-mono P Q stuck k h = tt

pub true_not_false : true ≢ false
true_not_false e = cc

pub not-false : (b : Bool) → not b ≡ false → b ≡ true
not-false true h = refl
not-false false h = absurd (true_not_false h)

pub holders-blank :
    (sub_id : ℕ) (ss : List SessionEntry) (e : SessionEntry)
    → e.sub_ht ≡ none
    → holders sub_id (ss ++ e ∷ []) ≡ holders sub_id ss
holders-blank sub_id [] e h = omega (arith, ap (λ t. one_if (contains sub_id (entries_of t))) h)
holders-blank sub_id (s ∷ ss) e h = omega (arith, holders-blank sub_id ss e h)

-- No change of the sessions, the subjects and the counter of subjects.
abbrev pub IsSame : Db → Db → Type 0
IsSame db db' =
    (db'.session_tab ≡ db.session_tab)
    × ((db'.sub_tab ≡ db.sub_tab) × (db'.next_subject_ctr ≡ db.next_subject_ctr))

pub IsSame-IsNear : (db db' : Db) → IsSame db db' → IsNear db db'
IsSame-IsNear db db' h = IsNear-tables db db' h.0 h.1.0 h.1.1

pub IsValid-IsNear : (E : Env) (db db' : Db) → IsNear db db' → IsValid E db → IsValid E db'
IsValid-IsNear E db db' near h =
    (IsBalanced-IsNear E db db' near h.0, subst IsDistinct (sym near.like.same_names) h.1)

-- The session of a name, if there is one, holds nothing.
abbrev pub HoldsNone : List ℕ → Db → Type 0
HoldsNone name db =
    (e : SessionEntry) → find_name name db.session_tab ≡ some e → entries_of e.sub_ht ≡ []

pub HoldsNone-IsSame :
    (name : List ℕ) (db db' : Db) → IsSame db db' → HoldsNone name db → HoldsNone name db'
HoldsNone-IsSame name db db' same h e found = h e (sym (ap (find_name name) same.0) ∙ found)

put_host-IsSame : (i : ℕ) (host : HostEntry) (db : Db) → IsSame db (put_host i host db)
put_host-IsSame i host db = (refl, (refl, refl))

module _ (E : Env) where
  known_ref-IsSame :
      (host_id cid : ℕ) (is_status : Bool) (i : ℕ) (db : Db)
      → IsSame db (known_ref E host_id cid is_status i db)
  known_ref-IsSame host_id cid is_status i db =
      let fresh = start_host_entry host_id cid db.cur_mono false is_status in
      either (IsSame db) (in_host_state (host_at db i).state rv_host_stop)
        (put_host i fresh (record db { hosts = add_active db.hosts }))
        (if is_status
          then put_host i (status_host_entry db.cur_mono (host_at db i)) db
          else put_host i (ref_host_entry db.cur_mono (host_at db i)) db)
        (refl, (refl, refl))
        (either (IsSame db) is_status (put_host i (status_host_entry db.cur_mono (host_at db i)) db)
          (put_host i (ref_host_entry db.cur_mono (host_at db i)) db) (refl, (refl, refl))
          (refl, (refl, refl)))

  place_host-IsSame : (i : ℕ) (host : HostEntry) (db : Db) → IsSame db (place_host E i host db)
  place_host-IsSame i host db =
      either (IsSame db) (ltb i (length db.host_tab)) (put_host i host db)
        (record db { host_tab = db.host_tab ++ host ∷ [] }) (refl, (refl, refl))
        (refl, (refl, refl))

  -- The wait for a slot changes nothing.
  wait_slot-same : (rounds : ℕ) (db : Db) → Ends (λ (d : Db). d ≡ db) (wait_slot E rounds db)
  unfolding wait_slot
  wait_slot-same zero db = tt
  wait_slot-same (suc rounds) db =
      either (Ends (λ (d : Db). d ≡ db)) (slot_is_free E db) (returned db) (wait_slot E rounds db)
        refl (wait_slot-same rounds db)

  pub host_ref-IsSame :
      (host_id cid : ℕ) (is_status : Bool) (db : Db)
      → Ends (λ (r : ℕ × Db). IsSame db r.1) (host_ref E host_id cid is_status db)
  unfolding host_ref
  host_ref-IsSame host_id cid is_status db = ref_index-IsSame (host_index E host_id cid db)
    where
      taken : Db → Db
      taken d = record d {
        first_free_host = suc d.first_free_host;
        hosts = add_active d.hosts;
        host_ht = put (hash_host_id E host_id cid) d.first_free_host d.host_ht;
      }

      ref_index-IsSame :
          (o : Option ℕ)
          → Ends (λ (r : ℕ × Db). IsSame db r.1) (ref_index E host_id cid is_status db o)
      ref_index-IsSame none =
          Ends-bind (λ (d : Db). d ≡ db) (λ (r : ℕ × Db). IsSame db r.1) (wait_slot E E.rounds db) _
            (wait_slot-same E.rounds db)
            (λ d same.
              subst (λ x. IsSame db (new_ref E host_id cid is_status x)) (sym same)
                (place_host-IsSame db.first_free_host
                  (start_host_entry host_id cid db.cur_mono false is_status) (taken db)))
      ref_index-IsSame (some i) = known_ref-IsSame host_id cid is_status i db

  pub host_start-IsSame : (host_id cid : ℕ) (db : Db) → IsSame db (host_start E host_id cid db)
  unfolding host_start
  host_start-IsSame host_id cid db = go (host_index E host_id cid db)
    where
      go : (o : Option ℕ) → IsSame db (start_index E host_id cid db o)
      go none = (refl, (refl, refl))
      go (some i) = (refl, (refl, refl))

  pub unsub_session-IsValid :
      (sess : SessionEntry) (db : Db)
      → find_name sess.value db.session_tab ≡ some sess
      → IsValid E db
      → IsValid E (unsub_session E sess db)
  unsub_session-IsValid sess db found h = (
    unsub_session-IsBalanced E sess db found h.0,
    subst IsDistinct (sym (unsub_session-names E sess db found h.0)) h.1,
  )

  unsub_sessions-IsValid : (d : Dict ℕ) (db : Db) → IsValid E db → IsValid E (unsub_sessions E d db)
  unfolding unsub_sessions
  unsub_sessions-IsValid [] db h = h
  unsub_sessions-IsValid ((sess_id, sess_hash) ∷ d) db h =
      elim (Option-cases (find_session sess_id sess_hash db.session_tab)) [
        | inl absent ↦ subst (λ o. IsValid E (next o)) (sym absent) h
        | inr present ↦
            let known =
              find_session-find_name sess_id sess_hash db.session_tab present.0 present.1 h.1 in
            subst (λ o. IsValid E (next o)) (sym present.1)
              (unsub_sessions-IsValid d (unsub_session E present.0 db)
                (unsub_session-IsValid present.0 db known h))
      ]
    where
      next : Option SessionEntry → Db
      next none = db
      next (some s) = unsub_sessions E d (unsub_session E s db)

  pub unsub_host-IsValid : (i : ℕ) (db : Db) → IsValid E db → IsValid E (unsub_host E i db)
  unfolding unsub_host
  unsub_host-IsValid i db h = unsub_sessions-IsValid (entries_of (host_at db i).sess_ht) db h

  pub host_stop-IsValid :
      (host_id cid : ℕ) (db : Db) → IsValid E db → IsValid E (host_stop E host_id cid db)
  unfolding host_stop
  host_stop-IsValid host_id cid db h =
      elim (host_index E host_id cid db)
        as (λ o. IsValid E (elim o [ none ↦ db | some i ↦ unsub_host E i db ])) [
          | none ↦ h
          | some i ↦ unsub_host-IsValid i db h
        ]

  pub add_session-IsSame :
      (i : ℕ) (sess : SessionEntry) (db : Db) → Ends (IsSame db) (add_session E i sess db)
  unfolding add_session
  add_session-IsSame i sess db =
      Ends-not_null (IsSame db) (host_add_session (host_at db i) sess) _ (λ r _.
        either (IsSame db) r.0 (host_joined E i sess r.1 db) db (refl, (refl, refl))
          (refl, (refl, refl)))

  -- The session is gone: its entry is there, and holds nothing.
  abbrev pub IsGone : List ℕ → Db → Type 0
  IsGone name db = IsValid E db × HoldsNone name db

  unsub_session-HoldsNone :
      (sess : SessionEntry) (db : Db) → HoldsNone sess.value (unsub_session E sess db)
  unfolding unsub_session stop_session
  unsub_session-HoldsNone sess db e found =
      let (old, same) =
        find_name-updated sess.value (stop_session db.cur_mono)
          (unsub_loop E (entries_of sess.sub_ht) sess db).session_tab e (λ x. refl) found in
      ap (λ x. entries_of x.sub_ht) (sym same)

  pub rem_session-IsGone :
      (i : ℕ) (sess : SessionEntry) (db : Db)
      → find_name sess.value db.session_tab ≡ some sess
      → IsValid E db
      → Ends (IsGone sess.value) (rem_session E i sess db)
  unfolding rem_session
  rem_session-IsGone i sess db found h =
      let after = unsub_session E sess db in
      let gone : IsGone sess.value after =
        (unsub_session-IsValid sess db found h, unsub_session-HoldsNone sess db) in
      Ends-not_null (IsGone sess.value) (host_rem_session (host_at after i) sess)
        (λ r. returned (if r.0 then host_parted E i r.1 after else after))
        (λ r _. either (IsGone sess.value) r.0 (host_parted E i r.1 after) after gone gone)
