-- ===== src/Monitor/Db/Hosts/Slots.antt =====
-- When `host_ref` returns: the slot of a new host.
use sassrv.Base.{
  ℕ, Bool, true, false, not, ◌||◌, [], ◌∷◌, ◌++◌, length, ◌==◌, ◌≡◌, ◌≢◌, refl, ap, ap₂, ◌∙◌,
  if◌then◌else◌, none, some, get_or, arith, get_or-append_end, length-append, ne→==, if_either, ◌<◌,
  suc, zero, sym, inl, inr, ◌⊎◌, ◌↔◌, either, Bool-cases, Option-cases, ltb,
}
use sassrv.Base.Dict.{put, lookup-put_self}
use mathlib.Core.Path.{subst}
use sassrv.Monitor.Entry.{
  rv_host_stop, rv_host_start, rv_host_cid, in_host_state, start_host_entry, status_host_entry,
  ref_host_entry,
}
use sassrv.Monitor.Db.{
  Env, Db, Result, returned, stuck, null_read, overrun, ◌>>=◌, no_host_entry, host_index, host_at,
  put_host, add_active, hash_host_id,
}
use sassrv.Monitor.Db.Hosts.{
  slot_is_free, wait_slot, ref_index, host_ref, start_index, host_start, new_ref, known_ref,
}

-- A call that returns, and a call that never does.
abbrev pub Returns : {A : Type 0} → Result A → Type 0
Returns {A} r = (a : A) × (r ≡ returned a)

module _ (E : Env) where
  -- A new host and a slot that is in use.
  wait_busy : (rounds : ℕ) (db : Db) → slot_is_free E db ≡ false → wait_slot E rounds db ≡ stuck
  unfolding wait_slot
  wait_busy zero db busy = refl
  wait_busy (suc rounds) db busy =
      ap (λ b. if b then returned db else wait_slot E rounds db) busy ∙ wait_busy rounds db busy

  wait_free :
      (rounds : ℕ) (db : Db)
      → 0 < rounds
      → slot_is_free E db ≡ true
      → wait_slot E rounds db ≡ returned db
  unfolding wait_slot
  wait_free zero db some_left free = absurd (omega arith)
  wait_free (suc rounds) db some_left free =
      ap (λ b. if b then returned db else wait_slot E rounds db) free

  -- The rest of `host_ref` after the wait.
  abbrev taken : ℕ → ℕ → Bool → Result Db → Result (ℕ × Db)
  taken host_id cid is_status r =
      r >>= λ d. returned (d.first_free_host, new_ref E host_id cid is_status d)

  host_ref-busy :
      (host_id cid : ℕ) (is_status : Bool) (db : Db)
      → host_index E host_id cid db ≡ none
      → slot_is_free E db ≡ false
      → host_ref E host_id cid is_status db ≡ stuck
  unfolding host_ref
  host_ref-busy host_id cid is_status db new busy =
      ap (ref_index E host_id cid is_status db) new
      ∙ ap (taken host_id cid is_status) (wait_busy E.rounds db busy)

  host_ref-free :
      (host_id cid : ℕ) (is_status : Bool) (db : Db)
      → 0 < E.rounds
      → host_index E host_id cid db ≡ none
      → slot_is_free E db ≡ true
      → host_ref E host_id cid is_status db
        ≡ returned (db.first_free_host, new_ref E host_id cid is_status db)
  unfolding host_ref
  host_ref-free host_id cid is_status db some_left new free =
      ap (ref_index E host_id cid is_status db) new
      ∙ ap (taken host_id cid is_status) (wait_free E.rounds db some_left free)

  host_ref-known :
      (host_id cid i : ℕ) (is_status : Bool) (db : Db)
      → host_index E host_id cid db ≡ some i
      → host_ref E host_id cid is_status db ≡ returned (i, known_ref E host_id cid is_status i db)
  unfolding host_ref
  host_ref-known host_id cid i is_status db known = ap (ref_index E host_id cid is_status db) known

  stuck_not_returned : {A : Type 0} (a : A) → stuck ≢ returned a
  stuck_not_returned a e = cc

  returned-inj : {A : Type 0} (d a b : A) → returned a ≡ returned b → a ≡ b
  returned-inj {A} d a b e =
      ap (λ (r : Result A). elim r [ returned x ↦ x | null_read ↦ d | overrun ↦ d | stuck ↦ d ]) e

  -- The index of a host that is known, and of one that has been given a slot.
  known_ref-index :
      (host_id cid i : ℕ) (is_status : Bool) (db : Db)
      → host_index E host_id cid db ≡ some i
      → host_index E host_id cid (known_ref E host_id cid is_status i db) ≡ some i
  known_ref-index host_id cid i is_status db known =
      either (λ d. host_index E host_id cid d ≡ some i)
        (in_host_state (host_at db i).state rv_host_stop)
        (put_host i (start_host_entry host_id cid db.cur_mono false is_status)
          (record db { hosts = add_active db.hosts }))
        (if is_status
          then put_host i (status_host_entry db.cur_mono (host_at db i)) db
          else put_host i (ref_host_entry db.cur_mono (host_at db i)) db)
        known
        (either (λ d. host_index E host_id cid d ≡ some i) is_status
          (put_host i (status_host_entry db.cur_mono (host_at db i)) db)
          (put_host i (ref_host_entry db.cur_mono (host_at db i)) db) known known)

  new_ref-index :
      (host_id cid : ℕ) (is_status : Bool) (db : Db)
      → host_index E host_id cid (new_ref E host_id cid is_status db) ≡ some db.first_free_host
  new_ref-index host_id cid is_status db =
      let host = start_host_entry host_id cid db.cur_mono false is_status in
      let key = hash_host_id E host_id cid in
      let put_db = record db {
        first_free_host = suc db.first_free_host;
        hosts = add_active db.hosts;
        host_ht = put key db.first_free_host db.host_ht;
      } in
      let found = lookup-put_self key db.first_free_host db.host_ht in
      either (λ d. host_index E host_id cid d ≡ some db.first_free_host)
        (ltb db.first_free_host (length db.host_tab)) (put_host db.first_free_host host put_db)
        (record put_db { host_tab = db.host_tab ++ host ∷ [] }) found found

  abbrev pub IsKnown : ℕ → ℕ → Db → Type 0
  IsKnown host_id cid db = (i : ℕ) × (host_index E host_id cid db ≡ some i)

  -- `host_ref`, its loop followed for one round or more, returns just when the host is known or the
  -- slot of `first_free_host` is free, whatever the number of rounds; when it returns, the index
  -- returned is that of the host in the state returned.
  pub host_ref-Returns :
      (host_id cid : ℕ) (is_status : Bool) (db : Db)
      → 0 < E.rounds
      → (Returns (host_ref E host_id cid is_status db)
          ↔ (IsKnown host_id cid db ⊎ (slot_is_free E db ≡ true)))
        × ((r : ℕ × Db)
            → host_ref E host_id cid is_status db ≡ returned r
            → host_index E host_id cid r.1 ≡ some r.0)
  host_ref-Returns host_id cid is_status db some_left =
      elim (Option-cases (host_index E host_id cid db)) [
        | inr (i, known) ↦
            let call = host_ref-known host_id cid i is_status db known in
            let r' : ℕ × Db = (i, known_ref E host_id cid is_status i db) in
            (
              ((λ k. inl (i, known)), λ k. (r', call)),
              λ r e.
                  subst (λ (x : ℕ × Db). host_index E host_id cid x.1 ≡ some x.0)
                    (returned-inj r r' r (sym call ∙ e))
                    (known_ref-index host_id cid i is_status db known),
            )
        | inl new ↦ elim (Bool-cases (slot_is_free E db)) [
          | inl free ↦
              let call = host_ref-free host_id cid is_status db some_left new free in
              let r' : ℕ × Db = (db.first_free_host, new_ref E host_id cid is_status db) in
              (
                ((λ k. inr free), λ k. (r', call)),
                λ r e.
                    subst (λ (x : ℕ × Db). host_index E host_id cid x.1 ≡ some x.0)
                      (returned-inj r r' r (sym call ∙ e)) (new_ref-index host_id cid is_status db),
              )
          | inr busy ↦
              let call = host_ref-busy host_id cid is_status db new busy in
              (
                (
                  (λ k. absurd (stuck_not_returned k.0 (sym call ∙ k.1))),
                  λ k. absurd (none_of new busy k),
                ),
                λ r e. absurd (stuck_not_returned r (sym call ∙ e)),
              )
        ]
      ]
    where
      none_of :
          host_index E host_id cid db ≡ none
          → slot_is_free E db ≡ false
          → IsKnown host_id cid db ⊎ (slot_is_free E db ≡ true)
          → ⊥
      none_of new busy (inl (i, known)) = cc
      none_of new busy (inr free) = cc

  start_host_entry-runs :
      (host_id cid now : ℕ)
      → in_host_state (start_host_entry host_id cid now true false).state rv_host_stop ≡ false
  unfolding start_host_entry
  start_host_entry-runs host_id cid now =
      if_either (λ s. in_host_state s rv_host_stop) false (not (cid == 0)) rv_host_cid rv_host_start
        refl refl

  -- Where every slot has been given out, the start of a new host adds it at the end and leaves
  -- `first_free_host` where it is. In the state right after that the slot is in use, and `host_ref` of
  -- any other new host is still in its loop after whatever number of rounds.
  pub host_start-stuck :
      (host_id cid other_id other_cid : ℕ) (is_status : Bool) (db : Db)
      → db.first_free_host ≡ length db.host_tab
      → host_index E host_id cid db ≡ none
      → host_index E other_id other_cid (host_start E host_id cid db) ≡ none
      → let after = host_start E host_id cid db in
        (after.host_tab ≡ db.host_tab ++ start_host_entry host_id cid db.cur_mono true false ∷ [])
        × ((after.first_free_host ≡ length db.host_tab)
            × ((slot_is_free E after ≡ false)
                × (host_ref E other_id other_cid is_status after ≡ stuck)))
  unfolding host_start
  host_start-stuck host_id cid other_id other_cid is_status db full new other =
      let after = start_index E host_id cid db none in
      let same : after ≡ start_index E host_id cid db (host_index E host_id cid db) =
        ap (start_index E host_id cid db) (sym new) in
      subst
        (λ d.
          (d.host_tab ≡ db.host_tab ++ start_host_entry host_id cid db.cur_mono true false ∷ [])
          × ((d.first_free_host ≡ length db.host_tab)
              × ((slot_is_free E d ≡ false) × (host_ref E other_id other_cid is_status d ≡ stuck))))
        same
        (
          refl,
          (
            full,
            (
              busy full,
              host_ref-busy other_id other_cid is_status after
                  (subst (λ d. host_index E other_id other_cid d ≡ none) (sym same) other)
                  (busy full),
            ),
          ),
        )
    where
      busy :
          db.first_free_host ≡ length db.host_tab
          → slot_is_free E (start_index E host_id cid db none) ≡ false
      busy h =
          let entry = start_host_entry host_id cid db.cur_mono true false in
          let tab = db.host_tab ++ entry ∷ [] in
          let at : get_or tab db.first_free_host no_host_entry ≡ entry =
            ap (λ i. get_or tab i no_host_entry) h
            ∙ get_or-append_end db.host_tab entry no_host_entry in
          let grown : db.first_free_host ≢ length tab =
            λ e. omega (arith, length-append db.host_tab (entry ∷ [])) in
          ap₂ ◌||◌ (ne→== db.first_free_host (length tab) grown) (
            ap (λ x. in_host_state x.state rv_host_stop) at
            ∙ start_host_entry-runs host_id cid db.cur_mono)
