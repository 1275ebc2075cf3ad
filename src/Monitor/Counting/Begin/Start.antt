-- ===== src/Monitor/Counting/Begin/Start.antt =====
-- `session_start` and `session_stop` of src/submgr.cpp keep the tables valid.
use sassrv.Base.{
  ℕ, Bool, true, false, not, ◌&&◌, List, if◌then◌else◌, Option, none, some, ◌≡◌, refl, sym, ap, ◌∙◌,
  either, if_either,
}
use mathlib.Core.Path.{subst}
use sassrv.Monitor.Entry.{
  SessionEntry, in_session_state, rv_session_cid, rv_session_query, rv_session_self,
}
use sassrv.Monitor.Db.{Env, Db, returned, find_name, change_session, host_exists}
use sassrv.Monitor.Sessions.{
  rem_session, upsert_session, begin_session, restarted, is_live, mark_self, start_found,
  session_start, session_stop, needs_start, set_session_state,
}
use sassrv.Monitor.Counting.{IsValid}
use sassrv.Monitor.Counting.Steps.{is_stopped}
use sassrv.Monitor.Counting.Names.{find_name-value}
use sassrv.Monitor.Counting.Operations.{IsNear, IsNear-refl, IsNear-session}
use sassrv.Monitor.Counting.Calls.{
  Ends, Ends-bind, Ends-mono, IsValid-IsNear, HoldsNone, IsGone, rem_session-IsGone, true_not_false,
  not-false,
}
use sassrv.Monitor.Counting.Begin.{
  IsAfter, begin_session-IsValid, listen_stopped-HoldsNone, upsert_session-IsGone,
}

module _ (E : Env) where
  restarted-IsAfter : (was_live : Bool) → IsAfter E (restarted E was_live)
  restarted-IsAfter was_live s =
      let b = was_live && not (in_session_state s.state rv_session_cid) in
      let q = set_session_state rv_session_query s in
      (
        if_either (λ x. x.value) s.value b q s refl refl,
        (
          if_either (λ x. x.sub_ht) s.sub_ht b q s refl refl,
          either (λ x. is_stopped s ≡ false → is_stopped x ≡ false) b q s (λ _. refl) (λ x. x),
        ),
      )

  mark_self-IsNear :
      (is_self : Bool) (name : List ℕ) (db : Db) → IsNear db (mark_self E is_self name db)
  mark_self-IsNear is_self name db =
      either (IsNear db) is_self (change_session name (set_session_state rv_session_self) db) db
        (IsNear-session name (set_session_state rv_session_self) db
          (λ e. (refl, refl, λ h. absurd (true_not_false (sym h)))))
        (IsNear-refl db)

  start_found-IsValid :
      (i host_id cid : ℕ) (name : List ℕ) (is_self : Bool) (user : Option (List ℕ)) (db : Db)
      (o : Option SessionEntry)
      → find_name name db.session_tab ≡ o
      → IsValid E db
      → Ends (IsValid E) (start_found E i host_id cid name is_self user o db)
  start_found-IsValid i host_id cid name is_self user db none absent h =
      let new = upsert_session E name db in
      Ends-bind (IsValid E) (IsValid E) (begin_session E i host_id cid name true user (λ s. s) new)
        _
        (begin_session-IsValid E i host_id cid name true user (λ s. s) new
          (λ s. (refl, (refl, λ x. x)))
          (upsert_session-IsGone E name db h (ap (needs_start E) absent)))
        (λ d valid.
          IsValid-IsNear E d (mark_self E is_self name d) (mark_self-IsNear is_self name d) valid)
  start_found-IsValid i host_id cid name is_self user db (some old) present h =
      let named : old.value ≡ name = find_name-value name db.session_tab old present in
      let own : find_name old.value db.session_tab ≡ some old =
        ap (λ v. find_name v db.session_tab) named ∙ present in
      let quiet : is_live E old ≡ false → HoldsNone name db = λ dead.
        listen_stopped-HoldsNone E name db old present (not-false (is_stopped old) dead) h in
      Ends-bind (IsGone E name) (IsValid E)
        (if is_live E old then rem_session E i old db else returned db) _
        (gone_either (is_live E old) refl
          (subst (λ v. Ends (IsGone E v) (rem_session E i old db)) named
            (rem_session-IsGone E i old db own h))
          (λ dead. (h, quiet dead)))
        (λ d gone.
          Ends-bind (IsValid E) (IsValid E)
            (begin_session E i host_id cid name true user (restarted E (is_live E old)) d) _
            (begin_session-IsValid E i host_id cid name true user (restarted E (is_live E old)) d
              (restarted-IsAfter (is_live E old)) gone)
            (λ d' valid.
              IsValid-IsNear E d' (mark_self E is_self name d') (mark_self-IsNear is_self name d')
                valid))
    where
      gone_either :
          (b : Bool)
          → is_live E old ≡ b
          → Ends (IsGone E name) (rem_session E i old db)
          → (is_live E old ≡ false → IsGone E name db)
          → Ends (IsGone E name) (if b then rem_session E i old db else returned db)
      gone_either true e x y = x
      gone_either false e x y = y e

  pub session_start-IsValid :
      (host_id cid : ℕ) (name : List ℕ) (is_self : Bool) (user : Option (List ℕ)) (db : Db)
      → IsValid E db
      → Ends (IsValid E) (session_start E host_id cid name is_self user db)
  unfolding session_start
  session_start-IsValid host_id cid name is_self user db h =
      elim (host_exists E host_id cid db)
        as (λ o. Ends (IsValid E) (elim o [
          | none ↦ returned db
          | some i ↦
              start_found E i host_id cid name is_self user (find_name name db.session_tab) db
        ])) [
          | none ↦ h
          | some i ↦
              start_found-IsValid i host_id cid name is_self user db (find_name name db.session_tab)
                refl h
        ]

  session_stop_found :
      (name : List ℕ) (db : Db) (o : Option SessionEntry)
      → find_name name db.session_tab ≡ o
      → IsValid E db
      → Ends (IsValid E) (elim o [
        | none ↦ returned db
        | some entry ↦ elim (host_exists E entry.host_id entry.cid db) [
          | none ↦ returned db
          | some i ↦ rem_session E i entry db
        ]
      ])
  session_stop_found name db none absent h = h
  session_stop_found name db (some entry) present h =
      let own : find_name entry.value db.session_tab ≡ some entry =
        ap (λ v. find_name v db.session_tab) (find_name-value name db.session_tab entry present)
        ∙ present in
      elim (host_exists E entry.host_id entry.cid db)
        as (λ o.
          Ends (IsValid E) (elim o [ none ↦ returned db | some i ↦ rem_session E i entry db ])) [
            | none ↦ h
            | some i ↦
                Ends-mono (IsGone E entry.value) (IsValid E) (rem_session E i entry db)
                  (λ d gone. gone.0) (rem_session-IsGone E i entry db own h)
          ]

  pub session_stop-IsValid :
      (name : List ℕ) (db : Db) → IsValid E db → Ends (IsValid E) (session_stop E name db)
  unfolding session_stop
  session_stop-IsValid name db h = session_stop_found name db (find_name name db.session_tab) refl h
