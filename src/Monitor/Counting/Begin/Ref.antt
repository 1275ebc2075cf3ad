-- ===== src/Monitor/Counting/Begin/Ref.antt =====
-- `session_ref` of src/submgr.cpp keeps the tables valid.
use sassrv.Base.{
  ℕ, Bool, true, false, List, [], ◌∷◌, ◌++◌, if◌then◌else◌, Option, none, some, ◌≡◌, refl, ◌∙◌,
  either,
}
use sassrv.Monitor.Entry.{SessionEntry}
use sassrv.Monitor.Ids.{string_to_host_id, name_cid}
use sassrv.Monitor.Db.{Env, Db, Result, returned, ◌>>=◌, find_name}
use sassrv.Monitor.Db.Hosts.{host_ref}
use sassrv.Monitor.Sessions.{
  add_session, upsert_session, blank_session, begun, begin_session, session_ref, touch, needs_start,
}
use sassrv.Monitor.Counting.{IsValid}
use sassrv.Monitor.Counting.Operations.{IsNear, IsNear-session}
use sassrv.Monitor.Counting.Calls.{
  Ends, Ends-bind, Ends-not_null, Ends-mono, IsSame, IsSame-IsNear, IsValid-IsNear,
  HoldsNone-IsSame, host_ref-IsSame, add_session-IsSame,
}
use sassrv.Monitor.Counting.Begin.{
  begin_session-IsValid, upsert_session-IsGone, upsert_session-IsValid,
}

module _ (E : Env) where
  touch-IsNear : (name : List ℕ) (db : Db) → IsNear db (touch E name db)
  touch-IsNear name db =
      IsNear-session name (λ s. record s { ref_mono = db.cur_mono }) db (λ e. (refl, refl, λ h. h))

  pub session_ref-IsValid :
      (cid : ℕ) (name : List ℕ) (db : Db)
      → IsValid E db
      → Ends (IsValid E) (session_ref E cid name db)
  unfolding session_ref
  session_ref-IsValid cid name db h =
      Ends-bind (IsValid E) (IsValid E)
        (found_or_begun (needs_start E (find_name name db.session_tab)))
        (λ d. returned (touch E name d))
        (by_start (needs_start E (find_name name db.session_tab)) refl)
        (λ d valid. IsValid-IsNear E d (touch E name d) (touch-IsNear name d) valid)
    where
      new : Db
      new = upsert_session E name db

      begin : Result Db
      begin = host_ref E (string_to_host_id name) (name_cid cid name) false new >>= λ r.
          begin_session E r.0 (string_to_host_id name) (name_cid cid name) name false none (λ s. s)
            r.1

      found_or_begun : Bool → Result Db
      found_or_begun b = if b then begin else returned new

      by_start :
          (b : Bool)
          → needs_start E (find_name name db.session_tab) ≡ b
          → Ends (IsValid E) (found_or_begun b)
      by_start true listen_stopped =
          let gone = upsert_session-IsGone E name db h listen_stopped in
          Ends-bind (λ (r : ℕ × Db). IsSame new r.1) (IsValid E)
            (host_ref E (string_to_host_id name) (name_cid cid name) false new) _
            (host_ref-IsSame E (string_to_host_id name) (name_cid cid name) false new)
            (λ r same.
              begin_session-IsValid E r.0 (string_to_host_id name) (name_cid cid name) name false
                none (λ s. s) r.1 (λ s. (refl, (refl, λ x. x)))
                (
                  IsValid-IsNear E new r.1 (IsSame-IsNear new r.1 same) gone.0,
                  HoldsNone-IsSame name new r.1 same gone.1,
                ))
      by_start false live = upsert_session-IsValid E name db h

  -- No subject is added.
  pub session_ref-ctr :
      (cid : ℕ) (name : List ℕ) (db : Db)
      → Ends (λ (d : Db). d.next_subject_ctr ≡ db.next_subject_ctr) (session_ref E cid name db)
  unfolding session_ref
  session_ref-ctr cid name db =
      Ends-bind SameCtr SameCtr
        (if needs_start E (find_name name db.session_tab) then begin else returned new)
        (λ d. returned (touch E name d))
        (either (Ends SameCtr) (needs_start E (find_name name db.session_tab)) begin (returned new)
          (Ends-bind (λ (r : ℕ × Db). IsSame new r.1) SameCtr
            (host_ref E (string_to_host_id name) (name_cid cid name) false new) _
            (host_ref-IsSame E (string_to_host_id name) (name_cid cid name) false new)
            (λ r same. begin_ctr r.0 r.1 (same.1.1 ∙ new_ctr (find_name name db.session_tab))))
          (new_ctr (find_name name db.session_tab)))
        (λ d same. same)
    where
      SameCtr : Db → Type 0
      SameCtr d = d.next_subject_ctr ≡ db.next_subject_ctr

      new : Db
      new = upsert_session E name db

      begin : Result Db
      begin = host_ref E (string_to_host_id name) (name_cid cid name) false new >>= λ r.
          begin_session E r.0 (string_to_host_id name) (name_cid cid name) name false none (λ s. s)
            r.1

      new_ctr :
          (o : Option SessionEntry)
          → (elim o as (λ _. Db) [
            | none ↦ record db {
              session_tab = db.session_tab ++ blank_session (E.kv_crc_c name 0) name ∷ [];
            }
            | some s ↦ db
          ]).next_subject_ctr
            ≡ db.next_subject_ctr
      new_ctr none = refl
      new_ctr (some s) = refl

      begin_ctr :
          (i : ℕ) (d : Db)
          → SameCtr d
          → Ends SameCtr (
              begin_session E i
                (string_to_host_id name)
                (name_cid cid name)
                name
                false
                none
                (λ s. s)
                d)
      begin_ctr i d same =
          let d' =
            begun E (string_to_host_id name) (name_cid cid name) name false none (λ s. s) d in
          Ends-not_null SameCtr (find_name name d'.session_tab) (λ s. add_session E i s d')
            (λ s _.
              Ends-mono (IsSame d') SameCtr (add_session E i s d') (λ x kept. kept.1.1 ∙ same)
                (add_session-IsSame E i s d'))
