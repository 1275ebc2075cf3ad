-- ===== src/Monitor/Counting/Listening/Asked.antt =====
-- `snapshot` and `tic` of src/submgr.cpp keep the tables valid.
use sassrv.Base.{ℕ, false, not, ◌&&◌, List, ◌==◌, Option, none, some, either}
use sassrv.Monitor.Ids.{string_to_host_id}
use sassrv.Monitor.Entry.{Subscription, SessionEntry}
use sassrv.Monitor.Db.{Env, Db, returned, ◌>>=◌, find_sub, change_session}
use sassrv.Monitor.Db.Hosts.{host_ref}
use sassrv.Monitor.Sessions.{query_session}
use sassrv.Monitor.Listen.{
  new_sub, insert_sub, get_subscription, get_session, query_unknown, query_held, snapshot, tic,
}
use sassrv.Monitor.Counting.{IsValid}
use sassrv.Monitor.Counting.Steps.{IsInjective}
use sassrv.Monitor.Counting.Operations.{
  IsNear, IsNear-refl, IsNear-session, query_session-KeepsTable,
}
use sassrv.Monitor.Counting.Calls.{
  Ends, Ends-bind, Ends-mono, IsSame-IsNear, IsValid-IsNear, host_ref-IsSame,
}
use sassrv.Monitor.Counting.Listening.{HasRoom, insert_sub-IsFound}

module _ (E : Env) (inj : IsInjective E) where
  got-IsValid :
      (sub : List ℕ) (db : Db) (o : Option Subscription)
      → HasRoom E inj db
      → IsValid E db
      → IsValid E
          (elim o as (λ _. Subscription × Db) [
            | none ↦ (new_sub E sub db, insert_sub E sub db)
            | some s ↦ (s, db)
          ]).1
  got-IsValid sub db none room h = (insert_sub-IsFound E inj sub db room h).0
  got-IsValid sub db (some s) room h = h

  query_unknown-IsValid :
      (name : List ℕ) (db : Db) → IsValid E db → Ends (IsValid E) (query_unknown E name db)
  unfolding host_ref
  query_unknown-IsValid name db h =
      Ends-bind (λ (r : ℕ × Db). IsValid E r.1) (IsValid E)
        (host_ref E (string_to_host_id name) 0 false db) _
        (Ends-mono _ (λ (r : ℕ × Db). IsValid E r.1)
          (host_ref E (string_to_host_id name) 0 false db)
          (λ r same. IsValid-IsNear E db r.1 (IsSame-IsNear db r.1 same) h)
          (host_ref-IsSame E (string_to_host_id name) 0 false db))
        (λ r valid. valid)

  query_held-IsNear :
      (script : Subscription) (s : SessionEntry) (db : Db) → IsNear db (query_held E script s db)
  query_held-IsNear script s db =
      either (IsNear db) (not (script.refcnt == 0) && not script.ref7cnt)
        (change_session s.value query_session db) db
        (IsNear-session s.value query_session db query_session-KeepsTable) (IsNear-refl db)

  abbrev pub ThirdValid : Subscription × Option SessionEntry × Db → Type 0
  ThirdValid r = IsValid E r.2

  pub snapshot-IsValid :
      (sub name : List ℕ) (db : Db)
      → HasRoom E inj db
      → IsValid E db
      → Ends ThirdValid (snapshot E sub name db)
  unfolding snapshot
  snapshot-IsValid sub name db room h =
      let got = get_subscription E sub db in
      let valid = got-IsValid sub db (find_sub sub db.sub_tab) room h in
      elim (get_session E name got.1)
        as (λ o. Ends ThirdValid (elim o [
          | none ↦ query_unknown E name got.1 >>= λ db'. returned (got.0, none, db')
          | some s ↦ returned (got.0, some s, query_held E got.0 s got.1)
        ])) [
          | none ↦
              Ends-bind (IsValid E) ThirdValid (query_unknown E name got.1) _
                (query_unknown-IsValid name got.1 valid) (λ d v. v)
          | some s ↦
              IsValid-IsNear E got.1 (query_held E got.0 s got.1) (query_held-IsNear got.0 s got.1)
                valid
        ]

  pub tic-IsValid :
      (sub name : List ℕ) (db : Db)
      → HasRoom E inj db
      → IsValid E db
      → Ends ThirdValid (tic E sub name db)
  unfolding tic
  tic-IsValid sub name db room h =
      let got = get_subscription E sub db in
      let valid = got-IsValid sub db (find_sub sub db.sub_tab) room h in
      elim (get_session E name got.1)
        as (λ o. Ends ThirdValid (elim o [
          | none ↦ query_unknown E name got.1 >>= λ db'. returned (got.0, none, db')
          | some s ↦ returned (got.0, some s, got.1)
        ])) [
          | none ↦
              Ends-bind (IsValid E) ThirdValid (query_unknown E name got.1) _
                (query_unknown-IsValid name got.1 valid) (λ d v. v)
          | some s ↦ valid
        ]
