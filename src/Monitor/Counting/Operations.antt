-- ===== src/Monitor/Counting/Operations.antt =====
-- The calls of src/submgr.cpp that change a host, a session's state or a counter, which leave the
-- tables alone.
pub mod Unsub
use sassrv.Base.{
  ℕ, ◌+◌, ◌-◌, Bool, true, false, ◌&&◌, ◌||◌, List, [], ◌∷◌, ◌++◌, ◌==◌, ltb, if◌then◌else◌, Option,
  none, some, ◌≡◌, refl, sym, ap, ◌∙◌, arith, either, if_either,
}
use mathlib.Core.Path.{subst}
use sassrv.Monitor.Entry.{
  Subscription, SessionEntry, in_session_state, rv_session_self, rv_session_cid, rv_session_query,
}
use sassrv.Monitor.Db.{
  Env, Db, Event, update_sub, change_sub, change_session, tell, host_digest, find_host, count_at,
  host_at, put_host, count_pair, pair_hash, is_hidden, take_active, sub_hash_count,
}
use sassrv.Monitor.Sessions.{
  query_session, set_session_state, get_rv7_session, query_rv7_session, after_drop,
}
use sassrv.Monitor.Counting.{Balanced, IsBalanced}
use sassrv.Monitor.Counting.Steps.{
  IsLike, IsLike-refl, IsLike-trans, IsLike-update, KeepsTable, is_stopped, Balanced-IsLike,
}

-- The same subjects, and sessions with the same tables.
pub record IsNear (db db' : Db) : Type 0 where
  pub like : IsLike db.session_tab db'.session_tab
  pub same_subs : db'.sub_tab ≡ db.sub_tab
  pub same_ctr : db'.next_subject_ctr ≡ db.next_subject_ctr

pub IsNear-refl : (db : Db) → IsNear db db
IsNear-refl db = record { like = IsLike-refl db.session_tab; same_subs = refl; same_ctr = refl }

-- A change of other parts of the state.
pub IsNear-tables :
    (db db' : Db)
    → db'.session_tab ≡ db.session_tab
    → db'.sub_tab ≡ db.sub_tab
    → db'.next_subject_ctr ≡ db.next_subject_ctr
    → IsNear db db'
IsNear-tables db db' ss subs ctr = record {
  like = subst (IsLike db.session_tab) (sym ss) (IsLike-refl db.session_tab);
  same_subs = subs;
  same_ctr = ctr;
}

pub IsNear-trans : (a b c : Db) → IsNear a b → IsNear b c → IsNear a c
IsNear-trans a b c f g = record {
  like = IsLike-trans a.session_tab b.session_tab c.session_tab f.like g.like;
  same_subs = g.same_subs ∙ f.same_subs;
  same_ctr = g.same_ctr ∙ f.same_ctr;
}

pub IsNear-session :
    (name : List ℕ) (f : SessionEntry → SessionEntry) (db : Db)
    → KeepsTable f
    → IsNear db (change_session name f db)
IsNear-session name f db k = record {
  like = IsLike-update name f db.session_tab k;
  same_subs = refl;
  same_ctr = refl;
}

pub IsNear-sub :
    (k : ℕ) (f : Subscription → Subscription) (db db' : Db)
    → IsNear db db'
    → IsNear (change_sub k f db) (change_sub k f db')
IsNear-sub k f db db' near = record {
  like = near.like;
  same_subs = ap (update_sub k f) near.same_subs;
  same_ctr = near.same_ctr;
}

-- A call after which the tables are as before keeps them balanced.
pub IsBalanced-IsNear : (E : Env) (db db' : Db) → IsNear db db' → IsBalanced E db → IsBalanced E db'
IsBalanced-IsNear E db db' near h =
    subst (λ subs. Balanced E db'.session_tab subs db'.next_subject_ctr) (sym near.same_subs)
      (subst (λ ctr. Balanced E db'.session_tab db.sub_tab ctr) (sym near.same_ctr)
        (Balanced-IsLike E db.session_tab db'.session_tab db.sub_tab db.next_subject_ctr near.like
          h))

pub query_session-KeepsTable : KeepsTable query_session
query_session-KeepsTable e =
    let own = in_session_state e.state rv_session_self || in_session_state e.state rv_session_cid in
    (
      if_either (λ x. x.value) e.value own e (set_session_state rv_session_query e) refl refl,
      if_either (λ x. x.sub_ht) e.sub_ht own e (set_session_state rv_session_query e) refl refl,
      either (λ x. is_stopped x ≡ true → is_stopped e ≡ true) own e
          (set_session_state rv_session_query e) (λ h. h) (λ h. ground arith),
    )

module _ (E : Env) where
  count_at-IsNear :
      (sess : SessionEntry) (value : List ℕ) (is_add : Bool) (o : Option ℕ) (db : Db)
      → IsNear db (count_at E sess value is_add o db)
  count_at-IsNear sess value is_add none db = IsNear-refl db
  count_at-IsNear sess value is_add (some i) db =
      IsNear-tables db
        (put_host i (count_pair E is_add (pair_hash E sess.value value) (host_at db i)) db) refl
        refl refl

  pub host_digest-IsNear :
      (sess : SessionEntry) (value : List ℕ) (is_add : Bool) (db : Db)
      → IsNear db (host_digest E sess value is_add db)
  unfolding host_digest
  host_digest-IsNear sess value is_add db =
      either (IsNear db) (is_hidden E value) db
        (count_at E sess value is_add (find_host E sess.host_id sess.cid db) db) (IsNear-refl db)
        (count_at-IsNear sess value is_add (find_host E sess.host_id sess.cid db) db)

  pub query_rv7_session-IsNear :
      (host_id : ℕ) (db : Db) → IsNear db (query_rv7_session E host_id db)
  unfolding query_rv7_session
  query_rv7_session-IsNear host_id db =
      elim (get_rv7_session E host_id db)
        as (λ o.
          IsNear db (elim o [ none ↦ db | some s ↦ change_session s.value query_session db ])) [
            | none ↦ IsNear-refl db
            | some s ↦ IsNear-session s.value query_session db query_session-KeepsTable
          ]

  pub tell-IsNear : (e : Event) (db : Db) → IsNear db (tell E e db)
  tell-IsNear e db =
      either (IsNear db) E.has_listener (record db { events = db.events ++ e ∷ [] }) db
        (IsNear-tables db (record db { events = db.events ++ e ∷ [] }) refl refl refl)
        (IsNear-refl db)

  pub after_drop-IsNear :
      (host_id : ℕ) (sub : Subscription) (db : Db) → IsNear db (after_drop E host_id sub db).1
  after_drop-IsNear host_id sub db =
      either {A = Bool × Db} (λ r. IsNear db r.1) (sub.refcnt == 0)
        (
          ltb 0 (sub_hash_count sub.value sub.hash db.sub_tab),
          record db { subscriptions = take_active db.subscriptions },
        )
        (if sub.ref7cnt && (sub.refcnt == 1)
          then (false, query_rv7_session E host_id db)
          else (false, db))
        (IsNear-tables db (record db { subscriptions = take_active db.subscriptions }) refl refl
          refl)
        (either {A = Bool × Db} (λ r. IsNear db r.1) (sub.ref7cnt && (sub.refcnt == 1))
          (false, query_rv7_session E host_id db) (false, db) (query_rv7_session-IsNear host_id db)
          (IsNear-refl db))
