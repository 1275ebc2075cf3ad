-- ===== src/Monitor/Sass3.antt =====
-- The references of processes to subjects: `sass3` of src/submgr.cpp, the subjects of a `_SASS.`
-- message in `process_pub2`, and the end of a reference in `process_events`. `sass3_list` is the list
-- and the table in one: an entry that is given to the listener and freed with its message is not put
-- into it.
use sassrv.Base.{
  ℕ, ◌+◌, ◌-◌, Bool, true, false, not, ◌&&◌, ◌||◌, List, [], ◌∷◌, ◌++◌, length, take, ltb, ◌==◌,
  if◌then◌else◌, Option, none, some, and32, add32,
}
use sassrv.Host.Services.{same_bytes}
use sassrv.Monitor.Entry.{Subscription, more_ref, less_ref}
use sassrv.Monitor.Db.{
  Env, Db, Result, returned, null_read, ◌>>=◌, Sass3Key, Sass3Entry, on_sass3, change_sub, tell,
  get_subject,
}
use sassrv.Monitor.Listen.{get_subscription}

-- What a `_SASS.` message says of its sender.
pub record Sender : Type 0 where
  pub user : List ℕ
  pub host : List ℕ
  pub app : List ℕ
  pub pid : ℕ

-- The fields of a `_SASS.` message: T, A, and the names of the fields of S, each with its final 0.
pub record SassMsg : Type 0 where
  pub flags : Option ℕ
  pub sender : Option Sender
  pub names : List (List ℕ)

abbrev pub same_key : Sass3Key → Sass3Key → Bool
same_key a b =
    ((a.subj_hash == b.subj_hash) && ((a.subject_id == b.subject_id) && (a.pid == b.pid)))
    && (same_bytes a.user_id b.user_id && (same_bytes a.host b.host && same_bytes a.app b.app))

abbrev pub find_sass3 : Sass3Key → List Sass3Entry → Option Sass3Entry
find_sass3 k [] = none
find_sass3 k (e ∷ es) = let rest = find_sass3 k es in if same_key e.key k then some e else rest

abbrev pub drop_sass3 : Sass3Key → List Sass3Entry → List Sass3Entry
drop_sass3 k [] = []
drop_sass3 k (e ∷ es) = let rest = drop_sass3 k es in if same_key e.key k then es else e ∷ rest

abbrev pub or_default : List ℕ → List ℕ → List ℕ
or_default [] d = d
or_default (c ∷ s) d = c ∷ s

-- The strings nobody, localhost and unknown.
abbrev pub nobody : List ℕ
nobody = 110 ∷ 111 ∷ 98 ∷ 111 ∷ 100 ∷ 121 ∷ []

abbrev pub localhost : List ℕ
localhost = 108 ∷ 111 ∷ 99 ∷ 97 ∷ 108 ∷ 104 ∷ 111 ∷ 115 ∷ 116 ∷ []

abbrev pub unknown : List ℕ
unknown = 117 ∷ 110 ∷ 107 ∷ 110 ∷ 111 ∷ 119 ∷ 110 ∷ []

abbrev pub sass3_key : Subscription → Sender → Sass3Key
sass3_key script s = record {
  subj_hash = script.hash;
  subject_id = script.subject_id;
  pid = s.pid;
  user_id = or_default s.user nobody;
  host = or_default s.host localhost;
  app = or_default s.app unknown;
}

-- An entry that is freed with its message.
abbrev pub transient : Sass3Key → ℕ → Sass3Entry
transient k start_mono = record {
  key = record k { subject_id = 0 };
  start_mono = start_mono;
  ref_mono = 0;
}

abbrev pub put_last : Sass3Entry → Db → Db
put_last e db = record db { sass3_list = drop_sass3 e.key db.sass3_list ++ e ∷ [] }

-- The mask of the flags of a message.
abbrev pub has_flag : ℕ → ℕ → Bool
has_flag flags bit = not (and32 flags bit == 0)

abbrev pub expired_sass3 : ℕ → Sass3Entry → Bool
expired_sass3 cur_mono e = ltb (add32 e.ref_mono 480) cur_mono

module _ (E : Env) where
  abbrev pub new_sass3 : Sass3Key → ℕ → ℕ → Sass3Entry
  new_sass3 k flags cur_mono = record {
    key = k;
    start_mono = if has_flag flags E.qf.qf_resubscribe then 0 else cur_mono;
    ref_mono = cur_mono;
  }

  abbrev pub sass3_at : Subscription → Sass3Key → ℕ → Option Sass3Entry → Db → Sass3Entry × Db
  sass3_at script k flags (some e) db =
      if flags == E.qf.qf_snapshot
      then (e, db)
      else (if flags == E.qf.qf_unsubscribe
          then (
            transient k e.start_mono,
            change_sub script.subject_id less_ref
                (record db { sass3_list = drop_sass3 k db.sass3_list }),
          )
          else (let e' = record e { ref_mono = db.cur_mono } in (e', put_last e' db)))
  sass3_at script k flags none db =
      if (flags == E.qf.qf_snapshot) || (flags == E.qf.qf_unsubscribe)
      then (transient k 0, db)
      else (let e = new_sass3 k flags db.cur_mono in
          (e, put_last e (change_sub script.subject_id more_ref db)))

  -- `sass3`: the entry that is returned, and the state.
  unfoldable pub sass3 : Subscription → Sender → ℕ → Db → Sass3Entry × Db
  sass3 script s flags db =
      let k = sass3_key script s in sass3_at script k flags (find_sass3 k db.sass3_list) db

  -- The listener is called without a look at whether there is one.
  abbrev pub told_sass3 : Sass3Entry → List ℕ → ℕ → Bool → Bool → Db → Result Db
  told_sass3 e subject flags is_orphan is_asserted db =
      if E.has_listener
      then returned (tell E (on_sass3 e subject flags is_orphan is_asserted) db)
      else null_read

  abbrev pub with_refresh : ℕ → ℕ
  with_refresh flags = flags + E.qf.qf_refresh - and32 flags E.qf.qf_refresh

  -- What follows `sass3` for a subject of the message.
  abbrev pub tell_subject : ℕ → Subscription → Sass3Entry → Db → Result Db
  tell_subject flags script e db =
      if flags == E.qf.qf_resubscribe
      then (if not (e.start_mono == 0)
          then returned db
          else (let e' = record e { start_mono = db.cur_mono } in
              told_sass3 e' script.value (with_refresh flags) false true (put_last e' db)))
      else told_sass3 e script.value flags ((flags == E.qf.qf_unsubscribe) && (e.start_mono == 0))
          false db

  abbrev pub sass_subject : Sender → ℕ → List ℕ → Db → Result Db
  sass_subject s flags name db =
      if ltb 1 (length name)
      then (let got = get_subscription E (take (length name - 1) name) db in
          let r = sass3 got.0 s flags got.1 in tell_subject flags got.0 r.0 r.1)
      else returned db

  abbrev pub sass_subjects : Sender → ℕ → List (List ℕ) → Db → Result Db
  sass_subjects s flags [] db = returned db
  sass_subjects s flags (name ∷ names) db =
      sass_subject s flags name db >>= λ db'. sass_subjects s flags names db'

  abbrev pub sass_flags : ℕ → ℕ
  sass_flags flags =
      if has_flag flags E.qf.qf_unsubscribe
      then E.qf.qf_unsubscribe
      else (if has_flag flags E.qf.qf_snapshot then E.qf.qf_snapshot else flags)

  abbrev pub sass_of : Option ℕ → Option Sender → List (List ℕ) → Db → Result Db
  sass_of none s names db = returned db
  sass_of (some flags) none names db = returned db
  sass_of (some flags) (some s) names db = sass_subjects s (sass_flags flags) names db

  -- IS_SASS
  unfoldable pub on_sass : Option SassMsg → Db → Result Db
  unfolding sass3
  on_sass none db = returned db
  on_sass (some m) db = sass_of m.flags m.sender m.names db

  abbrev pub end_sass3 : Sass3Entry → Option Subscription → Db → Result Db
  end_sass3 e none db = returned db
  end_sass3 e (some sub) db =
      if ltb 0 sub.refcnt
      then told_sass3 e sub.value E.qf.qf_unsubscribe false true
          (change_sub sub.subject_id less_ref db)
      else returned db

  -- The loop at the head of `process_events`, over the entries of the list.
  unfoldable pub expire_sass3 : List Sass3Entry → Db → Result Db
  expire_sass3 [] db = returned (record db { sass3_list = [] })
  expire_sass3 (e ∷ es) db = elim (expired_sass3 db.cur_mono e) [
    | false ↦ returned (record db { sass3_list = e ∷ es })
    | true ↦
        end_sass3 e (get_subject e.key.subject_id e.key.subj_hash db.sub_tab)
          (record db { sass3_list = es })
        >>= λ db'. expire_sass3 es db'
  ]
