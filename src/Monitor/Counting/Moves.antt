-- ===== src/Monitor/Counting/Moves.antt =====
-- A session takes a subject up, and lets it go.
use sassrv.Base.{
  ℕ, ◌+◌, ◌-◌, ◌%◌, true, false, List, [], none, some, ◌≡◌, ◌≢◌, refl, sym, ap, ◌∙◌, arith,
  Option-cases, inl, inr,
}
use mathlib.Core.Path.{subst}
use mathlib.Core.Option.{some-injective}
use sassrv.Base.Dict.{Dict, contains, put, erase}
use sassrv.Monitor.Entry.{
  Subscription, SessionEntry, refcnt_mod, put_counts, in_session_state, rv_session_stop,
}
use sassrv.Monitor.Db.{Env, find_name, update_session, update_sub}
use sassrv.Monitor.Sessions.{entries_of}
use sassrv.Monitor.Counting.{
  one_if, held_by, holders, HasCount, IsTable, HasTable, IsQuiet, knows, IsIssued, Balanced,
}
use sassrv.Monitor.Counting.Tables.{Keeps, holders-update, All-update_session, knows-update}
use sassrv.Monitor.Counting.Tables.Held.{
  IsTable-put, IsTable-erase, IsTable-gone, contains-put_self, contains-put_ne, contains-erase_ne,
  IsCount-update, find_name-All, update_session-absent, All-update_sub, All-map,
}
use sassrv.Monitor.Counting.Steps.{tables_mono, is_stopped}

-- A session's table changes at one subject, and the subject's count with it.
pub Balanced-change :
    (E : Env) (ss : List SessionEntry) (subs : List Subscription) (ctr : ℕ) (name : List ℕ)
    (f : SessionEntry → SessionEntry) (e : SessionEntry) (k : ℕ) (g : Subscription → Subscription)
    → find_name name ss ≡ some e
    → HasTable subs (f e)
    → ((x : ℕ) → x ≢ k → contains x (entries_of (f e).sub_ht) ≡ contains x (entries_of e.sub_ht))
    → Keeps g
    → ((t : Subscription)
        → t.subject_id ≡ k
        → (g t).refcnt ≡ holders k (update_session name f ss) % refcnt_mod)
    → Balanced E ss subs ctr
    → Balanced E (update_session name f ss) (update_sub k g subs) ctr
Balanced-change E ss subs ctr name f e k g found table others keep count h = (
  IsCount-update (λ x. holders x ss) (λ x. holders x (update_session name f ss)) k g subs keep count
      (λ x ne. omega (arith, holders-update x name f ss e found, ap one_if (others x ne))) h.0,
  (
    tables_mono subs (update_sub k g subs) (update_session name f ss)
        (λ i v. knows-update i v k g subs keep)
        (All-update_session (HasTable subs) name f ss
          (λ x at t. subst (λ y. HasTable subs (f y)) (some-injective _ _ (sym found ∙ at)) table)
          h.1.0),
    All-update_sub (λ s. IsIssued E ctr s.subject_id) k g subs
        (λ s i. subst (IsIssued E ctr) (sym (keep s).1) i) h.1.1,
  ),
)

pub put_counts-Keeps : (script : Subscription) → Keeps (put_counts script)
put_counts-Keeps script s = (refl, refl)

none≢some : (ht : Dict ℕ) → none ≢ some ht
none≢some ht e = cc

IsQuiet-table :
    (e e' : SessionEntry) (ht : Dict ℕ)
    → e.sub_ht ≡ some ht
    → e'.state ≡ e.state
    → IsQuiet e
    → IsQuiet e'
IsQuiet-table e e' ht old stay q stop =
    let listen_stopped : is_stopped e ≡ true =
      ap (λ x. in_session_state x rv_session_stop) (sym stay) ∙ stop in
    absurd (none≢some ht (sym (q listen_stopped) ∙ old))

pub Balanced-hold :
    (E : Env) (ss : List SessionEntry) (subs : List Subscription) (ctr : ℕ) (name : List ℕ)
    (e e' : SessionEntry) (ht : Dict ℕ) (s s' : Subscription)
    → find_name name ss ≡ some e
    → e.sub_ht ≡ some ht
    → e'.sub_ht ≡ some (put s.subject_id s.hash ht)
    → e'.state ≡ e.state
    → contains s.subject_id ht ≡ false
    → knows s.subject_id s.hash subs ≡ true
    → HasCount (λ x. holders x ss) s
    → s'.refcnt ≡ (s.refcnt + 1) % refcnt_mod
    → Balanced E ss subs ctr
    → Balanced E
        (update_session name (λ _. e') ss)
        (update_sub s.subject_id (put_counts s') subs)
        ctr
Balanced-hold E ss subs ctr name e e' ht s s' found old new stay fresh known count more h =
    let old_table : entries_of e.sub_ht ≡ ht = ap entries_of old in
    let new_table : entries_of e'.sub_ht ≡ put s.subject_id s.hash ht = ap entries_of new in
    let table : IsTable subs ht =
      subst (IsTable subs) old_table (find_name-All (HasTable subs) name ss e found h.1.0).0 in
    let quiet : IsQuiet e' =
      IsQuiet-table e e' ht old stay (find_name-All (HasTable subs) name ss e found h.1.0).1 in
    let moved = holders-update s.subject_id name (λ _. e') ss e found in
    let before : held_by s.subject_id e ≡ 0 =
      ap one_if (ap (contains s.subject_id) old_table ∙ fresh) in
    let after : held_by s.subject_id e' ≡ 1 =
      ap one_if (ap (contains s.subject_id) new_table ∙ contains-put_self s.subject_id s.hash ht) in
    let more_holders : s'.refcnt
        ≡ holders s.subject_id (update_session name (λ _. e') ss) % refcnt_mod =
      omega arith in
    Balanced-change E ss subs ctr name (λ _. e') e s.subject_id (put_counts s') found
      (
        subst (IsTable subs) (sym new_table)
            (IsTable-put subs s.subject_id s.hash ht fresh known table),
        quiet,
      )
      (λ x ne.
        ap (contains x) new_table
        ∙ contains-put_ne s.subject_id s.hash x ht ne
        ∙ ap (contains x) (sym old_table))
      (put_counts-Keeps s') (λ t _. more_holders) h

pub Balanced-drop :
    (E : Env) (ss : List SessionEntry) (subs : List Subscription) (ctr : ℕ) (name : List ℕ)
    (e e' : SessionEntry) (ht : Dict ℕ) (s s' : Subscription)
    → find_name name ss ≡ some e
    → e.sub_ht ≡ some ht
    → e'.sub_ht ≡ some (erase s.subject_id ht)
    → e'.state ≡ e.state
    → contains s.subject_id ht ≡ true
    → HasCount (λ x. holders x ss) s
    → s'.refcnt ≡ (s.refcnt + refcnt_mod - 1) % refcnt_mod
    → Balanced E ss subs ctr
    → Balanced E
        (update_session name (λ _. e') ss)
        (update_sub s.subject_id (put_counts s') subs)
        ctr
Balanced-drop E ss subs ctr name e e' ht s s' found old new stay held count less h =
    let old_table : entries_of e.sub_ht ≡ ht = ap entries_of old in
    let new_table : entries_of e'.sub_ht ≡ erase s.subject_id ht = ap entries_of new in
    let table : IsTable subs ht =
      subst (IsTable subs) old_table (find_name-All (HasTable subs) name ss e found h.1.0).0 in
    let quiet : IsQuiet e' =
      IsQuiet-table e e' ht old stay (find_name-All (HasTable subs) name ss e found h.1.0).1 in
    let moved = holders-update s.subject_id name (λ _. e') ss e found in
    let before : held_by s.subject_id e ≡ 1 =
      ap one_if (ap (contains s.subject_id) old_table ∙ held) in
    let after : held_by s.subject_id e' ≡ 0 =
      ap one_if (ap (contains s.subject_id) new_table ∙ IsTable-gone subs s.subject_id ht table) in
    let less_holders : s'.refcnt
        ≡ holders s.subject_id (update_session name (λ _. e') ss) % refcnt_mod =
      omega arith in
    Balanced-change E ss subs ctr name (λ _. e') e s.subject_id (put_counts s') found
      (subst (IsTable subs) (sym new_table) (IsTable-erase subs s.subject_id ht table), quiet)
      (λ x ne.
        ap (contains x) new_table
        ∙ contains-erase_ne s.subject_id x ht ne
        ∙ ap (contains x) (sym old_table))
      (put_counts-Keeps s') (λ t _. less_holders) h

holders-begin :
    (sub_id : ℕ) (name : List ℕ) (f : SessionEntry → SessionEntry) (ss : List SessionEntry)
    → ((e : SessionEntry) → find_name name ss ≡ some e → entries_of e.sub_ht ≡ [])
    → ((e : SessionEntry) → entries_of (f e).sub_ht ≡ [])
    → holders sub_id (update_session name f ss) ≡ holders sub_id ss
holders-begin sub_id name f ss empty new = elim (Option-cases (find_name name ss)) [
  | inl absent ↦ ap (holders sub_id) (update_session-absent name f ss absent)
  | inr present ↦
      let moved = holders-update sub_id name f ss present.0 present.1 in
      omega (
        arith,
        ap (λ d. one_if (contains sub_id d)) (empty present.0 present.1),
        ap (λ d. one_if (contains sub_id d)) (new present.0),
      )
]

-- A session whose table is empty gets an empty table.
pub Balanced-begin :
    (E : Env) (ss : List SessionEntry) (subs : List Subscription) (ctr : ℕ) (name : List ℕ)
    (f : SessionEntry → SessionEntry)
    → ((e : SessionEntry) → find_name name ss ≡ some e → entries_of e.sub_ht ≡ [])
    → ((e : SessionEntry) → entries_of (f e).sub_ht ≡ [])
    → ((e : SessionEntry) → IsQuiet (f e))
    → Balanced E ss subs ctr
    → Balanced E (update_session name f ss) subs ctr
Balanced-begin E ss subs ctr name f empty new quiet h = (
  All-map (HasCount (λ x. holders x ss)) (HasCount (λ x. holders x (update_session name f ss))) subs
      (λ s c. c ∙ ap (λ n. n % refcnt_mod) (sym (holders-begin s.subject_id name f ss empty new)))
      h.0,
  (
    All-update_session (HasTable subs) name f ss
        (λ e found t. (subst (IsTable subs) (sym (new e)) tt, quiet e)) h.1.0,
    h.1.1,
  ),
)
