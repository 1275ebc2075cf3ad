-- ===== src/Monitor/Counting/Steps.antt =====
-- The steps of the monitor's operations on its tables, each of which keeps them balanced.
use sassrv.Base.{
  ℕ, ◌+◌, ◌%◌, ◌<◌, Bool, true, false, List, [], ◌∷◌, ◌++◌, ◌==◌, if◌then◌else◌, some, ◌≡◌, refl,
  sym, ap, ◌∙◌, All, arith, Bool-cases, inl, inr, ◌⊎◌, either, ==→eq, u32_mod, All-append,
}
use mathlib.Core.Path.{subst}
use sassrv.Base.Dict.{Dict, contains}
use sassrv.Host.Services.{same_bytes}
use sassrv.Monitor.Entry.{Subscription, SessionEntry, refcnt_mod, rv_session_stop, in_session_state}
use sassrv.Monitor.Db.{Env, find_name, update_session, update_sub}
use sassrv.Monitor.Sessions.{entries_of}
use sassrv.Monitor.Counting.{
  one_if, holders, HasCount, IsTable, HasTable, names, is_subject, knows, IsIssued, Balanced,
}
use sassrv.Monitor.Counting.Names.{names-update}
use sassrv.Monitor.Counting.Tables.{
  Keeps, found_first, holders-keep, All-update_session, knows-update, knows-append, knows-get,
  get_subject-All,
}
use sassrv.Monitor.Counting.Tables.Held.{IsTable_mono, All-update_sub, All-map}

-- Sessions with the same tables, by name.
pub record IsLike (ss ss' : List SessionEntry) : Type 0 where
  pub same_holders : (sub_id : ℕ) → holders sub_id ss' ≡ holders sub_id ss
  pub same_names : names ss' ≡ names ss
  pub same_tables : (subs : List Subscription) → All (HasTable subs) ss → All (HasTable subs) ss'
  pub same_entry :
      (name : List ℕ) (e : SessionEntry)
      → find_name name ss ≡ some e
      → (e' : SessionEntry) × (find_name name ss' ≡ some e') × (e'.sub_ht ≡ e.sub_ht)

pub IsLike-refl : (ss : List SessionEntry) → IsLike ss ss
IsLike-refl ss = record {
  same_holders = λ x. refl;
  same_names = refl;
  same_tables = λ subs h. h;
  same_entry = λ name e h. (e, h, refl);
}

pub IsLike-trans : (a b c : List SessionEntry) → IsLike a b → IsLike b c → IsLike a c
IsLike-trans a b c f g = record {
  same_holders = λ x. g.same_holders x ∙ f.same_holders x;
  same_names = g.same_names ∙ f.same_names;
  same_tables = λ subs h. g.same_tables subs (f.same_tables subs h);
  same_entry = λ name e h.
      let (e1, h1, s1) = f.same_entry name e h in
      let (e2, h2, s2) = g.same_entry name e1 h1 in (e2, h2, s2 ∙ s1);
}

abbrev pub is_stopped : SessionEntry → Bool
is_stopped e = in_session_state e.state rv_session_stop

-- A change of a session that keeps its name and its table, and does not stop it.
abbrev pub KeepsTable : (SessionEntry → SessionEntry) → Type 0
KeepsTable f =
    (e : SessionEntry)
    → ((f e).value ≡ e.value)
      × ((f e).sub_ht ≡ e.sub_ht)
      × (is_stopped (f e) ≡ true → is_stopped e ≡ true)

HasTable-mono :
    (subs subs' : List Subscription)
    → ((sub_id sub_hash : ℕ)
        → knows sub_id sub_hash subs ≡ true
        → knows sub_id sub_hash subs' ≡ true)
    → (e : SessionEntry) → HasTable subs e
    → HasTable subs' e
HasTable-mono subs subs' more e t = (IsTable_mono subs subs' more (entries_of e.sub_ht) t.0, t.1)

-- Every session's table where more subjects are known.
pub tables_mono :
    (subs subs' : List Subscription) (ss : List SessionEntry)
    → ((sub_id sub_hash : ℕ)
        → knows sub_id sub_hash subs ≡ true
        → knows sub_id sub_hash subs' ≡ true)
    → All (HasTable subs) ss
    → All (HasTable subs') ss
tables_mono subs subs' ss more h =
    All-map (HasTable subs) (HasTable subs') ss (HasTable-mono subs subs' more) h

abbrev HasEntry : List ℕ → SessionEntry → List SessionEntry → Type 0
HasEntry name e ss = (e' : SessionEntry) × (find_name name ss ≡ some e') × (e'.sub_ht ≡ e.sub_ht)

HasEntry-head :
    (name : List ℕ) (s t e : SessionEntry) (rest : List SessionEntry)
    → (t.value ≡ s.value)
    → (t.sub_ht ≡ s.sub_ht)
    → ((same_bytes s.value name ≡ true) × (s ≡ e))
      ⊎ ((same_bytes s.value name ≡ false) × HasEntry name e rest)
    → HasEntry name e (t ∷ rest)
HasEntry-head name s t e rest v d (inl p) = (
  t,
  ap (λ b. if b then some t else find_name name rest) (ap (λ x. same_bytes x name) v ∙ p.0),
  d ∙ ap (λ x. x.sub_ht) p.1,
)
HasEntry-head name s t e rest v d (inr p) = (
  p.1.0,
  ap (λ b. if b then some t else find_name name rest) (ap (λ x. same_bytes x name) v ∙ p.0) ∙ p.1.1,
  p.1.2,
)

find_name-update :
    (name m : List ℕ) (f : SessionEntry → SessionEntry) (ss : List SessionEntry) (e : SessionEntry)
    → KeepsTable f
    → find_name name ss ≡ some e
    → HasEntry name e (update_session m f ss)
find_name-update name m f [] e k h = ground arith
find_name-update name m f (s ∷ ss) e k h =
    let found = found_first (same_bytes s.value name) s e (find_name name ss) h in
    either (HasEntry name e) (same_bytes s.value m) (f s ∷ ss) (s ∷ update_session m f ss)
      (HasEntry-head name s (f s) e ss (k s).0 (k s).1
        (elim found [ inl p ↦ inl p | inr p ↦ inr (p.0, (e, p.1, refl)) ]))
      (HasEntry-head name s s e (update_session m f ss) refl refl
        (elim found [ inl p ↦ inl p | inr p ↦ inr (p.0, find_name-update name m f ss e k p.1) ]))

pub IsLike-update :
    (name : List ℕ) (f : SessionEntry → SessionEntry) (ss : List SessionEntry)
    → KeepsTable f
    → IsLike ss (update_session name f ss)
IsLike-update name f ss k = record {
  same_holders = λ x. holders-keep x name f ss (λ e. (k e).1);
  same_names = names-update name f ss (λ e _. (k e).0);
  same_tables = λ subs h.
      All-update_session (HasTable subs) name f ss
        (λ e found t. (
          subst (λ d. IsTable subs (entries_of d)) (sym (k e).1) t.0,
          λ stop. (k e).1 ∙ t.1 ((k e).2 stop),
        ))
        h;
  same_entry = λ m e h. find_name-update m name f ss e k h;
}

pub Balanced-IsLike :
    (E : Env) (ss ss' : List SessionEntry) (subs : List Subscription) (ctr : ℕ)
    → IsLike ss ss'
    → Balanced E ss subs ctr
    → Balanced E ss' subs ctr
Balanced-IsLike E ss ss' subs ctr like h = (
  All-map (HasCount (λ x. holders x ss)) (HasCount (λ x. holders x ss')) subs
      (λ s c. c ∙ ap (λ n. n % refcnt_mod) (sym (like.same_holders s.subject_id))) h.0,
  (like.same_tables subs h.1.0, h.1.1),
)

-- A change of a subject that keeps its count too.
pub Balanced-keep :
    (E : Env) (ss : List SessionEntry) (subs : List Subscription) (ctr k : ℕ)
    (f : Subscription → Subscription)
    → Keeps f
    → ((s : Subscription) → (f s).refcnt ≡ s.refcnt)
    → Balanced E ss subs ctr
    → Balanced E ss (update_sub k f subs) ctr
Balanced-keep E ss subs ctr k f keep same h = (
  All-update_sub (HasCount (λ x. holders x ss)) k f subs
      (λ s c. same s ∙ c ∙ ap (λ x. holders x ss % refcnt_mod) (sym (keep s).1)) h.0,
  (
    tables_mono subs (update_sub k f subs) ss (λ i g. knows-update i g k f subs keep) h.1.0,
    All-update_sub (λ s. IsIssued E ctr s.subject_id) k f subs
        (λ s i. subst (IsIssued E ctr) (sym (keep s).1) i) h.1.1,
  ),
)

IsIssued-more : (E : Env) (ctr sub_id : ℕ) → IsIssued E ctr sub_id → IsIssued E (ctr + 1) sub_id
IsIssued-more E ctr sub_id (j, range, same) = (j, (range.0, omega arith), same)

-- Different numbers below 2 ^ 32 have different hashes.
abbrev pub IsInjective : Env → Type 0
IsInjective E = (a b : ℕ) → a < u32_mod → b < u32_mod → E.kv_hash_uint a ≡ E.kv_hash_uint b → a ≡ b

IsIssued-fresh :
    (E : Env) (ctr : ℕ)
    → IsInjective E
    → ctr + 1 < u32_mod
    → ¬ IsIssued E ctr (E.kv_hash_uint (ctr + 1))
IsIssued-fresh E ctr inj lt (j, range, same) =
    let e = inj j (ctr + 1) (omega arith) lt same in omega arith

pub is_subject-id :
    (sub_id sub_hash : ℕ) (s : Subscription)
    → is_subject sub_id sub_hash s ≡ true
    → (s.subject_id == sub_id) ≡ true
is_subject-id sub_id sub_hash s h = ground arith

not_known :
    (E : Env) (ctr sub_id : ℕ) (subs : List Subscription)
    → All (λ s. IsIssued E ctr s.subject_id) subs
    → ¬ IsIssued E ctr sub_id
    → (sub_hash : ℕ) → knows sub_id sub_hash subs ≡ true
    → ⊥
not_known E ctr sub_id subs issued fresh sub_hash known =
    let (s, found) = knows-get sub_id sub_hash subs known in
    let (is, i) =
      get_subject-All (λ s. IsIssued E ctr s.subject_id) sub_id sub_hash subs s found issued in
    let same : s.subject_id ≡ sub_id = ==→eq _ _ (is_subject-id sub_id sub_hash s is) in
    fresh (subst (IsIssued E ctr) same i)

not_contained :
    (subs : List Subscription) (sub_id : ℕ)
    → ((sub_hash : ℕ) → knows sub_id sub_hash subs ≡ true → ⊥)
    → (d : Dict ℕ) → IsTable subs d
    → contains sub_id d ≡ false
not_contained subs sub_id unknown [] h = refl
not_contained subs sub_id unknown ((j, w) ∷ d) h = elim (Bool-cases (sub_id == j)) [
  | inl e ↦ absurd (unknown w (subst (λ x. knows x w subs ≡ true) (sym (==→eq sub_id j e)) h.0.1))
  | inr e ↦
      ap (λ b. if b then true else contains sub_id d) e ∙ not_contained subs sub_id unknown d h.1
]

no_holders :
    (subs : List Subscription) (sub_id : ℕ)
    → ((sub_hash : ℕ) → knows sub_id sub_hash subs ≡ true → ⊥)
    → (ss : List SessionEntry) → All (HasTable subs) ss
    → holders sub_id ss ≡ 0
no_holders subs sub_id unknown [] h = refl
no_holders subs sub_id unknown (e ∷ ss) h = omega (
  arith,
  ap one_if (not_contained subs sub_id unknown (entries_of e.sub_ht) h.0.0),
  no_holders subs sub_id unknown ss h.1,
)

-- A new subject, which no session holds.
pub Balanced-insert :
    (E : Env) (ss : List SessionEntry) (subs : List Subscription) (ctr : ℕ) (s : Subscription)
    → IsInjective E
    → ctr + 1 < u32_mod
    → s.subject_id ≡ E.kv_hash_uint (ctr + 1)
    → s.refcnt ≡ 0
    → Balanced E ss subs ctr
    → Balanced E ss (subs ++ s ∷ []) (ctr + 1)
Balanced-insert E ss subs ctr s inj lt id zero_ref h =
    let fresh =
      not_known E ctr (E.kv_hash_uint (ctr + 1)) subs h.1.1 (IsIssued-fresh E ctr inj lt) in
    let none_hold : holders s.subject_id ss ≡ 0 =
      ap (λ x. holders x ss) id ∙ no_holders subs (E.kv_hash_uint (ctr + 1)) fresh ss h.1.0 in
    (
      All-append (HasCount (λ x. holders x ss)) subs (s ∷ []) h.0 (omega arith, tt),
      (
        tables_mono subs (subs ++ s ∷ []) ss (λ i g. knows-append i g subs (s ∷ [])) h.1.0,
        All-append (λ t. IsIssued E (ctr + 1) t.subject_id) subs (s ∷ [])
            (All-map (λ t. IsIssued E ctr t.subject_id) (λ t. IsIssued E (ctr + 1) t.subject_id)
              subs (λ t. IsIssued-more E ctr t.subject_id) h.1.1)
            ((ctr + 1, (omega arith, omega arith), sym id), tt),
      ),
    )
