-- ===== src/Monitor/Counting.antt =====
-- The references of the monitor's subjects: `refcnt` of include/sassrv/submgr.h against the tables of
-- the sessions.
pub mod Tables
pub mod Steps
pub mod Moves
pub mod Operations
pub mod Names
pub mod Calls
pub mod Begin
pub mod Listening
pub mod Kinds
use sassrv.Base.{
  ℕ, ◌+◌, ◌%◌, ◌≤◌, Bool, true, false, List, [], ◌∷◌, ◌&&◌, ◌==◌, if◌then◌else◌, none, ◌≡◌, All,
}
use sassrv.Base.Dict.{Dict, contains}
use sassrv.Host.Services.{same_bytes}
use sassrv.Monitor.Entry.{Subscription, SessionEntry, refcnt_mod, rv_session_stop, in_session_state}
use sassrv.Monitor.Db.{Env, Db}
use sassrv.Monitor.Sessions.{entries_of}

abbrev pub one_if : Bool → ℕ
one_if true = 1
one_if false = 0

-- Whether a session holds a subject.
abbrev pub held_by : ℕ → SessionEntry → ℕ
held_by sub_id e = one_if (contains sub_id (entries_of e.sub_ht))

-- The sessions that hold it.
abbrev pub holders : ℕ → List SessionEntry → ℕ
holders sub_id [] = 0
holders sub_id (e ∷ es) = held_by sub_id e + holders sub_id es

abbrev pub HasCount : (ℕ → ℕ) → Subscription → Type 0
HasCount c s = s.refcnt ≡ c s.subject_id % refcnt_mod

-- The counts of the subjects, as a function of the identifier.
abbrev pub IsCount : (ℕ → ℕ) → List Subscription → Type 0
IsCount c subs = All (HasCount c) subs

abbrev pub is_subject : ℕ → ℕ → Subscription → Bool
is_subject sub_id sub_hash s = (s.hash == sub_hash) && (s.subject_id == sub_id)

-- Whether `get_subject` finds an entry.
abbrev pub knows : ℕ → ℕ → List Subscription → Bool
knows sub_id sub_hash [] = false
knows sub_id sub_hash (s ∷ ss) =
    let rest = knows sub_id sub_hash ss in if is_subject sub_id sub_hash s then true else rest

-- A session's table: no subject twice, and each of them an entry of the subjects.
abbrev pub IsTable : List Subscription → Dict ℕ → Type 0
IsTable subs [] = Unit
IsTable subs ((sub_id, sub_hash) ∷ d) =
    ((contains sub_id d ≡ false) × (knows sub_id sub_hash subs ≡ true)) × IsTable subs d

-- A session that has stopped has no table.
abbrev pub IsQuiet : SessionEntry → Type 0
IsQuiet e = in_session_state e.state rv_session_stop ≡ true → e.sub_ht ≡ none

abbrev pub HasTable : List Subscription → SessionEntry → Type 0
HasTable subs e = IsTable subs (entries_of e.sub_ht) × IsQuiet e

-- An identifier that the counter has given out.
abbrev pub IsIssued : Env → ℕ → ℕ → Type 0
IsIssued E ctr sub_id = (j : ℕ) × ((1 ≤ j) × (j ≤ ctr)) × (E.kv_hash_uint j ≡ sub_id)

abbrev pub Balanced : Env → List SessionEntry → List Subscription → ℕ → Type 0
Balanced E ss subs ctr =
    IsCount (λ sub_id. holders sub_id ss) subs
    × (All (HasTable subs) ss × All (λ s. IsIssued E ctr s.subject_id) subs)

abbrev pub names : List SessionEntry → List (List ℕ)
names [] = []
names (e ∷ es) = e.value ∷ names es

-- No name twice.
abbrev pub IsDistinct : List (List ℕ) → Type 0
IsDistinct [] = Unit
IsDistinct (n ∷ ns) = All (λ m. same_bytes n m ≡ false) ns × IsDistinct ns

-- Every subject's `refcnt` is the number of the sessions that hold it, as a word of 31 bits.
abbrev pub IsBalanced : Env → Db → Type 0
IsBalanced E db = Balanced E db.session_tab db.sub_tab db.next_subject_ctr

-- The tables are balanced, and no name has two sessions.
abbrev pub IsValid : Env → Db → Type 0
IsValid E db = IsBalanced E db × IsDistinct (names db.session_tab)
