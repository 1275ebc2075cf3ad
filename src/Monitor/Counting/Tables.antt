-- ===== src/Monitor/Counting/Tables.antt =====
-- The tables of sessions and subjects under a change of an entry.
pub mod Held
use sassrv.Base.{
  ℕ, ◌+◌, Bool, true, false, ◌&&◌, List, [], ◌∷◌, ◌++◌, ◌==◌, if◌then◌else◌, Option, some, ◌≡◌,
  refl, sym, ap, ap₂, ◌∙◌, All, arith, inl, inr, ◌⊎◌, if_either, either, eq→==,
}
use mathlib.Core.Path.{subst}
use mathlib.Core.Option.{some-injective}
use sassrv.Base.Dict.{contains}
use sassrv.Host.Services.{same_bytes}
use sassrv.Monitor.Entry.{Subscription, SessionEntry}
use sassrv.Monitor.Db.{get_subject, find_name, find_sub, update_session, update_sub}
use sassrv.Monitor.Sessions.{entries_of}
use sassrv.Monitor.Counting.{one_if, held_by, holders, is_subject, knows}

-- The entry at the head is found, or one of the rest.
pub found_first :
    {A : Type 0} (b : Bool) (a e : A) (rest : Option A)
    → (if b then some a else rest) ≡ some e
    → ((b ≡ true) × (a ≡ e)) ⊎ ((b ≡ false) × (rest ≡ some e))
found_first true a e rest h = inl (refl, some-injective _ _ h)
found_first false a e rest h = inr (refl, h)

holders-head :
    (sub_id : ℕ) (b : Bool) (f : SessionEntry → SessionEntry) (s e : SessionEntry)
    (ss rest : List SessionEntry)
    → ((b ≡ true) × (s ≡ e))
      ⊎ ((b ≡ false)
          × (holders sub_id rest + held_by sub_id e ≡ holders sub_id ss + held_by sub_id (f e)))
    → holders sub_id (if b then f s ∷ ss else s ∷ rest) + held_by sub_id e
      ≡ holders sub_id (s ∷ ss) + held_by sub_id (f e)
holders-head sub_id true f s e ss rest (inl p) =
    omega (arith, ap (held_by sub_id) p.1, ap (λ x. held_by sub_id (f x)) p.1)
holders-head sub_id true f s e ss rest (inr p) = ground (arith, p.0)
holders-head sub_id false f s e ss rest (inl p) = ground (arith, p.0)
holders-head sub_id false f s e ss rest (inr p) = omega (arith, p.1)

-- A session that changes takes what it held away, and brings what it holds.
pub holders-update :
    (sub_id : ℕ) (name : List ℕ) (f : SessionEntry → SessionEntry) (ss : List SessionEntry)
    (e : SessionEntry)
    → find_name name ss ≡ some e
    → holders sub_id (update_session name f ss) + held_by sub_id e
      ≡ holders sub_id ss + held_by sub_id (f e)
holders-update sub_id name f [] e h = ground arith
holders-update sub_id name f (s ∷ ss) e h =
    holders-head sub_id (same_bytes s.value name) f s e ss (update_session name f ss)
      (elim (found_first (same_bytes s.value name) s e (find_name name ss) h) [
        | inl p ↦ inl p
        | inr p ↦ inr (p.0, holders-update sub_id name f ss e p.1)
      ])

-- A change that keeps the tables keeps the holders.
pub holders-keep :
    (sub_id : ℕ) (name : List ℕ) (f : SessionEntry → SessionEntry) (ss : List SessionEntry)
    → ((e : SessionEntry) → (f e).sub_ht ≡ e.sub_ht)
    → holders sub_id (update_session name f ss) ≡ holders sub_id ss
holders-keep sub_id name f [] h = refl
holders-keep sub_id name f (s ∷ ss) h =
    if_either (holders sub_id) (holders sub_id (s ∷ ss)) (same_bytes s.value name) (f s ∷ ss)
      (s ∷ update_session name f ss)
      (ap (λ t. one_if (contains sub_id (entries_of t)) + holders sub_id ss) (h s))
      (ap (λ n. held_by sub_id s + n) (holders-keep sub_id name f ss h))

All-head :
    (P : SessionEntry → Type 0) (b : Bool) (fs s : SessionEntry) (ss rest : List SessionEntry)
    → (b ≡ true → P fs)
    → All P (s ∷ ss)
    → (b ≡ false → All P rest)
    → All P (if b then fs ∷ ss else s ∷ rest)
All-head P true fs s ss rest h k r = (h refl, k.1)
All-head P false fs s ss rest h k r = (k.0, r refl)

-- What the changed entry has, and every entry had, every entry has.
pub All-update_session :
    (P : SessionEntry → Type 0) (name : List ℕ) (f : SessionEntry → SessionEntry)
    (ss : List SessionEntry)
    → ((e : SessionEntry) → find_name name ss ≡ some e → P e → P (f e))
    → All P ss
    → All P (update_session name f ss)
All-update_session P name f [] h k = tt
All-update_session P name f (s ∷ ss) h k =
    All-head P (same_bytes s.value name) (f s) s ss (update_session name f ss)
      (λ t. h s (ap (λ b. if b then some s else find_name name ss) t) k.0) k
      (λ t.
        All-update_session P name f ss
          (λ e found. h e (ap (λ b. if b then some s else find_name name ss) t ∙ found)) k.1)

knows-head :
    (b c r t : Bool)
    → b ≡ c
    → (r ≡ true → t ≡ true)
    → (if b then true else r) ≡ true
    → (if c then true else t) ≡ true
knows-head b c r t e k h = ground (arith, e, k)

-- A change of an entry that keeps its hash and its identifier.
abbrev pub Keeps : (Subscription → Subscription) → Type 0
Keeps f = (s : Subscription) → ((f s).hash ≡ s.hash) × ((f s).subject_id ≡ s.subject_id)

pub knows-update :
    (sub_id sub_hash k : ℕ) (f : Subscription → Subscription) (subs : List Subscription)
    → Keeps f
    → knows sub_id sub_hash subs ≡ true
    → knows sub_id sub_hash (update_sub k f subs) ≡ true
knows-update sub_id sub_hash k f [] h n = n
knows-update sub_id sub_hash k f (s ∷ subs) h n =
    knows-head (is_subject sub_id sub_hash s)
      (is_subject sub_id sub_hash (if s.subject_id == k then f s else s))
      (knows sub_id sub_hash subs) (knows sub_id sub_hash (update_sub k f subs))
      (sym (
        if_either (is_subject sub_id sub_hash) (is_subject sub_id sub_hash s) (s.subject_id == k)
          (f s) s (ap₂ (λ x y. (x == sub_hash) && (y == sub_id)) (h s).0 (h s).1) refl))
      (knows-update sub_id sub_hash k f subs h) n

pub knows-append :
    (sub_id sub_hash : ℕ) (subs more : List Subscription)
    → knows sub_id sub_hash subs ≡ true
    → knows sub_id sub_hash (subs ++ more) ≡ true
knows-append sub_id sub_hash [] more n = ground arith
knows-append sub_id sub_hash (s ∷ subs) more n =
    knows-head (is_subject sub_id sub_hash s) (is_subject sub_id sub_hash s)
      (knows sub_id sub_hash subs) (knows sub_id sub_hash (subs ++ more)) refl
      (knows-append sub_id sub_hash subs more) n

knows-here :
    (b : Bool) (s : Subscription) (rest : Option Subscription) (r : Bool)
    → (if b then true else r) ≡ true
    → (r ≡ true → (t : Subscription) × (rest ≡ some t))
    → (t : Subscription) × ((if b then some s else rest) ≡ some t)
knows-here true s rest r h k = (s, refl)
knows-here false s rest r h k = k h

pub knows-get :
    (sub_id sub_hash : ℕ) (subs : List Subscription)
    → knows sub_id sub_hash subs ≡ true
    → (s : Subscription) × (get_subject sub_id sub_hash subs ≡ some s)
knows-get sub_id sub_hash [] h = ground arith
knows-get sub_id sub_hash (s ∷ subs) h =
    knows-here (is_subject sub_id sub_hash s) s (get_subject sub_id sub_hash subs)
      (knows sub_id sub_hash subs) h (knows-get sub_id sub_hash subs)

-- What the entry found has of every entry, and that it is the one looked for.
pub get_subject-All :
    (P : Subscription → Type 0) (sub_id sub_hash : ℕ) (subs : List Subscription) (s : Subscription)
    → get_subject sub_id sub_hash subs ≡ some s
    → All P subs
    → (is_subject sub_id sub_hash s ≡ true) × P s
get_subject-All P sub_id sub_hash [] s h k = ground arith
get_subject-All P sub_id sub_hash (t ∷ subs) s h k =
    elim (found_first (is_subject sub_id sub_hash t) t s (get_subject sub_id sub_hash subs) h) [
      | inl p ↦ subst (λ x. (is_subject sub_id sub_hash x ≡ true) × P x) p.1 (p.0, k.0)
      | inr p ↦ get_subject-All P sub_id sub_hash subs s p.1 k.1
    ]

pub find_sub-All :
    (P : Subscription → Type 0) (value : List ℕ) (subs : List Subscription) (s : Subscription)
    → find_sub value subs ≡ some s
    → All P subs
    → (knows s.subject_id s.hash subs ≡ true) × P s
find_sub-All P value [] s h k = ground arith
find_sub-All P value (t ∷ subs) s h k =
    elim (found_first (same_bytes t.value value) t s (find_sub value subs) h) [
      | inl p ↦
          subst (λ x. (knows x.subject_id x.hash (t ∷ subs) ≡ true) × P x) p.1
            (
              ap₂ (λ x y. if x && y then true else knows t.subject_id t.hash subs)
                  (eq→== t.hash t.hash refl) (eq→== t.subject_id t.subject_id refl),
              k.0,
            )
      | inr p ↦
          let (known, has) = find_sub-All P value subs s p.1 k.1 in
          (
            either (λ x. x ≡ true) (is_subject s.subject_id s.hash t) true
                (knows s.subject_id s.hash subs) refl known,
            has,
          )
    ]
