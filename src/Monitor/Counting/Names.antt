-- ===== src/Monitor/Counting/Names.antt =====
-- The names of the sessions: no name has two.
use sassrv.Base.{
  ℕ, Bool, true, false, ◌&&◌, List, [], ◌∷◌, ◌++◌, ◌==◌, if◌then◌else◌, Option, none, some, ◌≡◌,
  ◌≢◌, refl, sym, ap, ◌∙◌, All, arith, inl, inr, ◌⊎◌,
}
use mathlib.Core.Path.{subst}
use mathlib.Core.Option.{some-injective}
use sassrv.Host.Services.{same_bytes}
use sassrv.Host.Services.Laws.{same_bytes-eq, same_bytes_self}
use sassrv.Monitor.Entry.{SessionEntry}
use sassrv.Monitor.Db.{find_name, find_session, update_session}
use sassrv.Monitor.Counting.{names, IsDistinct}
use sassrv.Monitor.Counting.Tables.{found_first}

names-head :
    (b : Bool) (fs s : SessionEntry) (ss rest : List SessionEntry)
    → (b ≡ true → fs.value ≡ s.value)
    → (b ≡ false → names rest ≡ names ss)
    → names (if b then fs ∷ ss else s ∷ rest) ≡ names (s ∷ ss)
names-head true fs s ss rest h k = ap (λ v. v ∷ names ss) (h refl)
names-head false fs s ss rest h k = ap (λ vs. s.value ∷ vs) (k refl)

-- A change of the session of a name that keeps its name keeps all names.
pub names-update :
    (name : List ℕ) (f : SessionEntry → SessionEntry) (ss : List SessionEntry)
    → ((e : SessionEntry) → find_name name ss ≡ some e → (f e).value ≡ e.value)
    → names (update_session name f ss) ≡ names ss
names-update name f [] k = refl
names-update name f (s ∷ ss) k =
    names-head (same_bytes s.value name) (f s) s ss (update_session name f ss)
      (λ t. k s (ap (λ b. if b then some s else find_name name ss) t))
      (λ t.
        names-update name f ss
          (λ e found. k e (ap (λ b. if b then some s else find_name name ss) t ∙ found)))

find_session-All :
    (Q : List ℕ → Type 0) (sess_id sess_hash : ℕ) (ss : List SessionEntry) (e : SessionEntry)
    → find_session sess_id sess_hash ss ≡ some e
    → All Q (names ss)
    → Q e.value
find_session-All Q sess_id sess_hash [] e h k = ground arith
find_session-All Q sess_id sess_hash (s ∷ ss) e h k =
    elim (found_first ((s.hash == sess_hash) && (s.session_id == sess_id)) s e
      (find_session sess_id sess_hash ss) h) [
        | inl p ↦ subst (λ x. Q x.value) p.1 k.0
        | inr p ↦ find_session-All Q sess_id sess_hash ss e p.1 k.1
      ]

-- A session that is found by its identifier is the one of its name.
pub find_session-find_name :
    (sess_id sess_hash : ℕ) (ss : List SessionEntry) (e : SessionEntry)
    → find_session sess_id sess_hash ss ≡ some e
    → IsDistinct (names ss)
    → find_name e.value ss ≡ some e
find_session-find_name sess_id sess_hash [] e h k = ground arith
find_session-find_name sess_id sess_hash (s ∷ ss) e h k =
    elim (found_first ((s.hash == sess_hash) && (s.session_id == sess_id)) s e
      (find_session sess_id sess_hash ss) h) [
        | inl p ↦
            subst (λ x. find_name x.value (s ∷ ss) ≡ some x) p.1
              (ap (λ b. if b then some s else find_name s.value ss) (same_bytes_self s.value))
        | inr p ↦
            ap (λ b. if b then some s else find_name e.value ss)
              (find_session-All (λ m. same_bytes s.value m ≡ false) sess_id sess_hash ss e p.1 k.0)
            ∙ find_session-find_name sess_id sess_hash ss e p.1 k.1
      ]

some_ne_none : (s : SessionEntry) → some s ≢ none
some_ne_none s e = cc

absent_first :
    (b : Bool) (s : SessionEntry) (rest : Option SessionEntry)
    → (if b then some s else rest) ≡ none
    → (b ≡ false) × (rest ≡ none)
absent_first true s rest h = absurd (some_ne_none s h)
absent_first false s rest h = (refl, h)

All-absent :
    (name : List ℕ) (ss : List SessionEntry)
    → find_name name ss ≡ none
    → All (λ m. same_bytes m name ≡ false) (names ss)
All-absent name [] h = tt
All-absent name (s ∷ ss) h =
    let (differ, rest) = absent_first (same_bytes s.value name) s (find_name name ss) h in
    (differ, All-absent name ss rest)

All-snoc :
    (Q : List ℕ → Type 0) (ss : List SessionEntry) (e : SessionEntry)
    → All Q (names ss)
    → Q e.value
    → All Q (names (ss ++ e ∷ []))
All-snoc Q [] e h k = (k, tt)
All-snoc Q (s ∷ ss) e h k = (h.0, All-snoc Q ss e h.1 k)

IsDistinct-snoc :
    (ss : List SessionEntry) (e : SessionEntry)
    → All (λ m. same_bytes m e.value ≡ false) (names ss)
    → IsDistinct (names ss)
    → IsDistinct (names (ss ++ e ∷ []))
IsDistinct-snoc [] e h k = (tt, tt)
IsDistinct-snoc (s ∷ ss) e h k =
    (All-snoc (λ m. same_bytes s.value m ≡ false) ss e k.0 h.0, IsDistinct-snoc ss e h.1 k.1)

-- A session of a new name is added.
pub IsDistinct-new :
    (ss : List SessionEntry) (e : SessionEntry)
    → find_name e.value ss ≡ none
    → IsDistinct (names ss)
    → IsDistinct (names (ss ++ e ∷ []))
IsDistinct-new ss e h k = IsDistinct-snoc ss e (All-absent e.value ss h) k

pub find_name-value :
    (name : List ℕ) (ss : List SessionEntry) (e : SessionEntry)
    → find_name name ss ≡ some e
    → e.value ≡ name
find_name-value name [] e h = ground arith
find_name-value name (s ∷ ss) e h =
    elim (found_first (same_bytes s.value name) s e (find_name name ss) h) [
      | inl p ↦ sym (ap (λ x. x.value) p.1) ∙ same_bytes-eq s.value name p.0
      | inr p ↦ find_name-value name ss e p.1
    ]

updated_head :
    (b : Bool) (name : List ℕ) (s fs e : SessionEntry) (ss rest : List SessionEntry)
    → same_bytes s.value name ≡ b
    → fs.value ≡ s.value
    → find_name name (if b then fs ∷ ss else s ∷ rest) ≡ some e
    → (fs ≡ e) ⊎ (find_name name rest ≡ some e)
updated_head true name s fs e ss rest t v h = inl (
    some-injective _ _ (
      sym (ap (λ b. if b then some fs else find_name name ss) (ap (λ x. same_bytes x name) v ∙ t))
      ∙ h))
updated_head false name s fs e ss rest t v h =
    inr (sym (ap (λ b. if b then some s else find_name name rest) t) ∙ h)

-- The session of a name, after it was changed.
pub find_name-updated :
    (name : List ℕ) (f : SessionEntry → SessionEntry) (ss : List SessionEntry) (e : SessionEntry)
    → ((x : SessionEntry) → (f x).value ≡ x.value)
    → find_name name (update_session name f ss) ≡ some e
    → (e0 : SessionEntry) × (f e0 ≡ e)
find_name-updated name f [] e k h = ground arith
find_name-updated name f (s ∷ ss) e k h =
    elim (updated_head (same_bytes s.value name) name s (f s) e ss (update_session name f ss) refl
      (k s) h) [ inl p ↦ (s, p) | inr p ↦ find_name-updated name f ss e k p ]

-- The session that is added for a name that was absent is the one of the name.
pub find_name-new :
    (name : List ℕ) (ss : List SessionEntry) (e x : SessionEntry)
    → find_name name ss ≡ none
    → find_name name (ss ++ e ∷ []) ≡ some x
    → e ≡ x
find_name-new name [] e x h k = elim (found_first (same_bytes e.value name) e x none k) [
  | inl p ↦ p.1
  | inr p ↦ absurd (some_ne_none x (sym p.1))
]
find_name-new name (s ∷ ss) e x h k =
    let (differ, rest) = absent_first (same_bytes s.value name) s (find_name name ss) h in
    find_name-new name ss e x rest
      (sym (ap (λ b. if b then some s else find_name name (ss ++ e ∷ [])) differ) ∙ k)
