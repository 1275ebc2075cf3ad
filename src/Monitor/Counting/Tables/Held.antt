-- ===== src/Monitor/Counting/Tables/Held.antt =====
-- What a session holds: the tables of identifiers, and the counts of the entries.
use sassrv.Base.{
  ℕ, ◌%◌, Bool, true, false, ◌&&◌, List, [], ◌∷◌, ◌++◌, ◌==◌, if◌then◌else◌, Option, none, some,
  ◌≡◌, ◌≢◌, refl, sym, ap, ap₂, ◌∙◌, All, arith, Bool-cases, inl, inr, either, ==→eq, ==→ne, eq→==,
}
use mathlib.Core.Path.{subst}
use sassrv.Base.Dict.{Dict, contains, put, erase}
use sassrv.Host.Services.{same_bytes}
use sassrv.Monitor.Entry.{Subscription, SessionEntry, refcnt_mod}
use sassrv.Monitor.Db.{find_name, update_session, update_sub}
use sassrv.Monitor.Counting.{HasCount, IsCount, IsTable, is_subject, knows}
use sassrv.Monitor.Counting.Tables.{Keeps, found_first}

contains-head : (b r : Bool) → (if b then true else r) ≡ false → (b ≡ false) × (r ≡ false)
contains-head b r h = ground arith

pub contains-put_self : (k v : ℕ) (d : Dict ℕ) → contains k (put k v d) ≡ true
contains-put_self k v [] = ground arith
contains-put_self k v ((j, w) ∷ d) = ground (arith, contains-put_self k v d)

pub contains-put_ne : (k v x : ℕ) (d : Dict ℕ) → x ≢ k → contains x (put k v d) ≡ contains x d
contains-put_ne k v x [] h = ground arith
contains-put_ne k v x ((j, w) ∷ d) h = ground (arith, contains-put_ne k v x d h)

pub contains-erase_ne : (k x : ℕ) (d : Dict ℕ) → x ≢ k → contains x (erase k d) ≡ contains x d
contains-erase_ne k x [] h = ground arith
contains-erase_ne k x ((j, w) ∷ d) h = ground (arith, contains-erase_ne k x d h)

-- A table whose subjects are known stays one when more are known.
pub IsTable_mono :
    (subs subs' : List Subscription)
    → ((sub_id sub_hash : ℕ)
        → knows sub_id sub_hash subs ≡ true
        → knows sub_id sub_hash subs' ≡ true)
    → (d : Dict ℕ) → IsTable subs d
    → IsTable subs' d
IsTable_mono subs subs' more [] h = tt
IsTable_mono subs subs' more ((j, w) ∷ d) h =
    ((h.0.0, more j w h.0.1), IsTable_mono subs subs' more d h.1)

pub IsTable-put :
    (subs : List Subscription) (k v : ℕ) (d : Dict ℕ)
    → contains k d ≡ false
    → knows k v subs ≡ true
    → IsTable subs d
    → IsTable subs (put k v d)
IsTable-put subs k v [] new known h = ((refl, known), tt)
IsTable-put subs k v ((j, w) ∷ d) new known h =
    let parts = contains-head (k == j) (contains k d) new in
    subst (λ b. IsTable subs (if b then (k, v) ∷ d else (j, w) ∷ put k v d)) (sym parts.0)
      (
        (contains-put_ne k v j d (λ e. ==→ne k j parts.0 (sym e)) ∙ h.0.0, h.0.1),
        IsTable-put subs k v d parts.1 known h.1,
      )

pub IsTable-erase :
    (subs : List Subscription) (k : ℕ) (d : Dict ℕ) → IsTable subs d → IsTable subs (erase k d)
IsTable-erase subs k [] h = tt
IsTable-erase subs k ((j, w) ∷ d) h = elim (Bool-cases (k == j)) [
  | inl e ↦ subst (λ b. IsTable subs (if b then d else (j, w) ∷ erase k d)) (sym e) h.1
  | inr e ↦
      subst (λ b. IsTable subs (if b then d else (j, w) ∷ erase k d)) (sym e)
        (
          (contains-erase_ne k j d (λ same. ==→ne k j e (sym same)) ∙ h.0.0, h.0.1),
          IsTable-erase subs k d h.1,
        )
]

pub IsTable-gone :
    (subs : List Subscription) (k : ℕ) (d : Dict ℕ)
    → IsTable subs d
    → contains k (erase k d) ≡ false
IsTable-gone subs k [] h = refl
IsTable-gone subs k ((j, w) ∷ d) h = elim (Bool-cases (k == j)) [
  | inl e ↦
      subst (λ b. contains k (if b then d else (j, w) ∷ erase k d) ≡ false) (sym e)
        (subst (λ x. contains x d ≡ false) (sym (==→eq k j e)) h.0.0)
  | inr e ↦
      subst (λ b. contains k (if b then d else (j, w) ∷ erase k d) ≡ false) (sym e)
        (ap (λ b. if b then true else contains k (erase k d)) e ∙ IsTable-gone subs k d h.1)
]

IsCount-head :
    (c c' : ℕ → ℕ) (k : ℕ) (f : Subscription → Subscription) (s : Subscription)
    → Keeps f
    → ((t : Subscription) → t.subject_id ≡ k → (f t).refcnt ≡ c' k % refcnt_mod)
    → ((x : ℕ) → x ≢ k → c' x ≡ c x)
    → HasCount c s
    → HasCount c' (if s.subject_id == k then f s else s)
IsCount-head c c' k f s keep new old h = elim (Bool-cases (s.subject_id == k)) [
  | inl e ↦
      subst (λ b. HasCount c' (if b then f s else s)) (sym e)
        (new s (==→eq _ _ e) ∙ ap (λ x. c' x % refcnt_mod) (sym ((keep s).1 ∙ ==→eq _ _ e)))
  | inr e ↦
      subst (λ b. HasCount c' (if b then f s else s)) (sym e)
        (h ∙ ap (λ x. x % refcnt_mod) (sym (old s.subject_id (==→ne _ _ e))))
]

-- The entries of an identifier get its new count, and the counts of the others stay.
pub IsCount-update :
    (c c' : ℕ → ℕ) (k : ℕ) (f : Subscription → Subscription) (subs : List Subscription)
    → Keeps f
    → ((t : Subscription) → t.subject_id ≡ k → (f t).refcnt ≡ c' k % refcnt_mod)
    → ((x : ℕ) → x ≢ k → c' x ≡ c x)
    → IsCount c subs
    → IsCount c' (update_sub k f subs)
IsCount-update c c' k f [] keep new old h = tt
IsCount-update c c' k f (s ∷ subs) keep new old h =
    (IsCount-head c c' k f s keep new old h.0, IsCount-update c c' k f subs keep new old h.1)

-- A change that keeps what `P` says of each entry.
pub All-update_sub :
    (P : Subscription → Type 0) (k : ℕ) (f : Subscription → Subscription) (subs : List Subscription)
    → ((s : Subscription) → P s → P (f s))
    → All P subs
    → All P (update_sub k f subs)
All-update_sub P k f [] h a = tt
All-update_sub P k f (s ∷ subs) h a =
    (either P (s.subject_id == k) (f s) s (h s a.0) a.0, All-update_sub P k f subs h a.1)

pub All-map {ℓ} :
    {A : Type 0} (P Q : A → Type ℓ) (xs : List A) → ((a : A) → P a → Q a) → All P xs → All Q xs
All-map P Q [] h k = tt
All-map P Q (x ∷ xs) h k = (h x k.0, All-map P Q xs h k.1)

pub find_name-All :
    (P : SessionEntry → Type 0) (name : List ℕ) (ss : List SessionEntry) (e : SessionEntry)
    → find_name name ss ≡ some e
    → All P ss
    → P e
find_name-All P name [] e h k = ground arith
find_name-All P name (s ∷ ss) e h k =
    elim (found_first (same_bytes s.value name) s e (find_name name ss) h) [
      | inl p ↦ subst P p.1 k.0
      | inr p ↦ find_name-All P name ss e p.1 k.1
    ]

some≢none : (s : SessionEntry) → some s ≢ none
some≢none s e = cc

absent_head :
    (b : Bool) (s fs : SessionEntry) (ss rest : List SessionEntry) (found : Option SessionEntry)
    → (if b then some s else found) ≡ none
    → (found ≡ none → rest ≡ ss)
    → (if b then fs ∷ ss else s ∷ rest) ≡ s ∷ ss
absent_head true s fs ss rest found h k = absurd (some≢none s h)
absent_head false s fs ss rest found h k = ap (◌∷◌ s) (k h)

pub update_session-absent :
    (name : List ℕ) (f : SessionEntry → SessionEntry) (ss : List SessionEntry)
    → find_name name ss ≡ none
    → update_session name f ss ≡ ss
update_session-absent name f [] h = refl
update_session-absent name f (s ∷ ss) h =
    absent_head (same_bytes s.value name) s (f s) ss (update_session name f ss) (find_name name ss)
      h (update_session-absent name f ss)

pub knows-snoc :
    (subs : List Subscription) (s : Subscription)
    → knows s.subject_id s.hash (subs ++ s ∷ []) ≡ true
knows-snoc [] s =
    ap₂ (λ x y. if x && y then true else false) (eq→== s.hash s.hash refl)
      (eq→== s.subject_id s.subject_id refl)
knows-snoc (t ∷ subs) s =
    either (λ x. x ≡ true) (is_subject s.subject_id s.hash t) true
      (knows s.subject_id s.hash (subs ++ s ∷ [])) refl (knows-snoc subs s)
