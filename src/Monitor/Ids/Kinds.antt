-- ===== src/Monitor/Ids/Kinds.antt =====
-- `match_rv_info` against the prefixes: which subjects are of a kind.
use sassrv.Base.{
  ℕ, zero, suc, ◌-◌, ◌<◌, ◌≤◌, Bool, true, false, List, [], ◌∷◌, ◌++◌, length, ◌==◌, get_or, Option,
  some, if◌then◌else◌, drop, ◌≡◌, refl, sym, ap, ap₂, ◌∙◌, ◌↔◌, arith, ◌≢◌, ==→eq, ==→ne,
  Bool-cases, inl, inr, ◌⊎◌, length-append, length-drop,
}
use mathlib.Core.Path.{subst}
use mathlib.Core.Option.{some-injective}
use sassrv.Monitor.Ids.{
  SubKind, is_host_status, is_host_start, is_host_stop, is_unreachable, is_session_start,
  is_session_stop, is_listen_start, is_listen_stop, is_snap, is_sass, is_tic_reply, prefix_of,
  rv_info_sub, same_down, is_kind, find_kind, match_rv_info,
}

-- The subject is the kind's prefix with two bytes or more behind it.
abbrev pub IsOfKind : SubKind → List ℕ → Type 0
IsOfKind k sub = (rest : List ℕ) × (sub ≡ prefix_of k ++ rest) × (2 ≤ length rest)

same_down-bytes :
    (n : ℕ) (sub m : List ℕ)
    → same_down n sub m ≡ true
    → (i : ℕ) → i ≤ n
    → get_or sub i 0 ≡ get_or m i 0
same_down-bytes zero sub m h i le = ground arith
same_down-bytes (suc n) sub m h i le = elim (Bool-cases (i == suc n)) [
  | inl e ↦ ground (arith, ==→eq i (suc n) e)
  | inr e ↦ let ne = ==→ne i (suc n) e in same_down-bytes n sub m (ground arith) i (omega arith)
]

same_bytes-down :
    (n : ℕ) (sub m : List ℕ)
    → ((i : ℕ) → i ≤ n → get_or sub i 0 ≡ get_or m i 0)
    → same_down n sub m ≡ true
same_bytes-down zero sub m h = ground (arith, h 0 (omega arith))
same_bytes-down (suc n) sub m h =
    ground (arith, h (suc n) (omega arith), same_bytes-down n sub m (λ i le. h i (omega arith)))

prefix-bytes :
    (m sub : List ℕ)
    → length m ≤ length sub
    → ((i : ℕ) → i < length m → get_or sub i 0 ≡ get_or m i 0)
    → sub ≡ m ++ drop (length m) sub
prefix-bytes [] sub le h = refl
prefix-bytes (x ∷ m) [] le h = absurd (omega arith)
prefix-bytes (x ∷ m) (y ∷ sub) le h =
    ap₂ ◌∷◌ (h 0 (omega arith)) (prefix-bytes m sub (omega arith) (λ i lt. h (suc i) (omega arith)))

bytes-append : (m rest : List ℕ) (i : ℕ) → i < length m → get_or (m ++ rest) i 0 ≡ get_or m i 0
bytes-append [] rest i h = absurd (omega arith)
bytes-append (x ∷ m) rest zero h = refl
bytes-append (x ∷ m) rest (suc i) h = bytes-append m rest i (omega arith)

-- Two prefixes that differ at a byte that both have.
abbrev differ : List ℕ → List ℕ → Bool
differ [] q = false
differ (x ∷ p) [] = false
differ (x ∷ p) (y ∷ q) = let rest = differ p q in if x == y then rest else true

differ-append : (p q r t : List ℕ) → differ p q ≡ true → p ++ r ≢ q ++ t
differ-append [] q r t h e = ground arith
differ-append (x ∷ p) [] r t h e = ground arith
differ-append (x ∷ p) (y ∷ q) r t h e = ground (arith, e, differ-append p q r t)

is_kind-IsOfKind :
    (k : SubKind) (sub : List ℕ) → 1 ≤ length (prefix_of k) → is_kind sub k ≡ true → IsOfKind k sub
is_kind-IsOfKind k sub pos h =
    let long : suc (length (prefix_of k)) < length sub = ground arith in
    let same : same_down (length (prefix_of k) - 1) sub (prefix_of k) ≡ true = ground arith in
    let parts =
      prefix-bytes (prefix_of k) sub (omega arith) (λ i lt.
        same_down-bytes (length (prefix_of k) - 1) sub (prefix_of k) same i (omega arith)) in
    (drop (length (prefix_of k)) sub, parts, omega (arith, length-drop (length (prefix_of k)) sub))

IsOfKind-is_kind :
    (k : SubKind) (rest : List ℕ)
    → 1 ≤ length (prefix_of k)
    → 2 ≤ length rest
    → is_kind (prefix_of k ++ rest) k ≡ true
IsOfKind-is_kind k rest pos le =
    let same =
      same_bytes-down (length (prefix_of k) - 1) (prefix_of k ++ rest) (prefix_of k)
        (λ i lt. bytes-append (prefix_of k) rest i (omega arith)) in
    ground (arith, same, length-append (prefix_of k) rest)

prefix_of-long : (k : SubKind) → 1 ≤ length (prefix_of k)
prefix_of-long is_host_status = omega arith
prefix_of-long is_host_start = omega arith
prefix_of-long is_host_stop = omega arith
prefix_of-long is_unreachable = omega arith
prefix_of-long is_session_start = omega arith
prefix_of-long is_session_stop = omega arith
prefix_of-long is_listen_start = omega arith
prefix_of-long is_listen_stop = omega arith
prefix_of-long is_snap = omega arith
prefix_of-long is_sass = omega arith
prefix_of-long is_tic_reply = omega arith

tested :
    (b : Bool) (j k : SubKind) (r : Option SubKind)
    → (if b then some j else r) ≡ some k
    → ((b ≡ true) × (j ≡ k)) ⊎ (r ≡ some k)
tested true j k r h = inl (refl, some-injective _ _ h)
tested false j k r h = inr h

find_kind_sound :
    (sub : List ℕ) (ks : List SubKind) (k : SubKind)
    → find_kind sub ks ≡ some k
    → is_kind sub k ≡ true
find_kind_sound sub [] k h = ground arith
find_kind_sound sub (j ∷ ks) k h = elim (tested (is_kind sub j) j k (find_kind sub ks) h) [
  | inl both ↦ subst (λ x. is_kind sub x ≡ true) both.1 both.0
  | inr later ↦ find_kind_sound sub ks k later
]

-- The table reaches a kind past prefixes that all differ from its own.
data Reaches (k : SubKind) : List SubKind → Type 0 where
  here : {ks : List SubKind} → Reaches k (k ∷ ks)
  past :
      {j : SubKind} {ks : List SubKind}
      → differ (prefix_of j) (prefix_of k) ≡ true
      → Reaches k ks
      → Reaches k (j ∷ ks)

find_kind-Reaches :
    (k : SubKind) (rest : List ℕ)
    → 2 ≤ length rest
    → {ks : List SubKind} → Reaches k ks
    → find_kind (prefix_of k ++ rest) ks ≡ some k
find_kind-Reaches k rest le here = ground (arith, IsOfKind-is_kind k rest (prefix_of-long k) le)
find_kind-Reaches k rest le {ks = j ∷ ks} (past d r) =
    elim (Bool-cases (is_kind (prefix_of k ++ rest) j)) [
      | inl e ↦
          let (t, same, long) = is_kind-IsOfKind j (prefix_of k ++ rest) (prefix_of-long j) e in
          absurd (differ-append (prefix_of j) (prefix_of k) t rest d (sym same))
      | inr e ↦ ground (arith, find_kind-Reaches k rest le r)
    ]

Reaches-all : (k : SubKind) → Reaches k rv_info_sub
Reaches-all is_host_status = here
Reaches-all is_host_start = past refl here
Reaches-all is_host_stop = past refl (past refl here)
Reaches-all is_unreachable = past refl (past refl (past refl here))
Reaches-all is_session_start = past refl (past refl (past refl (past refl here)))
Reaches-all is_session_stop = past refl (past refl (past refl (past refl (past refl here))))
Reaches-all is_listen_start =
    past refl (past refl (past refl (past refl (past refl (past refl here)))))
Reaches-all is_listen_stop =
    past refl (past refl (past refl (past refl (past refl (past refl (past refl here))))))
Reaches-all is_snap =
    past refl
      (past refl (past refl (past refl (past refl (past refl (past refl (past refl here)))))))
Reaches-all is_sass = past refl (
    past refl
      (past refl (past refl (past refl (past refl (past refl (past refl (past refl here))))))))
Reaches-all is_tic_reply = past refl (
    past refl (
      past refl
        (past refl (past refl (past refl (past refl (past refl (past refl (past refl here)))))))))

-- A subject is of a kind just when it is the kind's prefix with two bytes or more behind it.
pub match_rv_info_lem : (k : SubKind) (sub : List ℕ) → (match_rv_info sub ≡ some k) ↔ IsOfKind k sub
unfolding match_rv_info
match_rv_info_lem k sub = (
  λ e. is_kind-IsOfKind k sub (prefix_of-long k) (find_kind_sound sub rv_info_sub k e),
  λ (rest, same, long).
      ap (λ s. find_kind s rv_info_sub) same ∙ find_kind-Reaches k rest long (Reaches-all k),
)
