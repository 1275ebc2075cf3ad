-- ===== src/Ft/Queue/Rank.antt =====
-- What `sift` does to the order: the entries stay ranked, and `p` is put between two of them.
use sassrv.Base.{
  ℕ, suc, ◌+◌, ◌≡◌, ◌≢◌, refl, ap, true, false, ◌⊎◌, inl, inr, List, [], ◌∷◌, ◌++◌, length, get_or,
  All, All-split, All-append, arith, Bool-cases,
}
use sassrv.Ft.Peer.Rank.{is_greater_trans, is_greater_total}
use sassrv.Ft.Queue.{Heap, greater, sift, rev_append}
use sassrv.Ft.Queue.Place.{IsRanked}
use mathlib.Core.Path.{subst}

-- All entries started at other times than `p`.
abbrev pub Apart : Heap → ℕ → List ℕ → Type 0
Apart h p xs = All (λ b. (h b).start_ns ≢ (h p).start_ns) xs

abbrev pub Under : Heap → ℕ → List ℕ → Type 0
Under h a xs = All (λ b. greater h a b ≡ true) xs

pub greater_trans :
    (h : Heap) (a b : ℕ) (xs : List ℕ) → greater h a b ≡ true → Under h b xs → Under h a xs
greater_trans h a b [] e k = tt
greater_trans h a b (c ∷ xs) e k =
    (is_greater_trans (h a) (h b) (h c) e k.0, greater_trans h a b xs e k.1)

-- A change of the tail that keeps what is above it keeps the whole ranked.
IsRanked-rev_append :
    (h : Heap) (front old new : List ℕ)
    → (IsRanked h old → IsRanked h new)
    → ((a : ℕ) → Under h a old → Under h a new)
    → IsRanked h (rev_append front old)
    → IsRanked h (rev_append front new)
unfolding rev_append
IsRanked-rev_append h [] old new f g r = f r
IsRanked-rev_append h (q ∷ front) old new f g r =
    IsRanked-rev_append h front (q ∷ old) (q ∷ new) (λ k. (g q k.0, f k.1)) (λ a k. (k.0, g a k.1))
      r

sift_stop :
    (h : Heap) (p q : ℕ) (front after : List ℕ)
    → greater h q p ≡ true
    → (q ∷ front, p ∷ after) ≡ sift h p (q ∷ front) after
unfolding sift
sift_stop h p q front after e = ground arith

sift_go :
    (h : Heap) (p q : ℕ) (front after : List ℕ)
    → greater h q p ≡ false
    → sift h p front (q ∷ after) ≡ sift h p (q ∷ front) after
unfolding sift
sift_go h p q front after e = ground arith

pub sift-IsRanked :
    (h : Heap) (p : ℕ) (front after : List ℕ)
    → Apart h p front
    → Under h p after
    → IsRanked h (rev_append front after)
    → let (kept, moved) = sift h p front after in IsRanked h (rev_append kept moved)
unfolding sift rev_append
sift-IsRanked h p [] after d u r = (u, r)
sift-IsRanked h p (q ∷ front) after d u r = elim (Bool-cases (greater h q p)) [
  | inl e ↦
      subst (λ r. IsRanked h (rev_append r.0 r.1)) (sift_stop h p q front after e)
        (IsRanked-rev_append h front (q ∷ after) (q ∷ p ∷ after) (λ k. ((e, k.0), (u, k.1)))
          (λ a k. (k.0, (is_greater_trans (h a) (h q) (h p) k.0 e, k.1))) r)
  | inr e ↦
      subst (λ r. IsRanked h (rev_append r.0 r.1)) (sift_go h p q front after e)
        (sift-IsRanked h p front (q ∷ after) d.1 (is_greater_total (h q) (h p) d.0 e, u) r)
]

-- `p` is put among the entries; the others keep their order.
pub sift_members :
    (h : Heap) (p : ℕ) (front after : List ℕ)
    → let (kept, moved) = sift h p front after in
      (ms : List ℕ) × (moved ≡ p ∷ ms) × (rev_append kept ms ≡ rev_append front after)
unfolding sift rev_append
sift_members h p [] after = (after, refl, refl)
sift_members h p (q ∷ front) after = elim (Bool-cases (greater h q p)) [
  | inl e ↦
      subst
        (λ r. (ms : List ℕ) × (r.1 ≡ p ∷ ms) × (rev_append r.0 ms ≡ rev_append (q ∷ front) after))
        (sift_stop h p q front after e) (after, refl, refl)
  | inr e ↦
      subst
        (λ r. (ms : List ℕ) × (r.1 ≡ p ∷ ms) × (rev_append r.0 ms ≡ rev_append (q ∷ front) after))
        (sift_go h p q front after e) (sift_members h p front (q ∷ after))
]

pub rev_append-append : (xs ys zs : List ℕ) → rev_append xs (ys ++ zs) ≡ rev_append xs ys ++ zs
unfolding rev_append
rev_append-append [] ys zs = refl
rev_append-append (x ∷ xs) ys zs = rev_append-append xs (x ∷ ys) zs

pub rev_append_last : (xs ys : List ℕ) (p : ℕ) → rev_append (xs ++ p ∷ []) ys ≡ p ∷ rev_append xs ys
unfolding rev_append
rev_append_last [] ys p = refl
rev_append_last (x ∷ xs) ys p = rev_append_last xs (x ∷ ys) p

pub rev_append-rev_append : (xs ys : List ℕ) → rev_append (rev_append xs ys) [] ≡ rev_append ys xs
unfolding rev_append
rev_append-rev_append [] ys = refl
rev_append-rev_append (x ∷ xs) ys = rev_append-rev_append xs (x ∷ ys)

pub length-rev_append : (xs ys : List ℕ) → length (rev_append xs ys) ≡ length xs + length ys
unfolding rev_append
length-rev_append [] ys = omega arith
length-rev_append (x ∷ xs) ys = omega (arith, length-rev_append xs (x ∷ ys))

pub All-rev_append {κ} :
    (P : ℕ → Type κ) (xs ys : List ℕ) → All P xs → All P ys → All P (rev_append xs ys)
unfolding rev_append
All-rev_append P [] ys a b = b
All-rev_append P (x ∷ xs) ys a b = All-rev_append P xs (x ∷ ys) a.1 (a.0, b)

-- A part of a ranked list is ranked.
pub IsRanked-drop :
    (h : Heap) (xs : List ℕ) (p : ℕ) (ys : List ℕ)
    → IsRanked h (xs ++ p ∷ ys)
    → IsRanked h (xs ++ ys)
IsRanked-drop h [] p ys r = r.1
IsRanked-drop h (x ∷ xs) p ys r =
    let (a, b) = All-split _ xs (p ∷ ys) r.0 in
    (All-append _ xs ys a b.1, IsRanked-drop h xs p ys r.1)

All-last {κ} :
    (P : ℕ → Type κ) (x : ℕ) (xs ys : List ℕ)
    → All P (x ∷ xs)
    → P (get_or ((x ∷ xs) ++ ys) (length xs) 0)
All-last P x [] ys a = a.0
All-last P x (y ∷ xs) ys a = All-last P y xs ys a.1

last_above :
    (h : Heap) (x : ℕ) (xs rest : List ℕ) (p : ℕ)
    → Under h x xs
    → greater h (get_or ((x ∷ xs) ++ rest) (length xs) 0) p ≡ true
    → greater h x p ≡ true
last_above h x [] rest p u e = e
last_above h x (y ∷ xs) rest p u e =
    is_greater_trans (h x) (h (get_or ((y ∷ xs) ++ rest) (length xs) 0)) (h p)
      (All-last (λ b. greater h x b ≡ true) y xs rest u) e

pub Under-head :
    (h : Heap) (p : ℕ) (ys : List ℕ)
    → IsRanked h ys
    → ((length ys ≡ 0) ⊎ (greater h p (get_or ys 0 0) ≡ true))
    → Under h p ys
Under-head h p [] r below = tt
Under-head h p (y ∷ ys) r (inl e) = absurd (omega arith)
Under-head h p (y ∷ ys) r (inr e) = (e, greater_trans h p y ys e r.0)

-- An entry above those that follow it and below its predecessor is in its place.
pub IsRanked-between :
    (h : Heap) (xs : List ℕ) (p : ℕ) (ys : List ℕ)
    → ((k : ℕ) → length xs ≡ suc k → greater h (get_or (xs ++ p ∷ ys) k 0) p ≡ true)
    → Under h p ys
    → IsRanked h (xs ++ ys)
    → IsRanked h (xs ++ p ∷ ys)
IsRanked-between h [] p ys above u r = (u, r)
IsRanked-between h (x ∷ xs) p ys above u r =
    let (a, b) = All-split _ xs ys r.0 in
    (
      All-append _ xs (p ∷ ys) a (last_above h x xs (p ∷ ys) p a (above (length xs) refl), b),
      IsRanked-between h xs p ys (λ k e. above (suc k) (ap suc e)) u r.1,
    )
