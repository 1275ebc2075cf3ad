-- ===== src/Ft/Queue/Place.antt =====
-- Positions in the queue: every member's is one more than its index, and `number` restores that.
use sassrv.Base.{
  ℕ, suc, ◌+◌, ◌≡◌, ◌≢◌, refl, sym, ap, true, List, [], ◌∷◌, ◌++◌, length, All, All-split,
  All-append, ◌==◌, ==→eq, arith, Bool-cases, inl, inr, eq→==, ne→==, ◌∙◌, ap₂,
}
use sassrv.Ft.Peer.{Peer, is_greater}
use sassrv.Ft.Peer.Rank.{is_greater_irrefl}
use sassrv.Ft.Queue.{Heap, Queue, write, at_position, greater, number}
use mathlib.Core.Path.{subst}

abbrev pub Absent : ℕ → List ℕ → Type 0
Absent a xs = All (λ b. b ≢ a) xs

-- Each entry is of higher rank than all that follow.
abbrev pub IsRanked : Heap → List ℕ → Type 0
IsRanked h [] = Unit {0}
IsRanked h (a ∷ xs) = All (λ b. greater h a b ≡ true) xs × IsRanked h xs

-- The entries stand at the positions that follow `j`.
abbrev pub IsNumbered : Heap → List ℕ → ℕ → Type 0
IsNumbered h [] j = Unit {0}
IsNumbered h (a ∷ xs) j = ((h a).position ≡ suc j) × IsNumbered h xs (suc j)

-- A peer that is not in the queue has position 0.
abbrev pub IsPlaced : Queue → Type 0
IsPlaced q = IsNumbered q.heap q.ptr 0 × ((a : ℕ) → Absent a q.ptr → (q.heap a).position ≡ 0)

abbrev pub IsQueue : Queue → Type 0
IsQueue q = IsRanked q.heap q.ptr × IsPlaced q

pub greater-ne : (h : Heap) (a b : ℕ) → greater h a b ≡ true → a ≢ b
greater-ne h a b e s =
    absurd (ground (arith, is_greater_irrefl (h a), subst (λ c. greater h a c ≡ true) (sym s) e))

pub number-Absent : (h : Heap) (a : ℕ) (xs : List ℕ) (j : ℕ) → Absent a xs → number h xs j a ≡ h a
unfolding number
number-Absent h a [] j k = refl
number-Absent h a (b ∷ xs) j k =
    ground (arith, k.0, number-Absent (write h b (at_position (suc j) (h b))) a xs (suc j) k.1)

write_only :
    (h : Heap) (b m n a : ℕ)
    → at_position n (write h b (at_position m (h b)) a) ≡ at_position n (h a)
write_only h b m n a = elim (Bool-cases (b == a)) [
  | inl same ↦
      let e = ==→eq b a same in
      let w : write h b (at_position m (h b)) a ≡ at_position m (h b) = cc in
      ap (at_position n) w ∙ ap (λ c. at_position n (h c)) e
  | inr other ↦ let w : write h b (at_position m (h b)) a ≡ h a = cc in ap (at_position n) w
]

pub write_self : (h : Heap) (a : ℕ) (p : Peer) → write h a p a ≡ p
write_self h a p = ground (arith, eq→== a a refl)

-- Only positions change.
pub number_only :
    (h : Heap) (xs : List ℕ) (j a : ℕ) → (n : ℕ) × (number h xs j a ≡ at_position n (h a))
unfolding number
number_only h [] j a = ((h a).position, refl)
number_only h (b ∷ xs) j a =
    let (n, e) = number_only (write h b (at_position (suc j) (h b))) xs (suc j) a in
    (n, e ∙ write_only h b (suc j) n a)

pub greater-number :
    (h : Heap) (xs : List ℕ) (j a b : ℕ) → greater (number h xs j) a b ≡ greater h a b
unfolding is_greater
greater-number h xs j a b =
    let (n, e) = number_only h xs j a in let (m, k) = number_only h xs j b in ap₂ is_greater e k

pub greater-Absent :
    (h : Heap) (a : ℕ) (xs : List ℕ) → All (λ b. greater h a b ≡ true) xs → Absent a xs
greater-Absent h a [] k = tt
greater-Absent h a (b ∷ xs) k = ((λ e. greater-ne h a b k.0 (sym e)), greater-Absent h a xs k.1)

pub number-IsNumbered :
    (g h : Heap) (xs : List ℕ) (j : ℕ) → IsRanked g xs → IsNumbered (number h xs j) xs j
unfolding number
number-IsNumbered g h [] j r = tt
number-IsNumbered g h (a ∷ xs) j r =
    let h' = write h a (at_position (suc j) (h a)) in
    (
      ap (λ p. p.position)
          (number-Absent h' a xs (suc j) (greater-Absent g a xs r.0) ∙ write_self h a _),
      number-IsNumbered g h' xs (suc j) r.1,
    )

-- A run of entries that is numbered after another has taken its place.
pub renumber :
    (g h : Heap) (front old new : List ℕ) (i j : ℕ)
    → i ≡ length front + j
    → IsNumbered h (front ++ old) j
    → IsRanked g (front ++ new)
    → IsNumbered (number h new i) (front ++ new) j
renumber g h [] old new i j e n r =
    subst (λ k. IsNumbered (number h new k) new j) (omega arith) (number-IsNumbered g h new j r)
renumber g h (a ∷ front) old new i j e n r = (
  ap (λ p. p.position)
        (number-Absent h a new _ (All-split _ front new (greater-Absent g a _ r.0)).1)
      ∙ n.0,
  renumber g h front old new i (suc j) (omega arith) n.1 r.1,
)

pub write_other : (h : Heap) (a b : ℕ) (p : Peer) → a ≢ b → write h a p b ≡ h b
write_other h a b p ne = ground (arith, ne→== a b ne)

pub greater-write :
    (h : Heap) (p n a b : ℕ) → greater (write h p (at_position n (h p))) a b ≡ greater h a b
unfolding is_greater
greater-write h p n a b =
    let k = write h p (at_position n (h p)) in
    ap₂ is_greater (write_only h p n (k a).position a) (write_only h p n (k b).position b)

pub IsNumbered-write :
    (h : Heap) (p : ℕ) (v : Peer) (xs : List ℕ) (j : ℕ)
    → Absent p xs
    → IsNumbered h xs j
    → IsNumbered (write h p v) xs j
IsNumbered-write h p v [] j k n = tt
IsNumbered-write h p v (a ∷ xs) j k n = (
  ap (λ x. x.position) (write_other h p a v (λ e. k.0 (sym e))) ∙ n.0,
  IsNumbered-write h p v xs (suc j) k.1 n.1,
)

-- Heaps that rank any two peers alike.
abbrev pub SameRank : Heap → Heap → Type 0
SameRank h k = (a b : ℕ) → greater k a b ≡ greater h a b

All-SameRank :
    (h k : Heap)
    → SameRank h k
    → (a : ℕ) (xs : List ℕ) → All (λ b. greater h a b ≡ true) xs
    → All (λ b. greater k a b ≡ true) xs
All-SameRank h k s a [] u = tt
All-SameRank h k s a (b ∷ xs) u = (s a b ∙ u.0, All-SameRank h k s a xs u.1)

pub IsRanked-SameRank : (h k : Heap) → SameRank h k → (xs : List ℕ) → IsRanked h xs → IsRanked k xs
IsRanked-SameRank h k s [] r = tt
IsRanked-SameRank h k s (a ∷ xs) r = (All-SameRank h k s a xs r.0, IsRanked-SameRank h k s xs r.1)

-- The members of a ranked queue are different peers.
pub IsRanked-Absent :
    (h : Heap) (front : List ℕ) (p : ℕ) (back : List ℕ)
    → IsRanked h (front ++ p ∷ back)
    → Absent p (front ++ back)
IsRanked-Absent h [] p back r = greater-Absent h p back r.0
IsRanked-Absent h (a ∷ front) p back r =
    let (u, v) = All-split _ front (p ∷ back) r.0 in
    (greater-ne h a p v.0, IsRanked-Absent h front p back r.1)

pub Absent-between :
    (a : ℕ) (front : List ℕ) (p : ℕ) (back : List ℕ)
    → p ≢ a
    → Absent a (front ++ back)
    → Absent a (front ++ p ∷ back)
Absent-between a front p back ne k =
    let (u, v) = All-split _ front back k in All-append _ front (p ∷ back) u (ne, v)
