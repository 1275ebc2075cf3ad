-- ===== src/Ft/Queue/Find.antt =====
-- Finding a member: its position says where it stands, and a peer with none is not in the queue.
use sassrv.Base.{
  ℕ, suc, ◌+◌, ◌-◌, ◌≡◌, refl, sym, ap, ap₂, ◌∙◌, true, false, ◌⊎◌, inl, inr, List, [], ◌∷◌, ◌++◌,
  length, take, drop, get_or, arith, Bool-cases, take-append, length-append, ==→eq, ==→ne, ◌==◌,
  ne→==, lt→ltb, ltb, if◌then◌else◌, ◌&&◌, ◌||◌,
}
use sassrv.Ft.Queue.{Heap, Queue, number, close_gap, get_pos, is_missing, holds, index_of}
use sassrv.Ft.Queue.Place.{Absent, IsNumbered, IsPlaced}
use mathlib.Core.Path.{subst}

search_for :
    (p : ℕ) (xs : List ℕ)
    → Absent p xs ⊎ ((front : List ℕ) × (back : List ℕ) × (xs ≡ front ++ p ∷ back))
search_for p [] = inl tt
search_for p (x ∷ xs) = elim (Bool-cases (x == p)) [
  | inl e ↦ inr ([], xs, ap (λ y. y ∷ xs) (==→eq x p e))
  | inr e ↦ elim (search_for p xs) [
    | inl k ↦ inl (==→ne x p e, k)
    | inr f ↦ inr (x ∷ f.0, f.1, ap (◌∷◌ x) f.2)
  ]
]

IsNumbered-at :
    (h : Heap) (front : List ℕ) (p : ℕ) (back : List ℕ) (j : ℕ)
    → IsNumbered h (front ++ p ∷ back) j
    → (h p).position ≡ suc (length front + j)
IsNumbered-at h [] p back j n = omega (arith, n.0)
IsNumbered-at h (x ∷ front) p back j n = omega (arith, IsNumbered-at h front p back (suc j) n.1)

pub get_or-after :
    (front : List ℕ) (p : ℕ) (back : List ℕ) → get_or (front ++ p ∷ back) (length front) 0 ≡ p
get_or-after [] p back = refl
get_or-after (x ∷ front) p back = get_or-after front p back

pub get_or-next :
    (front : List ℕ) (p : ℕ) (back : List ℕ)
    → get_or (front ++ p ∷ back) (suc (length front)) 0 ≡ get_or back 0 0
get_or-next [] p back = refl
get_or-next (x ∷ front) p back = get_or-next front p back

pub drop-after :
    (front : List ℕ) (p : ℕ) (back : List ℕ) → drop (suc (length front)) (front ++ p ∷ back) ≡ back
drop-after [] p back = refl
drop-after (x ∷ front) p back = drop-after front p back

pub holds-here :
    (front : List ℕ) (p : ℕ) (back : List ℕ) → holds (front ++ p ∷ back) (length front) p ≡ true
holds-here front p back = ground (arith, length-append front (p ∷ back), get_or-after front p back)

-- `p` is a member, and the queue knows where.
abbrev pub IsFound : Queue → ℕ → List ℕ → List ℕ → Type 0
IsFound q p front back =
    (q.ptr ≡ front ++ p ∷ back)
    × (((q.heap p).position ≡ suc (length front))
        × ((get_pos p q ≡ length front) × (is_missing p q ≡ false)))

pub get_pos-IsFound :
    (q : Queue) (p : ℕ) (front back : List ℕ)
    → IsNumbered q.heap q.ptr 0
    → q.ptr ≡ front ++ p ∷ back
    → IsFound q p front back
unfolding get_pos is_missing
get_pos-IsFound q p front back n e =
    let at = IsNumbered-at q.heap front p back 0 (subst (λ l. IsNumbered q.heap l 0) e n) in
    let here : holds q.ptr (length front) p ≡ true =
      ap (λ l. holds l (length front) p) e ∙ holds-here front p back in
    let len : length q.ptr ≡ length front + suc (length back) =
      ap length e ∙ length-append front (p ∷ back) in
    let less : (q.heap p).position - 1 ≡ length front = omega (arith, at) in
    let there : holds q.ptr ((q.heap p).position - 1) p ≡ true =
      subst (λ j. holds q.ptr j p ≡ true) (sym less) here in
    let some_position : ltb 0 (q.heap p).position ≡ true = lt→ltb _ _ (omega (arith, at)) in
    let found : get_pos p q ≡ length front =
      ap₂ (λ a b. if a && b then (q.heap p).position - 1 else index_of p q.ptr) some_position there
      ∙ less in
    (
      e,
      (
        omega (arith, at),
        (
          found,
          ap₂ ◌||◌ (ne→== (q.heap p).position 0 (omega (arith, at)))
              (ne→== (get_pos p q) (length q.ptr) (omega (arith, found, len))),
        ),
      ),
    )

pub locate :
    (q : Queue) (p : ℕ)
    → IsPlaced q
    → (Absent p q.ptr × (is_missing p q ≡ true))
      ⊎ ((front : List ℕ) × (back : List ℕ) × IsFound q p front back)
unfolding is_missing
locate q p k = elim (search_for p q.ptr) [
  | inl a ↦ inl (a, ap (λ n. (n == 0) || (get_pos p q == length q.ptr)) (k.1 p a))
  | inr f ↦ inr (f.0, f.1, get_pos-IsFound q p f.0 f.1 k.0 f.2)
]

pub close_gap_found :
    (q : Queue) (p : ℕ) (front back : List ℕ)
    → q.ptr ≡ front ++ p ∷ back
    → close_gap (length front) q
      ≡ record q { heap = number q.heap back (length front); ptr = front ++ back }
unfolding close_gap
close_gap_found q p front back e =
    ap₂ (λ f b. record q { heap = number q.heap b (length front); ptr = f ++ b })
      (ap (take (length front)) e ∙ take-append front (p ∷ back))
      (ap (drop (suc (length front))) e ∙ drop-after front p back)
