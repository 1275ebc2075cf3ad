-- ===== src/Trdp/Window/Sorted.antt =====
-- The queue of a window: strictly ascending sequence numbers, and what `insert` does to it.
use sassrv.Base.{
  ℕ, ◌+◌, ◌%◌, ◌<◌, ◌≤◌, ◌≡◌, refl, sym, ap, ◌⊎◌, inl, inr, none, some, List, [], ◌∷◌, ◌++◌, All,
  All-append, All-split, arith, u32_mod, add32, sub32, Option-cases, Bool-cases, ltb,
}
use sassrv.Trdp.Window.{Packet, Window, insert, release_size}
use mathlib.Core.Path.{subst}

-- Sequence numbers rise strictly along the list and stay above `s`.
abbrev pub Above : ℕ → List Packet → Type 0
Above s [] = Unit {0}
Above s (p ∷ ps) = (s < p.seqno) × Above p.seqno ps

abbrev pub Sorted : List Packet → Type 0
Sorted [] = Unit {0}
Sorted (p ∷ ps) = Above p.seqno ps

-- Fields that fit their words.
abbrev pub Fits : Packet → Type 0
Fits p = (p.seqno < u32_mod) × (p.data_len < 65536) × (p.total_len < u32_mod)

abbrev pub sizes : List Packet → ℕ
sizes [] = 0
sizes (p ∷ ps) = p.data_len + sizes ps

-- The queue of a window is sorted, and `save_size` is what it holds.
pub record IsQueue (size : ℕ) (queue : List Packet) : Type 0 where
  pub sorted : Sorted queue
  pub fits : All Fits queue
  pub size_lem : size ≡ sizes queue % u32_mod

abbrev pub IsValid : Window → Type 0
IsValid w = IsQueue w.save_size w.queue

insert-Above :
    (s : ℕ) (x : Packet) (xs ys : List Packet)
    → s < x.seqno
    → Above s xs
    → insert x xs ≡ some ys
    → Above s ys
unfolding insert
insert-Above s x [] ys h a e = ground arith
insert-Above s x (p ∷ ps) ys h a e = elim (Option-cases (insert x ps)) [
  | inl n ↦ ground arith
  | inr (zs, n) ↦ ground (arith, insert-Above p.seqno x ps zs)
]

pub insert-Sorted :
    (x : Packet) (xs ys : List Packet) → Sorted xs → insert x xs ≡ some ys → Sorted ys
unfolding insert
insert-Sorted x [] ys a e = ground arith
insert-Sorted x (p ∷ ps) ys a e = elim (Option-cases (insert x ps)) [
  | inl n ↦ ground arith
  | inr (zs, n) ↦ ground (arith, insert-Above p.seqno x ps zs)
]

-- The new packet stands somewhere in the old queue, which is otherwise as it was.
pub insert-split :
    (x : Packet) (xs ys : List Packet)
    → insert x xs ≡ some ys
    → (front : List Packet) × (back : List Packet) × (xs ≡ front ++ back) × (ys ≡ front ++ x ∷ back)
unfolding insert
insert-split x [] ys e = ([], [], refl, ground arith)
insert-split x (p ∷ ps) ys e = elim (Bool-cases (ltb x.seqno p.seqno)) [
  | inl lower ↦ ([], p ∷ ps, refl, ground arith)
  | inr higher ↦ elim (Option-cases (insert x ps)) [
    | inl n ↦ absurd (ground arith)
    | inr (zs, n) ↦
        let (front, back, f, b) = insert-split x ps zs n in
        (p ∷ front, back, ap (◌∷◌ p) f, ground arith)
  ]
]

pub sizes-append : (xs ys : List Packet) → sizes (xs ++ ys) ≡ sizes xs + sizes ys
sizes-append [] ys = omega arith
sizes-append (x ∷ xs) ys = omega (arith, sizes-append xs ys)

insert-All :
    (P : Packet → Type 0) (x : Packet) (xs ys : List Packet)
    → P x
    → All P xs
    → insert x xs ≡ some ys
    → All P ys
insert-All P x xs ys h a e =
    let (front, back, f, b) = insert-split x xs ys e in
    let (p, q) = All-split P front back (subst (All P) f a) in
    subst (All P) (sym b) (All-append P front (x ∷ back) p (h, q))

sizes-insert :
    (x : Packet) (xs ys : List Packet) → insert x xs ≡ some ys → sizes ys ≡ sizes xs + x.data_len
sizes-insert x xs ys e =
    let (front, back, f, b) = insert-split x xs ys e in
    omega (arith, ap sizes f, ap sizes b, sizes-append front back, sizes-append front (x ∷ back))

-- Queueing a packet keeps the queue sorted and `save_size` right.
pub insert-IsQueue :
    (size : ℕ) (x : Packet) (xs ys : List Packet)
    → IsQueue size xs
    → Fits x
    → insert x xs ≡ some ys
    → IsQueue (add32 size x.data_len) ys
insert-IsQueue size x xs ys v h e = record {
  sorted = insert-Sorted x xs ys v.sorted e;
  fits = insert-All Fits x xs ys h v.fits e;
  size_lem = omega (arith, v.size_lem, sizes-insert x xs ys e);
}

abbrev pub HasSeqno : ℕ → List Packet → Type 0
HasSeqno s [] = ⊥
HasSeqno s (p ∷ ps) = (p.seqno ≡ s) ⊎ HasSeqno s ps

-- In a sorted queue the scan that stops at the first larger number misses no repeat.
pub insert-none : (x : Packet) (xs : List Packet) → insert x xs ≡ none → HasSeqno x.seqno xs
unfolding insert
insert-none x [] e = cc
insert-none x (p ∷ ps) e = ground (arith, insert-none x ps)

Above-HasSeqno : (s t : ℕ) (xs : List Packet) → Above s xs → HasSeqno t xs → s < t
Above-HasSeqno s t [] a h = absurd h
Above-HasSeqno s t (p ∷ ps) a (inl e) = ground arith
Above-HasSeqno s t (p ∷ ps) a (inr h) = omega (arith, Above-HasSeqno p.seqno t ps a.1 h)

Sorted-tail : (p : Packet) (ps : List Packet) → Above p.seqno ps → Sorted ps
Sorted-tail p [] a = tt
Sorted-tail p (q ∷ ps) a = a.1

pub insert-HasSeqno :
    (x : Packet) (xs : List Packet) → Sorted xs → HasSeqno x.seqno xs → insert x xs ≡ none
unfolding insert
insert-HasSeqno x [] a h = absurd h
insert-HasSeqno x (p ∷ ps) a (inl e) = ground arith
insert-HasSeqno x (p ∷ ps) a (inr h) =
    ground
      (arith, Above-HasSeqno p.seqno x.seqno ps a h, insert-HasSeqno x ps (Sorted-tail p ps a) h)

Above-weaken : (s t : ℕ) (xs : List Packet) → s ≤ t → Above t xs → Above s xs
Above-weaken s t [] h a = tt
Above-weaken s t (p ∷ ps) h a = (omega arith, a.1)

-- What is left behind the packets taken is sorted.
pub Sorted-suffix : (xs ys : List Packet) → Sorted (xs ++ ys) → Sorted ys
Sorted-suffix [] ys a = a
Sorted-suffix (x ∷ xs) ys a = Sorted-suffix xs ys (Sorted-tail x (xs ++ ys) a)

pub Above-suffix : (s : ℕ) (xs ys : List Packet) → Above s (xs ++ ys) → Above s ys
Above-suffix s [] ys a = a
Above-suffix s (x ∷ xs) ys a =
    Above-suffix s xs ys (Above-weaken s x.seqno (xs ++ ys) (omega arith) a.1)

-- Subtracting the lengths of the packets taken leaves the length of the rest.
pub release_size-append :
    (size : ℕ) (xs ys : List Packet)
    → All Fits xs
    → size ≡ sizes (xs ++ ys) % u32_mod
    → release_size size xs ≡ sizes ys % u32_mod
release_size-append size [] ys f e = e
release_size-append size (x ∷ xs) ys f e =
    release_size-append (sub32 size x.data_len) xs ys f.1 (omega arith)
