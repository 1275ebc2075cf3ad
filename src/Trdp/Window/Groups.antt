-- ===== src/Trdp/Window/Groups.antt =====
-- What the scan over the fragments of one message finds.
use sassrv.Base.{
  ℕ, ◌+◌, ◌%◌, ◌<◌, ◌≡◌, refl, ap, inl, inr, List, [], ◌∷◌, ◌++◌, All, arith, Bool-cases, u32_mod,
  add32, sub32, ◌==◌,
}
use sassrv.Trdp.Window.{Packet, Run, complete, broken, push_front, chain, group}
use sassrv.Trdp.Window.Sorted.{Fits, sizes}

-- Each packet is the next in sequence, the first after `s`.
abbrev pub Consec : ℕ → List Packet → Type 0
Consec s [] = Unit {0}
Consec s (p ∷ ps) = (p.seqno ≡ add32 s 1) × Consec p.seqno ps

-- A message in one piece: the fragments add up to the length that the first one states.
abbrev pub IsMessage : List Packet → Type 0
IsMessage [] = ⊥
IsMessage (x ∷ xs) = sizes (x ∷ xs) % u32_mod ≡ x.total_len

abbrev pub IsGood : ℕ → ℕ → Packet → List Packet → Run → Type 0
IsGood total s x xs (complete got rest) =
    (tail : List Packet) × (got ≡ x ∷ tail)
    × (tail ++ rest ≡ xs)
    × Consec s (x ∷ tail)
    × (sizes (x ∷ tail) % u32_mod ≡ (x.data_len + total) % u32_mod)
IsGood total s x xs (broken before rest) =
    (y : Packet) × (ys : List Packet) × (rest ≡ y ∷ ys) × (before ++ y ∷ ys ≡ x ∷ xs)

push_front-IsGood :
    (total s : ℕ) (x y : Packet) (ys : List Packet) (r : Run)
    → x.seqno ≡ add32 s 1
    → Fits x
    → Fits y
    → total < u32_mod
    → IsGood (sub32 total y.data_len) x.seqno y ys r
    → IsGood total s x (y ∷ ys) (push_front x r)
push_front-IsGood total s x y ys (complete got rest) e f g h (tail, a, b, c, d) =
    (y ∷ tail, ap (◌∷◌ x) a, ap (◌∷◌ y) b, (e, c), omega arith)
push_front-IsGood total s x y ys (broken before rest) e f g h (z, zs, a, b) =
    (z, zs, a, ap (◌∷◌ x) b)

chain-IsGood :
    (total s : ℕ) (x : Packet) (xs : List Packet)
    → x.seqno ≡ add32 s 1
    → All Fits (x ∷ xs)
    → total < u32_mod
    → IsGood total s x xs (chain total x xs)
unfolding chain
chain-IsGood total s x [] e f h = (x, [], refl, refl)
chain-IsGood total s x (y ∷ ys) e f h = elim (Bool-cases (y.seqno == add32 x.seqno 1)) [
  | inr gap ↦ rw gap (x, y ∷ ys, refl, refl)
  | inl next ↦ elim (Bool-cases (sub32 total y.data_len == 0)) [
    | inl last ↦ rw (next, last) (y ∷ [], refl, refl, (e, ((ground arith), tt)), (ground arith))
    | inr more ↦
        rw (next, more)
          (push_front-IsGood total s x y ys (chain (sub32 total y.data_len) y ys) e f.0 f.1.0 h
            (chain-IsGood (sub32 total y.data_len) x.seqno y ys (ground arith) f.1 (omega arith)))
  ]
]

-- The scan takes consecutive packets that make up one whole message, or stops at a packet `y`.
pub group-IsGood :
    (s : ℕ) (x : Packet) (xs : List Packet)
    → x.seqno ≡ add32 s 1
    → All Fits (x ∷ xs)
    → IsGood (sub32 x.total_len x.data_len) s x xs (group x xs)
unfolding group
group-IsGood s x xs e f = elim (Bool-cases (sub32 x.total_len x.data_len == 0)) [
  | inl one ↦ rw one ([], refl, refl, (e, tt), (ground arith))
  | inr more ↦ rw more (chain-IsGood (sub32 x.total_len x.data_len) s x xs e f (omega arith))
]
