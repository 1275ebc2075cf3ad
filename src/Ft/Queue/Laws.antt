-- ===== src/Ft/Queue/Laws.antt =====
-- The queue after `insert`, `remove` and `update`: ranked, with every member at its position.
use sassrv.Base.{
  ℕ, ◌+◌, ◌≡◌, ◌≢◌, refl, sym, ap, ◌∙◌, List, [], ◌∷◌, ◌++◌, length, All-split, All-append, arith,
}
use sassrv.Ft.Queue.{
  Heap, Queue, sift, rev_append, number, at_position, settle, reorder, insert, push,
}
use sassrv.Ft.Queue.Place.{
  Absent, IsRanked, IsNumbered, IsQueue, greater-number, number-Absent, number_only, renumber,
  IsRanked-SameRank,
}
use sassrv.Ft.Queue.Rank.{
  Apart, sift-IsRanked, sift_members, rev_append-append, rev_append_last, rev_append-rev_append,
  length-rev_append, All-rev_append,
}
use mathlib.Core.Path.{subst}

-- `q` is `p` put among `xs`.
abbrev pub IsAmong : Queue → ℕ → List ℕ → Type 0
IsAmong q p xs =
    (front : List ℕ) × (back : List ℕ) × (xs ≡ front ++ back) × (q.ptr ≡ front ++ p ∷ back)

-- The peers are as they were, but for their positions.
abbrev pub IsRenumbered : Heap → Heap → Type 0
IsRenumbered h k = (a : ℕ) → (n : ℕ) × (k a ≡ at_position n (h a))

-- Positions outside the list are 0, but perhaps that of `p`.
abbrev pub IsClear : Heap → ℕ → List ℕ → Type 0
IsClear h p xs = (a : ℕ) → p ≢ a → Absent a xs → (h a).position ≡ 0

settle_placed :
    (q : Queue) (front back : List ℕ) (p i : ℕ)
    → i ≡ length front + 0
    → IsNumbered q.heap (front ++ back) 0
    → IsClear q.heap p (front ++ back)
    → IsRanked q.heap (front ++ p ∷ back)
    → IsQueue (record q { ptr = front ++ p ∷ back; heap = number q.heap (p ∷ back) i })
settle_placed q front back p i e n c r = (
  IsRanked-SameRank _ _ (greater-number q.heap (p ∷ back) i) (front ++ p ∷ back) r,
  (
    renumber q.heap q.heap front back (p ∷ back) i 0 e n r,
    λ a k.
        let (k1, k2) = All-split _ front (p ∷ back) k in
        ap (λ x. x.position) (number-Absent q.heap a (p ∷ back) i k2)
        ∙ c a k2.0 (All-append _ front back k1 k2.1),
  ),
)

settle_lem :
    (q : Queue) (xs : List ℕ) (p : ℕ)
    → IsRanked q.heap xs
    → IsNumbered q.heap xs 0
    → IsClear q.heap p xs
    → Apart q.heap p xs
    → let q' = settle q (p ∷ rev_append xs []) in
      IsQueue q' × (IsAmong q' p xs × IsRenumbered q.heap q'.heap)
unfolding rev_append
settle_lem q xs p r n c d =
    let front = rev_append xs [] in
    let back = rev_append-rev_append xs [] in
    let (kept, moved) = sift q.heap p front [] in
    let (ms, e, f) = sift_members q.heap p front [] in
    let first = rev_append kept [] in
    let g : (zs : List ℕ) → rev_append kept zs ≡ first ++ zs =
      (λ zs. rev_append-append kept [] zs) in
    let all : first ++ ms ≡ xs = sym (g ms) ∙ f ∙ back in
    let ranked =
      sift-IsRanked q.heap p front [] (All-rev_append _ xs [] d tt) tt
        (subst (IsRanked q.heap) (sym back) r) in
    let shape : first ++ p ∷ ms ≡ rev_append kept moved =
      sym (g (p ∷ ms)) ∙ ap (rev_append kept) (sym e) in
    (
      subst (λ l. IsQueue (record q { ptr = l; heap = number q.heap moved (length kept) })) shape
          (subst
            (λ m.
              IsQueue (record q { ptr = first ++ p ∷ ms; heap = number q.heap m (length kept) }))
            (sym e)
            (settle_placed q first ms p (length kept) (omega (arith, length-rev_append kept []))
              (subst (λ l. IsNumbered q.heap l 0) (sym all) n)
              (subst (IsClear q.heap p) (sym all) c) (subst (IsRanked q.heap) (sym shape) ranked))),
      ((first, ms, sym all, sym shape), λ a. number_only q.heap moved (length kept) a),
    )

pub reorder_lem :
    (q : Queue) (xs : List ℕ) (p : ℕ)
    → q.ptr ≡ xs ++ p ∷ []
    → IsRanked q.heap xs
    → IsNumbered q.heap xs 0
    → IsClear q.heap p xs
    → Apart q.heap p xs
    → IsQueue (reorder q) × (IsAmong (reorder q) p xs × IsRenumbered q.heap (reorder q).heap)
unfolding reorder
reorder_lem q xs p e r n c d =
    subst (λ l. let q' = settle q l in IsQueue q' × (IsAmong q' p xs × IsRenumbered q.heap q'.heap))
      (sym (ap (λ l. rev_append l []) e ∙ rev_append_last xs [] p)) (settle_lem q xs p r n c d)

-- `insert` of a peer that is not in the queue, and that started at another time than the members,
-- puts it among them and leaves the queue ranked, with every member at its position.
pub insert-IsQueue :
    (q : Queue) (p : ℕ)
    → IsQueue q
    → Absent p q.ptr
    → Apart q.heap p q.ptr
    → IsQueue (insert p q) × (IsAmong (insert p q) p q.ptr × IsRenumbered q.heap (insert p q).heap)
unfolding insert
insert-IsQueue q p k new d = reorder_lem (push p q) q.ptr p refl k.0 k.1.0 (λ a ne. k.1.1 a) d
