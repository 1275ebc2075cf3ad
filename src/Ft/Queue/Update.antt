-- ===== src/Ft/Queue/Update.antt =====
-- The queue after `update` of a member whose rank has changed.
use sassrv.Base.{
  ℕ, suc, ◌+◌, ◌-◌, ◌≡◌, refl, sym, ap, ap₂, ◌∙◌, Bool, ne→==, true, false, not, ◌&&◌, ◌||◌, inl,
  inr, List, [], ◌∷◌, ◌++◌, length, get_or, All-split, arith, Bool-cases, ◌==◌, ==→eq,
  if◌then◌else◌, length-append,
}
use sassrv.Ft.Queue.{
  Heap, Queue, greater, number, at_position, reorder, update, insert, push, count_change, close_gap,
  in_order2, holds,
}
use sassrv.Ft.Queue.Place.{
  Absent, IsRanked, IsNumbered, IsPlaced, IsQueue, greater-number, number-Absent, number_only,
  renumber, IsRanked-SameRank, Absent-between,
}
use sassrv.Ft.Queue.Rank.{Apart, IsRanked-between, Under-head}
use sassrv.Ft.Queue.Find.{IsFound, get_pos-IsFound, close_gap_found, get_or-next}
use sassrv.Ft.Queue.Laws.{IsAmong, IsRenumbered, reorder_lem}
use mathlib.Core.Path.{subst}

Apart-IsRenumbered :
    (h k : Heap) (p : ℕ) → IsRenumbered h k → (xs : List ℕ) → Apart h p xs → Apart k p xs
Apart-IsRenumbered h k p s [] d = tt
Apart-IsRenumbered h k p s (a ∷ xs) d = (
  λ e. d.0 (sym (ap (λ x. x.start_ns) (s a).1) ∙ e ∙ ap (λ x. x.start_ns) (s p).1),
  Apart-IsRenumbered h k p s xs d.1,
)

Apart-Absent : (h : Heap) (p : ℕ) (xs : List ℕ) → Apart h p xs → Absent p xs
Apart-Absent h p [] d = tt
Apart-Absent h p (a ∷ xs) d = ((λ e. d.0 (ap (λ b. (h b).start_ns) e)), Apart-Absent h p xs d.1)

IsRenumbered-trans : (h k l : Heap) → IsRenumbered h k → IsRenumbered k l → IsRenumbered h l
IsRenumbered-trans h k l s t a = ((t a).0, (t a).1 ∙ ap (at_position (t a).0) (s a).1)

-- What `update` guarantees of a member, whatever its rank was.
abbrev pub IsUpdated : Queue → ℕ → List ℕ → Queue → Type 0
IsUpdated q p xs q' = IsQueue q' × (IsAmong q' p xs × IsRenumbered q.heap q'.heap)

moved-IsUpdated :
    (q : Queue) (p : ℕ) (front back : List ℕ)
    → IsPlaced q
    → q.ptr ≡ front ++ p ∷ back
    → IsRanked q.heap (front ++ back)
    → Apart q.heap p (front ++ back)
    → let gap = record q { heap = number q.heap back (length front); ptr = front ++ back } in
      IsUpdated q p (front ++ back) (reorder (push p gap))
moved-IsUpdated q p front back k e r d =
    let gap = record q { heap = number q.heap back (length front); ptr = front ++ back } in
    let same : IsRenumbered q.heap gap.heap = number_only q.heap back (length front) in
    let done =
      reorder_lem (push p gap) (front ++ back) p refl
        (IsRanked-SameRank _ _ (greater-number q.heap back (length front)) _ r)
        (renumber q.heap q.heap front (p ∷ back) back (length front) 0 (omega arith)
          (subst (λ l. IsNumbered q.heap l 0) e k.0) r)
        (λ a ne gone.
          ap (λ x. x.position)
            (number-Absent q.heap a back (length front) (All-split _ front back gone).1)
          ∙ k.1 a (subst (Absent a) (sym e) (Absent-between a front p back ne gone)))
        (Apart-IsRenumbered q.heap gap.heap p same _ d) in
    (done.0, (done.1.0, IsRenumbered-trans q.heap gap.heap _ same done.1.1))

both : (c a b : Bool) → (if c then false else (a && b)) ≡ true → (a ≡ true) × (b ≡ true)
both true a b e = absurd (ground arith)
both false true true e = (refl, refl)
both false true false e = absurd (ground arith)
both false false b e = absurd (ground arith)

second : (a b : Bool) → (a || b) ≡ true → a ≡ false → b ≡ true
second true b e f = absurd (ground arith)
second false b e f = e

IsRanked-after : (h : Heap) (front back : List ℕ) → IsRanked h (front ++ back) → IsRanked h back
IsRanked-after h [] back r = r
IsRanked-after h (a ∷ front) back r = IsRanked-after h front back r.1

in_order2-IsRanked :
    (q : Queue) (p : ℕ) (front back : List ℕ)
    → IsFound q p front back
    → in_order2 p q ≡ true
    → IsRanked q.heap (front ++ back)
    → IsRanked q.heap (front ++ p ∷ back)
unfolding in_order2
in_order2-IsRanked q p front back f t r =
    let n = (q.heap p).position in
    let first = (n - 1 == 0) || greater q.heap (get_or q.ptr (n - 1 - 1) 0) p in
    let final = (suc (n - 1) == length q.ptr) || greater q.heap p (get_or q.ptr (suc (n - 1)) 0) in
    let pair : (first ≡ true) × (final ≡ true) =
      both ((n == 0) || not (holds q.ptr (n - 1) p)) first final t in
    let len : length q.ptr ≡ length front + suc (length back) =
      ap length f.0 ∙ length-append front (p ∷ back) in
    let j : (q.heap p).position - 1 ≡ length front = omega (arith, f.1.0) in
    IsRanked-between q.heap front p back
      (λ k e.
        let i : (q.heap p).position - 1 - 1 ≡ k = omega (arith, j, e) in
        subst (λ l. greater q.heap (get_or l k 0) p ≡ true) f.0
          (subst (λ n. greater q.heap (get_or q.ptr n 0) p ≡ true) i
            (second (n - 1 == 0) _ pair.0 (ne→== (n - 1) 0 (omega (arith, j, e))))))
      (Under-head q.heap p back (IsRanked-after q.heap front back r)
        (elim (Bool-cases (suc ((q.heap p).position - 1) == length q.ptr)) [
          | inl last ↦ inl (omega (arith, j, len, ==→eq (suc (n - 1)) (length q.ptr) last))
          | inr more ↦ inr (
              subst (λ n. greater q.heap p n ≡ true)
                (ap₂ (λ l n. get_or l (suc n) 0) f.0 j ∙ get_or-next front p back)
                (second (suc (n - 1) == length q.ptr) _ pair.1 more))
        ]))
      r

-- `p` taken out, put last, and moved up from there.
abbrev sent_back : Queue → ℕ → List ℕ → List ℕ → Queue
sent_back q p front back =
    count_change (
      reorder (push p (record q { heap = number q.heap back (length front); ptr = front ++ back })))

update-found :
    (q : Queue) (p : ℕ) (front back : List ℕ)
    → IsFound q p front back
    → update p q ≡ (if in_order2 p q then q else sent_back q p front back)
unfolding update
update-found q p front back f =
    ap₂
      (λ b x.
        if b then insert p q else (if in_order2 p q then q else count_change (reorder (push p x))))
      f.1.1.1 (ap (λ j. close_gap j q) f.1.1.0 ∙ close_gap_found q p front back f.0)

-- `update` of a member, when the others are ranked and started at other times, leaves the queue
-- ranked whatever the member's rank has become: the member stands among the others, which keep
-- their order, all are at their positions, and nothing else of any peer has changed.
pub update-IsUpdated :
    (q : Queue) (p : ℕ) (front back : List ℕ)
    → IsPlaced q
    → q.ptr ≡ front ++ p ∷ back
    → IsRanked q.heap (front ++ back)
    → Apart q.heap p (front ++ back)
    → IsUpdated q p (front ++ back) (update p q)
update-IsUpdated q p front back k e r d =
    let f = get_pos-IsFound q p front back k.0 e in
    elim (Bool-cases (in_order2 p q)) [
      | inl t ↦
          subst (IsUpdated q p (front ++ back))
            (sym (
              update-found q p front back f
              ∙ ap (λ b. if b then q else sent_back q p front back) t))
            (
              (subst (IsRanked q.heap) (sym e) (in_order2-IsRanked q p front back f t r), k),
              ((front, back, refl, e), λ a. ((q.heap a).position, refl)),
            )
      | inr t ↦
          subst (IsUpdated q p (front ++ back))
            (sym (
              update-found q p front back f
              ∙ ap (λ b. if b then q else sent_back q p front back) t))
            (moved-IsUpdated q p front back k e r d)
    ]
