-- ===== src/Ft/Queue/Removal.antt =====
-- The queue after `remove`: the others in their order, with their new positions.
use sassrv.Base.{
  ℕ, ◌≡◌, refl, sym, ap, ap₂, All-split, ◌∙◌, true, ◌⊎◌, inl, inr, List, ◌∷◌, ◌++◌, length, arith,
  Bool-cases, ==→eq, ==→ne, ◌==◌, if◌then◌else◌,
}
use sassrv.Ft.Queue.{
  Queue, number, at_position, write, remove, count_change, clear_position, close_gap, get_pos,
  is_missing,
}
use sassrv.Ft.Queue.Place.{
  Absent, IsRanked, IsNumbered, IsQueue, greater-number, greater-write, number-Absent, renumber,
  write_self, write_other, IsNumbered-write, IsRanked-SameRank, IsRanked-Absent, Absent-between,
}
use sassrv.Ft.Queue.Rank.{IsRanked-drop}
use sassrv.Ft.Queue.Find.{IsFound, locate, close_gap_found}
use sassrv.Ft.Queue.Laws.{IsAmong}
use mathlib.Core.Path.{subst}

cleared_zero :
    (q : Queue) (p : ℕ) (front back : List ℕ)
    → IsQueue q
    → q.ptr ≡ front ++ p ∷ back
    → (a : ℕ) → Absent a (front ++ back)
    → let h = number q.heap back (length front) in (write h p (at_position 0 (h p)) a).position ≡ 0
cleared_zero q p front back k e a gone =
    let h = number q.heap back (length front) in
    elim (Bool-cases (p == a)) [
      | inl same ↦
          let s = ==→eq p a same in
          subst (λ b. (write h p (at_position 0 (h p)) b).position ≡ 0) s
            (ap (λ x. x.position) (write_self h p _))
      | inr other ↦
          let ne = ==→ne p a other in
          ap (λ x. x.position)
            (write_other h p a _ ne
              ∙ number-Absent q.heap a back (length front) (All-split _ front back gone).1)
          ∙ k.1.1 a (subst (Absent a) (sym e) (Absent-between a front p back ne gone))
    ]

cleared :
    (q : Queue) (p : ℕ) (front back : List ℕ)
    → IsQueue q
    → q.ptr ≡ front ++ p ∷ back
    → IsQueue (
        clear_position p
          (record q { heap = number q.heap back (length front); ptr = front ++ back }))
cleared q p front back k e =
    let h = number q.heap back (length front) in
    let r = subst (IsRanked q.heap) e k.0 in
    let gone = IsRanked-Absent q.heap front p back r in
    let rest = IsRanked-drop q.heap front p back r in
    (
      IsRanked-SameRank _ _ (greater-write h p 0) _
          (IsRanked-SameRank _ _ (greater-number q.heap back (length front)) _ rest),
      (
        IsNumbered-write h p _ _ 0 gone (
            renumber q.heap q.heap front (p ∷ back) back (length front) 0 (omega arith)
              (subst (λ l. IsNumbered q.heap l 0) e k.1.0) rest),
        cleared_zero q p front back k e,
      ),
    )

remove-found :
    (q : Queue) (p : ℕ) (front back : List ℕ)
    → IsFound q p front back
    → remove p q
      ≡ count_change (
          clear_position p
            (record q { heap = number q.heap back (length front); ptr = front ++ back }))
unfolding remove
remove-found q p front back f =
    ap₂ (λ b x. if b then q else count_change (clear_position p x)) f.1.1.1
      (ap (λ j. close_gap j q) f.1.1.0 ∙ close_gap_found q p front back f.0)

remove-missing : (q : Queue) (p : ℕ) → is_missing p q ≡ true → remove p q ≡ q
unfolding remove
remove-missing q p m =
    ap (λ b. if b then q else count_change (clear_position p (close_gap (get_pos p q) q))) m

-- `remove` of any peer leaves the queue ranked and without it, and every other member at its
-- position; a peer that was not a member changes nothing, and a member is taken from among the
-- others, which keep their order.
pub remove-IsQueue :
    (q : Queue) (p : ℕ)
    → IsQueue q
    → IsQueue (remove p q)
      × (Absent p (remove p q).ptr × ((remove p q ≡ q) ⊎ IsAmong q p (remove p q).ptr))
remove-IsQueue q p k = elim (locate q p k.1) [
  | inl m ↦
      subst (λ r. IsQueue r × (Absent p r.ptr × ((r ≡ q) ⊎ IsAmong q p r.ptr)))
        (sym (remove-missing q p m.1)) (k, (m.0, inl refl))
  | inr f ↦
      let (front, back, e) = f in
      subst (λ r. IsQueue r × (Absent p r.ptr × ((r ≡ q) ⊎ IsAmong q p r.ptr)))
        (sym (remove-found q p front back e))
        (
          cleared q p front back k e.0,
          (
            IsRanked-Absent q.heap front p back (subst (IsRanked q.heap) e.0 k.0),
            inr (front, back, refl, e.0),
          ),
        )
]
