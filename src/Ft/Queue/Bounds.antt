-- ===== src/Ft/Queue/Bounds.antt =====
-- `FtQueue::get_pos` and `in_order2` of src/ft.cpp read the entry at a peer's position, whatever the
-- position is: when that entry is one of the array.
use sassrv.Base.{ℕ, suc, ◌+◌, ◌≤◌, ◌≡◌, sym, ap, List, [], ◌∷◌, ◌==◌, length, arith, either}
use sassrv.Ft.Peer.{Peer}
use sassrv.Ft.Queue.{
  Heap, Queue, write, at_position, number, sift, rev_append, settle, reorder, insert, update, push,
  close_gap, get_pos, is_missing, in_order2,
}
use sassrv.Ft.Queue.Place.{write_self}
use sassrv.Ft.Queue.Rank.{sift_members, rev_append_last}
use mathlib.Core.Path.{subst}

abbrev pub InArray : ℕ → Queue → Type 0
InArray p q = (q.heap p).position ≤ length q.ptr

length-rev_append : (xs ys : List ℕ) → length (rev_append xs ys) ≡ length xs + length ys
unfolding rev_append
length-rev_append [] ys = omega arith
length-rev_append (x ∷ xs) ys = omega (arith, length-rev_append xs (x ∷ ys))

number-bound :
    (h : Heap) (xs : List ℕ) (j n p : ℕ)
    → j + length xs ≤ n
    → (h p).position ≤ n
    → (number h xs j p).position ≤ n
unfolding number
number-bound h [] j n p fits k = k
number-bound h (a ∷ xs) j n p fits k =
    number-bound (write h a (at_position (suc j) (h a))) xs (suc j) n p (omega (arith, fits)) (
      either {A = Peer} (λ x. x.position ≤ n) (a == p) (at_position (suc j) (h a)) (h p)
        (omega (arith, fits)) k)

number-first :
    (h : Heap) (p : ℕ) (ms : List ℕ) (j n : ℕ)
    → j + length (p ∷ ms) ≤ n
    → (number h (p ∷ ms) j p).position ≤ n
unfolding number
number-first h p ms j n fits =
    number-bound (write h p (at_position (suc j) (h p))) ms (suc j) n p (omega (arith, fits)) (
      omega
        (arith, fits, ap (λ (x : Peer). x.position) (write_self h p (at_position (suc j) (h p)))))

settle-InArray : (q : Queue) (p : ℕ) (front : List ℕ) → InArray p (settle q (p ∷ front))
settle-InArray q p front =
    let (kept, moved) = sift q.heap p front [] in
    let (ms, e, f) = sift_members q.heap p front [] in
    subst (λ l. (number q.heap l (length kept) p).position ≤ length (rev_append kept l)) (sym e)
      (number-first q.heap p ms (length kept) (length (rev_append kept (p ∷ ms)))
        (omega (arith, length-rev_append kept (p ∷ ms))))

reorder-InArray : (q : Queue) (p : ℕ) → InArray p (reorder (push p q))
unfolding reorder
reorder-InArray q p =
    subst (λ l. InArray p (settle (push p q) l)) (sym (rev_append_last q.ptr [] p))
      (settle-InArray (push p q) p (rev_append q.ptr []))

pub insert-InArray : (q : Queue) (p : ℕ) → InArray p (insert p q)
unfolding insert
insert-InArray q p = reorder-InArray q p

pub update-InArray : (q : Queue) (p : ℕ) → InArray p q → InArray p (update p q)
unfolding update
update-InArray q p k =
    either (InArray p) (is_missing p q) _ _ (insert-InArray q p)
      (either (InArray p) (in_order2 p q) _ _ k (reorder-InArray (close_gap (get_pos p q) q) p))
