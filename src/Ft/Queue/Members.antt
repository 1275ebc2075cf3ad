-- ===== src/Ft/Queue/Members.antt =====
-- Who is in the queue, and what its peers are, whatever the order is.
use sassrv.Base.{
  ℕ, suc, ◌≡◌, refl, sym, ap, ◌∙◌, List, [], ◌∷◌, ◌++◌, length, drop, either, if_either,
}
use sassrv.Ft.Queue.{
  Queue, sift, rev_append, settle, reorder, insert, update, push, close_gap, get_pos, is_missing,
  in_order2,
}
use sassrv.Ft.Queue.Place.{number_only}
use sassrv.Ft.Queue.Rank.{sift_members, rev_append-append, rev_append_last}
use mathlib.Core.Path.{subst}

abbrev pub IsMember : ℕ → Queue → Type 0
IsMember p q = (front : List ℕ) × (back : List ℕ) × (q.ptr ≡ front ++ p ∷ back)

settle-IsMember : (q : Queue) (p : ℕ) (front : List ℕ) → IsMember p (settle q (p ∷ front))
settle-IsMember q p front =
    let (kept, moved) = sift q.heap p front [] in
    let (ms, e, f) = sift_members q.heap p front [] in
    (rev_append kept [], ms, ap (rev_append kept) e ∙ rev_append-append kept [] (p ∷ ms))

reorder-IsMember : (q : Queue) (p : ℕ) → IsMember p (reorder (push p q))
unfolding reorder
reorder-IsMember q p =
    subst (λ l. IsMember p (settle (push p q) l)) (sym (rev_append_last q.ptr [] p))
      (settle-IsMember (push p q) p (rev_append q.ptr []))

pub insert-IsMember : (q : Queue) (p : ℕ) → IsMember p (insert p q)
unfolding insert
insert-IsMember q p = reorder-IsMember q p

pub update-IsMember : (q : Queue) (p : ℕ) → IsMember p q → IsMember p (update p q)
unfolding update
update-IsMember q p k =
    either (IsMember p) (is_missing p q) _ _ (insert-IsMember q p)
      (either (IsMember p) (in_order2 p q) _ _ k (reorder-IsMember (close_gap (get_pos p q) q) p))

settle_state : (q : Queue) (l : List ℕ) (a : ℕ) → ((settle q l).heap a).state ≡ (q.heap a).state
settle_state q [] a = refl
settle_state q (p ∷ front) a =
    let (kept, moved) = sift q.heap p front [] in
    ap (λ x. x.state) (number_only q.heap moved (length kept) a).1

reorder_state : (q : Queue) (a : ℕ) → ((reorder q).heap a).state ≡ (q.heap a).state
unfolding reorder
reorder_state q a = settle_state q (rev_append q.ptr []) a

pub insert_state : (q : Queue) (p a : ℕ) → ((insert p q).heap a).state ≡ (q.heap a).state
unfolding insert
insert_state q p a = reorder_state (push p q) a

close_gap_state : (q : Queue) (j a : ℕ) → ((close_gap j q).heap a).state ≡ (q.heap a).state
unfolding close_gap
close_gap_state q j a = ap (λ x. x.state) (number_only q.heap (drop (suc j) q.ptr) j a).1

pub update_state_same : (q : Queue) (p a : ℕ) → ((update p q).heap a).state ≡ (q.heap a).state
unfolding update
update_state_same q p a =
    if_either {A = Queue} (λ r. (r.heap a).state) _ (is_missing p q) _ _ (insert_state q p a)
      (if_either {A = Queue} (λ r. (r.heap a).state) _ (in_order2 p q) _ _ refl
        (reorder_state (push p (close_gap (get_pos p q) q)) a ∙ close_gap_state q (get_pos p q) a))
