-- ===== src/Ft/Queue/Tests.antt =====
-- A queue of three members, and a fourth peer that is not in it.
use sassrv.Base.{ℕ, ◌≡◌, refl, ◌⊎◌, [], ◌∷◌, arith, if◌then◌else◌, ◌==◌}
use sassrv.Base.Int.{pos}
use sassrv.Ft.Peer.{Peer, State, joining, primary, secondary, is_greater}
use sassrv.Ft.Queue.{
  Heap, Queue, number, insert, remove, update, reorder, in_order2, get_pos, is_missing, close_gap,
  sift, rev_append,
}
use sassrv.Ft.Queue.Place.{IsQueue, IsPlaced, IsRanked, Absent}
use sassrv.Ft.Queue.Laws.{IsAmong, IsRenumbered, insert-IsQueue}
use sassrv.Ft.Queue.Removal.{remove-IsQueue}
use sassrv.Ft.Queue.Update.{IsUpdated, update-IsUpdated}

abbrev peer : ℕ → ℕ → State → ℕ → Peer
peer start weight s n = record {
  start_ns = start;
  weight = weight;
  last_rcv_ns = 0;
  latency_accum = pos 0;
  position = n;
  latency_cnt = 0;
  state = s;
  old_state = s;
  user = [];
  sync_inbox = [];
}

abbrev heap : Heap
heap a =
    if a == 0
    then peer 10 5 primary 1
    else (if a == 1
        then peer 11 5 secondary 2
        else (if a == 2 then peer 12 3 joining 3 else peer 13 9 secondary 0))

abbrev three : Queue
three = record { heap = heap; ptr = 0 ∷ 1 ∷ 2 ∷ []; seqno = 3 }

-- The same, after peer 2 has become a member of full state and great weight.
abbrev raised : Queue
raised = record three { heap = λ a. if a == 2 then peer 12 8 secondary 3 else heap a }

insert_order : (insert 3 three).ptr ≡ 3 ∷ 0 ∷ 1 ∷ 2 ∷ []
unfolding insert reorder sift rev_append is_greater number
insert_order = refl

update_order : (update 2 raised).ptr ≡ 2 ∷ 0 ∷ 1 ∷ []
unfolding update insert reorder sift rev_append is_greater number is_missing get_pos in_order2
    close_gap
update_order = refl

remove_order : (remove 1 three).ptr ≡ 0 ∷ 2 ∷ []
unfolding remove number is_missing get_pos close_gap
remove_order = refl

clear_from : (a : ℕ) → Absent a (0 ∷ 1 ∷ 2 ∷ []) → (heap a).position ≡ 0
clear_from a k = ground (arith, k)

three-IsQueue : IsQueue three
unfolding is_greater
three-IsQueue =
    (((refl, (refl, tt)), ((refl, tt), (tt, tt))), ((refl, (refl, (refl, tt))), clear_from))

raised-IsPlaced : IsPlaced raised
raised-IsPlaced = ((refl, (refl, (refl, tt))), λ a k. ground (arith, k))

insert-IsQueue_example :
    IsQueue (insert 3 three)
    × (IsAmong (insert 3 three) 3 (0 ∷ 1 ∷ 2 ∷ []) × IsRenumbered heap (insert 3 three).heap)
insert-IsQueue_example =
    insert-IsQueue three 3 three-IsQueue
      ((λ e. omega (arith, e)), ((λ e. omega (arith, e)), ((λ e. omega (arith, e)), tt)))
      ((λ e. omega (arith, e)), ((λ e. omega (arith, e)), ((λ e. omega (arith, e)), tt)))

remove-IsQueue_example :
    IsQueue (remove 1 three)
    × (Absent 1 (remove 1 three).ptr
        × ((remove 1 three ≡ three) ⊎ IsAmong three 1 (remove 1 three).ptr))
remove-IsQueue_example = remove-IsQueue three 1 three-IsQueue

raised-IsRanked : IsRanked raised.heap (0 ∷ 1 ∷ [])
unfolding is_greater
raised-IsRanked = ((refl, tt), (tt, tt))

update-IsUpdated_example : IsUpdated raised 2 (0 ∷ 1 ∷ []) (update 2 raised)
update-IsUpdated_example =
    update-IsUpdated raised 2 (0 ∷ 1 ∷ []) [] raised-IsPlaced refl raised-IsRanked
      ((λ e. omega (arith, e)), ((λ e. omega (arith, e)), tt))
