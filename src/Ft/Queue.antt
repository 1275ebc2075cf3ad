-- ===== src/Ft/Queue.antt =====
-- `FtQueue` of src/ft.cpp and include/sassrv/ft.h: the members in the order of their rank. A pointer
-- to a peer is its address in the heap, and `ptr` holds the `count` entries of the array.
pub mod Place
pub mod Rank
pub mod Find
pub mod Laws
pub mod Members
pub mod Bounds
pub mod Removal
pub mod Update
mod Tests
use sassrv.Base.{
  ℕ, zero, suc, ◌+◌, ◌-◌, Bool, true, false, not, ◌&&◌, ◌||◌, List, [], ◌∷◌, ◌++◌, length, take,
  drop, get_or, ltb, leb, ◌==◌, if◌then◌else◌, add64,
}
use sassrv.Ft.Peer.{Peer, is_greater}

abbrev pub Heap : Type 0
Heap = ℕ → Peer

pub record Queue : Type 0 where
  pub heap : Heap
  pub ptr : List ℕ
  pub seqno : ℕ

abbrev pub write : Heap → ℕ → Peer → Heap
write h a p b = if a == b then p else h b

abbrev pub at_position : ℕ → Peer → Peer
at_position n p = record p { position = n }

abbrev pub greater : Heap → ℕ → ℕ → Bool
greater h a b = is_greater (h a) (h b)

-- `ptr[ j ]->pos = j + 1` for the entries from `j` on.
unfoldable pub number : Heap → List ℕ → ℕ → Heap
number h [] j = h
number h (a ∷ xs) j = number (write h a (at_position (suc j) (h a))) xs (suc j)

-- The entries before `j`, nearest first, and those after it: `p` goes ahead of each entry that it
-- is not below.
unfoldable pub sift : Heap → ℕ → List ℕ → List ℕ → List ℕ × List ℕ
sift h p [] after = ([], p ∷ after)
sift h p (q ∷ qs) after =
    let rest = sift h p qs (q ∷ after) in if greater h q p then (q ∷ qs, p ∷ after) else rest

unfoldable pub rev_append : List ℕ → List ℕ → List ℕ
rev_append [] ys = ys
rev_append (x ∷ xs) ys = rev_append xs (x ∷ ys)

abbrev pub settle : Queue → List ℕ → Queue
settle q [] = q
settle q (p ∷ front) =
    let (kept, moved) = sift q.heap p front [] in
    record q { ptr = rev_append kept moved; heap = number q.heap moved (length kept) }

unfoldable pub reorder : Queue → Queue
reorder q = settle q (rev_append q.ptr [])

abbrev pub push : ℕ → Queue → Queue
push p q = record q { ptr = q.ptr ++ p ∷ [] }

abbrev pub count_change : Queue → Queue
count_change q = record q { seqno = add64 q.seqno 1 }

unfoldable pub insert : ℕ → Queue → Queue
insert p q = count_change (reorder (push p q))

-- The position of `p`, and `count` when it is not there.
abbrev pub index_of : ℕ → List ℕ → ℕ
index_of p [] = 0
index_of p (a ∷ xs) = if a == p then 0 else suc (index_of p xs)

abbrev pub holds : List ℕ → ℕ → ℕ → Bool
holds xs j p = ltb j (length xs) && (get_or xs j 0 == p)

-- Whether the entry that `get_pos` and `in_order2` read at the position of `p` is one of the array;
-- where it is not, `holds` takes it to be another peer, and what they give is of no meaning.
abbrev pub in_array : ℕ → Queue → Bool
in_array p q = leb (q.heap p).position (length q.ptr)

unfoldable pub get_pos : ℕ → Queue → ℕ
get_pos p q =
    let n = (q.heap p).position in
    if ltb 0 n && holds q.ptr (n - 1) p then n - 1 else index_of p q.ptr

unfoldable pub is_missing : ℕ → Queue → Bool
is_missing p q = ((q.heap p).position == 0) || (get_pos p q == length q.ptr)

-- The entries after `j` move down by one.
unfoldable pub close_gap : ℕ → Queue → Queue
close_gap j q = record q {
  heap = number q.heap (drop (suc j) q.ptr) j;
  ptr = take j q.ptr ++ drop (suc j) q.ptr;
}

abbrev pub clear_position : ℕ → Queue → Queue
clear_position p q = record q { heap = write q.heap p (at_position 0 (q.heap p)) }

unfoldable pub remove : ℕ → Queue → Queue
remove p q =
    if is_missing p q then q else count_change (clear_position p (close_gap (get_pos p q) q))

unfoldable pub in_order2 : ℕ → Queue → Bool
in_order2 p q =
    let n = (q.heap p).position in
    let j = n - 1 in
    if (n == 0) || not (holds q.ptr j p)
    then false
    else (((j == 0) || greater q.heap (get_or q.ptr (j - 1) 0) p)
        && ((suc j == length q.ptr) || greater q.heap p (get_or q.ptr (suc j) 0)))

unfoldable pub update : ℕ → Queue → Queue
update p q =
    if is_missing p q
    then insert p q
    else (if in_order2 p q then q else count_change (reorder (push p (close_gap (get_pos p q) q))))
