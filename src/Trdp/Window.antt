-- ===== src/Trdp/Window.antt =====
-- src/mc.cpp: `TrdpWindow` and `TrdpWindow::merge`, which queues a packet that came out of order
-- and takes from the queue what is next in sequence.
pub mod Sorted
pub mod Groups
pub mod Delivery
pub mod Stuck
pub mod Merge
mod Tests
use sassrv.Base.{
  ℕ, zero, suc, ◌+◌, ◌-◌, ◌<◌, ◌≤◌, ◌≡◌, Bool, true, false, not, ◌&&◌, ◌||◌, Option, none, some,
  List, [], ◌∷◌, ◌++◌, ltb, leb, ◌==◌, if◌then◌else◌, length, take, add32, sub32, add64, sub64,
  u32_mod, u64_mod, do_while,
}
use sassrv.Trdp.Header.{Tsid, Hdr}
use mathlib.Core.Option

-- `TrdpWindowPkt`; its links are the list that it stands in.
pub record Packet : Type 0 where
  pub mono_time : ℕ
  pub seqno : ℕ
  pub total_len : ℕ
  pub data_len : ℕ
  pub frag_num : ℕ
  pub payload : List ℕ

-- `output_buf` is what has been written to the buffer, from its start.
pub record Window : Type 0 where
  pub tsid : Tsid
  pub last_seqno : ℕ
  pub last_recv_seqno : ℕ
  pub save_size : ℕ
  pub output_len : ℕ
  pub output_off : ℕ
  pub lost_seqno : ℕ
  pub repeat_seqno : ℕ
  pub reorder_seqno : ℕ
  pub nak_count : ℕ
  pub last_lost : ℕ
  pub last_repeat : ℕ
  pub last_reorder : ℕ
  pub last_nak : ℕ
  pub last_mono_time : ℕ
  pub output_buf : List ℕ
  pub queue : List Packet

-- What a call that reads the datagram and loops can come to: a result, a read behind the end of
-- the datagram, or (on the fuel given) no end.
pub data Outcome {ℓ} (A : Type ℓ) : Type ℓ where
  done : A → Outcome A
  overread : Outcome A
  unfinished : Outcome A

infixl 5 ◌>>=◌
abbrev pub ◌>>=◌ {ℓ κ} : {A : Type ℓ} {B : Type κ} → Outcome A → (A → Outcome B) → Outcome B
done a >>= f = f a
overread >>= f = overread
unfinished >>= f = unfinished

-- `memcpy` of `n` bytes from the datagram
abbrev pub read : ℕ → List ℕ → Outcome (List ℕ)
read n bytes = if ltb (length bytes) n then overread else done (take n bytes)

-- `seqno_diff`: the bit pattern of the `int32_t` difference.
unfoldable pub seqno_diff : ℕ → ℕ → ℕ
seqno_diff a b = sub32 a b

abbrev int32_min : ℕ
int32_min = 0x80000000

-- `d > 1` and `d <= 0` of an `int32_t` given by its pattern
abbrev pub above_one : ℕ → Bool
above_one d = ltb 1 d && ltb d int32_min

abbrev pub not_positive : ℕ → Bool
not_positive d = d == 0 || leb int32_min d

-- `d > 0 ? d : -d` as it is added to a `uint64_t`; -INT32_MIN is INT32_MIN, and sign extends.
abbrev pub distance : ℕ → ℕ
distance d =
    if ltb d int32_min then d else if d == int32_min then u64_mod - int32_min else u32_mod - d

-- The scan for the place of a new packet, and its insertion; `none` is a repeated sequence number.
pub insert : Packet → List Packet → Option (List Packet)
insert x [] = some (x ∷ [])
insert x (p ∷ ps) =
    if p.seqno == x.seqno
    then none
    else if ltb x.seqno p.seqno
    then some (x ∷ p ∷ ps)
    else Option.map (◌∷◌ p) (insert x ps)

-- How the scan over the fragments of a message ends: the packets up to `y`, and those behind it;
-- or, where a fragment is missing, those before the packet `x` that it stopped at, and the rest.
pub data Run : Type 0 where
  complete : List Packet → List Packet → Run
  broken : List Packet → List Packet → Run

abbrev pub push_front : Packet → Run → Run
push_front x (complete got rest) = complete (x ∷ got) rest
push_front x (broken before rest) = broken (x ∷ before) rest

pub chain : ℕ → Packet → List Packet → Run
chain total x [] = broken [] (x ∷ [])
chain total x (y ∷ ys) =
    if y.seqno == add32 x.seqno 1
    then if sub32 total y.data_len == 0
      then complete (x ∷ y ∷ []) ys
      else push_front x (chain (sub32 total y.data_len) y ys)
    else broken [] (x ∷ y ∷ ys)

pub group : Packet → List Packet → Run
unfolding chain
group x xs =
    if sub32 x.total_len x.data_len == 0
    then complete (x ∷ []) xs
    else chain (sub32 x.total_len x.data_len) x xs

-- `save_size -= x->data_len` for each packet taken
abbrev pub release_size : ℕ → List Packet → ℕ
release_size size [] = size
release_size size (p ∷ ps) = release_size (sub32 size p.data_len) ps

abbrev pub last_of : ℕ → List Packet → ℕ
last_of s [] = s
last_of s (p ∷ ps) = last_of p.seqno ps

abbrev pub last_time : ℕ → List Packet → ℕ
last_time t [] = t
last_time t (p ∷ ps) = last_time p.mono_time ps

-- The state of the loop over messages. The queue is `before ++ rest`, and `x` is the head of `rest`.
pub record Drain : Type 0 where
  pub save_size : ℕ
  pub last_seqno : ℕ
  pub before : List Packet
  pub rest : List Packet
  pub ready : List Packet

abbrev pub after_run : Drain → Run → Drain
after_run d (complete got rest) = record {
  save_size = release_size d.save_size (d.before ++ got);
  last_seqno = last_of d.last_seqno got;
  before = [];
  rest = rest;
  ready = d.ready ++ (d.before ++ got);
}
after_run d (broken walked rest) = record d { before = d.before ++ walked; rest = rest }

abbrev pub round_from : Drain → List Packet → Drain
round_from d [] = d
round_from d (x ∷ xs) = after_run d (group x xs)

-- The body of `do { … } while ( x->seqno == this->last_seqno + 1 )`, and its test, which the
-- `break` on an empty queue comes before.
pub drain_round : Drain → Drain
drain_round d = round_from d d.rest

abbrev pub next_is : ℕ → List Packet → Bool
next_is last [] = false
next_is last (x ∷ xs) = x.seqno == add32 last 1

pub drain_test : Drain → Bool
drain_test d = next_is d.last_seqno d.rest

abbrev pub drain_start : Window → Drain
drain_start w = record {
  save_size = w.save_size;
  last_seqno = w.last_seqno;
  before = [];
  rest = w.queue;
  ready = [];
}

abbrev pub drain_end : Window → Drain → Window × List Packet
drain_end w d = (
  record w {
    save_size = d.save_size;
    last_seqno = d.last_seqno;
    queue = d.before ++ d.rest;
    last_mono_time = last_time w.last_mono_time d.ready;
  },
  d.ready,
)

pub drain : ℕ → Window → Outcome (Window × List Packet)
unfolding drain_round drain_test do_while
drain fuel w = elim (do_while drain_test drain_round fuel (drain_start w)) [
  | none ↦ unfinished
  | some d ↦ done (drain_end w d)
]

abbrev pub reliability_ns : ℕ
reliability_ns = 1000000000

-- What is missing before the oldest packet is given up.
pub give_up : Window → Packet → Window
give_up w x = record w {
  lost_seqno = add64 w.lost_seqno (distance (seqno_diff x.seqno (add32 w.last_seqno 1)));
  last_seqno = sub32 x.seqno 1;
  output_len = 0;
}

abbrev pub merge_head : ℕ → ℕ → Window → List Packet → Outcome (Window × List Packet)
merge_head fuel now w [] = done (w, [])
merge_head fuel now w (x ∷ xs) =
    if seqno_diff x.seqno (add32 w.last_seqno 1) == 0
    then drain fuel w
    else if ltb (sub64 now w.last_mono_time) reliability_ns
    then done (w, [])
    else drain fuel (give_up w x)

abbrev pub is_empty : List Packet → Bool
is_empty [] = true
is_empty (_ ∷ _) = false

-- What the constructor copies; `bytes` is what its `memcpy` finds.
abbrev pub packet : Hdr → List ℕ → ℕ → Packet
packet hdr bytes now = record {
  mono_time = now;
  seqno = hdr.seqno;
  total_len = hdr.total_len;
  data_len = hdr.data_len;
  frag_num = hdr.frag_num;
  payload = take hdr.data_len bytes;
}

abbrev pub enqueue : Window → Packet → List Packet → Window
enqueue w x queue = record w { save_size = add32 w.save_size x.data_len; queue = queue }

abbrev pub count_repeat : Window → Window
count_repeat w = record w { repeat_seqno = add64 w.repeat_seqno 1 }

-- The first packet of an empty queue only waits.
pub merge_packet : ℕ → ℕ → Window → Packet → Outcome (Window × List Packet)
merge_packet fuel now w x = elim (insert x w.queue) [
  | none ↦ done (count_repeat w, [])
  | some queue ↦
      if is_empty w.queue
      then done (enqueue w x queue, [])
      else merge_head fuel now (enqueue w x queue) queue
]

abbrev pub overreads : Hdr → List ℕ → List Packet → Bool
overreads hdr bytes queue = elim (insert (packet hdr bytes 0) queue) [
  | none ↦ false
  | some _ ↦ ltb (length bytes) hdr.data_len
]

-- A packet that is not a repeat is copied, `data_len` bytes whether they are there or not.
unfoldable pub merge : ℕ → ℕ → Window → Hdr → List ℕ → Outcome (Window × List Packet)
unfolding merge_packet insert drain give_up seqno_diff group chain drain_round drain_test
merge fuel now w hdr bytes =
    if overreads hdr bytes w.queue then overread else merge_packet fuel now w (packet hdr bytes now)
