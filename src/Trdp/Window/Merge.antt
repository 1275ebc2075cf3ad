-- ===== src/Trdp/Window/Merge.antt =====
-- `TrdpWindow::merge` as a whole: what it delivers, when it returns, and when it cannot.
use sassrv.Base.{
  ℕ, ◌<◌, ◌≤◌, ◌≡◌, ◌≢◌, refl, sym, ◌⊎◌, inl, inr, true, false, some, none, List, [], ◌∷◌, arith,
  Bool-cases, add32, sub32, sub64, ◌==◌, ltb, length, Option-cases,
}
use mathlib.Core.Path.{subst}
use sassrv.Trdp.Header.{Hdr}
use sassrv.Trdp.Window.{
  Packet, Window, done, unfinished, next_is, insert, packet, enqueue, count_repeat, drain, give_up,
  merge_head, merge_packet, merge, overreads, is_empty, seqno_diff, reliability_ns,
}
use sassrv.Trdp.Window.Sorted.{Fits, IsQueue, IsValid, HasSeqno, insert-IsQueue, insert-HasSeqno}
use sassrv.Trdp.Window.Delivery.{IsDrained, none_yet, drain-IsDrained}
use sassrv.Trdp.Window.Stuck.{Flows, IsLone, drain_total, drain_lone}

-- Where the packets given out start: behind the last one, or, once the oldest queued packet has
-- waited for the missing ones long enough, right at that packet.
abbrev pub IsStart : ℕ → Window → ℕ → Type 0
IsStart now w start = (start ≡ w.last_seqno) ⊎ (reliability_ns ≤ sub64 now w.last_mono_time)

abbrev pub IsMerged : ℕ → Window → List Packet → Window × List Packet → Type 0
IsMerged now w queue r = (start : ℕ) × IsDrained start queue r × IsStart now w start

waiting-IsMerged :
    (now : ℕ) (w : Window) (queue : List Packet)
    → w.queue ≡ queue
    → IsQueue w.save_size queue
    → IsMerged now w queue (w, [])
waiting-IsMerged now w queue e v = (
  w.last_seqno,
  record {
    whole = e;
    consec = tt;
    last_lem = refl;
    messages = none_yet refl;
    valid = subst (IsQueue w.save_size) (sym e) v;
  },
  inl refl,
)

merge_head-IsMerged :
    (fuel now : ℕ) (w : Window) (queue : List Packet) (r : Window × List Packet)
    → w.queue ≡ queue
    → IsQueue w.save_size queue
    → merge_head fuel now w queue ≡ done r
    → IsMerged now w queue r
unfolding give_up seqno_diff
merge_head-IsMerged fuel now w [] r e v h =
    subst (IsMerged now w []) (ground arith) (waiting-IsMerged now w [] e v)
merge_head-IsMerged fuel now w (x ∷ xs) r e v h =
    elim (Bool-cases (seqno_diff x.seqno (add32 w.last_seqno 1) == 0)) [
      | inl next ↦
          let d : drain fuel w ≡ done r = ground arith in
          let n : next_is w.last_seqno (x ∷ xs) ≡ true = ground (arith, v.fits.0) in
          let v' = subst (IsQueue w.save_size) (sym e) v in
          (
            w.last_seqno,
            subst (λ q. IsDrained w.last_seqno q r) e
                (drain-IsDrained fuel w r v' (subst (λ q. next_is w.last_seqno q ≡ true) (sym e) n)
                  d),
            inl refl,
          )
      | inr gap ↦ elim (Bool-cases (ltb (sub64 now w.last_mono_time) reliability_ns)) [
        | inl recent ↦
            subst (IsMerged now w (x ∷ xs)) (ground arith) (waiting-IsMerged now w (x ∷ xs) e v)
        | inr late ↦
            let d : drain fuel (give_up w x) ≡ done r = ground arith in
            let n : next_is (sub32 x.seqno 1) (x ∷ xs) ≡ true = ground (arith, v.fits.0) in
            let v' = subst (IsQueue w.save_size) (sym e) v in
            (
              sub32 x.seqno 1,
              subst (λ q. IsDrained (sub32 x.seqno 1) q r) e
                  (drain-IsDrained fuel (give_up w x) r v'
                    (subst (λ q. next_is (sub32 x.seqno 1) q ≡ true) (sym e) n) d),
              inr (ground arith),
            )
      ]
    ]

merge_packet-IsMerged :
    (fuel now : ℕ) (w : Window) (x : Packet) (queue : List Packet) (r : Window × List Packet)
    → IsValid w
    → Fits x
    → insert x w.queue ≡ some queue
    → merge_packet fuel now w x ≡ done r
    → IsMerged now w queue r
unfolding merge_packet
merge_packet-IsMerged fuel now w x queue r v f i h =
    let v' = insert-IsQueue w.save_size x w.queue queue v f i in
    elim (Bool-cases (is_empty w.queue)) [
      | inl first ↦
          subst (IsMerged now w queue) (ground arith)
            (let (s, d, k) = waiting-IsMerged now (enqueue w x queue) queue refl v' in (s, d, k))
      | inr more ↦
          let (s, d, k) =
            merge_head-IsMerged fuel now (enqueue w x queue) queue r refl v' (ground arith) in
          (s, d, k)
    ]

merge_done :
    (fuel now : ℕ) (w : Window) (hdr : Hdr) (bytes : List ℕ) (r : Window × List Packet)
    → merge fuel now w hdr bytes ≡ done r
    → merge_packet fuel now w (packet hdr bytes now) ≡ done r
unfolding merge
merge_done fuel now w hdr bytes r h = elim (Bool-cases (overreads hdr bytes w.queue)) [
  | inl short ↦ absurd (ground arith)
  | inr full ↦ ground arith
]

-- A packet that is queued in the place `queue` shows: if the merge returns, then what it gives out
-- followed by what it keeps is that queue, with nothing lost or reordered; the packets given out are
-- consecutive from the packet behind `last_seqno` on, or, after `reliability_ns` without progress,
-- from the oldest one queued on; they make up whole messages; `last_seqno` is the last one given
-- out; and the window's queue stays sorted with `save_size` the sum of its lengths.
pub merge-IsMerged :
    (fuel now : ℕ) (w : Window) (hdr : Hdr) (bytes : List ℕ) (queue : List Packet)
    (r : Window × List Packet)
    → IsValid w
    → Fits (packet hdr bytes now)
    → insert (packet hdr bytes now) w.queue ≡ some queue
    → merge fuel now w hdr bytes ≡ done r
    → IsMerged now w queue r
merge-IsMerged fuel now w hdr bytes queue r v f i h =
    merge_packet-IsMerged fuel now w (packet hdr bytes now) queue r v f i
      (merge_done fuel now w hdr bytes r h)

not-overreads :
    (hdr : Hdr) (bytes : List ℕ) (queue : List Packet)
    → hdr.data_len ≤ length bytes
    → overreads hdr bytes queue ≡ false
not-overreads hdr bytes queue d = elim (Option-cases (insert (packet hdr bytes 0) queue)) [
  | inl n ↦ rw (n, overreads)
  | inr (q, n) ↦ rw (n, overreads) (ground arith)
]

not_empty : (queue : List Packet) → queue ≢ [] → is_empty queue ≡ false
not_empty [] ne = absurd (ne refl)
not_empty (x ∷ xs) ne = refl

overreads-none :
    (hdr : Hdr) (bytes : List ℕ) (queue : List Packet)
    → insert (packet hdr bytes 0) queue ≡ none
    → overreads hdr bytes queue ≡ false
overreads-none hdr bytes queue n = rw (n, overreads)

-- A packet whose sequence number is in the queue is counted as a repeat and changes nothing else,
-- however short the datagram.
pub merge_repeat :
    (fuel now : ℕ) (w : Window) (hdr : Hdr) (bytes : List ℕ)
    → IsValid w
    → HasSeqno hdr.seqno w.queue
    → merge fuel now w hdr bytes ≡ done (count_repeat w, [])
unfolding merge merge_packet
merge_repeat fuel now w hdr bytes v h =
    rw (overreads-none hdr bytes w.queue (insert-HasSeqno (packet hdr bytes 0) w.queue v.sorted h))
      (rw (insert-HasSeqno (packet hdr bytes now) w.queue v.sorted h, merge_packet))

merge_head_total :
    (fuel now : ℕ) (w : Window) (queue : List Packet)
    → w.queue ≡ queue
    → IsQueue w.save_size queue
    → Flows queue
    → length queue < fuel
    → (r : Window × List Packet) × (merge_head fuel now w queue ≡ done r)
unfolding give_up seqno_diff
merge_head_total fuel now w [] e v j f = ((w, []), refl)
merge_head_total fuel now w (x ∷ xs) e v j f =
    elim (Bool-cases (seqno_diff x.seqno (add32 w.last_seqno 1) == 0)) [
      | inl next ↦
          let n : next_is w.last_seqno (x ∷ xs) ≡ true = ground (arith, v.fits.0) in
          let (r, d) =
            drain_total fuel w (subst (IsQueue w.save_size) (sym e) v)
              (subst (λ q. next_is w.last_seqno q ≡ true) (sym e) n) (subst Flows (sym e) j)
              (subst (λ (q : List Packet). length q < fuel) (sym e) f) in
          (r, rw next d)
      | inr gap ↦ elim (Bool-cases (ltb (sub64 now w.last_mono_time) reliability_ns)) [
        | inl recent ↦ ((w, []), rw (gap, recent))
        | inr late ↦
            let n : next_is (sub32 x.seqno 1) (x ∷ xs) ≡ true = ground (arith, v.fits.0) in
            let (r, d) =
              drain_total fuel (give_up w x) (subst (IsQueue w.save_size) (sym e) v)
                (subst (λ q. next_is (sub32 x.seqno 1) q ≡ true) (sym e) n) (subst Flows (sym e) j)
                (subst (λ (q : List Packet). length q < fuel) (sym e) f) in
            (r, rw (gap, late) d)
      ]
    ]

-- A merge that queues its packet, with the payload there and no lone fragment in the way, returns on
-- every fuel above the number of packets that are then queued, the new one among them.
pub merge_total :
    (fuel now : ℕ) (w : Window) (hdr : Hdr) (bytes : List ℕ) (queue : List Packet)
    → IsValid w
    → Fits (packet hdr bytes now)
    → insert (packet hdr bytes now) w.queue ≡ some queue
    → hdr.data_len ≤ length bytes
    → Flows queue
    → length queue < fuel
    → (r : Window × List Packet) × (merge fuel now w hdr bytes ≡ done r)
unfolding merge merge_packet
merge_total fuel now w hdr bytes queue v f i d j l =
    let x = packet hdr bytes now in
    let v' = insert-IsQueue w.save_size x w.queue queue v f i in
    let enough = not-overreads hdr bytes w.queue d in
    elim (Bool-cases (is_empty w.queue)) [
      | inl first ↦ ((enqueue w x queue, []), rw enough (rw (i, merge_packet) (rw first)))
      | inr more ↦
          let (r, e) = merge_head_total fuel now (enqueue w x queue) queue refl v' j l in
          (r, rw enough (rw (i, merge_packet) (rw more e)))
    ]

-- The merge of a packet that is queued, with its payload there, into a queue that is not empty never
-- returns, on any fuel, when the queue then begins with the packet behind `last_seqno` and that one
-- begins a message that the packet behind it does not carry on.
pub merge_lone :
    (fuel now : ℕ) (w : Window) (hdr : Hdr) (bytes : List ℕ) (x : Packet) (xs : List Packet)
    → insert (packet hdr bytes now) w.queue ≡ some (x ∷ xs)
    → w.queue ≢ []
    → hdr.data_len ≤ length bytes
    → x.seqno ≡ add32 w.last_seqno 1
    → IsLone x xs
    → merge fuel now w hdr bytes ≡ unfinished
unfolding merge merge_packet seqno_diff
merge_lone fuel now w hdr bytes x xs i ne d e lone =
    let enough = not-overreads hdr bytes w.queue d in
    let p = packet hdr bytes now in
    let more : is_empty w.queue ≡ false = not_empty w.queue ne in
    let next : (seqno_diff x.seqno (add32 w.last_seqno 1) == 0) ≡ true = ground arith in
    rw enough (
      rw (i, merge_packet)
        (rw more (rw next (drain_lone fuel (enqueue w p (x ∷ xs)) x xs refl (ground arith) lone))))

drain-tsid :
    (fuel : ℕ) (w : Window) (r : Window × List Packet) → drain fuel w ≡ done r → r.0.tsid ≡ w.tsid
unfolding drain
drain-tsid fuel w r e = ground arith

merge_head-tsid :
    (fuel now : ℕ) (w : Window) (queue : List Packet) (r : Window × List Packet)
    → merge_head fuel now w queue ≡ done r
    → r.0.tsid ≡ w.tsid
unfolding give_up
merge_head-tsid fuel now w [] r e = ground arith
merge_head-tsid fuel now w (x ∷ xs) r e =
    ground (arith, drain-tsid fuel w r, drain-tsid fuel (give_up w x) r)

-- A merge leaves a window with its source.
pub merge-tsid :
    (fuel now : ℕ) (w : Window) (hdr : Hdr) (bytes : List ℕ) (r : Window × List Packet)
    → merge fuel now w hdr bytes ≡ done r
    → r.0.tsid ≡ w.tsid
unfolding merge_packet
merge-tsid fuel now w hdr bytes r e =
    let x = packet hdr bytes now in
    let h = merge_done fuel now w hdr bytes r e in
    elim (Option-cases (insert x w.queue)) [
      | inl n ↦ ground arith
      | inr (queue, n) ↦ ground (arith, merge_head-tsid fuel now (enqueue w x queue) queue r)
    ]

-- A merge that returns leaves a valid window.
pub merge-IsValid :
    (fuel now : ℕ) (w : Window) (hdr : Hdr) (bytes : List ℕ) (r : Window × List Packet)
    → IsValid w
    → Fits (packet hdr bytes now)
    → merge fuel now w hdr bytes ≡ done r
    → IsValid r.0
unfolding merge_packet
merge-IsValid fuel now w hdr bytes r v f e =
    let x = packet hdr bytes now in
    let h = merge_done fuel now w hdr bytes r e in
    elim (Option-cases (insert x w.queue)) [
      | inl n ↦
          let same : count_repeat w ≡ r.0 = ground arith in
          subst IsValid same (let k : IsValid (count_repeat w) = v in k)
      | inr (queue, n) ↦
          let (s, d, k) = merge-IsMerged fuel now w hdr bytes queue r v f n e in d.valid
    ]
