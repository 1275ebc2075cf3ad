-- ===== src/Trdp/Window/Stuck.antt =====
-- When the loop of `merge` ends, and when it does not.
use sassrv.Base.{
  ℕ, ◌<◌, ◌≡◌, ◌≢◌, refl, sym, ap, ◌∙◌, true, false, none, List, [], ◌∷◌, ◌++◌, All, All-split,
  arith, sub32, length, length-append, do_while, do_while_total, do_while-stuck, ne→==,
}
use mathlib.Core.Path.{subst}
use sassrv.Trdp.Window.{
  Packet, Window, Drain, done, unfinished, complete, broken, chain, group, after_run, round_from,
  next_is, last_of, drain_start, drain_end, drain_round, drain_test, drain,
}
use sassrv.Trdp.Window.Sorted.{Fits, IsQueue}
use sassrv.Trdp.Window.Groups.{IsGood, group-IsGood}
use sassrv.Trdp.Window.Delivery.{IsHead, start-IsHead, round-IsFoot, test-IsHead}

-- The first packet begins a message that the packet behind it does not carry on.
abbrev pub IsLone : Packet → List Packet → Type 0
IsLone x xs = (sub32 x.total_len x.data_len ≢ 0) × (next_is x.seqno xs ≡ false)

-- The head of the queue is next in sequence, and no message that the loop comes to from there is
-- a lone fragment: it takes whole messages, until what follows is not next in sequence, or is a
-- message of which two fragments or more are there, and not all.
pub data Flows : List Packet → Type 0 where
  partial :
      {queue : List Packet} (x : Packet) (xs before rest : List Packet)
      → queue ≡ x ∷ xs
      → before ≢ []
      → group x xs ≡ broken before rest
      → Flows queue
  ends :
      {queue : List Packet} (x : Packet) (xs got rest : List Packet)
      → queue ≡ x ∷ xs
      → group x xs ≡ complete got rest
      → next_is (last_of 0 got) rest ≡ false
      → Flows queue
  goes_on :
      {queue : List Packet} (x : Packet) (xs got rest : List Packet)
      → queue ≡ x ∷ xs
      → group x xs ≡ complete got rest
      → Flows rest
      → Flows queue

chain_lone :
    (total : ℕ) (x : Packet) (xs : List Packet)
    → next_is x.seqno xs ≡ false
    → chain total x xs ≡ broken [] (x ∷ xs)
unfolding chain
chain_lone total x [] n = refl
chain_lone total x (y ∷ ys) n = rw n

group_lone : (x : Packet) (xs : List Packet) → IsLone x xs → group x xs ≡ broken [] (x ∷ xs)
unfolding group
group_lone x xs (part, gap) =
    rw (ne→== (sub32 x.total_len x.data_len) 0 part)
      (chain_lone (sub32 x.total_len x.data_len) x xs gap)

abbrev at_queue : ℕ → ℕ → List Packet → Drain
at_queue size last queue = record {
  save_size = size;
  last_seqno = last;
  before = [];
  rest = queue;
  ready = [];
}

loop_lone :
    (fuel size last : ℕ) (x : Packet) (xs : List Packet)
    → next_is last (x ∷ xs) ≡ true
    → IsLone x xs
    → do_while drain_test drain_round fuel (at_queue size last (x ∷ xs)) ≡ none
unfolding drain_round drain_test
loop_lone fuel size last x xs n lone =
    do_while-stuck drain_test drain_round fuel (at_queue size last (x ∷ xs))
      (ap (after_run (at_queue size last (x ∷ xs))) (group_lone x xs lone)) n

-- At a lone fragment that is next in sequence the loop turns for ever.
pub drain_lone :
    (fuel : ℕ) (w : Window) (x : Packet) (xs : List Packet)
    → w.queue ≡ x ∷ xs
    → next_is w.last_seqno (x ∷ xs) ≡ true
    → IsLone x xs
    → drain fuel w ≡ unfinished
unfolding drain
drain_lone fuel w x xs e n lone =
    let stuck = loop_lone fuel w.save_size w.last_seqno x xs n lone in
    let here : do_while drain_test drain_round fuel (drain_start w) ≡ none =
      subst (λ q. do_while drain_test drain_round fuel (at_queue w.save_size w.last_seqno q) ≡ none)
        (sym e) stuck in
    rw (here, drain)

IsGood-at :
    (start : ℕ) (queue : List Packet) (d : Drain) (x : Packet) (xs : List Packet)
    → IsHead start queue d
    → d.rest ≡ x ∷ xs
    → IsGood (sub32 x.total_len x.data_len) d.last_seqno x xs (group x xs)
IsGood-at start queue d x xs (k, b, n) e =
    let fits = All-split Fits d.before d.rest k.valid.fits in
    let next : next_is d.last_seqno (x ∷ xs) ≡ true =
      subst (λ q. next_is d.last_seqno q ≡ true) e n in
    group-IsGood d.last_seqno x xs (ground arith) (subst (All Fits) e fits.1)

round_eq :
    (d : Drain) (x : Packet) (xs : List Packet)
    → d.rest ≡ x ∷ xs
    → drain_round d ≡ after_run d (group x xs)
unfolding drain_round
round_eq d x xs e = ap (round_from d) e

-- A round that comes back to the head of the queue has taken something from it.
round_falls :
    (start : ℕ) (queue : List Packet) (d : Drain)
    → IsHead start queue d
    → Flows d.rest
    → IsHead start queue (drain_round d)
    → Flows (drain_round d).rest × (length (drain_round d).rest < length d.rest)
round_falls start queue d h (partial x xs before rest e some_before run) foot =
    let same = round_eq d x xs e ∙ ap (after_run d) run in
    let none_before : before ≡ [] =
      subst (λ b. b ++ before ≡ []) h.1 (subst (λ (s : Drain). s.before ≡ []) same foot.1) in
    absurd (some_before none_before)
round_falls start queue d h (ends x xs got rest e run stop) foot =
    let same = round_eq d x xs e ∙ ap (after_run d) run in
    let (tail, g, a, c, m) =
      subst (IsGood (sub32 x.total_len x.data_len) d.last_seqno x xs) run
        (IsGood-at start queue d x xs h e) in
    let n : next_is (last_of d.last_seqno got) rest ≡ true =
      subst (λ (s : Drain). next_is s.last_seqno s.rest ≡ true) same foot.2 in
    let n' = subst (λ l. next_is (last_of d.last_seqno l) rest ≡ true) g n in
    let stop' = subst (λ l. next_is (last_of 0 l) rest ≡ false) g stop in absurd (ground arith)
round_falls start queue d h (goes_on x xs got rest e run flows) foot =
    let same = round_eq d x xs e ∙ ap (after_run d) run in
    let (tail, g, a, c, m) =
      subst (IsGood (sub32 x.total_len x.data_len) d.last_seqno x xs) run
        (IsGood-at start queue d x xs h e) in
    let shorter : length rest < length d.rest =
      omega
        (arith, ap (length {A = Packet}) e, ap (length {A = Packet}) a, length-append tail rest) in
    subst (λ (s : Drain). Flows s.rest × (length s.rest < length d.rest)) (sym same)
      (flows, shorter)

-- The loop ends within as many rounds as there are packets in the queue.
pub drain_total :
    (fuel : ℕ) (w : Window)
    → IsQueue w.save_size w.queue
    → next_is w.last_seqno w.queue ≡ true
    → Flows w.queue
    → length w.queue < fuel
    → (r : Window × List Packet) × (drain fuel w ≡ done r)
unfolding drain
drain_total fuel w v n f l =
    let (r, e) =
      do_while_total drain_test drain_round (λ s. IsHead w.last_seqno w.queue s × Flows s.rest)
        (λ s. length s.rest)
        (λ s p t.
          let head =
            test-IsHead w.last_seqno w.queue (drain_round s)
              (round-IsFoot w.last_seqno w.queue s p.0) t in
          let falls = round_falls w.last_seqno w.queue s p.0 p.1 head in ((head, falls.0), falls.1))
        fuel (drain_start w) (start-IsHead w v n, f) l in
    (drain_end w r, rw (e, drain))
