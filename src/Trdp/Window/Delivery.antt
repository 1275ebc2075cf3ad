-- ===== src/Trdp/Window/Delivery.antt =====
-- The loop of `merge` delivers whole messages in sequence, and leaves the rest queued.
use sassrv.Base.{
  ℕ, ◌≡◌, refl, sym, ap, ◌∙◌, ◌⊎◌, inl, inr, true, false, List, [], ◌∷◌, ◌++◌, All-split, arith,
  sub32, append_assoc, do_while, do_while_inv, some, Option-cases,
}
use mathlib.Core.Path.{subst}
use sassrv.Trdp.Window.{
  Packet, Window, Drain, Run, complete, broken, group, after_run, next_is, drain, drain_start,
  drain_end, done, last_of, release_size, drain_round, drain_test,
}
use sassrv.Trdp.Window.Sorted.{
  Fits, IsQueue, Sorted, Sorted-suffix, Above-suffix, release_size-append,
}
use sassrv.Trdp.Window.Groups.{Consec, IsMessage, IsGood, group-IsGood}

-- A list of packets that is messages, one behind another.
pub data Messages : List Packet → Type 0 where
  none_yet : {all : List Packet} → all ≡ [] → Messages all
  message :
      {all : List Packet} (before got : List Packet)
      → Messages before
      → IsMessage got
      → all ≡ before ++ got
      → Messages all

-- What every round keeps, from the sequence number and the queue that the loop starts with.
pub record IsKept (start : ℕ) (queue : List Packet) (d : Drain) : Type 0 where
  pub whole : d.ready ++ (d.before ++ d.rest) ≡ queue
  pub consec : Consec start d.ready
  pub last_lem : d.last_seqno ≡ last_of start d.ready
  pub messages : Messages d.ready
  pub valid : IsQueue d.save_size (d.before ++ d.rest)

abbrev pub IsHead : ℕ → List Packet → Drain → Type 0
IsHead start queue d = IsKept start queue d × (d.before ≡ []) × (next_is d.last_seqno d.rest ≡ true)

abbrev pub IsFoot : ℕ → List Packet → Drain → Type 0
IsFoot start queue d =
    IsKept start queue d × ((d.before ≡ []) ⊎ (next_is d.last_seqno d.rest ≡ false))

pub Consec-append :
    (s : ℕ) (xs ys : List Packet) → Consec s xs → Consec (last_of s xs) ys → Consec s (xs ++ ys)
Consec-append s [] ys a b = b
Consec-append s (x ∷ xs) ys a b = (a.0, Consec-append x.seqno xs ys a.1 b)

pub last_of-append :
    (s : ℕ) (xs ys : List Packet) → last_of (last_of s xs) ys ≡ last_of s (xs ++ ys)
last_of-append s [] ys = refl
last_of-append s (x ∷ xs) ys = last_of-append x.seqno xs ys

abbrev at_head : ℕ → ℕ → List Packet → List Packet → Drain
at_head size last rest ready = record {
  save_size = size;
  last_seqno = last;
  before = [];
  rest = rest;
  ready = ready;
}

suffix-IsQueue :
    (size : ℕ) (xs ys : List Packet) → IsQueue size (xs ++ ys) → IsQueue (release_size size xs) ys
suffix-IsQueue size xs ys v =
    let fits = All-split Fits xs ys v.fits in
    record {
      sorted = Sorted-suffix xs ys v.sorted;
      fits = fits.1;
      size_lem = release_size-append size xs ys fits.0 v.size_lem;
    }

module _ (start : ℕ) (queue : List Packet) where
  complete-IsFoot :
      (size last : ℕ) (x : Packet) (xs ready got rest tail : List Packet)
      → IsKept start queue (at_head size last (x ∷ xs) ready)
      → got ≡ x ∷ tail
      → tail ++ rest ≡ xs
      → Consec last (x ∷ tail)
      → IsMessage (x ∷ tail)
      → IsFoot start queue (after_run (at_head size last (x ∷ xs) ready) (complete got rest))
  complete-IsFoot size last x xs ready got rest tail k a b c m = rw a (
    record {
      whole = append_assoc ready (x ∷ tail) rest ∙ (ap (λ l. ready ++ x ∷ l) b ∙ k.whole);
      consec =
          Consec-append start ready (x ∷ tail) k.consec
            (subst (λ s. Consec s (x ∷ tail)) k.last_lem c);
      last_lem = ap (λ s. last_of s (x ∷ tail)) k.last_lem ∙ last_of-append start ready (x ∷ tail);
      messages = message ready (x ∷ tail) k.messages m refl;
      valid =
          suffix-IsQueue size (x ∷ tail) rest (subst (λ l. IsQueue size (x ∷ l)) (sym b) k.valid);
    },
    inl refl,
  )

  not-next_is :
      (last : ℕ) (x y : Packet) (xs ys before : List Packet)
      → next_is last (x ∷ xs) ≡ true
      → Sorted (x ∷ xs)
      → before ++ y ∷ ys ≡ x ∷ xs
      → (before ≡ []) ⊎ (next_is last (y ∷ ys) ≡ false)
  not-next_is last x y xs ys [] n v b = inl refl
  not-next_is last x y xs ys (z ∷ zs) n v b =
      let above = Above-suffix z.seqno zs (y ∷ ys) (subst Sorted (sym b) v) in
      let same : z ≡ x = cc in inr (ground arith)

  broken-IsFoot :
      (size last : ℕ) (x y : Packet) (xs ready before rest ys : List Packet)
      → IsKept start queue (at_head size last (x ∷ xs) ready)
      → next_is last (x ∷ xs) ≡ true
      → rest ≡ y ∷ ys
      → before ++ y ∷ ys ≡ x ∷ xs
      → IsFoot start queue (after_run (at_head size last (x ∷ xs) ready) (broken before rest))
  broken-IsFoot size last x y xs ready before rest ys k n a b = rw a (
    record {
      whole = ap (◌++◌ ready) b ∙ k.whole;
      consec = k.consec;
      last_lem = k.last_lem;
      messages = k.messages;
      valid = subst (IsQueue size) (sym b) k.valid;
    },
    not-next_is last x y xs ys before n k.valid.sorted b,
  )

  run-IsFoot :
      (size last : ℕ) (x : Packet) (xs ready : List Packet) (r : Run)
      → IsKept start queue (at_head size last (x ∷ xs) ready)
      → next_is last (x ∷ xs) ≡ true
      → IsGood (sub32 x.total_len x.data_len) last x xs r
      → IsFoot start queue (after_run (at_head size last (x ∷ xs) ready) r)
  run-IsFoot size last x xs ready (complete got rest) k n (tail, a, b, c, d) =
      complete-IsFoot size last x xs ready got rest tail k a b c (omega (arith, k.valid.fits.0))
  run-IsFoot size last x xs ready (broken before rest) k n (y, ys, a, b) =
      broken-IsFoot size last x y xs ready before rest ys k n a b

  round_at :
      (size last : ℕ) (rest ready : List Packet)
      → IsKept start queue (at_head size last rest ready)
      → next_is last rest ≡ true
      → IsFoot start queue (drain_round (at_head size last rest ready))
  unfolding drain_round
  round_at size last [] ready k n = cc
  round_at size last (x ∷ xs) ready k n =
      run-IsFoot size last x xs ready (group x xs) k n
        (group-IsGood last x xs (ground arith) k.valid.fits)

  -- A round from the head of the queue leaves the loop at the head again, or stops it.
  pub round-IsFoot : (d : Drain) → IsHead start queue d → IsFoot start queue (drain_round d)
  round-IsFoot d (k, e, n) =
      let same : at_head d.save_size d.last_seqno d.rest d.ready ≡ d = λ i. record {
        save_size = d.save_size;
        last_seqno = d.last_seqno;
        before = sym e i;
        rest = d.rest;
        ready = d.ready;
      } in
      subst (λ t. IsFoot start queue (drain_round t)) same
        (round_at d.save_size d.last_seqno d.rest d.ready (subst (IsKept start queue) (sym same) k)
          n)

  pub test-IsHead : (d : Drain) → IsFoot start queue d → drain_test d ≡ true → IsHead start queue d
  unfolding drain_test
  test-IsHead d (k, inl e) t = (k, e, t)
  test-IsHead d (k, inr f) t = cc

  pub loop-IsKept :
      (fuel : ℕ) (d r : Drain)
      → IsHead start queue d
      → do_while drain_test drain_round fuel d ≡ some r
      → IsKept start queue r
  loop-IsKept fuel d r h e =
      (do_while_inv drain_test drain_round (IsHead start queue) (IsFoot start queue) round-IsFoot
        test-IsHead fuel d r h e).0.0

pub start-IsHead :
    (w : Window)
    → IsQueue w.save_size w.queue
    → next_is w.last_seqno w.queue ≡ true
    → IsHead w.last_seqno w.queue (drain_start w)
start-IsHead w v n = (
  record { whole = refl; consec = tt; last_lem = refl; messages = none_yet refl; valid = v },
  refl,
  n,
)

-- What a call that drains the queue from `start` on delivers, and what it leaves.
pub record IsDrained (start : ℕ) (queue : List Packet) (r : Window × List Packet) : Type 0 where
  pub whole : r.1 ++ r.0.queue ≡ queue
  pub consec : Consec start r.1
  pub last_lem : r.0.last_seqno ≡ last_of start r.1
  pub messages : Messages r.1
  pub valid : IsQueue r.0.save_size r.0.queue

pub drain-IsDrained :
    (fuel : ℕ) (w : Window) (r : Window × List Packet)
    → IsQueue w.save_size w.queue
    → next_is w.last_seqno w.queue ≡ true
    → drain fuel w ≡ done r
    → IsDrained w.last_seqno w.queue r
unfolding drain
drain-IsDrained fuel w r v n e =
    elim (Option-cases (do_while drain_test drain_round fuel (drain_start w))) [
      | inl out ↦ absurd (ground arith)
      | inr (d, ends) ↦
          let k =
            loop-IsKept w.last_seqno w.queue fuel (drain_start w) d (start-IsHead w v n) ends in
          let same : drain_end w d ≡ r = ground arith in
          subst (IsDrained w.last_seqno w.queue) same (record {
            whole = k.whole;
            consec = k.consec;
            last_lem = k.last_lem;
            messages = k.messages;
            valid = k.valid;
          })
    ]
