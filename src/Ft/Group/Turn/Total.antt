-- ===== src/Ft/Group/Turn/Total.antt =====
-- `set_state` always returns: three calls of it are as many as ever stand inside each other, and no
-- entry past the end of the queue is read.
use sassrv.Base.{
  ℕ, suc, ◌<◌, ◌≡◌, ◌≢◌, refl, sym, ap, ◌∙◌, inl, inr, Bool, true, false, not, ◌&&◌, ◌||◌, [], ◌∷◌,
  length, length-append, get_or, ◌==◌, if◌then◌else◌, Option, none, some, arith, Bool-cases, lt→ltb,
  either, if_either, le→leb,
}
use sassrv.Ft.Peer.{
  State, listen, joining, primary, secondary, finished, same_state, is_greater_weight,
}
use sassrv.Ft.Queue.Members.{IsMember, insert-IsMember, update-IsMember, update_state_same}
use sassrv.Ft.Queue.{update}
use sassrv.Ft.Queue.Bounds.{InArray, insert-InArray, update-InArray}
use sassrv.Ft.Group.{
  ◌>>=◌, Action, same_action, notify_update, on_join, on_deactivate, on_prepare, Env, Group, me,
  entry, set_timer, store_prepare, store_activate, set_prepare_timer, set_activate_timer,
  expired_delta_ms, send_msg, notify_change,
}
use sassrv.Ft.Group.Turn.{
  has_expired, move_to, turned, leaves_join, reranked, announced, deactivated, prepare, is_early,
  announce_prepare, decides, decide, takeover_next, wins, prepare_takeover, enter, set_state_in,
  set_state,
}
use mathlib.Core.Path.{subst}

abbrev pub IsSome : {A : Type 0} → Option A → Type 0
IsSome {A} o = (a : A) × (o ≡ some a)

bind-IsSome :
    {A B : Type 0} (o : Option A) (f : A → Option B)
    → IsSome o
    → ((a : A) → IsSome (f a))
    → IsSome (o >>= f)
bind-IsSome none f k g = absurd (ground (arith, k.1))
bind-IsSome (some a) f k g = g a

bind-some :
    {A B : Type 0} (o : Option A) (f : A → Option B) (a : A)
    → o ≡ some a
    → IsSome (f a)
    → IsSome (o >>= f)
bind-some o f a e k = subst (λ x. IsSome (x >>= f)) (sym e) k

same_state-eq : (a b : State) → same_state a b ≡ true → a ≡ b
same_state-eq a b e = ground arith

must_join : (a b c : Bool) → (a || b) ≡ true → (a || (b && c)) ≡ false → b ≡ true
must_join a true c e f = refl
must_join true false c e f = absurd (ground (arith, f))
must_join false false c e f = absurd (ground (arith, e))

module _ {E : Env} where
  entry-some :
      (i : ℕ) (g : Group E) → i < length g.queue.ptr → entry i g ≡ some (get_or g.queue.ptr i 0)
  entry-some i g h = ap (λ b. if b then some (get_or g.queue.ptr i 0) else none) (lt→ltb _ _ h)

  abbrev HasMe : Group E → Type 0
  HasMe g = IsMember 0 g.queue

  HasMe-some : (g : Group E) → HasMe g → 0 < length g.queue.ptr
  HasMe-some g (front, back, e) = omega (arith, ap length e ∙ length-append front (0 ∷ back))

  -- The entry at the member's position is one of the array.
  abbrev pub HasPlace : Group E → Type 0
  HasPlace g = InArray 0 g.queue

  -- When another peer is at the head, there is a second entry.
  HasMe-next : (g : Group E) → HasMe g → get_or g.queue.ptr 0 0 ≢ 0 → 1 < length g.queue.ptr
  HasMe-next g ([], back, e) ne = absurd (ne (ap (λ l. get_or l 0 0) e))
  HasMe-next g (x ∷ front, back, e) ne =
      omega (arith, ap length e ∙ length-append (x ∷ front) (0 ∷ back))

  set_timer-IsSome :
      (a : Action) (d o x : ℕ) (store : ℕ → ℕ → Group E → Group E) (g : Group E)
      → HasMe g
      → IsSome (set_timer a d o x store g)
  unfolding set_timer
  set_timer-IsSome a d o x store g k =
      bind-some (entry 0 g) _ _ (entry-some 0 g (HasMe-some g k)) (_, refl)

  set_prepare_timer-IsSome : (g : Group E) → HasMe g → IsSome (set_prepare_timer g)
  unfolding set_prepare_timer
  set_prepare_timer-IsSome g k = set_timer-IsSome _ _ _ _ store_prepare g k

  set_activate_timer-IsSome : (g : Group E) → HasMe g → IsSome (set_activate_timer g)
  unfolding set_activate_timer
  set_activate_timer-IsSome g k = set_timer-IsSome _ _ _ _ store_activate g k

  HasMe-announce_prepare :
      (a : Action) (p : ℕ) (g : Group E) → HasMe g → HasMe (announce_prepare a p g)
  unfolding notify_change
  HasMe-announce_prepare a p g k =
      either HasMe
        (same_action a on_prepare
          && not (
              same_state (me g).state joining
              && (not (p == 0) && is_greater_weight (g.queue.heap p) (me g))))
        (notify_change on_prepare g) g k k

  prepare-IsSome : (a : Action) (p o : ℕ) (g : Group E) → HasMe g → IsSome (prepare a p o g)
  prepare-IsSome a p o g k =
      either IsSome (is_early o g) (set_prepare_timer g)
        (set_activate_timer (announce_prepare a p g)) (set_prepare_timer-IsSome g k)
        (set_activate_timer-IsSome (announce_prepare a p g) (HasMe-announce_prepare a p g k))

  takeover_next-IsSome :
      (a : Action) (d : ℕ) (g : Group E)
      → HasMe g
      → get_or g.queue.ptr 0 0 ≢ 0
      → IsSome (takeover_next a d (get_or g.queue.ptr 0 0) g)
  takeover_next-IsSome a d g k ne = bind-some (entry 1 g) _ _ (entry-some 1 g (HasMe-next g k ne)) (
      either IsSome (not (get_or g.queue.ptr 1 0 == 0)) _ _ (_, refl)
        (either IsSome (not (d == 0)) _ _ (_, refl) (prepare-IsSome _ _ _ g k)))

  decide-IsSome :
      (turn : State → Group E → Option (Group E)) (a : Action) (p : ℕ) (g : Group E)
      → HasMe g
      → decides p g ≡ true
      → IsSome (turn primary g)
      → (same_state (me g).state joining ≡ true → IsSome (turn secondary g))
      → IsSome (decide turn a p g)
  decide-IsSome turn a p g k e first second =
      let choice : IsSome (turn (if wins p g then primary else secondary) g) =
        elim (Bool-cases (wins p g)) [
          | inl w ↦ subst (λ b. IsSome (turn (if b then primary else secondary) g)) (sym w) first
          | inr w ↦
              subst (λ b. IsSome (turn (if b then primary else secondary) g)) (sym w)
                (second (
                  must_join (p == 0) (same_state (me g).state joining)
                    (is_greater_weight (me g) (g.queue.heap p)) e w))
        ] in
      either IsSome (has_expired (expired_delta_ms g g.start_mono g.activate_ms)) _ _
        (bind-IsSome (turn (if wins p g then primary else secondary) g)
          (λ h. some (notify_update h)) choice (λ h. (notify_update h, refl)))
        (prepare-IsSome a p g.start_mono g k)

  prepare_takeover-IsSome :
      (turn : State → Group E → Option (Group E)) (a : Action) (d : ℕ) (g : Group E)
      → HasMe g
      → IsSome (turn primary g)
      → (same_state (me g).state joining ≡ true → IsSome (turn secondary g))
      → IsSome (prepare_takeover turn a d g)
  unfolding prepare_takeover
  prepare_takeover-IsSome turn a d g k first second =
      bind-some (entry 0 g) _ _ (entry-some 0 g (HasMe-some g k))
        (elim (Bool-cases (decides (get_or g.queue.ptr 0 0) g)) [
          | inl e ↦
              subst
                (λ b. IsSome (
                  if b
                  then decide turn a (get_or g.queue.ptr 0 0) g
                  else takeover_next a d (get_or g.queue.ptr 0 0) g))
                (sym e) (decide-IsSome turn a (get_or g.queue.ptr 0 0) g k e first second)
          | inr e ↦
              subst
                (λ b. IsSome (
                  if b
                  then decide turn a (get_or g.queue.ptr 0 0) g
                  else takeover_next a d (get_or g.queue.ptr 0 0) g))
                (sym e) (takeover_next-IsSome a d g k (ground (arith, e)))
        ])

  enter-primary :
      (turn : State → Group E → Option (Group E)) (s : State) (g : Group E)
      → IsSome (enter turn s primary g)
  unfolding enter
  enter-primary turn s g = (_, refl)

  -- After the change the member is in the state, has a place, and is in the queue if it was.
  record IsMoved (s : State) (g h : Group E) : Type 0 where
    in_state : (me h).state ≡ s
    has_place : HasPlace h
    has_me : HasMe g → HasMe h

  abbrev Moved : State → Group E → Type 0
  Moved s g = (h : Group E) × (move_to s g ≡ some h) × IsMoved s g h

  turned-IsMoved : (s : State) (g : Group E) → HasPlace g → IsMoved s g (turned s g)
  turned-IsMoved s g p = record { in_state = refl; has_place = p; has_me = λ k. k }

  abbrev updated : State → Group E → Group E
  updated s g = record (turned s g) { queue = update 0 (turned s g).queue }

  updated-IsMoved : (s : State) (g : Group E) → HasPlace g → IsMoved s g (updated s g)
  updated-IsMoved s g p = record {
    in_state = update_state_same (turned s g).queue 0 0;
    has_place = update-InArray (turned s g).queue 0 p;
    has_me = update-IsMember (turned s g).queue 0;
  }

  reranked-some :
      (s : State) (g : Group E) → HasPlace g → reranked (turned s g) ≡ some (updated s g)
  reranked-some s g p =
      ap (λ b. if b then some (updated s g) else none)
        (le→leb (me (turned s g)).position (length (turned s g).queue.ptr) p)

  abbrev rest : State → Group E → Option (Group E)
  rest s g = if leaves_join (me g).state s then reranked (turned s g) else some (turned s g)

  move_to-Moved : (s : State) (g : Group E) → HasPlace g → Moved s g
  unfolding move_to
  move_to-Moved s g p = elim (Bool-cases (same_state s (me g).state)) [
    | inl e ↦ (
      g,
      ap (λ b. if b then some g else rest s g) e,
      record { in_state = sym (same_state-eq s (me g).state e); has_place = p; has_me = λ k. k },
    )
    | inr e ↦ elim (Bool-cases (leaves_join (me g).state s)) [
      | inl l ↦ (
        updated s g,
        ap (λ b. if b then some g else rest s g) e
            ∙ ap (λ b. if b then reranked (turned s g) else some (turned s g)) l
            ∙ reranked-some s g p,
        updated-IsMoved s g p,
      )
      | inr l ↦ (
        turned s g,
        ap (λ b. if b then some g else rest s g) e
            ∙ ap (λ b. if b then reranked (turned s g) else some (turned s g)) l,
        turned-IsMoved s g p,
      )
    ]
  ]

  -- A call of `set_state` returns when the part after the change does.
  moved-IsSome :
      (n : ℕ) (s : State) (g : Group E)
      → HasPlace g
      → ((h : Group E) → IsMoved s g h → IsSome (enter (set_state_in n) (me g).state s h))
      → IsSome (set_state_in (suc n) s g)
  unfolding set_state_in
  moved-IsSome n s g p k =
      let (h, e, m) = move_to-Moved s g p in
      bind-some (move_to s g) (enter (set_state_in n) (me g).state s) h e (k h m)

  in_primary : (n : ℕ) (g : Group E) → HasPlace g → IsSome (set_state_in (suc n) primary g)
  in_primary n g p =
      moved-IsSome n primary g p (λ h m. enter-primary (set_state_in n) (me g).state h)

  HasMe-deactivated : (old : State) (g : Group E) → HasMe g → HasMe (deactivated old g)
  unfolding notify_change send_msg
  HasMe-deactivated old g k = either HasMe (same_state old secondary) g _ k k

  deactivated_state : (old : State) (g : Group E) → (me (deactivated old g)).state ≡ (me g).state
  unfolding notify_change send_msg
  deactivated_state old g =
      if_either {A = Group E} (λ h. (me h).state) _ (same_state old secondary) g _ refl refl

  not_joining :
      (g : Group E) → (me g).state ≡ secondary → same_state (me g).state joining ≡ true → ⊥
  not_joining g e j = ground (arith, e, j)

  HasPlace-deactivated : (old : State) (g : Group E) → HasPlace g → HasPlace (deactivated old g)
  unfolding notify_change send_msg
  HasPlace-deactivated old g p = either HasPlace (same_state old secondary) g _ p p

  in_secondary :
      (n : ℕ) (g : Group E) → HasMe g → HasPlace g → IsSome (set_state_in (suc (suc n)) secondary g)
  unfolding enter
  in_secondary n g k p = moved-IsSome (suc n) secondary g p (λ h m.
      let old = (me g).state in
      prepare_takeover-IsSome (set_state_in (suc n)) on_deactivate 0 (deactivated old h)
        (HasMe-deactivated old h (m.has_me k))
        (in_primary n (deactivated old h) (HasPlace-deactivated old h m.has_place))
        (λ j. absurd (not_joining (deactivated old h) (deactivated_state old h ∙ m.in_state) j)))

  HasMe-announced : (g : Group E) → HasMe (announced g)
  unfolding send_msg
  HasMe-announced g = insert-IsMember g.queue 0

  HasPlace-announced : (g : Group E) → HasPlace (announced g)
  unfolding send_msg
  HasPlace-announced g = insert-InArray g.queue 0

  in_joining :
      (n : ℕ) (g : Group E) → HasPlace g → IsSome (set_state_in (suc (suc (suc n))) joining g)
  unfolding enter
  in_joining n g p = moved-IsSome (suc (suc n)) joining g p (λ h m.
      let a = announced h in
      bind-IsSome (prepare_takeover (set_state_in (suc (suc n))) on_join 0 a)
        (λ r. some (notify_change on_join r))
        (prepare_takeover-IsSome (set_state_in (suc (suc n))) on_join 0 a (HasMe-announced h)
          (in_primary (suc n) a (HasPlace-announced h))
          (λ j. in_secondary n a (HasMe-announced h) (HasPlace-announced h)))
        (λ r. (notify_change on_join r, refl)))

  in_listen : (n : ℕ) (g : Group E) → HasPlace g → IsSome (set_state_in (suc n) listen g)
  unfolding enter
  in_listen n g p = moved-IsSome n listen g p (λ h m. (_, refl))

  in_finished : (n : ℕ) (g : Group E) → HasPlace g → IsSome (set_state_in (suc n) finished g)
  unfolding enter
  in_finished n g p = moved-IsSome n finished g p (λ h m. (_, refl))

  -- `set_state` of every state, where the member's position is not past the end of the queue, returns
  -- a group, with three calls of it at most inside each other; no entry past the end of the queue is
  -- read at its head, in its second place, or at the member's position. For the secondary state the
  -- member is in the queue.
  pub set_state-IsSome :
      (s : State) (g : Group E)
      → InArray 0 g.queue
      → (s ≡ secondary → IsMember 0 g.queue)
      → IsSome (set_state s g)
  unfolding set_state
  set_state-IsSome listen g p k = in_listen 2 g p
  set_state-IsSome joining g p k = in_joining 0 g p
  set_state-IsSome primary g p k = in_primary 2 g p
  set_state-IsSome secondary g p k = in_secondary 1 g (k refl) p
  set_state-IsSome finished g p k = in_finished 2 g p
