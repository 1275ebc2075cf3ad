-- ===== src/Ft/Pool/Laws.antt =====
-- A new peer has an address that no peer in use has.
mod Tests
use sassrv.Base.{
  ℕ, zero, suc, ◌+◌, ◌-◌, ◌*◌, ◌<◌, ◌≤◌, ◌≡◌, ◌≢◌, refl, ap, sym, Bool, true, false, ◌&&◌, List, [],
  ◌∷◌, length, get_or, set, All, length-set, get_or-set_self, get_or-set_ne, leb, ltb, ◌∙◌,
  if◌then◌else◌, arith, Bool-cases, ltb→le, inl, inr,
}
use mathlib.Core.Path.{subst}
use sassrv.Ft.Pool.{
  Pool, all_used, lowest_clear, base, in_block, is_all_used, make_slot, new_block, make_peer,
  release_peer, is_used,
}

abbrev pub IsPool : Pool → Type 0
IsPool p = All (λ m. length m ≡ 16) p

lowest_clear-free :
    (m : List Bool)
    → all_used m ≡ false
    → (lowest_clear m < length m) × (get_or m (lowest_clear m) false ≡ false)
lowest_clear-free [] e = absurd (ground arith)
lowest_clear-free (true ∷ m) e = let (a, b) = lowest_clear-free m e in (omega (arith, a), b)
lowest_clear-free (false ∷ m) e = (omega arith, refl)

-- Addresses outside the blocks are of no peer.
is_used-outside : (p : Pool) (a : ℕ) → base p ≤ a → is_used a p ≡ false
unfolding is_used
is_used-outside [] a h = refl
is_used-outside (m ∷ older) a h = ground (arith, is_used-outside older a)

-- `q` is `p` with the address `a`, which was free, taken.
abbrev pub IsTaken : Pool → Pool → ℕ → Type 0
IsTaken p q a =
    IsPool q
    × ((1 ≤ a)
        × ((is_used a p ≡ false)
            × ((is_used a q ≡ true) × ((b : ℕ) → a ≢ b → is_used b q ≡ is_used b p))))

-- The two ways `is_used` looks a block up.
used_here :
    (a : ℕ) (m : List Bool) (older : Pool)
    → in_block a older ≡ true
    → is_used a (m ∷ older) ≡ get_or m (a - base older) false
unfolding is_used
used_here a m older e = ap (λ b. if b then get_or m (a - base older) false else is_used a older) e

pub used_there :
    (a : ℕ) (m : List Bool) (older : Pool)
    → in_block a older ≡ false
    → is_used a (m ∷ older) ≡ is_used a older
unfolding is_used
used_there a m older e = ap (λ b. if b then get_or m (a - base older) false else is_used a older) e

in_block-base : (i : ℕ) (older : Pool) → i < 16 → in_block (base older + i) older ≡ true
in_block-base i older h = ground arith

pub in_block-length :
    (a : ℕ) (older newer : Pool) → length newer ≡ length older → in_block a newer ≡ in_block a older
in_block-length a older newer e = ap (λ n. leb (1 + 16 * n) a && ltb a (1 + 16 * n + 16)) e

-- A slot of the newest block is set to `v`, and no other address is touched.
pub set_slot :
    (m : List Bool) (older : Pool) (i : ℕ) (v : Bool)
    → length m ≡ 16
    → i < 16
    → (is_used (base older + i) (set m i v ∷ older) ≡ v)
      × ((b : ℕ) → base older + i ≢ b → is_used b (set m i v ∷ older) ≡ is_used b (m ∷ older))
set_slot m older i v len h =
    let off : base older + i - base older ≡ i = omega arith in
    (
      used_here (base older + i) (set m i v) older (in_block-base i older h)
          ∙ ap (λ n. get_or (set m i v) n false) off
          ∙ get_or-set_self m i v false (omega (arith, len)),
      λ b ne. elim (Bool-cases (in_block b older)) [
        | inl e ↦
            used_here b (set m i v) older e
            ∙ get_or-set_ne m i (b - base older) v false (ground (arith, ne, e))
            ∙ sym (used_here b m older e)
        | inr e ↦ used_there b (set m i v) older e ∙ sym (used_there b m older e)
      ],
    )

make_slot_here :
    (m : List Bool) (older : Pool)
    → all_used m ≡ false
    → make_slot (m ∷ older) ≡ (set m (lowest_clear m) true ∷ older, base older + lowest_clear m)
make_slot_here m older e = ground arith

make_slot_there :
    (m : List Bool) (older : Pool)
    → all_used m ≡ true
    → make_slot (m ∷ older) ≡ (m ∷ (make_slot older).0, (make_slot older).1)
make_slot_there m older e = ground arith

not_in_front :
    (a : ℕ) (q older : Pool)
    → length q ≡ length older
    → is_used a q ≡ true
    → in_block a older ≡ false
not_in_front a q older same e = elim (Bool-cases (ltb a (base q))) [
  | inl h ↦ ground (arith, h, same)
  | inr h ↦ absurd (ground (arith, e, is_used-outside q a (ltb→le a (base q) h)))
]

pub behind :
    (b : ℕ) (m : List Bool) (q older : Pool)
    → length q ≡ length older
    → is_used b q ≡ is_used b older
    → is_used b (m ∷ q) ≡ is_used b (m ∷ older)
behind b m q older same e = elim (Bool-cases (in_block b older)) [
  | inl h ↦
      used_here b m q (in_block-length b older q same ∙ h)
      ∙ ap (λ n. get_or m (b - (1 + 16 * n)) false) same
      ∙ sym (used_here b m older h)
  | inr h ↦ used_there b m q (in_block-length b older q same ∙ h) ∙ e ∙ sym (used_there b m older h)
]

-- The blocks in front of those where a slot is taken stay.
IsTaken-behind :
    (m : List Bool) (older q : Pool) (a : ℕ)
    → length m ≡ 16
    → length q ≡ length older
    → IsTaken older q a
    → IsTaken (m ∷ older) (m ∷ q) a
IsTaken-behind m older q a len same t =
    let below : in_block a older ≡ false = not_in_front a q older same t.1.1.1.0 in
    let below' : in_block a q ≡ false = in_block-length a older q same ∙ below in
    (
      (len, t.0),
      (
        t.1.0,
        (
          used_there a m older below ∙ t.1.1.0,
          (used_there a m q below' ∙ t.1.1.1.0, λ b ne. behind b m q older same (t.1.1.1.1 b ne)),
        ),
      ),
    )

make_slot-IsTaken :
    (p : Pool)
    → IsPool p
    → is_all_used p ≡ false
    → (length (make_slot p).0 ≡ length p) × IsTaken p (make_slot p).0 (make_slot p).1
make_slot-IsTaken [] k e = absurd (ground arith)
make_slot-IsTaken (m ∷ older) k e = elim (Bool-cases (all_used m)) [
  | inl full ↦
      let r = make_slot-IsTaken older k.1 (ground arith) in
      subst (λ r. (length r.0 ≡ length (m ∷ older)) × IsTaken (m ∷ older) r.0 r.1)
        (sym (make_slot_there m older full)) (ap suc r.0, IsTaken-behind m older _ _ k.0 r.0 r.1)
  | inr room ↦
      let i = lowest_clear m in
      let f = lowest_clear-free m room in
      let inside : i < 16 = omega (arith, f.0, k.0) in
      let s = set_slot m older i true k.0 inside in
      let off : base older + i - base older ≡ i = omega arith in
      subst (λ r. (length r.0 ≡ length (m ∷ older)) × IsTaken (m ∷ older) r.0 r.1)
        (sym (make_slot_here m older room))
        (
          refl,
          (
            (length-set m i true ∙ k.0, k.1),
            (
              omega arith,
              (
                used_here (base older + i) m older (in_block-base i older inside)
                    ∙ ap (λ n. get_or m n false) off
                    ∙ f.1,
                s,
              ),
            ),
          ),
        )
]

get_or-clear : (m : List Bool) (n : ℕ) → All (λ b. b ≡ false) m → get_or m n false ≡ false
get_or-clear [] n k = refl
get_or-clear (b ∷ m) zero k = k.0
get_or-clear (b ∷ m) (suc n) k = get_or-clear m n k.1

is_used-new_block : (p : Pool) (b : ℕ) → is_used b (new_block ∷ p) ≡ is_used b p
is_used-new_block p b = elim (Bool-cases (in_block b p)) [
  | inl h ↦
      used_here b new_block p h
      ∙ get_or-clear new_block (b - base p) (
          (
            refl,
            (
              refl,
              (
                refl,
                (
                  refl,
                  (
                    refl,
                    (
                      refl,
                      (
                        refl,
                        (refl, (refl, (refl, (refl, (refl, (refl, (refl, (refl, (refl, tt))))))))),
                      ),
                    ),
                  ),
                ),
              ),
            ),
          ))
      ∙ sym (is_used-outside p b (ground (arith, h)))
  | inr h ↦ used_there b new_block p h
]

-- `make_peer` gives an address that is not 0 and that no peer in use has, and marks it alone.
pub make_peer-IsTaken : (p : Pool) → IsPool p → IsTaken p (make_peer p).0 (make_peer p).1
unfolding make_peer
make_peer-IsTaken p k = elim (Bool-cases (is_all_used p)) [
  | inl full ↦
      let (same, t) = make_slot-IsTaken (new_block ∷ p) (refl, k) refl in
      subst (λ r. IsTaken p (make_slot r).0 (make_slot r).1)
        (sym (ap (λ b. if b then new_block ∷ p else p) full))
        (
          t.0,
          (
            t.1.0,
            (
              sym (is_used-new_block p _) ∙ t.1.1.0,
              (t.1.1.1.0, λ b ne. t.1.1.1.1 b ne ∙ is_used-new_block p b),
            ),
          ),
        )
  | inr room ↦
      subst (λ r. IsTaken p (make_slot r).0 (make_slot r).1)
        (sym (ap (λ b. if b then new_block ∷ p else p) room)) (make_slot-IsTaken p k room).1
]
