-- ===== src/Ft/Pool/Release.antt =====
-- A release frees the address of its own peer only.
mod Tests
use sassrv.Base.{
  ℕ, zero, suc, ◌+◌, ◌-◌, ◌*◌, ◌<◌, ◌≤◌, ◌≡◌, ◌≢◌, refl, ap, sym, Bool, true, false, ◌&&◌, List, [],
  ◌∷◌, length, get_or, set, All, length-set, get_or-set_self, get_or-set_ne, leb, ltb, ◌∙◌,
  if◌then◌else◌, arith, Bool-cases, ltb→le, inl, inr,
}
use mathlib.Core.Path.{subst}
use sassrv.Ft.Pool.Laws.{IsPool, used_there, in_block-length, set_slot, behind}
use sassrv.Ft.Pool.{
  Pool, all_used, lowest_clear, base, in_block, is_all_used, make_slot, new_block, make_peer,
  release_peer, is_used,
}

-- `q` is `p` with the address `a` given back.
abbrev pub IsReleased : Pool → Pool → ℕ → Type 0
IsReleased p q a =
    IsPool q × ((is_used a q ≡ false) × ((b : ℕ) → a ≢ b → is_used b q ≡ is_used b p))

IsReleased-here :
    (m : List Bool) (older : Pool) (a : ℕ)
    → IsPool (m ∷ older)
    → in_block a older ≡ true
    → IsReleased (m ∷ older) (set m (a - base older) false ∷ older) a
IsReleased-here m older a k h =
    let i = a - base older in
    let inside : i < 16 = ground (arith, h) in
    let back : base older + i ≡ a = ground (arith, h) in
    (
      (length-set m i false ∙ k.0, k.1),
      subst
          (λ c.
            let q = set m i false ∷ older in
            (is_used c q ≡ false) × ((b : ℕ) → c ≢ b → is_used b q ≡ is_used b (m ∷ older)))
          back (set_slot m older i false k.0 inside),
    )

IsReleased-behind :
    (m : List Bool) (older q : Pool) (a : ℕ)
    → length m ≡ 16
    → in_block a older ≡ false
    → length q ≡ length older
    → IsReleased older q a
    → IsReleased (m ∷ older) (m ∷ q) a
IsReleased-behind m older q a len h same t = (
  (len, t.0),
  (
    used_there a m q (in_block-length a older q same ∙ h) ∙ t.1.0,
    λ b ne. behind b m q older same (t.1.1 b ne),
  ),
)

release-step :
    (m : List Bool) (older : Pool) (a : ℕ) (b : Bool)
    → in_block a older ≡ b
    → (if b then set m (a - base older) false ∷ older else m ∷ release_peer a older)
      ≡ release_peer a (m ∷ older)
unfolding release_peer
release-step m older a b e =
    ap (λ b. if b then set m (a - base older) false ∷ older else m ∷ release_peer a older) (sym e)

-- `release_peer` of the address of a peer in use marks it free and leaves all others as they were.
pub release_peer-IsReleased :
    (p : Pool) (a : ℕ)
    → IsPool p
    → is_used a p ≡ true
    → (length (release_peer a p) ≡ length p) × IsReleased p (release_peer a p) a
unfolding is_used
release_peer-IsReleased [] a k e = absurd (ground arith)
release_peer-IsReleased (m ∷ older) a k e = elim (Bool-cases (in_block a older)) [
  | inl h ↦
      subst (λ r. (length r ≡ length (m ∷ older)) × IsReleased (m ∷ older) r a)
        (release-step m older a true h) (refl, IsReleased-here m older a k h)
  | inr h ↦
      let r = release_peer-IsReleased older a k.1 (sym (used_there a m older h) ∙ e) in
      subst (λ r. (length r ≡ length (m ∷ older)) × IsReleased (m ∷ older) r a)
        (release-step m older a false h)
        (ap suc r.0, IsReleased-behind m older (release_peer a older) a k.0 h r.0 r.1)
]
