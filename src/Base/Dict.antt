-- ===== src/Base/Dict.antt =====
-- A map keyed by numbers, as the list of its entries in the order in which they are visited.
use Prim.Native.Nat.{ℕ}
use mathlib.Core.Bool.{Bool, true, false}
use mathlib.Core.Option.{Option, none, some}
use mathlib.Core.List.{List, [], ◌∷◌}
use mathlib.Core.Path.{◌≡◌, refl, ap, ◌∙◌}
use mathlib.Core.Logic.{inl, inr}
use sassrv.Base.Tests.{◌==◌, if◌then◌else◌, Bool-cases, eq→==}

abbrev pub Dict : Type 0 → Type 0
Dict V = List (ℕ × V)

module _ {V : Type 0} where
  abbrev pub lookup : ℕ → Dict V → Option V
  lookup k [] = none
  lookup k ((j, v) ∷ d) = let rest = lookup k d in if k == j then some v else rest

  abbrev pub contains : ℕ → Dict V → Bool
  contains k [] = false
  contains k ((j, v) ∷ d) = let rest = contains k d in if k == j then true else rest

  -- The value of the first entry of the key is replaced; a new entry comes last.
  abbrev pub put : ℕ → V → Dict V → Dict V
  put k v [] = (k, v) ∷ []
  put k v ((j, w) ∷ d) = let rest = put k v d in if k == j then (k, v) ∷ d else (j, w) ∷ rest

  abbrev pub erase : ℕ → Dict V → Dict V
  erase k [] = []
  erase k ((j, w) ∷ d) = let rest = erase k d in if k == j then d else (j, w) ∷ rest

  pub lookup-put_self : (k : ℕ) (v : V) (d : Dict V) → lookup k (put k v d) ≡ some v
  lookup-put_self k v [] = ap (λ b. if b then some v else none) (eq→== k k refl)
  lookup-put_self k v ((j, w) ∷ d) = elim (Bool-cases (k == j)) [
    | inl t ↦
        ap (λ b. lookup k (if b then (k, v) ∷ d else (j, w) ∷ put k v d)) t
        ∙ ap (λ b. if b then some v else lookup k d) (eq→== k k refl)
    | inr t ↦
        ap (λ b. lookup k (if b then (k, v) ∷ d else (j, w) ∷ put k v d)) t
        ∙ ap (λ b. if b then some w else lookup k (put k v d)) t
        ∙ lookup-put_self k v d
  ]
