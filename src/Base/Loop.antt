-- ===== src/Base/Loop.antt =====
-- `do body while (test)` on fuel: `none` says that the fuel ran out before the test failed.
use Prim.Native.Nat.{ℕ, zero, suc, ◌<◌}
use mathlib.Core.Path.{◌≡◌, refl}
use mathlib.Core.Logic.{inl, inr}
use mathlib.Core.Bool.{Bool, true, false}
use mathlib.Core.Option.{Option, none, some}
use native.Mathlib.Omega.{arith}
use sassrv.Base.Tests.{Bool-cases}

module _ {ℓ} {S : Type ℓ} (test : S → Bool) (body : S → S) where
  unfoldable pub do_while : ℕ → S → Option S
  do_while zero s = none
  do_while (suc fuel) s = elim (test (body s)) [
    | true ↦ do_while fuel (body s)
    | false ↦ some (body s)
  ]

  -- `P` at the head of each round and `Q` at its foot: `Q` holds of the result, where the test fails.
  pub do_while_inv {κ} :
      (P Q : S → Type κ)
      → ((s : S) → P s → Q (body s))
      → ((s : S) → Q s → test s ≡ true → P s)
      → (fuel : ℕ) (s r : S) → P s
      → do_while fuel s ≡ some r
      → Q r × (test r ≡ false)
  unfolding do_while
  do_while_inv P Q foot head zero s r p e = cc
  do_while_inv P Q foot head (suc fuel) s r p e =
      ground (arith, foot s, head (body s), do_while_inv P Q foot head fuel (body s) r)

  -- A measure that falls whenever the loop goes on bounds the fuel.
  pub do_while_total {κ} :
      (P : S → Type κ) (measure : S → ℕ)
      → ((s : S) → P s → test (body s) ≡ true → P (body s) × (measure (body s) < measure s))
      → (fuel : ℕ) (s : S) → P s
      → measure s < fuel
      → (r : S) × (do_while fuel s ≡ some r)
  unfolding do_while
  do_while_total P measure keep zero s p h = absurd (omega arith)
  do_while_total P measure keep (suc fuel) s p h = elim (Bool-cases (test (body s))) [
    | inl more ↦
        let k = keep s p more in
        let (r, e) = do_while_total P measure keep fuel (body s) k.0 (omega arith) in
        (r, ground arith)
    | inr done ↦ (body s, ground arith)
  ]

  -- A state that the body leaves as it is, and where the test holds, is never left.
  pub do_while-stuck : (fuel : ℕ) (s : S) → body s ≡ s → test s ≡ true → do_while fuel s ≡ none
  unfolding do_while
  do_while-stuck zero s same more = refl
  do_while-stuck (suc fuel) s same more = ground (arith, do_while-stuck fuel s same more)
