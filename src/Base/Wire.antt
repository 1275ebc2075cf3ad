-- ===== src/Base/Wire.antt =====
-- What the program takes from raimd and raikv, which are not part of the repository: the
-- big-endian field readers `get_u16<MD_BIG>` and `get_u32<MD_BIG>`, and the hash table
-- `IntHashTabT`, each with the behaviour that its documentation promises.
use Prim.Native.Nat.{ℕ, ◌+◌, ◌*◌}
use mathlib.Core.Path.{◌≡◌, refl}
use mathlib.Core.Logic.{◌≢◌, ite, if_pos, if_neg}
use mathlib.Core.Option.{Option, none, some}
use mathlib.Core.List.{List, ◌∷◌}

pub record Decoder : Type 0 where
  pub get_u16 : List ℕ → ℕ
  pub get_u32 : List ℕ → ℕ
  pub get_u16_lem : (a b : ℕ) (rest : List ℕ) → get_u16 (a ∷ b ∷ rest) ≡ a * 256 + b
  pub get_u32_lem :
      (a b c d : ℕ) (rest : List ℕ)
      → get_u32 (a ∷ b ∷ c ∷ d ∷ rest) ≡ ((a * 256 + b) * 256 + c) * 256 + d

abbrev be16 : List ℕ → ℕ
be16 (a ∷ b ∷ _) = a * 256 + b
be16 _ = 0

abbrev be32 : List ℕ → ℕ
be32 (a ∷ b ∷ c ∷ d ∷ _) = ((a * 256 + b) * 256 + c) * 256 + d
be32 _ = 0

-- A decoder that meets the laws.
abbrev pub big_endian : Decoder
big_endian = record {
  get_u16 = be16;
  get_u32 = be32;
  get_u16_lem = λ a b rest. refl;
  get_u32_lem = λ a b c d rest. refl;
}

pub record HashTab (K V : Type 0) : Type 1 where
  pub Tab : Type 0
  pub empty : Tab
  pub find : Tab → K → Option V
  pub set_rsz : Tab → K → V → Tab
  pub remove : Tab → K → Tab
  pub find-empty : (k : K) → find empty k ≡ none
  pub find-set_self : (t : Tab) (k : K) (v : V) → find (set_rsz t k v) k ≡ some v
  pub find-set_ne : (t : Tab) (k j : K) (v : V) → k ≢ j → find (set_rsz t k v) j ≡ find t j
  pub find-remove_self : (t : Tab) (k : K) → find (remove t k) k ≡ none
  pub find-remove_ne : (t : Tab) (k j : K) → k ≢ j → find (remove t k) j ≡ find t j

module _ {K V : Type 0} (same : Discrete K) where
  abbrev pub point : (K → Option V) → K → Option V → K → Option V
  point t k v j = ite (same k j) v (t j)

  pub point_self : (t : K → Option V) (k : K) (v : Option V) → point t k v k ≡ v
  point_self t k v = if_pos (same k k) refl v (t k)

  pub point_ne : (t : K → Option V) (k j : K) (v : Option V) → k ≢ j → point t k v j ≡ t j
  point_ne t k j v ne = if_neg (same k j) ne v (t j)

  -- A table that meets the laws: the finite map as a function.
  abbrev pub function_tab : HashTab K V
  function_tab = record {
    Tab = K → Option V;
    empty = λ _. none;
    find = λ t k. t k;
    set_rsz = λ t k v. point t k (some v);
    remove = λ t k. point t k none;
    find-empty = λ k. refl;
    find-set_self = λ t k v. point_self t k (some v);
    find-set_ne = λ t k j v ne. point_ne t k j (some v) ne;
    find-remove_self = λ t k. point_self t k none;
    find-remove_ne = λ t k j ne. point_ne t k j none ne;
  }
