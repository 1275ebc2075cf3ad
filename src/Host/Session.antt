-- ===== src/Host/Session.antt =====
-- The names of sessions: `utime_to_str`, `make_session` and `ip4_hex_string` of src/rv_host.cpp.
pub mod Distinct
mod Tests
use sassrv.Base.{
  ℕ, zero, suc, ◌+◌, ◌/◌, ◌%◌, List, [], ◌∷◌, ◌++◌, leb, ◌==◌, if◌then◌else◌, add64, ◌<◌, ◌≡◌,
}

-- `hexchar2` of raikv: sixteen different characters.
pub record Hex : Type 0 where
  pub hexchar : ℕ → ℕ
  pub hexchar-inj : (a b : ℕ) → a < 16 → b < 16 → hexchar a ≡ hexchar b → a ≡ b

-- `us >> 4 * n`
abbrev pub shift : ℕ → ℕ → ℕ
shift zero us = us
shift (suc n) us = shift n us / 16

-- The first loop, whose counter `j` is 4 times this one; a 64-bit word has 16 digits at most.
abbrev pub count_digits : ℕ → ℕ → ℕ → ℕ
count_digits zero n us = n
count_digits (suc left) n us =
    let more = count_digits left (suc n) us in if shift n us == 0 then n else more

-- `us` of `make_session`, which is also the new `last_session_us`.
abbrev pub next_us : ℕ → ℕ → ℕ
next_us last_session_us ns =
    if leb (ns / 1000) last_session_us then add64 last_session_us 1 else ns / 1000

module _ (H : Hex) where
  -- The second loop.
  abbrev pub digits : ℕ → ℕ → List ℕ
  digits zero us = []
  digits (suc n) us = H.hexchar (shift n us % 16) ∷ digits n us

  unfoldable pub utime_to_str : ℕ → List ℕ
  utime_to_str us = digits (count_digits 16 0 us) us

  -- The bytes of the address in the order of memory.
  unfoldable pub ip4_hex_string : List ℕ → List ℕ
  ip4_hex_string [] = []
  ip4_hex_string (q ∷ qs) = H.hexchar (q / 16 % 16) ∷ H.hexchar (q % 16) ∷ ip4_hex_string qs

  abbrev pub session_name : List ℕ → ℕ → List ℕ
  session_name session_ip us = session_ip ++ 46 ∷ utime_to_str us

  unfoldable pub make_session : List ℕ → ℕ → ℕ → ℕ × List ℕ
  unfolding utime_to_str
  make_session session_ip last_session_us ns =
      (next_us last_session_us ns, session_name session_ip (next_us last_session_us ns))

  -- The names that a host gives out, one after the other.
  abbrev pub make_sessions : List ℕ → ℕ → List ℕ → List (List ℕ)
  make_sessions session_ip last_session_us [] = []
  make_sessions session_ip last_session_us (ns ∷ stamps) =
      let (last, name) = make_session session_ip last_session_us ns in
      name ∷ make_sessions session_ip last stamps
