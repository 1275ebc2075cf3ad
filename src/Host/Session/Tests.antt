-- ===== src/Host/Session/Tests.antt =====
-- Sessions of a host at 10.4.4.22, with a clock that stands still.
use sassrv.Base.{ℕ, ◌+◌, ◌<◌, ◌≡◌, refl, List, [], ◌∷◌, ltb, if◌then◌else◌, arith}
use sassrv.Host.Session.{Hex, utime_to_str, ip4_hex_string, make_sessions}
use sassrv.Host.Session.Distinct.{Distinct, make_sessions-Distinct, ip4_hex_string-inj}

abbrev hex_digit : ℕ → ℕ
hex_digit a = if ltb a 10 then 48 + a else 55 + a

hex_digit-inj : (a b : ℕ) → a < 16 → b < 16 → hex_digit a ≡ hex_digit b → a ≡ b
hex_digit-inj a b ha hb e = ground arith

abbrev hex : Hex
hex = record { hexchar = hex_digit; hexchar-inj = hex_digit-inj }

-- "0A040416"
abbrev address : List ℕ
address = 48 ∷ 65 ∷ 48 ∷ 52 ∷ 48 ∷ 52 ∷ 49 ∷ 54 ∷ []

address_lem : ip4_hex_string hex (10 ∷ 4 ∷ 4 ∷ 22 ∷ []) ≡ address
unfolding ip4_hex_string
address_lem = refl

-- 255 microseconds are "FF".
stamp : utime_to_str hex 255 ≡ 70 ∷ 70 ∷ []
unfolding utime_to_str
stamp = refl

make_sessions-Distinct_example : Distinct (make_sessions hex address 7 (5000 ∷ 5000 ∷ 9000000 ∷ []))
make_sessions-Distinct_example =
    make_sessions-Distinct hex address 7 (5000 ∷ 5000 ∷ 9000000 ∷ [])
      ((omega arith, (omega arith, (omega arith, (omega arith, (omega arith, tt))))))

abbrev network : List ℕ
network = 10 ∷ 4 ∷ []

ip4_hex_string-inj_example : network ≡ network
ip4_hex_string-inj_example =
    ip4_hex_string-inj hex network network (omega arith, (omega arith, tt))
      (omega arith, (omega arith, tt)) refl refl
