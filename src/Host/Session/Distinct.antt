-- ===== src/Host/Session/Distinct.antt =====
-- No two sessions of a host have the same name.
use sassrv.Base.{
  ℕ, zero, suc, ◌+◌, ◌/◌, ◌%◌, ◌^◌, ◌<◌, ◌≡◌, ◌≢◌, refl, sym, ap, ap₂, ◌∙◌, inl, inr, List, [], ◌∷◌,
  length, ◌==◌, if◌then◌else◌, All, arith, Bool-cases, ==→eq, u64_mod,
}
use sassrv.Host.Session.{
  Hex, shift, count_digits, digits, utime_to_str, ip4_hex_string, next_us, session_name,
  make_session, make_sessions,
}
use mathlib.Core.Path.{subst}

abbrev tail_of : {A : Type 0} → List A → List A
tail_of [] = []
tail_of (x ∷ xs) = xs

abbrev head_or : ℕ → List ℕ → ℕ
head_or d [] = d
head_or d (x ∷ xs) = x

shift-count_digits :
    (left n us k : ℕ) → k ≡ n + left → shift k us ≡ 0 → shift (count_digits left n us) us ≡ 0
shift-count_digits zero n us k e z = subst (λ i. shift i us ≡ 0) (omega (arith, e)) z
shift-count_digits (suc left) n us k e z = elim (Bool-cases (shift n us == 0)) [
  | inl t ↦
      ap (λ b. shift (if b then n else count_digits left (suc n) us) us) t ∙ ==→eq (shift n us) 0 t
  | inr t ↦
      ap (λ b. shift (if b then n else count_digits left (suc n) us) us) t
      ∙ shift-count_digits left (suc n) us k (omega (arith, e)) z
]

shift_word : (us : ℕ) → us < u64_mod → shift 16 us ≡ 0
shift_word us h = omega arith

-- Clocks of 64 bits, and a last time and a number of names far from the end of their words.
abbrev pub Clocks : ℕ → List ℕ → Type 0
Clocks last stamps =
    (last + length stamps < 2 ^ 63) × ((length stamps < 2 ^ 62) × All (λ ns. ns < u64_mod) stamps)

-- No entry comes twice.
abbrev pub Distinct : List (List ℕ) → Type 0
Distinct [] = Unit {0}
Distinct (x ∷ xs) = All (λ y. y ≢ x) xs × Distinct xs

next_us-bounds :
    (last ns n : ℕ)
    → last + suc n < 2 ^ 63
    → suc n < 2 ^ 62
    → ns < u64_mod
    → (last < next_us last ns) × (next_us last ns + n < 2 ^ 63)
next_us-bounds last ns n h k less = ground arith

module _ (H : Hex) where
  length-digits : (n us : ℕ) → length (digits H n us) ≡ n
  length-digits zero us = refl
  length-digits (suc n) us = ap suc (length-digits n us)

  digits-inj : (n a b : ℕ) → shift n a ≡ shift n b → digits H n a ≡ digits H n b → a ≡ b
  digits-inj zero a b e d = e
  digits-inj (suc n) a b e d =
      let same =
        H.hexchar-inj (shift n a % 16) (shift n b % 16) (omega arith) (omega arith)
          (ap (head_or 0) d) in
      digits-inj n a b (omega (arith, e, same)) (ap tail_of d)

  utime_to_str-inj :
      (a b : ℕ) → a < u64_mod → b < u64_mod → utime_to_str H a ≡ utime_to_str H b → a ≡ b
  unfolding utime_to_str
  utime_to_str-inj a b less_a less_b e =
      let n = count_digits 16 0 a in
      let m = count_digits 16 0 b in
      let same : n ≡ m = sym (length-digits n a) ∙ ap length e ∙ length-digits m b in
      let end_a = shift-count_digits 16 0 a 16 (omega arith) (shift_word a less_a) in
      let end_b = shift-count_digits 16 0 b 16 (omega arith) (shift_word b less_b) in
      digits-inj n a b (end_a ∙ sym (subst (λ k. shift k b ≡ 0) (sym same) end_b))
        (e ∙ ap (λ k. digits H k b) (sym same))

  session_name-inj :
      (ip : List ℕ) (a b : ℕ)
      → a < u64_mod
      → b < u64_mod
      → session_name H ip a ≡ session_name H ip b
      → a ≡ b
  session_name-inj [] a b la lb e = utime_to_str-inj a b la lb (ap tail_of e)
  session_name-inj (x ∷ ip) a b la lb e = session_name-inj ip a b la lb (ap tail_of e)

  -- A name given out for a later time than `us`.
  abbrev Later : List ℕ → ℕ → List ℕ → Type 0
  Later ip us name = (u : ℕ) × (us < u) × (u < u64_mod) × (name ≡ session_name H ip u)

  Later-trans :
      (ip : List ℕ) (us vs : ℕ) (names : List (List ℕ))
      → us < vs
      → All (Later ip vs) names
      → All (Later ip us) names
  Later-trans ip us vs [] h k = tt
  Later-trans ip us vs (x ∷ names) h (k, ks) =
      ((k.0, omega (arith, h, k.1), k.2, k.3), Later-trans ip us vs names h ks)

  make_sessions-Later :
      (ip : List ℕ) (last : ℕ) (stamps : List ℕ)
      → Clocks last stamps
      → All (Later ip last) (make_sessions H ip last stamps)
  unfolding make_session
  make_sessions-Later ip last [] k = tt
  make_sessions-Later ip last (ns ∷ stamps) k =
      let us = next_us last ns in
      let (above, fits) = next_us-bounds last ns (length stamps) k.0 k.1.0 k.1.1.0 in
      (
        (us, above, omega (arith, fits), refl),
        Later-trans ip last us _ above
            (make_sessions-Later ip us stamps (fits, (omega (arith, k.1.0), k.1.1.1))),
      )

  Later-ne :
      (ip : List ℕ) (us : ℕ) (names : List (List ℕ))
      → us < u64_mod
      → All (Later ip us) names
      → All (λ name. name ≢ session_name H ip us) names
  Later-ne ip us [] h k = tt
  Later-ne ip us (x ∷ names) h (k, ks) = (
    λ e.
        let same : k.0 ≡ us = session_name-inj ip k.0 us k.2 h (sym k.3 ∙ e) in
        absurd (omega (arith, same, k.1)),
    Later-ne ip us names h ks,
  )

  -- The names that a host gives out, each for a clock of 64 bits, are pairwise different, also when the
  -- clock stands still or goes back, as long as the last time and the number of names are small
  -- enough for their words.
  pub make_sessions-Distinct :
      (ip : List ℕ) (last : ℕ) (stamps : List ℕ)
      → Clocks last stamps
      → Distinct (make_sessions H ip last stamps)
  unfolding make_session
  make_sessions-Distinct ip last [] k = tt
  make_sessions-Distinct ip last (ns ∷ stamps) k =
      let us = next_us last ns in
      let (above, fits) = next_us-bounds last ns (length stamps) k.0 k.1.0 k.1.1.0 in
      let rest : Clocks us stamps = (fits, (omega (arith, k.1.0), k.1.1.1)) in
      (
        Later-ne ip us _ (omega (arith, fits)) (make_sessions-Later ip us stamps rest),
        make_sessions-Distinct ip us stamps rest,
      )

  -- Addresses of as many bytes have different hexadecimal names when they differ.
  pub ip4_hex_string-inj :
      (a b : List ℕ)
      → All (λ q. q < 256) a
      → All (λ q. q < 256) b
      → length a ≡ length b
      → ip4_hex_string H a ≡ ip4_hex_string H b
      → a ≡ b
  unfolding ip4_hex_string
  ip4_hex_string-inj [] [] ka kb len e = refl
  ip4_hex_string-inj [] (y ∷ b) ka kb len e = absurd (omega (arith, len))
  ip4_hex_string-inj (x ∷ a) [] ka kb len e = absurd (omega (arith, len))
  ip4_hex_string-inj (x ∷ a) (y ∷ b) ka kb len e =
      let high =
        H.hexchar-inj (x / 16 % 16) (y / 16 % 16) (omega arith) (omega arith) (ap (head_or 0) e) in
      let low =
        H.hexchar-inj (x % 16) (y % 16) (omega arith) (omega arith)
          (ap (head_or 0) (ap tail_of e)) in
      let same : x ≡ y = omega (arith, high, low, ka.0, kb.0) in
      ap₂ ◌∷◌ same
        (ip4_hex_string-inj a b ka.1 kb.1 (omega (arith, len)) (ap tail_of (ap tail_of e)))
