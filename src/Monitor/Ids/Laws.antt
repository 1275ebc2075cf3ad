-- ===== src/Monitor/Ids/Laws.antt =====
-- The advisory subjects do not overlap, and the names hold the identifiers that are written into them.
use sassrv.Base.{
  ℕ, zero, suc, ◌+◌, ◌/◌, ◌%◌, ◌^◌, ◌<◌, List, [], ◌∷◌, ◌++◌, length, ◌==◌, get_or, if◌then◌else◌,
  drop, ◌≡◌, refl, sym, ap, ◌∙◌, ◌≢◌, arith, ne→==, ==→eq, ==→ne, Bool-cases, All, inl, inr,
  length-append, drop-append,
}
use mathlib.Core.Path.{subst}
use sassrv.Host.Session.{Hex}
use sassrv.Monitor.Ids.{
  hexval, hex_digits, string_to_host_id, string_to_cid, put_digits, host_id_to_string, name_cid,
  before_dot, inbox_session_len,
}

module _ (H : Hex) (digit : (n : ℕ) → n < 16 → hexval (H.hexchar n) ≡ n) where
  hex_digits-put :
      (n m k v : ℕ) (str : List ℕ)
      → k ≡ n + m
      → v < 16 ^ n
      → hex_digits 0 k (put_digits H n v str) ≡ hex_digits v m str
  hex_digits-put zero m k v str e h =
      let none_left : 0 ≡ v = omega arith in
      let rest : k ≡ m = omega arith in
      ap (λ x. hex_digits x k str) none_left ∙ ap (λ y. hex_digits v y str) rest
  hex_digits-put (suc n) m k v str e h =
      hex_digits-put n (suc m) k (v / 16) (H.hexchar (v % 16) ∷ str) (omega arith) (omega arith)
      ∙ ap (λ x. hex_digits x m str) (omega (arith, digit (v % 16) (omega arith)))

  hex_digits-put_all :
      (n v : ℕ) (str : List ℕ) → v < 16 ^ n → hex_digits 0 n (put_digits H n v str) ≡ v
  hex_digits-put_all n v str h = hex_digits-put n 0 n v str (omega arith) h

  name_cid-parsed :
      (host_id cid : ℕ) (rest : List ℕ)
      → cid < 2 ^ 16
      → name_cid 0 (put_digits H 8 host_id (46 ∷ 85 ∷ put_digits H 4 cid []) ++ 46 ∷ rest) ≡ cid
  unfolding name_cid string_to_cid
  name_cid-parsed host_id cid rest k = ground (arith, hex_digits-put_all 4 cid [] k)

  -- The name of a session of a host gives the host's address back, and the client's number, if the
  -- name has one.
  pub string_to_host_id-host_id_to_string :
      (host_id cid : ℕ) (rest : List ℕ)
      → host_id < 2 ^ 32
      → cid < 2 ^ 16
      → (string_to_host_id (host_id_to_string H host_id cid ++ 46 ∷ rest) ≡ host_id)
        × (cid ≢ 0 → name_cid 0 (host_id_to_string H host_id cid ++ 46 ∷ rest) ≡ cid)
  unfolding host_id_to_string string_to_host_id
  string_to_host_id-host_id_to_string host_id cid rest h k = (
    hex_digits-put_all 8 host_id [] h,
    λ ne.
        subst
          (λ b.
            name_cid 0 (
              put_digits H 8 host_id (if b then [] else 46 ∷ 85 ∷ put_digits H 4 cid [])
              ++ 46 ∷ rest)
            ≡ cid)
          (sym (ne→== cid 0 ne)) (name_cid-parsed host_id cid rest k),
  )

before_dot-last :
    (k p : ℕ) (s : List ℕ)
    → p < k
    → get_or s p 0 ≡ 46
    → ((i : ℕ) → p < i → i < k → get_or s i 0 ≢ 46)
    → before_dot k s ≡ p
before_dot-last zero p s h dot after = absurd (omega arith)
before_dot-last (suc k) p s h dot after = elim (Bool-cases (k == p)) [
  | inl e ↦ ground (arith, ==→eq k p e)
  | inr e ↦
      let ne = ==→ne k p e in
      ground (
        arith,
        after k (omega arith) (omega arith),
        before_dot-last k p s (omega arith) dot (λ i b c. after i b (omega arith)),
      )
]

get_or-number : (number : List ℕ) (i : ℕ) → All (λ c. c ≢ 46) number → get_or number i 0 ≢ 46
get_or-number [] i h = λ e. omega arith
get_or-number (c ∷ number) zero h = h.0
get_or-number (c ∷ number) (suc i) h = get_or-number number i h.1

get_or-end :
    (rep number : List ℕ) (i : ℕ)
    → All (λ c. c ≢ 46) number
    → length rep < i
    → get_or (rep ++ 46 ∷ number) i 0 ≢ 46
get_or-end [] number zero h k = absurd (omega arith)
get_or-end [] number (suc i) h k = get_or-number number i h
get_or-end (c ∷ rep) number zero h k = absurd (omega arith)
get_or-end (c ∷ rep) number (suc i) h k = get_or-end rep number i h (omega arith)

get_or-dot : (rep number : List ℕ) → get_or (rep ++ 46 ∷ number) (length rep) 0 ≡ 46
get_or-dot [] number = refl
get_or-dot (c ∷ rep) number = get_or-dot rep number

-- In an inbox `_INBOX.<session>.<number>` the session is found, whatever dots it has.
pub inbox_session_len_lem :
    (start rep number : List ℕ)
    → length start ≡ 7
    → All (λ c. c ≢ 46) number
    → inbox_session_len (start ++ (rep ++ 46 ∷ number)) ≡ length rep
unfolding inbox_session_len
inbox_session_len_lem start rep number h e =
    let body = rep ++ 46 ∷ number in
    let dropped : drop 7 (start ++ body) ≡ body =
      subst (λ n. drop n (start ++ body) ≡ body) h (drop-append start body) in
    let all : length (start ++ body) ≡ 7 + length body =
      length-append start body ∙ ap (λ n. n + length body) h in
    let some_rest : length body ≡ suc (length rep + length number) =
      length-append rep (46 ∷ number) ∙ omega arith in
    let found =
      before_dot-last (length body) (length rep) body (omega arith) (get_or-dot rep number)
        (λ i b c. get_or-end rep number i e b) in
    ground (arith, dropped, all, some_rest, found)
