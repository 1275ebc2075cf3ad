-- ===== src/Monitor/Db/Digest.antt =====
-- The digest of a host's subscriptions: `host_digest` of src/submgr.cpp.
use sassrv.Base.{
  ℕ, ◌+◌, ◌-◌, ◌/◌, ◌%◌, ◌^◌, ◌<◌, zero, suc, true, false, List, [], ◌∷◌, length, ltb, ◌≡◌, refl,
  sym, ap, ap₂, ◌∙◌, if◌then◌else◌, Option, none, some, get_or, set, arith, xor_bits, add32,
  u32_mod, length-set, get_or-set_self, Bool-cases, inl, inr, ltb→lt, ◌≢◌,
}
use mathlib.Core.Path.{subst}
use mathlib.Core.Option.{some-injective}
use sassrv.Monitor.Entry.{SessionEntry, HostEntry}
use sassrv.Monitor.Db.{
  Env, Db, host_at, put_host, no_host_entry, host_index, find_host, pair_hash, is_hidden,
  count_pair, count_at, host_digest,
}

xor_bits_twice : (w a b : ℕ) → a < 2 ^ w → xor_bits w (xor_bits w a b) b ≡ a
xor_bits_twice zero a b h = omega arith
xor_bits_twice (suc w) a b h =
    let low : xor_bits (suc w) a b % 2 ≡ (a % 2 + b % 2) % 2 = omega arith in
    let high : xor_bits (suc w) a b / 2 ≡ xor_bits w (a / 2) (b / 2) = omega arith in
    let rest : xor_bits w (xor_bits (suc w) a b / 2) (b / 2) ≡ a / 2 =
      ap (λ x. xor_bits w x (b / 2)) high ∙ xor_bits_twice w (a / 2) (b / 2) (omega arith) in
    omega (arith, low, rest)

set-twice : (tab : List HostEntry) (i : ℕ) (x y : HostEntry) → set (set tab i x) i y ≡ set tab i y
set-twice [] i x y = refl
set-twice (h ∷ tab) zero x y = refl
set-twice (h ∷ tab) (suc i) x y = ap (◌∷◌ h) (set-twice tab i x y)

set_self : (tab : List HostEntry) (i : ℕ) (d : HostEntry) → set tab i (get_or tab i d) ≡ tab
set_self [] i d = refl
set_self (h ∷ tab) zero d = refl
set_self (h ∷ tab) (suc i) d = ap (◌∷◌ h) (set_self tab i d)

none_not_some : (i : ℕ) → none ≢ some i
none_not_some i e = cc

module _ (E : Env) where
  -- The counts of a host that fit their words, one more pair with them.
  abbrev pub HasCounts : HostEntry → Type 0
  HasCounts host = (host.sub_count + 1 < u32_mod) × (host.sub_digest < u32_mod)

  count_pair_twice :
      (hash : ℕ) (host : HostEntry)
      → HasCounts host
      → count_pair E false hash (count_pair E true hash host) ≡ host
  count_pair_twice hash host h =
      let more : add32 host.sub_count 1 ≡ host.sub_count + 1 = omega (arith, h.0) in
      let count : (if ltb 0 (add32 host.sub_count 1)
            then add32 host.sub_count 1 - 1
            else add32 host.sub_count 1)
          ≡ host.sub_count =
        ground (arith, more) in
      ap₂ (λ c d. record host { sub_count = c; sub_digest = d }) count
        (xor_bits_twice 32 host.sub_digest hash h.1)

  -- The index that `find_host` gives is one of the table.
  in_range :
      (o : Option ℕ) (n i : ℕ)
      → (elim o as (λ _. Option ℕ) [ none ↦ none | some j ↦ (if ltb j n then some j else none) ])
        ≡ some i
      → i < n
  in_range none n i e = absurd (none_not_some i e)
  in_range (some j) n i e = elim (Bool-cases (ltb j n)) [
    | inl t ↦
        subst (λ x. x < n) (some-injective _ _ (sym (ap (λ b. if b then some j else none) t) ∙ e))
          (ltb→lt j n t)
    | inr t ↦ absurd (none_not_some i (sym (ap (λ b. if b then some j else none) t) ∙ e))
  ]

  count_at_twice :
      (sess : SessionEntry) (value : List ℕ) (db : Db) (o : Option ℕ)
      → find_host E sess.host_id sess.cid db ≡ o
      → ((i : ℕ) → find_host E sess.host_id sess.cid db ≡ some i → HasCounts (host_at db i))
      → count_at E sess value false
          (find_host E sess.host_id sess.cid (count_at E sess value true o db))
          (count_at E sess value true o db)
        ≡ db
  count_at_twice sess value db none e h = ap (λ o. count_at E sess value false o db) e
  count_at_twice sess value db (some i) e h =
      let hash = pair_hash E sess.value value in
      let new = count_pair E true hash (host_at db i) in
      let db1 = put_host i new db in
      let still : find_host E sess.host_id sess.cid db1 ≡ some i =
        ap
          (λ n. elim (host_index E sess.host_id sess.cid db) as (λ _. Option ℕ) [
            | none ↦ none
            | some j ↦ (if ltb j n then some j else none)
          ])
          (length-set db.host_tab i new)
        ∙ e in
      let range : i < length db.host_tab =
        in_range (host_index E sess.host_id sess.cid db) (length db.host_tab) i e in
      let back : count_pair E false hash (host_at db1 i) ≡ host_at db i =
        ap (count_pair E false hash) (get_or-set_self db.host_tab i new no_host_entry range)
        ∙ count_pair_twice hash (host_at db i) (h i e) in
      ap (λ o. count_at E sess value false o db1) still
      ∙ ap (λ x. record db { host_tab = x })
          (ap (set (set db.host_tab i new) i) back
            ∙ set-twice db.host_tab i new (host_at db i)
            ∙ set_self db.host_tab i no_host_entry)

  -- A pair that is added and removed again leaves the state as it was: the count and the digest of
  -- its host are what they were, where they fit their words.
  pub host_digest_twice :
      (sess : SessionEntry) (value : List ℕ) (db : Db)
      → ((i : ℕ) → find_host E sess.host_id sess.cid db ≡ some i → HasCounts (host_at db i))
      → host_digest E sess value false (host_digest E sess value true db) ≡ db
  unfolding host_digest
  host_digest_twice sess value db h = elim (Bool-cases (is_hidden E value)) [
    | inl t ↦
        ap
          (λ b.
            if b
            then first
            else count_at E sess value false (find_host E sess.host_id sess.cid first) first)
          t
        ∙ ap
            (λ b.
              if b
              then db
              else count_at E sess value true (find_host E sess.host_id sess.cid db) db)
            t
    | inr t ↦
        let once : first ≡ count_at E sess value true (find_host E sess.host_id sess.cid db) db =
          ap
            (λ b.
              if b
              then db
              else count_at E sess value true (find_host E sess.host_id sess.cid db) db)
            t in
        ap
          (λ b.
            if b
            then first
            else count_at E sess value false (find_host E sess.host_id sess.cid first) first)
          t
        ∙ ap (λ d. count_at E sess value false (find_host E sess.host_id sess.cid d) d) once
        ∙ count_at_twice sess value db (find_host E sess.host_id sess.cid db) refl h
  ]
    where
      first : Db
      first = host_digest E sess value true db
