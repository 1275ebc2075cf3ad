-- ===== src/Monitor/Ids/Tests.antt =====
-- Names and advisories.
use sassrv.Base.{
  ℕ, ◌+◌, ◌<◌, ◌≡◌, ◌≢◌, ◌↔◌, refl, [], ◌∷◌, ◌++◌, none, some, ltb, if◌then◌else◌, arith,
}
use sassrv.Host.Session.{Hex}
use sassrv.Monitor.Ids.{
  hexval, string_to_host_id, host_id_to_string, name_cid, inbox_session_len, match_rv_info, is_snap,
}
use sassrv.Monitor.Ids.Laws.{string_to_host_id-host_id_to_string, inbox_session_len_lem}
use sassrv.Monitor.Ids.Kinds.{IsOfKind, match_rv_info_lem}

abbrev hex_digit : ℕ → ℕ
hex_digit a = if ltb a 10 then 48 + a else 55 + a

hex_digit-inj : (a b : ℕ) → a < 16 → b < 16 → hex_digit a ≡ hex_digit b → a ≡ b
hex_digit-inj a b ha hb e = ground arith

abbrev hex : Hex
hex = record { hexchar = hex_digit; hexchar-inj = hex_digit-inj }

hexval-hex_digit : (n : ℕ) → n < 16 → hexval (hex_digit n) ≡ n
hexval-hex_digit n h = ground arith

abbrev client : ℕ
client = 7

-- 10.4.4.22 with the client 7, "0A040416.U0007.DAEMON" in full.
string_to_host_id-host_id_to_string_example :
    (string_to_host_id (host_id_to_string hex 168035350 client ++ 46 ∷ 68 ∷ 65 ∷ []) ≡ 168035350)
    × (client ≢ 0
        → name_cid 0 (host_id_to_string hex 168035350 client ++ 46 ∷ 68 ∷ 65 ∷ []) ≡ client)
string_to_host_id-host_id_to_string_example =
    string_to_host_id-host_id_to_string hex hexval-hex_digit 168035350 client (68 ∷ 65 ∷ [])
      (omega arith) (omega arith)

-- "_INBOX.AB.C.12"
inbox_session_len_lem_example :
    inbox_session_len
      ((95 ∷ 73 ∷ 78 ∷ 66 ∷ 79 ∷ 88 ∷ 46 ∷ []) ++ ((65 ∷ 66 ∷ 46 ∷ 67 ∷ []) ++ 46 ∷ 49 ∷ 50 ∷ []))
    ≡ 4
inbox_session_len_lem_example =
    inbox_session_len_lem (95 ∷ 73 ∷ 78 ∷ 66 ∷ 79 ∷ 88 ∷ 46 ∷ []) (65 ∷ 66 ∷ 46 ∷ 67 ∷ [])
      (49 ∷ 50 ∷ []) refl ((λ e. omega arith), ((λ e. omega arith), tt))

-- "_SNAP.AB" is of a kind, "_SNAP.A" is not.
snap_matches : match_rv_info (95 ∷ 83 ∷ 78 ∷ 65 ∷ 80 ∷ 46 ∷ 65 ∷ 66 ∷ []) ≡ some is_snap
unfolding match_rv_info
snap_matches = refl

short_snap : match_rv_info (95 ∷ 83 ∷ 78 ∷ 65 ∷ 80 ∷ 46 ∷ 65 ∷ []) ≡ none
unfolding match_rv_info
short_snap = refl

match_rv_info_lem_example :
    (match_rv_info (95 ∷ 83 ∷ 78 ∷ 65 ∷ 80 ∷ 46 ∷ 65 ∷ []) ≡ some is_snap)
    ↔ IsOfKind is_snap (95 ∷ 83 ∷ 78 ∷ 65 ∷ 80 ∷ 46 ∷ 65 ∷ [])
match_rv_info_lem_example = match_rv_info_lem is_snap (95 ∷ 83 ∷ 78 ∷ 65 ∷ 80 ∷ 46 ∷ 65 ∷ [])
