-- ===== src/Monitor/Ids.antt =====
-- The advisory subjects and the names in them: the table `rv_info_sub`, `match_rv_info`, `hexval`,
-- `string_to_host_id`, `string_to_cid`, `host_id_to_string` and `inbox_session_len` of
-- src/submgr.cpp.
pub mod Laws
pub mod Kinds
mod Tests
use sassrv.Base.{
  ℕ, zero, suc, ◌+◌, ◌-◌, ◌*◌, ◌/◌, ◌%◌, Bool, ◌&&◌, List, [], ◌∷◌, length, ltb, leb, ◌==◌, get_or,
  Option, none, some, if◌then◌else◌, drop,
}
use sassrv.Host.Session.{Hex}

-- `SubKind`
pub data SubKind : Type 0 where
  is_host_status is_host_start is_host_stop is_unreachable is_session_start is_session_stop
        is_listen_start is_listen_stop is_snap is_sass is_tic_reply :
      SubKind

-- `_RV.INFO.SYSTEM.`
abbrev pub info_system : List ℕ → List ℕ
info_system rest =
    95 ∷ 82 ∷ 86 ∷ 46 ∷ 73 ∷ 78 ∷ 70 ∷ 79 ∷ 46 ∷ 83 ∷ 89 ∷ 83 ∷ 84 ∷ 69 ∷ 77 ∷ 46 ∷ rest

-- The subject of a kind, up to and with the dot before its `>`.
abbrev pub prefix_of : SubKind → List ℕ
prefix_of is_host_status =
    info_system (72 ∷ 79 ∷ 83 ∷ 84 ∷ 46 ∷ 83 ∷ 84 ∷ 65 ∷ 84 ∷ 85 ∷ 83 ∷ 46 ∷ [])
prefix_of is_host_start = info_system (72 ∷ 79 ∷ 83 ∷ 84 ∷ 46 ∷ 83 ∷ 84 ∷ 65 ∷ 82 ∷ 84 ∷ 46 ∷ [])
prefix_of is_host_stop = info_system (72 ∷ 79 ∷ 83 ∷ 84 ∷ 46 ∷ 83 ∷ 84 ∷ 79 ∷ 80 ∷ 46 ∷ [])
prefix_of is_unreachable = info_system (
    85 ∷ 78 ∷ 82 ∷ 69 ∷ 65 ∷ 67 ∷ 72 ∷ 65 ∷ 66 ∷ 76 ∷ 69 ∷ 46 ∷ 84 ∷ 82 ∷ 65 ∷ 78 ∷ 83 ∷ 80 ∷ 79
    ∷ 82 ∷ 84 ∷ 46 ∷ [])
prefix_of is_session_start =
    info_system (83 ∷ 69 ∷ 83 ∷ 83 ∷ 73 ∷ 79 ∷ 78 ∷ 46 ∷ 83 ∷ 84 ∷ 65 ∷ 82 ∷ 84 ∷ 46 ∷ [])
prefix_of is_session_stop =
    info_system (83 ∷ 69 ∷ 83 ∷ 83 ∷ 73 ∷ 79 ∷ 78 ∷ 46 ∷ 83 ∷ 84 ∷ 79 ∷ 80 ∷ 46 ∷ [])
prefix_of is_listen_start =
    info_system (76 ∷ 73 ∷ 83 ∷ 84 ∷ 69 ∷ 78 ∷ 46 ∷ 83 ∷ 84 ∷ 65 ∷ 82 ∷ 84 ∷ 46 ∷ [])
prefix_of is_listen_stop =
    info_system (76 ∷ 73 ∷ 83 ∷ 84 ∷ 69 ∷ 78 ∷ 46 ∷ 83 ∷ 84 ∷ 79 ∷ 80 ∷ 46 ∷ [])
prefix_of is_snap = 95 ∷ 83 ∷ 78 ∷ 65 ∷ 80 ∷ 46 ∷ []
prefix_of is_sass = 95 ∷ 83 ∷ 65 ∷ 83 ∷ 83 ∷ 46 ∷ []
prefix_of is_tic_reply = 95 ∷ 84 ∷ 73 ∷ 67 ∷ 46 ∷ 82 ∷ 69 ∷ 80 ∷ 76 ∷ 89 ∷ 46 ∷ []

-- `rv_info_sub`
abbrev pub rv_info_sub : List SubKind
rv_info_sub =
    is_host_status ∷ is_host_start ∷ is_host_stop ∷ is_unreachable ∷ is_session_start
    ∷ is_session_stop ∷ is_listen_start ∷ is_listen_stop ∷ is_snap ∷ is_sass ∷ is_tic_reply ∷ []

-- The loop of `match_rv_info`, which compares downwards from `len`.
abbrev pub same_down : ℕ → List ℕ → List ℕ → Bool
same_down zero sub m = get_or sub 0 0 == get_or m 0 0
same_down (suc len) sub m =
    let rest = same_down len sub m in (get_or sub (suc len) 0 == get_or m (suc len) 0) && rest

-- `m->len` is one more than the prefix, and `m->len - 2` is the prefix's last byte.
abbrev pub is_kind : List ℕ → SubKind → Bool
is_kind sub k =
    ltb (suc (length (prefix_of k))) (length sub)
    && same_down (length (prefix_of k) - 1) sub (prefix_of k)

abbrev pub find_kind : List ℕ → List SubKind → Option SubKind
find_kind sub [] = none
find_kind sub (k ∷ ks) = let rest = find_kind sub ks in if is_kind sub k then some k else rest

unfoldable pub match_rv_info : List ℕ → Option SubKind
match_rv_info sub = find_kind sub rv_info_sub

abbrev pub hexval : ℕ → ℕ
hexval c =
    if leb 48 c && leb c 57
    then c - 48
    else (if leb 65 c && leb c 70
        then c - 65 + 10
        else (if leb 97 c && leb c 102 then c - 97 + 10 else 0))

-- `n` digits after those that are in `id`; a byte past the end of the string counts as no digit.
abbrev pub hex_digits : ℕ → ℕ → List ℕ → ℕ
hex_digits id zero str = id
hex_digits id (suc n) [] = hex_digits (id * 16) n []
hex_digits id (suc n) (c ∷ str) = hex_digits (id * 16 + hexval c) n str

unfoldable pub string_to_host_id : List ℕ → ℕ
string_to_host_id str = hex_digits 0 8 str

unfoldable pub string_to_cid : List ℕ → ℕ
string_to_cid str = hex_digits 0 4 str

module _ (H : Hex) where
  -- The digits are written from the right, in front of what is there.
  abbrev pub put_digits : ℕ → ℕ → List ℕ → List ℕ
  put_digits zero v str = str
  put_digits (suc n) v str = put_digits n (v / 16) (H.hexchar (v % 16) ∷ str)

  unfoldable pub host_id_to_string : ℕ → ℕ → List ℕ
  host_id_to_string host_id cid =
      put_digits 8 host_id (if cid == 0 then [] else 46 ∷ 85 ∷ put_digits 4 cid [])

-- The `cid` that `session_ref` and `process_pub2` read from a session's name when they have none.
unfoldable pub name_cid : ℕ → List ℕ → ℕ
unfolding string_to_cid
name_cid cid x =
    if (cid == 0) && ltb 14 (length x)
    then (if (get_or x 8 0 == 46) && ((get_or x 9 0 == 85) && (get_or x 14 0 == 46))
        then string_to_cid (drop 10 x)
        else cid)
    else cid

-- The bytes in front of the last dot, the dot left out, if there is one.
abbrev pub before_dot : ℕ → List ℕ → ℕ
before_dot zero rep = 0
before_dot (suc n) rep = let rest = before_dot n rep in if get_or rep n 0 == 46 then n else rest

-- The reply is `_INBOX.`, a session's name, a dot and a number.
unfoldable pub inbox_session_len : List ℕ → ℕ
inbox_session_len rep = if ltb 7 (length rep) then before_dot (length rep - 7) (drop 7 rep) else 0
