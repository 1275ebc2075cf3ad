-- ===== src/Host/Mcast/Split.antt =====
-- The parts of a network string, `network;mcast,mcast;sendmcast`: the first half of
-- `RvMcast::parse_network` of src/rv_host.cpp.
pub mod Print
use sassrv.Base.{
  ℕ, zero, suc, Bool, true, false, ◌||◌, ◌&&◌, List, [], ◌∷◌, ◌==◌, leb, take, Option, none, some,
  if◌then◌else◌,
}

-- `isspace` of the C locale.
abbrev pub is_space : ℕ → Bool
is_space c = (c == 32) || (leb 9 c && leb c 13)

abbrev pub skip_space : List ℕ → List ℕ
skip_space [] = []
skip_space (c ∷ s) = let rest = skip_space s in if is_space c then rest else c ∷ s

-- `is_empty_string` of a string that is there.
unfoldable pub is_empty_string : List ℕ → Bool
is_empty_string s = elim (skip_space s) [ [] ↦ true | c ∷ rest ↦ false ]

-- A string up to the first `c`, and what follows it: `strchr`, and the write of a 0 over `c`.
abbrev pub cut : ℕ → List ℕ → List ℕ × Option (List ℕ)
cut c [] = ([], none)
cut c (x ∷ s) = let rest = cut c s in if x == c then ([], some s) else (x ∷ rest.0, rest.1)

abbrev pub max_recv_mcast : ℕ
max_recv_mcast = 59

-- What `tmp_buf` holds, up to its first 0.
abbrev pub copied : List ℕ → List ℕ
copied network = (cut 0 (take 4095 network)).0

-- A list of addresses, where there is room for `room` more than the first; the last one keeps the
-- commas that are left.
unfoldable pub recv_list : ℕ → List ℕ → List (List ℕ)
recv_list zero s = s ∷ []
recv_list (suc room) s = elim (cut 44 s).1 [
  | none ↦ s ∷ []
  | some rest ↦ (cut 44 s).0 ∷ recv_list room rest
]

pub record Parts : Type 0 where
  pub net_part : List ℕ
  pub recv_part : List (List ℕ)
  pub send_part : Option (List ℕ)

abbrev pub after_net : List ℕ → Option (List ℕ) → Parts
after_net net none = record { net_part = net; recv_part = []; send_part = none }
after_net net (some rest) = record {
  net_part = net;
  recv_part = recv_list 58 (cut 59 rest).0;
  send_part = (cut 59 rest).1;
}

unfoldable pub split_network : List ℕ → Parts
split_network s = let net = cut 59 (skip_space s) in after_net net.0 net.1
