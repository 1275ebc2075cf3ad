-- ===== src/Host/Mcast/Tests.antt =====
-- A host with one interface, and a resolver that knows three addresses.
use sassrv.Base.{
  ℕ, ◌≡◌, ◌≢◌, ◌≤◌, ◌↔◌, refl, List, [], ◌∷◌, none, some, true, false, Bool, not, ◌&&◌, ◌==◌,
  if◌then◌else◌, arith, All, length,
}
use sassrv.Host.Services.{same_bytes}
use sassrv.Host.Mcast.{
  System, AddrInfo, ok, network_not_found, parse_network, host_ip4, scan_dev_ip4, lookup_dev_ip4,
  recv_hosts, send_host, is_unknown,
}
use sassrv.Host.Mcast.Laws.{parse_network-recv_cnt, parse_network-ok}
use sassrv.Host.Mcast.Split.{recv_list, is_empty_string, split_network, copied, max_recv_mcast}
use sassrv.Host.Mcast.Split.Print.{Without, print_network, split_network-print_network}

-- The strings eth0, 228.8.8.8, 226.6.6.6 and 224.4.4.4.
abbrev eth0 : List ℕ
eth0 = 101 ∷ 116 ∷ 104 ∷ 48 ∷ []

abbrev recv_a : List ℕ
recv_a = 50 ∷ 50 ∷ 56 ∷ 46 ∷ 56 ∷ 46 ∷ 56 ∷ 46 ∷ 56 ∷ []

abbrev recv_b : List ℕ
recv_b = 50 ∷ 50 ∷ 54 ∷ 46 ∷ 54 ∷ 46 ∷ 54 ∷ 46 ∷ 54 ∷ []

abbrev send_a : List ℕ
send_a = 50 ∷ 50 ∷ 52 ∷ 46 ∷ 52 ∷ 46 ∷ 52 ∷ 46 ∷ 52 ∷ []

abbrev inet : ℕ → List AddrInfo
inet ip = record { ai_family = 2; ai_addrlen = 16; s_addr = ip } ∷ []

abbrev resolve : List ℕ → List AddrInfo
resolve s =
    if same_bytes s recv_a
    then inet 3825731592
    else (if same_bytes s recv_b
        then inet 3792045574
        else (if same_bytes s send_a then inet 3758359556 else []))

abbrev system : System
system = record {
  get_address = resolve;
  interfaces = some (
      record { ifr_addr = 2130706433; ifr_netmask = some 4278190080 }
      ∷ record { ifr_addr = 168035350; ifr_netmask = some 4294901760 }
      ∷ []);
  dev_addr = λ s. if same_bytes s eth0 then some (2, 168035350) else none;
  dev_netmask = λ s. some 4294901760;
  gethostname = some eth0;
}

abbrev network : List ℕ
network = print_network eth0 recv_a (recv_b ∷ []) send_a

read_network : parse_network system network ≡ (
  ok,
  record {
    host_ip = 168035350;
    netmask = 4294901760;
    send_ip = 3758359556;
    recv_ip = 3825731592 ∷ 3792045574 ∷ [];
    recv_cnt = 2;
    fake_ip = 0;
  },
)
unfolding parse_network split_network host_ip4 lookup_dev_ip4 recv_list is_empty_string
read_network = refl

-- The loopback interface is scanned first, and does not stay.
scanned : scan_dev_ip4 system ≡ (168035350, 4294901760)
unfolding scan_dev_ip4
scanned = refl

not_found :
    (parse_network system (print_network eth0 recv_a (eth0 ∷ []) send_a)).0 ≡ network_not_found
unfolding parse_network split_network host_ip4 lookup_dev_ip4 recv_list is_empty_string
not_found = refl

parse_network-recv_cnt_example :
    let mc = (parse_network system network).1 in
    (mc.recv_cnt ≡ length mc.recv_ip) × ((1 ≤ mc.recv_cnt) × (mc.recv_cnt ≤ max_recv_mcast))
parse_network-recv_cnt_example = parse_network-recv_cnt system network

parse_network-ok_example :
    let p = split_network (copied network) in
    ((parse_network system network).0 ≡ ok) ↔ (
      ((parse_network system network).1.host_ip ≢ 0)
      × ((is_unknown system (send_host p) ≡ false)
          × All (λ h. is_unknown system h ≡ false) (recv_hosts p)))
parse_network-ok_example = parse_network-ok system network

network_short : length network ≤ 4095
network_short = omega arith

abbrev has_none : ℕ → List ℕ → Bool
has_none c [] = true
has_none c (x ∷ s) = not (x == c) && has_none c s

without : (c : ℕ) (s : List ℕ) → has_none c s ≡ true → Without c s
without c [] h = tt
without c (x ∷ s) h = (ground (arith, h), without c s (ground (arith, h)))

split_network-print_network_example :
    split_network (copied network)
    ≡ record { net_part = eth0; recv_part = recv_a ∷ recv_b ∷ []; send_part = some send_a }
split_network-print_network_example =
    split_network-print_network eth0 recv_a (recv_b ∷ []) send_a network_short
      (without 0 network refl) refl (without 59 eth0 refl)
      (without 59 recv_a refl, (without 59 recv_b refl, tt))
      (without 44 recv_a refl, (without 44 recv_b refl, tt)) (omega arith)
