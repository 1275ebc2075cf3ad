-- ===== src/Host/Mcast.antt =====
-- The addresses of a network string: `RvMcast` of include/sassrv/rv_host.h and src/rv_host.cpp, as on
-- Linux.
pub mod Split
pub mod Laws
mod Tests
use sassrv.Base.{
  ℕ, ◌*◌, Bool, not, ◌&&◌, ◌||◌, List, [], ◌∷◌, ◌==◌, ltb, length, map, Option, none, some,
  if◌then◌else◌, and32,
}
use sassrv.Host.Services.{same_bytes}
use sassrv.Host.Mcast.Split.{is_empty_string, Parts, split_network, copied}

-- `RvHostError`.
pub data RvHostError : Type 0 where
  ok gethostname_failed no_interface_found hostname_not_found same_svc_two_nets network_not_found
        bad_service_num bad_parameters start_host_failed :
      RvHostError

-- An entry of a resolver's answer: its family, its `ai_addrlen` and its address. An address is the
-- number that `ntohl` gives.
pub record AddrInfo : Type 0 where
  pub ai_family : ℕ
  pub ai_addrlen : ℕ
  pub s_addr : ℕ

-- An entry of SIOCGIFCONF, with what SIOCGIFNETMASK answers for it.
pub record Interface : Type 0 where
  pub ifr_addr : ℕ
  pub ifr_netmask : Option ℕ

-- What the operating system and the resolver answer.
pub record System : Type 0 where
  -- `CaresAddrInfo::get_address`, for IPv4.
  pub get_address : List ℕ → List AddrInfo
  -- SIOCGIFCONF, none where it fails.
  pub interfaces : Option (List Interface)
  -- SIOCGIFADDR, with the family, and SIOCGIFNETMASK of a device.
  pub dev_addr : List ℕ → Option (ℕ × ℕ)
  pub dev_netmask : List ℕ → Option ℕ
  pub gethostname : Option (List ℕ)

abbrev pub af_inet : ℕ
af_inet = 2

abbrev pub sockaddr_in_size : ℕ
sockaddr_in_size = 16

abbrev pub if_name_size : ℕ
if_name_size = 16

-- The string 0.0.0.0.
abbrev pub any_host : List ℕ
any_host = 48 ∷ 46 ∷ 48 ∷ 46 ∷ 48 ∷ 46 ∷ 48 ∷ []

-- `RvMcast`; of the array `recv_ip`, the entries that are set.
pub record RvMcast : Type 0 where
  pub host_ip : ℕ
  pub netmask : ℕ
  pub send_ip : ℕ
  pub recv_ip : List ℕ
  pub recv_cnt : ℕ
  pub fake_ip : ℕ

abbrev pub first_inet : List AddrInfo → ℕ
first_inet [] = 0
first_inet (res ∷ rest) =
    let later = first_inet rest in
    if (res.ai_family == af_inet) && not (ltb res.ai_addrlen sockaddr_in_size)
    then res.s_addr
    else later

-- The interface on the network of `ipaddr`: its address and its mask.
abbrev pub on_network : ℕ → List Interface → ℕ × ℕ
on_network ipaddr [] = (0, 0)
on_network ipaddr (ifp ∷ rest) =
    let later = on_network ipaddr rest in
    elim ifp.ifr_netmask [
      | none ↦ later
      | some mask ↦
          if and32 ifp.ifr_addr mask == and32 ipaddr mask then (ifp.ifr_addr, mask) else later
    ]

abbrev pub loopback : ℕ
loopback = 127 * 16777216

-- The address and the mask after an interface of the scan.
abbrev pub scan_step : ℕ × ℕ → Interface → ℕ × ℕ
scan_step got ifp = elim ifp.ifr_netmask [
  | none ↦ got
  | some mask ↦
      if not (ifp.ifr_addr == 0) && ((got.0 == 0) || (and32 got.1 got.0 == loopback))
      then (ifp.ifr_addr, mask)
      else got
]

abbrev pub scan_from : ℕ × ℕ → List Interface → ℕ × ℕ
scan_from got [] = got
scan_from got (ifp ∷ rest) = scan_from (scan_step got ifp) rest

abbrev pub mask_of : Option ℕ → ℕ
mask_of none = 0
mask_of (some mask) = mask

abbrev pub recv_hosts : Parts → List (List ℕ)
recv_hosts p = elim p.recv_part [
  | [] ↦ any_host ∷ []
  | first ∷ rest ↦ elim rest [
    | [] ↦ if is_empty_string first then any_host ∷ [] else first ∷ []
    | second ∷ more ↦ first ∷ second ∷ more
  ]
]

abbrev pub first_host : List (List ℕ) → List ℕ
first_host [] = []
first_host (host ∷ rest) = host

abbrev pub send_host : Parts → List ℕ
send_host p = elim p.send_part [
  | none ↦ first_host (recv_hosts p)
  | some send ↦ if is_empty_string send then first_host (recv_hosts p) else send
]

abbrev pub check_interface : RvHostError → ℕ → RvHostError
check_interface ok ip = if ip == 0 then no_interface_found else ok
check_interface status ip = status

module _ (S : System) where
  -- `lookup_host_ip4( host )`.
  unfoldable pub host_ip4 : List ℕ → ℕ
  host_ip4 host = first_inet (S.get_address host)

  -- `lookup_host_ip4( host, netmask )`: the address and the mask.
  unfoldable pub lookup_host_ip4 : List ℕ → ℕ × ℕ
  lookup_host_ip4 host =
      let ipaddr = host_ip4 host in
      if ipaddr == 0
      then (0, 0)
      else (elim S.interfaces [ none ↦ (0, 0) | some tab ↦ on_network ipaddr tab ])

  unfoldable pub scan_dev_ip4 : ℕ × ℕ
  scan_dev_ip4 = elim S.interfaces [ none ↦ (0, 0) | some tab ↦ scan_from (0, 0) tab ]

  abbrev pub dev_answer : List ℕ → Option (ℕ × ℕ) → ℕ × ℕ
  dev_answer dev none = (0, 0)
  dev_answer dev (some (family, ipaddr)) =
      if family == af_inet then (ipaddr, mask_of (S.dev_netmask dev)) else (0, 0)

  unfoldable pub lookup_dev_ip4 : List ℕ → ℕ × ℕ
  lookup_dev_ip4 dev =
      if ltb (length dev) if_name_size then dev_answer dev (S.dev_addr dev) else (0, 0)

  abbrev pub is_unknown : List ℕ → Bool
  is_unknown host = (host_ip4 host == 0) && not (same_bytes host any_host)

  -- The status after the loop over the receive addresses.
  abbrev pub any_unknown : List (List ℕ) → RvHostError → RvHostError
  any_unknown [] status = status
  any_unknown (host ∷ rest) status =
      any_unknown rest (if is_unknown host then network_not_found else status)

  -- The address where the string names no network.
  abbrev pub own_address : RvHostError → Option (List ℕ) → RvHostError × (ℕ × ℕ)
  own_address status none = (gethostname_failed, (0, 0))
  own_address status (some host) =
      let found = lookup_host_ip4 host in (status, if found.0 == 0 then scan_dev_ip4 else found)

  abbrev pub net_address : RvHostError → List ℕ → RvHostError × (ℕ × ℕ)
  net_address status net =
      if is_empty_string net
      then own_address status S.gethostname
      else (let found = lookup_dev_ip4 net in
          (status, if found.0 == 0 then lookup_host_ip4 net else found))

  abbrev pub parse_parts : Parts → RvHostError × RvMcast
  parse_parts p =
      let hosts = recv_hosts p in
      let send = send_host p in
      let sent = if is_unknown send then network_not_found else ok in
      let net = net_address (any_unknown hosts sent) p.net_part in
      (
        check_interface net.0 net.1.0,
        record {
          host_ip = net.1.0;
          netmask = net.1.1;
          send_ip = host_ip4 send;
          recv_ip = map host_ip4 hosts;
          recv_cnt = length hosts;
          fake_ip = 0;
        },
      )

  -- The status and the addresses.
  unfoldable pub parse_network : List ℕ → RvHostError × RvMcast
  parse_network network = parse_parts (split_network (copied network))
