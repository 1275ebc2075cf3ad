-- ===== src/Host/Mcast/Laws.antt =====
-- What `parse_network` makes of a network string.
use sassrv.Base.{
  ℕ, zero, suc, ◌+◌, ◌≤◌, Bool, true, false, List, [], ◌∷◌, ◌==◌, length, map, Option, none, some,
  if◌then◌else◌, ◌≡◌, ◌≢◌, ◌↔◌, refl, sym, ap, ◌∙◌, All, arith, Bool-cases, inl, inr, ==→ne, ==→eq,
  either,
}
use mathlib.Core.Path.{subst}
use sassrv.Host.Mcast.{
  RvHostError, ok, gethostname_failed, no_interface_found, network_not_found, hostname_not_found,
  same_svc_two_nets, bad_service_num, bad_parameters, start_host_failed, System, any_host, host_ip4,
  is_unknown, any_unknown, recv_hosts, send_host, own_address, net_address, check_interface,
  parse_network, lookup_host_ip4, lookup_dev_ip4,
}
use sassrv.Host.Mcast.Split.{
  is_empty_string, skip_space, cut, recv_list, Parts, after_net, split_network, copied,
  max_recv_mcast,
}

IsBetween : ℕ → ℕ → Type 0
IsBetween n k = (1 ≤ k) × (k ≤ n)

recv_list-length : (room : ℕ) (s : List ℕ) → IsBetween (room + 1) (length (recv_list room s))
unfolding recv_list IsBetween
recv_list-length zero s = (omega arith, omega arith)
recv_list-length (suc room) s =
    elim (cut 44 s).1
      as (λ o. IsBetween (suc room + 1) (
        length (elim o as (λ _. List (List ℕ)) [
          | none ↦ s ∷ []
          | some rest ↦ (cut 44 s).0 ∷ recv_list room rest
        ]))) [
          | none ↦ (omega arith, omega arith)
          | some rest ↦ let (low, high) = recv_list-length room rest in (omega arith, omega arith)
        ]

module _ (S : System) where
  recv_hosts-length :
      (p : Parts)
      → length p.recv_part ≤ max_recv_mcast
      → IsBetween max_recv_mcast (length (recv_hosts p))
  unfolding IsBetween
  recv_hosts-length p h = by_parts p.recv_part h
    where
      by_parts :
          (l : List (List ℕ))
          → length l ≤ max_recv_mcast
          → IsBetween max_recv_mcast
              (length (recv_hosts (record { net_part = []; recv_part = l; send_part = none })))
      by_parts [] h = (omega arith, omega arith)
      by_parts (first ∷ []) h =
          either {A = List (List ℕ)} (λ l. IsBetween max_recv_mcast (length l))
            (is_empty_string first) (any_host ∷ []) (first ∷ []) (omega arith, omega arith)
            (omega arith, omega arith)
      by_parts (first ∷ second ∷ more) h = (omega arith, h)

  parts-length : (s : List ℕ) → length (split_network s).recv_part ≤ max_recv_mcast
  unfolding split_network IsBetween
  parts-length s = by_net (cut 59 (skip_space s)).0 (cut 59 (skip_space s)).1
    where
      by_net :
          (net : List ℕ) (o : Option (List ℕ)) → length (after_net net o).recv_part ≤ max_recv_mcast
      by_net net none = omega arith
      by_net net (some rest) = (recv_list-length 58 (cut 59 rest).0).1

  length-map : (f : List ℕ → ℕ) (l : List (List ℕ)) → length (map f l) ≡ length l
  length-map f [] = refl
  length-map f (x ∷ l) = ap suc (length-map f l)

  -- Whatever the string and whatever the system answers, `parse_network` sets at least one and at most
  -- 59 receive addresses, all of them inside `recv_ip`.
  pub parse_network-recv_cnt :
      (network : List ℕ)
      → let mc = (parse_network S network).1 in
        (mc.recv_cnt ≡ length mc.recv_ip) × ((1 ≤ mc.recv_cnt) × (mc.recv_cnt ≤ max_recv_mcast))
  unfolding parse_network IsBetween
  parse_network-recv_cnt network =
      let p = split_network (copied network) in
      (
        sym (length-map (host_ip4 S) (recv_hosts p)),
        recv_hosts-length p (parts-length (copied network)),
      )

  any_unknown-ok :
      (hosts : List (List ℕ)) (status : RvHostError)
      → (any_unknown S hosts status ≡ ok)
        ↔ ((status ≡ ok) × All (λ h. is_unknown S h ≡ false) hosts)
  any_unknown-ok [] status = ((λ e. (e, tt)), λ h. h.0)
  any_unknown-ok (host ∷ rest) status = elim (Bool-cases (is_unknown S host)) [
    | inl t ↦ (
      (λ e. absurd (
          failed
            ((any_unknown-ok rest network_not_found).0 (
              subst (λ b. any_unknown S rest (if b then network_not_found else status) ≡ ok) t
                e)).0)),
      λ h. absurd (true_not_false (sym t ∙ h.1.0)),
    )
    | inr t ↦ (
      (λ e.
          let r =
            (any_unknown-ok rest status).0 (
              subst (λ b. any_unknown S rest (if b then network_not_found else status) ≡ ok) t e) in
          (r.0, (t, r.1))),
      λ h.
          subst (λ b. any_unknown S rest (if b then network_not_found else status) ≡ ok) (sym t)
            ((any_unknown-ok rest status).1 (h.0, h.1.1)),
    )
  ]
    where
      failed : network_not_found ≢ ok
      failed e = cc

      true_not_false : true ≢ false
      true_not_false e = cc

  kept : (status : RvHostError) (ip : ℕ) → status ≢ ok → (status ≡ ok) ↔ ((status ≡ ok) × (ip ≢ 0))
  kept status ip differs = ((λ e. absurd (differs e)), λ h. h.0)

  check_interface-ok :
      (status : RvHostError) (ip : ℕ)
      → (check_interface status ip ≡ ok) ↔ ((status ≡ ok) × (ip ≢ 0))
  check_interface-ok ok ip = elim (Bool-cases (ip == 0)) [
    | inl t ↦ (
      (λ e. absurd (failed (subst (λ b. (if b then no_interface_found else ok) ≡ ok) t e))),
      λ h. absurd (h.1 (==→eq ip 0 t)),
    )
    | inr t ↦ (
      (λ e. (refl, ==→ne ip 0 t)),
      λ h. subst (λ b. (if b then no_interface_found else ok) ≡ ok) (sym t) refl,
    )
  ]
    where
      failed : no_interface_found ≢ ok
      failed e = cc
  check_interface-ok gethostname_failed ip = kept gethostname_failed ip (λ e. cc)
  check_interface-ok no_interface_found ip = kept no_interface_found ip (λ e. cc)
  check_interface-ok hostname_not_found ip = kept hostname_not_found ip (λ e. cc)
  check_interface-ok same_svc_two_nets ip = kept same_svc_two_nets ip (λ e. cc)
  check_interface-ok network_not_found ip = kept network_not_found ip (λ e. cc)
  check_interface-ok bad_service_num ip = kept bad_service_num ip (λ e. cc)
  check_interface-ok bad_parameters ip = kept bad_parameters ip (λ e. cc)
  check_interface-ok start_host_failed ip = kept start_host_failed ip (λ e. cc)

  -- The network's part adds one failure, after which there is no address.
  net_address-ok :
      (status : RvHostError) (net : List ℕ)
      → (net_address S status net).1.0 ≢ 0
      → ((net_address S status net).0 ≡ ok) ↔ (status ≡ ok)
  net_address-ok status net h = elim (Bool-cases (is_empty_string net)) [
    | inl t ↦ own_ok S.gethostname t h
    | inr t ↦
        subst
          (λ b. (read b S.gethostname).1.0 ≢ 0 → ((read b S.gethostname).0 ≡ ok) ↔ (status ≡ ok))
          (sym t) (λ k. ((λ e. e), λ e. e)) h
  ]
    where
      read : Bool → Option (List ℕ) → RvHostError × (ℕ × ℕ)
      read b name =
          if b
          then own_address S status name
          else (let found = lookup_dev_ip4 S net in
              (status, if found.0 == 0 then lookup_host_ip4 S net else found))

      named :
          (o : Option (List ℕ))
          → (own_address S status o).1.0 ≢ 0
          → ((own_address S status o).0 ≡ ok) ↔ (status ≡ ok)
      named none k = absurd (k refl)
      named (some host) k = ((λ e. e), λ e. e)

      own_ok :
          (o : Option (List ℕ))
          → is_empty_string net ≡ true
          → (read (is_empty_string net) o).1.0 ≢ 0
          → ((read (is_empty_string net) o).0 ≡ ok) ↔ (status ≡ ok)
      own_ok o t =
          subst (λ b. (read b o).1.0 ≢ 0 → ((read b o).0 ≡ ok) ↔ (status ≡ ok)) (sym t) (named o)

  -- The status of the send address.
  sent_ok : (b : Bool) → ((if b then network_not_found else ok) ≡ ok) ↔ (b ≡ false)
  sent_ok true = ((λ e. absurd (failed e)), λ e. cc)
    where
      failed : network_not_found ≢ ok
      failed e = cc
  sent_ok false = ((λ e. refl), λ e. refl)

  -- `parse_network` succeeds where it has found an address for the host, and where the send address
  -- and each receive address resolve or are 0.0.0.0; and only there.
  pub parse_network-ok :
      (network : List ℕ)
      → let p = split_network (copied network) in
        ((parse_network S network).0 ≡ ok) ↔ (
          ((parse_network S network).1.host_ip ≢ 0)
          × ((is_unknown S (send_host p) ≡ false)
              × All (λ h. is_unknown S h ≡ false) (recv_hosts p)))
  unfolding parse_network
  parse_network-ok network =
      let p = split_network (copied network) in
      let sent = if is_unknown S (send_host p) then network_not_found else ok in
      let status = any_unknown S (recv_hosts p) sent in
      let net = net_address S status p.net_part in
      (
        (λ e.
            let (net_ok, found) = (check_interface-ok net.0 net.1.0).0 e in
            let (sent_is, known) =
              (any_unknown-ok (recv_hosts p) sent).0
                ((net_address-ok status p.net_part found).0 net_ok) in
            (found, ((sent_ok (is_unknown S (send_host p))).0 sent_is, known))),
        λ h. (check_interface-ok net.0 net.1.0).1 (
          (net_address-ok status p.net_part h.0).1 (
              (any_unknown-ok (recv_hosts p) sent).1
                ((sent_ok (is_unknown S (send_host p))).1 h.1.0, h.1.1)),
          h.0,
        ),
      )
