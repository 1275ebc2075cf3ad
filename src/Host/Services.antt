-- ===== src/Host/Services.antt =====
-- The services of a daemon: `RvHostNet` of include/sassrv/rv_host.h, and `get_service` and
-- `start_service` of src/rv_host.cpp.
pub mod Laws
mod Tests
use sassrv.Base.{
  ℕ, suc, ◌+◌, ◌/◌, ◌%◌, Bool, true, false, not, ◌&&◌, List, [], ◌∷◌, ◌++◌, length, leb, ◌==◌,
  Option, none, some, if◌then◌else◌, get_or, set,
}

abbrev pub same_bytes : List ℕ → List ℕ → Bool
same_bytes [] [] = true
same_bytes [] (y ∷ ys) = false
same_bytes (x ∷ xs) [] = false
same_bytes (x ∷ xs) (y ∷ ys) = (x == y) && same_bytes xs ys

-- A digit of the loop of `RvHostNet`, which leads with none of 0.
abbrev pub service_digit : ℕ → ℕ → List ℕ → List ℕ
service_digit svc div rest = if leb div svc then (svc / div % 10 + 48) ∷ rest else rest

-- The string of `RvHostNet( svc, port, has_svc_pre )`.
unfoldable pub service_string : ℕ → List ℕ
service_string svc =
    service_digit svc 10000
      (service_digit svc 1000 (service_digit svc 100 (service_digit svc 10 ((svc % 10 + 48) ∷ []))))

-- `RvHostNet`, as far as the hosts read it.
pub record HostNet : Type 0 where
  pub service : List ℕ
  pub ipport : ℕ
  pub has_service_prefix : Bool

-- Of `RvHost`, what is known of its service.
pub record HostService : Type 0 where
  pub service : List ℕ
  pub ipport : ℕ
  pub has_service_prefix : Bool

abbrev pub next_index : Option ℕ → Option ℕ
next_index none = none
next_index (some i) = some (suc i)

-- The index of the first host of the service.
unfoldable pub get_service : List ℕ → List HostService → Option ℕ
get_service service [] = none
get_service service (host ∷ hosts) =
    let rest = next_index (get_service service hosts) in
    if same_bytes host.service service then some 0 else rest

pub data Status : Type 0 where
  host_ok err_bad_service_num : Status

abbrev pub no_host : HostService
no_host = record { service = []; ipport = 0; has_service_prefix = false }

abbrev pub new_host : HostNet → HostService
new_host hn = record {
  service = hn.service;
  ipport = hn.ipport;
  has_service_prefix = hn.has_service_prefix;
}

-- A port that was not known is taken over.
abbrev pub take_port : HostNet → HostService → HostService
take_port hn host =
    if not (hn.ipport == 0) && (host.ipport == 0) then record host { ipport = hn.ipport } else host

abbrev pub same_bool : Bool → Bool → Bool
same_bool true b = b
same_bool false b = not b

abbrev pub found_service : HostNet → List HostService → Option ℕ → Status × List HostService × ℕ
found_service hn hosts none = (host_ok, hosts ++ new_host hn ∷ [], length hosts)
found_service hn hosts (some i) =
    let host = take_port hn (get_or hosts i no_host) in
    (
      if same_bool hn.has_service_prefix host.has_service_prefix
          then host_ok
          else err_bad_service_num,
      set hosts i host,
      i,
    )

-- The host is returned by its index, with the status.
unfoldable pub start_service : HostNet → List HostService → Status × List HostService × ℕ
unfolding get_service
start_service hn hosts = found_service hn hosts (get_service hn.service hosts)
