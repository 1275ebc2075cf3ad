-- ===== src/Host/Services/Tests.antt =====
-- Two services, 7500 and 7600, and a third client of the first of them.
use sassrv.Base.{ℕ, ◌≤◌, ◌≡◌, refl, false, List, [], ◌∷◌, length, All, arith}
use sassrv.Host.Services.{HostNet, HostService, host_ok, service_string, start_service, get_service}
use sassrv.Host.Services.Laws.{
  IsTable, IsStarted, IsDigit, number_of, service_string-number_of, start_service-IsStarted,
}

service_7500 : service_string 7500 ≡ 55 ∷ 53 ∷ 48 ∷ 48 ∷ []
unfolding service_string
service_7500 = refl

service_string-number_of_example :
    (number_of 0 (service_string 7500) ≡ 7500)
    × ((length (service_string 7500) ≤ 5) × All IsDigit (service_string 7500))
service_string-number_of_example = service_string-number_of 7500 (omega arith)

abbrev first : List ℕ
first = 55 ∷ 53 ∷ 48 ∷ 48 ∷ []

abbrev second : List ℕ
second = 55 ∷ 54 ∷ 48 ∷ 48 ∷ []

abbrev hosts : List HostService
hosts =
    record { service = first; ipport = 0; has_service_prefix = false }
    ∷ record { service = second; ipport = 7600; has_service_prefix = false }
    ∷ []

abbrev net : HostNet
net = record { service = first; ipport = 7500; has_service_prefix = false }

started : (start_service net hosts).0 ≡ host_ok
unfolding start_service get_service
started = refl

hosts-IsTable : IsTable hosts
hosts-IsTable = (((λ e. ground (arith, e)), tt), (tt, tt))

start_service-IsStarted_example : IsStarted net hosts (start_service net hosts)
start_service-IsStarted_example = start_service-IsStarted net hosts hosts-IsTable
