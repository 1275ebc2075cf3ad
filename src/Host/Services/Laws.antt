-- ===== src/Host/Services/Laws.antt =====
-- Every service has one host, and its number can be read back from its string.
use sassrv.Base.{
  ℕ, zero, suc, ◌+◌, ◌*◌, ◌-◌, ◌<◌, ◌≤◌, ◌≡◌, ◌≢◌, refl, sym, ap, ap₂, ◌∙◌, inl, inr, ◌⊎◌, Bool,
  true, false, List, [], ◌∷◌, ◌++◌, length, Option, none, some, if◌then◌else◌, get_or, set, eq→==,
  Bool-cases, All, All-append, get_or-set_self, get_or-append_end, length-set, get_or-set_ne,
  get_or-append_left, ◌↔◌, length-append, arith,
}
use sassrv.Host.Services.{
  same_bytes, service_string, HostNet, HostService, get_service, Status, host_ok,
  err_bad_service_num, same_bool, no_host, next_index, new_host, take_port, found_service,
  start_service,
}
use mathlib.Core.Path.{subst}

-- The number that a string of digits stands for.
abbrev pub number_of : ℕ → List ℕ → ℕ
number_of n [] = n
number_of n (c ∷ cs) = number_of (n * 10 + (c - 48)) cs

abbrev pub IsDigit : ℕ → Type 0
IsDigit c = (48 ≤ c) × (c < 58)

-- The string of a 16-bit service number has at most 5 characters, all digits, and reads back as the
-- number.
pub service_string-number_of :
    (svc : ℕ)
    → svc < 65536
    → (number_of 0 (service_string svc) ≡ svc)
      × ((length (service_string svc) ≤ 5) × All IsDigit (service_string svc))
unfolding service_string
service_string-number_of svc h = ground arith

pub same_bytes-eq : (a b : List ℕ) → same_bytes a b ≡ true → a ≡ b
same_bytes-eq [] [] e = refl
same_bytes-eq [] (y ∷ b) e = absurd (ground (arith, e))
same_bytes-eq (x ∷ a) [] e = absurd (ground (arith, e))
same_bytes-eq (x ∷ a) (y ∷ b) e =
    ap₂ ◌∷◌ (ground (arith, e)) (same_bytes-eq a b (ground (arith, e)))

pub same_bytes_self : (a : List ℕ) → same_bytes a a ≡ true
same_bytes_self [] = refl
same_bytes_self (x ∷ a) = ground (arith, same_bytes_self a, eq→== x x refl)

-- No two hosts have the same service.
abbrev pub IsTable : List HostService → Type 0
IsTable [] = Unit {0}
IsTable (host ∷ hosts) = All (λ other. other.service ≢ host.service) hosts × IsTable hosts

next_index-none : (o : Option ℕ) → next_index o ≡ none → o ≡ none
next_index-none none e = refl
next_index-none (some i) e = absurd (ground (arith, e))

get_service-here :
    (service : List ℕ) (host : HostService) (hosts : List HostService)
    → same_bytes host.service service ≡ true
    → get_service service (host ∷ hosts) ≡ some 0
unfolding get_service
get_service-here service host hosts t =
    ap (λ b. if b then some 0 else next_index (get_service service hosts)) t

get_service-there :
    (service : List ℕ) (host : HostService) (hosts : List HostService)
    → same_bytes host.service service ≡ false
    → get_service service (host ∷ hosts) ≡ next_index (get_service service hosts)
unfolding get_service
get_service-there service host hosts t =
    ap (λ b. if b then some 0 else next_index (get_service service hosts)) t

-- What `get_service` finds, as the two ways it can end.
abbrev pub IsFound : List ℕ → List HostService → Option ℕ → Type 0
IsFound service hosts none = All (λ host. host.service ≢ service) hosts
IsFound service hosts (some i) = (i < length hosts) × ((get_or hosts i no_host).service ≡ service)

IsFound-next :
    (service : List ℕ) (host : HostService) (hosts : List HostService) (o : Option ℕ)
    → host.service ≢ service
    → IsFound service hosts o
    → IsFound service (host ∷ hosts) (next_index o)
IsFound-next service host hosts none ne k = (ne, k)
IsFound-next service host hosts (some i) ne k = (omega (arith, k.0), k.1)

get_service-IsFound :
    (service : List ℕ) (hosts : List HostService)
    → IsFound service hosts (get_service service hosts)
unfolding get_service
get_service-IsFound service [] = tt
get_service-IsFound service (host ∷ hosts) = elim (Bool-cases (same_bytes host.service service)) [
  | inl t ↦
      subst (IsFound service (host ∷ hosts)) (sym (get_service-here service host hosts t))
        (omega arith, same_bytes-eq host.service service t)
  | inr t ↦ subst (IsFound service (host ∷ hosts)) (sym (get_service-there service host hosts t)) (
      IsFound-next service host hosts (get_service service hosts)
        (λ e.
          let same =
            subst (λ s. same_bytes host.service s ≡ true) e (same_bytes_self host.service) in
          ground (arith, same, t))
        (get_service-IsFound service hosts))
]

-- Nothing but a port has changed, and that only where none was known.
abbrev pub IsKept : HostService → HostService → Type 0
IsKept old new =
    (new.service ≡ old.service)
    × ((new.has_service_prefix ≡ old.has_service_prefix)
        × ((new.ipport ≡ old.ipport) ⊎ (old.ipport ≡ 0)))

take_port-IsKept : (hn : HostNet) (host : HostService) → IsKept host (take_port hn host)
take_port-IsKept hn host = ground arith

All-set {κ} :
    (P : HostService → Type κ) (hosts : List HostService) (i : ℕ) (host : HostService)
    → P host
    → All P hosts
    → All P (set hosts i host)
All-set P [] i host p k = tt
All-set P (x ∷ hosts) zero host p k = (p, k.1)
All-set P (x ∷ hosts) (suc i) host p k = (k.0, All-set P hosts i host p k.1)

All-get_or {κ} :
    (P : HostService → Type κ) (hosts : List HostService) (i : ℕ)
    → i < length hosts
    → All P hosts
    → P (get_or hosts i no_host)
All-get_or P [] i h k = absurd (omega (arith, h))
All-get_or P (x ∷ hosts) zero h k = k.0
All-get_or P (x ∷ hosts) (suc i) h k = All-get_or P hosts i (omega (arith, h)) k.1

-- A host that keeps its service keeps the table one.
IsTable-set :
    (hosts : List HostService) (i : ℕ) (host : HostService)
    → i < length hosts
    → host.service ≡ (get_or hosts i no_host).service
    → IsTable hosts
    → IsTable (set hosts i host)
IsTable-set [] i host h e k = tt
IsTable-set (x ∷ hosts) zero host h e k =
    (subst (λ s. All (λ other. other.service ≢ s) hosts) (sym e) k.0, k.1)
IsTable-set (x ∷ hosts) (suc i) host h e k =
    let inside : i < length hosts = omega (arith, h) in
    (
      All-set (λ other. other.service ≢ x.service) hosts i host
          (subst (λ s. s ≢ x.service) (sym e)
            (All-get_or (λ other. other.service ≢ x.service) hosts i inside k.0))
          k.0,
      IsTable-set hosts i host inside e k.1,
    )

IsTable-append :
    (hosts : List HostService) (host : HostService)
    → All (λ other. other.service ≢ host.service) hosts
    → IsTable hosts
    → IsTable (hosts ++ host ∷ [])
IsTable-append [] host new k = (tt, tt)
IsTable-append (x ∷ hosts) host new k = (
  All-append _ hosts (host ∷ []) k.0 ((λ e. new.0 (sym e)), tt),
  IsTable-append hosts host new.1 k.1,
)

-- The table, the host and the status that `start_service` gives.
abbrev pub IsStarted : HostNet → List HostService → Status × List HostService × ℕ → Type 0
IsStarted hn hosts r =
    let host = get_or r.1 r.2 no_host in
    IsTable r.1
    × ((r.2 < length r.1)
        × ((host.service ≡ hn.service)
            × (((j : ℕ)
                  → j < length hosts
                  → j ≢ r.2
                  → get_or r.1 j no_host ≡ get_or hosts j no_host)
                × ((r.0 ≡ host_ok) ↔ (host.has_service_prefix ≡ hn.has_service_prefix)))))

status_ok :
    (a b : Bool) → ((if same_bool a b then host_ok else err_bad_service_num) ≡ host_ok) ↔ (b ≡ a)
status_ok true true = ((λ e. refl), (λ e. refl))
status_ok true false = ((λ e. absurd (ground (arith, e))), (λ e. absurd (ground (arith, e))))
status_ok false true = ((λ e. absurd (ground (arith, e))), (λ e. absurd (ground (arith, e))))
status_ok false false = ((λ e. refl), (λ e. refl))

found_service-IsStarted :
    (hn : HostNet) (hosts : List HostService) (o : Option ℕ)
    → IsFound hn.service hosts o
    → IsTable hosts
    → IsStarted hn hosts (found_service hn hosts o)
found_service-IsStarted hn hosts none f k =
    let new = get_or-append_end hosts (new_host hn) no_host in
    (
      IsTable-append hosts (new_host hn) f k,
      (
        omega (arith, length-append hosts (new_host hn ∷ [])),
        (
          ap (λ h. h.service) new,
          (
            λ j h ne. get_or-append_left hosts (new_host hn ∷ []) j no_host h,
            ((λ e. ap (λ h. h.has_service_prefix) new), (λ e. refl)),
          ),
        ),
      ),
    )
found_service-IsStarted hn hosts (some i) f k =
    let old = get_or hosts i no_host in
    let host = take_port hn old in
    let kept = take_port-IsKept hn old in
    let now = get_or-set_self hosts i host no_host f.0 in
    (
      IsTable-set hosts i host f.0 kept.0 k,
      (
        omega (arith, length-set hosts i host, f.0),
        (
          ap (λ h. h.service) now ∙ kept.0 ∙ f.1,
          (
            λ j h ne. get_or-set_ne hosts i j host no_host (λ e. ne (sym e)),
            subst
                (λ b.
                  ((if same_bool hn.has_service_prefix host.has_service_prefix
                      then host_ok
                      else err_bad_service_num)
                    ≡ host_ok)
                  ↔ (b ≡ hn.has_service_prefix))
                (sym (ap (λ h. h.has_service_prefix) now))
                (status_ok hn.has_service_prefix host.has_service_prefix),
          ),
        ),
      ),
    )

-- `start_service` in a table with one host for each service keeps it such a table; the index is that
-- of a host of the service asked for, all other hosts are as they were, and the status is ok just
-- when the host has a prefix as it was asked for.
pub start_service-IsStarted :
    (hn : HostNet) (hosts : List HostService)
    → IsTable hosts
    → IsStarted hn hosts (start_service hn hosts)
unfolding start_service
start_service-IsStarted hn hosts k =
    found_service-IsStarted hn hosts (get_service hn.service hosts)
      (get_service-IsFound hn.service hosts) k
