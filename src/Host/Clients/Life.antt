-- ===== src/Host/Clients/Life.antt =====
-- Whatever happens, the host counts the clients that it has started, and has none without a network.
use sassrv.Base.{
  ℕ, zero, suc, ◌+◌, ◌<◌, ◌≤◌, ◌≡◌, refl, sym, ap, ◌∙◌, Bool, true, false, not, ◌&&◌, List, [], ◌∷◌,
  ◌++◌, length, get_or, set, length-set, length-append, ◌==◌, if◌then◌else◌, add64, sub64, u64_mod,
  arith, Bool-cases, ==→eq, inl, inr, either,
}
use mathlib.Core.Path.{subst}
use sassrv.Host.Clients.{
  Host, start_clients, subscribe_daemon, start_status_timer, delay_start, start_host2, start_host,
  stop_network, stop_host, init_client, remove_at, close_client, Step, Steps, connect, init,
  start_after, start, close, stay, step,
}

abbrev pub started : List Bool → ℕ
started [] = 0
started (c ∷ clients) = (if c then 1 else 0) + started clients

abbrev pub IsCounted : Host → Type 0
IsCounted h =
    (h.active_clients ≡ started h.clients)
    × ((h.network_started ≡ false → started h.clients ≡ 0) × (length h.clients < u64_mod))

started-length : (cs : List Bool) → started cs ≤ length cs
started-length [] = omega arith
started-length (c ∷ cs) = ground (arith, started-length cs)

started-append : (cs : List Bool) → started (cs ++ false ∷ []) ≡ started cs
started-append [] = refl
started-append (c ∷ cs) = omega (arith, started-append cs)

started-set-true :
    (cs : List Bool) (i : ℕ) → get_or cs i true ≡ false → started (set cs i true) ≡ started cs + 1
started-set-true [] i e = absurd (ground (arith, e))
started-set-true (c ∷ cs) zero e = ground (arith, e)
started-set-true (c ∷ cs) (suc i) e = omega (arith, started-set-true cs i e)

length-remove_at : (cs : List Bool) (i : ℕ) → length (remove_at cs i) ≤ length cs
length-remove_at [] i = omega arith
length-remove_at (c ∷ cs) zero = omega arith
length-remove_at (c ∷ cs) (suc i) = omega (arith, length-remove_at cs i)

started-remove_at :
    (cs : List Bool) (i : ℕ) → get_or cs i false ≡ true → started (remove_at cs i) + 1 ≡ started cs
started-remove_at [] i e = absurd (ground (arith, e))
started-remove_at (c ∷ cs) zero e = ground (arith, e)
started-remove_at (c ∷ cs) (suc i) e = omega (arith, started-remove_at cs i e)

started-remove_idle :
    (cs : List Bool) (i : ℕ) → get_or cs i false ≡ false → started (remove_at cs i) ≡ started cs
started-remove_idle [] i e = refl
started-remove_idle (c ∷ cs) zero e = ground (arith, e)
started-remove_idle (c ∷ cs) (suc i) e = omega (arith, started-remove_idle cs i e)

start_clients-started :
    (cs : List Bool) (n m : ℕ)
    → n ≡ m + started cs
    → m + length cs < u64_mod
    → let r = start_clients cs n in
      (r.1 ≡ m + started r.0) × ((length r.0 ≡ length cs) × (started r.0 ≡ length cs))
start_clients-started [] n m e h = (e, (refl, refl))
start_clients-started (true ∷ cs) n m e h =
    let r = start_clients-started cs n (m + 1) (omega (arith, e)) (omega (arith, h)) in
    (omega (arith, r.0), (omega (arith, r.1.0), omega (arith, r.1.1)))
start_clients-started (false ∷ cs) n m e h =
    let s = started-length cs in
    let r =
      start_clients-started cs (add64 n 1) (m + 1) (omega (arith, e, h, s)) (omega (arith, h)) in
    (omega (arith, r.0), (omega (arith, r.1.0), omega (arith, r.1.1)))

start_status_timer-same :
    (h : Host)
    → ((start_status_timer h).clients ≡ h.clients)
      × ((start_status_timer h).active_clients ≡ h.active_clients)
start_status_timer-same h = ground arith

start_host2-IsCounted :
    (delay_secs : ℕ) (h : Host) → IsCounted h → IsCounted (start_host2 delay_secs h)
unfolding start_host2
start_host2-IsCounted delay_secs h k =
    let later : IsCounted (delay_start h) = either IsCounted (h.host_delay_timer == 0) _ h k k in
    let p = start_status_timer (subscribe_daemon h) in
    let (c, n) = start_status_timer-same (subscribe_daemon h) in
    let same : p.active_clients ≡ 0 + started p.clients =
      n ∙ k.0 ∙ ap started (sym c) ∙ omega arith in
    let short : 0 + length p.clients < u64_mod = omega (arith, ap length c, k.1.1) in
    let r = start_clients-started p.clients p.active_clients 0 same short in
    either IsCounted (not (delay_secs == 0)) (delay_start h) _ later
      (omega (arith, r.0), ((λ e. absurd (ground (arith, e))), omega (arith, r.1.0, short)))

abbrev taken : ℕ → Host → Host
taken i h = record h { clients = set h.clients i true; active_clients = add64 h.active_clients 1 }

init_client-IsCounted : (i : ℕ) (h : Host) → IsCounted h → IsCounted (init_client i h)
unfolding init_client
init_client-IsCounted i h k = elim (Bool-cases h.network_started) [
  | inl on ↦ elim (Bool-cases (get_or h.clients i true)) [
    | inl old ↦
        subst (λ b. IsCounted (if h.network_started && not b then taken i h else h)) (sym old)
          (subst (λ b. IsCounted (if b && false then taken i h else h)) (sym on) k)
    | inr new ↦
        let one = started-set-true h.clients i new in
        let some_left = started-length (set h.clients i true) in
        let len = length-set h.clients i true in
        let t : IsCounted (taken i h) = (
          omega (arith, k.0, k.1.1, one, some_left, len),
          ((λ e. absurd (ground (arith, e, on))), omega (arith, len, k.1.1)),
        ) in
        subst (λ b. IsCounted (if h.network_started && not b then taken i h else h)) (sym new)
          (subst (λ b. IsCounted (if b && true then taken i h else h)) (sym on) t)
  ]
  | inr off ↦
      subst (λ b. IsCounted (if b && not (get_or h.clients i true) then taken i h else h)) (sym off)
        k
]

stop_host-IsCounted : (h : Host) → IsCounted h → IsCounted (stop_host h)
unfolding stop_host
stop_host-IsCounted h k = either IsCounted (h.host_status_timer == 0) h _ k k

stop_network-IsCounted :
    (h : Host)
    → h.network_started ≡ true
    → h.active_clients ≡ started h.clients + 1
    → length h.clients < u64_mod
    → IsCounted (stop_network h).1
unfolding stop_network
stop_network-IsCounted h on e len =
    let few = started-length h.clients in
    let n = sub64 h.active_clients 1 in
    let left : n ≡ started h.clients = omega (arith, e, few, len) in
    let halted : Bool × Host =
      (true, record h { active_clients = n; network_started = false; start_in_progress = false }) in
    let rest : Bool × Host = (false, record h { active_clients = n }) in
    subst
      (λ b.
        let r : Bool × Host = if b then (if n == 0 then halted else rest) else (false, h) in
        IsCounted r.1)
      (sym on)
      (elim (Bool-cases (n == 0)) [
        | inl z ↦
            subst (λ b. let r : Bool × Host = if b then halted else rest in IsCounted r.1) (sym z)
              (left, ((λ f. omega (arith, left, ==→eq n 0 z)), len))
        | inr z ↦
            subst (λ b. let r : Bool × Host = if b then halted else rest in IsCounted r.1) (sym z)
              (left, ((λ f. absurd (ground (arith, f, on))), len))
      ])

abbrev closed : Host → Host
closed gone =
    if (stop_network gone).0 then stop_host (stop_network gone).1 else (stop_network gone).1

close_client-IsCounted : (i : ℕ) (h : Host) → IsCounted h → IsCounted (close_client i h)
unfolding close_client
close_client-IsCounted i h k = elim (Bool-cases (get_or h.clients i false)) [
  | inl on ↦
      let gone = record h { clients = remove_at h.clients i } in
      let one = started-remove_at h.clients i on in
      let len = length-remove_at h.clients i in
      let running : h.network_started ≡ true = elim (Bool-cases h.network_started) [
        | inl e ↦ e
        | inr e ↦ absurd (omega (arith, k.1.0 e, one))
      ] in
      let r =
        stop_network-IsCounted gone running (omega (arith, one, k.0)) (omega (arith, len, k.1.1)) in
      subst (λ b. IsCounted (if b then closed gone else gone)) (sym on)
        (either IsCounted (stop_network gone).0 (stop_host (stop_network gone).1)
          (stop_network gone).1 (stop_host-IsCounted (stop_network gone).1 r) r)
  | inr off ↦
      let gone = record h { clients = remove_at h.clients i } in
      let same = started-remove_idle h.clients i off in
      let len = length-remove_at h.clients i in
      subst (λ b. IsCounted (if b then closed gone else gone)) (sym off)
        (k.0 ∙ sym same, ((λ e. same ∙ k.1.0 e), omega (arith, len, k.1.1)))
]

Step-IsCounted : {h k : Host} → Step h k → IsCounted h → IsCounted k
unfolding start_host
Step-IsCounted (connect {h} room) c =
    let e = started-append h.clients in
    (c.0 ∙ sym e, ((λ n. e ∙ c.1.0 n), omega (arith, length-append h.clients (false ∷ []), room)))
Step-IsCounted (init {h} i) c = init_client-IsCounted i h c
Step-IsCounted (start_after {h} delay_secs) c = start_host2-IsCounted delay_secs h c
Step-IsCounted (start {h}) c =
    either IsCounted (h.host_status_timer == 0) (start_host2 0 h) h (start_host2-IsCounted 0 h c) c
Step-IsCounted (close {h} i) c = close_client-IsCounted i h c

-- In whatever order clients connect, are taken on and are closed, and the host is started:
-- `active_clients` stays the number of the open clients that are started, and there are none while
-- the network is not started. A client connects while the number of the open ones fits its word.
pub Steps-IsCounted : {h k : Host} → Steps h k → IsCounted h → IsCounted k
Steps-IsCounted stay c = c
Steps-IsCounted (step s t) c = Steps-IsCounted t (Step-IsCounted s c)
