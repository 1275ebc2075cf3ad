-- ===== src/Host/Mcast/Split/Print.antt =====
-- A network string against the parts it is written from.
use sassrv.Base.{
  ℕ, zero, suc, ◌≤◌, false, List, [], ◌∷◌, ◌++◌, length, take, Option, none, some, if◌then◌else◌,
  ◌≡◌, ◌≢◌, refl, sym, ap, ◌∙◌, All, All-append, arith, eq→==, ne→==,
}
use sassrv.Host.Mcast.Split.{
  is_space, skip_space, cut, recv_list, Parts, after_net, split_network, copied,
}

abbrev pub Without : ℕ → List ℕ → Type 0
Without c s = All (λ x. x ≢ c) s

-- A cut at the first `c`, and where there is none.
cut_found : (c : ℕ) (s r : List ℕ) → Without c s → cut c (s ++ c ∷ r) ≡ (s, some r)
cut_found c [] r h =
    ap (λ b. if b then ([], some r) else (c ∷ (cut c r).0, (cut c r).1)) (eq→== c c refl)
cut_found c (x ∷ s) r h =
    ap
      (λ b.
        if b then ([], some (s ++ c ∷ r)) else (x ∷ (cut c (s ++ c ∷ r)).0, (cut c (s ++ c ∷ r)).1))
      (ne→== x c h.0)
    ∙ ap (λ p. (x ∷ p.0, p.1)) (cut_found c s r h.1)

cut_absent : (c : ℕ) (s : List ℕ) → Without c s → cut c s ≡ (s, none)
cut_absent c [] h = refl
cut_absent c (x ∷ s) h =
    ap (λ b. if b then ([], some s) else (x ∷ (cut c s).0, (cut c s).1)) (ne→== x c h.0)
    ∙ ap (λ p. (x ∷ p.0, p.1)) (cut_absent c s h.1)

-- A list of addresses with commas.
abbrev pub with_commas : List ℕ → List (List ℕ) → List ℕ
with_commas first [] = first
with_commas first (second ∷ more) = first ++ 44 ∷ with_commas second more

-- A list of addresses from the first cut of it.
abbrev after_cut : ℕ → List ℕ → List ℕ × Option (List ℕ) → List (List ℕ)
after_cut room s p = elim p.1 [ none ↦ s ∷ [] | some rest ↦ p.0 ∷ recv_list room rest ]

recv_list-with_commas :
    (room : ℕ) (first : List ℕ) (more : List (List ℕ))
    → length more ≤ room
    → Without 44 first
    → All (Without 44) more
    → recv_list room (with_commas first more) ≡ first ∷ more
unfolding recv_list
recv_list-with_commas zero first [] h a b = refl
recv_list-with_commas zero first (x ∷ more) h a b = absurd (omega arith)
recv_list-with_commas (suc room) first [] h a b = ap (after_cut room first) (cut_absent 44 first a)
recv_list-with_commas (suc room) first (x ∷ more) h a b =
    ap (after_cut room (with_commas first (x ∷ more))) (cut_found 44 first (with_commas x more) a)
    ∙ ap (λ l. first ∷ l) (recv_list-with_commas room x more (omega arith) b.0 b.1)

with_commas-Without :
    (c : ℕ) (first : List ℕ) (more : List (List ℕ))
    → c ≢ 44
    → Without c first
    → All (Without c) more
    → Without c (with_commas first more)
with_commas-Without c first [] ne a b = a
with_commas-Without c first (x ∷ more) ne a b =
    All-append (λ x. x ≢ c) first (44 ∷ with_commas x more) a
      ((λ e. ne (sym e)), with_commas-Without c x more ne b.0 b.1)

-- The format that `parse_network` reads.
abbrev pub print_network : List ℕ → List ℕ → List (List ℕ) → List ℕ → List ℕ
print_network net first more send = net ++ 59 ∷ (with_commas first more ++ 59 ∷ send)

abbrev pub StartsClear : List ℕ → Type 0
StartsClear [] = Unit {0}
StartsClear (c ∷ s) = is_space c ≡ false

skip_space-clear : (s r : List ℕ) → StartsClear s → skip_space (s ++ 59 ∷ r) ≡ s ++ 59 ∷ r
skip_space-clear [] r h = refl
skip_space-clear (c ∷ s) r h = ap (λ b. if b then skip_space (s ++ 59 ∷ r) else c ∷ (s ++ 59 ∷ r)) h

take_all : (n : ℕ) (s : List ℕ) → length s ≤ n → take n s ≡ s
take_all n [] h = elim n as (λ k. take {A = ℕ} k [] ≡ []) [ zero ↦ refl | suc k ↦ refl ]
take_all zero (x ∷ s) h = absurd (omega arith)
take_all (suc n) (x ∷ s) h = ap (λ l. x ∷ l) (take_all n s (omega arith))

-- A network string of at most 4095 characters and no 0 is split into the parts it is written from:
-- a network that does not start with a space, at most 59 receive addresses, and a send address,
-- where the network and the receive addresses have no semicolon and the receive addresses no comma.
pub split_network-print_network :
    (net first : List ℕ) (more : List (List ℕ)) (send : List ℕ)
    → length (print_network net first more send) ≤ 4095
    → Without 0 (print_network net first more send)
    → StartsClear net
    → Without 59 net
    → Without 59 first × All (Without 59) more
    → Without 44 first × All (Without 44) more
    → length more ≤ 58
    → split_network (copied (print_network net first more send))
      ≡ record { net_part = net; recv_part = first ∷ more; send_part = some send }
unfolding split_network
split_network-print_network net first more send short clean clear no_net no_semi no_comma few =
    let s = print_network net first more send in
    let tail = with_commas first more ++ 59 ∷ send in
    ap split_network
      (ap (λ t. (cut 0 t).0) (take_all 4095 s short) ∙ ap (λ p. p.0) (cut_absent 0 s clean))
    ∙ ap (λ t. after_net (cut 59 t).0 (cut 59 t).1) (skip_space-clear net tail clear)
    ∙ ap (λ p. after_net p.0 p.1) (cut_found 59 net tail no_net)
    ∙ ap {B = Parts} (λ p. record { net_part = net; recv_part = recv_list 58 p.0; send_part = p.1 })
        (cut_found 59 (with_commas first more) send
          (with_commas-Without 59 first more (λ e. omega arith) no_semi.0 no_semi.1))
    ∙ ap {B = Parts} (λ l. record { net_part = net; recv_part = l; send_part = some send })
        (recv_list-with_commas 58 first more few no_comma.0 no_comma.1)
