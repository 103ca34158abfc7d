-- ===== src/Bcmp/Forward/Ports.antt =====
-- The ports that a message is sent on through.
use bristlemouth_rs.Common.{
  ℕ, zero, suc, ◌+◌, ◌<◌, ◌≤◌, ◌≡◌, ◌≢◌, ◌⊎◌, refl, inl, inr, List, [], ◌∷◌, arith, ◌==◌,
  if◌then◌else◌, ==_iff, Bool-cases,
}
use bristlemouth_rs.Bcmp.Forward.{ports_from, without_port, egress_ports}

unfoldable pub count : ℕ → List ℕ → ℕ
count p [] = 0
count p (x ∷ xs) = (if x == p then 1 else 0) + count p xs

count-ports_from_out : (p n i : ℕ) → (p < i) ⊎ (i + n ≤ p) → count p (ports_from n i) ≡ 0
unfolding count ports_from
count-ports_from_out p zero i h = refl
count-ports_from_out p (suc n) i (inl h) =
    ground (arith, count-ports_from_out p n (i + 1) (inl (omega arith)))
count-ports_from_out p (suc n) i (inr h) =
    ground (arith, count-ports_from_out p n (i + 1) (inr (omega arith)))

count-ports_from_in : (p n i : ℕ) → i ≤ p → p < i + n → count p (ports_from n i) ≡ 1
unfolding count ports_from
count-ports_from_in p zero i lo hi = absurd (omega arith)
count-ports_from_in p (suc n) i lo hi = elim (Bool-cases (i == p)) [
  | inl here ↦ rw here (omega (arith, count-ports_from_out p n (i + 1) (inl (ground arith))))
  | inr later ↦
      rw later (omega (arith, count-ports_from_in p n (i + 1) (ground arith) (omega arith)))
]

le_or_lt : (a b : ℕ) → (a ≤ b) ⊎ (b < a)
le_or_lt a b = omega arith

count-without_port_self : (p : ℕ) (xs : List ℕ) → count p (without_port p xs) ≡ 0
unfolding count without_port
count-without_port_self p [] = refl
count-without_port_self p (x ∷ xs) = ground (arith, count-without_port_self p xs)

count-without_port_ne : (p q : ℕ) (xs : List ℕ) → p ≢ q → count p (without_port q xs) ≡ count p xs
unfolding count without_port
count-without_port_ne p q [] h = refl
count-without_port_ne p q (x ∷ xs) h = ground (arith, count-without_port_ne p q xs h)

-- A message that came in on a port goes out once on each other port of the device, from 1 on, and on
-- no port that the device does not have, nor on its own.
pub egress_ports_count :
    (num_ports ingress_port p : ℕ)
    → ((1 ≤ p)
        × (p ≤ num_ports)
        × (p ≢ ingress_port)
        × (count p (egress_ports num_ports ingress_port) ≡ 1))
      ⊎ (((p < 1) ⊎ (num_ports < p) ⊎ (p ≡ ingress_port))
          × (count p (egress_ports num_ports ingress_port) ≡ 0))
unfolding egress_ports
egress_ports_count num_ports ingress_port p = elim (Bool-cases (p == ingress_port)) [
  | inl own ↦
      let e : p ≡ ingress_port = (==_iff p ingress_port).0 own in
      inr (inr (inr e), rw (← e) (count-without_port_self p (ports_from num_ports 1)))
  | inr other ↦
      let ne : p ≢ ingress_port = ground arith in
      let same = count-without_port_ne p ingress_port (ports_from num_ports 1) ne in
      elim (le_or_lt 1 p) [
        | inr low ↦ inr (inl low, omega (arith, same, count-ports_from_out p num_ports 1 (inl low)))
        | inl up ↦ elim (le_or_lt p num_ports) [
          | inl fits ↦ inl (
            up,
            fits,
            ne,
            omega (arith, same, count-ports_from_in p num_ports 1 up (omega arith)),
          )
          | inr high ↦ inr (
            inr (inl high),
            omega (arith, same, count-ports_from_out p num_ports 1 (inr (omega arith))),
          )
        ]
      ]
]
