-- ===== src/Links/Allocating.antt =====
-- What one allocation returns and changes (uno/registry/deployment.py, `_allocate_ip`,
-- `generate_val`).
use uno.Prelude.{
  ℕ, ◌+◌, ◌-◌, ◌%◌, ◌^◌, ◌≤◌, ◌<◌, ◌≡◌, ap, ◌∙◌, true, false, some, arith, ltb, lt→ltb, ==_refl,
  runtime_error, ok, raise,
}
use native.Mathlib.Nat.{mod-eq_of_lt, add-mod, mod-mod, zero-add, one-le-pow, mod-lt}
use native.Mathlib.Decide.{dec_lt}
use uno.Ip.{Network, contains, hosts, network_of, network_strict}
use uno.Links.{same_network, link_of, Link, Pool, allocate_ip, generate_val}

-- A subnet of at most 31 bits of prefix, aligned to its size, below 2 ^ 32.
pub record IsSubnet (n : Network) : Type 0 where
  pub short : n.prefixlen ≤ 31
  pub aligned : n.address % hosts n.prefixlen ≡ 0
  pub fits : n.address + hosts n.prefixlen ≤ 2 ^ 32

mod-sub-aligned : (a b k : ℕ) → b % k ≡ 0 → b ≤ a → a % k ≡ (a - b) % k
mod-sub-aligned a b k e le =
    let split : a ≡ b + (a - b) = omega arith in
    ap (λ (t : ℕ). t % k) split ∙ add-mod b (a - b) k ∙ rw (e, zero-add) (mod-mod (a - b) k)

hosts_pos : (p : ℕ) → 0 < hosts p
hosts_pos p = one-le-pow (32 - p) 2 (omega arith)

-- From the address of an aligned network on, membership is to be below its end.
pub contains_iff :
    (a : ℕ) (n : Network)
    → n.address % hosts n.prefixlen ≡ 0
    → n.address ≤ a
    → contains a n ≡ ltb a (n.address + hosts n.prefixlen)
unfolding contains
contains_iff a n e le =
    let k = hosts n.prefixlen in
    let below = mod-lt (a - n.address) (hosts_pos n.prefixlen) in
    elim (dec_lt (a - n.address) k) [
      | yes inside ↦ ground (arith, mod-sub-aligned a n.address k e le, mod-eq_of_lt inside)
      | no outside ↦ ground (arith, mod-sub-aligned a n.address k e le)
    ]

allocate_ip_room :
    (s : Pool)
    → contains s.next_ip s.subnet ≡ true
    → s.next_ip + 1 < 2 ^ 32
    → allocate_ip s ≡ (ok s.next_ip, record s { next_ip = s.next_ip + 1 })
unfolding allocate_ip
allocate_ip_room s inside space = rw inside (ground arith)

-- A subnet that is used up raises, and nothing changes.
pub allocate_ip_full :
    (s : Pool) → contains s.next_ip s.subnet ≡ false → allocate_ip s ≡ (raise runtime_error, s)
unfolding allocate_ip
allocate_ip_full s outside = rw outside

abbrev pub link_at : ℕ → Link
link_at a = record { addresses = (a, a + 1); network = record { address = a; prefixlen = 31 } }

network_strict_even :
    (a : ℕ) → a % 2 ≡ 0 → network_strict a 31 ≡ ok (record { address = a; prefixlen = 31 })
unfolding network_strict
network_strict_even a even = rw (even)

link_of_even :
    (a : ℕ)
    → a % 2 ≡ 0
    → link_of a (a + 1) (record { address = a; prefixlen = 31 }) (network_of (a + 1) 31)
      ≡ ok (some (link_at a))
unfolding network_of link_of same_network
link_of_even a even = let e : a + 1 - (a + 1) % 2 ≡ a = omega arith in rw (e, ==_refl a)

-- With two addresses left below the end of the subnet and of the address space, from an even
-- address on, both peers get an address.
pub generate_val_room :
    (a b : ℕ) (s : Pool)
    → s.subnet.address % hosts s.subnet.prefixlen ≡ 0
    → s.subnet.address ≤ s.next_ip
    → s.next_ip % 2 ≡ 0
    → s.next_ip + 2 ≤ s.subnet.address + hosts s.subnet.prefixlen
    → s.next_ip + 2 < 2 ^ 32
    → generate_val a b s ≡ (ok (some (link_at s.next_ip)), record s { next_ip = s.next_ip + 2 })
unfolding generate_val
generate_val_room a b s aligned low even room space =
    let first =
      allocate_ip_room s (contains_iff s.next_ip s.subnet aligned low ∙ lt→ltb _ _ (omega arith))
        (omega arith) in
    let s' : Pool = record s { next_ip = s.next_ip + 1 } in
    let second =
      allocate_ip_room s'
        (contains_iff (s.next_ip + 1) s.subnet aligned (omega arith) ∙ lt→ltb _ _ (omega arith))
        (omega arith) in
    rw (first, second, network_strict_even s.next_ip even, link_of_even s.next_ip even)
      (ground arith)
