-- ===== src/Links/Apart.antt =====
-- The links of a deployment do not share addresses: an invariant of `P2pLinkAllocationMap` under
-- `assert_pair` (uno/registry/deployment.py).
use mathlib.Core.Path.{subst}
use uno.Prelude.{
  ℕ, suc, ◌+◌, ◌-◌, ◌%◌, ◌^◌, ◌≤◌, ◌<◌, ◌≡◌, refl, sym, ap, ◌∙◌, ◌⊎◌, inl, inr, true, none, some,
  [], arith, lt→ltb, Bool-cases, Option-cases, runtime_error, ok, raise,
}
use Prim.Native.Nat.{◌∣◌}
use native.Mathlib.Nat.{two-pow-succ, mod-mod_of_dvd, dvd_iff_mod-eq-zero, one-le-pow}
use native.Mathlib.Decide.{dec_lt}
use uno.Prelude.Dict.{get, put, get-put, pair_is_key, same_pair_iff}
use uno.Ip.{Network, hosts}
use uno.PairedMap.{find, absent, pair_key}
use uno.PairedMap.Storing.{assert_pair_found, assert_pair_new, assert_pair_raises}
use uno.Links.{Link, Pool, AllocationMap, generate_val, assert_link, new_allocation_map}
use uno.Links.Allocating.{link_at, contains_iff, allocate_ip_full, generate_val_room}

-- A subnet with at most 31 bits of prefix, no bits behind it, and not the last of the address space.
pub record IsSubnet (n : Network) : Type 0 where
  pub short : n.prefixlen ≤ 31
  pub aligned : n.address % hosts n.prefixlen ≡ 0
  pub fits : n.address + hosts n.prefixlen < 2 ^ 32

-- The first address behind the network.
abbrev pub end : Network → ℕ
end n = n.address + hosts n.prefixlen

-- A link of two neighbouring addresses, the first even, that was taken before `next`.
pub record IsTaken (n : Network) (next : ℕ) (l : Link) : Type 0 where
  pub neighbours : l ≡ link_at l.addresses.0
  pub even : l.addresses.0 % 2 ≡ 0
  pub low : n.address + 2 ≤ l.addresses.0
  pub high : l.addresses.0 + 2 ≤ next

pub record IsAllocated (m : AllocationMap) : Type 0 where
  pub subnet : IsSubnet m.fields.subnet
  pub low : m.fields.subnet.address + 2 ≤ m.fields.next_ip
  pub high : m.fields.next_ip ≤ end m.fields.subnet
  pub even : m.fields.next_ip % 2 ≡ 0
  pub taken :
      (k : ℕ × ℕ) (l : Link) → get m.entries k ≡ some l → IsTaken m.fields.subnet m.fields.next_ip l
  pub apart :
      (j k : ℕ × ℕ) (l l' : Link)
      → get m.entries j ≡ some l
      → get m.entries k ≡ some l'
      → l.addresses.0 ≡ l'.addresses.0
      → j ≡ k

hosts_even : (p : ℕ) → p ≤ 31 → hosts p ≡ 2 ^ (31 - p) + 2 ^ (31 - p)
hosts_even p h =
    let e : 32 - p ≡ suc (31 - p) = omega arith in ap (λ (t : ℕ). 2 ^ t) e ∙ two-pow-succ (31 - p)

subnet_even : {n : Network} → IsSubnet n → (n.address % 2 ≡ 0) × (end n % 2 ≡ 0)
subnet_even {n} h =
    let e = hosts_even n.prefixlen h.short in
    let divides : 2 ∣ hosts n.prefixlen =
      (dvd_iff_mod-eq-zero 2 {n = hosts n.prefixlen}).1 (omega (arith, e)) in
    let address_even : n.address % 2 ≡ 0 =
      sym (mod-mod_of_dvd 2 {b = hosts n.prefixlen} n.address divides)
      ∙ ap (λ (t : ℕ). t % 2) h.aligned in
    (address_even, omega (arith, e))

-- The next link starts at an even address, so that two addresses are left or none is.
next_cases :
    (m : AllocationMap)
    → IsAllocated m
    → (m.fields.next_ip + 2 ≤ end m.fields.subnet) ⊎ (m.fields.next_ip ≡ end m.fields.subnet)
next_cases m h =
    let (_, e) = subnet_even h.subnet in
    elim (dec_lt (m.fields.next_ip + 1) (end m.fields.subnet)) [
      | yes room ↦ inl (omega arith)
      | no full ↦ inr (omega (arith, h.high, h.even))
    ]

room_for_two :
    (m : AllocationMap)
    → IsAllocated m
    → m.fields.next_ip < end m.fields.subnet
    → m.fields.next_ip + 2 ≤ end m.fields.subnet
room_for_two m h room = elim (next_cases m h) [ inl r ↦ r | inr e ↦ absurd (omega arith) ]

generate_val_full :
    (a b : ℕ) (s : Pool)
    → s.subnet.address % hosts s.subnet.prefixlen ≡ 0
    → s.subnet.address ≤ s.next_ip
    → end s.subnet ≤ s.next_ip
    → generate_val a b s ≡ (raise runtime_error, s)
unfolding generate_val
generate_val_full a b s aligned low full =
    rw (allocate_ip_full s (contains_iff s.next_ip s.subnet aligned low ∙ ground arith))

abbrev pub after_link : ℕ → ℕ → AllocationMap → AllocationMap
after_link a b m = record {
  entries = put m.entries (pair_key a b) (link_at m.fields.next_ip);
  fields = record m.fields { next_ip = m.fields.next_ip + 2 };
}

-- For a pair with no link yet, while the subnet is not used up: the pair gets the next two
-- addresses, and they are taken from the pool.
pub assert_link_room :
    (a b : ℕ) (m : AllocationMap)
    → IsAllocated m
    → find m a b ≡ none
    → m.fields.next_ip < end m.fields.subnet
    → assert_link a b m ≡ (ok (link_at m.fields.next_ip, true), after_link a b m)
unfolding assert_link
assert_link_room a b m h new room =
    let two = room_for_two m h room in
    assert_pair_new generate_val a b m _ _ new (
      generate_val_room a b m.fields h.subnet.aligned (omega (arith, h.low)) h.even two
        (omega (arith, h.subnet.fits, two)))

-- For a pair with no link yet, when the subnet is used up: the call raises, and nothing changes.
pub assert_link_full :
    (a b : ℕ) (m : AllocationMap)
    → IsAllocated m
    → find m a b ≡ none
    → end m.fields.subnet ≤ m.fields.next_ip
    → assert_link a b m ≡ (raise runtime_error, m)
unfolding assert_link
assert_link_full a b m h new full =
    assert_pair_raises generate_val a b m runtime_error m.fields new
      (generate_val_full a b m.fields h.subnet.aligned (omega (arith, h.low)) full)

IsTaken-later : {n : Network} {next : ℕ} {l : Link} → IsTaken n next l → IsTaken n (next + 2) l
IsTaken-later t = record {
  neighbours = t.neighbours;
  even = t.even;
  low = t.low;
  high = omega (arith, t.high);
}

module _ (m : AllocationMap) (h : IsAllocated m) (k : ℕ × ℕ)
    (room : m.fields.next_ip + 2 ≤ end m.fields.subnet) where
  abbrev next_link : Link
  next_link = link_at m.fields.next_ip

  next-IsTaken : IsTaken m.fields.subnet (m.fields.next_ip + 2) next_link
  next-IsTaken = record { neighbours = refl; even = h.even; low = h.low; high = omega arith }

  -- A link of the longer map is the new one, under the new key, or one of the old map.
  put_cases :
      (j : ℕ × ℕ) (l : Link)
      → get (put m.entries k next_link) j ≡ some l
      → (k ≡ j) × (next_link ≡ l) ⊎ (get m.entries j ≡ some l)
  put_cases j l e =
      let e' = sym (get-put m.entries k j next_link) ∙ e in
      elim (Bool-cases (pair_is_key.is_key k j)) [
        | inl same ↦ inl ((same_pair_iff k j).0 same, ground arith)
        | inr other ↦ inr (ground arith)
      ]

  IsTaken-after :
      (j : ℕ × ℕ) (l : Link)
      → get (put m.entries k next_link) j ≡ some l
      → IsTaken m.fields.subnet (m.fields.next_ip + 2) l
  IsTaken-after j l e = elim (put_cases j l e) [
    | inl (_, new) ↦ subst (IsTaken m.fields.subnet (m.fields.next_ip + 2)) new next-IsTaken
    | inr old ↦ IsTaken-later (h.taken j l old)
  ]

  apart_after :
      (i j : ℕ × ℕ) (l l' : Link)
      → get (put m.entries k next_link) i ≡ some l
      → get (put m.entries k next_link) j ≡ some l'
      → l.addresses.0 ≡ l'.addresses.0
      → i ≡ j
  apart_after i j l l' e e' same = elim (put_cases i l e) [
    | inl (here, new) ↦ elim (put_cases j l' e') [
      | inl (here', _) ↦ sym here ∙ here'
      | inr old ↦
          absurd (omega (arith, (h.taken j l' old).high, ap (λ (t : Link). t.addresses.0) new))
    ]
    | inr old ↦ elim (put_cases j l' e') [
      | inl (_, new) ↦
          absurd (omega (arith, (h.taken i l old).high, ap (λ (t : Link). t.addresses.0) new))
      | inr old' ↦ h.apart i j l l' old old' same
    ]
  ]

after_link-IsAllocated :
    (a b : ℕ) (m : AllocationMap)
    → IsAllocated m
    → m.fields.next_ip + 2 ≤ end m.fields.subnet
    → IsAllocated (after_link a b m)
after_link-IsAllocated a b m h room = record {
  subnet = h.subnet;
  low = omega (arith, h.low);
  high = room;
  even = omega (arith, h.even);
  taken = IsTaken-after m h (pair_key a b) room;
  apart = apart_after m h (pair_key a b) room;
}

-- Asking for the link of a pair, stored or not, and returning or raising, keeps every link inside
-- the subnet and keeps the links of different pairs at different addresses.
pub assert_link-IsAllocated :
    (a b : ℕ) (m : AllocationMap) → IsAllocated m → IsAllocated (assert_link a b m).1
unfolding assert_link
assert_link-IsAllocated a b m h = elim (Option-cases (find m a b)) [
  | inl new ↦ elim (next_cases m h) [
    | inl room ↦
        rw (assert_link_room a b m h new (omega arith)) (after_link-IsAllocated a b m h room)
    | inr full ↦ rw (assert_link_full a b m h new (omega arith)) h
  ]
  | inr (l, old) ↦ rw (assert_pair_found generate_val a b absent m old) h
]

abbrev pub fresh_map : Network → AllocationMap
fresh_map subnet = record {
  entries = [];
  fields = record { subnet = subnet; next_ip = subnet.address + 2 };
}

-- For a subnet of at most 31 bits of prefix that is not the last of the address space, a new
-- allocation map is made, is empty, and satisfies the invariant.
pub new_allocation_map-IsAllocated :
    (subnet : Network)
    → IsSubnet subnet
    → (new_allocation_map subnet ≡ ok (fresh_map subnet)) × IsAllocated (fresh_map subnet)
unfolding new_allocation_map get
new_allocation_map-IsAllocated subnet h =
    let e = hosts_even subnet.prefixlen h.short in
    let pos = one-le-pow (31 - subnet.prefixlen) 2 (omega arith) in
    let parity = subnet_even h in
    (
      rw (lt→ltb (subnet.address + 2) (2 ^ 32) (omega (arith, e, pos, h.fits))),
      record {
        subnet = h;
        low = omega arith;
        high = omega (arith, e, pos);
        even = omega (arith, parity.0);
        taken = λ k l e. cc;
        apart = λ j k l l' e. cc;
      },
    )

-- Where the invariant holds, no address is in the links of two different pairs of peers.
pub IsAllocated-apart :
    (a b c d x : ℕ) (l l' : Link) (m : AllocationMap)
    → IsAllocated m
    → find m a b ≡ some l
    → find m c d ≡ some l'
    → (x ≡ l.addresses.0) ⊎ (x ≡ l.addresses.1)
    → (x ≡ l'.addresses.0) ⊎ (x ≡ l'.addresses.1)
    → pair_key a b ≡ pair_key c d
unfolding find
IsAllocated-apart a b c d x l l' m h e e' at at' =
    let t = h.taken _ l e in
    let t' = h.taken _ l' e' in
    h.apart _ _ l l' e e' (
      omega (
        arith,
        t.even,
        t'.even,
        ap (λ (t : Link). t.addresses.1) t.neighbours,
        ap (λ (t : Link). t.addresses.1) t'.neighbours,
      ))
