-- ===== src/Ip/Networks.antt =====
-- Networks of interfaces and netmasks (uno/core/ip.py, `ipv4_nic_network`,
-- `ipv4_netmask_to_cidr`).
use uno.Prelude.{
  ℕ, zero, suc, ◌-◌, ◌*◌, ◌/◌, ◌%◌, ◌^◌, ◌≤◌, ◌<◌, ◌≡◌, refl, Bool, true, false, arith, ◌==◌,
  if◌then◌else◌, lt→ltb, ==_refl, Result, ok, raise,
}
use native.Mathlib.Nat.{mul-mod_left, mod-add-div'}
use native.Mathlib.Decide.{dec_lt}
use uno.Ip.{contains, network_of, network_strict, ipv4_nic_network, ipv4_netmask_to_cidr, hosts}

-- The address of a network has no bits behind the prefix.
pub mod-sub-mod : (a k : ℕ) → (a - a % k) % k ≡ 0
mod-sub-mod a k =
    let e : a - a % k ≡ a / k * k = omega (arith, mod-add-div' a k) in rw (e, mul-mod_left)

network_strict-network_of :
    (a prefixlen : ℕ)
    → prefixlen ≤ 32
    → network_strict (a - a % hosts prefixlen) prefixlen ≡ ok (network_of a prefixlen)
unfolding network_strict network_of
network_strict-network_of a prefixlen h = rw mod-sub-mod (ground arith)

full_mask :
    (ip mask_size : ℕ) → mask_size ≤ 32 → ¬ (mask_size < 32) → ip - ip % hosts mask_size ≡ ip
full_mask ip mask_size h full = let e : mask_size ≡ 32 = omega arith in rw e (omega arith)

-- For an address and a mask of at most 32 bits, `ipv4_nic_network` does not raise: it returns the
-- network of that prefix that `ip_network` with `strict=False` gives, and the address lies in it.
pub ipv4_nic_network_lem :
    (ip mask_size : ℕ)
    → mask_size ≤ 32
    → (ipv4_nic_network ip mask_size ≡ ok (network_of ip mask_size))
      × (contains ip (network_of ip mask_size) ≡ true)
unfolding ipv4_nic_network network_of contains
ipv4_nic_network_lem ip mask_size h = (
  elim (dec_lt mask_size 32) [
    | yes short ↦ rw (lt→ltb _ _ short) (network_strict-network_of ip mask_size h)
    | no full ↦
        ground (arith, full_mask ip mask_size h full, network_strict-network_of ip mask_size h)
  ],
  ==_refl _,
)

-- A test that is passed by each of the numbers before the bound.
passes_before : (ℕ → Bool) → ℕ → Bool
passes_before test zero = true
passes_before test (suc bound) = if test bound then passes_before test bound else false

passes :
    (bound i : ℕ) (test : ℕ → Bool) → i < bound → passes_before test bound ≡ true → test i ≡ true
unfolding passes_before
passes zero i test late all = absurd (omega arith)
passes (suc bound) i test early all = ground (arith, passes bound i test)

is_ok : ℕ → Result ℕ → Bool
is_ok n (ok m) = n == m
is_ok n (raise e) = false

is_ok→eq : (n : ℕ) (r : Result ℕ) → is_ok n r ≡ true → r ≡ ok n
unfolding is_ok
is_ok→eq n (ok m) h = ground arith
is_ok→eq n (raise e) h = cc

netmask_table :
    passes_before (λ i. is_ok (suc i) (ipv4_netmask_to_cidr (2 ^ 32 - 2 ^ (31 - i)))) 32 ≡ true
unfolding passes_before is_ok ipv4_netmask_to_cidr
netmask_table = refl

-- For every prefix of 1 to 32 bits, the netmask of that prefix (as many ones, then zeros) is
-- converted to it.
pub ipv4_netmask_to_cidr_lem :
    (i : ℕ) → i < 32 → ipv4_netmask_to_cidr (2 ^ 32 - 2 ^ (31 - i)) ≡ ok (suc i)
ipv4_netmask_to_cidr_lem i h = is_ok→eq _ _ (passes 32 i _ h netmask_table)
