-- ===== src/Tests/Addresses.antt =====
-- Paired maps, addresses and links (uno/core/paired_map.py, uno/core/ip.py,
-- uno/registry/deployment.py) at concrete inputs.
use uno.Prelude.{
  ℕ, ◌+◌, ◌≤◌, ◌≡◌, refl, ap, ◌≢◌, Bool, true, Option, none, some, List, [], ◌∷◌, arith,
  if◌then◌else◌, Result, ok, Exec,
}
use uno.Prelude.Dict.{get, number_key, pair_is_key}
use uno.PairedMap.{PairedMap, absent, pair_key, find, assert_pair, purge_peer}
use uno.PairedMap.Storing.{IsValid}
use uno.PairedMap.Purging.{purge_peer_lem, touches}
use uno.Ip.{Network, ipv4_from_bytes, ipv4_to_bytes}
use uno.Ip.Bytes.{ipv4_from_bytes-ipv4_to_bytes}
use uno.Links.{AllocationMap, assert_link}
use uno.Links.Allocating.{link_at}
use uno.Links.Apart.{
  IsSubnet, IsAllocated, fresh_map, end, assert_link-IsAllocated, new_allocation_map-IsAllocated,
}

abbrev pairs : PairedMap ℕ ℕ
pairs = record { entries = ((1, 2), 10) ∷ ((2, 3), 20) ∷ ((1, 4), 30) ∷ []; fields = 0 }

-- A generator that counts its calls.
abbrev counting : ℕ → ℕ → Exec ℕ (Option ℕ)
counting a b calls = (ok (some (100 + calls)), calls + 1)

pairs-IsValid : IsValid pairs
pairs-IsValid = record { ordered = omega arith; unique = (refl, (refl, (refl, tt))) }

abbrev ends : ℕ × ℕ
ends = (7, 8)

abbrev with_pair : PairedMap ℕ ℕ
with_pair = record {
  entries = ((1, 2), 10) ∷ ((2, 3), 20) ∷ ((1, 4), 30) ∷ ((3, 4), 100) ∷ [];
  fields = 1;
}

assert_pair-pairs : assert_pair counting 4 3 absent pairs ≡ (ok (100, true), with_pair)
unfolding assert_pair
assert_pair-pairs = refl

generates : (assert_pair counting 4 3 absent pairs).0 ≡ ok (100, true)
generates = ap (λ (r : Result (ℕ × Bool) × PairedMap ℕ ℕ). r.0) assert_pair-pairs

keys_differ : pair_key 4 3 ≢ pair_key 1 2
unfolding pair_key
keys_differ e = omega (arith, ap (λ (k : ℕ × ℕ). k.0) e)

purge_peer-pairs : (purge_peer 1 pairs).0 ≡ ok (((1, 2), 10) ∷ ((1, 4), 30) ∷ [])
unfolding purge_peer
purge_peer-pairs = refl

purge_peer_lem_example :
    (purged : List ((ℕ × ℕ) × ℕ)) × ((purge_peer 1 pairs).0 ≡ ok purged)
    × ((c d : ℕ)
        → find (purge_peer 1 pairs).1 c d ≡ (if touches 1 (c, d) then none else find pairs c d))
    × ((c d : ℕ) → get purged (pair_key c d) ≡ (if touches 1 (c, d) then find pairs c d else none))
    × ((purge_peer 1 pairs).1.fields ≡ 0)
purge_peer_lem_example = purge_peer_lem 1 pairs pairs-IsValid

ipv4_from_bytes-ipv4_to_bytes_example : ipv4_from_bytes (ipv4_to_bytes 3232235853) ≡ ok 3232235853
ipv4_from_bytes-ipv4_to_bytes_example = ipv4_from_bytes-ipv4_to_bytes 3232235853 (omega arith)

-- 10.255.0.0/29, which has room for three links.
abbrev pub backbone : Network
backbone = record { address = 184483840; prefixlen = 29 }

pub backbone-IsSubnet : IsSubnet backbone
backbone-IsSubnet = record { short = omega arith; aligned = refl; fits = omega arith }

pub backbone-IsAllocated : IsAllocated (fresh_map backbone)
backbone-IsAllocated = (new_allocation_map-IsAllocated backbone backbone-IsSubnet).1

nothing_stored : find (fresh_map backbone) 1 2 ≡ none
unfolding find
nothing_stored = refl

assert_link-IsAllocated_example : IsAllocated (assert_link 1 2 (fresh_map backbone)).1
assert_link-IsAllocated_example =
    assert_link-IsAllocated 1 2 (fresh_map backbone) backbone-IsAllocated

abbrev three_links : AllocationMap
three_links = (assert_link 1 4 (assert_link 1 3 (assert_link 1 2 (fresh_map backbone)).1).1).1

three_links-IsAllocated : IsAllocated three_links
three_links-IsAllocated =
    assert_link-IsAllocated 1 4 _
      (assert_link-IsAllocated 1 3 _ (assert_link-IsAllocated 1 2 _ backbone-IsAllocated))

fourth_missing : find three_links 2 3 ≡ none
unfolding find assert_link
fourth_missing = refl

used_up : end three_links.fields.subnet ≤ three_links.fields.next_ip
unfolding assert_link
used_up = omega arith

first_stored : find three_links 2 1 ≡ some (link_at 184483842)
unfolding find assert_link
first_stored = refl

first_stored_back : find three_links 1 2 ≡ some (link_at 184483842)
unfolding find assert_link
first_stored_back = refl
