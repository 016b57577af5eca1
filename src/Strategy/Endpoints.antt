-- ===== src/Strategy/Endpoints.antt =====
-- The links of a deployment, seen from their ends (deployment_strategy.py, `deploy`).
use uno.Prelude.{ℕ, ◌≡◌, sym, ap, ◌∙◌, ◌≢◌, ◌⊎◌, inl, inr, some, List, arith, Result, ok}
use uno.Prelude.Dict.{get, number_key}
use uno.PairedMap.{find, pick, pair_key}
use uno.PairedMap.Pairs.{pick_comm, pick_either, pick_ne, pair_key-injective}
use uno.PairedMap.Storing.{find-pair_key, find_comm}
use uno.Links.{Link, AllocationMap, Port, PeerLinks, LinksMap}
use uno.Links.Apart.{IsAllocated, IsAllocated-apart}
use uno.Strategy.{Generated, port_of, deploy}
use uno.Strategy.Ports.{AllBacked, Evolves, IsPortOf, deploy-Deploys, Deploys, some_same}

-- The links of the map have a port from one peer to another.
abbrev pub HasPort : LinksMap → ℕ → ℕ → Port → Type 0
HasPort links a b p = (pl : PeerLinks) × (get links a ≡ some pl) × (get pl.peers b ≡ some p)

Deploys-ok :
    (m m' : AllocationMap) (r : Result LinksMap × AllocationMap) (links : LinksMap)
    → r ≡ (ok links, m')
    → Deploys m r
    → Deploys m (ok links, m')
Deploys-ok m m' r links e d = rw e at d

module _ (generate : List ℕ → List ℕ → Result Generated) (peers private_peers : List ℕ)
    (m m' : AllocationMap) (links : LinksMap)
    (returned : deploy generate peers private_peers m ≡ (ok links, m')) where
  deployed : Evolves m m' × AllBacked m' links
  deployed = Deploys-ok m m' _ links returned (deploy-Deploys generate peers private_peers m)

  backed : (a b : ℕ) (p : Port) → HasPort links a b p → IsPortOf m' a b p
  backed a b p (pl, found, at_b) = deployed.1 a pl found b p at_b

-- Two ports for one link, from its two ends.
ports_agree :
    (a b i j : ℕ) (l l' : Link) (p q : Port)
    → l ≡ l'
    → p ≡ port_of i a b l
    → q ≡ port_of j b a l'
    → (p.local_address ≡ q.peer_address)
      × (p.peer_address ≡ q.local_address)
      × (p.network ≡ q.network)
unfolding port_of
ports_agree a b i j l l' p q same ep eq =
    let eq' : q ≡ port_of j b a l = rw same eq in
    (
      ap (λ (t : Port). t.local_address) ep
          ∙ pick_comm a b a l.addresses
          ∙ sym (ap (λ (t : Port). t.peer_address) eq'),
      ap (λ (t : Port). t.peer_address) ep
          ∙ pick_comm a b b l.addresses
          ∙ sym (ap (λ (t : Port). t.local_address) eq'),
      ap (λ (t : Port). t.network) ep ∙ sym (ap (λ (t : Port). t.network) eq'),
    )

ends_differ_at :
    (a b i : ℕ) (l : Link) (p : Port)
    → a ≢ b
    → l.addresses.0 ≢ l.addresses.1
    → p ≡ port_of i a b l
    → p.local_address ≢ p.peer_address
unfolding port_of
ends_differ_at a b i l p ne apart e clash =
    pick_ne a b l.addresses ne apart
      (sym (ap (λ (t : Port). t.local_address) e) ∙ clash ∙ ap (λ (t : Port). t.peer_address) e)

neighbours_ne :
    (m : AllocationMap)
    → IsAllocated m
    → (a b : ℕ) (l : Link) → find m a b ≡ some l
    → l.addresses.0 ≢ l.addresses.1
unfolding find
neighbours_ne m h a b l e =
    let t = h.taken (pair_key a b) l e in
    λ same. omega (arith, ap (λ (x : Link). x.addresses.1) t.neighbours)

-- Whatever the strategy generates, if `deploy` returns: where a peer has a port to another and that
-- one has a port back, the two ports agree on the link, which is one network, and on its two
-- addresses, the local one of each being the peer's of the other.
pub deploy_agrees :
    (generate : List ℕ → List ℕ → Result Generated) (peers private_peers : List ℕ)
    (m m' : AllocationMap) (links : LinksMap)
    → deploy generate peers private_peers m ≡ (ok links, m')
    → (a b : ℕ) (p q : Port) → HasPort links a b p
    → HasPort links b a q
    → (p.local_address ≡ q.peer_address)
      × (p.peer_address ≡ q.local_address)
      × (p.network ≡ q.network)
deploy_agrees generate peers private_peers m m' links returned a b p q hp hq =
    let (l, stored, ep) = backed generate peers private_peers m m' links returned a b p hp in
    let (l', stored', eq) = backed generate peers private_peers m m' links returned b a q hq in
    ports_agree a b p.index q.index l l' p q (some_same (sym stored ∙ find_comm m' a b ∙ stored'))
      ep eq

local_either :
    (a b i : ℕ) (l : Link) (p : Port)
    → p ≡ port_of i a b l
    → (p.local_address ≡ l.addresses.0) ⊎ (p.local_address ≡ l.addresses.1)
unfolding port_of
local_either a b i l p e =
    let here : p.local_address ≡ pick a b a l.addresses = ap (λ (t : Port). t.local_address) e in
    elim (pick_either a b a l.addresses) [ inl x ↦ inl (here ∙ x) | inr x ↦ inr (here ∙ x) ]

ends_differ :
    (a b i j : ℕ) (l l' : Link) (p q : Port)
    → a ≢ b
    → l.addresses.0 ≢ l.addresses.1
    → l ≡ l'
    → p ≡ port_of i a b l
    → q ≡ port_of j b a l'
    → p.local_address ≢ q.local_address
ends_differ a b i j l l' p q ne apart same ep eq clash =
    let (_, other, _) = ports_agree a b i j l l' p q same ep eq in
    ends_differ_at a b i l p ne apart ep (clash ∙ sym other)

-- Whatever the strategy generates, if `deploy` starts with a map of links that satisfies its
-- invariant and returns: two ports of peers with other peers have the same local address only if
-- they are the port of one peer with one other peer.
pub deploy_distinct :
    (generate : List ℕ → List ℕ → Result Generated) (peers private_peers : List ℕ)
    (m m' : AllocationMap) (links : LinksMap)
    → deploy generate peers private_peers m ≡ (ok links, m')
    → IsAllocated m
    → (a b c d : ℕ) (p q : Port) → a ≢ b
    → HasPort links a b p
    → HasPort links c d q
    → p.local_address ≡ q.local_address
    → (a ≡ c) × (b ≡ d)
deploy_distinct generate peers private_peers m m' links returned alloc a b c d p q ne hp hq clash =
    let (l, stored, ep) = backed generate peers private_peers m m' links returned a b p hp in
    let (l', stored', eq) = backed generate peers private_peers m m' links returned c d q hq in
    let alloc' = (deployed generate peers private_peers m m' links returned).0.allocated alloc in
    let here = local_either a b p.index l p ep in
    let there = local_either c d q.index l' q eq in
    let key =
      IsAllocated-apart a b c d p.local_address l l' m' alloc' stored stored' here
        (rw clash there) in
    elim (pair_key-injective a b c d key) [
      | inl same ↦ same
      | inr (e, e') ↦ absurd (
          ends_differ a b p.index q.index l l' p q ne (neighbours_ne m' alloc' a b l stored)
            (some_same (sym stored ∙ find-pair_key m' a b c d key ∙ stored')) ep (rw (e, e') eq)
            clash)
    ]
