-- ===== src/Agent/Waiting.antt =====
-- uno/agent/agent.py: when the agent of a registry reloads after it pushed a rekeyed configuration.
use uno.Agent.{rekeyed_offline, until_rekeyed, reloads_at}
use uno.Peers.{Owner, PeersList}
use mathlib.Core.Option
use uno.Prelude.{
  ℕ, zero, suc, ◌≤◌, ◌≡◌, refl, ◌↔◌, inl, inr, Bool, true, false, ◌||◌, Option, none, some, List,
  [], ◌∷◌, arith, Bool-cases,
}

-- Some round up to this one sees all cells connected.
abbrev pub connected_by : List PeersList → ℕ → Bool
connected_by [] n = false
connected_by (l ∷ ls) zero = l.status_all_cells_connected
connected_by (l ∷ ls) (suc n) = l.status_all_cells_connected || connected_by ls n

-- In this round the cells that are offline are the rekeyed ones.
abbrev pub offline_at : List Owner → List PeersList → ℕ → Bool
offline_at rekeyed_cells [] n = false
offline_at rekeyed_cells (l ∷ ls) zero = rekeyed_offline rekeyed_cells l
offline_at rekeyed_cells (l ∷ ls) (suc n) = offline_at rekeyed_cells ls n

map-suc : (o : Option ℕ) (n : ℕ) → Option.map suc o ≡ some n → (m : ℕ) × (o ≡ some m) × (n ≡ suc m)
map-suc none n h = cc
map-suc (some m) n h = (m, refl, cc)

module _ (rekeyed_cells : List Owner) where
  passed_on :
      (l : PeersList) (ls : List PeersList) (stage : Bool)
      → (until_rekeyed rekeyed_cells l stage).0 ≡ false
      → reloads_at rekeyed_cells (l ∷ ls) stage
        ≡ Option.map suc (reloads_at rekeyed_cells ls (until_rekeyed rekeyed_cells l stage).1)
  unfolding reloads_at
  passed_on l ls stage h = rw h refl

  reloads_at_safe :
      (ls : List PeersList) (stage : Bool) (n : ℕ)
      → reloads_at rekeyed_cells ls stage ≡ some n
      → ((stage || connected_by ls n) ≡ true) × (offline_at rekeyed_cells ls n ≡ true)
  unfolding reloads_at until_rekeyed
  reloads_at_safe [] stage n h = cc
  reloads_at_safe (l ∷ ls) stage n h = elim (Bool-cases (until_rekeyed rekeyed_cells l stage).0) [
    | inl now ↦ (let q = rw now at h in rw (← (let e : 0 ≡ n = cc in e)) (ground arith))
    | inr still ↦
        (let q = rw still at h in
          let (m, found, e) = map-suc (reloads_at rekeyed_cells ls _) n q in
          let earlier = reloads_at_safe ls _ m found in rw e (ground arith))
  ]

  reloads_at_live :
      (ls : List PeersList) (stage : Bool) (n : ℕ)
      → (stage || connected_by ls n) ≡ true
      → offline_at rekeyed_cells ls n ≡ true
      → (m : ℕ) × (reloads_at rekeyed_cells ls stage ≡ some m) × (m ≤ n)
  unfolding reloads_at until_rekeyed
  reloads_at_live [] stage n c o = cc
  reloads_at_live (l ∷ ls) stage zero c o = (
    0,
    (let now : (until_rekeyed rekeyed_cells l stage).0 ≡ true = ground arith in rw now refl),
    omega arith,
  )
  reloads_at_live (l ∷ ls) stage (suc n) c o =
      elim (Bool-cases (until_rekeyed rekeyed_cells l stage).0) [
        | inl now ↦ (0, rw now refl, omega arith)
        | inr still ↦
            (let (m, found, le) =
                reloads_at_live ls (stage || l.status_all_cells_connected) n (ground arith) o in
              (suc m, rw (still, found) refl, omega (arith, le)))
      ]

  -- The agent of a registry with a rekeyed configuration, which has not seen all cells connected
  -- yet, reloads in a round or before it exactly if in one of these rounds the cells that are
  -- offline are the rekeyed ones, and all cells were connected in that one or before.
  pub reloads_at_iff :
      (ls : List PeersList) (n : ℕ)
      → ((m : ℕ) × (reloads_at rekeyed_cells ls false ≡ some m) × (m ≤ n))
        ↔ ((m : ℕ) × (connected_by ls m ≡ true) × (offline_at rekeyed_cells ls m ≡ true) × (m ≤ n))
  reloads_at_iff ls n = (
    (λ r. let both = reloads_at_safe ls false r.0 r.1 in (r.0, both.0, both.1, r.2)),
    (λ r.
        let (m, found, le) = reloads_at_live ls false r.0 r.1 r.2 in
        (m, found, omega (arith, le, r.3))),
  )
