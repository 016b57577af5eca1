-- ===== src/Strategy/Ports.antt =====
-- Every port that `deploy` returns holds the link that the map of links has for its two peers (deployment_strategy.py,
-- `deploy`).
use uno.Prelude.{
  ℕ, suc, ◌≡◌, refl, sym, ◌∙◌, inl, inr, Bool, Option, none, some, List, [], ◌∷◌, arith, ◌==◌,
  if◌then◌else◌, ==_iff, Bool-cases, range_from, Result, ok, raise, Exec, pure, and_then,
}
use mathlib.Core.Path.{subst}
use uno.Prelude.Dict.{same_pair_iff, pair_is_key, Dict, get, put, get-put, number_key}
use uno.PairedMap.{find, pair_key, absent}
use uno.PairedMap.Storing.{find-pair_key, assert_pair_found, find-assert_pair, find-assert_pair_ne}
use uno.Links.{Link, AllocationMap, assert_link, generate_val, Port, PeerLinks, LinksMap}
use uno.Links.Apart.{IsAllocated, assert_link-IsAllocated}
use uno.Strategy.{
  generated, Generated, at, port_of, connect, connect_at, connect_peer, connect_peers, deploy,
}

-- What no step of `deploy` undoes: links that are stored stay, and the invariant of the map.
pub record Evolves (m m' : AllocationMap) : Type 0 where
  pub stays : (c d : ℕ) (l : Link) → find m c d ≡ some l → find m' c d ≡ some l
  pub allocated : IsAllocated m → IsAllocated m'

Evolves-refl : (m : AllocationMap) → Evolves m m
Evolves-refl m = record { stays = λ c d l e. e; allocated = λ h. h }

Evolves-trans : {m n o : AllocationMap} → Evolves m n → Evolves n o → Evolves m o
Evolves-trans f g = record {
  stays = λ c d l e. g.stays c d l (f.stays c d l e);
  allocated = λ h. g.allocated (f.allocated h);
}

stays_link :
    (a b : ℕ) (m : AllocationMap) (c d : ℕ) (l : Link)
    → find m c d ≡ some l
    → find (assert_link a b m).1 c d ≡ some l
unfolding assert_link
stays_link a b m c d l e = elim (Bool-cases (pair_is_key.is_key (pair_key a b) (pair_key c d))) [
  | inl same ↦
      let e' = find-pair_key m a b c d ((same_pair_iff _ _).0 same) ∙ e in
      rw (assert_pair_found generate_val a b absent m e') e
  | inr other ↦
      find-assert_pair_ne generate_val a b absent m c d
        (λ k. ground (arith, (same_pair_iff (pair_key a b) (pair_key c d)).1 k))
      ∙ e
]

assert_link-Evolves : (a b : ℕ) (m : AllocationMap) → Evolves m (assert_link a b m).1
assert_link-Evolves a b m = record {
  stays = λ c d l e. stays_link a b m c d l e;
  allocated = λ h. assert_link-IsAllocated a b m h;
}

-- A port holds what the map of links has for its two peers.
abbrev pub IsPortOf : AllocationMap → ℕ → ℕ → Port → Type 0
IsPortOf m a b p = (l : Link) × (find m a b ≡ some l) × (p ≡ port_of p.index a b l)

abbrev pub Backed : AllocationMap → ℕ → Dict ℕ Port → Type 0
Backed m a ports = (b : ℕ) (p : Port) → get ports b ≡ some p → IsPortOf m a b p

Backed-Evolves :
    (m m' : AllocationMap) (a : ℕ) (ports : Dict ℕ Port)
    → Evolves m m'
    → Backed m a ports
    → Backed m' a ports
Backed-Evolves m m' a ports e h b p found =
    let (l, stored, eq) = h b p found in (l, e.stays a b l stored, eq)

pub some_same {ℓ} : {A : Type ℓ} {x y : A} → some x ≡ some y → x ≡ y
some_same h = cc

put-Backed :
    (m : AllocationMap) (a b i : ℕ) (l : Link) (ports : Dict ℕ Port)
    → find m a b ≡ some l
    → Backed m a ports
    → Backed m a (put ports b (port_of i a b l))
unfolding port_of
put-Backed m a b i l ports stored h c p found =
    let e : (if b == c then some (port_of i a b l) else get ports c) ≡ some p =
      sym (get-put ports b c (port_of i a b l)) ∙ found in
    elim (Bool-cases (b == c)) [
      | inl same ↦
          let here : b ≡ c = (==_iff b c).0 same in
          let eq : port_of i a b l ≡ p = some_same (rw same at e) in
          (l, rw (← here) stored, rw (← here, ← eq, port_of))
      | inr other ↦ h c p (rw other at e)
    ]

-- A step from `m` leaves a later map and, if it returns ports, ports that the map backs.
abbrev Steps : AllocationMap → ℕ → Result (Dict ℕ Port) × AllocationMap → Type 0
Steps m a (ok ports, m') = Evolves m m' × Backed m' a ports
Steps m a (raise e, m') = Evolves m m'

find_linked :
    (a b : ℕ) (m : AllocationMap) (l : Link) (new : Bool)
    → (assert_link a b m).0 ≡ ok (l, new)
    → find (assert_link a b m).1 a b ≡ some l
unfolding assert_link
find_linked a b m l new e = find-assert_pair generate_val a b absent m e

connect-Steps :
    (i a b : ℕ) (ports : Dict ℕ Port) (m : AllocationMap)
    → Backed m a ports
    → Steps m a (connect i a b ports m)
unfolding connect
connect-Steps i a b ports m h =
    let ev = assert_link-Evolves a b m in
    after (assert_link a b m).0 (assert_link a b m).1 ev (λ l new e. find_linked a b m l new e)
  where
    after :
        (r : Result (Link × Bool)) (m' : AllocationMap)
        → Evolves m m'
        → ((l : Link) (new : Bool) → r ≡ ok (l, new) → find m' a b ≡ some l)
        → Steps m a (and_then r (λ linked. pure (put ports b (port_of i a b linked.0))) m')
    after (ok (l, new)) m' ev stored =
        (ev, put-Backed m' a b i l ports (stored l new refl) (Backed-Evolves m m' a ports ev h))
    after (raise e) m' ev stored = ev

Steps-trans :
    (m m' : AllocationMap) (a : ℕ) (r : Result (Dict ℕ Port) × AllocationMap)
    → Evolves m m'
    → Steps m' a r
    → Steps m a r
Steps-trans m m' a (ok ports, n) e s = (Evolves-trans e s.0, s.1)
Steps-trans m m' a (raise x, n) e s = Evolves-trans e s

-- The two steps before a link is asked for can only raise.
lifted-Steps :
    {A : Type 0} (r : Result A) (f : A → Exec AllocationMap (Dict ℕ Port)) (m : AllocationMap)
    (a : ℕ)
    → ((x : A) → Steps m a (f x m))
    → Steps m a (and_then r f m)
lifted-Steps (ok x) f m a h = h x
lifted-Steps (raise e) f m a h = Evolves-refl m

connect_at-Steps :
    (g : Generated) (i a : ℕ) (o : Option ℕ) (ports : Dict ℕ Port) (m : AllocationMap)
    → Backed m a ports
    → Steps m a (connect_at g i a o ports m)
unfolding connect_at
connect_at-Steps g i a none ports m h = (Evolves-refl m, h)
connect_at-Steps g i a (some n) ports m h =
    lifted-Steps (at g.deployed_peers n) _ m a (λ b. connect-Steps i a b ports m h)

-- A step that may continue with more ports.
then-Steps :
    (m : AllocationMap) (a : ℕ) (r : Result (Dict ℕ Port) × AllocationMap)
    (f : Dict ℕ Port → Exec AllocationMap (Dict ℕ Port))
    → Steps m a r
    → ((ports : Dict ℕ Port) (n : AllocationMap) → Backed n a ports → Steps n a (f ports n))
    → Steps m a (and_then r.0 f r.1)
then-Steps m a (ok ports, n) f s h = Steps-trans m n a _ s.0 (h ports n s.1)
then-Steps m a (raise e, n) f s h = s

connect_peer-Steps :
    (g : Generated) (n a : ℕ) (is : List ℕ) (ports : Dict ℕ Port) (m : AllocationMap)
    → Backed m a ports
    → Steps m a (connect_peer g n a is ports m)
unfolding connect_peer
connect_peer-Steps g n a [] ports m h = (Evolves-refl m, h)
connect_peer-Steps g n a (i ∷ is) ports m h = lifted-Steps (at g.connections i) _ m a λ connection.
    lifted-Steps (connection n) _ m a λ other.
      then-Steps m a (connect_at g i a other ports m) _ (connect_at-Steps g i a other ports m h)
        (λ ports' m' h'. connect_peer-Steps g n a is ports' m' h')

-- Every port of a map of links is backed.
abbrev pub AllBacked : AllocationMap → LinksMap → Type 0
AllBacked m links = (a : ℕ) (pl : PeerLinks) → get links a ≡ some pl → Backed m a pl.peers

AllBacked-Evolves :
    (m m' : AllocationMap) (links : LinksMap)
    → Evolves m m'
    → AllBacked m links
    → AllBacked m' links
AllBacked-Evolves m m' links e h a pl found = Backed-Evolves m m' a pl.peers e (h a pl found)

put-AllBacked :
    (m : AllocationMap) (links : LinksMap) (a : ℕ) (pl : PeerLinks)
    → AllBacked m links
    → Backed m a pl.peers
    → AllBacked m (put links a pl)
put-AllBacked m links a pl h new c ql found =
    let e : (if a == c then some pl else get links c) ≡ some ql =
      sym (get-put links a c pl) ∙ found in
    elim (Bool-cases (a == c)) [
      | inl same ↦
          let here : a ≡ c = (==_iff a c).0 same in
          let eq : pl ≡ ql = some_same (rw same at e) in
          subst (λ x. Backed m x ql.peers) here (rw (← eq) new)
      | inr other ↦ h c ql (rw other at e)
    ]

abbrev pub Deploys : AllocationMap → Result LinksMap × AllocationMap → Type 0
Deploys m (ok links, m') = Evolves m m' × AllBacked m' links
Deploys m (raise e, m') = Evolves m m'

lifted-Deploys :
    {A : Type 0} (r : Result A) (f : A → Exec AllocationMap LinksMap) (m : AllocationMap)
    → ((x : A) → Deploys m (f x m))
    → Deploys m (and_then r f m)
lifted-Deploys (ok x) f m h = h x
lifted-Deploys (raise e) f m h = Evolves-refl m

Deploys-trans :
    (m m' : AllocationMap) (r : Result LinksMap × AllocationMap)
    → Evolves m m'
    → Deploys m' r
    → Deploys m r
Deploys-trans m m' (ok links, n) e s = (Evolves-trans e s.0, s.1)
Deploys-trans m m' (raise x, n) e s = Evolves-trans e s

then-Deploys :
    (m : AllocationMap) (a : ℕ) (r : Result (Dict ℕ Port) × AllocationMap)
    (f : Dict ℕ Port → Exec AllocationMap LinksMap)
    → Steps m a r
    → ((ports : Dict ℕ Port) (n : AllocationMap)
        → Evolves m n
        → Backed n a ports
        → Deploys n (f ports n))
    → Deploys m (and_then r.0 f r.1)
then-Deploys m a (ok ports, n) f s h = Deploys-trans m n _ s.0 (h ports n s.0 s.1)
then-Deploys m a (raise e, n) f s h = s

connect_peers-Deploys :
    (g : Generated) (n : ℕ) (peers : List ℕ) (links : LinksMap) (m : AllocationMap)
    → AllBacked m links
    → Deploys m (connect_peers g n peers links m)
unfolding connect_peers get
connect_peers-Deploys g n [] links m h = (Evolves-refl m, h)
connect_peers-Deploys g n (a ∷ rest) links m h = lifted-Deploys (g.count n) _ m λ count.
    then-Deploys m a (connect_peer g n a (range_from 0 count) [] m) _
      (connect_peer-Steps g n a (range_from 0 count) [] m (λ b p e. cc))
      (λ ports m' e h'.
        connect_peers-Deploys g (suc n) rest (put links a (record { n = n; peers = ports })) m' (
          put-AllBacked m' links a (record { n = n; peers = ports })
            (AllBacked-Evolves m m' links e h) h'))

pub deploy-Deploys :
    (generate : List ℕ → List ℕ → Result Generated) (peers private_peers : List ℕ)
    (m : AllocationMap)
    → Deploys m (deploy generate peers private_peers m)
unfolding deploy get
deploy-Deploys generate peers private_peers m =
    lifted-Deploys (generated generate peers private_peers)
      (λ g. connect_peers g 0 g.deployed_peers []) m
      λ g. connect_peers-Deploys g 0 g.deployed_peers [] m (λ a pl e. cc)
