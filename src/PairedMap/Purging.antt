-- ===== src/PairedMap/Purging.antt =====
-- What `purge_peer` removes and returns (uno/core/paired_map.py).
use uno.Prelude.{
  ◌∙◌, and_then, Exec, ℕ, Bool, true, false, ◌≡◌, refl, Option, none, some, arith, ◌≤◌, not, ◌&&◌,
  ◌||◌, ◌==◌, if◌then◌else◌, ok, Result, List, [], ◌∷◌, All, Bool-cases, inl, inr,
}
use uno.Prelude.Dict.{
  is_some-get, delete-IsUnique, keys, get-put, get-delete, pair_is_key, is_some, IsUnique, Dict,
  get, put, delete, mem, same_pair_iff,
}
use uno.PairedMap.{raise, find, PairedMap, pair_key, purge_key, purge_peer, purge_keys}
use uno.PairedMap.Pairs.{pair_key_self}
use uno.PairedMap.Storing.{IsValid, IsOrdered}

-- The peer is one of the pair.
abbrev pub touches : ℕ → ℕ × ℕ → Bool
touches p (a, b) = (p == a) || (p == b)

abbrev State : Type 0 → Type 0
State V = Dict (ℕ × ℕ) V × Dict (ℕ × ℕ) V

module _ {V : Type 0} (p : ℕ) where
  purge_keys-skip :
      (a b : ℕ) (rest : List (ℕ × ℕ)) (s : State V)
      → touches p (a, b) ≡ false
      → purge_keys p ((a, b) ∷ rest) s ≡ purge_keys p rest s
  unfolding purge_keys
  purge_keys-skip a b rest s h = ground arith

  purge_keys-take :
      (a b : ℕ) (rest : List (ℕ × ℕ)) (s : State V) (v : V)
      → touches p (a, b) ≡ true
      → a ≤ b
      → get s.0 (a, b) ≡ some v
      → purge_keys p ((a, b) ∷ rest) s ≡ purge_keys p rest (delete s.0 (a, b), put s.1 (a, b) v)
  unfolding purge_keys
  purge_keys-take a b rest s v h o e = rw (pair_key_self a b o, e) (ground arith)

  -- What a run of the loop over `ks` leaves and returns.
  record Purges (ks : List (ℕ × ℕ)) (s : State V) (r : Result (Unit {0}) × State V) : Type 0 where
    returns : r.0 ≡ ok tt
    left : (j : ℕ × ℕ) → get r.1.0 j ≡ (if mem ks j && touches p j then none else get s.0 j)
    gone : (j : ℕ × ℕ) → get r.1.1 j ≡ (if mem ks j && touches p j then get s.0 j else get s.1 j)

  Purges-skip :
      (k : ℕ × ℕ) (ks : List (ℕ × ℕ)) (s : State V) (r : Result (Unit {0}) × State V)
      → touches p k ≡ false
      → Purges ks s r
      → Purges (k ∷ ks) s r
  Purges-skip k ks s r h w = record {
    returns = w.returns;
    left = λ j. ground (arith, w.left j, same_pair_iff k j);
    gone = λ j. ground (arith, w.gone j, same_pair_iff k j);
  }

  Purges-take :
      (k : ℕ × ℕ) (ks : List (ℕ × ℕ)) (s : State V) (r : Result (Unit {0}) × State V) (v : V)
      → touches p k ≡ true
      → mem ks k ≡ false
      → get s.0 k ≡ some v
      → Purges ks (delete s.0 k, put s.1 k v) r
      → Purges (k ∷ ks) s r
  Purges-take k ks s r v h absent e w = record {
    returns = w.returns;
    left = λ j. ground (arith, w.left j, get-delete s.0 k j, same_pair_iff k j);
    gone = λ j. ground (arith, w.gone j, get-delete s.0 k j, get-put s.1 k j v, same_pair_iff k j);
  }

  present : (k : ℕ × ℕ) (o : Option V) → is_some o ≡ true → (v : V) × (o ≡ some v)
  present k none h = cc
  present k (some v) h = (v, refl)

  Purges-purge_keys :
      (ks : List (ℕ × ℕ)) (s : State V)
      → All IsOrdered ks
      → IsUnique ks
      → ((k : ℕ × ℕ) → mem ks k ≡ true → is_some (get s.0 k) ≡ true)
      → Purges ks s (purge_keys p ks s)
  unfolding purge_keys
  Purges-purge_keys [] s o u held = record { returns = refl; left = λ j. refl; gone = λ j. refl }
  Purges-purge_keys ((a, b) ∷ ks) s o u held = elim (Bool-cases (touches p (a, b))) [
    | inl hit ↦
        let (v, e) = present (a, b) (get s.0 (a, b)) (held (a, b) (ground arith)) in
        rw (purge_keys-take a b ks s v hit o.0 e) (
          Purges-take (a, b) ks s _ v hit u.0 e
            (Purges-purge_keys ks (delete s.0 (a, b), put s.1 (a, b) v) o.1 u.1
              λ k m. ground (arith, held k, get-delete s.0 (a, b) k, same_pair_iff (a, b) k)))
    | inr miss ↦ rw (purge_keys-skip a b ks s miss) (
        Purges-skip (a, b) ks s _ miss
          (Purges-purge_keys ks s o.1 u.1 λ k m. held k (ground arith)))
  ]

touches-pair_key : (p c d : ℕ) → touches p (pair_key c d) ≡ touches p (c, d)
unfolding pair_key
touches-pair_key p c d = ground arith

delete-All-IsOrdered :
    {V : Type 0} (d : Dict (ℕ × ℕ) V) (k : ℕ × ℕ)
    → All IsOrdered (keys d)
    → All IsOrdered (keys (delete d k))
unfolding delete
delete-All-IsOrdered [] k h = h
delete-All-IsOrdered ((i, w) ∷ d) k h = ground (arith, delete-All-IsOrdered d k h.1)

module _ {V : Type 0} (p : ℕ) where
  abbrev HasValidKeys : State V → Type 0
  HasValidKeys s = All IsOrdered (keys s.0) × IsUnique (keys s.0)

  purge_key-HasValidKeys :
      (k : ℕ × ℕ) (o : Option V) (s : State V) → HasValidKeys s → HasValidKeys (purge_key k o s).1
  unfolding purge_key
  purge_key-HasValidKeys k none s h = h
  purge_key-HasValidKeys k (some v) s h =
      (delete-All-IsOrdered s.0 k h.0, delete-IsUnique s.0 k h.1)

  and_then-HasValidKeys :
      (r : Result (Unit {0})) (f : Exec (State V) (Unit {0})) (s : State V)
      → HasValidKeys s
      → ((s : State V) → HasValidKeys s → HasValidKeys (f s).1)
      → HasValidKeys (and_then r (λ _. f) s).1
  and_then-HasValidKeys (ok _) f s h ih = ih s h
  and_then-HasValidKeys (raise e) f s h ih = h

  purge_keys-HasValidKeys :
      (ks : List (ℕ × ℕ)) (s : State V) → HasValidKeys s → HasValidKeys (purge_keys p ks s).1
  unfolding purge_keys
  purge_keys-HasValidKeys [] s h = h
  purge_keys-HasValidKeys ((a, b) ∷ ks) s h = elim (Bool-cases (not (p == a) && not (p == b))) [
    | inl miss ↦ rw miss (purge_keys-HasValidKeys ks s h)
    | inr hit ↦ rw hit (
        and_then-HasValidKeys (purge_key (pair_key a b) (get s.0 (pair_key a b)) s).0
          (purge_keys p ks) _ (purge_key-HasValidKeys (pair_key a b) _ s h)
          (purge_keys-HasValidKeys ks))
  ]

module _ {F V : Type 0} (p : ℕ) where
  and_then-entries :
      (r : Result (Unit {0})) (purged : Dict (ℕ × ℕ) V) (m : PairedMap F V)
      → (and_then r (λ _ m'. (ok purged, m')) m).1 ≡ m
  and_then-entries (ok _) purged m = refl
  and_then-entries (raise e) purged m = refl

  -- `purge_peer` keeps the keys of the map ordered and distinct.
  pub purge_peer-IsValid : (m : PairedMap F V) → IsValid m → IsValid (purge_peer p m).1
  unfolding purge_peer
  purge_peer-IsValid m h =
      let valid =
        purge_keys-HasValidKeys p (keys m.entries) (m.entries, []) (h.ordered, h.unique) in
      let (r, (entries, purged)) = purge_keys p (keys m.entries) (m.entries, []) in
      rw (and_then-entries r purged (record m { entries = entries }))
        (record { ordered = valid.0; unique = valid.1 })

  -- In a map with ordered, distinct keys `purge_peer` does not raise. Afterwards no pair with the
  -- peer is stored and every other pair is stored as before; what it returns holds the pairs with
  -- the peer, with their values, and no other; and the other fields are unchanged.
  pub purge_peer_lem :
      (m : PairedMap F V)
      → IsValid m
      → (purged : Dict (ℕ × ℕ) V) × ((purge_peer p m).0 ≡ ok purged)
        × ((c d : ℕ)
            → find (purge_peer p m).1 c d ≡ (if touches p (c, d) then none else find m c d))
        × ((c d : ℕ) → get purged (pair_key c d) ≡ (if touches p (c, d) then find m c d else none))
        × ((purge_peer p m).1.fields ≡ m.fields)
  unfolding purge_peer find
  purge_peer_lem m h =
      let w =
        Purges-purge_keys p (keys m.entries) (m.entries, []) h.ordered h.unique
          (λ k held. is_some-get m.entries k ∙ held) in
      (
        (purge_keys p (keys m.entries) (m.entries, [])).1.1,
        rw (w.returns),
        (λ c d.
            rw (w.returns, w.left)
              (ground (arith, touches-pair_key p c d, is_some-get m.entries (pair_key c d)))),
        (λ c d.
            rw (w.gone)
              (ground (arith, touches-pair_key p c d, is_some-get m.entries (pair_key c d)))),
        rw (w.returns),
      )
