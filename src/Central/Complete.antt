-- ===== src/Central/Complete.antt =====
-- After `assert_keys` no key is missing (uno/registry/vpn_keymat.py, `assert_keys` and
-- `get_peer_material` of `CentralizedVpnKeyMaterial`).
use uno.Prelude.{
  ℕ, ◌≡◌, refl, sym, ap, ◌∙◌, ◌≢◌, inl, inr, Bool, true, false, Option, none, some, List, [], ◌∷◌,
  if◌then◌else◌, Bool-cases, All, Result, ok, raise, Exec, and_then, and_then-eq-ok,
}
use Prim.Native.String.{String}
use uno.Prelude.Dict.{Dict, get, put, get-put, get-put_self, number_key, pair_is_key}
use uno.PairedMap.{find}
use uno.VpnKeys.{Psk, generate_psk}
use mathlib.Core.Path.{subst}
use uno.VpnKeys.Staying.{stays_stored}
use uno.VpnKeys.Sharing.{find-keys_assert_pair}
use uno.Central.{
  KeyName, Central, NamedKey, peer, root, new_key, assert_root, assert_peer_key, assert_peer_psk,
  assert_peers, assert_keys,
}

-- What one state has, the next still has.
record Keeps {W : Type 0} (m m' : Central W) : Type 0 where
  ids : m'.peer_ids ≡ m.peer_ids
  roots : (k : NamedKey) → m.root_key ≡ some k → m'.root_key ≡ some k
  peers : (p : ℕ) (k : NamedKey) → get m.peer_keys p ≡ some k → get m'.peer_keys p ≡ some k
  psks :
      (p : ℕ) (k : Psk) → find m.preshared_keys 0 p ≡ some k → find m'.preshared_keys 0 p ≡ some k

Keeps-trans : {W : Type 0} (m m' m'' : Central W) → Keeps m m' → Keeps m' m'' → Keeps m m''
Keeps-trans m m' m'' h h' = record {
  ids = h'.ids ∙ h.ids;
  roots = λ k e. h'.roots k (h.roots k e);
  peers = λ p k e. h'.peers p k (h.peers p k e);
  psks = λ p k e. h'.psks p k (h.psks p k e);
}

-- The keys of a peer are there.
abbrev pub Has : {W : Type 0} → Central W → ℕ → Type 0
Has m p =
    ((k : NamedKey) × (get m.peer_keys p ≡ some k))
    × ((k : Psk) × (find m.preshared_keys 0 p ≡ some k))

Has-Keeps : {W : Type 0} (m m' : Central W) (p : ℕ) → Keeps m m' → Has m p → Has m' p
Has-Keeps m m' p keeps h = ((h.0.0, keeps.peers p h.0.0 h.0.1), (h.1.0, keeps.psks p h.1.0 h.1.1))

Keeps-refl : {W : Type 0} (m : Central W) → Keeps m m
Keeps-refl m = record { ids = refl; roots = λ k e. e; peers = λ p k e. e; psks = λ p k e. e }

none-some : {A : Type 0} {a : A} → none ≢ some a
none-some h = cc

put_new :
    (d : Dict ℕ NamedKey) (p q : ℕ) (new k : NamedKey)
    → get d p ≡ none
    → get d q ≡ some k
    → get (put d p new) q ≡ some k
put_new d p q new k free e = elim (Bool-cases (number_key.is_key p q)) [
  | inl same ↦
      let s = (number_key.is_key_iff p q).0 same in absurd (none-some (sym free ∙ ap (get d) s ∙ e))
  | inr other ↦ rw (get-put, other) e
]

with_peer_key :
    {W : Type 0} (p : ℕ) (r : Result NamedKey) (m : Central W) (w : W)
    → get m.peer_keys p ≡ none
    → let run : Result (Unit {0}) × Central W =
        and_then r
          (λ k s. (ok tt, record s { peer_keys = put s.peer_keys p k; peer_keys_changed = true }))
          (record m { world = w }) in
      run.0 ≡ ok tt → Keeps m run.1 × ((k : NamedKey) × (get run.1.peer_keys p ≡ some k))
with_peer_key p (raise x) m w e h = cc
with_peer_key p (ok new) m w e h = (
  record {
    ids = refl;
    roots = λ k i. i;
    peers = λ q k i. put_new m.peer_keys p q new k e i;
    psks = λ q k i. i;
  },
  (new, get-put_self m.peer_keys p new),
)

with_root_key :
    {W : Type 0} (r : Result NamedKey) (m : Central W) (w : W)
    → m.root_key ≡ none
    → let run : Result (Unit {0}) × Central W =
        and_then r (λ k s. (ok tt, record s { root_key = some k })) (record m { world = w }) in
      run.0 ≡ ok tt → Keeps m run.1 × ((k : NamedKey) × (run.1.root_key ≡ some k))
with_root_key (raise x) m w e h = cc
with_root_key (ok new) m w e h = (
  record {
    ids = refl;
    roots = λ k i. absurd (none-some (sym e ∙ i));
    peers = λ q k i. i;
    psks = λ q k i. i;
  },
  (new, refl),
)

by_flag :
    {W : Type 0} (c : Bool) (x y : Result (Unit {0}) × Central W)
    → c ≡ false
    → (y.0 ≡ ok tt → ((k : NamedKey) × (y.1.root_key ≡ some k)) × All (Has y.1) y.1.peer_ids)
    → let run = if c then x else y in
      run.0 ≡ ok tt → ((k : NamedKey) × (run.1.root_key ≡ some k)) × All (Has run.1) run.1.peer_ids
by_flag true x y c f h = cc
by_flag false x y c f h = f h

module _ {W : Type 0} (genkeypair : KeyName → Exec W (String × String))
    (genkeypreshared : ℕ × ℕ → Exec W String) where
  assert_peer_key_lem :
      (p : ℕ) (o : Option NamedKey) (m : Central W)
      → get m.peer_keys p ≡ o
      → let run = assert_peer_key genkeypair genkeypreshared p o m in
        run.0 ≡ ok tt → Keeps m run.1 × ((k : NamedKey) × (get run.1.peer_keys p ≡ some k))
  unfolding assert_peer_key new_key
  assert_peer_key_lem p (some k) m e h = (Keeps-refl m, (k, e))
  assert_peer_key_lem p none m e h =
      with_peer_key p (new_key genkeypair genkeypreshared (peer p) m).0 m
        (genkeypair (peer p) m.world).1 e h

  assert_root_lem :
      (o : Option NamedKey) (m : Central W)
      → m.root_key ≡ o
      → let run = assert_root genkeypair genkeypreshared o m in
        run.0 ≡ ok tt → Keeps m run.1 × ((k : NamedKey) × (run.1.root_key ≡ some k))
  unfolding assert_root new_key
  assert_root_lem (some k) m e h = (Keeps-refl m, (k, e))
  assert_root_lem none m e h =
      with_root_key (new_key genkeypair genkeypreshared root m).0 m (genkeypair root m.world).1 e h

  assert_peer_psk_lem :
      (p : ℕ) (m : Central W) {r : Psk × Bool}
      → let run = assert_peer_psk genkeypair genkeypreshared p m in
        run.0 ≡ ok r → Keeps m run.1 × (find run.1.preshared_keys 0 p ≡ some r.0)
  unfolding assert_peer_psk
  assert_peer_psk_lem p m h = (
    record {
      ids = refl;
      roots = λ k e. e;
      peers = λ q k e. e;
      psks = λ q k e. stays_stored (generate_psk genkeypreshared) 0 p m.preshared_keys 0 q k e;
    },
    find-keys_assert_pair (generate_psk genkeypreshared) 0 p m.preshared_keys h,
  )

  assert_peers_lem :
      (ps : List ℕ) (m : Central W)
      → let run = assert_peers genkeypair genkeypreshared ps m in
        run.0 ≡ ok tt → Keeps m run.1 × All (Has run.1) ps
  unfolding assert_peers
  assert_peers_lem [] m h = (Keeps-refl m, tt)
  assert_peers_lem (p ∷ ps) m h =
      let first = assert_peer_key genkeypair genkeypreshared p (get m.peer_keys p) m in
      let (u, e, h') = and_then-eq-ok first.0 _ first.1 h in
      let second = assert_peer_psk genkeypair genkeypreshared p first.1 in
      let (psk, e', h'') = and_then-eq-ok second.0 _ second.1 h' in
      let (keeps, (k, has_key)) = assert_peer_key_lem p (get m.peer_keys p) m refl e in
      let (keeps', has_psk) = assert_peer_psk_lem p first.1 e' in
      let (keeps'', all) = assert_peers_lem ps second.1 h'' in
      let last = (assert_peers genkeypair genkeypreshared ps second.1).1 in
      let end : (assert_peers genkeypair genkeypreshared (p ∷ ps) m).1 ≡ last = rw (e, e') refl in
      subst (λ s. Keeps m s × All (Has s) (p ∷ ps)) (sym end)
        (
          Keeps-trans m first.1 last keeps (Keeps-trans first.1 second.1 last keeps' keeps''),
          (
            Has-Keeps second.1 last p keeps'' ((k, keeps'.peers p k has_key), (psk.0, has_psk)),
            all,
          ),
        )

  body_lem :
      (m : Central W)
      → let first = assert_root genkeypair genkeypreshared m.root_key m in
        let run =
          and_then first.0 (λ _. assert_peers genkeypair genkeypreshared m.peer_ids) first.1 in
        run.0 ≡ ok tt
        → ((k : NamedKey) × (run.1.root_key ≡ some k)) × All (Has run.1) run.1.peer_ids
  body_lem m h =
      let first = assert_root genkeypair genkeypreshared m.root_key m in
      let (u, e, h') =
        and_then-eq-ok first.0 (λ _. assert_peers genkeypair genkeypreshared m.peer_ids) first.1
          h in
      let (keeps, (k, has_root)) = assert_root_lem m.root_key m refl e in
      let last = (assert_peers genkeypair genkeypreshared m.peer_ids first.1).1 in
      let (keeps', all) = assert_peers_lem m.peer_ids first.1 h' in
      let end : (and_then first.0 (λ _. assert_peers genkeypair genkeypreshared m.peer_ids)
            first.1).1
          ≡ last =
        rw e refl in
      subst (λ (s : Central W). ((k : NamedKey) × (s.root_key ≡ some k)) × All (Has s) s.peer_ids)
        (sym end)
        (
          (k, keeps'.roots k has_root),
          subst (λ ps. All (Has last) ps) (sym (keeps'.ids ∙ keeps.ids)) all,
        )

  -- After `assert_keys` of material that is not readonly returned, the root and every peer have
  -- their keys.
  pub assert_keys_lem :
      (m : Central W)
      → m.readonly ≡ false
      → let run = assert_keys genkeypair genkeypreshared m in
        run.0 ≡ ok tt
        → ((k : NamedKey) × (run.1.root_key ≡ some k)) × All (Has run.1) run.1.peer_ids
  unfolding assert_keys
  assert_keys_lem m writable h = by_flag m.readonly (ok tt, m) _ writable (body_lem m) h
