-- ===== src/Central/Material.antt =====
-- What the root and the peers are handed after `assert_keys` (uno/registry/vpn_keymat.py,
-- `get_peer_material` of `CentralizedVpnKeyMaterial`).
use uno.Prelude.{
  ℕ, ◌≡◌, refl, ap, ◌∙◌, ◌≢◌, inl, inr, true, false, some, List, [], ◌∷◌, arith, ◌==◌, ==_iff,
  Bool-cases, All, ok, Exec,
}
use Prim.Native.String.{String}
use mathlib.Core.Path.{subst}
use uno.Prelude.Sets.{contains}
use uno.Prelude.Dict.{get, number_key}
use uno.PairedMap.{find}
use uno.VpnKeys.{Psk, or_missing}
use uno.Central.{
  KeyName, Central, NamedKey, assert_keys, Item, of_key, of_psk, key_item, psk_item, prepend, items,
  get_central_material,
}
use uno.Central.Complete.{Has, assert_keys_lem}

-- The items of a list are those of the peers of another, in order.
pub Each : (ℕ → Item → Type 0) → List ℕ → List Item → Type 0
Each Of [] [] = Unit
Each Of (p ∷ ps) (x ∷ xs) = Of p x × Each Of ps xs
Each Of (p ∷ ps) [] = ⊥
Each Of [] (x ∷ xs) = ⊥

module _ {W : Type 0} where
  -- The item is the preshared key that a peer has with the root.
  abbrev pub IsPsk : Central W → ℕ → Item → Type 0
  IsPsk m p x = (psk : Psk) × (find m.preshared_keys 0 p ≡ some psk) × (x ≡ of_psk psk)

  -- The item is the key pair of a peer.
  abbrev pub IsKey : Central W → ℕ → Item → Type 0
  IsKey m p x = (k : NamedKey) × (get m.peer_keys p ≡ some k) × (x ≡ of_key k)

  public_items :
      (ps : List ℕ) (m : Central W)
      → All (Has m) ps
      → (l : List Item) × (items false ps m ≡ ok l) × Each (IsKey m) ps l
  unfolding items prepend key_item Each
  public_items [] m h = ([], refl, tt)
  public_items (p ∷ ps) m h =
      let (l, e, each) = public_items ps m h.1 in
      let (k, has) = h.0.0 in (of_key k ∷ l, rw (has, e) refl, ((k, has, refl), each))

  private_items :
      (ps : List ℕ) (m : Central W)
      → All (Has m) ps
      → (l : List Item) × (items true ps m ≡ ok l) × Each (IsPsk m) ps l
  unfolding items prepend psk_item Each
  private_items [] m h = ([], refl, tt)
  private_items (p ∷ ps) m h =
      let (l, e, each) = private_items ps m h.1 in
      let (psk, has) = h.0.1 in (of_psk psk ∷ l, rw (has, e) refl, ((psk, has, refl), each))

  one_of : (ps : List ℕ) (p : ℕ) (m : Central W) → All (Has m) ps → contains ps p ≡ true → Has m p
  one_of [] p m h c = cc
  one_of (q ∷ ps) p m h c = elim (Bool-cases (q == p)) [
    | inl same ↦ subst (Has m) ((==_iff q p).0 same) h.0
    | inr other ↦ one_of ps p m h.1 (ground arith)
  ]

  root_private :
      (m : Central W) (k : NamedKey) (l : List Item)
      → m.root_key ≡ some k
      → items true m.peer_ids m ≡ ok l
      → get_central_material 0 true m ≡ ok (of_key k ∷ l)
  unfolding get_central_material prepend key_item or_missing
  root_private m k l e i =
      ap (λ r. or_missing (prepend (key_item r) (items true m.peer_ids m))) e
      ∙ ap (λ r. or_missing (prepend (ok (of_key k)) r)) i

  root_public :
      (m : Central W) (l : List Item)
      → items false m.peer_ids m ≡ ok l
      → get_central_material 0 false m ≡ ok l
  unfolding get_central_material or_missing
  root_public m l i = rw i refl

  peer_material :
      (m : Central W) (p : ℕ) (k key : NamedKey) (psk : Psk)
      → (p == 0) ≡ false
      → m.root_key ≡ some k
      → get m.peer_keys p ≡ some key
      → find m.preshared_keys 0 p ≡ some psk
      → (get_central_material p true m ≡ ok (of_key key ∷ of_psk psk ∷ []))
        × (get_central_material p false m ≡ ok (of_key k ∷ []))
  unfolding get_central_material prepend key_item psk_item or_missing
  peer_material m p k key psk ne r e f = (rw (ne, e, f) refl, rw (ne, r) refl)

module _ {W : Type 0} (genkeypair : KeyName → Exec W (String × String))
    (genkeypreshared : ℕ × ℕ → Exec W String) where
  -- After `assert_keys` of material that is not readonly returned, `get_peer_material` raises
  -- nothing for the root: its private material is its key pair and then the preshared keys that the
  -- peers have with it, and its public material is the key pairs of the peers, both in the order
  -- of the peers.
  pub get_central_material_root :
      (m : Central W)
      → m.readonly ≡ false
      → let run = assert_keys genkeypair genkeypreshared m in
        run.0 ≡ ok tt
        → (private : List Item) × (public : List Item) × (k : NamedKey) × (run.1.root_key ≡ some k)
          × (get_central_material 0 true run.1 ≡ ok (of_key k ∷ private))
          × (get_central_material 0 false run.1 ≡ ok public)
          × Each (IsPsk run.1) run.1.peer_ids private
          × Each (IsKey run.1) run.1.peer_ids public
  get_central_material_root m writable h =
      let m' = (assert_keys genkeypair genkeypreshared m).1 in
      let ((k, has), all) = assert_keys_lem genkeypair genkeypreshared m writable h in
      let (l, e, n) = private_items m'.peer_ids m' all in
      let (l', e', n') = public_items m'.peer_ids m' all in
      (l, l', k, has, root_private m' k l has e, root_public m' l' e', n, n')

  -- After `assert_keys` of material that is not readonly returned, `get_peer_material` raises
  -- nothing for a peer other than the root: its private material is its own key pair and the
  -- preshared key that it has with the root, and its public material is the root's key pair.
  pub get_central_material_peer :
      (m : Central W) (p : ℕ)
      → m.readonly ≡ false
      → let run = assert_keys genkeypair genkeypreshared m in
        run.0 ≡ ok tt
        → contains run.1.peer_ids p ≡ true
        → p ≢ 0
        → (k : NamedKey) × (key : NamedKey) × (psk : Psk) × (run.1.root_key ≡ some k)
          × (get run.1.peer_keys p ≡ some key)
          × (find run.1.preshared_keys 0 p ≡ some psk)
          × (get_central_material p true run.1 ≡ ok (of_key key ∷ of_psk psk ∷ []))
          × (get_central_material p false run.1 ≡ ok (of_key k ∷ []))
  get_central_material_peer m p writable h c ne =
      let m' = (assert_keys genkeypair genkeypreshared m).1 in
      let ((k, has), all) = assert_keys_lem genkeypair genkeypreshared m writable h in
      let ((key, has_key), (psk, has_psk)) = one_of m'.peer_ids p m' all c in
      let (private, public) = peer_material m' p k key psk (ground arith) has has_key has_psk in
      (k, key, psk, has, has_key, has_psk, private, public)
