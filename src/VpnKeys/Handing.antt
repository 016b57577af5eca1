-- ===== src/VpnKeys/Handing.antt =====
-- What the peers of a VPN are handed (uno/registry/vpn_keymat.py, `get_peer_material` of
-- `P2pVpnKeyMaterial`).
use uno.Prelude.{
  ℕ, ◌<◌, ◌≡◌, refl, sym, ap, ◌∙◌, ◌≢◌, ◌⊎◌, inl, inr, Bool, true, false, some, List, [], ◌∷◌, ◌++◌,
  arith, ◌==◌, if◌then◌else◌, Bool-cases, All, ok,
}
use uno.Prelude.Dict.{Dict, get, keys, pair_is_key, same_pair_iff}
use uno.PairedMap.{pair_key, pick, find}
use uno.PairedMap.Pairs.{pick_parts, pick_comm}
use uno.VpnKeys.{
  KeyPair, Psk, Material, Secret, of_key, of_psk, other_of, of_pair, add_key, keys_of, psks_of,
  and_psks, get_peer_material,
}
use uno.PairedMap.Storing.{find_comm}
use mathlib.Core.Path.{subst}
use uno.PairedMap.Keeping.{get-All, get_here, get_past}
use uno.VpnKeys.Made.{IsMade, KeysOf}
use uno.VpnKeys.Sharing.{Holds}

-- A pair of two different peers, the smaller one first.
abbrev IsLink : ℕ × ℕ → Type 0
IsLink (a, b) = a < b

abbrev pub In : Secret → List Secret → Type 0
In s [] = ⊥
In s (x ∷ xs) = (x ≡ s) ⊎ In s xs

other_of-pair :
    (peer other : ℕ) (pair : ℕ × ℕ)
    → peer ≢ other
    → pair ≡ pair_key peer other
    → (other_of peer pair ≡ ok other) × (of_pair peer pair ≡ true)
unfolding other_of pair_key
other_of-pair peer other pair ne e = rw e (ground arith)

other_of-IsLink : (peer : ℕ) (pair : ℕ × ℕ) → IsLink pair → (o : ℕ) × (other_of peer pair ≡ ok o)
unfolding other_of
other_of-IsLink peer (i, j) link = elim (Bool-cases (i == peer)) [
  | inl same ↦ (j, ground arith)
  | inr differ ↦ (i, ground arith)
]

module _ (peer : ℕ) (private : Bool) where
  abbrev handed : ℕ → KeyPair × KeyPair → Secret
  handed other ks = of_key (pick peer other (if private then peer else other) ks)

  keys_of_link :
      (pair : ℕ × ℕ) (ks : KeyPair × KeyPair) (rest : Dict (ℕ × ℕ) (KeyPair × KeyPair))
      (l : List Secret) (other : ℕ)
      → keys_of peer private rest ≡ ok l
      → other_of peer pair ≡ ok other
      → of_pair peer pair ≡ true
      → keys_of peer private ((pair, ks) ∷ rest) ≡ ok (handed other ks ∷ l)
  unfolding keys_of add_key
  keys_of_link pair ks rest l other e o h = rw h (
      ap (λ r. add_key peer private ks r (other_of peer pair)) e
      ∙ ap (λ r. add_key peer private ks (ok l) r) o)

  keys_of_skip :
      (pair : ℕ × ℕ) (ks : KeyPair × KeyPair) (rest : Dict (ℕ × ℕ) (KeyPair × KeyPair))
      → of_pair peer pair ≡ false
      → keys_of peer private ((pair, ks) ∷ rest) ≡ keys_of peer private rest
  unfolding keys_of
  keys_of_skip pair ks rest h = rw h refl

  -- The loop over the pairs never meets a pair without another peer.
  keys_of-ok :
      (d : Dict (ℕ × ℕ) (KeyPair × KeyPair))
      → All IsLink (keys d)
      → (l : List Secret) × (keys_of peer private d ≡ ok l)
  unfolding keys_of
  keys_of-ok [] links = ([], refl)
  keys_of-ok ((pair, ks) ∷ rest) links =
      let (l, e) = keys_of-ok rest links.1 in
      let (other, o) = other_of-IsLink peer pair links.0 in
      elim (Bool-cases (of_pair peer pair)) [
        | inl mine ↦ (handed other ks ∷ l, keys_of_link pair ks rest l other e o mine)
        | inr else_ ↦ (l, keys_of_skip pair ks rest else_ ∙ e)
      ]

  get-keys_of :
      (d : Dict (ℕ × ℕ) (KeyPair × KeyPair)) (other : ℕ) (ks : KeyPair × KeyPair)
      → peer ≢ other
      → All IsLink (keys d)
      → get d (pair_key peer other) ≡ some ks
      → (l : List Secret) × (keys_of peer private d ≡ ok l) × In (handed other ks) l
  unfolding get
  get-keys_of [] other ks ne links h = cc
  get-keys_of ((pair, w) ∷ rest) other ks ne links h =
      elim (Bool-cases (pair_is_key.is_key pair (pair_key peer other))) [
        | inl this ↦
            let e = (same_pair_iff pair (pair_key peer other)).0 this in
            let (o, mine) = other_of-pair peer other pair ne e in
            let (l, found) = keys_of-ok rest links.1 in
            let w≡ks : w ≡ ks = let s = get_here pair w rest (pair_key peer other) this in cc in
            (
              handed other w ∷ l,
              keys_of_link pair w rest l other found o mine,
              inl (ap (λ k. handed other k) w≡ks),
            )
        | inr later ↦
            let (l, e, held) =
              get-keys_of rest other ks ne links.1
                (sym (get_past pair w rest (pair_key peer other) later) ∙ h) in
            let (x, o) = other_of-IsLink peer pair links.0 in
            elim (Bool-cases (of_pair peer pair)) [
              | inl mine ↦ (handed x w ∷ l, keys_of_link pair w rest l x e o mine, inr held)
              | inr others ↦ (l, keys_of_skip pair w rest others ∙ e, held)
            ]
      ]

get-psks_of :
    (peer other : ℕ) (d : Dict (ℕ × ℕ) Psk) (psk : Psk)
    → peer ≢ other
    → get d (pair_key peer other) ≡ some psk
    → In (of_psk psk) (psks_of peer d)
unfolding psks_of get
get-psks_of peer other [] psk ne h = cc
get-psks_of peer other ((pair, w) ∷ rest) psk ne h =
    elim (Bool-cases (pair_is_key.is_key pair (pair_key peer other))) [
      | inl this ↦
          let e = (same_pair_iff pair (pair_key peer other)).0 this in
          let s = get_here pair w rest (pair_key peer other) this in
          rw ((other_of-pair peer other pair ne e).1) (inl cc)
      | inr later ↦
          let held =
            get-psks_of peer other rest psk ne
              (sym (get_past pair w rest (pair_key peer other) later) ∙ h) in
          elim (Bool-cases (of_pair peer pair)) [
            | inl mine ↦ rw mine (inr held)
            | inr others ↦ rw others held
          ]
    ]

In-append_right : (s : Secret) (xs ys : List Secret) → In s ys → In s (xs ++ ys)
In-append_right s [] ys h = h
In-append_right s (x ∷ xs) ys h = inr (In-append_right s xs ys h)

In-append_left : (s : Secret) (xs ys : List Secret) → In s xs → In s (xs ++ ys)
In-append_left s [] ys h = absurd h
In-append_left s (x ∷ xs) ys (inl e) = inl e
In-append_left s (x ∷ xs) ys (inr h) = inr (In-append_left s xs ys h)

KeysOf-links : (d : Dict (ℕ × ℕ) (KeyPair × KeyPair)) → All KeysOf d → All IsLink (keys d)
KeysOf-links [] h = tt
KeysOf-links ((k, ks) ∷ d) h = (h.0.0, KeysOf-links d h.1)

pick_key_id :
    (a b : ℕ) (ks : KeyPair × KeyPair)
    → a ≢ b
    → KeysOf (pair_key a b, ks)
    → (pick a b a ks).key_id ≢ (pick a b b ks).key_id
pick_key_id a b ks ne h same =
    let first = λ (p : KeyPair × KeyPair). p.0.key_id.1 in
    let second = λ (p : KeyPair × KeyPair). p.1.key_id.1 in
    let zeroth : ks.0.key_id.1 ≡ 0 = ap (λ (i : (ℕ × ℕ) × ℕ). i.1) h.1 in
    let other : ks.1.key_id.1 ≡ 1 = ap (λ (i : (ℕ × ℕ) × ℕ). i.1) h.2 in
    let level = ap (λ (i : (ℕ × ℕ) × ℕ). i.1) same in
    elim ((pick_parts a b ks ne).1) [
      | inl e ↦ absurd (omega (arith, ap first e, ap second e, zeroth, other, level))
      | inr e ↦ absurd (omega (arith, ap first e, ap second e, zeroth, other, level))
    ]

-- For two different peers whose link has keys, in material that is well made: `get_peer_material`
-- raises for neither of them. What it gives the first as public material has the key pair that it
-- gives the second as private material for this link, and the private material of the second also
-- has the preshared key. The key pairs of the two peers for the link differ.
pub get_peer_material-handed :
    {W : Type 0} (a b : ℕ) (m : Material W) (material : (KeyPair × KeyPair) × Psk)
    → a ≢ b
    → IsMade m
    → Holds a b material m
    → (for_a for_b : List Secret) × (get_peer_material a false m ≡ ok for_a)
      × (get_peer_material b true m ≡ ok for_b)
      × In (of_key (pick a b b material.0)) for_a
      × In (of_key (pick a b b material.0)) for_b
      × In (of_psk material.1) for_b
      × (pick a b a material.0 ≢ pick a b b material.0)
unfolding get_peer_material find and_psks
get_peer_material-handed a b m material ne made h =
    let links = KeysOf-links m.pair_keys.entries made.keys_made in
    let named = get-All KeysOf m.pair_keys.entries (pair_key a b) made.keys_made h.0 in
    let (for_a, e, held) = get-keys_of a false m.pair_keys.entries b material.0 ne links h.0 in
    let ne' : b ≢ a = λ same. ne (sym same) in
    let swapped = find_comm m.pair_keys b a ∙ h.0 in
    let (for_b, e', held') =
      get-keys_of b true m.pair_keys.entries a material.0 ne' links swapped in
    let psks = psks_of b m.preshared_keys.entries in
    (
      for_a ++ [],
      for_b ++ psks,
      ap (and_psks []) e,
      ap (and_psks psks) e',
      In-append_left _ for_a [] held,
      In-append_left _ for_b psks
          (subst (λ k. In (of_key k) for_b) (pick_comm b a b material.0) held'),
      In-append_right _ for_b psks (
          get-psks_of b a m.preshared_keys.entries material.1 ne'
            (find_comm m.preshared_keys b a ∙ h.1)),
      λ same. pick_key_id a b material.0 ne named (ap (λ (k : KeyPair). k.key_id) same),
    )
