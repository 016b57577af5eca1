-- ===== src/Tests/Keys.antt =====
-- Keys of links between peers (uno/registry/vpn_keymat.py) at concrete inputs.
use uno.Prelude.{
  zero, suc, ◌-◌, ◌-◌, suc, some, ℕ, ◌+◌, ◌≡◌, refl, ◌≢◌, Bool, true, false, none, List, [], ◌∷◌,
  arith, ok, Exec,
}
use Prim.Native.String.{String}
use uno.Prelude.Dict.{pair_is_key}
use uno.Prelude.Dict.{get, number_key}
use uno.PairedMap.{pick, find}
use uno.VpnKeys.{
  Fields, KeyPair, Psk, Material, Secret, of_key, of_psk, p2p_assert_pair, get_pair_material,
  get_peer_material,
}
use uno.VpnKeys.Sharing.{Holds, p2p_assert_pair-p2p_assert_pair}
use uno.Prelude.Sets.{contains}
use uno.Central.{
  KeyName, KeyName, Central, NamedKey, assert_keys, Item, of_key as of_named, of_psk as of_shared,
  get_central_material,
}
use uno.Central.Material.{Each, IsPsk, IsKey, get_central_material_root, get_central_material_peer}
use uno.VpnKeys.Made.{IsMade}
use uno.VpnKeys.Handing.{In, get_peer_material-handed}

-- A `wg` that counts its runs. The two keys of a link are different.
abbrev pub private_text : ℕ → String
private_text zero = "private 0"
private_text (suc i) = "private 1"

abbrev pub public_text : ℕ → String
public_text zero = "public 0"
public_text (suc i) = "public 1"

abbrev pub genkeypair : (ℕ × ℕ) × ℕ → Exec ℕ (String × String)
genkeypair key_id runs = (ok (private_text key_id.1, public_text key_id.1), runs + 1)

-- The same, for the keys of a VPN with a root.
abbrev pub genkeypair_named : KeyName → Exec ℕ (String × String)
genkeypair_named KeyName.root runs = (ok ("private root", "public root"), runs + 1)
genkeypair_named (KeyName.peer p) runs = (ok (private_text (p - 4), public_text (p - 4)), runs + 1)

abbrev pub genkeypreshared : ℕ × ℕ → Exec ℕ String
genkeypreshared pair runs = (ok "preshared", runs + 1)

abbrev nothing_changed : Fields ℕ
nothing_changed = record { world = 0; content_changed = false }

abbrev pub empty_material : Bool → Material ℕ
empty_material readonly = record {
  readonly = readonly;
  pair_keys = record { entries = []; fields = nothing_changed };
  preshared_keys = record { entries = []; fields = nothing_changed };
}

abbrev key_of : ℕ → KeyPair
key_of i = record {
  key_id = ((2, 5), i);
  public = public_text i;
  private = private_text i;
  dropped = false;
}

abbrev psk_of : Psk
psk_of = record { key_id = (2, 5); value = "preshared"; dropped = false }

abbrev of_link : (KeyPair × KeyPair) × Psk
of_link = ((key_of 0, key_of 1), psk_of)

abbrev with_link : Material ℕ
with_link = record {
  readonly = false;
  pair_keys = record {
    entries = ((2, 5), (key_of 0, key_of 1)) ∷ [];
    fields = record { world = 2; content_changed = true };
  };
  preshared_keys = record {
    entries = ((2, 5), psk_of) ∷ [];
    fields = record { world = 1; content_changed = true };
  };
}

run_5-2 :
    p2p_assert_pair genkeypair genkeypreshared 5 2 (empty_material false)
    ≡ (ok (of_link, true), with_link)
unfolding p2p_assert_pair
run_5-2 = refl

run_returns :
    (p2p_assert_pair genkeypair genkeypreshared 5 2 (empty_material false)).0 ≡ ok (of_link, true)
unfolding p2p_assert_pair
run_returns = refl

private_of_2 : get_peer_material 2 true with_link ≡ ok (of_key (key_of 0) ∷ of_psk psk_of ∷ [])
unfolding get_peer_material
private_of_2 = refl

empty-IsMade : IsMade (empty_material false)
empty-IsMade = record { keys_made = tt; psks_made = tt }

with_link-IsMade : IsMade with_link
with_link-IsMade = record {
  keys_made = ((omega arith, refl, refl), tt);
  psks_made = ((omega arith, refl), tt);
}

with_link-Holds : Holds 5 2 of_link with_link
unfolding find
with_link-Holds = (refl, refl)

nothing_stored : find (empty_material true).pair_keys 5 2 ≡ none
unfolding find
nothing_stored = refl

p2p_assert_pair-p2p_assert_pair_example :
    let m' = (p2p_assert_pair genkeypair genkeypreshared 5 2 (empty_material false)).1 in
    let frozen = record m' { readonly = true } in
    (p2p_assert_pair genkeypair genkeypreshared 2 5 m' ≡ (ok (of_link, false), m'))
    × (p2p_assert_pair genkeypair genkeypreshared 5 2 m' ≡ (ok (of_link, false), m'))
    × (p2p_assert_pair genkeypair genkeypreshared 2 5 frozen ≡ (ok (of_link, false), frozen))
    × (p2p_assert_pair genkeypair genkeypreshared 5 2 frozen ≡ (ok (of_link, false), frozen))
    × (get_pair_material 5 2 m' ≡ ok of_link)
    × (get_pair_material 2 5 m' ≡ ok of_link)
p2p_assert_pair-p2p_assert_pair_example =
    p2p_assert_pair-p2p_assert_pair genkeypair genkeypreshared 5 2 (empty_material false)
      run_returns

get_peer_material-handed_example :
    (for_a for_b : List Secret) × (get_peer_material 5 false with_link ≡ ok for_a)
    × (get_peer_material 2 true with_link ≡ ok for_b)
    × In (of_key (pick 5 2 2 (key_of 0, key_of 1))) for_a
    × In (of_key (pick 5 2 2 (key_of 0, key_of 1))) for_b
    × In (of_psk psk_of) for_b
    × (pick 5 2 5 (key_of 0, key_of 1) ≢ pick 5 2 2 (key_of 0, key_of 1))
get_peer_material-handed_example =
    get_peer_material-handed 5 2 with_link of_link (omega arith) with_link-IsMade with_link-Holds

abbrev pub central : Central ℕ
central = record {
  readonly = false;
  peer_ids = 4 ∷ 7 ∷ [];
  root_key = none;
  peer_keys = [];
  preshared_keys = record { entries = []; fields = nothing_changed };
  world = 0;
  peer_keys_changed = false;
}

pub central_returns : (assert_keys genkeypair_named genkeypreshared central).0 ≡ ok tt
unfolding assert_keys
central_returns = refl

central_has_7 : contains (assert_keys genkeypair_named genkeypreshared central).1.peer_ids 7 ≡ true
unfolding assert_keys
central_has_7 = refl

get_central_material_root_example :
    let m' = (assert_keys genkeypair_named genkeypreshared central).1 in
    (private : List Item) × (public : List Item) × (k : NamedKey) × (m'.root_key ≡ some k)
    × (get_central_material 0 true m' ≡ ok (of_named k ∷ private))
    × (get_central_material 0 false m' ≡ ok public)
    × Each (IsPsk m') m'.peer_ids private
    × Each (IsKey m') m'.peer_ids public
get_central_material_root_example =
    get_central_material_root genkeypair_named genkeypreshared central refl central_returns

get_central_material_peer_example :
    let m' = (assert_keys genkeypair_named genkeypreshared central).1 in
    (k : NamedKey) × (key : NamedKey) × (psk : Psk) × (m'.root_key ≡ some k)
    × (get m'.peer_keys 7 ≡ some key)
    × (find m'.preshared_keys 0 7 ≡ some psk)
    × (get_central_material 7 true m' ≡ ok (of_named key ∷ of_shared psk ∷ []))
    × (get_central_material 7 false m' ≡ ok (of_named k ∷ []))
get_central_material_peer_example =
    get_central_material_peer genkeypair_named genkeypreshared central 7 refl central_returns
      central_has_7 (omega arith)
