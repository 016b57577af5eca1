-- ===== src/Tests/Dropped.antt =====
-- Dropping all keys of a map of preshared keys (uno/registry/vpn_keymat.py) at concrete inputs.
use uno.Prelude.{
  ℕ, ◌≡◌, refl, true, false, not, [], ◌∷◌, ◌++◌, arith, ltb, if◌then◌else◌, length, All,
}
use uno.Prelude.Dict.{Dict, keys, mem, pair_is_key}
use uno.VpnKeys.{Psk}
use uno.VpnKeys.Dropping.{Keys, values, to_delete, drop_all_keys}
use uno.VpnKeys.Dropping.Once.{select_pairs, Apart, drop_all_keys_lem, drop_all_keys_again}

abbrev mark : Psk → Psk
mark k = record k { dropped = true }

abbrev psk : ℕ × ℕ → Psk
psk pair = record { key_id = pair; value = "preshared"; dropped = false }

abbrev stored : Dict (ℕ × ℕ) Psk
stored = ((2, 5), psk (2, 5)) ∷ ((2, 7), psk (2, 7)) ∷ []

abbrev fresh : Keys Psk
fresh = record {
  entries = stored;
  fields = record {
    dropped = [];
    deleted = [];
    content_changed = false;
    db_saved = [];
    db_deleted = [];
  };
}

-- The keys are deleted, and others are made for the same pairs.
abbrev renewed : Keys Psk
renewed = record (drop_all_keys mark false true [] fresh).1 { entries = stored }

two_are_deleted :
    (drop_all_keys mark false true [] fresh).1.fields.db_deleted
    ≡ mark (psk (2, 5)) ∷ mark (psk (2, 7)) ∷ []
unfolding drop_all_keys
two_are_deleted = refl

none_noted : Apart [] stored
unfolding Apart
none_noted = (refl, (refl, tt))

drop_all_keys_lem_example :
    let (count, m') = drop_all_keys mark false false ((7, true) ∷ []) fresh in
    let gone = select_pairs mark (to_delete false ((7, true) ∷ [])) stored in
    let kept = select_pairs mark (λ p. not (to_delete false ((7, true) ∷ []) p)) stored in
    let any_deleted = ltb 0 (length gone) in
    (count ≡ 2)
    × (m'.entries ≡ [])
    × (m'.fields.deleted ≡ gone)
    × (m'.fields.dropped ≡ (if any_deleted then [] else kept))
    × (m'.fields.db_deleted ≡ (if any_deleted then values gone else []))
    × (m'.fields.db_saved ≡ (if any_deleted then values kept else []))
drop_all_keys_lem_example =
    drop_all_keys_lem mark false ((7, true) ∷ []) fresh (refl, (refl, tt)) none_noted none_noted

all_noted : All (λ (e : (ℕ × ℕ) × Psk). mem (keys renewed.fields.deleted) e.0 ≡ true) stored
unfolding drop_all_keys
all_noted = (refl, (refl, tt))

drop_all_keys_again_example :
    let m' = (drop_all_keys mark false true [] renewed).1 in
    (m'.entries ≡ [])
    × (m'.fields.deleted ≡ renewed.fields.deleted)
    × (m'.fields.db_deleted ≡ renewed.fields.db_deleted ++ values renewed.fields.deleted)
drop_all_keys_again_example = drop_all_keys_again mark [] renewed (omega arith) all_noted
