-- ===== src/VpnKeys/Dropping.antt =====
-- Dropping and deleting keys (uno/registry/vpn_keymat.py, `VpnKeysMap`). The database is the list of
-- values of which the keys were saved in it, or deleted from it, in order. A key is marked in
-- place; its value is no longer in the map afterwards. Marking a key makes the map unsaved, so that
-- saving the map runs its `save`.
pub mod Once
use uno.Prelude.{
  ℕ, suc, ◌+◌, Bool, true, false, ◌||◌, Option, none, some, List, [], ◌∷◌, ◌++◌, ltb, if◌then◌else◌,
  ok, Exec, and_then,
}
use uno.Prelude.Dict.{Dict, get, put, mem, keys, number_key, pair_is_key}
use uno.PairedMap.{PairedMap, purge_peer}

-- The fields of `VpnKeysMap` beside its entries; `content_changed` says whether "content" is among
-- the changed properties.
pub record Removed (V : Type 0) : Type 0 where
  pub dropped : Dict (ℕ × ℕ) V
  pub deleted : Dict (ℕ × ℕ) V
  pub content_changed : Bool
  pub db_saved : List V
  pub db_deleted : List V

abbrev pub Keys : Type 0 → Type 0
Keys V = PairedMap (Removed V) V

flag_of : Option Bool → Bool
flag_of none = false
flag_of (some b) = b

-- `delete or delete_map.get(pair[0], False) or delete_map.get(pair[1], False)`
unfoldable pub to_delete : Bool → Dict ℕ Bool → ℕ × ℕ → Bool
unfolding get flag_of
to_delete delete delete_map pair =
    delete || flag_of (get delete_map pair.0) || flag_of (get delete_map pair.1)

abbrev pub values : {V : Type 0} → Dict (ℕ × ℕ) V → List V
values [] = []
values ((pair, v) ∷ rest) = v ∷ values rest

-- `save`: the dropped keys are forgotten once saved, the deleted ones are not.
unfoldable pub save_removed : {V : Type 0} → Removed V → Removed V
save_removed r = record {
  dropped = [];
  deleted = r.deleted;
  content_changed = false;
  db_saved = r.db_saved ++ values r.dropped;
  db_deleted = r.db_deleted ++ values r.deleted;
}

-- `mark` sets `dropped` of the keys of a value.
module _ {V : Type 0} (mark : V → V) where
  -- `_drop_pair`, with the value of `delete` for the pair
  unfoldable pub drop_pair : ℕ × ℕ → V → Bool → Removed V → Removed V
  unfolding put
  drop_pair pair v true r =
      if mem (keys r.deleted) pair then r else record r { deleted = put r.deleted pair (mark v) }
  drop_pair pair v false r =
      if mem (keys r.dropped) pair then r else record r { dropped = put r.dropped pair (mark v) }

  -- The loops of `purge_peer` and of `drop_keys`, with the numbers of pairs deleted and dropped.
  unfoldable pub drop_pairs :
      Bool → Dict ℕ Bool → Dict (ℕ × ℕ) V → ℕ × ℕ × Removed V → ℕ × ℕ × Removed V
  unfolding drop_pair to_delete
  drop_pairs delete delete_map [] s = s
  drop_pairs delete delete_map ((pair, v) ∷ rest) (deleted, dropped, r) =
      let d = to_delete delete delete_map pair in
      drop_pairs delete delete_map rest (
        (if d then suc deleted else deleted),
        (if d then dropped else suc dropped),
        drop_pair pair v d r,
      )

  -- What follows the loops.
  unfoldable pub save_if_deleted : ℕ × ℕ × Removed V → Removed V
  unfolding save_removed
  save_if_deleted (deleted, dropped, r) =
      let s = if ltb 0 deleted then save_removed r else r in
      if ltb 0 deleted || ltb 0 dropped then record s { content_changed = true } else s

  marked : Dict (ℕ × ℕ) V → Dict (ℕ × ℕ) V
  marked [] = []
  marked ((pair, v) ∷ rest) = (pair, mark v) ∷ marked rest

  purged_from : Bool → Dict ℕ Bool → Dict (ℕ × ℕ) V → Exec (Keys V) (Dict (ℕ × ℕ) V)
  unfolding marked drop_pairs save_if_deleted
  purged_from delete delete_map purged m = (
    ok (marked purged),
    record m { fields = save_if_deleted (drop_pairs delete delete_map purged (0, 0, m.fields)) },
  )

  -- `purge_peer`, of values that a set can hold, as preshared keys are
  unfoldable pub purge_keys_of : Bool → ℕ → Bool → Dict ℕ Bool → Exec (Keys V) (Dict (ℕ × ℕ) V)
  unfolding purge_peer purged_from
  purge_keys_of readonly peer delete delete_map m =
      let (r, m') = purge_peer peer m in
      let purged = and_then r (purged_from delete delete_map) m' in
      if readonly then (ok [], m) else purged

  -- `drop_keys`, which returns the number of pairs
  unfoldable pub drop_all_keys : Bool → Bool → Dict ℕ Bool → Keys V → ℕ × Keys V
  unfolding drop_pairs save_if_deleted
  drop_all_keys readonly delete delete_map m =
      let (deleted, dropped, r) = drop_pairs delete delete_map m.entries (0, 0, m.fields) in
      if readonly then (0, m) else (
        deleted + dropped,
        record m { entries = []; fields = save_if_deleted (deleted, dropped, r) },
      )
