-- ===== src/VpnKeys/Dropping/Once.antt =====
-- What dropping all keys leaves (uno/registry/vpn_keymat.py, `drop_keys` of `VpnKeysMap`).
use uno.Prelude.{
  ℕ, suc, ◌+◌, ◌<◌, ◌≡◌, refl, sym, ap, ◌∙◌, inl, inr, Bool, true, false, not, ◌||◌, List, [], ◌∷◌,
  ◌++◌, arith, ltb, if◌then◌else◌, lt→ltb, Bool-cases, length, All,
}
use uno.Prelude.Dict.{same_pair, Dict, put, mem, keys, IsUnique, pair_is_key}
use uno.VpnKeys.Dropping.{
  Removed, Keys, values, to_delete, save_removed, drop_pair, drop_pairs, save_if_deleted,
  drop_all_keys,
}

-- The pairs of a dictionary that pass a test, each with its value marked.
unfoldable pub select_pairs :
    {V : Type 0} → (V → V) → (ℕ × ℕ → Bool) → Dict (ℕ × ℕ) V → Dict (ℕ × ℕ) V
select_pairs mark test [] = []
select_pairs mark test ((pair, v) ∷ rest) =
    let later = select_pairs mark test rest in if test pair then (pair, mark v) ∷ later else later

neither : (x y : Bool) → (x || y) ≡ false → (x ≡ false) × (y ≡ false)
neither true y h = cc
neither false y h = (refl, h)

same_pair-swap : (j k : ℕ × ℕ) → same_pair j k ≡ false → same_pair k j ≡ false
same_pair-swap (a, b) (c, d) h = ground arith

-- No key of the second stands in the first.
unfoldable pub Apart : {V : Type 0} → Dict (ℕ × ℕ) V → Dict (ℕ × ℕ) V → Type 0
Apart d [] = Unit
Apart d ((pair, v) ∷ rest) = (mem (keys d) pair ≡ false) × Apart d rest

snoc-append :
    {A : Type 0} (xs : List A) (x : A) (ys : List A) → (xs ++ x ∷ []) ++ ys ≡ xs ++ (x ∷ ys)
snoc-append [] x ys = refl
snoc-append (z ∷ xs) x ys = ap (λ l. z ∷ l) (snoc-append xs x ys)

append_nil : {A : Type 0} (xs : List A) → xs ++ [] ≡ xs
append_nil [] = refl
append_nil (x ∷ xs) = ap (λ l. x ∷ l) (append_nil xs)

put-new :
    {V : Type 0} (d : Dict (ℕ × ℕ) V) (pair : ℕ × ℕ) (v : V)
    → mem (keys d) pair ≡ false
    → put d pair v ≡ d ++ (pair, v) ∷ []
unfolding put
put-new [] pair v h = refl
put-new ((j, w) ∷ d) pair v h =
    let (here, later) = neither (same_pair j pair) (mem (keys d) pair) h in
    rw here (ap (λ l. (j, w) ∷ l) (put-new d pair v later))

mem-snoc :
    {V : Type 0} (d : Dict (ℕ × ℕ) V) (x : (ℕ × ℕ) × V) (k : ℕ × ℕ)
    → mem (keys d) k ≡ false
    → same_pair x.0 k ≡ false
    → mem (keys (d ++ x ∷ [])) k ≡ false
mem-snoc [] x k h e = rw e refl
mem-snoc ((j, w) ∷ d) x k h e =
    let (here, later) = neither (same_pair j k) (mem (keys d) k) h in
    rw here (mem-snoc d x k later e)

Apart-snoc :
    {V : Type 0} (d : Dict (ℕ × ℕ) V) (x : (ℕ × ℕ) × V) (rest : Dict (ℕ × ℕ) V)
    → Apart d rest
    → mem (keys rest) x.0 ≡ false
    → Apart (d ++ x ∷ []) rest
unfolding Apart
Apart-snoc d x [] h e = tt
Apart-snoc d x ((k, w) ∷ rest) h e =
    let (here, later) = neither (same_pair k x.0) (mem (keys rest) x.0) e in
    (mem-snoc d x k h.0 (same_pair-swap k x.0 here), Apart-snoc d x rest h.1 later)

same_result :
    {V : Type 0} (r : Removed V) {i i' j j' : ℕ} {a a' b b' : Dict (ℕ × ℕ) V}
    → i ≡ i'
    → j ≡ j'
    → a ≡ a'
    → b ≡ b'
    → ◌≡◌ {A = ℕ × ℕ × Removed V}
        (i, j, record r { deleted = a; dropped = b })
        (i', j', record r { deleted = a'; dropped = b' })
same_result r e f g h = rw (e, f, g, h) refl

module _ {V : Type 0} (mark : V → V) where
  drop_pair-deleted :
      (pair : ℕ × ℕ) (v : V) (r : Removed V)
      → mem (keys r.deleted) pair ≡ false
      → drop_pair mark pair v true r ≡ record r { deleted = r.deleted ++ (pair, mark v) ∷ [] }
  unfolding drop_pair
  drop_pair-deleted pair v r h = rw (h, put-new r.deleted pair (mark v) h) refl

  drop_pair-dropped :
      (pair : ℕ × ℕ) (v : V) (r : Removed V)
      → mem (keys r.dropped) pair ≡ false
      → drop_pair mark pair v false r ≡ record r { dropped = r.dropped ++ (pair, mark v) ∷ [] }
  unfolding drop_pair
  drop_pair-dropped pair v r h = rw (h, put-new r.dropped pair (mark v) h) refl

  module _ (delete : Bool) (delete_map : Dict ℕ Bool) where
    gone : ℕ × ℕ → Bool
    gone p = to_delete delete delete_map p

    kept : ℕ × ℕ → Bool
    kept p = not (to_delete delete delete_map p)

    drop_pairs-eq :
        (d : Dict (ℕ × ℕ) V) (i j : ℕ) (r : Removed V)
        → IsUnique (keys d)
        → Apart r.deleted d
        → Apart r.dropped d
        → drop_pairs mark delete delete_map d (i, j, r) ≡ (
          i + length (select_pairs mark gone d),
          j + length (select_pairs mark kept d),
          record r {
            deleted = r.deleted ++ select_pairs mark gone d;
            dropped = r.dropped ++ select_pairs mark kept d;
          },
        )
    unfolding drop_pairs select_pairs gone kept Apart
    drop_pairs-eq [] i j r u apart_deleted apart_dropped =
        sym
          (same_result r (omega arith) (omega arith) (append_nil r.deleted) (append_nil r.dropped))
    drop_pairs-eq ((pair, v) ∷ d) i j r u apart_deleted apart_dropped =
        elim (Bool-cases (to_delete delete delete_map pair)) [
          | inl e ↦
              let r' = record r { deleted = r.deleted ++ (pair, mark v) ∷ [] } in
              rw e (
                ap (λ z. drop_pairs mark delete delete_map d (suc i, j, z))
                  (drop_pair-deleted pair v r apart_deleted.0)
                ∙ drop_pairs-eq d (suc i) j r' u.1
                    (Apart-snoc r.deleted (pair, mark v) d apart_deleted.1 u.0) apart_dropped.1
                ∙ same_result r (omega arith) refl
                    (snoc-append r.deleted (pair, mark v) (select_pairs mark gone d)) refl)
          | inr e ↦
              let r' = record r { dropped = r.dropped ++ (pair, mark v) ∷ [] } in
              rw e (
                ap (λ z. drop_pairs mark delete delete_map d (i, suc j, z))
                  (drop_pair-dropped pair v r apart_dropped.0)
                ∙ drop_pairs-eq d i (suc j) r' u.1 apart_deleted.1
                    (Apart-snoc r.dropped (pair, mark v) d apart_dropped.1 u.0)
                ∙ same_result r refl (omega arith) refl
                    (snoc-append r.dropped (pair, mark v) (select_pairs mark kept d)))
        ]

length-select_pairs :
    {V : Type 0} (mark : V → V) (test : ℕ × ℕ → Bool) (d : Dict (ℕ × ℕ) V)
    → length (select_pairs mark test d) + length (select_pairs mark (λ p. not (test p)) d)
      ≡ length d
unfolding select_pairs
length-select_pairs mark test [] = refl
length-select_pairs mark test ((pair, v) ∷ d) =
    let ih = length-select_pairs mark test d in
    elim (Bool-cases (test pair)) [
      | inl e ↦ rw e (omega (arith, ih))
      | inr e ↦ rw e (omega (arith, ih))
    ]

save_if-parts :
    {V : Type 0} (mark : V → V) (i j : ℕ) (r : Removed V)
    → let s = save_if_deleted mark (i, j, r) in
      (s.deleted ≡ r.deleted)
      × (s.dropped ≡ (if ltb 0 i then [] else r.dropped))
      × (s.db_deleted ≡ (if ltb 0 i then r.db_deleted ++ values r.deleted else r.db_deleted))
      × (s.db_saved ≡ (if ltb 0 i then r.db_saved ++ values r.dropped else r.db_saved))
unfolding save_if_deleted save_removed
save_if-parts mark i j r = elim (Bool-cases (ltb 0 i)) [
  | inl e ↦ rw e (refl, refl, refl, refl)
  | inr e ↦ elim (Bool-cases (ltb 0 j)) [
    | inl f ↦ rw (e, f) (refl, refl, refl, refl)
    | inr f ↦ rw (e, f) (refl, refl, refl, refl)
  ]
]

-- For a map that is not readonly, has no pair twice, and has no pair that is noted as dropped or
-- deleted before: `drop_keys` returns the number of pairs and leaves none. The pairs to delete, by
-- `delete` or the map of peers, are noted as deleted with their keys marked. If there is one,
-- the keys of all pairs that are noted as deleted are deleted from the database and those of all
-- that are noted as dropped are saved in it, which are then none; else nothing is deleted or saved,
-- and every pair is noted as dropped.
pub drop_all_keys_lem :
    {V : Type 0} (mark : V → V) (delete : Bool) (delete_map : Dict ℕ Bool) (m : Keys V)
    → IsUnique (keys m.entries)
    → Apart m.fields.deleted m.entries
    → Apart m.fields.dropped m.entries
    → let (count, m') = drop_all_keys mark false delete delete_map m in
      let deleted = m.fields.deleted ++ select_pairs mark (to_delete delete delete_map) m.entries in
      let dropped =
        m.fields.dropped
        ++ select_pairs mark (λ p. not (to_delete delete delete_map p)) m.entries in
      let any_deleted =
        ltb 0 (length (select_pairs mark (to_delete delete delete_map) m.entries)) in
      (count ≡ length m.entries)
      × (m'.entries ≡ [])
      × (m'.fields.deleted ≡ deleted)
      × (m'.fields.dropped ≡ (if any_deleted then [] else dropped))
      × (m'.fields.db_deleted
          ≡ (if any_deleted then m.fields.db_deleted ++ values deleted else m.fields.db_deleted))
      × (m'.fields.db_saved
          ≡ (if any_deleted then m.fields.db_saved ++ values dropped else m.fields.db_saved))
unfolding drop_all_keys gone kept
drop_all_keys_lem mark delete delete_map m unique apart_deleted apart_dropped =
    let i = length (select_pairs mark (to_delete delete delete_map) m.entries) in
    let j = length (select_pairs mark (λ p. not (to_delete delete delete_map p)) m.entries) in
    let eq =
      drop_pairs-eq mark delete delete_map m.entries 0 0 m.fields unique apart_deleted apart_dropped
      ∙ same_result m.fields {i' = i} {j' = j} (omega arith) (omega arith) refl refl in
    let (deleted, dropped, db_deleted, db_saved) = save_if-parts mark i j (record m.fields {
      deleted = m.fields.deleted ++ select_pairs mark (to_delete delete delete_map) m.entries;
      dropped =
          m.fields.dropped
          ++ select_pairs mark (λ p. not (to_delete delete delete_map p)) m.entries;
    }) in
    rw eq (
      length-select_pairs mark (to_delete delete delete_map) m.entries,
      refl,
      deleted,
      dropped,
      db_deleted,
      db_saved,
    )

-- Where every pair of the map is noted as deleted before.
drop_pairs-known :
    {V : Type 0} (mark : V → V) (delete_map : Dict ℕ Bool) (d : Dict (ℕ × ℕ) V) (i j : ℕ)
    (r : Removed V)
    → All (λ (e : (ℕ × ℕ) × V). mem (keys r.deleted) e.0 ≡ true) d
    → drop_pairs mark true delete_map d (i, j, r) ≡ (i + length d, j, r)
unfolding drop_pairs drop_pair to_delete
drop_pairs-known mark delete_map [] i j r h = same_result r (omega arith) refl refl refl
drop_pairs-known mark delete_map ((pair, v) ∷ d) i j r h = rw h.0 (
    drop_pairs-known mark delete_map d (suc i) j r h.1 ∙ same_result r (omega arith) refl refl refl)

-- For a map that is not readonly and has pairs, all of which are noted as deleted from an earlier
-- deletion: `drop_keys` with `delete` leaves no pairs, deletes from the database the keys that
-- were deleted earlier once more, and none of the keys that the map had.
pub drop_all_keys_again :
    {V : Type 0} (mark : V → V) (delete_map : Dict ℕ Bool) (m : Keys V)
    → 0 < length m.entries
    → All (λ (e : (ℕ × ℕ) × V). mem (keys m.fields.deleted) e.0 ≡ true) m.entries
    → let m' = (drop_all_keys mark false true delete_map m).1 in
      (m'.entries ≡ [])
      × (m'.fields.deleted ≡ m.fields.deleted)
      × (m'.fields.db_deleted ≡ m.fields.db_deleted ++ values m.fields.deleted)
unfolding drop_all_keys
drop_all_keys_again mark delete_map m some_left known =
    let n = length m.entries in
    let eq =
      drop_pairs-known mark delete_map m.entries 0 0 m.fields known
      ∙ same_result m.fields {i' = n} (omega arith) refl refl refl in
    let (deleted, dropped, db_deleted, db_saved) = save_if-parts mark n 0 m.fields in
    rw eq (refl, deleted, db_deleted ∙ rw (lt→ltb 0 n some_left) refl)
