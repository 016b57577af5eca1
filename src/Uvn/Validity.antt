-- ===== src/Uvn/Validity.antt =====
-- What makes a cell valid (uno/registry/uvn.py, `validate_cell`).
use uno.Prelude.{
  ◌==◌, ℕ, ◌≡◌, refl, sym, ap, ◌∙◌, ◌↔◌, inl, inr, Bool, true, false, not, ◌&&◌, ◌||◌, List, [],
  ◌∷◌, arith, if◌then◌else◌, Bool-cases, Option-cases, All, Error, value_error,
  clashing_networks_error, Result, ok, raise,
}
use mathlib.Core.Path.{subst}
use uno.Prelude.Dict.{Dict, get, keys, mem, IsUnique, is_some, is_some-get}
use uno.Ip.{Network}
use uno.Uvn.{
  Uvn, Cell, network_key, same_net, same_net_iff, Match, Subnets, matches, matches_of,
  select_clashes, no_matches, clash_records, detect_network_clashes, is_empty, other_lans,
  check_lans, check_address, validate_cell, also, is_private, is_set,
}
use uno.Uvn.Clashes.{
  IsNetwork, free_of_records, overlap_free, none_at, none_at-clash_records, none_at-no_matches,
  no_matches-IsUnique, clash_records-IsUnique,
}

none_at_here :
    (k n : Network) (ms : List Match) (d : Subnets)
    → same_net k n ≡ true
    → none_at ((k, ms) ∷ d) n ≡ is_empty ms
unfolding none_at matches matches_of get
none_at_here k n ms d same = rw same refl

none_at_past :
    (k n : Network) (ms : List Match) (d : Subnets)
    → same_net k n ≡ false
    → none_at ((k, ms) ∷ d) n ≡ none_at d n
unfolding none_at matches get
none_at_past k n ms d other = rw other refl

none_at_missing : (d : Subnets) (n : Network) → mem (keys d) n ≡ false → none_at d n ≡ true
unfolding none_at matches matches_of is_empty
none_at_missing d n h = elim (Option-cases (get d n)) [
  | inl none_here ↦ rw none_here refl
  | inr (ms, e) ↦ let s = sym (is_some-get d n) ∙ ap (λ o. is_some o) e in cc
]

or_true : (x : Bool) → (x || true) ≡ true
or_true true = refl
or_true false = refl

both_true : (x y : Bool) → (x && y) ≡ true → (x ≡ true) × (y ≡ true)
both_true true y h = (refl, h)
both_true false y h = cc

both_hold : (x y : Bool) → x ≡ true → y ≡ true → (x && y) ≡ true
both_hold true y h k = k
both_hold false y h k = cc

empty_if : (m e : Bool) → m ≡ true → not (m && not e) ≡ true → e ≡ true
empty_if m true h k = refl
empty_if m false h k = ground arith

keep_if : (m e : Bool) → (m ≡ true → e ≡ true) → not (m && not e) ≡ true
keep_if true e h = let s = h refl in ground arith
keep_if false e h = refl

module _ (first : Network) (others : List Network) where
  selected : Subnets → Bool
  unfolding select_clashes is_empty
  selected d = is_empty (select_clashes (first ∷ others) d)

  selected_cons :
      (k : Network) (ms : List Match) (d : Subnets)
      → selected ((k, ms) ∷ d) ≡ (not (mem (first ∷ others) k && not (is_empty ms)) && selected d)
  unfolding selected
  selected_cons k ms d =
      elim (Bool-cases
        ((is_empty (first ∷ others) || mem (first ∷ others) k) && not (is_empty ms))) [
          | inl keep ↦ rw keep refl
          | inr skip ↦ rw skip refl
        ]

  select_none :
      (d : Subnets)
      → selected d ≡ true
      → (n : Network) → mem (first ∷ others) n ≡ true
      → none_at d n ≡ true
  select_none [] h n member = none_at_missing [] n refl
  select_none ((k, ms) ∷ d) h n member =
      let (here, later) = both_true _ _ (sym (selected_cons k ms d) ∙ h) in
      elim (Bool-cases (same_net k n)) [
        | inl same ↦
            let e = (same_net_iff k n).0 same in
            none_at_here k n ms d same
            ∙ empty_if (mem (first ∷ others) k) (is_empty ms)
                (ap (λ z. mem (first ∷ others) z) e ∙ member) here
        | inr other ↦ none_at_past k n ms d other ∙ select_none d later n member
      ]

  none_select :
      (d : Subnets)
      → IsUnique (keys d)
      → ((n : Network) → mem (first ∷ others) n ≡ true → none_at d n ≡ true)
      → selected d ≡ true
  none_select [] u h = unfold selected in refl
  none_select ((k, ms) ∷ d) u h =
      selected_cons k ms d
      ∙ both_hold _ _
          (keep_if (mem (first ∷ others) k) (is_empty ms)
            (λ member. sym (none_at_here k k ms d ((same_net_iff k k).1 refl)) ∙ h k member))
          (none_select d u.1 (λ n member. elim (Bool-cases (same_net k n)) [
            | inl same ↦
                none_at_missing d n
                  (sym (ap (λ z. mem (keys d) z) ((same_net_iff k n).0 same)) ∙ u.0)
            | inr other ↦ sym (none_at_past k n ms d other) ∙ h n member
          ]))

  -- The result of the scan for one checked network.
  scanned :
      (records : List (ℕ × List Network)) (n : Network)
      → IsNetwork n
      → mem (first ∷ others) n ≡ true
      → none_at (clash_records (first ∷ others) records (no_matches (first ∷ others), [])).0 n
        ≡ free_of_records n records
  scanned records n valid member =
      none_at-clash_records first others n valid member records (no_matches (first ∷ others)) []
      ∙ ap (λ b. b && free_of_records n records) (none_at-no_matches (first ∷ others) n)

overlap_free_at :
    (records : List (ℕ × List Network)) (ns : List Network) (n : Network)
    → overlap_free records ns ≡ true
    → mem ns n ≡ true
    → free_of_records n records ≡ true
overlap_free_at records [] n h member = cc
overlap_free_at records (k ∷ ns) n h member =
    let (here, later) = both_true _ _ h in
    elim (Bool-cases (same_net k n)) [
      | inl same ↦ ap (λ z. free_of_records z records) (sym ((same_net_iff k n).0 same)) ∙ here
      | inr other ↦
          overlap_free_at records ns n later (sym (ap (λ b. b || mem ns n) other) ∙ member)
    ]

at-overlap_free :
    (records : List (ℕ × List Network)) (ns : List Network)
    → ((n : Network) → mem ns n ≡ true → free_of_records n records ≡ true)
    → overlap_free records ns ≡ true
at-overlap_free records [] h = refl
at-overlap_free records (k ∷ ns) h =
    both_hold _ _ (h k (ap (λ b. b || mem ns k) ((same_net_iff k k).1 refl))) (
      at-overlap_free records ns
        (λ n member. h n (ap (λ b. same_net k n || b) member ∙ or_true (same_net k n))))

All_at : (ns : List Network) (n : Network) → All IsNetwork ns → mem ns n ≡ true → IsNetwork n
All_at [] n h member = cc
All_at (k ∷ ns) n h member = elim (Bool-cases (same_net k n)) [
  | inl same ↦ subst IsNetwork ((same_net_iff k n).0 same) h.0
  | inr other ↦ All_at ns n h.1 (sym (ap (λ b. b || mem ns n) other) ∙ member)
]

-- For networks to check of which there is at least one and which are well formed:
-- `detect_network_clashes` returns no clash exactly if no network of a record overlaps one of them.
pub detect_network_clashes_iff :
    (records : List (ℕ × List Network)) (first : Network) (others : List Network)
    → All IsNetwork (first ∷ others)
    → (is_empty (detect_network_clashes records (first ∷ others)) ≡ true)
      ↔ (overlap_free records (first ∷ others) ≡ true)
unfolding detect_network_clashes
detect_network_clashes_iff records first others valid =
    let found = (clash_records (first ∷ others) records (no_matches (first ∷ others), [])).0 in
    let unique =
      clash_records-IsUnique (first ∷ others) records (no_matches (first ∷ others)) []
        (no_matches-IsUnique (first ∷ others)) in
    (
      λ h. at-overlap_free records (first ∷ others) (λ n member.
          sym (scanned first others records n (All_at (first ∷ others) n valid member) member)
          ∙ select_none first others found (unfold selected in h) n member),
      λ h.
          unfold selected in
          none_select first others found unique (λ n member.
            scanned first others records n (All_at (first ∷ others) n valid member) member
            ∙ overlap_free_at records (first ∷ others) n h member),
    )

same_truth : (x y : Bool) → (x ≡ true) ↔ (y ≡ true) → x ≡ y
same_truth true y h = sym (h.0 refl)
same_truth false true h = h.1 refl
same_truth false false h = refl

-- The condition on the networks of a cell, without the scan.
verdict : (records : List (ℕ × List Network)) (lans : List Network) → Bool → Result (Unit {0})
verdict records lans private =
    if not (is_empty lans) && not (overlap_free records lans)
    then raise clashing_networks_error
    else if is_empty lans && private
    then raise value_error
    else ok tt

by_scan :
    (x y : Bool) (a b : Result (Unit {0})) → x ≡ y → (if x then a else b) ≡ (if not y then b else a)
by_scan true true a b e = refl
by_scan false false a b e = refl
by_scan true false a b e = cc
by_scan false true a b e = cc

scan_verdict :
    (records : List (ℕ × List Network)) (lans : List Network) (private : Bool)
    → All IsNetwork lans
    → (if not (is_empty lans)
        then (if is_empty (detect_network_clashes records lans)
            then ok tt
            else raise clashing_networks_error)
        else if private
        then raise value_error
        else ok tt)
      ≡ verdict records lans private
unfolding verdict is_empty
scan_verdict records [] true valid = refl
scan_verdict records [] false valid = refl
scan_verdict records (first ∷ others) private valid =
    let e =
      same_truth (is_empty (detect_network_clashes records (first ∷ others)))
        (overlap_free records (first ∷ others))
        (detect_network_clashes_iff records first others valid) in
    by_scan (is_empty (detect_network_clashes records (first ∷ others)))
      (overlap_free records (first ∷ others)) _ _ e

-- The networks overlap none of those of a cell of the dictionary with another identifier.
abbrev pub apart_from_others : ℕ → Dict ℕ Cell → List Network → Bool
apart_from_others cell_id [] lans = true
apart_from_others cell_id ((k, c) ∷ rest) lans =
    (c.id == cell_id || overlap_free ((c.id, c.allowed_lans) ∷ []) lans)
    && apart_from_others cell_id rest lans

overlap_free-nil : (lans : List Network) → overlap_free [] lans ≡ true
overlap_free-nil [] = refl
overlap_free-nil (n ∷ lans) = overlap_free-nil lans

overlap_free-cons :
    (i : ℕ) (nets : List Network) (records : List (ℕ × List Network)) (lans : List Network)
    → overlap_free ((i, nets) ∷ records) lans
      ≡ (overlap_free ((i, nets) ∷ []) lans && overlap_free records lans)
overlap_free-cons i nets records [] = refl
overlap_free-cons i nets records (n ∷ lans) = ground (arith, overlap_free-cons i nets records lans)

overlap_free-other_lans :
    (cell_id : ℕ) (cells : Dict ℕ Cell) (lans : List Network)
    → overlap_free (other_lans cell_id cells) lans ≡ apart_from_others cell_id cells lans
unfolding other_lans
overlap_free-other_lans cell_id [] lans = overlap_free-nil lans
overlap_free-other_lans cell_id ((k, c) ∷ rest) lans =
    let ih = overlap_free-other_lans cell_id rest lans in
    let split = overlap_free-cons c.id c.allowed_lans (other_lans cell_id rest) lans in
    elim (Bool-cases (c.id == cell_id)) [
      | inl same ↦ rw same ih
      | inr other ↦
          rw other (split ∙ ap (λ b. overlap_free ((c.id, c.allowed_lans) ∷ []) lans && b) ih)
    ]

-- What `validate_cell` should decide: a cell with networks that overlap those of another cell, which
-- is not excluded, is refused, then one without networks or an address, then one without an address where the root
-- VPN is on and the UVN has none.
unfoldable pub expected_verdict : Uvn → Cell → Result (Unit {0})
unfolding verdict is_private is_set is_empty
expected_verdict uvn cell =
    let private = is_private cell.address in
    if not (is_empty cell.allowed_lans)
      && not (apart_from_others cell.id uvn.cells cell.allowed_lans)
    then raise clashing_networks_error
    else if is_empty cell.allowed_lans && private
    then raise value_error
    else if private && not (is_set uvn.address) && uvn.enable_root_vpn
    then raise value_error
    else ok tt

also_if :
    (x y : Bool) (e e' : Error) (next : Result (Unit {0}))
    → also (if x then raise e else if y then raise e' else ok tt) next
      ≡ (if x then raise e else if y then raise e' else next)
unfolding also
also_if true y e e' next = refl
also_if false true e e' next = refl
also_if false false e e' next = refl

-- For a cell whose networks are well formed, `validate_cell` raises the errors of
-- `expected_verdict` and no others: a clash exactly if one of its networks overlaps a network of
-- another cell of the UVN that is not excluded, a ValueError if it has neither networks nor an address, or no address where the
-- root VPN is on and the UVN has none, and otherwise it returns.
pub validate_cell_lem :
    (uvn : Uvn) (cell : Cell)
    → All IsNetwork cell.allowed_lans
    → validate_cell uvn cell ≡ expected_verdict uvn cell
unfolding validate_cell expected_verdict check_lans check_address
validate_cell_lem uvn cell valid =
    let e =
      scan_verdict (other_lans cell.id uvn.cells) cell.allowed_lans (is_private cell.address)
        valid in
    rw (← overlap_free-other_lans cell.id uvn.cells cell.allowed_lans) (
      ap (λ r. also r (check_address uvn cell)) e
      ∙ also_if
          (not (is_empty cell.allowed_lans)
            && not (overlap_free (other_lans cell.id uvn.cells) cell.allowed_lans))
          (is_empty cell.allowed_lans && is_private cell.address) _ _ _)
