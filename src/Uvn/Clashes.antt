-- ===== src/Uvn/Clashes.antt =====
-- What `detect_network_clashes` finds (uno/registry/uvn.py).
use uno.Prelude.{
  ℕ, ◌-◌, ◌%◌, ◌≡◌, refl, sym, ap, ◌∙◌, inl, inr, Bool, true, false, not, ◌&&◌, ◌||◌, List, [], ◌∷◌,
  ◌++◌, arith, ◌==◌, if◌then◌else◌, Bool-cases,
}
use uno.Prelude.Dict.{keys, mem, IsUnique, get-put, put-IsUnique}
use mathlib.Core.Path.{subst}
use uno.Ip.{Network, contains, hosts}
use uno.Uvn.{
  same_net, same_net_iff, network_key, match_key, Match, overlaps, Subnets, matches, add_match,
  no_matches, compare_with, clash_record, clash_records, is_empty, matches_of, compared, explore,
}

-- The network address has no bits behind the prefix, as `ipaddress` demands.
abbrev pub IsNetwork : Network → Type 0
IsNetwork n = n.address % hosts n.prefixlen ≡ 0

-- One of the networks overlaps the other.
pub touch : Network → Network → Bool
touch n net = overlaps n net || overlaps net n

-- None of the networks overlaps this one.
abbrev pub free_of : Network → List Network → Bool
free_of n [] = true
free_of n (net ∷ nets) = not (touch n net) && free_of n nets

abbrev pub free_of_records : Network → List (ℕ × List Network) → Bool
free_of_records n [] = true
free_of_records n ((i, nets) ∷ rest) = free_of n nets && free_of_records n rest

-- No network of a record overlaps a checked one.
abbrev pub overlap_free : List (ℕ × List Network) → List Network → Bool
overlap_free records [] = true
overlap_free records (n ∷ ns) = free_of_records n records && overlap_free records ns

overlaps_self : (n : Network) → IsNetwork n → overlaps n n ≡ true
unfolding overlaps contains
overlaps_self n h =
    let e : (n.address - n.address % hosts n.prefixlen == n.address) ≡ true = ground arith in
    rw e refl

is_empty-append : (ms : List Match) (m : Match) → is_empty (ms ++ m ∷ []) ≡ false
unfolding is_empty
is_empty-append [] m = refl
is_empty-append (x ∷ ms) m = refl

mem_nonempty : (ms : List Match) (m : Match) → mem ms m ≡ true → is_empty ms ≡ false
unfolding is_empty
mem_nonempty [] m h = cc
mem_nonempty (x ∷ ms) m h = refl

unfoldable pub none_at : Subnets → Network → Bool
unfolding is_empty
none_at s n = is_empty (matches s n)

added_nonempty :
    (ms : List Match) (m : Match) → is_empty (if mem ms m then ms else ms ++ m ∷ []) ≡ false
added_nonempty ms m = elim (Bool-cases (mem ms m)) [
  | inl old ↦ rw old (mem_nonempty ms m old)
  | inr new ↦ rw new (is_empty-append ms m)
]

none_at-add_match :
    (k : Network) (m : Match) (s : Subnets) (n : Network)
    → none_at (add_match k m s) n ≡ (not (same_net k n) && none_at s n)
unfolding none_at add_match matches matches_of
none_at-add_match k m s n = elim (Bool-cases (same_net k n)) [
  | inl same ↦ rw (get-put, same) (added_nonempty (matches s k) m)
  | inr other ↦ rw (get-put, other) refl
]

step_over :
    (same o o' x m : Bool)
    → o ≡ true
    → (same ≡ true → o ≡ o')
    → ((not same && x) && not (m && o')) ≡ (x && not ((same || m) && o'))
step_over true o o' x m over link = let e = link refl in ground arith
step_over false o o' x m over link = refl

step_apart :
    (same o o' x m : Bool)
    → o ≡ false
    → (same ≡ true → o ≡ o')
    → (x && not (m && o')) ≡ (x && not ((same || m) && o'))
step_apart true o o' x m over link = let e = link refl in ground arith
step_apart false o o' x m over link = refl

touch_same : (k n net : Network) → same_net k n ≡ true → touch k net ≡ touch n net
touch_same k n net same = ap (λ z. touch z net) ((same_net_iff k n).0 same)

compare_with-touch :
    (i : ℕ) (net k : Network) (subs : List Network) (s : Subnets)
    → compare_with i net (k ∷ subs) s
      ≡ compare_with i net subs (if touch k net then add_match k (i, net) s else s)
unfolding compare_with touch
compare_with-touch i net k subs s = refl

none_at-compare_with :
    (i : ℕ) (net : Network) (subs : List Network) (s : Subnets) (n : Network)
    → none_at (compare_with i net subs s) n ≡ (none_at s n && not (mem subs n && touch n net))
none_at-compare_with i net [] s n = unfold compare_with in ground arith
none_at-compare_with i net (k ∷ subs) s n =
    ap (λ z. none_at z n) (compare_with-touch i net k subs s)
    ∙ none_at-compare_with i net subs (if touch k net then add_match k (i, net) s else s) n
    ∙ elim (Bool-cases (touch k net)) [
      | inl over ↦
          ap
            (λ b.
              none_at (if b then add_match k (i, net) s else s) n
              && not (mem subs n && touch n net))
            over
          ∙ ap (λ b. b && not (mem subs n && touch n net)) (none_at-add_match k (i, net) s n)
          ∙ step_over (same_net k n) (touch k net) (touch n net) (none_at s n) (mem subs n) over
              (touch_same k n net)
      | inr apart ↦
          ap
            (λ b.
              none_at (if b then add_match k (i, net) s else s) n
              && not (mem subs n && touch n net))
            apart
          ∙ step_apart (same_net k n) (touch k net) (touch n net) (none_at s n) (mem subs n) apart
              (touch_same k n net)
    ]

and_assoc : (x y z : Bool) → ((x && y) && z) ≡ (x && (y && z))
and_assoc true y z = refl
and_assoc false y z = refl

step_record :
    (same o x f : Bool)
    → (same ≡ true → o ≡ true)
    → (((not same && x) && not (true && o)) && f) ≡ (x && (not o && f))
step_record true o x f h = let e = h refl in ground arith
step_record false o x f h = ground arith

touch_self : (net n : Network) → IsNetwork n → same_net net n ≡ true → touch n net ≡ true
unfolding touch
touch_self net n h same =
    let e = (same_net_iff net n).0 same in rw e (ap (λ b. b || overlaps n n) (overlaps_self n h))

module _ (first : Network) (others : List Network) (n : Network) (valid : IsNetwork n)
    (member : mem (first ∷ others) n ≡ true) where
  none_at-clash_record :
      (i : ℕ) (nets : List Network) (s : Subnets) (seen : List Network)
      → none_at (clash_record i (first ∷ others) nets (s, seen)).0 n
        ≡ (none_at s n && free_of n nets)
  unfolding clash_record
  none_at-clash_record i [] s seen = ground arith
  none_at-clash_record i (net ∷ nets) s seen =
      let s' = add_match net (i, net) s in
      none_at-clash_record i nets (compare_with i net (first ∷ others) s') (explore net seen)
      ∙ ap (λ b. b && free_of n nets)
          (none_at-compare_with i net (first ∷ others) s' n
            ∙ ap (λ b. none_at s' n && not (b && touch n net)) member
            ∙ ap (λ b. b && not (true && touch n net)) (none_at-add_match net (i, net) s n))
      ∙ step_record (same_net net n) (touch n net) (none_at s n) (free_of n nets)
          (touch_self net n valid)

  pub none_at-clash_records :
      (records : List (ℕ × List Network)) (s : Subnets) (seen : List Network)
      → none_at (clash_records (first ∷ others) records (s, seen)).0 n
        ≡ (none_at s n && free_of_records n records)
  unfolding clash_records
  none_at-clash_records [] s seen = ground arith
  none_at-clash_records ((i, nets) ∷ rest) s seen =
      let run = clash_record i (first ∷ others) nets (s, seen) in
      none_at-clash_records rest run.0 run.1
      ∙ ap (λ b. b && free_of_records n rest) (none_at-clash_record i nets s seen)
      ∙ and_assoc (none_at s n) (free_of n nets) (free_of_records n rest)

pub none_at-no_matches : (ns : List Network) (n : Network) → none_at (no_matches ns) n ≡ true
unfolding none_at no_matches matches matches_of
none_at-no_matches [] n = refl
none_at-no_matches (k ∷ ns) n = elim (Bool-cases (same_net k n)) [
  | inl same ↦ rw (get-put, same) refl
  | inr other ↦ rw (get-put, other) (none_at-no_matches ns n)
]

-- The keys of the sets stay unique.
add_match-IsUnique :
    (k : Network) (m : Match) (s : Subnets) → IsUnique (keys s) → IsUnique (keys (add_match k m s))
unfolding add_match
add_match-IsUnique k m s h = put-IsUnique s k _ h

compare_with-IsUnique :
    (i : ℕ) (net : Network) (subs : List Network) (s : Subnets)
    → IsUnique (keys s)
    → IsUnique (keys (compare_with i net subs s))
compare_with-IsUnique i net [] s h = unfold compare_with in h
compare_with-IsUnique i net (k ∷ subs) s h =
    subst (λ z. IsUnique (keys z)) (sym (compare_with-touch i net k subs s))
      (compare_with-IsUnique i net subs (if touch k net then add_match k (i, net) s else s)
        (elim (touch k net) as (λ b. IsUnique (keys (if b then add_match k (i, net) s else s))) [
          | true ↦ add_match-IsUnique k (i, net) s h
          | false ↦ h
        ]))

clash_record-IsUnique :
    (i : ℕ) (checked nets : List Network) (s : Subnets) (seen : List Network)
    → IsUnique (keys s)
    → IsUnique (keys (clash_record i checked nets (s, seen)).0)
unfolding clash_record
clash_record-IsUnique i checked [] s seen h = h
clash_record-IsUnique i checked (net ∷ nets) s seen h = clash_record-IsUnique i checked nets _ _ (
    compare_with-IsUnique i net (compared checked seen) (add_match net (i, net) s)
      (add_match-IsUnique net (i, net) s h))

pub clash_records-IsUnique :
    (checked : List Network) (records : List (ℕ × List Network)) (s : Subnets) (seen : List Network)
    → IsUnique (keys s)
    → IsUnique (keys (clash_records checked records (s, seen)).0)
unfolding clash_records
clash_records-IsUnique checked [] s seen h = h
clash_records-IsUnique checked ((i, nets) ∷ rest) s seen h =
    clash_records-IsUnique checked rest _ _ (clash_record-IsUnique i checked nets s seen h)

pub no_matches-IsUnique : (ns : List Network) → IsUnique (keys (no_matches ns))
unfolding no_matches
no_matches-IsUnique [] = tt
no_matches-IsUnique (n ∷ ns) = put-IsUnique (no_matches ns) n [] (no_matches-IsUnique ns)
