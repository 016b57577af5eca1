-- ===== src/VpnKeys/Staying.antt =====
-- What a map of keys has, it keeps (uno/registry/vpn_keymat.py, `VpnKeysMap.assert_pair`).
use uno.Prelude.{
  ℕ, ◌≡◌, refl, ap, ◌∙◌, inl, inr, Bool, true, false, Option, some, arith, Bool-cases, Result, ok,
  raise, Exec, and_then,
}
use uno.Prelude.Dict.{pair_is_key, same_pair_iff}
use uno.PairedMap.{pair_key, absent, find, assert_pair}
use uno.PairedMap.Storing.{find-pair_key, find-assert_pair_ne}
use uno.VpnKeys.{Fields, KeysMap, keys_assert_pair, note_asserted}
use uno.VpnKeys.Sharing.{keys_found}

note_asserted-entries :
    {W V : Type 0} (r : Result (V × Bool)) (m : KeysMap W V) (a b : ℕ)
    → find (and_then r note_asserted m).1 a b ≡ find m a b
unfolding note_asserted find
note_asserted-entries (ok (v, true)) m a b = refl
note_asserted-entries (ok (v, false)) m a b = refl
note_asserted-entries (raise e) m a b = refl

pub stays_stored :
    {W V : Type 0} (generate_val : ℕ → ℕ → Exec (Fields W) (Option V)) (a b : ℕ) (m : KeysMap W V)
    (c d : ℕ) (v : V)
    → find m c d ≡ some v
    → find (keys_assert_pair generate_val a b absent m).1 c d ≡ some v
unfolding keys_assert_pair
stays_stored generate_val a b m c d v e =
    elim (Bool-cases (pair_is_key.is_key (pair_key a b) (pair_key c d))) [
      | inl same ↦
          let e' = find-pair_key m a b c d ((same_pair_iff _ _).0 same) ∙ e in
          ap (λ s. find s.1 c d) (keys_found generate_val a b m e') ∙ e
      | inr other ↦
          note_asserted-entries (assert_pair generate_val a b absent m).0 _ c d
          ∙ find-assert_pair_ne generate_val a b absent m c d
              (λ k. ground (arith, (same_pair_iff (pair_key a b) (pair_key c d)).1 k))
          ∙ e
    ]
