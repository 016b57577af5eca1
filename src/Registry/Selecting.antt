-- ===== src/Registry/Selecting.antt =====
-- uno/registry/registry.py: which objects `ban` collects.
use uno.Prelude.{
  ℕ, suc, ◌≡◌, refl, ap, inl, inr, Bool, false, ◌&&◌, ◌||◌, List, [], ◌∷◌, arith, Bool-cases,
}
use uno.Prelude.Dict.{mem-append, mem}
use uno.Registry.{
  Registry, Target, same_target, same_target_iff, target_key, differs, keep, include, include_all,
  owned_targets, collect,
}

mem-include :
    (s : Target) (xs : List Target) (t : Target)
    → mem (include s xs) t ≡ (same_target s t || mem xs t)
unfolding include
mem-include s xs t = ground (arith, mem-append xs (s ∷ []) t, same_target_iff s t)

mem-include_all :
    (ts xs : List Target) (t : Target) → mem (include_all ts xs) t ≡ (mem ts t || mem xs t)
unfolding include_all
mem-include_all [] xs t = refl
mem-include_all (s ∷ ts) xs t =
    ground (arith, mem-include_all ts (include s xs) t, mem-include s xs t)

pub mem-keep :
    (test : Target → Bool) (xs : List Target) (t : Target)
    → mem (keep test xs) t ≡ (mem xs t && test t)
mem-keep test [] t = refl
mem-keep test (x ∷ xs) t = elim (Bool-cases (same_target x t)) [
  | inl e ↦
      let same = ap test ((same_target_iff x t).0 e) in ground (arith, same, mem-keep test xs t)
  | inr e ↦ ground (arith, mem-keep test xs t)
]

module _ (banned unban_owned : Bool) where
  -- The user agreed to a question about this object, or about one that owns it, where it goes with
  -- its owner: when banning, or where owned objects are unbanned too.
  pub selected : (ℕ → Bool) → Registry → ℕ → List Target → Target → Bool
  selected answer r n [] t = false
  selected answer r n (target ∷ rest) t =
      (answer n
        && (same_target target t
            || ((banned || unban_owned)
                && mem (r.owned target) t
                && differs (r.excluded t) banned)))
      || selected answer r (suc n) rest t

  mem-owned_targets :
      (r : Registry) (target t : Target)
      → mem (owned_targets banned unban_owned r target) t
        ≡ ((banned || unban_owned) && mem (r.owned target) t && differs (r.excluded t) banned)
  unfolding owned_targets
  mem-owned_targets r target t =
      ground (arith, mem-keep (λ s. differs (r.excluded s) banned) (r.owned target) t)

  pub mem-collect :
      (answer : ℕ → Bool) (r : Registry) (n : ℕ) (ts xs : List Target) (t : Target)
      → mem (collect banned unban_owned answer r n ts xs) t ≡ (mem xs t || selected answer r n ts t)
  unfolding collect selected
  mem-collect answer r n [] xs t = ground arith
  mem-collect answer r n (target ∷ ts) xs t = elim (Bool-cases (answer n)) [
    | inl e ↦
        let chosen = include target (include_all (owned_targets banned unban_owned r target) xs) in
        let others = mem-include_all (owned_targets banned unban_owned r target) xs t in
        let all_chosen =
          mem-include target (include_all (owned_targets banned unban_owned r target) xs) t in
        let later = mem-collect answer r (suc n) ts chosen t in
        rw e (ground (arith, later, all_chosen, others, mem-owned_targets r target t))
    | inr e ↦ rw e (mem-collect answer r (suc n) ts xs t)
  ]
