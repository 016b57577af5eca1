-- ===== src/Tests/Bans.antt =====
-- `ban` of uno/registry/registry.py at concrete inputs. The user 1 owns the cells 3 and 4 and the
-- particle 5, of which the cell 4 is banned; the user 2 owns the UVN.
use uno.Prelude.{
  any, ◌||◌, ℕ, ◌≡◌, refl, Bool, true, false, List, [], ◌∷◌, ◌==◌, if◌then◌else◌, value_error, ok,
  raise,
}
use uno.Prelude.Dict.{mem}
use uno.Registry.{
  is_config_id, needs_redeployment, Registry, Target, same_target, ban, differs, target_key,
}
use uno.Registry.Selecting.{selected}
use uno.Registry.Banning.{ban_lem, ban-noted}

abbrev owned_by_1 : Target → List Target
owned_by_1 (Target.user i) =
    if i == 1 then Target.cell 3 ∷ (Target.cell 4 ∷ Target.particle 5 ∷ []) else []
owned_by_1 t = []

abbrev registry : Registry
registry = record {
  excluded = λ t. same_target (Target.cell 4) t;
  owned = owned_by_1;
  owns_uvn = λ t. same_target (Target.user 2) t;
  deployed = true;
  saved = [];
  changed = [];
  uvn_changed = [];
}

-- The first question is answered by yes, the second by no.
abbrev answer : ℕ → Bool
answer n = n == 0

abbrev targets : List Target
targets = Target.user 1 ∷ Target.user 6 ∷ []

saves_the_others :
    (ban answer (λ xs. xs) targets true false registry).1.saved
    ≡ Target.cell 3 ∷ (Target.particle 5 ∷ Target.user 1 ∷ [])
unfolding ban
saves_the_others = refl

owner_is_refused :
    ban answer (λ xs. xs) (Target.user 2 ∷ targets) true false registry
    ≡ (raise value_error, registry)
unfolding ban
owner_is_refused = refl

ban_lem_example :
    let (result, r') = ban answer (λ xs. xs) targets true false registry in
    (result ≡ ok tt)
    × (r'.excluded (Target.cell 3)
        ≡ (if selected true false answer registry 0 targets (Target.cell 3) then true else false))
    × (mem r'.saved (Target.cell 3) ≡ differs (r'.excluded (Target.cell 3)) false)
ban_lem_example =
    ban_lem answer (λ xs. xs) targets true false registry (Target.cell 3) refl (λ xs x. refl)

cell_3_changed :
    differs ((ban answer (λ xs. xs) targets true false registry).1.excluded (Target.cell 3)) false
    ≡ true
unfolding ban
cell_3_changed = refl

ban-noted_example :
    let r' = (ban answer (λ xs. xs) targets true false registry).1 in
    (any is_config_id r'.changed ≡ true) × ((needs_redeployment r' || false) ≡ true)
ban-noted_example =
    ban-noted answer (λ xs. xs) targets true false registry (Target.cell 3) refl cell_3_changed
