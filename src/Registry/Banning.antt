-- ===== src/Registry/Banning.antt =====
-- uno/registry/registry.py: what `ban` changes, and what it saves.
use uno.Prelude.{
  not, any, ℕ, ◌≡◌, refl, sym, ap, ◌∙◌, inl, inr, Bool, true, false, ◌&&◌, ◌||◌, List, [], ◌∷◌,
  ◌++◌, arith, if◌then◌else◌, Bool-cases, ok,
}
use uno.Prelude.Dict.{mem-append, mem}
use uno.Registry.{
  users_group, particles_group, cells_group, note_if, Property, is_config_id, is_deployment_config,
  needs_redeployment, Registry, Target, same_target, same_target_iff, target_key, differs, keep,
  collect, exclude, exclude_all, save_modified, ban, is_user, is_cell, is_particle,
}
use uno.Registry.Selecting.{mem-keep, selected, mem-collect}

differs-false : (a b : Bool) → differs a b ≡ false → a ≡ b
differs-false true b h = ground arith
differs-false false b h = ground arith

exclude-excluded :
    (banned : Bool) (target : Target) (r : Registry) (m : List Target) (t : Target)
    → (exclude banned target (r, m)).0.excluded t
      ≡ (if same_target target t then banned else r.excluded t)
unfolding exclude
exclude-excluded banned target r m t = elim (Bool-cases (differs (r.excluded target) banned)) [
  | inl e ↦ rw e refl
  | inr e ↦ elim (Bool-cases (same_target target t)) [
    | inl same ↦
        rw (e, same)
          (ap r.excluded (sym ((same_target_iff target t).0 same))
            ∙ differs-false (r.excluded target) banned e)
    | inr other ↦ rw (e, other) refl
  ]
]

mem-exclude :
    (banned : Bool) (target : Target) (r : Registry) (m : List Target) (t : Target)
    → mem (exclude banned target (r, m)).1 t
      ≡ (mem m t || (same_target target t && differs (r.excluded t) banned))
unfolding exclude
mem-exclude banned target r m t = elim (Bool-cases (same_target target t)) [
  | inr other ↦ elim (Bool-cases (differs (r.excluded target) banned)) [
    | inl e ↦ rw e (ground (arith, other, mem-append m (target ∷ []) t))
    | inr e ↦ rw e (ground (arith, other))
  ]
  | inl same ↦
      let p = ap (λ x. differs (r.excluded x) banned) ((same_target_iff target t).0 same) in
      elim (Bool-cases (differs (r.excluded target) banned)) [
        | inl e ↦ rw e (ground (arith, same, p, e, mem-append m (target ∷ []) t))
        | inr e ↦ rw e (ground (arith, same, p, e))
      ]
]

exclude_all-excluded :
    (banned : Bool) (ts : List Target) (s : Registry × List Target) (t : Target)
    → (exclude_all banned ts s).0.excluded t ≡ (if mem ts t then banned else s.0.excluded t)
unfolding exclude_all
exclude_all-excluded banned [] s t = refl
exclude_all-excluded banned (target ∷ ts) s t = ground (
  arith,
  exclude_all-excluded banned ts (exclude banned target s) t,
  exclude-excluded banned target s.0 s.1 t,
)

mem-exclude_all :
    (banned : Bool) (ts : List Target) (s : Registry × List Target) (t : Target)
    → mem (exclude_all banned ts s).1 t
      ≡ (mem s.1 t || (mem ts t && differs (s.0.excluded t) banned))
unfolding exclude_all
mem-exclude_all banned [] s t = ground arith
mem-exclude_all banned (target ∷ ts) s t = ground (
  arith,
  mem-exclude_all banned ts (exclude banned target s) t,
  mem-exclude banned target s.0 s.1 t,
  exclude-excluded banned target s.0 s.1 t,
)

-- Only `excluded` was changed yet.
abbrev Unsaved : Registry → Registry → Type 0
Unsaved r r' = (r'.saved ≡ r.saved) × (r'.changed ≡ r.changed) × (r'.deployed ≡ r.deployed)

exclude-Unsaved :
    (banned : Bool) (target : Target) (s : Registry × List Target)
    → Unsaved s.0 (exclude banned target s).0
unfolding exclude
exclude-Unsaved banned target s = elim (Bool-cases (differs (s.0.excluded target) banned)) [
  | inl e ↦ rw e (refl, refl, refl)
  | inr e ↦ rw e (refl, refl, refl)
]

exclude_all-Unsaved :
    (banned : Bool) (ts : List Target) (s : Registry × List Target)
    → Unsaved s.0 (exclude_all banned ts s).0
unfolding exclude_all
exclude_all-Unsaved banned [] s = (refl, refl, refl)
exclude_all-Unsaved banned (target ∷ ts) s =
    let before = exclude-Unsaved banned target s in
    let after = exclude_all-Unsaved banned ts (exclude banned target s) in
    (after.0 ∙ before.0, after.1 ∙ before.1, after.2 ∙ before.2)

one_class : (t : Target) → (is_cell t || (is_particle t || is_user t)) ≡ true
one_class (Target.user i) = refl
one_class (Target.cell i) = refl
one_class (Target.particle i) = refl

mem-by_class :
    (m : List Target) (t : Target)
    → mem (keep is_cell m ++ (keep is_particle m ++ keep is_user m)) t ≡ mem m t
mem-by_class m t =
    mem-append (keep is_cell m) (keep is_particle m ++ keep is_user m) t
    ∙ ground (
      arith,
      mem-append (keep is_particle m) (keep is_user m) t,
      mem-keep is_cell m t,
      mem-keep is_particle m t,
      mem-keep is_user m t,
      one_class t,
    )

-- For a registry and targets of which none owns a UVN, and any order of the set of what was
-- collected: an object has the new value of `excluded` if it was selected, and its old value else;
-- and the objects that are saved are those whose value changed.
pub ban_lem :
    (answer : ℕ → Bool) (order : List Target → List Target) (targets : List Target)
    (banned unban_owned : Bool) (r : Registry) (t : Target)
    → any (λ s. is_user s && r.owns_uvn s) targets ≡ false
    → ((xs : List Target) (x : Target) → mem (order xs) x ≡ mem xs x)
    → let (result, r') = ban answer order targets banned unban_owned r in
      (result ≡ ok tt)
      × (r'.excluded t
          ≡ (if selected banned unban_owned answer r 0 targets t then banned else r.excluded t))
      × (mem r'.saved t ≡ (mem r.saved t || differs (r'.excluded t) (r.excluded t)))
unfolding ban save_modified
ban_lem answer order targets banned unban_owned r t no_owner any_order =
    let chosen = collect banned unban_owned answer r 0 targets [] in
    let done = exclude_all banned (order chosen) (r, []) in
    let e1 = any_order chosen t in
    let e2 = mem-collect banned unban_owned answer r 0 targets [] t in
    let e3 = exclude_all-excluded banned (order chosen) (r, []) t in
    let e4 = mem-exclude_all banned (order chosen) (r, []) t in
    let unsaved = ap (λ l. mem l t) (exclude_all-Unsaved banned (order chosen) (r, [])).0 in
    let by_class = mem-by_class done.1 t in
    let was : Bool = r.excluded t in
    rw no_owner (
      refl,
      ground (arith, e1, e2, e3),
      mem-append done.0.saved
            (keep is_cell done.1 ++ (keep is_particle done.1 ++ keep is_user done.1)) t
          ∙ ground (arith, unsaved, by_class, e1, e2, e3, e4),
    )

any-mem :
    (test : Target → Bool) (m : List Target) (t : Target)
    → mem m t ≡ true
    → test t ≡ true
    → any test m ≡ true
any-mem test [] t h holds = cc
any-mem test (x ∷ m) t h holds = elim (Bool-cases (same_target x t)) [
  | inl same ↦ ground (arith, ap test ((same_target_iff x t).0 same), holds)
  | inr other ↦ ground (arith, any-mem test m t (ground (arith, other, h)) holds)
]

modified-changed :
    (banned : Bool) (ts : List Target) (r : Registry) (t : Target)
    → mem (exclude_all banned ts (r, [])).1 t
      ≡ differs ((exclude_all banned ts (r, [])).0.excluded t) (r.excluded t)
modified-changed banned ts r t =
    ground (arith, mem-exclude_all banned ts (r, []) t, exclude_all-excluded banned ts (r, []) t)

any-append :
    (test : Property → Bool) (xs ys : List Property)
    → any test (xs ++ ys) ≡ (any test xs || any test ys)
any-append test [] ys = refl
any-append test (x ∷ xs) ys = ground (arith, any-append test xs ys)

any-note_if :
    (test : Property → Bool) (c : Bool) (group noted : List Property)
    → any test (note_if c group noted) ≡ (any test noted || (c && any test group))
any-note_if test true group noted = any-append test noted group
any-note_if test false group noted = ground arith

-- What the classes of modified objects make of the two properties.
noted_config_id :
    (s : Registry × List Target)
    → any is_config_id (save_modified s).changed ≡ (
        any is_config_id s.0.changed
        || (any is_cell s.1 || (any is_particle s.1 || any is_user s.1)))
unfolding save_modified
noted_config_id s =
    let after_cells = note_if (any is_cell s.1) cells_group s.0.changed in
    let after_particles = note_if (any is_particle s.1) particles_group after_cells in
    ground (
      arith,
      any-note_if is_config_id (any is_user s.1) users_group after_particles,
      any-note_if is_config_id (any is_particle s.1) particles_group after_cells,
      any-note_if is_config_id (any is_cell s.1) cells_group s.0.changed,
    )

noted_deployment_config :
    (s : Registry × List Target)
    → any is_deployment_config (save_modified s).changed
      ≡ (any is_deployment_config s.0.changed || any is_cell s.1)
unfolding save_modified
noted_deployment_config s =
    let after_cells = note_if (any is_cell s.1) cells_group s.0.changed in
    let after_particles = note_if (any is_particle s.1) particles_group after_cells in
    ground (
      arith,
      any-note_if is_deployment_config (any is_user s.1) users_group after_particles,
      any-note_if is_deployment_config (any is_particle s.1) particles_group after_cells,
      any-note_if is_deployment_config (any is_cell s.1) cells_group s.0.changed,
    )

any_class :
    (m : List Target) (t : Target)
    → mem m t ≡ true
    → (any is_cell m || (any is_particle m || any is_user m)) ≡ true
any_class m (Target.user i) h = ground (arith, any-mem is_user m (Target.user i) h refl)
any_class m (Target.cell i) h = ground (arith, any-mem is_cell m (Target.cell i) h refl)
any_class m (Target.particle i) h = ground (arith, any-mem is_particle m (Target.particle i) h refl)

noted_cell :
    (m : List Target) (t : Target) → mem m t ≡ true → (any is_cell m || not (is_cell t)) ≡ true
noted_cell m (Target.cell i) h = ground (arith, any-mem is_cell m (Target.cell i) h refl)
noted_cell m (Target.user i) h = ground arith
noted_cell m (Target.particle i) h = ground arith

-- If `ban` changed the value of `excluded` of an object, then the registry's `config_id` is among
-- its properties that changed; and if that object is a cell, the registry needs a new deployment.
pub ban-noted :
    (answer : ℕ → Bool) (order : List Target → List Target) (targets : List Target)
    (banned unban_owned : Bool) (r : Registry) (t : Target)
    → any (λ s. is_user s && r.owns_uvn s) targets ≡ false
    → differs ((ban answer order targets banned unban_owned r).1.excluded t) (r.excluded t) ≡ true
    → let r' = (ban answer order targets banned unban_owned r).1 in
      (any is_config_id r'.changed ≡ true) × ((needs_redeployment r' || not (is_cell t)) ≡ true)
unfolding ban needs_redeployment
ban-noted answer order targets banned unban_owned r t no_owner changed =
    let chosen = order (collect banned unban_owned answer r 0 targets []) in
    let done = exclude_all banned chosen (r, []) in
    let member : mem done.1 t ≡ true =
      modified-changed banned chosen r t ∙ (rw no_owner at changed) in
    rw no_owner (
      noted_config_id done ∙ ground (arith, any_class done.1 t member),
      ground (arith, noted_deployment_config done, noted_cell done.1 t member),
    )
