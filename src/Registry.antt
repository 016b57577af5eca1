-- ===== src/Registry.antt =====
-- uno/registry/registry.py: the class `Registry`, as far as `ban` goes, which bans and unbans users,
-- cells and particles. An object is named by its class and its number; its property `excluded` is
-- what the registry knows of it.
pub mod Selecting
pub mod Banning
use uno.Prelude.{
  any, ℕ, zero, suc, ◌+◌, ◌-◌, ◌*◌, ◌/◌, ◌%◌, ◌^◌, ◌≤◌, ◌<◌, max, min, ◌≡◌, refl, sym, ap, ◌∙◌, ◌≢◌,
  ◌↔◌, ◌⊎◌, inl, inr, Bool, true, false, not, ◌&&◌, ◌||◌, Option, none, some, List, [], ◌∷◌, ◌++◌,
  map, arith, ltb, leb, ◌==◌, if◌then◌else◌, ltb→lt, lt→ltb, leb→le, ==_iff, ==_refl, ==_comm,
  Bool-cases, Option-cases, length, get_elem?, take, drop, replicate, length-append,
  length-replicate, take-append-drop, All, range_from, Error, runtime_error, value_error,
  index_error, key_error, type_error, assertion_error, address_value_error, not_implemented_error,
  stop_iteration, missing_key_material, Result, ok, raise, Exec, pure, lift, and_then, ◌>>=◌,
  and_then-eq-ok,
}
use uno.Prelude.Dict.{Keyed, mem}

pub data Target : Type 0 where
  user cell particle : ℕ → Target

abbrev pub same_target : Target → Target → Bool
same_target (user i) (user j) = i == j
same_target (cell i) (cell j) = i == j
same_target (particle i) (particle j) = i == j
same_target s t = false

pub same_target_iff : (s t : Target) → (same_target s t ≡ true) ↔ (s ≡ t)
same_target_iff (user i) (user j) = ground arith
same_target_iff (cell i) (cell j) = ground arith
same_target_iff (particle i) (particle j) = ground arith
same_target_iff (user i) (cell j) = ground arith
same_target_iff (user i) (particle j) = ground arith
same_target_iff (cell i) (user j) = ground arith
same_target_iff (cell i) (particle j) = ground arith
same_target_iff (particle i) (user j) = ground arith
same_target_iff (particle i) (cell j) = ground arith

instance abbrev pub target_key : Keyed Target
target_key = record { is_key = same_target; is_key_iff = same_target_iff }

-- The properties that the groups of the registry and of its UVN stand for.
pub data Property : Type 0 where
  config_id deployment_config root_vpn_keymat backbone_vpn_keymat particles_vpn_keymats : Property
  all_cells cells excluded_cells private_cells : Property
  all_particles particles excluded_particles : Property

-- `PROPERTY_GROUPS` of the registry, by the class of the object, and of its UVN
abbrev pub users_group : List Property
users_group = config_id ∷ []

abbrev pub particles_group : List Property
particles_group = config_id ∷ particles_vpn_keymats ∷ []

abbrev pub cells_group : List Property
cells_group =
    config_id ∷ deployment_config ∷ root_vpn_keymat ∷ backbone_vpn_keymat ∷ particles_vpn_keymats
    ∷ []

abbrev pub cell_properties : List Property
cell_properties = all_cells ∷ cells ∷ excluded_cells ∷ private_cells ∷ []

abbrev pub particle_properties : List Property
particle_properties = all_particles ∷ particles ∷ excluded_particles ∷ []

-- `owned` lists the cells and particles that an object owns, and `owns_uvn` says whether it owns a
-- UVN; `saved` lists what was passed to the database, and `changed` and `uvn_changed` which
-- properties of the registry and of its UVN were noted as changed, in order. No change of
-- `excluded` waits to be saved before.
pub record Registry : Type 0 where
  pub excluded : Target → Bool
  pub owned : Target → List Target
  pub owns_uvn : Target → Bool
  pub deployed : Bool
  pub saved : List Target
  pub changed : List Property
  pub uvn_changed : List Property

-- `a != b`
abbrev pub differs : Bool → Bool → Bool
differs true b = not b
differs false b = b

abbrev pub is_user : Target → Bool
is_user (user i) = true
is_user t = false

abbrev pub is_cell : Target → Bool
is_cell (cell i) = true
is_cell t = false

abbrev pub is_particle : Target → Bool
is_particle (particle i) = true
is_particle t = false

abbrev pub keep : (Target → Bool) → List Target → List Target
keep test [] = []
keep test (t ∷ rest) = let later = keep test rest in if test t then t ∷ later else later

-- `s.add(t)`
unfoldable pub include : Target → List Target → List Target
include t chosen = if mem chosen t then chosen else chosen ++ t ∷ []

unfoldable pub include_all : List Target → List Target → List Target
unfolding include
include_all [] chosen = chosen
include_all (t ∷ rest) chosen = include_all rest (include t chosen)

module _ (banned unban_owned : Bool) where
  -- The owned objects that a target takes with it.
  unfoldable pub owned_targets : Registry → Target → List Target
  owned_targets r target =
      if banned || unban_owned
      then keep (λ t. differs (r.excluded t) banned) (r.owned target)
      else []

  -- The loop that asks about each target; the answers are counted from 0.
  unfoldable pub collect : (ℕ → Bool) → Registry → ℕ → List Target → List Target → List Target
  unfolding include include_all owned_targets
  collect answer r n [] chosen = chosen
  collect answer r n (target ∷ rest) chosen =
      collect answer r (suc n) rest
        (if answer n then include target (include_all (owned_targets r target) chosen) else chosen)

-- `target.excluded = banned`, and whether that changed it.
unfoldable pub exclude : Bool → Target → Registry × List Target → Registry × List Target
exclude banned target (r, modified) =
    if differs (r.excluded target) banned
    then (
      record r { excluded = λ t. if same_target target t then banned else r.excluded t },
      modified ++ target ∷ [],
    )
    else (r, modified)

unfoldable pub exclude_all : Bool → List Target → Registry × List Target → Registry × List Target
unfolding exclude
exclude_all banned [] s = s
exclude_all banned (target ∷ rest) s = exclude_all banned rest (exclude banned target s)

-- `updated_property` of a group, if there is something that calls for it: its members are noted, and
-- not its name.
abbrev pub note_if : Bool → List Property → List Property → List Property
note_if c group noted = if c then noted ++ group else noted

-- What follows the loops: each class of what was modified is saved, if there is any.
unfoldable pub save_modified : Registry × List Target → Registry
save_modified (r, modified) = record r {
  saved =
      r.saved ++ (keep is_cell modified ++ (keep is_particle modified ++ keep is_user modified));
  changed = note_if (any is_user modified) users_group (
      note_if (any is_particle modified) particles_group
        (note_if (any is_cell modified) cells_group r.changed));
  uvn_changed =
      note_if (any is_particle modified) particle_properties
        (note_if (any is_cell modified) cell_properties r.uvn_changed);
}

abbrev pub is_deployment_config : Property → Bool
is_deployment_config deployment_config = true
is_deployment_config p = false

abbrev pub is_config_id : Property → Bool
is_config_id config_id = true
is_config_id p = false

-- `needs_redeployment`
unfoldable pub needs_redeployment : Registry → Bool
needs_redeployment r = not r.deployed || any is_deployment_config r.changed

-- `ban`, of a registry that is not readonly. `order` is the order of iteration of the set of what
-- was collected.
unfoldable pub ban :
    (ℕ → Bool) → (List Target → List Target) → List Target → Bool → Bool → Exec Registry (Unit {0})
unfolding collect exclude_all save_modified
ban answer order targets banned unban_owned r =
    let chosen = order (collect banned unban_owned answer r 0 targets []) in
    let banned_all = save_modified (exclude_all banned chosen (r, [])) in
    if any (λ t. is_user t && r.owns_uvn t) targets
    then (raise value_error, r)
    else (ok tt, banned_all)
