-- ===== src/Applier/Phase/Collect.antt =====
-- pkg/applier/applier.go: what `applyPhase` records of a change for the later steps.
use picolet.Prelude.{
  ◌+◌, String, Bool, true, false, not, ◌&&◌, ◌||◌, Option, none, some, List, [], ◌∷◌, ◌++◌, ◌==◌,
  if◌then◌else◌, add,
}
use picolet.GoMap.{put}
use picolet.FilePath.{base}
use picolet.Config.Category.{
  Category, restart_none, restart_changed, restart_activate, restart_rebuild, uses_rel_path,
  same_category,
}
use picolet.Changeset.{Action, create, Change, is_write, is_delete}
use picolet.Systemd.{is_passive_unit}
use picolet.Applier.Types.{Op, enable, start, restart, UnitFile, Applier, Phase, ApplyResult}
use picolet.Applier.Phase.Order.{
  goes_to_secret, restart_policy, is_self_unit, is_update, secret_name,
}

-- `recordChangedSecret`
unfoldable pub record_changed_secret : Applier → String → Phase → ApplyResult → Phase × ApplyResult
record_changed_secret a name p res =
    let p' = record p { changed_secrets = add name p.changed_secrets } in
    if not (a.self_config_secret == "") && name == a.self_config_secret
    then (
      record p' { changed_units = add a.self_config_unit p'.changed_units },
      record res { self_config_changed = true },
    )
    else (p', res)

abbrev pub has_rel : Category → String → List (Category × String) → Bool
has_rel c rel [] = false
has_rel c rel ((d, r) ∷ rest) = (same_category c d && rel == r) || has_rel c rel rest

unfoldable pub record_changed_rel :
    Category → String → List (Category × String) → List (Category × String)
record_changed_rel c rel rels =
    if not (uses_rel_path c) || rel == ""
    then rels
    else if has_rel c rel rels
    then rels
    else (c, rel) ∷ rels

abbrev pub unit_has_install : Option UnitFile → Bool
unit_has_install none = false
unit_has_install (some u) = u.has_install

abbrev pub is_oneshot_unit : Option UnitFile → Bool
is_oneshot_unit none = false
is_oneshot_unit (some u) = u.service_type == "oneshot"

-- The pod that starts the container, or "".
abbrev pub starting_pod : Option UnitFile → String
starting_pod none = ""
starting_pod (some u) = if u.pod == "" || not u.start_with_pod then "" else u.pod

abbrev pub is_create : Action → Bool
is_create create = true
is_create _ = false

-- The switch of `classifySystemdActivation`: what to do with the unit beside enabling it.
unfoldable pub activation_ops : Action → Bool → Option UnitFile → List Op
activation_ops action passive parsed =
    if passive
    then (if is_update action then restart else start) ∷ []
    else if not (unit_has_install parsed)
    then []
    else if is_oneshot_unit parsed
    then (if is_create action then start ∷ [] else [])
    else restart ∷ []

abbrev pub with_unit : String → List Op → List (String × Op)
with_unit unit [] = []
with_unit unit (op ∷ rest) = (unit, op) ∷ with_unit unit rest

unfoldable pub classify_systemd_activation : Applier → Change → Phase → Phase
unfolding activation_ops base is_passive_unit
classify_systemd_activation a c p =
    let unit = base c.dest_path in
    let parsed = a.parse unit c.new_content in
    let enables = if unit_has_install parsed then enable ∷ [] else [] in
    record p {
      activations =
          p.activations
          ++ with_unit unit (enables ++ activation_ops c.action (is_passive_unit unit) parsed);
    }

abbrev pub is_pod : Category → Bool
is_pod Category.pod = true
is_pod _ = false

abbrev pub is_container : Category → Bool
is_container Category.container = true
is_container _ = false

-- `recordChangedUnit`
unfoldable pub record_changed_unit : Applier → Change → Phase → Phase
unfolding base
record_changed_unit a c p =
    let filename = base c.dest_path in
    let unit = a.parse filename c.new_content in
    let pod = starting_pod unit in
    record p {
      changed_units = add c.service_name p.changed_units;
      oneshot_units =
          if is_oneshot_unit unit then add c.service_name p.oneshot_units else p.oneshot_units;
      changed_pods =
          if is_pod c.category then put filename c.service_name p.changed_pods else p.changed_pods;
      pod_members = if pod == "" then p.pod_members else put c.service_name pod p.pod_members;
    }

-- The switch on the restart policy for a written file.
unfoldable pub record_written_unit : Applier → Change → Phase → Phase
unfolding classify_systemd_activation record_changed_unit
record_written_unit a c p = elim (restart_policy c.category) [
  | restart_activate ↦ classify_systemd_activation a c p
  | restart_changed ↦ if c.service_name == "" then p else record_changed_unit a c p
  | restart_rebuild ↦ p
  | restart_none ↦ p
]

-- What the loop of `applyPhase` records after a change has been applied.
unfoldable pub record_applied : Applier → Change → Phase → ApplyResult → Phase × ApplyResult
unfolding record_changed_secret record_changed_rel record_written_unit is_self_unit
record_applied a c p res =
    let counted = record res { applied = res.applied + 1 } in
    if goes_to_secret c.category
    then (if is_write c.action
        then record_changed_secret a (secret_name c.dest_path) p counted
        else (p, counted))
    else let reloads = record p {
      changed_rels =
          if is_write c.action
          then record_changed_rel c.category c.rel_path p.changed_rels
          else p.changed_rels;
      needs_reload = p.needs_reload || not (uses_rel_path c.category);
    } in
      if is_delete c.action then (reloads, counted) else (
        record_written_unit a c reloads,
        if is_container c.category && is_self_unit a c.service_name
            then record counted { needs_self_restart = true }
            else counted,
      )
