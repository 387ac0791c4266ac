-- ===== src/Applier/Phase.antt =====
-- pkg/applier/applier.go: `applyPhase`, which writes and deletes the files of a changeset in order and
-- collects what the later steps need.
mod Order
mod Collect
unfoldable pub use Order.*
unfoldable pub use Collect.*
use picolet.Prelude.{
  ℕ, ◌+◌, String, Bool, true, false, not, ◌&&◌, ◌||◌, Option, none, some, List, [], ◌∷◌, ◌++◌, ◌==◌,
  if◌then◌else◌, leb, eqb, or_else, contains, add, str_leb,
}
use picolet.GoMap.{put}
use picolet.FilePath.{base, cut_prefix, dir}
use picolet.Config.Category.{
  Category, Spec, dest_secret, RestartPolicy, restart_none, restart_changed, restart_activate,
  restart_rebuild, generated_unit, file_unit, spec_for, uses_rel_path, same_category,
}
use picolet.Changeset.{Action, create, update, delete, noop, Change, is_write, is_delete, is_noop}
use picolet.Systemd.{is_passive_unit}
use picolet.Applier.Types.{
  Op, enable, disable, start, restart, Env, UnitFile, ApplyError, op_failed, change_failed, error,
  success, Applier, Phase, Run, ApplyResult, call, add_error, add_unit_op, unit_op, stop_unit,
  secret_create, secret_remove, mkdir_all, write_file, remove_file, empty_phase,
}

-- `runSystemdOp`
unfoldable pub run_systemd_op : Env → String → Op → Run → Run
unfolding call
run_systemd_op env unit op r =
    let (r', ok) = call env (unit_op op unit) r in
    if ok
    then record r' { result = add_unit_op unit op success r'.result }
    else record r' { result = add_unit_op unit op error (add_error (op_failed op unit) r'.result) }

-- `unitNameForDelete`
unfoldable pub unit_name_for_delete : Change → String
unfolding spec_for base
unit_name_for_delete c = elim (spec_for c.category) [
  | none ↦ ""
  | some s ↦ elim s.unit_naming [
    | generated_unit ↦ c.service_name
    | file_unit ↦ base c.dest_path
    | _ ↦ ""
  ]
]

abbrev pub is_activate : RestartPolicy → Bool
is_activate restart_activate = true
is_activate _ = false

-- `stopUnitForDelete`: a raw unit is disabled first; the stop of a self unit is put off.
unfoldable pub stop_unit_for_delete : Env → Applier → Change → Run → Run
unfolding run_systemd_op is_self_unit call
stop_unit_for_delete env a c r =
    let unit = unit_name_for_delete c in
    let disabled =
      if is_activate (restart_policy c.category) then run_systemd_op env unit disable r else r in
    if unit == ""
    then r
    else if is_self_unit a unit
    then record disabled {
      result = record disabled.result {
        deferred_self_stops = disabled.result.deferred_self_stops ++ unit ∷ [];
      };
    }
    else (call env (stop_unit unit) disabled).0

-- `applyCreateOrUpdate`, and whether it succeeded.
unfoldable pub apply_create_or_update : Env → Change → Run → Run × Bool
unfolding call
apply_create_or_update env c r =
    if goes_to_secret c.category
    then call env (secret_create (secret_name c.dest_path) c.new_content (is_update c.action)) r
    else let (r', ok) = call env (mkdir_all (dir c.dest_path)) r in
      if ok then call env (write_file c.dest_path c.new_content) r' else (r', false)

unfoldable pub apply_delete : Env → Change → Run → Run × Bool
unfolding call
apply_delete env c r =
    if goes_to_secret c.category
    then call env (secret_remove (secret_name c.dest_path)) r
    else call env (remove_file c.dest_path) r

unfoldable pub apply_change : Env → Change → Run → Run × Bool
unfolding apply_create_or_update apply_delete
apply_change env c r = elim c.action [
  | create ↦ apply_create_or_update env c r
  | update ↦ apply_create_or_update env c r
  | delete ↦ apply_delete env c r
  | noop ↦ (r, true)
]

unfoldable pub prepare_delete : Env → Applier → Change → Run → Run
prepare_delete env a c r = if is_delete c.action then stop_unit_for_delete env a c r else r

-- One turn of the loop; `some` is the error that ends it.
unfoldable pub apply_step : Env → Applier → Change → Phase → Run → (Phase × Run) × Option ApplyError
apply_step env a c p r =
    if is_noop c.action
    then ((p, r), none)
    else if a.dry_run
    then ((p, record r { result = record r.result { applied = r.result.applied + 1 } }), none)
    else let (r', ok) = apply_change env c (prepare_delete env a c r) in
      let (p', res) = record_applied a c p r'.result in
      if ok
      then ((p', record r' { result = res }), none)
      else ((p, r'), some (change_failed c.dest_path))

unfoldable pub apply_changes :
    Env → Applier → List Change → Phase → Run → (Phase × Run) × Option ApplyError
apply_changes env a [] p r = ((p, r), none)
apply_changes env a (c ∷ rest) p r =
    let ((p', r'), err) = apply_step env a c p r in
    elim err [ some e ↦ ((p', r'), some e) | none ↦ apply_changes env a rest p' r' ]

-- `applyPhase`
unfoldable pub apply_phase : Env → Applier → List Change → Run → (Phase × Run) × Option ApplyError
apply_phase env a sorted r = apply_changes env a sorted empty_phase r
