-- ===== src/Applier/Apply.antt =====
-- `restartUnits`, `ApplyWithPending` and `ApplyWithoutRestarts` of pkg/applier/applier.go, from the
-- steps of the sibling modules.
use picolet.Prelude.{
  String, Bool, true, not, ◌&&◌, none, some, List, [], ◌∷◌, if◌then◌else◌, contains, add, sort,
}
use picolet.Changeset.{Changeset}
use picolet.Applier.Triggers.{triggered_builds}
use picolet.Applier.Types.{
  Env, Applier, Run, Phase, ApplyResult, ApplyError, reload_failed, call, daemon_reload,
  later_restart_ignoring, empty_apply_result,
}
use picolet.Applier.Phase.{apply_phase, sorted_by_category}
use picolet.Applier.Hooks.{is_empty, run_hooks_with_pending}
use picolet.Applier.Restart.{
  activate_systemd_units, drop_pod_member_restarts, take_build_consumers, restart_each,
  self_units_of, restart_changed_unit, restart_consumer, schedule_self_unit_ops, schedule_restarts,
  without_all,
}
use picolet.Applier.Builds.{run_builds}

-- `reloadIfNeeded`, and whether it succeeded.
unfoldable pub reload_if_needed : Env → Bool → Run → Run × Bool
unfolding call
reload_if_needed env needed r = if needed then call env daemon_reload r else (r, true)

unfoldable pub restart_changed : Env → List String → String → Run → Run
unfolding restart_changed_unit
restart_changed env oneshots unit r = restart_changed_unit env (contains unit oneshots) unit r

-- `restartUnits` once the reload and the builds have succeeded.
unfoldable pub restart_after_builds : Env → Applier → Phase → Run → Run
unfolding without_all activate_systemd_units drop_pod_member_restarts take_build_consumers
    restart_each self_units_of restart_changed restart_consumer schedule_self_unit_ops
    schedule_restarts
restart_after_builds env a p r =
    let units =
      drop_pod_member_restarts p.pod_members p.changed_pods
        (without_all p.builds p.changed_units) in
    let (consumers, ordinary) = take_build_consumers a p.builds p.changed_pods units in
    let changed = sort ordinary in
    let activated = activate_systemd_units env p.activations r in
    let restarted = restart_each a (restart_changed env p.oneshot_units) changed activated in
    let consumed = restart_each a (restart_consumer env) consumers restarted in
    schedule_restarts env later_restart_ignoring (self_units_of a consumers)
      (schedule_self_unit_ops env (self_units_of a changed) consumed)

abbrev pub nothing_to_restart : Phase → ApplyResult → Bool
nothing_to_restart p res =
    is_empty p.changed_units
    && not p.needs_reload
    && is_empty res.deferred_self_stops
    && is_empty p.activations
    && is_empty p.builds

-- `restartUnits`; the errors are none on success.
unfoldable pub restart_units : Env → Applier → Phase → Run → Run × List ApplyError
unfolding reload_if_needed run_builds restart_after_builds
restart_units env a p r =
    let (reloaded, ok) = reload_if_needed env p.needs_reload r in
    let (built, errs) = run_builds env p.builds p.build_tags reloaded in
    if nothing_to_restart p r.result
    then (r, [])
    else if not ok
    then (reloaded, reload_failed ∷ [])
    else if is_empty errs
    then (restart_after_builds env a p built, [])
    else (built, errs)

abbrev pub add_all : List String → List String → List String
add_all [] s = s
add_all (k ∷ ks) s = add_all ks (add k s)

-- `ApplyWithPending` after the files have been applied. The pair is the builds to run and the
-- image tags they write.
unfoldable pub apply_after_files :
    Env → Applier → List String × List String → List String → Phase → Run → Run × List ApplyError
unfolding run_hooks_with_pending restart_units
apply_after_files env a (builds, tags) pending p r =
    let (hook_units, hooked) =
      run_hooks_with_pending env a p.changed_secrets p.changed_rels p.changed_units pending r in
    restart_units env a
      (record p {
        builds = builds;
        build_tags = tags;
        changed_units = add_all hook_units p.changed_units;
      })
      hooked

-- `ApplyWithPending`
unfoldable pub apply_with_pending :
    Env → Applier → Changeset → List String → Run → Run × List ApplyError
unfolding apply_phase apply_after_files sorted_by_category
apply_with_pending env a cs pending before =
    let ((p, r), err) =
      apply_phase env a (sorted_by_category cs.changes)
        (record before { result = empty_apply_result }) in
    elim err [
      | some e ↦ (r, e ∷ [])
      | none ↦
          if a.dry_run
          then (r, [])
          else apply_after_files env a (triggered_builds a cs.changes) pending p r
    ]

-- `ApplyWithoutRestarts`
unfoldable pub apply_without_restarts : Env → Applier → Changeset → Run → Run × List ApplyError
unfolding apply_phase sorted_by_category reload_if_needed
apply_without_restarts env a cs before =
    let ((p, r), err) =
      apply_phase env a (sorted_by_category cs.changes)
        (record before { result = empty_apply_result }) in
    let (reloaded, ok) = reload_if_needed env p.needs_reload r in
    elim err [
      | some e ↦ (r, e ∷ [])
      | none ↦ if a.dry_run then (r, []) else (reloaded, if ok then [] else reload_failed ∷ [])
    ]
