-- ===== src/Applier/Failure.antt =====
-- What an apply that fails has done to units.
use picolet.Prelude.{String, ◌≡◌, refl, ◌≢◌, ◌∙◌, Bool, true, false, List, [], ◌∷◌, arith}
use picolet.Changeset.{Change, Changeset}
use picolet.Applier.Triggers.{triggered_builds}
use picolet.Applier.Types.{Env, Applier, Run, Phase, Call, empty_apply_result, empty_phase}
use picolet.Applier.Phase.{
  prepare_delete, apply_step, apply_changes, apply_phase, sorted_by_category,
}
use picolet.Applier.Hooks.{run_hooks_with_pending}
use picolet.Applier.Apply.{
  reload_if_needed, restart_units, add_all, apply_after_files, apply_with_pending,
}
use picolet.Applier.Started.{
  starts_beside, calls_of, starts, reload_if_needed-starts, run_builds-starts,
}
use picolet.Applier.Observe.{Ignores, is_stop_call, is_file_call, is_hook_call}
use picolet.Applier.Observe.Hooks.{run_hooks_with_pending-unseen}
use picolet.Applier.Observe.Steps.{prepare_delete-unseen, apply_change-unseen}

pub calls_of-Ignores :
    (seen kind : Call → Bool)
    → ((c : Call) → kind c ≡ true → seen c ≡ false)
    → Ignores (calls_of seen) kind
calls_of-Ignores seen kind apart c ok h k = ground (arith, apart c k)

stops_start_nothing :
    (builds : List String) (c : Call) → is_stop_call c ≡ true → starts_beside builds c ≡ false
stops_start_nothing builds c h = ground (arith, h)

files_start_nothing :
    (builds : List String) (c : Call) → is_file_call c ≡ true → starts_beside builds c ≡ false
files_start_nothing builds c h = ground (arith, h)

hooks_start_nothing :
    (builds : List String) (c : Call) → is_hook_call c ≡ true → starts_beside builds c ≡ false
hooks_start_nothing builds c h = ground (arith, h)

apply_step-starts :
    (builds : List String) (env : Env) (a : Applier) (c : Change) (p : Phase) (r : Run)
    → starts builds (apply_step env a c p r).0.1.history ≡ starts builds r.history
unfolding apply_step
apply_step-starts builds env a c p r =
    let kind = starts_beside builds in
    let stopping = calls_of-Ignores kind is_stop_call (stops_start_nothing builds) in
    let writing = calls_of-Ignores kind is_file_call (files_start_nothing builds) in
    let prepared = prepare_delete env a c r in
    ground (
      arith,
      prepare_delete-unseen (starts builds) stopping env a c r,
      apply_change-unseen (starts builds) writing env c prepared,
    )

apply_changes-starts :
    (builds : List String) (env : Env) (a : Applier) (changes : List Change) (p : Phase) (r : Run)
    → starts builds (apply_changes env a changes p r).0.1.history ≡ starts builds r.history
unfolding apply_changes
apply_changes-starts builds env a [] p r = refl
apply_changes-starts builds env a (c ∷ rest) p r =
    let ((p', r'), err) = apply_step env a c p r in
    ground
      (arith, apply_step-starts builds env a c p r, apply_changes-starts builds env a rest p' r')

restart_units-starts :
    (env : Env) (a : Applier) (p : Phase) (r : Run)
    → (restart_units env a p r).1 ≢ []
    → starts p.builds (restart_units env a p r).0.history ≡ starts p.builds r.history
unfolding restart_units
restart_units-starts env a p r failed =
    let reloaded = (reload_if_needed env p.needs_reload r).0 in
    ground (
      arith,
      failed,
      reload_if_needed-starts p.builds env p.needs_reload r,
      run_builds-starts p.builds env p.build_tags reloaded,
    )

apply_after_files-starts :
    (env : Env) (a : Applier) (triggered : List String × List String) (pending : List String)
    (p : Phase) (r : Run)
    → (apply_after_files env a triggered pending p r).1 ≢ []
    → starts triggered.0 (apply_after_files env a triggered pending p r).0.history
      ≡ starts triggered.0 r.history
unfolding apply_after_files
apply_after_files-starts env a (builds, tags) pending p r failed =
    let hooking =
      calls_of-Ignores (starts_beside builds) is_hook_call (hooks_start_nothing builds) in
    let (units, hooked) =
      run_hooks_with_pending env a p.changed_secrets p.changed_rels p.changed_units pending r in
    restart_units-starts env a
      (record p {
        builds = builds;
        build_tags = tags;
        changed_units = add_all units p.changed_units;
      })
      hooked failed
    ∙ run_hooks_with_pending-unseen (starts builds) hooking env a p.changed_secrets p.changed_rels
        p.changed_units pending r

-- An apply that returns an error has started no unit but image builds which its changeset triggers, has
-- restarted and enabled none, and has left no restart or stop of its own units to do after it: as many
-- calls that do so, runs of other image builds included, are in its history as before.
pub failed_apply_starts_only_builds :
    (env : Env) (a : Applier) (cs : Changeset) (pending : List String) (r : Run)
    → (apply_with_pending env a cs pending r).1 ≢ []
    → starts (triggered_builds a cs.changes).0 (apply_with_pending env a cs pending r).0.history
      ≡ starts (triggered_builds a cs.changes).0 r.history
unfolding apply_with_pending apply_phase
failed_apply_starts_only_builds env a cs pending r failed =
    let builds = (triggered_builds a cs.changes).0 in
    let begun = record r { result = empty_apply_result } in
    let sorted = sorted_by_category cs.changes in
    let ((p, r'), err) = apply_changes env a sorted empty_phase begun in
    ground (
      arith,
      failed,
      apply_changes-starts builds env a sorted empty_phase begun,
      apply_after_files-starts env a (triggered_builds a cs.changes) pending p r',
    )
