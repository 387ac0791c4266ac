-- ===== src/Applier/SelfUnits/Spared.antt =====
-- An apply puts off what would end the agent.
use picolet.Prelude.{
  String, ◌≡◌, refl, ◌∙◌, true, false, List, [], ◌∷◌, arith, ◌==◌, any, eq_iff, sort,
}
use picolet.Changeset.{Changeset}
use picolet.Applier.Triggers.{triggered_builds}
use picolet.Applier.Types.{
  Op, restart, Env, Applier, Run, Phase, Call, call, unit_op, restart_ignoring_dependencies,
  later_restart, later_stop, later_restart_ignoring, empty_apply_result, empty_phase,
}
use picolet.Applier.Phase.{
  run_systemd_op, is_self_unit, apply_changes, apply_phase, sorted_by_category,
}
use picolet.Applier.Hooks.{run_hooks_with_pending}
use picolet.Applier.Restart.{
  add_restarted, restart_by, restart_changed_unit, restart_consumer, restart_each,
  activate_systemd_units, schedule_restarts, schedule_stops, schedule_self_unit_ops, self_units_of,
  take_build_consumers, drop_pod_member_restarts, without_all,
}
use picolet.Applier.Builds.{run_builds}
use picolet.Applier.Apply.{
  reload_if_needed, restart_changed, restart_after_builds, restart_units, add_all,
  apply_after_files, apply_with_pending,
}
use picolet.Applier.Sorted.{any-sorted_by_category}
use picolet.Applier.Observe.{is_hook_call, is_prepare_call}
use picolet.Applier.Observe.Hooks.{run_hooks_with_pending-unseen}
use picolet.Applier.Observe.Steps.{reload_if_needed-unseen, run_builds-unseen}
use picolet.Applier.Failure.{calls_of-Ignores}
use picolet.Applier.SelfUnits.{
  ends, endings, hooks_end_nothing, builds_end_nothing, call-endings, run_systemd_op-endings,
  activates, names_unit, apply_changes-endings,
}

restart_by-endings :
    (u : String) (env : Env) (how : String → Call) (v : String) (r : Run)
    → ends u (how v) ≡ false
    → endings u (restart_by env how v r).history ≡ endings u r.history
unfolding restart_by
restart_by-endings u env how v r h = call-endings u env (how v) r h

restart_changed-endings :
    (u : String) (env : Env) (oneshots : List String) (v : String) (r : Run)
    → (u == v) ≡ false
    → endings u (restart_changed env oneshots v r).history ≡ endings u r.history
unfolding restart_changed restart_changed_unit
restart_changed-endings u env oneshots v r h =
    ground (arith, restart_by-endings u env (unit_op restart) v r h)

restart_consumer-endings :
    (u : String) (env : Env) (v : String) (r : Run)
    → (u == v) ≡ false
    → endings u (restart_consumer env v r).history ≡ endings u r.history
unfolding restart_consumer
restart_consumer-endings u env v r h = ground (
  arith,
  restart_by-endings u env (unit_op restart) v r h,
  restart_by-endings u env restart_ignoring_dependencies v r h,
)

restart_each-endings :
    (u : String) (a : Applier) (f : String → Run → Run) (units : List String) (r : Run)
    → is_self_unit a u ≡ true
    → ((v : String) (s : Run) → (u == v) ≡ false → endings u (f v s).history ≡ endings u s.history)
    → endings u (restart_each a f units r).history ≡ endings u r.history
unfolding restart_each
restart_each-endings u a f [] r self h = refl
restart_each-endings u a f (v ∷ rest) r self h = ground (
  arith,
  self,
  h v r,
  eq_iff u v,
  restart_each-endings u a f rest r self h,
  restart_each-endings u a f rest (f v r) self h,
)

activate_systemd_units-endings :
    (u : String) (env : Env) (ops : List (String × Op)) (r : Run)
    → names_unit u ops ≡ false
    → endings u (activate_systemd_units env ops r).history ≡ endings u r.history
unfolding activate_systemd_units
activate_systemd_units-endings u env [] r h = refl
activate_systemd_units-endings u env ((v, op) ∷ rest) r h = ground (
  arith,
  h,
  run_systemd_op-endings u env v op r,
  activate_systemd_units-endings u env rest (run_systemd_op env v op r),
)

schedule_restarts-endings :
    (u : String) (env : Env) (how : String → Call) (units : List String) (r : Run)
    → ((v : String) → ends u (how v) ≡ false)
    → endings u (schedule_restarts env how units r).history ≡ endings u r.history
unfolding schedule_restarts
schedule_restarts-endings u env how [] r h = refl
schedule_restarts-endings u env how (v ∷ rest) r h =
    let noted = record r { result = add_restarted v r.result } in
    schedule_restarts-endings u env how rest (call env (how v) noted).0 h
    ∙ call-endings u env (how v) noted (h v)

schedule_stops-endings :
    (u : String) (env : Env) (restarts units : List String) (r : Run)
    → endings u (schedule_stops env restarts units r).history ≡ endings u r.history
unfolding schedule_stops
schedule_stops-endings u env restarts [] r = refl
schedule_stops-endings u env restarts (v ∷ rest) r = ground (
  arith,
  call-endings u env (later_stop v) r refl,
  schedule_stops-endings u env restarts rest r,
  schedule_stops-endings u env restarts rest (call env (later_stop v) r).0,
)

restart_after_builds-endings :
    (u : String) (env : Env) (a : Applier) (p : Phase) (r : Run)
    → is_self_unit a u ≡ true
    → names_unit u p.activations ≡ false
    → endings u (restart_after_builds env a p r).history ≡ endings u r.history
unfolding restart_after_builds schedule_self_unit_ops
restart_after_builds-endings u env a p r self h =
    let units =
      drop_pod_member_restarts p.pod_members p.changed_pods
        (without_all p.builds p.changed_units) in
    let (consumers, ordinary) = take_build_consumers a p.builds p.changed_pods units in
    let changed = sort ordinary in
    let activated = activate_systemd_units env p.activations r in
    let restarted = restart_each a (restart_changed env p.oneshot_units) changed activated in
    let consumed = restart_each a (restart_consumer env) consumers restarted in
    let restarts = self_units_of a changed in
    let put_off = schedule_restarts env later_restart restarts consumed in
    let stopped = schedule_stops env restarts put_off.result.deferred_self_stops put_off in
    schedule_restarts-endings u env later_restart_ignoring (self_units_of a consumers) stopped
      (λ v. refl)
    ∙ schedule_stops-endings u env restarts put_off.result.deferred_self_stops put_off
    ∙ schedule_restarts-endings u env later_restart restarts consumed (λ v. refl)
    ∙ restart_each-endings u a (restart_consumer env) consumers restarted self
        (restart_consumer-endings u env)
    ∙ restart_each-endings u a (restart_changed env p.oneshot_units) changed activated self
        (restart_changed-endings u env p.oneshot_units)
    ∙ activate_systemd_units-endings u env p.activations r h

restart_units-endings :
    (u : String) (env : Env) (a : Applier) (p : Phase) (r : Run)
    → is_self_unit a u ≡ true
    → names_unit u p.activations ≡ false
    → endings u (restart_units env a p r).0.history ≡ endings u r.history
unfolding restart_units
restart_units-endings u env a p r self h =
    let preparing = calls_of-Ignores (ends u) is_prepare_call (builds_end_nothing u) in
    let reloaded = (reload_if_needed env p.needs_reload r).0 in
    let built = (run_builds env p.builds p.build_tags reloaded).0 in
    ground (
      arith,
      reload_if_needed-unseen (endings u) preparing env p.needs_reload r,
      run_builds-unseen (endings u) preparing env p.builds p.build_tags reloaded,
      restart_after_builds-endings u env a p built self h,
    )

apply_after_files-endings :
    (u : String) (env : Env) (a : Applier) (triggered : List String × List String)
    (pending : List String) (p : Phase) (r : Run)
    → is_self_unit a u ≡ true
    → names_unit u p.activations ≡ false
    → endings u (apply_after_files env a triggered pending p r).0.history ≡ endings u r.history
unfolding apply_after_files
apply_after_files-endings u env a (builds, tags) pending p r self h =
    let hooking = calls_of-Ignores (ends u) is_hook_call (hooks_end_nothing u) in
    let (units, hooked) =
      run_hooks_with_pending env a p.changed_secrets p.changed_rels p.changed_units pending r in
    restart_units-endings u env a
      (record p {
        builds = builds;
        build_tags = tags;
        changed_units = add_all units p.changed_units;
      })
      hooked self h
    ∙ run_hooks_with_pending-unseen (endings u) hooking env a p.changed_secrets p.changed_rels
        p.changed_units pending r

-- Where no change activates a raw unit of its name, an apply makes no call to systemd that stops or
-- restarts a unit of the agent's own, whatever the changeset and the environment do and whatever hooks
-- it runs.
pub apply_spares_self :
    (u : String) (env : Env) (a : Applier) (cs : Changeset) (pending : List String) (r : Run)
    → is_self_unit a u ≡ true
    → any (activates u) cs.changes ≡ false
    → endings u (apply_with_pending env a cs pending r).0.history ≡ endings u r.history
unfolding apply_with_pending apply_phase
apply_spares_self u env a cs pending r self h =
    let begun = record r { result = empty_apply_result } in
    let sorted = sorted_by_category cs.changes in
    let ((p, r'), err) = apply_changes env a sorted empty_phase begun in
    let filed =
      apply_changes-endings u env a sorted empty_phase begun self
        (any-sorted_by_category (activates u) cs.changes ∙ h) in
    ground (
      arith,
      filed,
      apply_after_files-endings u env a (triggered_builds a cs.changes) pending p r' self,
    )
