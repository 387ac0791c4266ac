-- ===== src/Applier/Observe/Restarts.antt =====
-- What restarting units leaves alone.
use picolet.Prelude.{String, ◌≡◌, refl, ◌∙◌, true, List, [], ◌∷◌, arith, sort}
use picolet.Applier.Types.{
  Op, restart, Env, Applier, Run, Phase, History, Call, call, unit_op,
  restart_ignoring_dependencies, later_restart, later_stop, later_restart_ignoring,
}
use picolet.Applier.Phase.{run_systemd_op}
use picolet.Applier.Restart.{
  add_restarted, restart_by, restart_changed_unit, restart_consumer, restart_each,
  activate_systemd_units, schedule_restarts, schedule_stops, schedule_self_unit_ops, self_units_of,
  take_build_consumers, drop_pod_member_restarts, without_all,
}
use picolet.Applier.Apply.{restart_changed, restart_after_builds}
use picolet.Applier.Observe.{Ignores, is_unit_call}
use picolet.Applier.Observe.Steps.{call-unseen, run_systemd_op-unseen}

module _ {X : Type 0} (O : History → X) (unseen : Ignores O is_unit_call) (env : Env) where
  restart_by-unseen :
      (how : String → Call) (unit : String) (r : Run)
      → is_unit_call (how unit) ≡ true
      → O (restart_by env how unit r).history ≡ O r.history
  unfolding restart_by
  restart_by-unseen how unit r h = call-unseen O is_unit_call unseen env (how unit) r h

  restart_changed-unseen :
      (oneshots : List String) (unit : String) (r : Run)
      → O (restart_changed env oneshots unit r).history ≡ O r.history
  unfolding restart_changed restart_changed_unit
  restart_changed-unseen oneshots unit r =
      ground (arith, restart_by-unseen (unit_op restart) unit r refl)

  restart_consumer-unseen :
      (unit : String) (r : Run) → O (restart_consumer env unit r).history ≡ O r.history
  unfolding restart_consumer
  restart_consumer-unseen unit r = ground (
    arith,
    restart_by-unseen (unit_op restart) unit r refl,
    restart_by-unseen restart_ignoring_dependencies unit r refl,
  )

  restart_each-unseen :
      (a : Applier) (f : String → Run → Run) (units : List String) (r : Run)
      → ((u : String) (s : Run) → O (f u s).history ≡ O s.history)
      → O (restart_each a f units r).history ≡ O r.history
  unfolding restart_each
  restart_each-unseen a f [] r h = refl
  restart_each-unseen a f (u ∷ rest) r h =
      ground
        (arith, h u r, restart_each-unseen a f rest r h, restart_each-unseen a f rest (f u r) h)

  activate_systemd_units-unseen :
      (ops : List (String × Op)) (r : Run)
      → O (activate_systemd_units env ops r).history ≡ O r.history
  unfolding activate_systemd_units
  activate_systemd_units-unseen [] r = refl
  activate_systemd_units-unseen ((unit, op) ∷ rest) r =
      activate_systemd_units-unseen rest (run_systemd_op env unit op r)
      ∙ run_systemd_op-unseen O is_unit_call unseen env unit op r refl

  schedule_restarts-unseen :
      (how : String → Call) (units : List String) (r : Run)
      → ((u : String) → is_unit_call (how u) ≡ true)
      → O (schedule_restarts env how units r).history ≡ O r.history
  unfolding schedule_restarts
  schedule_restarts-unseen how [] r h = refl
  schedule_restarts-unseen how (u ∷ rest) r h =
      let noted = record r { result = add_restarted u r.result } in
      schedule_restarts-unseen how rest (call env (how u) noted).0 h
      ∙ call-unseen O is_unit_call unseen env (how u) noted (h u)

  schedule_stops-unseen :
      (restarts units : List String) (r : Run)
      → O (schedule_stops env restarts units r).history ≡ O r.history
  unfolding schedule_stops
  schedule_stops-unseen restarts [] r = refl
  schedule_stops-unseen restarts (u ∷ rest) r =
      let stopped = (call env (later_stop u) r).0 in
      ground (
        arith,
        call-unseen O is_unit_call unseen env (later_stop u) r refl,
        schedule_stops-unseen restarts rest r,
        schedule_stops-unseen restarts rest stopped,
      )

  schedule_self_unit_ops-unseen :
      (restarts : List String) (r : Run)
      → O (schedule_self_unit_ops env restarts r).history ≡ O r.history
  unfolding schedule_self_unit_ops
  schedule_self_unit_ops-unseen restarts r =
      let r' = schedule_restarts env later_restart restarts r in
      schedule_stops-unseen restarts r'.result.deferred_self_stops r'
      ∙ schedule_restarts-unseen later_restart restarts r (λ u. refl)

  pub restart_after_builds-unseen :
      (a : Applier) (p : Phase) (r : Run) → O (restart_after_builds env a p r).history ≡ O r.history
  unfolding restart_after_builds
  restart_after_builds-unseen a p r =
      let units =
        drop_pod_member_restarts p.pod_members p.changed_pods
          (without_all p.builds p.changed_units) in
      let (consumers, ordinary) = take_build_consumers a p.builds p.changed_pods units in
      let changed = sort ordinary in
      let activated = activate_systemd_units env p.activations r in
      let restarted = restart_each a (restart_changed env p.oneshot_units) changed activated in
      let consumed = restart_each a (restart_consumer env) consumers restarted in
      let scheduled = schedule_self_unit_ops env (self_units_of a changed) consumed in
      schedule_restarts-unseen later_restart_ignoring (self_units_of a consumers) scheduled
        (λ u. refl)
      ∙ schedule_self_unit_ops-unseen (self_units_of a changed) consumed
      ∙ restart_each-unseen a (restart_consumer env) consumers restarted restart_consumer-unseen
      ∙ restart_each-unseen a (restart_changed env p.oneshot_units) changed activated
          (restart_changed-unseen p.oneshot_units)
      ∙ activate_systemd_units-unseen p.activations r
