-- ===== src/Applier/Restart.antt =====
-- `restartUnits` of pkg/applier/applier.go and the builds of pkg/applier/build.go: the daemon-reload,
-- the image builds, the raw systemd units, the changed units, the consumers of rebuilt images, and the
-- agent's own units last, after the apply.
use picolet.Prelude.{
  String, Bool, true, false, not, ◌&&◌, ◌||◌, Option, none, some, List, [], ◌∷◌, ◌++◌, ◌==◌,
  if◌then◌else◌, any, contains, sort,
}
use picolet.GoMap.{GoMap, get}
use picolet.Systemd.{timer_triggered, externally_activated}
use picolet.Status.{UnitDependencies}
use picolet.Applier.Types.{
  Op, restart, Env, Applier, Run, ApplyResult, restart_failed, status_failed, error, skipped, Call,
  call, add_error, add_unit_op, unit_op, restart_ignoring_dependencies, later_restart, later_stop,
}
use picolet.Applier.Phase.{is_self_unit, run_systemd_op}

abbrev pub add_restarted : String → ApplyResult → ApplyResult
add_restarted unit res = record res { restarted_units = res.restarted_units ++ unit ∷ [] }

-- `recordRestart`
unfoldable pub record_restart : String → Bool → ApplyResult → ApplyResult
record_restart unit true res = add_restarted unit res
record_restart unit false res = record (add_error (restart_failed unit) res) {
  failed_restart_units = res.failed_restart_units ++ unit ∷ [];
}

abbrev pub skip_restart : String → ApplyResult → ApplyResult
skip_restart unit res = add_unit_op unit restart skipped res

-- Call, and record the outcome as a restart's.
unfoldable pub restart_by : Env → (String → Call) → String → Run → Run
unfolding call record_restart
restart_by env how unit r =
    let (r', ok) = call env (how unit) r in record r' { result = record_restart unit ok r'.result }

-- `skipTimerTriggeredRestart`: what it records, or `none` where the restart goes on.
unfoldable pub skip_timer_triggered_restart : Env → String → Run → Option ApplyResult
unfolding timer_triggered
skip_timer_triggered_restart env unit r = elim (env.status_of r.history unit) [
  | none ↦ some (add_unit_op unit restart error (add_error (status_failed unit) r.result))
  | some s ↦ if timer_triggered s then some (skip_restart unit r.result) else none
]

-- `restartChangedUnit`
unfoldable pub restart_changed_unit : Env → Bool → String → Run → Run
unfolding skip_timer_triggered_restart restart_by
restart_changed_unit env oneshot unit r =
    elim (if oneshot then skip_timer_triggered_restart env unit r else none) [
      | some res ↦ record r { result = res }
      | none ↦ restart_by env (unit_op restart) unit r
    ]

-- `restartConsumer`
unfoldable pub restart_consumer : Env → String → Run → Run
unfolding externally_activated restart_by record_restart
restart_consumer env unit r = elim (env.status_of r.history unit) [
  | none ↦ record r { result = record_restart unit false r.result }
  | some s ↦
      if externally_activated s
      then record r { result = skip_restart unit r.result }
      else if s.active_state == "active"
          || s.active_state == "activating"
          || s.active_state == "reloading"
      then restart_by env restart_ignoring_dependencies unit r
      else restart_by env (unit_op restart) unit r
]

-- `restartEach`: every unit that is not the agent's own.
unfoldable pub restart_each : Applier → (String → Run → Run) → List String → Run → Run
unfolding is_self_unit
restart_each a f [] r = r
restart_each a f (u ∷ rest) r = restart_each a f rest (if is_self_unit a u then r else f u r)

-- The agent's own units among these.
unfoldable pub self_units_of : Applier → List String → List String
unfolding is_self_unit
self_units_of a [] = []
self_units_of a (u ∷ rest) =
    let others = self_units_of a rest in if is_self_unit a u then u ∷ others else others

-- `activateSystemdUnits`
unfoldable pub activate_systemd_units : Env → List (String × Op) → Run → Run
unfolding run_systemd_op
activate_systemd_units env [] r = r
activate_systemd_units env ((unit, op) ∷ rest) r =
    activate_systemd_units env rest (run_systemd_op env unit op r)

abbrev pub without : String → List String → List String
without k [] = []
without k (x ∷ xs) = let rest = without k xs in if k == x then rest else x ∷ rest

unfoldable pub without_all : List String → List String → List String
without_all [] units = units
without_all (k ∷ ks) units = without_all ks (without k units)

-- `dropPodMemberRestarts`
unfoldable pub drop_pod_member_restarts : GoMap String → GoMap String → List String → List String
drop_pod_member_restarts [] pods units = units
drop_pod_member_restarts ((member, pod) ∷ rest) pods units =
    drop_pod_member_restarts rest pods
      (elim (get pod pods) [ none ↦ units | some service ↦ without member units ])

abbrev pub wants_of : GoMap UnitDependencies → String → List String
wants_of deps pod = elim (get pod deps) [ none ↦ [] | some d ↦ d.wants ]

-- The members that the changed pods start.
unfoldable pub pod_started : GoMap UnitDependencies → GoMap String → List String
pod_started deps [] = []
pod_started deps ((file, service) ∷ rest) = wants_of deps service ++ pod_started deps rest

unfoldable pub consumers_in : GoMap UnitDependencies → List String → List String → List String
consumers_in [] builds started = []
consumers_in ((unit, d) ∷ rest) builds started =
    let others = consumers_in rest builds started in
    if any (λ dep. contains dep builds) d.requires && not (contains unit started)
    then unit ∷ others
    else others

-- `takeBuildConsumers`: the consumers, sorted, and the restart set without them.
unfoldable pub take_build_consumers :
    Applier → List String → GoMap String → List String → List String × List String
unfolding pod_started consumers_in without_all
take_build_consumers a builds pods units =
    let consumers = consumers_in a.deps builds (pod_started a.deps pods) in
    (sort consumers, without_all consumers units)

-- `scheduleSelfUnitOps`
unfoldable pub schedule_restarts : Env → (String → Call) → List String → Run → Run
unfolding call
schedule_restarts env how [] r = r
schedule_restarts env how (u ∷ rest) r =
    let r' = record r { result = add_restarted u r.result } in
    schedule_restarts env how rest (call env (how u) r').0

unfoldable pub schedule_stops : Env → List String → List String → Run → Run
unfolding call
schedule_stops env restarts [] r = r
schedule_stops env restarts (u ∷ rest) r =
    schedule_stops env restarts rest
      (if contains u restarts then r else (call env (later_stop u) r).0)

unfoldable pub schedule_self_unit_ops : Env → List String → Run → Run
unfolding schedule_restarts schedule_stops
schedule_self_unit_ops env restarts r =
    let r' = schedule_restarts env later_restart restarts r in
    schedule_stops env restarts r'.result.deferred_self_stops r'
