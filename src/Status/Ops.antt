-- ===== src/Status/Ops.antt =====
-- pkg/status/status.go: the store's operations as values, so that a sequence of them is a history.
use picolet.Prelude.{ℕ, String, List, [], ◌∷◌}
use picolet.GoMap.{GoMap}
use picolet.Status.{
  UnitRuntimeStatus, UnitDependencies, HostMetadata, OrphanScan, PruneStatus, RunObservation,
  SecretProvider, ReconcileEvent, Store, set_units, set_unit, delete_unit, clear_units, observe_run,
  prune_runs, set_dependencies, set_host, set_orphan_scan, set_prune, set_verified_at, add_event,
  update_secret_provider, set_failed_sha_count, set_files_managed,
}

-- `update` stands for the three operations that change a secret provider's record.
pub data StoreOp : Type 0 where
  units : GoMap UnitRuntimeStatus → StoreOp
  unit : String → UnitRuntimeStatus → StoreOp
  unit_gone : String → StoreOp
  no_units : StoreOp
  observe : String → RunObservation → StoreOp
  prune_to : List String → StoreOp
  dependencies : GoMap UnitDependencies → StoreOp
  host_is : HostMetadata → StoreOp
  orphans : OrphanScan → StoreOp
  pruned : PruneStatus → StoreOp
  verified : ℕ → StoreOp
  event : ReconcileEvent → StoreOp
  update : String → (SecretProvider → SecretProvider) → StoreOp
  failures : ℕ → StoreOp
  files : GoMap ℕ → StoreOp

unfoldable pub step : StoreOp → Store → Store
unfolding observe_run prune_runs add_event
step (units us) s = set_units us s
step (unit u st) s = set_unit u st s
step (unit_gone u) s = delete_unit u s
step no_units s = clear_units s
step (observe u obs) s = observe_run u obs s
step (prune_to keep) s = prune_runs keep s
step (dependencies deps) s = set_dependencies deps s
step (host_is h) s = set_host h s
step (orphans scan) s = set_orphan_scan scan s
step (pruned p) s = set_prune p s
step (verified t) s = set_verified_at t s
step (event e) s = add_event e s
step (update p f) s = update_secret_provider p f s
step (failures n) s = set_failed_sha_count n s
step (files by_category) s = set_files_managed by_category s

unfoldable pub run_ops : List StoreOp → Store → Store
unfolding step
run_ops [] s = s
run_ops (op ∷ ops) s = run_ops ops (step op s)
