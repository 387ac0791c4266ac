-- ===== src/Lib.antt =====
-- picolet: a GitOps agent for Podman Quadlet files, in Go. The agent resolves the files a host should
-- have, compares them with the state of its last apply, applies the difference, and keeps the units
-- that it manages running.
--
-- The parts, and the files here that model them:
--   * Config: pkg/config. Category is the table of file categories of categories.go and Placement the
--     category of a path; Hook is hook.go, with Normalize its checks; RelPath is relpath.go, Host is
--     host.go, Topology topology.go, Assignments assignments.go and Lists `SortedUnique` of config.go.
--   * State: the persisted record of pkg/state/state.go with its marking operations.
--   * Changeset and Reconciler: the changes of pkg/reconciler/reconciler.go, and `Diff`, which compares
--     the desired files with the state. Reconciler/Changes and Reconciler/Diff prove what it finds.
--   * Bookkeeping: what a changeset does to the state. `UpdateState` of pkg/agent/agent.go,
--     `MergeChangeset` and `RefreshNoops` of pkg/reconciler/reconciler.go; its children prove it.
--   * Systemd: what the name and the status of a unit say (pkg/applier/applier.go).
--   * Disk: the file writer of pkg/applier/filewriter.go, with the write of
--     internal/atomicfile/atomicfile.go, on a disk.
--   * Rollback: the snapshot and the restore of pkg/rollback/rollback.go.
--   * Applier: pkg/applier. Types holds the calls, the environment and the records; Phase is
--     `applyPhase`, which writes and deletes the files; Hooks is pkg/applier/hook.go and the hook part
--     of applier.go; Restart is the restarts, Builds and Triggers are pkg/applier/build.go; Apply has
--     `ApplyWithPending` and `ApplyWithoutRestarts`. Observe shows that a step leaves alone what
--     ignores its calls, and DryRun, Failure with Started, Files and SelfUnits rest on it; Retry is
--     about the hooks that wait.
--   * Health: the pass of pkg/health/health.go.
--   * BuildUnit: the paths that an image build reads, pkg/buildunit/buildunit.go.
--   * Agent: pkg/agent/agent.go. Pending has the hooks and units that wait for a retry, Record the
--     state after an apply, Rollout `applyWithRollback`, Retry `retryPendingHooks`, Gate the decision of
--     a tick and the count of failures on one SHA, Reconcile `reconcileResolved`, which joins the diff,
--     the apply, the retry and the saves; Prune is pkg/agent/prune.go, with the load of the
--     state and the seed of its status in `tick`; Startup is the scan of orphans and the
--     cleared failure gate before the first tick.
--   * Status: the store of pkg/status/status.go, which the agent, the health pass and the prune report
--     to. Ops makes its operations values, so that Ring, Runs and LastSuccess speak of any history of
--     them.
--   * Orphan: the scan of pkg/orphan/orphan.go, over the state's managed files and the file writer.
--   * Prelude, GoMap and FilePath: lists and tests over the native numbers, Go's maps as association
--     lists, and the parts of Go's path/filepath that the code calls.
--
-- How the program is read. A Go struct is a record and a method returns the record that it leaves. A
-- map is an association list, read by key; where Go walks a map, the list's order stands for the order
-- that Go leaves open. A nil map is an empty one. A Go error is a constructor with the name that the
-- code wraps; its text is left out. A time is a number of nanoseconds. Every loop walks a finite list,
-- so recursion is on the list and no fuel is needed.
--
-- systemd, Podman, HTTP endpoints and the file system are an environment. In Applier its answer to a
-- call may depend on every call made before, and a run keeps the calls with their outcomes, the
-- newest first; the disk after a run is what its writes and removals make of the disk before,
-- where a write that fails may have replaced the file all the same. In Health it is a function of the
-- unit. Rollback and Agent/Rollout take the paths which can be read, written and removed, and those at
-- which a failing write still renames; Agent/Reconcile takes the outcomes of the analysis of the units,
-- of the check of the agent's own config and of the save, Agent/Prune those of the saves of a tick;
-- Orphan takes the visits of
-- `filepath.WalkDir`, the entries of a directory and Podman's list of secrets. SHA-256, Podman's unit
-- parser, Quadlet's pattern of a URL, `url.Parse`, `strings.ToLower` of Machines and the two regular
-- expressions of host.go are parameters. `filepath.Clean`, `Join` and `Rel` are written out in
-- FilePath/Clean for paths with slashes.
--
-- Not modelled: logging, metrics, the events of a tick, contexts and timeouts; the JSON and the
-- locking of the state file; the decoding of YAML, a Host's bootstrap block and age recipients; the
-- rendering of files, the secret providers and SOPS, the validator, GitHub, MQTT, the machine setup
-- and the command line; the D-Bus and Podman clients behind the interfaces; the rest of `tick` and of
-- the agent's startup around the functions above.
pub mod Agent
pub mod Applier
pub mod Bookkeeping
pub mod BuildUnit
pub mod Changeset
pub mod Config
pub mod Disk
pub mod FilePath
pub mod GoMap
pub mod Health
pub mod Orphan
pub mod Prelude
pub mod Reconciler
pub mod Rollback
pub mod State
pub mod Status
pub mod Systemd
