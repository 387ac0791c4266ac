-- ===== src/Agent/Rollout.antt =====
-- `applyWithRollback` of pkg/agent/agent.go: the apply, and the rollback after one that fails. The
-- disk stands beside the apply's calls: what the apply wrote is what its calls make of it, the writes
-- that fail after their rename included.
pub mod AllOrNothing
use picolet.Prelude.{
  String, Bool, true, false, not, ◌&&◌, ◌||◌, Option, none, some, List, [], ◌∷◌, ◌++◌, ◌==◌,
  if◌then◌else◌, contains, sort,
}
use picolet.Changeset.{Change, Changeset, is_delete}
use picolet.Disk.{Disk, Access, reads}
use picolet.Rollback.{Snapshot, RestoreError, create_snapshot, restore}
use picolet.Applier.Types.{Env, Applier, Run, ApplyResult, ApplyError, empty_apply_result}
use picolet.Applier.Hooks.{is_empty}
use picolet.Applier.Apply.{apply_with_pending}
use picolet.Applier.Files.{disk_of}

-- `changesetUnitNames`
unfoldable pub changeset_unit_names : List Change → List String
changeset_unit_names [] = []
changeset_unit_names (c ∷ rest) =
    let others = changeset_unit_names rest in
    if is_delete c.action || c.service_name == "" then others else c.service_name ∷ others

-- The failed restarts of managed units.
unfoldable pub failed_managed : List String → List String → List String
failed_managed managed [] = []
failed_managed managed (unit ∷ rest) =
    let others = failed_managed managed rest in
    if contains unit managed then unit ∷ others else others

-- `applyIncompleteError`: the errors and the units that keep an apply from being complete.
unfoldable pub apply_incomplete_error :
    ApplyResult → List String → Option (List ApplyError × List String)
unfolding failed_managed
apply_incomplete_error res managed =
    let failed = failed_managed managed res.failed_restart_units in
    if is_empty res.retryable_errors && is_empty failed
    then none
    else some (res.retryable_errors, sort failed)

pub data Outcome : Type 0 where
  complete : ApplyResult → Outcome
  incomplete : ApplyResult → List ApplyError × List String → Outcome
  rolled_back : List ApplyError → List RestoreError → Outcome
  no_snapshot : Outcome

-- The end of an apply without an error.
unfoldable pub settle : Changeset → ApplyResult → Outcome
unfolding apply_incomplete_error changeset_unit_names
settle cs res = elim (apply_incomplete_error res (changeset_unit_names cs.changes)) [
  | none ↦ complete res
  | some why ↦ incomplete res why
]

-- The apply after the snapshot.
unfoldable pub finish :
    Access → Bool → Changeset → Disk → Snapshot → Run × List ApplyError → Disk × Outcome
unfolding settle restore
finish access reload_ok cs disk snap (r, []) =
    (disk_of access.can_rename r.history disk, settle cs r.result)
finish access reload_ok cs disk snap (r, e ∷ errs) =
    let (restored, problems) =
      restore access reload_ok snap (disk_of access.can_rename r.history disk) in
    (restored, rolled_back (e ∷ errs) problems)

-- `applyWithRollback` on a disk. `access` is what the snapshot's reads and the restore meet, `reload_ok`
-- the end of the restore's daemon-reload.
unfoldable pub apply_with_rollback :
    Env → Applier → Access → Bool → Changeset → List String → Disk → Disk × Outcome
unfolding create_snapshot apply_with_pending finish
apply_with_rollback env a access reload_ok cs pending disk =
    elim (create_snapshot cs (some (reads access disk))) [
      | none ↦ (disk, no_snapshot)
      | some snap ↦ finish access reload_ok cs disk snap (
          apply_with_pending env a cs pending
            (record { history = []; result = empty_apply_result }))
    ]
