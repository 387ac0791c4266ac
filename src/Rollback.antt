-- ===== src/Rollback.antt =====
-- pkg/rollback/rollback.go: the contents that a changeset will change, taken before an apply and put
-- back after one that failed.
pub mod Restore
pub mod Taken
mod Tests
use picolet.Prelude.{
  String, Bool, true, false, not, ◌&&◌, Option, none, some, List, [], ◌∷◌, ◌++◌, if◌then◌else◌,
  is_some,
}
use picolet.GoMap.{GoMap, put}
use picolet.FilePath.{cut_prefix}
use picolet.Changeset.{Action, create, update, delete, noop, Change, Changeset, is_noop}
use picolet.Disk.{Disk, Access, write_file, remove_file}

-- The content of each file before the apply; `none` is a file that was not there.
abbrev pub Snapshot : Type 0
Snapshot = GoMap (Option String)

unfoldable pub is_secret : String → Bool
unfolding cut_prefix
is_secret path = is_some (cut_prefix "secret:" path)

-- What a change of this action finds at its path. A read that fails counts as a missing file.
unfoldable pub found : Action → Option String → Option String
found create read = none
found _ read = read

unfoldable pub snapshot_change : Disk → Change → Snapshot → Snapshot
unfolding found
snapshot_change read c snap =
    if is_noop c.action
    then snap
    else if is_secret c.dest_path
    then snap
    else put c.dest_path (found c.action (read c.dest_path)) snap

unfoldable pub snapshot_changes : Disk → List Change → Snapshot → Snapshot
snapshot_changes read [] snap = snap
snapshot_changes read (c ∷ rest) snap = snapshot_changes read rest (snapshot_change read c snap)

-- `CreateSnapshot`; without a reader it fails.
unfoldable pub create_snapshot : Changeset → Option Disk → Option Snapshot
create_snapshot cs none = none
create_snapshot cs (some read) = some (snapshot_changes read cs.changes [])

pub data RestoreError : Type 0 where
  removing : String → RestoreError
  restoring : String → RestoreError
  daemon_reload : RestoreError

unfoldable pub restore_file : Access → String → Option String → Disk → Disk × Bool
restore_file a path none disk = remove_file a path disk
restore_file a path (some content) disk = write_file a path content disk

abbrev pub restore_error : String → Option String → RestoreError
restore_error path none = removing path
restore_error path (some content) = restoring path

-- The loop goes on after an error and collects it.
unfoldable pub restore_files :
    Access → Snapshot → Disk × List RestoreError → Disk × List RestoreError
restore_files a [] acc = acc
restore_files a ((path, content) ∷ rest) (disk, errs) =
    let (disk', ok) = restore_file a path content disk in
    restore_files a rest (disk', if ok then errs else errs ++ restore_error path content ∷ [])

-- `Restore`: every file, then systemd's daemon-reload, whose success is given.
unfoldable pub restore : Access → Bool → Snapshot → Disk → Disk × List RestoreError
restore a reload_ok snap disk =
    let (disk', errs) = restore_files a snap (disk, []) in
    (disk', if reload_ok then errs else errs ++ daemon_reload ∷ [])
