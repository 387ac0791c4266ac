-- ===== src/Disk.antt =====
-- pkg/applier/filewriter.go with internal/atomicfile/atomicfile.go, over a disk: a path holds a content
-- or nothing. A write replaces the whole content by a rename; where it fails before the rename it
-- leaves the content, and where it fails after it, at the sync of the directory, the new one is there.
-- A removal of a missing file succeeds.
use picolet.Prelude.{String, Bool, true, false, Option, none, some, ◌==◌, if◌then◌else◌}

abbrev pub Disk : Type 0
Disk = String → Option String

-- What the file system lets the agent do at a path. `can_rename`: a write that fails does so only
-- after its rename.
pub record Access : Type 0 where
  pub can_read : String → Bool
  pub can_write : String → Bool
  pub can_rename : String → Bool
  pub can_remove : String → Bool

abbrev pub store : String → Option String → Disk → Disk
store p v disk q = if q == p then v else disk q

-- `WriteFile`, and whether it succeeded.
unfoldable pub write_file : Access → String → String → Disk → Disk × Bool
write_file a p content disk =
    if a.can_write p
    then (store p (some content) disk, true)
    else if a.can_rename p
    then (store p (some content) disk, false)
    else (disk, false)

-- `os.ReadFile` at each path; `none` is a missing file, or an error.
abbrev pub reads : Access → Disk → Disk
reads a disk p = if a.can_read p then disk p else none

-- `Remove`, and whether it succeeded.
unfoldable pub remove_file : Access → String → Disk → Disk × Bool
remove_file a p disk = elim (disk p) [
  | none ↦ (disk, true)
  | some _ ↦ if a.can_remove p then (store p none disk, true) else (disk, false)
]
