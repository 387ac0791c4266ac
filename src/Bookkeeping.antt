-- ===== src/Bookkeeping.antt =====
-- What a changeset does to the state: `RefreshNoops` and `MergeChangeset` of
-- pkg/reconciler/reconciler.go, `UpdateState` of pkg/agent/agent.go.
pub mod Converge
pub mod Merge
pub mod Refresh
mod Tests
use picolet.Prelude.{
  ℕ, ◌+◌, String, Bool, true, false, not, ◌&&◌, ◌||◌, Option, none, some, List, [], ◌∷◌, ◌++◌, ◌==◌,
  if◌then◌else◌, ltb, or_else,
}
use picolet.GoMap.{GoMap, get, put, remove}
use picolet.Config.Category.{Category, same_category}
use picolet.State.{zero_managed_file, State, ManagedFile}
use picolet.Changeset.{
  Action, create, update, delete, noop, ResolvedFile, Change, Summary, Changeset, managed_file,
  add_change, has_changes, is_write, is_delete, is_noop, writes, deletes,
}

same_bool : Bool → Bool → Bool
same_bool true b = b
same_bool false b = not b

same_managed_file : ManagedFile → ManagedFile → Bool
unfolding same_category same_bool
same_managed_file a b =
    a.hash == b.hash && same_category a.category b.category && same_bool a.sops_values b.sops_values

-- `st.ManagedFiles[path] != mf`: a missing path reads as the zero record.
unfoldable pub record_differs : Option ManagedFile → ManagedFile → Bool
unfolding same_managed_file
record_differs o mf = not (same_managed_file (or_else o zero_managed_file) mf)

unfoldable pub refresh_noop : Change → GoMap ManagedFile × Bool → GoMap ManagedFile × Bool
unfolding record_differs managed_file
refresh_noop c (files, refreshed) =
    if is_noop c.action && record_differs (get c.dest_path files) (managed_file c)
    then (put c.dest_path (managed_file c) files, true)
    else (files, refreshed)

unfoldable pub refresh_noops_in : List Change → GoMap ManagedFile × Bool → GoMap ManagedFile × Bool
refresh_noops_in [] acc = acc
refresh_noops_in (c ∷ rest) acc = refresh_noops_in rest (refresh_noop c acc)

-- `RefreshNoops`: the state with the records of unchanged files renewed, and whether any was.
unfoldable pub refresh_noops : Changeset → State → State × Bool
refresh_noops cs st =
    let (files, refreshed) = refresh_noops_in cs.changes (st.managed_files, false) in
    (record st { managed_files = files }, refreshed)

abbrev put_service : String → String → GoMap String → GoMap String
put_service path name names = if name == "" then names else put path name names

-- One step of the loop of `UpdateState`.
unfoldable pub record_change : Change → State → State
unfolding managed_file
record_change c st = if is_delete c.action then st else record st {
  managed_files = put c.dest_path (managed_file c) st.managed_files;
  service_names = put_service c.dest_path c.service_name st.service_names;
}

unfoldable pub record_changes : List Change → State → State
record_changes [] st = st
record_changes (c ∷ rest) st = record_changes rest (record_change c st)

-- `UpdateState`: managed files and service names are built anew from the changeset.
unfoldable pub update_state : State → Changeset → State
update_state st cs =
    record_changes cs.changes (record st { managed_files = []; service_names = [] })

-- One step of the loop of `MergeChangeset`.
merge_action : Action → Change → State → State
unfolding managed_file
merge_action delete c st = record st {
  managed_files = remove c.dest_path st.managed_files;
  service_names = remove c.dest_path st.service_names;
}
merge_action noop c st = st
merge_action _ c st = record st {
  managed_files = put c.dest_path (managed_file c) st.managed_files;
  service_names =
      if c.service_name == ""
      then remove c.dest_path st.service_names
      else put c.dest_path c.service_name st.service_names;
}

unfoldable pub merge_changes : List Change → State → State
unfolding merge_action
merge_changes [] st = st
merge_changes (c ∷ rest) st = merge_changes rest (merge_action c.action c st)

-- `MergeChangeset`: the changes are laid over the state; other paths stay.
unfoldable pub merge_changeset : State → Changeset → State
merge_changeset st cs = merge_changes cs.changes st
