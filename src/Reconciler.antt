-- ===== src/Reconciler.antt =====
-- pkg/reconciler/reconciler.go: the changeset between the files a host should have and the state.
pub mod Changes
pub mod Diff
use picolet.Prelude.{
  ℕ, ◌+◌, String, Bool, true, false, not, ◌&&◌, ◌||◌, Option, none, some, List, [], ◌∷◌, ◌++◌, ◌==◌,
  if◌then◌else◌, ltb, or_else,
}
use picolet.GoMap.{GoMap, get, put, remove}
use picolet.Config.Category.{Category, same_category}
use picolet.State.{State, ManagedFile}
use picolet.Changeset.{
  Action, create, update, delete, noop, ResolvedFile, Change, Summary, Changeset, managed_file,
  add_change, has_changes, is_write, is_delete, is_noop, writes, deletes,
}

abbrev pub old_hash_of : Option ManagedFile → String
old_hash_of none = ""
old_hash_of (some mf) = mf.hash

-- The switch of `classifyFile`.
unfoldable pub classify : Option ManagedFile → String → Action
classify none new_hash = create
classify (some mf) new_hash = if mf.hash == new_hash then noop else update

-- `hash` is SHA-256, which the Go library implements.
module _ (hash : String → String) where
  unfoldable pub classify_file : ResolvedFile → State → Change
  unfolding classify get
  classify_file f st = record {
    dest_path = f.dest_path;
    category = f.category;
    action = classify (get f.dest_path st.managed_files) (hash f.content);
    new_content = f.content;
    old_hash = old_hash_of (get f.dest_path st.managed_files);
    new_hash = hash f.content;
    service_name = f.service_name;
    old_service_name = or_else (get f.dest_path st.service_names) "";
    rel_path = f.rel_path;
    sops_values = f.sops_values;
  }

  unfoldable pub add_desired : List ResolvedFile → State → Changeset → Changeset
  unfolding add_change classify_file
  add_desired [] st cs = cs
  add_desired (f ∷ rest) st cs = add_desired rest st (add_change cs (classify_file f st))

-- The change that deletes a managed file which is no longer desired.
unfoldable pub delete_change : String → ManagedFile → State → Change
unfolding get
delete_change path mf st = record {
  dest_path = path;
  category = mf.category;
  action = delete;
  new_content = "";
  old_hash = mf.hash;
  new_hash = "";
  service_name = or_else (get path st.service_names) "";
  old_service_name = or_else (get path st.service_names) "";
  rel_path = "";
  sops_values = false;
}

-- `seen[path]`: some desired file has the path.
unfoldable pub seen : String → List ResolvedFile → Bool
seen p [] = false
seen p (f ∷ rest) = p == f.dest_path || seen p rest

unfoldable pub add_deletes : List ResolvedFile → GoMap ManagedFile → State → Changeset → Changeset
unfolding seen add_change delete_change
add_deletes desired [] st cs = cs
add_deletes desired ((path, mf) ∷ rest) st cs =
    add_deletes desired rest st
      (if seen path desired then cs else add_change cs (delete_change path mf st))

abbrev pub empty_changeset : Changeset
empty_changeset = record {
  changes = [];
  summary = record { creates = 0; updates = 0; deletes = 0; noops = 0 };
}

-- `Diff`: the changes of every desired file, then a delete of every managed file not desired.
unfoldable pub diff : (String → String) → List ResolvedFile → State → Changeset
unfolding add_deletes add_desired
diff hash desired st =
    add_deletes desired st.managed_files st (add_desired hash desired st empty_changeset)
