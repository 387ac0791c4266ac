-- ===== src/Changeset.antt =====
-- pkg/reconciler/reconciler.go: a change of a file, the changeset that collects them, and the questions
-- it answers. `ResolvedFile` is the part of pkg/resolver/resolver.go that the diff and the apply read.
use picolet.Prelude.{ℕ, ◌+◌, String, Bool, true, false, ◌&&◌, ◌||◌, List, [], ◌∷◌, ◌++◌, ◌==◌, ltb}
use picolet.Config.Category.{Category}
use picolet.State.{ManagedFile}

pub data Action : Type 0 where
  create update delete noop : Action

-- A resolved file: what pkg/resolver says the host should have. The fields that neither the diff nor
-- the apply reads are left out.
pub record ResolvedFile : Type 0 where
  pub dest_path : String
  pub content : String
  pub category : Category
  pub service_name : String
  pub rel_path : String
  pub sops_values : Bool

-- A change of one file.
pub record Change : Type 0 where
  pub dest_path : String
  pub category : Category
  pub action : Action
  pub new_content : String
  pub old_hash : String
  pub new_hash : String
  pub service_name : String
  pub old_service_name : String
  pub rel_path : String
  pub sops_values : Bool

-- `Summary`, the count of each action, is a Go map from actions.
pub record Summary : Type 0 where
  pub creates : ℕ
  pub updates : ℕ
  pub deletes : ℕ
  pub noops : ℕ

pub record Changeset : Type 0 where
  pub changes : List Change
  pub summary : Summary

-- `Change.ManagedFile`: the state's record of a created, updated or unchanged file.
unfoldable pub managed_file : Change → ManagedFile
managed_file c = record { hash = c.new_hash; category = c.category; sops_values = c.sops_values }

unfoldable pub bump : Action → Summary → Summary
bump create s = record s { creates = s.creates + 1 }
bump update s = record s { updates = s.updates + 1 }
bump delete s = record s { deletes = s.deletes + 1 }
bump noop s = record s { noops = s.noops + 1 }

unfoldable pub add_change : Changeset → Change → Changeset
unfolding bump
add_change cs c = record { changes = cs.changes ++ c ∷ []; summary = bump c.action cs.summary }

unfoldable pub has_changes : Changeset → Bool
has_changes cs = ltb 0 cs.summary.creates || ltb 0 cs.summary.updates || ltb 0 cs.summary.deletes

abbrev pub is_write : Action → Bool
is_write create = true
is_write update = true
is_write delete = false
is_write noop = false

abbrev pub is_delete : Action → Bool
is_delete delete = true
is_delete _ = false

abbrev pub is_noop : Action → Bool
is_noop noop = true
is_noop _ = false

unfoldable pub writes_in : List Change → String → Bool
writes_in [] p = false
writes_in (c ∷ rest) p = (c.dest_path == p && is_write c.action) || writes_in rest p

-- `Writes`: the changeset creates or updates the path.
unfoldable pub writes : Changeset → String → Bool
unfolding writes_in
writes cs p = writes_in cs.changes p

unfoldable pub deletes_in : List Change → String → Bool
deletes_in [] p = false
deletes_in (c ∷ rest) p = (c.dest_path == p && is_delete c.action) || deletes_in rest p

-- `Deletes`: the changeset deletes the path.
unfoldable pub deletes : Changeset → String → Bool
unfolding deletes_in
deletes cs p = deletes_in cs.changes p
