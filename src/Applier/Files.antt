-- ===== src/Applier/Files.antt =====
-- What an apply leaves on the disk: the disk is what its writes and removals
-- make of it, failing writes that have replaced a file included.
pub mod Written
use picolet.Prelude.{
  String, ◌≡◌, refl, ◌≢◌, ◌∙◌, Bool, true, false, Option, none, some, List, [], ◌∷◌, ◌==◌, eq_iff,
  arith, if◌then◌else◌, not, ◌&&◌, ◌||◌, any,
}
use picolet.Changeset.{Change, Changeset, create, update, delete, noop, is_noop, is_delete}
use picolet.Disk.{Disk, store}
use picolet.Applier.Types.{
  Env, Applier, Run, Phase, History, Call, write_file, remove_file, mkdir_all, secret_create,
  secret_remove, empty_apply_result, call, empty_phase,
}
use picolet.Applier.Phase.{
  prepare_delete, apply_create_or_update, apply_delete, apply_change, apply_step, apply_changes,
  apply_phase, sorted_by_category, insert_change, goes_to_secret, is_update, secret_name,
}
use picolet.Applier.Hooks.{run_hooks_with_pending}
use picolet.Applier.Builds.{run_builds}
use picolet.Applier.Restart.{}
use picolet.Applier.Apply.{
  apply_with_pending, apply_without_restarts, apply_after_files, restart_units,
}
use picolet.Applier.Observe.{Ignores, is_stop_call, is_hook_call, is_prepare_call, is_unit_call}
use picolet.Applier.Observe.Steps.{prepare_delete-unseen}

-- The disk after the calls of a history, the newest first. A write that fails at a path of `renames`
-- has replaced the content all the same.
abbrev pub disk_of : (String → Bool) → History → Disk → Disk
disk_of renames [] disk = disk
disk_of renames ((write_file p content, ok) ∷ h) disk =
    if ok || renames p
    then store p (some content) (disk_of renames h disk)
    else disk_of renames h disk
disk_of renames ((remove_file p, true) ∷ h) disk = store p none (disk_of renames h disk)
disk_of renames (_ ∷ h) disk = disk_of renames h disk

abbrev pub content_at : (String → Bool) → Disk → String → History → Option String
content_at renames disk p h = disk_of renames h disk p

-- The change concerns a file, not a secret.
abbrev pub is_file_change : Change → Bool
is_file_change c = not (is_noop c.action) && not (goes_to_secret c.category)

abbrev pub wanted : Change → Option String
wanted c = if is_delete c.action then none else some c.new_content

pub stops_keep_files :
    (renames : String → Bool) (disk : Disk) (p : String)
    → Ignores (content_at renames disk p) is_stop_call
stops_keep_files renames disk p c ok h k = ground (arith, k)

pub hooks_keep_files :
    (renames : String → Bool) (disk : Disk) (p : String)
    → Ignores (content_at renames disk p) is_hook_call
hooks_keep_files renames disk p c ok h k = ground (arith, k)

pub builds_keep_files :
    (renames : String → Bool) (disk : Disk) (p : String)
    → Ignores (content_at renames disk p) is_prepare_call
builds_keep_files renames disk p c ok h k = ground (arith, k)

pub units_keep_files :
    (renames : String → Bool) (disk : Disk) (p : String)
    → Ignores (content_at renames disk p) is_unit_call
units_keep_files renames disk p c ok h k = ground (arith, k)

apply_change-file :
    (env : Env) (renames : String → Bool) (disk : Disk) (p : String) (c : Change) (r : Run)
    → is_noop c.action ≡ false
    → (apply_change env c r).1 ≡ true
    → content_at renames disk p (apply_change env c r).0.history ≡ (
        if is_file_change c && p == c.dest_path
        then wanted c
        else content_at renames disk p r.history)
unfolding apply_change apply_create_or_update apply_delete call
apply_change-file env renames disk p c r h k = ground (arith, h, k)

-- Whatever comes of a change, it leaves the paths that it does not concern.
apply_change_frame :
    (env : Env) (renames : String → Bool) (disk : Disk) (p : String) (c : Change) (r : Run)
    → is_noop c.action ≡ false
    → (is_file_change c && p == c.dest_path) ≡ false
    → content_at renames disk p (apply_change env c r).0.history
      ≡ content_at renames disk p r.history
unfolding apply_change apply_create_or_update apply_delete call
apply_change_frame env renames disk p c r h k = ground (arith, h, k)

apply_step-file :
    (env : Env) (a : Applier) (renames : String → Bool) (disk : Disk) (p : String) (c : Change)
    (ph : Phase) (r : Run)
    → a.dry_run ≡ false
    → (apply_step env a c ph r).1 ≡ none
    → content_at renames disk p (apply_step env a c ph r).0.1.history ≡ (
        if is_file_change c && p == c.dest_path
        then wanted c
        else content_at renames disk p r.history)
unfolding apply_step
apply_step-file env a renames disk p c ph r dry h =
    let prepared = prepare_delete env a c r in
    let keeps =
      prepare_delete-unseen (content_at renames disk p) (stops_keep_files renames disk p) env a c
        r in
    ground (arith, h, dry, keeps, apply_change-file env renames disk p c prepared)

apply_step_frame :
    (env : Env) (a : Applier) (renames : String → Bool) (disk : Disk) (p : String) (c : Change)
    (ph : Phase) (r : Run)
    → (is_file_change c && p == c.dest_path) ≡ false
    → content_at renames disk p (apply_step env a c ph r).0.1.history
      ≡ content_at renames disk p r.history
unfolding apply_step
apply_step_frame env a renames disk p c ph r h =
    let prepared = prepare_delete env a c r in
    let keeps =
      prepare_delete-unseen (content_at renames disk p) (stops_keep_files renames disk p) env a c
        r in
    ground (arith, h, keeps, apply_change_frame env renames disk p c prepared)

-- The disk's content at a path once the changes have all been made.
abbrev pub overlay : List Change → String → Option String → Option String
overlay [] p v = v
overlay (c ∷ rest) p v =
    overlay rest p (if is_file_change c && p == c.dest_path then wanted c else v)

abbrev pub concerns : String → Change → Bool
concerns p c = is_file_change c && p == c.dest_path

-- Some change concerns the file at the path.
abbrev pub touched : List Change → String → Bool
touched cs p = any (concerns p) cs

pub overlay_untouched :
    (cs : List Change) (p : String) (v : Option String) → touched cs p ≡ false → overlay cs p v ≡ v
overlay_untouched [] p v h = refl
overlay_untouched (c ∷ rest) p v h = ground (arith, h, overlay_untouched rest p v)

pub apply_changes-overlay :
    (env : Env) (a : Applier) (renames : String → Bool) (disk : Disk) (p : String)
    (cs : List Change) (ph : Phase) (r : Run)
    → a.dry_run ≡ false
    → (apply_changes env a cs ph r).1 ≡ none
    → content_at renames disk p (apply_changes env a cs ph r).0.1.history
      ≡ overlay cs p (content_at renames disk p r.history)
unfolding apply_changes
apply_changes-overlay env a renames disk p [] ph r dry h = refl
apply_changes-overlay env a renames disk p (c ∷ rest) ph r dry h =
    let ((ph', r'), err) = apply_step env a c ph r in
    let now = apply_step-file env a renames disk p c ph r dry in
    ground (arith, h, now, apply_changes-overlay env a renames disk p rest ph' r' dry)

-- Whatever comes of the apply, a path that no change concerns keeps its content.
pub apply_changes_frame :
    (env : Env) (a : Applier) (renames : String → Bool) (disk : Disk) (p : String)
    (cs : List Change) (ph : Phase) (r : Run)
    → touched cs p ≡ false
    → content_at renames disk p (apply_changes env a cs ph r).0.1.history
      ≡ content_at renames disk p r.history
unfolding apply_changes
apply_changes_frame env a renames disk p [] ph r h = refl
apply_changes_frame env a renames disk p (c ∷ rest) ph r h =
    let ((ph', r'), err) = apply_step env a c ph r in
    ground (
      arith,
      h,
      apply_step_frame env a renames disk p c ph r,
      apply_changes_frame env a renames disk p rest ph' r',
    )
