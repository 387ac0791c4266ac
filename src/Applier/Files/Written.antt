-- ===== src/Applier/Files/Written.antt =====
-- The disk after a whole apply.
use picolet.Prelude.{
  String, ◌≡◌, refl, ap, ◌∙◌, Bool, false, Option, List, [], ◌∷◌, eq_iff, arith, if◌then◌else◌,
  ◌||◌, Bool-cases, inl, inr,
}
use picolet.Changeset.{Change, Changeset}
use picolet.Disk.{Disk}
use picolet.Applier.Triggers.{triggered_builds}
use picolet.Applier.Types.{Env, Applier, Run, Phase, empty_apply_result, empty_phase}
use picolet.Applier.Phase.{
  apply_changes, apply_phase, sorted_by_category, insert_change, comes_first,
}
use picolet.Applier.Hooks.{run_hooks_with_pending}
use picolet.Applier.Builds.{run_builds}
use picolet.Applier.Apply.{
  reload_if_needed, restart_units, add_all, apply_after_files, apply_with_pending,
}
use picolet.Applier.Observe.Hooks.{run_hooks_with_pending-unseen}
use picolet.Applier.Observe.Steps.{reload_if_needed-unseen, run_builds-unseen}
use picolet.Applier.Observe.Restarts.{restart_after_builds-unseen}
use picolet.Applier.Sorted.{any-sorted_by_category}
use picolet.Applier.Files.{
  disk_of, content_at, wanted, overlay, concerns, touched, apply_changes-overlay,
  apply_changes_frame, hooks_keep_files, builds_keep_files, units_keep_files,
}

-- No two changes concern the same file.
abbrev pub IsDistinct : List Change → Type 0
IsDistinct [] = Unit
IsDistinct (c ∷ rest) = (touched rest c.dest_path ≡ false) × IsDistinct rest

or_left : (x y : Bool) → (x || y) ≡ false → x ≡ false
or_left x y h = ground (arith, h)

or_right : (x y : Bool) → (x || y) ≡ false → y ≡ false
or_right x y h = ground (arith, h)

abbrev written : String → Change → Option String → Option String
written p c v = if concerns p c then wanted c else v

written_swap :
    (p : String) (c d : Change) (v : Option String)
    → concerns c.dest_path d ≡ false
    → written p c (written p d v) ≡ written p d (written p c v)
written_swap p c d v h = ground (arith, h, eq_iff p c.dest_path)

overlay-insert_change :
    (p : String) (v : Option String) (c : Change) (cs : List Change)
    → touched cs c.dest_path ≡ false
    → overlay (insert_change c cs) p v ≡ overlay (c ∷ cs) p v
unfolding insert_change
overlay-insert_change p v c [] h = refl
overlay-insert_change p v c (d ∷ rest) h = elim (Bool-cases (comes_first c d)) [
  | inl first ↦ rw (first) refl
  | inr later ↦ rw (later) (
      overlay-insert_change p (written p d v) c rest
        (or_right (concerns c.dest_path d) (touched rest c.dest_path) h)
      ∙ ap (overlay rest p)
          (written_swap p c d v (or_left (concerns c.dest_path d) (touched rest c.dest_path) h)))
]

overlay-sorted_by_category :
    (p : String) (v : Option String) (cs : List Change)
    → IsDistinct cs
    → overlay (sorted_by_category cs) p v ≡ overlay cs p v
unfolding sorted_by_category
overlay-sorted_by_category p v [] h = refl
overlay-sorted_by_category p v (c ∷ rest) h =
    let w = if concerns p c then wanted c else v in
    overlay-insert_change p v c (sorted_by_category rest)
      (any-sorted_by_category (concerns c.dest_path) rest ∙ h.0)
    ∙ overlay-sorted_by_category p w rest h.1

restart_units-files :
    (renames : String → Bool) (disk : Disk) (q : String) (env : Env) (a : Applier) (p : Phase)
    (r : Run)
    → content_at renames disk q (restart_units env a p r).0.history
      ≡ content_at renames disk q r.history
unfolding restart_units
restart_units-files renames disk q env a p r =
    let O = content_at renames disk q in
    let reloaded = (reload_if_needed env p.needs_reload r).0 in
    let built = (run_builds env p.builds p.build_tags reloaded).0 in
    ground (
      arith,
      reload_if_needed-unseen O (builds_keep_files renames disk q) env p.needs_reload r,
      run_builds-unseen O (builds_keep_files renames disk q) env p.builds p.build_tags reloaded,
      restart_after_builds-unseen O (units_keep_files renames disk q) env a p built,
    )

apply_after_files-files :
    (renames : String → Bool) (disk : Disk) (q : String) (env : Env) (a : Applier)
    (triggered : List String × List String) (pending : List String) (p : Phase) (r : Run)
    → content_at renames disk q (apply_after_files env a triggered pending p r).0.history
      ≡ content_at renames disk q r.history
unfolding apply_after_files
apply_after_files-files renames disk q env a (builds, tags) pending p r =
    let (units, hooked) =
      run_hooks_with_pending env a p.changed_secrets p.changed_rels p.changed_units pending r in
    restart_units-files renames disk q env a
      (record p {
        builds = builds;
        build_tags = tags;
        changed_units = add_all units p.changed_units;
      })
      hooked
    ∙ run_hooks_with_pending-unseen (content_at renames disk q) (hooks_keep_files renames disk q)
        env a p.changed_secrets p.changed_rels p.changed_units pending r

-- Whatever an apply returns, and whichever of its failing writes have replaced a file all the same, a
-- path that is no file of its changeset keeps its content.
pub apply_frame :
    (env : Env) (a : Applier) (cs : Changeset) (pending : List String) (r : Run)
    (renames : String → Bool) (disk : Disk) (p : String)
    → touched cs.changes p ≡ false
    → disk_of renames (apply_with_pending env a cs pending r).0.history disk p
      ≡ disk_of renames r.history disk p
unfolding apply_with_pending apply_phase
apply_frame env a cs pending r renames disk p h =
    let begun = record r { result = empty_apply_result } in
    let sorted = sorted_by_category cs.changes in
    let ((ph, r'), err) = apply_changes env a sorted empty_phase begun in
    ground (
      arith,
      apply_changes_frame env a renames disk p sorted empty_phase begun
          (any-sorted_by_category (concerns p) cs.changes ∙ h),
      apply_after_files-files renames disk p env a (triggered_builds a cs.changes) pending ph r',
    )

apply-overlay :
    (env : Env) (a : Applier) (cs : Changeset) (pending : List String) (r : Run)
    (renames : String → Bool) (disk : Disk) (p : String)
    → a.dry_run ≡ false
    → (apply_with_pending env a cs pending r).1 ≡ []
    → disk_of renames (apply_with_pending env a cs pending r).0.history disk p
      ≡ overlay (sorted_by_category cs.changes) p (disk_of renames r.history disk p)
unfolding apply_with_pending apply_phase
apply-overlay env a cs pending r renames disk p dry h =
    let begun = record r { result = empty_apply_result } in
    let sorted = sorted_by_category cs.changes in
    let ((ph, r'), err) = apply_changes env a sorted empty_phase begun in
    ground (
      arith,
      dry,
      h,
      apply_changes-overlay env a renames disk p sorted empty_phase begun dry,
      apply_after_files-files renames disk p env a (triggered_builds a cs.changes) pending ph r',
    )

-- After an apply that returns no error, outside a dry run and where no two changes concern one file,
-- each path holds what the changeset makes of its old content: the new content where a change writes
-- the file, nothing where a change deletes it, and the old content anywhere else.
pub apply_writes_changeset :
    (env : Env) (a : Applier) (cs : Changeset) (pending : List String) (r : Run)
    (renames : String → Bool) (disk : Disk) (p : String)
    → a.dry_run ≡ false
    → IsDistinct cs.changes
    → (apply_with_pending env a cs pending r).1 ≡ []
    → disk_of renames (apply_with_pending env a cs pending r).0.history disk p
      ≡ overlay cs.changes p (disk_of renames r.history disk p)
apply_writes_changeset env a cs pending r renames disk p live distinct h =
    apply-overlay env a cs pending r renames disk p live h
    ∙ overlay-sorted_by_category p (disk_of renames r.history disk p) cs.changes distinct
