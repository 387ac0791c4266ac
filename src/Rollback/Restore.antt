-- ===== src/Rollback/Restore.antt =====
-- What a restore gives back.
use picolet.Prelude.{
  String, ◌≡◌, refl, Bool, true, false, ◌&&◌, ◌||◌, ◌==◌, Option, none, some, List, [], ◌∷◌, ◌++◌,
  if◌then◌else◌, arith, eq_iff, ◌≢◌,
}
use picolet.GoMap.{get, has}
use picolet.Changeset.{create, Change, Changeset}
use picolet.Disk.{Disk, Access, write_file, remove_file, store}
use picolet.Rollback.{
  Snapshot, is_secret, snapshot_change, snapshot_changes, create_snapshot, RestoreError,
  daemon_reload, restore_error, restore_file, restore_files, restore,
}
use picolet.Rollback.Taken.{
  IsFaithful, IsFresh, touches, snapshot_changes-IsFaithful, has-snapshot_changes,
  snapshot_change_congr, snapshot_changes_congr, IsFresh-store,
}

-- The writer may do what the restore of a path takes: a removal, or a write as far as its rename.
abbrev pub can_restore : Access → Disk → String → Bool
can_restore a before p = elim (before p) [
  | none ↦ a.can_remove p
  | some _ ↦ a.can_write p || a.can_rename p
]

restore_file_lem :
    (a : Access) (before disk : Disk) (path p : String) (v : Option String)
    → v ≡ before path
    → ((restore_file a path v disk).0 p
        ≡ (if p == path && can_restore a before path then before path else disk p))
      × ((restore_file a path v disk).1 ≡ true → (restore_file a path v disk).0 path ≡ before path)
unfolding restore_file write_file remove_file
restore_file_lem a before disk path p none e =
    (ground (arith, e, eq_iff p path), λ h. ground (arith, e, eq_iff path path, h))
restore_file_lem a before disk path p (some content) e =
    (ground (arith, e, eq_iff p path), λ h. ground (arith, e, eq_iff path path, h))

snoc-ne-nil {ℓ} : {A : Type ℓ} (xs : List A) (x : A) → (xs ++ x ∷ []) ≢ []
snoc-ne-nil [] x e = cc
snoc-ne-nil (y ∷ xs) x e = cc

restore_files_lem :
    (a : Access) (before disk : Disk) (snap : Snapshot) (errs : List RestoreError) (p : String)
    → IsFaithful before snap
    → ((restore_files a snap (disk, errs)).0 p
        ≡ (if has p snap && can_restore a before p then before p else disk p))
      × ((restore_files a snap (disk, errs)).1 ≡ []
          → (errs ≡ [])
            × ((restore_files a snap (disk, errs)).0 p ≡ (if has p snap then before p else disk p)))
unfolding restore_files get
restore_files_lem a before disk [] errs p f = (refl, λ h. (h, refl))
restore_files_lem a before disk ((path, v) ∷ rest) errs p f =
    let (disk', ok) = restore_file a path v disk in
    let now = restore_file_lem a before disk path p v f.0 in
    let errs' = if ok then errs else errs ++ restore_error path v ∷ [] in
    let later = restore_files_lem a before disk' rest errs' p f.1 in
    (
      ground (arith, now.0, later.0, eq_iff p path),
      λ h. (
        ground (arith, later.1 h, snoc-ne-nil errs (restore_error path v)),
        ground (arith, now, later.1 h, snoc-ne-nil errs (restore_error path v), eq_iff p path),
      ),
    )

-- A restore from the snapshot of a changeset that creates no file which is there already, over a disk
-- on which only touched paths differ: each path has its old content again if the writer may do what
-- that takes, and is left alone if it may not; and with no error reported every path is as it was.
pub restore_lem :
    (cs : Changeset) (before after : Disk) (snap : Snapshot) (a : Access) (reload_ok : Bool)
    → create_snapshot cs (some before) ≡ some snap
    → IsFresh before cs.changes
    → ((p : String) → touches cs.changes p ≡ false → after p ≡ before p)
    → ((p : String)
        → (restore a reload_ok snap after).0 p
          ≡ (if can_restore a before p then before p else after p))
      × ((restore a reload_ok snap after).1 ≡ []
          → (p : String) → (restore a reload_ok snap after).0 p ≡ before p)
unfolding create_snapshot restore get
restore_lem cs before after snap a reload_ok e fresh frame =
    let taken = snapshot_changes before cs.changes [] in
    let same : taken ≡ snap = ground (arith, e) in
    let f : IsFaithful before snap =
      rw (← same) (snapshot_changes-IsFaithful before cs.changes [] fresh tt) in
    let covers : (p : String) → has p snap ≡ touches cs.changes p =
      λ p. rw (← same) (has-snapshot_changes before cs.changes [] p) in
    (
      λ p. ground (arith, (restore_files_lem a before after snap [] p f).0, covers p, frame p),
      λ h p.
          let clean : (restore_files a snap (after, [])).1 ≡ [] =
            ground (arith, h, snoc-ne-nil (restore_files a snap (after, [])).1 daemon_reload) in
          ground
            (arith, ((restore_files_lem a before after snap [] p f).1 clean).1, covers p, frame p),
    )

-- After a restore from the snapshot of a changeset that creates no file which is there already, over a
-- disk on which only touched paths differ, a path has its old content again where the writer may do
-- what that takes, and is left alone where it may not.
pub restore_gives_back :
    (cs : Changeset) (before after : Disk) (snap : Snapshot) (a : Access) (reload_ok : Bool)
    (p : String)
    → create_snapshot cs (some before) ≡ some snap
    → IsFresh before cs.changes
    → ((q : String) → touches cs.changes q ≡ false → after q ≡ before q)
    → (restore a reload_ok snap after).0 p ≡ (if can_restore a before p then before p else after p)
restore_gives_back cs before after snap a reload_ok p e fresh frame =
    (restore_lem cs before after snap a reload_ok e fresh frame).0 p

-- A create that replaces a file which picolet does not manage is not undone: where no other change
-- touches the path, the other creates are fresh and the writer may remove the path, the restore leaves
-- no file there, whatever the file held before.
pub create_over_existing_lost :
    (c : Change) (rest : Changeset) (before after : Disk) (a : Access) (reload_ok : Bool)
    (snap : Snapshot)
    → c.action ≡ create
    → is_secret c.dest_path ≡ false
    → touches rest.changes c.dest_path ≡ false
    → IsFresh before rest.changes
    → create_snapshot (record rest { changes = c ∷ rest.changes }) (some before) ≡ some snap
    → a.can_remove c.dest_path ≡ true
    → (restore a reload_ok snap after).0 c.dest_path ≡ none
unfolding create_snapshot restore snapshot_changes get
create_over_existing_lost c rest before after a reload_ok snap e s t fresh h r =
    let path = c.dest_path in
    let gone = store path none before in
    let read : snapshot_change before c [] ≡ snapshot_change gone c [] =
      snapshot_change_congr before gone c [] (λ _ n. absurd (n e)) in
    let start = snapshot_change before c [] in
    let agree : (p : String) → touches rest.changes p ≡ true → before p ≡ gone p =
      λ p tp. ground (arith, tp, t, eq_iff p path) in
    let taken : snapshot_changes gone (c ∷ rest.changes) [] ≡ snap =
      ground (arith, h, read, snapshot_changes_congr before gone rest.changes start agree) in
    let f : IsFaithful gone snap = rw (← taken) (
      snapshot_changes-IsFaithful gone (c ∷ rest.changes) []
        ((λ _. ground (arith, eq_iff path path)), IsFresh-store before path rest.changes fresh)
        tt) in
    let covers : has path snap ≡ true = rw (← taken) (
      ground
        (arith, has-snapshot_changes gone (c ∷ rest.changes) [] path, e, s, eq_iff path path)) in
    ground (arith, (restore_files_lem a gone after snap [] path f).0, covers, r, eq_iff path path)
