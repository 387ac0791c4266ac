-- ===== src/Agent/Rollout/AllOrNothing.antt =====
-- A changeset reaches the disk whole or not at all.
use picolet.Prelude.{
  String, ◌≡◌, refl, sym, ap, ◌∙◌, eq_iff, is_some, not, Bool, true, false, ◌&&◌, Option, some,
  List, [], ◌∷◌, arith, All,
}
use picolet.Changeset.{Change, Changeset}
use picolet.Disk.{Disk, Access, reads}
use picolet.Rollback.{Snapshot, is_secret, create_snapshot, snapshot_changes}
use picolet.Rollback.Taken.{IsFresh, touches, snapshot_changes_congr}
use picolet.Rollback.Restore.{can_restore, restore_lem}
use picolet.Applier.Types.{Env, Applier, Run, ApplyResult, ApplyError, empty_apply_result}
use picolet.Applier.Apply.{apply_with_pending}
use picolet.Applier.Files.{disk_of, is_file_change, overlay, touched}
use picolet.Applier.Files.Written.{IsDistinct, apply_frame, apply_writes_changeset}
use picolet.Agent.Rollout.{
  Outcome, complete, incomplete, rolled_back, no_snapshot, settle, finish, apply_with_rollback,
}

-- The content at a path that an outcome promises: what the changeset makes of the old content, or the
-- old content.
abbrev pub promised : Changeset → Disk → String → Outcome → Option String
promised cs before p (complete res) = overlay cs.changes p (before p)
promised cs before p (incomplete res why) = overlay cs.changes p (before p)
promised cs before p (rolled_back errs problems) = before p
promised cs before p no_snapshot = before p

-- A file's path has not the prefix of the secrets.
abbrev pub HasFilePaths : List Change → Type 0
HasFilePaths cs = All (λ c. (is_file_change c && is_secret c.dest_path) ≡ false) cs

-- Every file that the changeset touches can be read.
abbrev pub CanReadTouched : Access → Disk → List Change → Type 0
CanReadTouched access disk cs =
    (q : String) → touches cs q ≡ true → (is_some (disk q) && not (access.can_read q)) ≡ false

reads_lem :
    (access : Access) (disk : Disk) (q : String)
    → (is_some (disk q) && not (access.can_read q)) ≡ false
    → reads access disk q ≡ disk q
reads_lem access disk q h = ground (arith, h)

touched-touches :
    (cs : List Change) (p : String) → HasFilePaths cs → touches cs p ≡ false → touched cs p ≡ false
touched-touches [] p s h = refl
touched-touches (c ∷ rest) p s h =
    ground (arith, s.0, h, touched-touches rest p s.1, eq_iff p c.dest_path)

settle_lem :
    (cs : Changeset) (before : Disk) (p : String) (res : ApplyResult)
    → promised cs before p (settle cs res) ≡ overlay cs.changes p (before p)
unfolding settle
settle_lem cs before p res = ground arith

finish_lem :
    (access : Access) (reload_ok : Bool) (cs : Changeset) (disk : Disk) (p : String)
    (snap : Snapshot) (out : Run × List ApplyError)
    → create_snapshot cs (some disk) ≡ some snap
    → IsFresh disk cs.changes
    → ((q : String)
        → touches cs.changes q ≡ false
        → disk_of access.can_rename out.0.history disk q ≡ disk q)
    → (out.1 ≡ [] → disk_of access.can_rename out.0.history disk p ≡ overlay cs.changes p (disk p))
    → can_restore access disk p ≡ true
    → (finish access reload_ok cs disk snap out).0 p
      ≡ promised cs disk p (finish access reload_ok cs disk snap out).1
unfolding finish
finish_lem access reload_ok cs disk p snap (r, []) taken fresh frame applied able =
    applied refl ∙ sym (settle_lem cs disk p r.result)
finish_lem access reload_ok cs disk p snap (r, e ∷ errs) taken fresh frame applied able =
    let after = disk_of access.can_rename r.history disk in
    ground (arith, able, (restore_lem cs disk after snap access reload_ok taken fresh frame).0 p)

-- Outside a dry run, where no two changes concern one file, no file's path has the prefix of the
-- secrets, the created files are not there before and the snapshot can read every file there is that
-- the changeset touches, a path which the writer may restore holds after the apply what the outcome
-- promises: what the changeset makes of it, or, after a rollback, what it held before.
pub all_or_nothing :
    (env : Env) (a : Applier) (access : Access) (reload_ok : Bool) (cs : Changeset)
    (pending : List String) (disk : Disk) (p : String)
    → a.dry_run ≡ false
    → IsDistinct cs.changes
    → HasFilePaths cs.changes
    → IsFresh disk cs.changes
    → CanReadTouched access disk cs.changes
    → can_restore access disk p ≡ true
    → (apply_with_rollback env a access reload_ok cs pending disk).0 p
      ≡ promised cs disk p (apply_with_rollback env a access reload_ok cs pending disk).1
unfolding apply_with_rollback create_snapshot
all_or_nothing env a access reload_ok cs pending disk p live distinct paths fresh readable able =
    let begin : Run = record { history = []; result = empty_apply_result } in
    let same : snapshot_changes disk cs.changes []
        ≡ snapshot_changes (reads access disk) cs.changes [] =
      snapshot_changes_congr disk (reads access disk) cs.changes []
        (λ q t. sym (reads_lem access disk q (readable q t))) in
    finish_lem access reload_ok cs disk p (snapshot_changes (reads access disk) cs.changes [])
      (apply_with_pending env a cs pending begin) (ap some same) fresh
      (λ q h.
        apply_frame env a cs pending begin access.can_rename disk q
          (touched-touches cs.changes q paths h))
      (λ ok.
        apply_writes_changeset env a cs pending begin access.can_rename disk p live distinct ok)
      able
