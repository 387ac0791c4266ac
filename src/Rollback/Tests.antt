-- ===== src/Rollback/Tests.antt =====
-- The theorems of this component at an update and a delete, and at a create over a file.
use picolet.Prelude.{
  String, ◌≡◌, refl, true, false, none, some, List, [], ◌∷◌, ◌==◌, if◌then◌else◌, arith,
}
use picolet.GoMap.{put}
use picolet.Config.Category.{Category}
use picolet.Changeset.{Action, create, update, Change, Changeset}
use picolet.Disk.{Disk, Access}
use picolet.Rollback.{
  Snapshot, create_snapshot, restore, snapshot_change, snapshot_changes, is_secret,
}
use picolet.Rollback.Restore.{can_restore, restore_gives_back, create_over_existing_lost}

abbrev change : String → Action → Change
change path action = record {
  dest_path = path;
  category = Category.container;
  action = action;
  new_content = "new";
  old_hash = "";
  new_hash = "";
  service_name = "";
  old_service_name = "";
  rel_path = "";
  sops_values = false;
}

abbrev changeset : List Change → Changeset
changeset changes = record {
  changes = changes;
  summary = record { creates = 0; updates = 0; deletes = 0; noops = 0 };
}

abbrev old_disk : Disk
old_disk p = if p == "/q/web.container" then some "old" else none

abbrev new_disk : Disk
new_disk p = if p == "/q/web.container" then some "new" else none

abbrev open_access : Access
open_access = record {
  can_read = λ p. true;
  can_write = λ p. true;
  can_rename = λ p. false;
  can_remove = λ p. true;
}

abbrev taken : Snapshot
taken = ("/q/web.container", some "old") ∷ []

restore_gives_back_example : (restore open_access true taken new_disk).0 "/q/web.container" ≡ (
    if can_restore open_access old_disk "/q/web.container"
    then old_disk "/q/web.container"
    else new_disk "/q/web.container")
unfolding create_snapshot snapshot_changes snapshot_change is_secret put
restore_gives_back_example =
    restore_gives_back (changeset (change "/q/web.container" update ∷ [])) old_disk new_disk taken
      open_access true "/q/web.container" refl ((λ e. cc), tt) (λ q t. ground (arith, t))

abbrev lost : Snapshot
lost = ("/q/web.container", none) ∷ []

create_over_existing_lost_example :
    (restore open_access true lost new_disk).0 "/q/web.container" ≡ none
unfolding create_snapshot snapshot_changes snapshot_change is_secret put
create_over_existing_lost_example =
    create_over_existing_lost (change "/q/web.container" create) (changeset []) old_disk new_disk
      open_access true lost refl refl refl tt refl refl
