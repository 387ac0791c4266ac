-- ===== src/Bookkeeping/Tests.antt =====
-- The theorems of this component at concrete inputs.
use picolet.Prelude.{String, ◌≡◌, refl, true, false, not, ◌&&◌, List, [], ◌∷◌, any, if◌then◌else◌}
use picolet.GoMap.{get, has}
use picolet.Config.Category.{Category}
use picolet.State.{State, ManagedFile, new_state}
use picolet.Changeset.{ResolvedFile, Changeset, has_changes, writes, deletes, is_noop}
use picolet.Reconciler.{diff, seen}
use picolet.Bookkeeping.{update_state, merge_changeset, refresh_noops}
use picolet.Reconciler.Diff.{diff_exact, is_stale, diff-IsTallied, IsTallied}
use picolet.Bookkeeping.Converge.{
  IsDistinct, file_record, file_service, update_state-diff, diff-update_state, hash_of,
}
use picolet.Bookkeeping.Merge.{merge_changeset_frame, merge_changeset-diff}
use picolet.Bookkeeping.Refresh.{read, refreshed_record, refresh_noops_lem}

-- A hash to run the model with: the content itself.
abbrev plain : String → String
plain s = s

abbrev web : ResolvedFile
web = record {
  dest_path = "/q/web.container";
  content = "Image=web:2";
  category = Category.container;
  service_name = "web.service";
  rel_path = "";
  sops_values = false;
}

abbrev net : ResolvedFile
net = record {
  dest_path = "/q/app.network";
  content = "[Network]";
  category = Category.network;
  service_name = "app-network.service";
  rel_path = "";
  sops_values = false;
}

abbrev recorded : String → Category → ManagedFile
recorded h c = record { hash = h; category = c; sops_values = false }

-- `web` is outdated, `net` is up to date, and the volume is no longer wanted.
abbrev before : State
before = record new_state {
  managed_files =
      ("/q/web.container", recorded "Image=web:1" Category.container)
      ∷ ("/q/app.network", recorded "[Network]" Category.network)
      ∷ ("/q/old.volume", recorded "[Volume]" Category.volume)
      ∷ [];
  service_names =
      ("/q/web.container", "web.service") ∷ ("/q/old.volume", "old-volume.service") ∷ [];
}

abbrev wanted : List ResolvedFile
wanted = web ∷ net ∷ []

wanted-IsDistinct : IsDistinct wanted
unfolding seen
wanted-IsDistinct = (refl, (refl, tt))

abbrev changes : Changeset
changes = diff plain wanted before

web_is_written : writes changes "/q/web.container" ≡ true
unfolding diff writes new_state
web_is_written = refl

diff_exact_example :
    (writes changes "/q/old.volume" ≡ is_stale plain wanted before "/q/old.volume")
    × (deletes changes "/q/old.volume"
        ≡ (has "/q/old.volume" before.managed_files && not (seen "/q/old.volume" wanted)))
diff_exact_example = diff_exact plain wanted before "/q/old.volume"

diff-IsTallied_example :
    IsTallied changes × (has_changes changes ≡ any (λ c. not (is_noop c.action)) changes.changes)
diff-IsTallied_example = diff-IsTallied plain wanted before

update_state-diff_example :
    (get "/q/web.container" (update_state before changes).managed_files
      ≡ file_record plain wanted "/q/web.container")
    × (get "/q/web.container" (update_state before changes).service_names
        ≡ file_service wanted "/q/web.container")
update_state-diff_example =
    update_state-diff plain wanted before "/q/web.container" wanted-IsDistinct

diff-update_state_example : has_changes (diff plain wanted (update_state before changes)) ≡ false
diff-update_state_example = diff-update_state plain wanted before wanted-IsDistinct

merge_changeset_frame_example :
    (get "/q/app.network" (merge_changeset before changes).managed_files
      ≡ get "/q/app.network" before.managed_files)
    × (get "/q/app.network" (merge_changeset before changes).service_names
        ≡ get "/q/app.network" before.service_names)
unfolding diff writes deletes
merge_changeset_frame_example = merge_changeset_frame before changes "/q/app.network" refl refl

merge_changeset-diff_example :
    ((p : String)
      → hash_of (get p (merge_changeset before changes).managed_files)
        ≡ hash_of (get p (update_state before changes).managed_files))
    × (has_changes (diff plain wanted (merge_changeset before changes)) ≡ false)
merge_changeset-diff_example = merge_changeset-diff plain wanted before wanted-IsDistinct

refresh_noops_lem_example :
    ((p : String)
      → read p (refresh_noops changes before).0.managed_files
        ≡ refreshed_record changes.changes p (read p before.managed_files))
    × ((refresh_noops changes before).0
        ≡ (if (refresh_noops changes before).1 then (refresh_noops changes before).0 else before))
refresh_noops_lem_example = refresh_noops_lem changes before
