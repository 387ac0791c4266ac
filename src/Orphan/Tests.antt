-- ===== src/Orphan/Tests.antt =====
-- A scan of a small host.
use picolet.Prelude.{
  ◌≡◌, refl, true, false, not, ◌&&◌, none, some, [], ◌∷◌, ◌==◌, if◌then◌else◌, contains, arith,
}
use picolet.FilePath.Clean.{
  join, clean, elements, clean_elements, clean_element, split, is_abs, print,
}
use picolet.FilePath.Text.{has_prefix}
use picolet.GoMap.{GoMap, get, has}
use picolet.Config.Category.{Category, categories}
use picolet.State.{ManagedFile}
use picolet.Disk.{Disk, remove_file}
use picolet.Orphan.{
  directory, file, listed, Host, Scanner, owned_dirs, data_dirs, scan_owned_dirs, scan_owned_dir,
  remove_unmanaged, remove_orphan, scan_shared, scan_marked_dir, scan_entries, has_picolet_marker,
  scan_secrets, scan_names, scan_secret, scan,
}
use picolet.Orphan.Passes.{unless, may_remove, may_remove_secret}
use picolet.Orphan.Exact.{is_picolets, or_none, scan_lem}
use picolet.Orphan.Spared.{scan_spares}

abbrev scanner : Scanner
scanner = record { quadlet_dir = "/q"; systemd_dir = "/s"; data_dir = "/d" }

abbrev files_on_disk : Disk
files_on_disk p =
    if p == "/q/old.container"
    then some "old"
    else if p == "/q/web.container"
    then some "web"
    else if p == "/s/x.timer"
    then some "# Managed by picolet\nx"
    else if p == "/s/admin.service"
    then some "admin"
    else none

abbrev host : Host
host = record {
  walk = λ dir.
      if dir == "/q"
      then directory "/q" ∷ file "/q/old.container" ∷ file "/q/web.container" ∷ []
      else [];
  read_dir = λ dir. listed (("x.timer", true) ∷ ("admin.service", true) ∷ []);
  can_open = λ p. true;
  access = record {
    can_read = λ p. true;
    can_write = λ p. true;
    can_rename = λ p. false;
    can_remove = λ p. true;
  };
  managed_secrets = some ("token" ∷ "stale" ∷ []);
  can_remove_secret = λ n. true;
}

abbrev in_state : GoMap ManagedFile
in_state =
    ("/q/web.container", record { hash = "h"; category = Category.container; sops_values = false })
    ∷ ("secret:token", record { hash = "h"; category = Category.secret; sops_values = false })
    ∷ []

scan_counts : (scan scanner host in_state files_on_disk).0.files_removed ≡ 2
unfolding scan owned_dirs data_dirs categories scan_owned_dirs scan_owned_dir remove_unmanaged
    remove_orphan scan_shared scan_marked_dir scan_entries has_picolet_marker scan_secrets
    scan_names scan_secret remove_file has_prefix get join clean elements clean_elements
    clean_element split is_abs print
scan_counts = refl

scan_lem_example :
    ((scan scanner host in_state files_on_disk).0.disk "/q/old.container"
      ≡ unless
          (is_picolets scanner host files_on_disk "/q/old.container"
            && may_remove host in_state "/q/old.container")
          (files_on_disk "/q/old.container"))
    × (contains "stale" (scan scanner host in_state files_on_disk).0.gone_secrets ≡ (
        contains "stale" (or_none host.managed_secrets) && may_remove_secret host in_state "stale"))
unfolding scan owned_dirs data_dirs categories scan_owned_dirs scan_owned_dir remove_unmanaged
    scan_shared scan_marked_dir scan_secrets split
scan_lem_example = scan_lem scanner host in_state files_on_disk "/q/old.container" "stale" refl

managed :
    (is_picolets scanner host files_on_disk "/q/web.container"
      && not (has "/q/web.container" in_state))
    ≡ false
unfolding get
managed = ground arith

scan_spares_example :
    (scan scanner host in_state files_on_disk).0.disk "/q/web.container"
    ≡ files_on_disk "/q/web.container"
scan_spares_example = scan_spares scanner host in_state files_on_disk "/q/web.container" managed
