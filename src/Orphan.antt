-- ===== src/Orphan.antt =====
-- pkg/orphan/orphan.go: the scan that removes what picolet deployed and no longer manages. What the
-- walks and listings of the file system and Podman answer is the host's.
use picolet.Prelude.{
  ℕ, suc, String, Bool, true, false, not, ◌&&◌, Option, none, some, List, [], ◌∷◌, ◌==◌,
  if◌then◌else◌,
}
pub mod Passes
pub mod Secrets
pub mod Exact
pub mod Spared
mod Tests
use Prim.Native.String.{◌++◌ as ◌++s◌}
use picolet.FilePath.Clean.{join}
use picolet.FilePath.Text.{has_prefix}
use picolet.GoMap.{GoMap, get, has}
use picolet.Config.Category.{Spec, Destination, dest_data, categories}
use picolet.State.{ManagedFile}
use picolet.Disk.{Disk, Access, remove_file}

-- A call that `filepath.WalkDir` makes of its function: on an entry that is not there, on one that
-- cannot be read, on a directory, or on anything else.
pub data Visit : Type 0 where
  vanished unreadable directory file : String → Visit

-- The answer of `os.ReadDir`: each entry's name, and whether it is a regular file.
pub data Listing : Type 0 where
  missing refused : Listing
  listed : List (String × Bool) → Listing

pub record Host : Type 0 where
  pub walk : String → List Visit
  pub read_dir : String → Listing
  pub can_open : String → Bool
  pub access : Access
  pub managed_secrets : Option (List String)
  pub can_remove_secret : String → Bool

pub record Scanner : Type 0 where
  pub quadlet_dir : String
  pub systemd_dir : String
  pub data_dir : String

pub data ScanError : Type 0 where
  scanning : String → ScanError
  not_a_directory : String → ScanError
  reading : String → ScanError
  listing_secrets : ScanError

-- The disk, the secrets removed so far, the newest first, and the counts of the result.
pub record Progress : Type 0 where
  pub disk : Disk
  pub gone_secrets : List String
  pub files_removed : ℕ
  pub secrets_removed : ℕ

abbrev pub nothing_removed : Disk → Progress
nothing_removed disk = record {
  disk = disk;
  gone_secrets = [];
  files_removed = 0;
  secrets_removed = 0;
}

abbrev pub picolet_marker : String
picolet_marker = "# Managed by picolet"

abbrev pub is_data_dest : Destination → Bool
is_data_dest dest_data = true
is_data_dest _ = false

unfoldable pub data_dirs : String → List Spec → List String
unfolding join
data_dirs data_dir [] = []
data_dirs data_dir (s ∷ rest) =
    let others = data_dirs data_dir rest in
    if is_data_dest s.dest then join data_dir s.subdir ∷ others else others

unfoldable pub owned_dirs : Scanner → List String
unfolding data_dirs categories
owned_dirs s = s.quadlet_dir ∷ data_dirs s.data_dir categories

-- A file counts as removed where the writer succeeds.
abbrev pub count_removed : Disk × Bool → Progress → Progress
count_removed (disk, true) p = record p { disk = disk; files_removed = suc p.files_removed }
count_removed (disk, false) p = record p { disk = disk }

-- `removeOrphan`
unfoldable pub remove_orphan : Host → String → Progress → Progress
unfolding remove_file
remove_orphan h path p = count_removed (remove_file h.access path p.disk) p

unfoldable pub remove_unmanaged : Host → GoMap ManagedFile → String → Progress → Progress
unfolding remove_orphan get
remove_unmanaged h managed path p = if has path managed then p else remove_orphan h path p

-- `scanOwnedDir`, from a point of its walk on.
unfoldable pub scan_owned_dir :
    Host → GoMap ManagedFile → String → List Visit → Progress → Progress × Option ScanError
unfolding remove_unmanaged
scan_owned_dir h managed dir [] p = (p, none)
scan_owned_dir h managed dir (vanished path ∷ rest) p =
    let others = scan_owned_dir h managed dir rest p in if path == dir then (p, none) else others
scan_owned_dir h managed dir (unreadable path ∷ rest) p = (p, some (scanning dir))
scan_owned_dir h managed dir (directory path ∷ rest) p = scan_owned_dir h managed dir rest p
scan_owned_dir h managed dir (file path ∷ rest) p =
    let others = scan_owned_dir h managed dir rest (remove_unmanaged h managed path p) in
    if path == dir then (p, some (not_a_directory dir)) else others

-- What follows a pass, where the pass has no error; its error ends the scan.
abbrev pub and_then :
    Progress × Option ScanError → Progress × Option ScanError → Progress × Option ScanError
and_then (p, none) rest = rest
and_then (p, some e) rest = (p, some e)

-- The loop of `Scan` over the owned directories; the first error ends the scan.
unfoldable pub scan_owned_dirs :
    Host → GoMap ManagedFile → List String → Progress → Progress × Option ScanError
unfolding scan_owned_dir
scan_owned_dirs h managed [] p = (p, none)
scan_owned_dirs h managed (dir ∷ rest) p =
    let first = scan_owned_dir h managed dir (h.walk dir) p in
    and_then first (scan_owned_dirs h managed rest first.0)

abbrev pub starts_with_marker : Option String → Bool
starts_with_marker none = false
starts_with_marker (some content) = has_prefix picolet_marker content

-- `hasPicoletMarker`
unfoldable pub has_picolet_marker : Host → Disk → String → Bool
unfolding has_prefix
has_picolet_marker h disk path = h.can_open path && starts_with_marker (disk path)

-- The loop of `scanMarkedDir`.
unfoldable pub scan_entries :
    Host → GoMap ManagedFile → String → List (String × Bool) → Progress → Progress
unfolding join has_picolet_marker remove_unmanaged
scan_entries h managed dir [] p = p
scan_entries h managed dir ((name, regular) ∷ rest) p =
    let path = join dir name in
    scan_entries h managed dir rest
      (if regular && has_picolet_marker h p.disk path then remove_unmanaged h managed path p else p)

-- `scanMarkedDir`
unfoldable pub scan_marked_dir :
    Host → GoMap ManagedFile → String → Listing → Progress → Progress × Option ScanError
unfolding scan_entries
scan_marked_dir h managed dir missing p = (p, none)
scan_marked_dir h managed dir refused p = (p, some (reading dir))
scan_marked_dir h managed dir (listed entries) p = (scan_entries h managed dir entries p, none)

-- One secret of the loop of `scanSecrets`.
unfoldable pub scan_secret : Host → GoMap ManagedFile → String → Progress → Progress
unfolding get
scan_secret h managed name p =
    if has ("secret:" ++s name) managed
    then p
    else if h.can_remove_secret name
    then record p { gone_secrets = name ∷ p.gone_secrets; secrets_removed = suc p.secrets_removed }
    else p

unfoldable pub scan_names : Host → GoMap ManagedFile → List String → Progress → Progress
unfolding scan_secret
scan_names h managed [] p = p
scan_names h managed (name ∷ rest) p = scan_names h managed rest (scan_secret h managed name p)

-- `scanSecrets`
unfoldable pub scan_secrets :
    Host → GoMap ManagedFile → Option (List String) → Progress → Progress × Option ScanError
unfolding scan_names
scan_secrets h managed none p = (p, some listing_secrets)
scan_secrets h managed (some names) p = (scan_names h managed names p, none)

-- The end of `Scan`, after the owned directories.
unfoldable pub scan_shared :
    Scanner → Host → GoMap ManagedFile → Progress → Progress × Option ScanError
unfolding scan_marked_dir scan_secrets
scan_shared s h managed p =
    let marked = scan_marked_dir h managed s.systemd_dir (h.read_dir s.systemd_dir) p in
    and_then marked (scan_secrets h managed h.managed_secrets marked.0)

-- `Scan`
unfoldable pub scan : Scanner → Host → GoMap ManagedFile → Disk → Progress × Option ScanError
unfolding owned_dirs scan_owned_dirs scan_shared
scan s h managed disk =
    let owned = scan_owned_dirs h managed (owned_dirs s) (nothing_removed disk) in
    and_then owned (scan_shared s h managed owned.0)
