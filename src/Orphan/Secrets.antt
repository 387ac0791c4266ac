-- ===== src/Orphan/Secrets.antt =====
-- pkg/orphan/orphan.go: the passes over files leave the secrets alone.
use picolet.Prelude.{
  String, ◌≡◌, refl, ◌∙◌, Bool, true, false, ◌&&◌, List, [], ◌∷◌, ◌==◌, if◌then◌else◌, Bool-cases,
  inl, inr,
}
use picolet.FilePath.Clean.{join}
use picolet.GoMap.{GoMap, has}
use picolet.State.{ManagedFile}
use picolet.Disk.{Disk, remove_file}
use picolet.Orphan.{
  Visit, vanished, unreadable, directory, file, Host, Progress, remove_orphan, count_removed,
  remove_unmanaged, scan_owned_dir, has_picolet_marker, scan_entries,
}

if_same_secrets :
    (b : Bool) (x y p : Progress)
    → x.gone_secrets ≡ p.gone_secrets
    → y.gone_secrets ≡ p.gone_secrets
    → (if b then x else y).gone_secrets ≡ p.gone_secrets
if_same_secrets true x y p h k = h
if_same_secrets false x y p h k = k

count_removed-secrets :
    (out : Disk × Bool) (p : Progress) → (count_removed out p).gone_secrets ≡ p.gone_secrets
count_removed-secrets (disk, true) p = refl
count_removed-secrets (disk, false) p = refl

remove_unmanaged-secrets :
    (h : Host) (managed : GoMap ManagedFile) (path : String) (p : Progress)
    → (remove_unmanaged h managed path p).gone_secrets ≡ p.gone_secrets
unfolding remove_unmanaged remove_orphan
remove_unmanaged-secrets h managed path p =
    if_same_secrets (has path managed) p (remove_orphan h path p) p refl
      (count_removed-secrets (remove_file h.access path p.disk) p)

pub scan_owned_dir-secrets :
    (h : Host) (managed : GoMap ManagedFile) (dir : String) (visits : List Visit) (p : Progress)
    → (scan_owned_dir h managed dir visits p).0.gone_secrets ≡ p.gone_secrets
unfolding scan_owned_dir
scan_owned_dir-secrets h managed dir [] p = refl
scan_owned_dir-secrets h managed dir (vanished path ∷ rest) p = elim (Bool-cases (path == dir)) [
  | inl root ↦ rw root refl
  | inr nested ↦ rw nested (scan_owned_dir-secrets h managed dir rest p)
]
scan_owned_dir-secrets h managed dir (unreadable path ∷ rest) p = refl
scan_owned_dir-secrets h managed dir (directory path ∷ rest) p =
    scan_owned_dir-secrets h managed dir rest p
scan_owned_dir-secrets h managed dir (file path ∷ rest) p = elim (Bool-cases (path == dir)) [
  | inl root ↦ rw root refl
  | inr nested ↦ rw nested (
      scan_owned_dir-secrets h managed dir rest (remove_unmanaged h managed path p)
      ∙ remove_unmanaged-secrets h managed path p)
]

pub scan_entries-secrets :
    (h : Host) (managed : GoMap ManagedFile) (dir : String) (entries : List (String × Bool))
    (p : Progress)
    → (scan_entries h managed dir entries p).gone_secrets ≡ p.gone_secrets
unfolding scan_entries
scan_entries-secrets h managed dir [] p = refl
scan_entries-secrets h managed dir ((name, regular) ∷ rest) p =
    let path = join dir name in
    let found = regular && has_picolet_marker h p.disk path in
    let removed = remove_unmanaged h managed path p in
    scan_entries-secrets h managed dir rest (if found then removed else p)
    ∙ if_same_secrets found removed p p (remove_unmanaged-secrets h managed path p) refl
