-- ===== src/Orphan/Passes.antt =====
-- pkg/orphan/orphan.go: what each pass of the scan does to one path and to one secret.
use Prim.Native.String.{◌++◌ as ◌++s◌}
use picolet.Prelude.{
  String, ◌≡◌, refl, ap, ◌∙◌, Bool, true, false, not, ◌&&◌, ◌||◌, Option, none, List, [], ◌∷◌, ◌==◌,
  arith, if◌then◌else◌, any, contains, eq_iff, Bool-cases, inl, inr,
}
use picolet.FilePath.Clean.{join}
use picolet.GoMap.{GoMap, has}
use picolet.State.{ManagedFile}
use picolet.Disk.{Disk, Access, remove_file}
use picolet.Orphan.{
  Visit, vanished, unreadable, directory, file, Host, Progress, remove_orphan, remove_unmanaged,
  scan_owned_dir, has_picolet_marker, starts_with_marker, scan_entries, scan_secret, scan_names,
  count_removed,
}

-- A content or nothing, once its path has been removed or left.
abbrev pub unless : Bool → Option String → Option String
unless gone content = if gone then none else content

pub unless-unless :
    (a b : Bool) (content : Option String) → unless a (unless b content) ≡ unless (b || a) content
unless-unless true true content = refl
unless-unless true false content = refl
unless-unless false true content = refl
unless-unless false false content = refl

removed-disk :
    (a : Access) (path q : String) (disk : Disk)
    → (remove_file a path disk).0 q ≡ unless (path == q && a.can_remove q) (disk q)
unfolding remove_file
removed-disk a path q disk = elim (Bool-cases (path == q)) [
  | inl same ↦ ground (arith, same, eq_iff path q, eq_iff q path)
  | inr other ↦ ground (arith, other, eq_iff path q, eq_iff q path)
]

-- The scan may remove what it finds at the path: nothing manages it, and the file system lets it go.
abbrev pub may_remove : Host → GoMap ManagedFile → String → Bool
may_remove h managed q = not (has q managed) && h.access.can_remove q

pub unless_either :
    (a b may : Bool) (content : Option String)
    → unless (a && may) (unless (b && may) content) ≡ unless ((b || a) && may) content
unless_either true true true content = refl
unless_either true true false content = refl
unless_either true false true content = refl
unless_either true false false content = refl
unless_either false true true content = refl
unless_either false true false content = refl
unless_either false false true content = refl
unless_either false false false content = refl

count_removed-disk :
    (q : String) (out : Disk × Bool) (p : Progress) → (count_removed out p).disk q ≡ out.0 q
count_removed-disk q (disk, true) p = refl
count_removed-disk q (disk, false) p = refl

remove_unmanaged-disk :
    (h : Host) (managed : GoMap ManagedFile) (path q : String) (p : Progress)
    → (remove_unmanaged h managed path p).disk q
      ≡ unless (path == q && may_remove h managed q) (p.disk q)
unfolding remove_unmanaged remove_orphan
remove_unmanaged-disk h managed path q p = elim (Bool-cases (has path managed)) [
  | inl kept ↦ rw kept (ground (arith, eq_iff path q, kept))
  | inr lost ↦ rw lost (
      count_removed-disk q (remove_file h.access path p.disk) p
      ∙ removed-disk h.access path q p.disk
      ∙ ap (λ b. unless b (p.disk q)) (ground (arith, eq_iff path q, lost)))
]

-- The walk of an owned directory reaches the path as a file: not past the end of the walk, which is
-- the directory itself where it has vanished or is no directory, or an entry that cannot be read.
unfoldable pub reaches : String → String → List Visit → Bool
reaches dir q [] = false
reaches dir q (vanished path ∷ rest) = not (path == dir) && reaches dir q rest
reaches dir q (unreadable path ∷ rest) = false
reaches dir q (directory path ∷ rest) = reaches dir q rest
reaches dir q (file path ∷ rest) = not (path == dir) && (path == q || reaches dir q rest)

pub scan_owned_dir-disk :
    (h : Host) (managed : GoMap ManagedFile) (dir q : String) (visits : List Visit) (p : Progress)
    → (scan_owned_dir h managed dir visits p).0.disk q
      ≡ unless (reaches dir q visits && may_remove h managed q) (p.disk q)
unfolding scan_owned_dir reaches
scan_owned_dir-disk h managed dir q [] p = refl
scan_owned_dir-disk h managed dir q (vanished path ∷ rest) p = elim (Bool-cases (path == dir)) [
  | inl root ↦ rw root refl
  | inr nested ↦ rw nested (scan_owned_dir-disk h managed dir q rest p)
]
scan_owned_dir-disk h managed dir q (unreadable path ∷ rest) p = refl
scan_owned_dir-disk h managed dir q (directory path ∷ rest) p =
    scan_owned_dir-disk h managed dir q rest p
scan_owned_dir-disk h managed dir q (file path ∷ rest) p = elim (Bool-cases (path == dir)) [
  | inl root ↦ rw root refl
  | inr nested ↦ rw nested (
      scan_owned_dir-disk h managed dir q rest (remove_unmanaged h managed path p)
      ∙ ap (unless (reaches dir q rest && may_remove h managed q))
          (remove_unmanaged-disk h managed path q p)
      ∙ unless_either (reaches dir q rest) (path == q) (may_remove h managed q) (p.disk q))
]

-- An entry of the shared directory is a regular file at the path.
abbrev pub lists : String → String → List (String × Bool) → Bool
lists dir q entries = any (λ e. e.1 && join dir e.0 == q) entries

pub unless_cong :
    {a b : Bool} (content : Option String) → a ≡ b → unless a content ≡ unless b content
unless_cong content h = ap (λ b. unless b content) h

-- The path is open to the scan, and this content carries the marker.
abbrev pub is_marked : Host → String → Option String → Bool
is_marked h q content = h.can_open q && starts_with_marker content

marked_unmanaged-disk :
    (h : Host) (managed : GoMap ManagedFile) (path q : String) (regular : Bool) (p : Progress)
    → (if regular && has_picolet_marker h p.disk path
          then remove_unmanaged h managed path p
          else p).disk
        q
      ≡ unless
          ((regular && path == q) && is_marked h q (p.disk q) && may_remove h managed q)
          (p.disk q)
unfolding has_picolet_marker
marked_unmanaged-disk h managed path q regular p =
    elim (Bool-cases (regular && is_marked h path (p.disk path))) [
      | inl marked ↦ rw marked (
          remove_unmanaged-disk h managed path q p
          ∙ unless_cong (p.disk q) (ground (arith, eq_iff path q, marked)))
      | inr plain ↦
          rw plain (unless_cong {a = false} (p.disk q) (ground (arith, eq_iff path q, plain)))
    ]

pub unless-none : (b : Bool) → unless b none ≡ none
unless-none true = refl
unless-none false = refl

-- Later entries read the content that this one leaves.
entries_join :
    (later now may : Bool) (mark : Option String → Bool) (content : Option String)
    → unless
        (later && mark (unless (now && mark content && may) content) && may)
        (unless (now && mark content && may) content)
      ≡ unless ((now || later) && mark content && may) content
entries_join later now may mark content = elim (Bool-cases (now && mark content && may)) [
  | inl gone ↦ rw gone (
      unless-none (later && mark none && may)
      ∙ unless_cong {a = true} content (ground (arith, gone)))
  | inr kept ↦ rw kept (unless_cong content (ground (arith, kept)))
]

pub scan_entries-disk :
    (h : Host) (managed : GoMap ManagedFile) (dir q : String) (entries : List (String × Bool))
    (p : Progress)
    → (scan_entries h managed dir entries p).disk q
      ≡ unless
          (lists dir q entries && is_marked h q (p.disk q) && may_remove h managed q)
          (p.disk q)
unfolding scan_entries
scan_entries-disk h managed dir q [] p = refl
scan_entries-disk h managed dir q ((name, regular) ∷ rest) p =
    let next : Progress =
      if regular && has_picolet_marker h p.disk (join dir name)
      then remove_unmanaged h managed (join dir name) p
      else p in
    scan_entries-disk h managed dir q rest next
    ∙ ap
        (λ (c : Option String).
          unless (lists dir q rest && is_marked h q c && may_remove h managed q) c)
        (marked_unmanaged-disk h managed (join dir name) q regular p)
    ∙ entries_join (lists dir q rest) (regular && join dir name == q) (may_remove h managed q)
        (is_marked h q) (p.disk q)

-- The scan may remove the secret: nothing manages it, and Podman lets it go.
abbrev pub may_remove_secret : Host → GoMap ManagedFile → String → Bool
may_remove_secret h managed name =
    not (has ("secret:" ++s name) managed) && h.can_remove_secret name

pub scan_names-secrets :
    (h : Host) (managed : GoMap ManagedFile) (n : String) (names : List String) (p : Progress)
    → contains n (scan_names h managed names p).gone_secrets
      ≡ (contains n names && may_remove_secret h managed n || contains n p.gone_secrets)
unfolding scan_names scan_secret
scan_names-secrets h managed n [] p = refl
scan_names-secrets h managed n (name ∷ rest) p =
    scan_names-secrets h managed n rest (scan_secret h managed name p)
    ∙ ground (arith, eq_iff n name, eq_iff name n)

pub scan_names-disk :
    (h : Host) (managed : GoMap ManagedFile) (q : String) (names : List String) (p : Progress)
    → (scan_names h managed names p).disk q ≡ p.disk q
unfolding scan_names scan_secret
scan_names-disk h managed q [] p = refl
scan_names-disk h managed q (name ∷ rest) p =
    scan_names-disk h managed q rest (scan_secret h managed name p) ∙ ground arith
