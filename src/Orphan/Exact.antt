-- ===== src/Orphan/Exact.antt =====
-- pkg/orphan/orphan.go: a scan removes the orphans, and nothing else.
use picolet.Prelude.{
  String, ◌≡◌, refl, ap, ◌∙◌, sym, Bool, true, false, ◌&&◌, ◌||◌, Option, none, some, List, [], ◌∷◌,
  arith, any, contains,
}
use picolet.FilePath.Clean.{join}
use picolet.GoMap.{GoMap}
use picolet.Config.Category.{categories}
use picolet.State.{ManagedFile}
use picolet.Disk.{Disk}
use picolet.Orphan.{
  Listing, missing, refused, listed, Host, Scanner, ScanError, Progress, owned_dirs, data_dirs,
  scan_owned_dir, and_then, nothing_removed, scan_owned_dirs, scan_marked_dir, scan_secrets,
  scan_shared, scan,
}
use picolet.Orphan.Passes.{
  unless, unless_either, unless_cong, unless-none, may_remove, may_remove_secret, reaches, lists,
  is_marked, scan_owned_dir-disk, scan_entries-disk, scan_names-disk, scan_names-secrets,
}
use picolet.Orphan.Secrets.{scan_owned_dir-secrets, scan_entries-secrets}

-- Some owned directory's walk reaches the path.
abbrev pub is_owned : Host → String → List String → Bool
is_owned h q dirs = any (λ dir. reaches dir q (h.walk dir)) dirs

abbrev pub entries_of : Listing → List (String × Bool)
entries_of (listed entries) = entries
entries_of _ = []

abbrev pub or_none : Option (List String) → List String
or_none none = []
or_none (some names) = names

-- The directories that are picolet's alone: the one of the quadlets and the two of the data.
abbrev pub picolets_dirs : Scanner → List String
picolets_dirs s = s.quadlet_dir ∷ join s.data_dir "manifests" ∷ join s.data_dir "files" ∷ []

pub owned_dirs_lem : (s : Scanner) → owned_dirs s ≡ picolets_dirs s
unfolding owned_dirs data_dirs categories
owned_dirs_lem s = refl

-- The file at the path is picolet's: it lies in a directory of picolet's, or is a regular file of the
-- shared directory with the marker at its head.
abbrev pub is_picolets : Scanner → Host → Disk → String → Bool
is_picolets s h disk q =
    is_owned h q (picolets_dirs s)
    || lists s.systemd_dir q (entries_of (h.read_dir s.systemd_dir)) && is_marked h q (disk q)

-- A scan without an error is the one that follows.
and_then_ok :
    (first rest : Progress × Option ScanError)
    → (and_then first rest).1 ≡ none
    → and_then first rest ≡ rest
and_then_ok (p, none) rest ok = refl
and_then_ok (p, some e) rest ok = ground (arith, ok)

fine : (first rest : Progress × Option ScanError) → (and_then first rest).1 ≡ none → first.1 ≡ none
fine (p, none) rest ok = refl
fine (p, some e) rest ok = ok

after_fine :
    (first rest : Progress × Option ScanError) → (and_then first rest).1 ≡ none → rest.1 ≡ none
after_fine (p, none) rest ok = ok
after_fine (p, some e) rest ok = ground (arith, ok)

scan_owned_dirs-disk :
    (h : Host) (managed : GoMap ManagedFile) (q : String) (dirs : List String) (p : Progress)
    → (scan_owned_dirs h managed dirs p).1 ≡ none
    → (scan_owned_dirs h managed dirs p).0.disk q
      ≡ unless (is_owned h q dirs && may_remove h managed q) (p.disk q)
unfolding scan_owned_dirs
scan_owned_dirs-disk h managed q [] p ok = refl
scan_owned_dirs-disk h managed q (dir ∷ rest) p ok =
    let first = scan_owned_dir h managed dir (h.walk dir) p in
    let others = scan_owned_dirs h managed rest first.0 in
    let same : and_then first others ≡ others = and_then_ok first others ok in
    ap (λ (x : Progress × Option ScanError). x.0.disk q) same
    ∙ scan_owned_dirs-disk h managed q rest first.0
        (sym (ap (λ (x : Progress × Option ScanError). x.1) same) ∙ ok)
    ∙ ap (unless (is_owned h q rest && may_remove h managed q))
        (scan_owned_dir-disk h managed dir q (h.walk dir) p)
    ∙ unless_either (is_owned h q rest) (reaches dir q (h.walk dir)) (may_remove h managed q)
        (p.disk q)

pub scan_owned_dirs-secrets :
    (h : Host) (managed : GoMap ManagedFile) (dirs : List String) (p : Progress)
    → (scan_owned_dirs h managed dirs p).0.gone_secrets ≡ p.gone_secrets
unfolding scan_owned_dirs
scan_owned_dirs-secrets h managed [] p = refl
scan_owned_dirs-secrets h managed (dir ∷ rest) p =
    let first = scan_owned_dir h managed dir (h.walk dir) p in
    either_has first (scan_owned_dirs h managed rest first.0)
      (scan_owned_dir-secrets h managed dir (h.walk dir) p)
      (scan_owned_dirs-secrets h managed rest first.0
        ∙ scan_owned_dir-secrets h managed dir (h.walk dir) p)
  where
    either_has :
        (first others : Progress × Option ScanError)
        → first.0.gone_secrets ≡ p.gone_secrets
        → others.0.gone_secrets ≡ p.gone_secrets
        → (and_then first others).0.gone_secrets ≡ p.gone_secrets
    either_has (x, none) others h k = k
    either_has (x, some e) others h k = h

pub scan_marked_dir-disk :
    (h : Host) (managed : GoMap ManagedFile) (dir q : String) (entries : Listing) (p : Progress)
    → (scan_marked_dir h managed dir entries p).0.disk q
      ≡ unless
          (lists dir q (entries_of entries) && is_marked h q (p.disk q) && may_remove h managed q)
          (p.disk q)
unfolding scan_marked_dir
scan_marked_dir-disk h managed dir q missing p = refl
scan_marked_dir-disk h managed dir q refused p = refl
scan_marked_dir-disk h managed dir q (listed entries) p =
    scan_entries-disk h managed dir q entries p

pub scan_marked_dir-secrets :
    (h : Host) (managed : GoMap ManagedFile) (dir : String) (entries : Listing) (p : Progress)
    → (scan_marked_dir h managed dir entries p).0.gone_secrets ≡ p.gone_secrets
unfolding scan_marked_dir
scan_marked_dir-secrets h managed dir missing p = refl
scan_marked_dir-secrets h managed dir refused p = refl
scan_marked_dir-secrets h managed dir (listed entries) p =
    scan_entries-secrets h managed dir entries p

pub scan_secrets-disk :
    (h : Host) (managed : GoMap ManagedFile) (q : String) (names : Option (List String))
    (p : Progress)
    → (scan_secrets h managed names p).0.disk q ≡ p.disk q
unfolding scan_secrets
scan_secrets-disk h managed q none p = refl
scan_secrets-disk h managed q (some names) p = scan_names-disk h managed q names p

pub scan_secrets-secrets :
    (h : Host) (managed : GoMap ManagedFile) (n : String) (names : Option (List String))
    (p : Progress)
    → contains n (scan_secrets h managed names p).0.gone_secrets
      ≡ (contains n (or_none names) && may_remove_secret h managed n || contains n p.gone_secrets)
unfolding scan_secrets
scan_secrets-secrets h managed n none p = refl
scan_secrets-secrets h managed n (some names) p = scan_names-secrets h managed n names p

-- What the owned directories leave is the disk that the shared directory's pass reads.
owned_then_marked :
    (shared owned may : Bool) (mark : Option String → Bool) (content : Option String)
    → unless (shared && mark (unless (owned && may) content) && may) (unless (owned && may) content)
      ≡ unless ((owned || shared && mark content) && may) content
owned_then_marked shared true true mark content = unless-none (shared && mark none && true)
owned_then_marked shared true false mark content = unless_cong {b = false} content (ground arith)
owned_then_marked shared false may mark content = unless_cong content (ground arith)

-- After a scan without an error, a path is free exactly where it was free or the scan had to free it:
-- its file is picolet's, nothing manages it, and the file system lets it go; every other path keeps its
-- content. The secrets removed are exactly those that Podman lists as picolet's, that nothing manages
-- and that Podman lets go.
pub scan_lem :
    (s : Scanner) (h : Host) (managed : GoMap ManagedFile) (disk : Disk) (q n : String)
    → (scan s h managed disk).1 ≡ none
    → ((scan s h managed disk).0.disk q
        ≡ unless (is_picolets s h disk q && may_remove h managed q) (disk q))
      × (contains n (scan s h managed disk).0.gone_secrets
          ≡ (contains n (or_none h.managed_secrets) && may_remove_secret h managed n))
unfolding scan scan_shared
scan_lem s h managed disk q n ok =
    let begin = nothing_removed disk in
    let owned = scan_owned_dirs h managed (owned_dirs s) begin in
    let marked = scan_marked_dir h managed s.systemd_dir (h.read_dir s.systemd_dir) owned.0 in
    let secrets = scan_secrets h managed h.managed_secrets marked.0 in
    let shared = and_then marked secrets in
    let owned_fine : owned.1 ≡ none = fine owned shared ok in
    let through : and_then owned shared ≡ secrets =
      and_then_ok owned shared ok ∙ and_then_ok marked secrets (after_fine owned shared ok) in
    let owned_disk : owned.0.disk q
        ≡ unless (is_owned h q (picolets_dirs s) && may_remove h managed q) (disk q) =
      scan_owned_dirs-disk h managed q (owned_dirs s) begin owned_fine
      ∙ ap (λ dirs. unless (is_owned h q dirs && may_remove h managed q) (disk q))
          (owned_dirs_lem s) in
    (
      ap (λ (x : Progress × Option ScanError). x.0.disk q) through
          ∙ scan_secrets-disk h managed q h.managed_secrets marked.0
          ∙ scan_marked_dir-disk h managed s.systemd_dir q (h.read_dir s.systemd_dir) owned.0
          ∙ ap
              (λ (c : Option String).
                unless
                  (lists s.systemd_dir q (entries_of (h.read_dir s.systemd_dir))
                    && is_marked h q c
                    && may_remove h managed q)
                  c)
              owned_disk
          ∙ owned_then_marked (lists s.systemd_dir q (entries_of (h.read_dir s.systemd_dir)))
              (is_owned h q (picolets_dirs s)) (may_remove h managed q) (is_marked h q) (disk q),
      ap (λ (x : Progress × Option ScanError). contains n x.0.gone_secrets) through
          ∙ scan_secrets-secrets h managed n h.managed_secrets marked.0
          ∙ ground (
            arith,
            scan_marked_dir-secrets h managed s.systemd_dir (h.read_dir s.systemd_dir) owned.0,
            scan_owned_dirs-secrets h managed (owned_dirs s) begin,
          ),
    )
