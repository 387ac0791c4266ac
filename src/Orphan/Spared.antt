-- ===== src/Orphan/Spared.antt =====
-- pkg/orphan/orphan.go: what a scan spares, whether it fails or not.
use picolet.Prelude.{
  String, ◌≡◌, refl, ap, ◌∙◌, false, not, ◌&&◌, Option, none, some, List, [], ◌∷◌, arith, contains,
}
use picolet.GoMap.{GoMap, has}
use picolet.State.{ManagedFile}
use picolet.Disk.{Disk}
use picolet.Orphan.{
  Host, Scanner, ScanError, Progress, owned_dirs, and_then, nothing_removed, scan_owned_dir,
  scan_owned_dirs, scan_marked_dir, scan_secrets, scan_shared, scan,
}
use picolet.Orphan.Passes.{
  unless, unless_cong, may_remove, may_remove_secret, lists, is_marked, scan_owned_dir-disk,
}
use picolet.Orphan.Exact.{
  is_owned, entries_of, or_none, owned_dirs_lem, is_picolets, scan_owned_dirs-secrets,
  scan_marked_dir-disk, scan_marked_dir-secrets, scan_secrets-disk, scan_secrets-secrets,
}

-- What both a pass and the passes after it leave alone is left alone.
and_then_keeps {ℓ} :
    {A : Type ℓ} (f : Progress → A) (a : A) (first rest : Progress × Option ScanError)
    → f first.0 ≡ a
    → f rest.0 ≡ a
    → f (and_then first rest).0 ≡ a
and_then_keeps f a (p, none) rest h k = k
and_then_keeps f a (p, some e) rest h k = h

scan_owned_dirs-spares :
    (h : Host) (managed : GoMap ManagedFile) (q : String) (dirs : List String) (p : Progress)
    → (is_owned h q dirs && not (has q managed)) ≡ false
    → (scan_owned_dirs h managed dirs p).0.disk q ≡ p.disk q
unfolding scan_owned_dirs
scan_owned_dirs-spares h managed q [] p k = refl
scan_owned_dirs-spares h managed q (dir ∷ rest) p k =
    let first = scan_owned_dir h managed dir (h.walk dir) p in
    let kept : first.0.disk q ≡ p.disk q =
      scan_owned_dir-disk h managed dir q (h.walk dir) p
      ∙ unless_cong {b = false} (p.disk q) (ground (arith, k)) in
    and_then_keeps (λ (x : Progress). x.disk q) (p.disk q) first
      (scan_owned_dirs h managed rest first.0) kept
      (scan_owned_dirs-spares h managed q rest first.0 (ground (arith, k)) ∙ kept)

-- Whether or not a scan ends with an error, it leaves every file that is managed or is not picolet's:
-- one outside the quadlets' and the two data directories, unless it has the marker at its head and lies
-- in the shared directory.
pub scan_spares :
    (s : Scanner) (h : Host) (managed : GoMap ManagedFile) (disk : Disk) (q : String)
    → (is_picolets s h disk q && not (has q managed)) ≡ false
    → (scan s h managed disk).0.disk q ≡ disk q
unfolding scan scan_shared
scan_spares s h managed disk q foreign =
    let begin = nothing_removed disk in
    let owned = scan_owned_dirs h managed (owned_dirs s) begin in
    let marked = scan_marked_dir h managed s.systemd_dir (h.read_dir s.systemd_dir) owned.0 in
    let secrets = scan_secrets h managed h.managed_secrets marked.0 in
    let at_q = λ (x : Progress). x.disk q in
    let outside : (is_owned h q (owned_dirs s) && not (has q managed)) ≡ false =
      ap (λ dirs. is_owned h q dirs && not (has q managed)) (owned_dirs_lem s)
      ∙ ground (arith, foreign) in
    let owned_same : owned.0.disk q ≡ disk q =
      scan_owned_dirs-spares h managed q (owned_dirs s) begin outside in
    let marked_same : marked.0.disk q ≡ disk q =
      scan_marked_dir-disk h managed s.systemd_dir q (h.read_dir s.systemd_dir) owned.0
      ∙ ap
          (λ (c : Option String).
            unless
              (lists s.systemd_dir q (entries_of (h.read_dir s.systemd_dir))
                && is_marked h q c
                && may_remove h managed q)
              c)
          owned_same
      ∙ unless_cong {b = false} (disk q) (ground (arith, foreign)) in
    and_then_keeps at_q (disk q) owned (and_then marked secrets) owned_same (
      and_then_keeps at_q (disk q) marked secrets marked_same
        (scan_secrets-disk h managed q h.managed_secrets marked.0 ∙ marked_same))

-- Whether or not a scan ends with an error, it removes no secret that is managed, that Podman does not
-- list as picolet's, or that Podman does not let go.
pub scan_spares_secrets :
    (s : Scanner) (h : Host) (managed : GoMap ManagedFile) (disk : Disk) (n : String)
    → (contains n (or_none h.managed_secrets) && may_remove_secret h managed n) ≡ false
    → contains n (scan s h managed disk).0.gone_secrets ≡ false
unfolding scan scan_shared
scan_spares_secrets s h managed disk n kept =
    let begin = nothing_removed disk in
    let owned = scan_owned_dirs h managed (owned_dirs s) begin in
    let marked = scan_marked_dir h managed s.systemd_dir (h.read_dir s.systemd_dir) owned.0 in
    let secrets = scan_secrets h managed h.managed_secrets marked.0 in
    let at_n = λ (x : Progress). contains n x.gone_secrets in
    let owned_secrets : contains n owned.0.gone_secrets ≡ false =
      ap (contains n) (scan_owned_dirs-secrets h managed (owned_dirs s) begin) in
    let marked_secrets : contains n marked.0.gone_secrets ≡ false =
      ap (contains n)
        (scan_marked_dir-secrets h managed s.systemd_dir (h.read_dir s.systemd_dir) owned.0)
      ∙ owned_secrets in
    let last_secrets : contains n secrets.0.gone_secrets ≡ false =
      scan_secrets-secrets h managed n h.managed_secrets marked.0
      ∙ ground (arith, marked_secrets, kept) in
    and_then_keeps at_n false owned (and_then marked secrets) owned_secrets
      (and_then_keeps at_n false marked secrets marked_secrets last_secrets)
