-- ===== src/Agent/Startup.antt =====
-- pkg/agent/agent.go: what the agent does once, before its first tick: the failure gate is cleared, and
-- the orphans are removed. `none` stands for a state file that cannot be loaded. Go's formatting of a
-- message and of an error is a parameter.
use picolet.Prelude.{
  ℕ, ◌≡◌, refl, String, Bool, true, false, not, ◌&&◌, Option, none, some, eqb, ltb, leb, ◌-◌, ◌||◌,
  if◌then◌else◌, or_default,
}
use picolet.State.{State, clear_failure_gate}
use picolet.Status.{Store, OrphanScan, add_event, set_failed_sha_count, set_orphan_scan}
use picolet.Disk.{Disk}
use picolet.Orphan.{Host, Scanner, ScanError, scan}

-- `recordEvent`
unfoldable pub record_event : ℕ → String → String → String → Store → Store
unfolding add_event
record_event now outcome sha message s =
    add_event (record { at = now; outcome = outcome; sha = sha; message = message }) s

-- The state file after the start, and the status store.
abbrev pub cleared : (ℕ → String) → ℕ → Bool → State → State × (String × ℕ) → Store → State × Store
cleared message now can_save before (st, (sha, failures)) s =
    if eqb failures 0 then (before, s) else if not can_save then (before, s) else (
      st,
      record_event now "failed_sha_gate_cleared" sha (message failures) (set_failed_sha_count 0 s),
    )

-- `clearFailureGateOnStartup`
unfoldable pub clear_failure_gate_on_startup :
    (ℕ → String) → ℕ → Bool → Option State → Store → Option State × Store
unfolding clear_failure_gate record_event
clear_failure_gate_on_startup message now can_save none s = (none, s)
clear_failure_gate_on_startup message now can_save (some before) s =
    let (saved, s') = cleared message now can_save before (clear_failure_gate before) s in
    (some saved, s')

abbrev error_text : (ScanError → String) → Option ScanError → String
error_text text none = ""
error_text text (some e) = text e

-- The directories, or the error that their resolution ends with.
pub data Dirs : Type 0 where
  resolved : Scanner → Dirs
  unresolved : String → Dirs

-- The overrides of the tests, before the directories of the host.
abbrev overridden : Scanner → Scanner → Scanner
overridden over dirs = record {
  quadlet_dir = or_default over.quadlet_dir dirs.quadlet_dir;
  systemd_dir = or_default over.systemd_dir dirs.systemd_dir;
  data_dir = or_default over.data_dir dirs.data_dir;
}

abbrev failed_scan : String → OrphanScan
failed_scan error = record { ran = true; files_removed = 0; secrets_removed = 0; error = error }

-- The scan, its report, and whether a daemon-reload follows.
unfoldable pub scan_and_report :
    (ScanError → String) → Scanner → Host → State → Disk → Store → Disk × (Store × Bool)
unfolding scan
scan_and_report text dirs h st disk s =
    let (p, err) = scan dirs h st.managed_files disk in
    let report : OrphanScan = record {
      ran = true;
      files_removed = p.files_removed;
      secrets_removed = p.secrets_removed;
      error = error_text text err;
    } in
    (p.disk, (set_orphan_scan report s, ltb 0 p.files_removed))

-- `scanOrphans`; the state file's error is a text.
unfoldable pub scan_orphans :
    (ScanError → String)
    → Bool
    → Scanner
    → Dirs
    → Host
    → String × Option State
    → Disk
    → Store
    → Disk × (Store × Bool)
unfolding scan_and_report
scan_orphans text true over dirs h loaded disk s = (disk, (s, false))
scan_orphans text false over (unresolved e) h loaded disk s =
    (disk, (set_orphan_scan (failed_scan e) s, false))
scan_orphans text false over (resolved dirs) h (e, none) disk s =
    (disk, (set_orphan_scan (failed_scan e) s, false))
scan_orphans text false over (resolved dirs) h (e, some st) disk s =
    scan_and_report text (overridden over dirs) h st disk s

-- `opRefreshDue` and `ppRefreshDue`: `configured` is that the provider has a reader.
unfoldable pub refresh_due : Bool → ℕ → ℕ → ℕ → Bool
refresh_due configured last_refresh interval now =
    configured && (eqb last_refresh 0 || leb interval (now - last_refresh))

refresh_tests : refresh_due true 0 60 5 ≡ true
unfolding refresh_due
refresh_tests = refl
