-- ===== src/Status.antt =====
-- pkg/status/status.go: the store of what the agent knows of its units, runs and events. A time is a
-- number of nanoseconds since Go's zero time. The store's lock makes each operation one step, and a
-- copy that an operation takes is the value itself.
pub mod Ops
pub mod Ring
pub mod Runs
pub mod LastSuccess
mod Tests
use picolet.Prelude.{
  ℕ, ◌+◌, ◌-◌, ◌%◌, String, Bool, true, false, not, ◌&&◌, Option, none, some, List, [], ◌∷◌, ◌++◌,
  ◌==◌, if◌then◌else◌, eqb, leb, ltb, length, drop, contains, or_else,
}
use picolet.GoMap.{GoMap, get, put, remove}

pub record UnitRuntimeStatus : Type 0 where
  pub active_state : String
  pub sub_state : String

pub record UnitDependencies : Type 0 where
  pub requires : List String
  pub wants : List String
  pub after : List String
  pub before : List String
  pub binds_to : List String
  pub part_of : List String

pub record HostMetadata : Type 0 where
  pub role : String
  pub features : List String
  pub external_hostname : String
  pub machine : String
  pub user : String

pub record OrphanScan : Type 0 where
  pub ran : Bool
  pub files_removed : ℕ
  pub secrets_removed : ℕ
  pub error : String

pub record PruneStatus : Type 0 where
  pub last_run_at : ℕ
  pub images_removed : ℕ
  pub reclaimed_bytes : ℕ
  pub last_error_at : ℕ
  pub error : String

-- A health pass's view of a unit's last run.
pub record RunObservation : Type 0 where
  pub started_at : ℕ
  pub finished_at : ℕ
  pub outcome : String
  pub triggered_at : ℕ

pub record UnitRun : Type 0 where
  pub observed : RunObservation
  pub succeeded_at : ℕ

pub record SecretProvider : Type 0 where
  pub managed : Option ℕ
  pub syncs : ℕ
  pub last_sync_at : ℕ
  pub credential_expires_at : ℕ

pub record ReconcileEvent : Type 0 where
  pub at : ℕ
  pub outcome : String
  pub sha : String
  pub message : String

pub record Snapshot : Type 0 where
  pub units : GoMap UnitRuntimeStatus
  pub runs : GoMap UnitRun
  pub dependencies : GoMap UnitDependencies
  pub host : HostMetadata
  pub orphan_scan : OrphanScan
  pub prune : PruneStatus
  pub events : List ReconcileEvent
  pub verified_at : ℕ
  pub bootstrapped : Bool

-- The counts of managed files by category are whole numbers, which Go keeps as `float64`.
pub record Store : Type 0 where
  pub snapshot : Snapshot
  pub event_limit : ℕ
  pub secret_providers : GoMap SecretProvider
  pub failed_sha_count : ℕ
  pub files_managed : GoMap ℕ

abbrev pub zero_run : UnitRun
zero_run = record {
  observed = record { started_at = 0; finished_at = 0; outcome = ""; triggered_at = 0 };
  succeeded_at = 0;
}

abbrev pub zero_provider : SecretProvider
zero_provider = record { managed = none; syncs = 0; last_sync_at = 0; credential_expires_at = 0 }

abbrev pub default_event_limit : ℕ
default_event_limit = 50

abbrev pub empty_snapshot : Snapshot
empty_snapshot = record {
  units = [];
  runs = [];
  dependencies = [];
  host = record { role = ""; features = []; external_hostname = ""; machine = ""; user = "" };
  orphan_scan = record { ran = false; files_removed = 0; secrets_removed = 0; error = "" };
  prune = record {
    last_run_at = 0;
    images_removed = 0;
    reclaimed_bytes = 0;
    last_error_at = 0;
    error = "";
  };
  events = [];
  verified_at = 0;
  bootstrapped = false;
}

abbrev pub new_store : Store
new_store = record {
  snapshot = empty_snapshot;
  event_limit = default_event_limit;
  secret_providers = [];
  failed_sha_count = 0;
  files_managed = [];
}

unfoldable pub is_empty_dependencies : UnitDependencies → Bool
is_empty_dependencies d =
    eqb
      (length d.requires
        + length d.wants
        + length d.after
        + length d.before
        + length d.binds_to
        + length d.part_of)
      0

abbrev pub with_snapshot : Snapshot → Store → Store
with_snapshot snap s = record s { snapshot = snap }

abbrev pub with_runs : GoMap UnitRun → Store → Store
with_runs runs s = record s { snapshot = record s.snapshot { runs = runs } }

abbrev pub set_units : GoMap UnitRuntimeStatus → Store → Store
set_units units s = with_snapshot (record s.snapshot { units = units }) s

abbrev pub set_unit : String → UnitRuntimeStatus → Store → Store
set_unit unit st s = with_snapshot (record s.snapshot { units = put unit st s.snapshot.units }) s

abbrev pub delete_unit : String → Store → Store
delete_unit unit s = with_snapshot (record s.snapshot { units = remove unit s.snapshot.units }) s

abbrev pub clear_units : Store → Store
clear_units s = with_snapshot (record s.snapshot { units = [] }) s

-- The observation shows a run that ended since the previous one, with no run in flight, and ended well.
unfoldable pub newly_succeeded : RunObservation → UnitRun → Bool
newly_succeeded obs prev =
    not (eqb obs.finished_at prev.observed.finished_at)
    && not (ltb obs.finished_at obs.started_at)
    && obs.outcome == "success"

-- The record that an observation leaves in place of the previous one.
unfoldable pub observed_run : RunObservation → UnitRun → UnitRun
unfolding newly_succeeded
observed_run obs prev = record {
  observed = if eqb obs.started_at 0 then record obs { outcome = "" } else obs;
  succeeded_at = if newly_succeeded obs prev then obs.finished_at else prev.succeeded_at;
}

unfoldable pub observe_run : String → RunObservation → Store → Store
unfolding observed_run get put
observe_run unit obs s =
    let prev = or_else (get unit s.snapshot.runs) zero_run in
    with_runs (put unit (observed_run obs prev) s.snapshot.runs) s

unfoldable pub keep_runs : List String → GoMap UnitRun → GoMap UnitRun
keep_runs keep [] = []
keep_runs keep ((unit, run) ∷ rest) =
    let others = keep_runs keep rest in if contains unit keep then (unit, run) ∷ others else others

unfoldable pub prune_runs : List String → Store → Store
unfolding keep_runs
prune_runs keep s = with_runs (keep_runs keep s.snapshot.runs) s

abbrev pub set_dependencies : GoMap UnitDependencies → Store → Store
set_dependencies deps s =
    with_snapshot (record s.snapshot { dependencies = deps; bootstrapped = true }) s

abbrev pub set_host : HostMetadata → Store → Store
set_host host s = with_snapshot (record s.snapshot { host = host }) s

abbrev pub set_orphan_scan : OrphanScan → Store → Store
set_orphan_scan scan s = with_snapshot (record s.snapshot { orphan_scan = scan }) s

abbrev pub set_prune : PruneStatus → Store → Store
set_prune prune s = with_snapshot (record s.snapshot { prune = prune }) s

abbrev pub set_verified_at : ℕ → Store → Store
set_verified_at t s = with_snapshot (record s.snapshot { verified_at = t }) s

abbrev pub limit_of : Store → ℕ
limit_of s = if leb s.event_limit 0 then default_event_limit else s.event_limit

-- The events past the limit go, the oldest first; subtraction stops at 0, where nothing goes.
unfoldable pub add_event : ReconcileEvent → Store → Store
add_event event s =
    let events = s.snapshot.events ++ event ∷ [] in
    with_snapshot (record s.snapshot { events = drop (length events - limit_of s) events }) s

abbrev pub update_secret_provider : String → (SecretProvider → SecretProvider) → Store → Store
update_secret_provider provider update s = record s {
  secret_providers =
      put provider (update (or_else (get provider s.secret_providers) zero_provider))
        s.secret_providers;
}

abbrev pub set_secrets_managed : String → ℕ → Store → Store
set_secrets_managed provider count =
    update_secret_provider provider (λ p. record p { managed = some count })

-- The counter is a `uint64`.
abbrev pub record_secret_sync : String → ℕ → Store → Store
record_secret_sync provider at =
    update_secret_provider provider
      (λ p. record p { syncs = (p.syncs + 1) % 18_446_744_073_709_551_616; last_sync_at = at })

abbrev pub set_credential_expiry : String → ℕ → Store → Store
set_credential_expiry provider expires_at =
    update_secret_provider provider (λ p. record p { credential_expires_at = expires_at })

abbrev pub set_failed_sha_count : ℕ → Store → Store
set_failed_sha_count n s = record s { failed_sha_count = n }

abbrev pub set_files_managed : GoMap ℕ → Store → Store
set_files_managed by_category s = record s { files_managed = by_category }
