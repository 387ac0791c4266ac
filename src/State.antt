-- ===== src/State.antt =====
-- pkg/state/state.go: the persisted reconciliation state. A time is a number of nanoseconds since
-- Go's zero time, so 0 is `time.Time{}` and `Truncate` drops the rest of a division; a nil map is an
-- empty one, which Go's reads and `maps.Equal` do not tell apart. Counters are Go ints that go up by
-- one a tick, far below 2^63.
use picolet.Prelude.{ℕ, String, Bool, false, ◌-◌, ◌%◌, []}
use picolet.GoMap.{GoMap}
use picolet.Config.Category.{Category}

-- A managed file's content hash and category.
pub record ManagedFile : Type 0 where
  pub hash : String
  pub category : Category
  pub sops_values : Bool

-- The record that Go reads at a path which the map lacks.
abbrev pub zero_managed_file : ManagedFile
zero_managed_file = record { hash = ""; category = Category.unlisted ""; sops_values = false }

-- A managed unit whose last restart attempt failed.
pub record PendingUnit : Type 0 where
  pub sha : String
  pub attempts : ℕ
  pub first_failed_at : ℕ
  pub last_attempt_at : ℕ

pub record State : Type 0 where
  pub applied_sha : String
  pub applied_at : ℕ
  pub managed_files : GoMap ManagedFile
  pub service_names : GoMap String
  pub failed_sha : String
  pub failed_count : ℕ
  pub failed_at : ℕ
  pub last_successful_at : ℕ
  pub last_pruned_at : ℕ
  pub pending_hooks : GoMap ℕ
  pub pending_units : GoMap PendingUnit

unfoldable pub new_state : State
new_state = record {
  applied_sha = "";
  applied_at = 0;
  managed_files = [];
  service_names = [];
  failed_sha = "";
  failed_count = 0;
  failed_at = 0;
  last_successful_at = 0;
  last_pruned_at = 0;
  pending_hooks = [];
  pending_units = [];
}

-- `t.Truncate(time.Second)`
abbrev pub truncate_second : ℕ → ℕ
truncate_second t = t - t % 1_000_000_000

-- Forget the failed SHA; the cleared SHA and its count come back.
unfoldable pub clear_failure_gate : State → State × (String × ℕ)
clear_failure_gate s =
    (record s { failed_sha = ""; failed_count = 0; failed_at = 0 }, (s.failed_sha, s.failed_count))

unfoldable pub mark : String → ℕ → State → State
unfolding clear_failure_gate
mark head_sha now s = (clear_failure_gate (record s { applied_sha = head_sha; applied_at = now })).0

-- A fully successful reconciliation: the time of success goes on too.
unfoldable pub mark_applied : String → ℕ → State → State
unfolding mark
mark_applied head_sha now s =
    let t = mark head_sha now s in record t { last_successful_at = t.applied_at }

-- An apply that did not converge: the SHA is recorded, the time of success is not.
unfoldable pub mark_applied_incomplete : String → ℕ → State → State
unfolding mark
mark_applied_incomplete head_sha now s = mark head_sha now s
