-- ===== src/Agent/Gate.antt =====
-- `tick` of pkg/agent/agent.go: which work a tick does, and the count of failures on one SHA. The
-- clock counts nanoseconds from a past point that all its readings share.
pub mod Failures
use picolet.Prelude.{
  ℕ, ◌+◌, ◌-◌, ◌*◌, String, Bool, true, false, not, ◌&&◌, ◌||◌, List, [], ◌∷◌, ◌==◌, if◌then◌else◌,
  ltb, leb,
}
use picolet.GoMap.{GoMap}
use picolet.State.{State}
use picolet.Applier.Hooks.{is_empty}

-- `maxRetries` and `failedSHAExpiry` of `tick`: three failures, one hour.
abbrev pub max_retries : ℕ
max_retries = 3

abbrev pub failed_sha_expiry : ℕ
failed_sha_expiry = 3_600 * 1_000_000_000

-- What the tick has found out after the poll: whether the SHA is new, and whether a provider of secrets
-- is due.
pub record Poll : Type 0 where
  pub head_sha : String
  pub changed : Bool
  pub op_refresh_due : Bool
  pub pp_refresh_due : Bool

pub data Work : Type 0 where
  nothing_to_do units_still_pending held_back reconcile : Work

-- The SHA has failed too often, too recently.
unfoldable pub is_held_back : String → ℕ → State → Bool
is_held_back head_sha now st =
    head_sha == st.failed_sha
    && leb max_retries st.failed_count
    && ltb (now - st.failed_at) failed_sha_expiry

-- The early returns of `tick` after the poll.
unfoldable pub work_of : Poll → ℕ → State → Work
unfolding is_held_back
work_of poll now st =
    let due = poll.changed || poll.op_refresh_due || poll.pp_refresh_due in
    if not due && is_empty st.pending_hooks && is_empty st.pending_units
    then nothing_to_do
    else if not due && is_empty st.pending_hooks
    then units_still_pending
    else if is_held_back poll.head_sha now st
    then held_back
    else reconcile

-- The state that `tick` saves after a failed reconciliation.
unfoldable pub record_failure : String → ℕ → State → State
record_failure head_sha now st = record st {
  failed_sha = head_sha;
  failed_count = if st.failed_sha == head_sha then st.failed_count + 1 else 1;
  failed_at = now;
}
