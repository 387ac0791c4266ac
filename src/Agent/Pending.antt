-- ===== src/Agent/Pending.antt =====
-- pkg/agent/agent.go: the hooks and units that wait for a retry. Retry counts go up by one a tick, far
-- below 2^63.
pub mod Hooks
pub mod Units
pub mod Budget
use picolet.Prelude.{
  ℕ, ◌+◌, String, Bool, true, false, not, ◌&&◌, Option, none, some, List, [], ◌∷◌, ◌==◌,
  if◌then◌else◌, eqb, leb, or_else, contains, sort,
}
use picolet.Prelude.Int.{ℤ, pos, negsuc}
use picolet.GoMap.{GoMap, get, put, remove, keys}
use picolet.Config.Hook.{Hook, default_max_retries}
use picolet.State.{PendingUnit, truncate_second}
use picolet.Applier.Types.{ApplyResult}

-- The old counts of the hooks that were not attempted.
unfoldable pub unattempted : List String → GoMap ℕ → GoMap ℕ
unattempted attempted [] = []
unattempted attempted ((name, count) ∷ rest) =
    let others = unattempted attempted rest in
    if contains name attempted then others else (name, count) ∷ others

unfoldable pub count_failures : GoMap ℕ → List String → GoMap ℕ → GoMap ℕ
count_failures old [] merged = merged
count_failures old (name ∷ rest) merged =
    count_failures old rest (put name (or_else (get name old) 0 + 1) merged)

-- `mergePendingHooks`
unfoldable pub merge_pending_hooks : GoMap ℕ → ApplyResult → GoMap ℕ
unfolding unattempted count_failures
merge_pending_hooks old res =
    count_failures old res.pending_hook_names (unattempted res.attempted_hook_names old)

-- `maxByName`: the last hook of a name counts.
unfoldable pub max_by_name : String → List Hook → Option ℤ
max_by_name name [] = none
max_by_name name (h ∷ rest) =
    let later = max_by_name name rest in
    elim later [ some n ↦ some n | none ↦ if name == h.name then some h.max_retries else none ]

-- The limit in force: the default in place of one that is not above zero.
unfoldable pub retry_limit : ℤ → ℕ
retry_limit (negsuc n) = default_max_retries
retry_limit (pos n) = if eqb n 0 then default_max_retries else n

abbrev pub exhausted_at : ℕ → Option ℤ → Bool
exhausted_at count none = false
exhausted_at count (some limit) = leb (retry_limit limit) count

-- The hook has used up its retries.
unfoldable pub exhausted : List Hook → String → ℕ → Bool
unfolding max_by_name retry_limit
exhausted hooks name count = exhausted_at count (max_by_name name hooks)

-- `enforceRetryBudget`
unfoldable pub enforce_retry_budget : List Hook → GoMap ℕ → GoMap ℕ
unfolding exhausted
enforce_retry_budget hooks [] = []
enforce_retry_budget hooks ((name, count) ∷ rest) =
    let others = enforce_retry_budget hooks rest in
    if exhausted hooks name count then others else (name, count) ∷ others

-- `pendingHookNames`
unfoldable pub pending_hook_names : GoMap ℕ → List String
pending_hook_names pending = sort (keys pending)

unfoldable pub clear_restarted : List String → GoMap PendingUnit → GoMap PendingUnit
clear_restarted [] merged = merged
clear_restarted (unit ∷ rest) merged = clear_restarted rest (remove unit merged)

abbrev pub no_failure : PendingUnit
no_failure = record { sha = ""; attempts = 0; first_failed_at = 0; last_attempt_at = 0 }

-- A unit's record after one more failed restart.
abbrev pub failed_again : String → ℕ → PendingUnit → PendingUnit
failed_again head_sha now pu = record {
  sha = head_sha;
  attempts = pu.attempts + 1;
  first_failed_at = if eqb pu.first_failed_at 0 then now else pu.first_failed_at;
  last_attempt_at = now;
}

unfoldable pub record_failed : String → ℕ → List String → GoMap PendingUnit → GoMap PendingUnit
record_failed head_sha now [] merged = merged
record_failed head_sha now (unit ∷ rest) merged =
    record_failed head_sha now rest
      (put unit (failed_again head_sha now (or_else (get unit merged) no_failure)) merged)

-- `mergePendingUnits`
unfoldable pub merge_pending_units :
    GoMap PendingUnit → ApplyResult → String → ℕ → GoMap PendingUnit
unfolding clear_restarted record_failed
merge_pending_units old res head_sha now =
    record_failed head_sha (truncate_second now) res.failed_restart_units
      (clear_restarted res.restarted_units old)

abbrev pub is_managed : String → GoMap String → Bool
is_managed unit [] = false
is_managed unit ((path, name) ∷ rest) = if unit == name then true else is_managed unit rest

-- `prunePendingUnits`
unfoldable pub prune_pending_units : GoMap String → GoMap PendingUnit → GoMap PendingUnit
prune_pending_units names [] = []
prune_pending_units names ((unit, pu) ∷ rest) =
    let others = prune_pending_units names rest in
    if is_managed unit names then (unit, pu) ∷ others else others
