-- ===== src/Agent/Pending/Units.antt =====
-- The records of units whose restart failed.
use picolet.Prelude.{
  ℕ, ◌+◌, String, ◌≡◌, refl, Option, none, some, List, [], ◌∷◌, ◌==◌, eq_iff, arith, if◌then◌else◌,
  or_else, contains, count_if, eqb,
}
use picolet.GoMap.{GoMap, get, put, remove, get-put, get-remove}
use picolet.State.{PendingUnit, truncate_second}
use picolet.Applier.Types.{ApplyResult}
use picolet.Agent.Pending.{
  clear_restarted, no_failure, failed_again, record_failed, merge_pending_units, is_managed,
  prune_pending_units,
}

get-clear_restarted :
    (u : String) (restarted : List String) (m : GoMap PendingUnit)
    → get u (clear_restarted restarted m) ≡ (if contains u restarted then none else get u m)
unfolding clear_restarted
get-clear_restarted u [] m = refl
get-clear_restarted u (r ∷ rest) m =
    ground
      (arith, get-clear_restarted u rest (remove r m), get-remove u r m, eq_iff u r, eq_iff r u)

-- How often a result names the unit.
abbrev pub times : String → List String → ℕ
times u units = count_if (λ v. u == v) units

-- The record after some failures in one apply.
abbrev pub failed_times : String → ℕ → ℕ → PendingUnit → PendingUnit
failed_times head_sha now n pu = record {
  sha = head_sha;
  attempts = pu.attempts + n;
  first_failed_at = if eqb pu.first_failed_at 0 then now else pu.first_failed_at;
  last_attempt_at = now;
}

abbrev pub after_failures : String → ℕ → ℕ → Option PendingUnit → Option PendingUnit
after_failures head_sha now n pu =
    if eqb n 0 then pu else some (failed_times head_sha now n (or_else pu no_failure))

after_failures_more :
    (head_sha : String) (now n : ℕ) (pu : Option PendingUnit)
    → after_failures head_sha now n (some (failed_again head_sha now (or_else pu no_failure)))
      ≡ after_failures head_sha now (1 + n) pu
after_failures_more head_sha now n pu = ground arith

get-record_failed :
    (u head_sha : String) (now : ℕ) (failed : List String) (m : GoMap PendingUnit)
    → get u (record_failed head_sha now failed m)
      ≡ after_failures head_sha now (times u failed) (get u m)
unfolding record_failed
get-record_failed u head_sha now [] m = refl
get-record_failed u head_sha now (f ∷ rest) m =
    let pu = failed_again head_sha now (or_else (get f m) no_failure) in
    ground (
      arith,
      get-record_failed u head_sha now rest (put f pu m),
      get-put u f pu m,
      eq_iff u f,
      eq_iff f u,
      after_failures_more head_sha now (times u rest) (get u m),
    )

-- After an apply the record of a unit is the old one, or none where the unit restarted; and each
-- failed restart of the unit counts once in it, with the SHA and the second of the apply, the first
-- failure's time staying.
pub merge_pending_units_lem :
    (u head_sha : String) (now : ℕ) (old : GoMap PendingUnit) (res : ApplyResult)
    → get u (merge_pending_units old res head_sha now)
      ≡ after_failures head_sha
          (truncate_second now)
          (times u res.failed_restart_units)
          (if contains u res.restarted_units then none else get u old)
unfolding merge_pending_units
merge_pending_units_lem u head_sha now old res =
    rw
      (
        get-record_failed u head_sha (truncate_second now) res.failed_restart_units
            (clear_restarted res.restarted_units old),
        get-clear_restarted u res.restarted_units old,
      )
      refl

-- Pruning keeps exactly the records of units that some managed file names.
pub prune_pending_units_lem :
    (u : String) (names : GoMap String) (pending : GoMap PendingUnit)
    → get u (prune_pending_units names pending)
      ≡ (if is_managed u names then get u pending else none)
unfolding prune_pending_units get
prune_pending_units_lem u names [] = ground arith
prune_pending_units_lem u names ((v, pu) ∷ rest) =
    ground (arith, prune_pending_units_lem u names rest, eq_iff u v)
