-- ===== src/Health.antt =====
-- pkg/health/health.go: the pass that keeps managed units active. systemd is the environment: what
-- each unit's status query returns (`none` is an error), whether its restart succeeds, and the two
-- instants at which the pass reads the clock for it. A pass queries a unit at most once, so
-- functions of the unit's name give every behaviour that systemd can show to one pass.
pub mod Tally
pub mod Classes
pub mod Outcome
pub mod Cooldown
pub mod Jobs
mod Tests
use picolet.Prelude.{
  ℕ, ◌+◌, ◌-◌, ◌*◌, String, Bool, true, false, not, ◌&&◌, ◌||◌, Option, none, some, List, [], ◌∷◌,
  ◌++◌, ◌==◌, if◌then◌else◌, ltb, eqb, or_else, is_some, any, length, contains, add, sort,
}
use picolet.GoMap.{GoMap, get, put, remove, has, keys}
use picolet.Config.Category.{
  Category, Spec, HealthClass, health_none, health_daemon, health_report_only, RestartPolicy,
  restart_changed, spec_for,
}
use picolet.State.{State, ManagedFile, PendingUnit, truncate_second, zero_managed_file}
use picolet.Systemd.{
  UnitStatus, is_passive_unit, is_timer_unit, timer_triggered_oneshot, externally_activated,
}

-- Five minutes.
abbrev pub restart_cooldown : ℕ
restart_cooldown = 300 * 1_000_000_000

pub record Env : Type 0 where
  pub status_of : String → Option UnitStatus
  pub restarts : String → Bool
  -- The clock when the cooldown is asked, and when the restart begins.
  pub asked_at : String → ℕ
  pub restarted_at : String → ℕ

pub data HealthError : Type 0 where
  status_failed : String → HealthError
  restart_failed : String → HealthError

pub record CheckResult : Type 0 where
  pub healthy : List String
  pub unhealthy : List String
  pub inactive : List String
  pub restarted : List String
  pub skipped : List String
  pub external : List String
  pub timer_jobs : List String
  pub managed : List String
  pub errors : List HealthError
  pub statuses : GoMap UnitStatus

-- What a pass changes: the checker's restart times, the state's pending units, the result.
pub record Pass : Type 0 where
  pub last_restart : GoMap ℕ
  pub pending : GoMap PendingUnit
  pub report : CheckResult

-- Every check errored, and some unit was checked.
unfoldable pub all_failed : CheckResult → Bool
all_failed r =
    let total = length r.healthy + length r.unhealthy + length r.inactive + length r.errors in
    ltb 0 total && eqb (length r.errors) total

-- `units`: the distinct unit names of the state.
unfoldable pub unit_names : GoMap String → List String
unit_names [] = []
unit_names ((path, name) ∷ rest) =
    let others = unit_names rest in if name == "" then others else add name others

unfoldable pub prune_restarts : List String → GoMap ℕ → GoMap ℕ
prune_restarts units [] = []
prune_restarts units ((u, t) ∷ rest) =
    let others = prune_restarts units rest in if contains u units then (u, t) ∷ others else others

unfoldable pub prune_pending : List String → GoMap PendingUnit → GoMap PendingUnit
prune_pending units [] = []
prune_pending units ((u, p) ∷ rest) =
    let others = prune_pending units rest in if contains u units then (u, p) ∷ others else others

-- The cooldowns that the pending records of managed units carry over an agent restart.
unfoldable pub restore_restarts : List String → GoMap PendingUnit → GoMap ℕ → GoMap ℕ
restore_restarts units [] last = last
restore_restarts units ((u, p) ∷ rest) last = restore_restarts units rest (
    if contains u units && ltb (or_else (get u last) 0) p.last_attempt_at
    then put u p.last_attempt_at last
    else last)

abbrev pub is_restart_changed : RestartPolicy → Bool
is_restart_changed restart_changed = true
is_restart_changed _ = false

-- The loop may restart a unit that a file of this category backs.
unfoldable pub class_restartable : Bool → Option Spec → Bool
class_restartable apply_pending none = true
class_restartable apply_pending (some spec) = elim spec.health [
  | health_daemon ↦ true
  | health_report_only ↦ apply_pending && is_restart_changed spec.restart
  | health_none ↦ false
]

unfoldable pub files_restartable : String → Bool → GoMap String → GoMap ManagedFile → Bool
unfolding class_restartable
files_restartable unit apply_pending [] files = true
files_restartable unit apply_pending ((path, name) ∷ rest) files =
    let others = files_restartable unit apply_pending rest files in
    if not (name == unit)
    then others
    else if class_restartable apply_pending
        (spec_for (or_else (get path files) zero_managed_file).category)
    then others
    else false

unfoldable pub restartable_by_health : String → State → GoMap PendingUnit → Bool
unfolding files_restartable
restartable_by_health unit st pending =
    files_restartable unit (has unit pending) st.service_names st.managed_files

-- `recordPendingUnit`
unfoldable pub record_pending : String → String → ℕ → GoMap PendingUnit → GoMap PendingUnit
record_pending sha unit now pending =
    let pu =
      or_else (get unit pending)
        (record { sha = ""; attempts = 0; first_failed_at = 0; last_attempt_at = 0 }) in
    let at = truncate_second now in
    put unit
      (record {
        sha = sha;
        attempts = pu.attempts + 1;
        first_failed_at = if eqb pu.first_failed_at 0 then at else pu.first_failed_at;
        last_attempt_at = at;
      })
      pending

-- The cooldown of a unit still runs when the pass asks.
unfoldable pub cooling : ℕ → Option ℕ → Bool
cooling asked none = false
cooling asked (some last) = ltb (asked - last) restart_cooldown

restart_unit : Env → State → String → Pass → Pass
restart_unit env st unit p =
    let now = env.restarted_at unit in
    let q = record p { last_restart = put unit now p.last_restart } in
    if env.restarts unit
    then record q { report = record q.report { restarted = q.report.restarted ++ unit ∷ [] } }
    else record q {
      report = record q.report { errors = q.report.errors ++ restart_failed unit ∷ [] };
      pending = record_pending st.applied_sha unit now q.pending;
    }

unfoldable pub maybe_restart : Env → State → String → Pass → Pass
unfolding restart_unit
maybe_restart env st unit p =
    if cooling (env.asked_at unit) (get unit p.last_restart)
    then record p { report = record p.report { skipped = p.report.skipped ++ unit ∷ [] } }
    else restart_unit env st unit p

pub data Activity : Type 0 where
  running resting broken : Activity

-- The switch on `ActiveState`.
unfoldable pub activity : String → Activity
activity s =
    if s == "active" || s == "activating"
    then running
    else if s == "inactive" || s == "deactivating" || s == "reloading" || s == "maintenance"
    then resting
    else broken

settle_healthy : String → Pass → Pass
settle_healthy unit p = record p {
  report = record p.report { healthy = p.report.healthy ++ unit ∷ [] };
  pending = remove unit p.pending;
}

settle_inactive : String → Pass → Pass
settle_inactive unit p = record p {
  report = record p.report { inactive = p.report.inactive ++ unit ∷ [] };
  pending = remove unit p.pending;
}

settle_broken : Env → State → String → UnitStatus → Pass → Pass
settle_broken env st unit status p =
    let q = record p { report = record p.report { unhealthy = p.report.unhealthy ++ unit ∷ [] } } in
    if externally_activated status || not (restartable_by_health unit st q.pending)
    then record q {
      report = record q.report { external = q.report.external ++ unit ∷ [] };
      pending = remove unit q.pending;
    }
    else maybe_restart env st unit q

-- `enforceUnit` after the status query.
unfoldable pub enforce_status : Env → State → String → Option UnitStatus → Pass → Pass
unfolding settle_healthy settle_inactive settle_broken
enforce_status env st unit none p = record p {
  report = record p.report { errors = p.report.errors ++ status_failed unit ∷ [] };
}
enforce_status env st unit (some status) p =
    let q = record p {
      report = record p.report { statuses = put unit status p.report.statuses };
    } in
    if is_passive_unit unit
    then (if status.active_state == "active" || status.active_state == "activating"
        then settle_healthy unit q
        else settle_inactive unit q)
    else elim (activity status.active_state) [
      | running ↦ settle_healthy unit q
      | resting ↦ settle_inactive unit q
      | broken ↦ settle_broken env st unit status q
    ]

unfoldable pub enforce_unit : Env → State → String → Pass → Pass
enforce_unit env st unit p = enforce_status env st unit (env.status_of unit) p

unfoldable pub enforce_units : Env → State → List String → Pass → Pass
enforce_units env st [] p = p
enforce_units env st (u ∷ rest) p = enforce_units env st rest (enforce_unit env st u p)

queried_timers : GoMap UnitStatus → List String → List String → List String
queried_timers statuses [] tracked = tracked
queried_timers statuses (t ∷ rest) tracked =
    queried_timers statuses rest
      (if has t statuses && is_timer_unit t then add t tracked else tracked)

tracked_jobs : GoMap UnitStatus → GoMap UnitStatus → List String → List String
unfolding queried_timers
tracked_jobs statuses [] tracked = tracked
tracked_jobs statuses ((u, s) ∷ rest) tracked = tracked_jobs statuses rest (
    if timer_triggered_oneshot s
    then queried_timers statuses s.triggered_by (add u tracked)
    else tracked)

-- `timerJobUnits`
unfoldable pub timer_job_units : GoMap UnitStatus → List String
unfolding tracked_jobs
timer_job_units statuses = sort (tracked_jobs statuses statuses [])

abbrev pub empty_result : List String → CheckResult
empty_result managed = record {
  healthy = [];
  unhealthy = [];
  inactive = [];
  restarted = [];
  skipped = [];
  external = [];
  timer_jobs = [];
  managed = managed;
  errors = [];
  statuses = [];
}

-- The pass before its first unit: old restart times pruned, pending ones restored and pruned.
unfoldable pub begin : State → GoMap ℕ → Pass
begin st last_restart =
    let units = unit_names st.service_names in
    record {
      last_restart = restore_restarts units st.pending_units (prune_restarts units last_restart);
      pending = prune_pending units st.pending_units;
      report = empty_result (sort units);
    }

-- `Enforce`: the checker's restart times, the state, the result.
unfoldable pub enforce : Env → State → GoMap ℕ → GoMap ℕ × State × CheckResult
enforce env st last_restart =
    let p = enforce_units env st (sort (unit_names st.service_names)) (begin st last_restart) in
    (
      p.last_restart,
      record st { pending_units = p.pending },
      record p.report { timer_jobs = timer_job_units p.report.statuses },
    )
