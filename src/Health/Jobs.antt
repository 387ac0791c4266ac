-- ===== src/Health/Jobs.antt =====
-- The units with run bookkeeping: one-shots that a timer fires, and the queried timers that fire them.
use picolet.Prelude.{
  String, ◌≡◌, Bool, ◌&&◌, ◌||◌, ◌==◌, List, [], ◌∷◌, arith, contains, add, any, eq_iff,
  contains-sort,
}
use picolet.GoMap.{GoMap, has}
use picolet.Systemd.{UnitStatus, is_timer_unit, timer_triggered_oneshot}
use picolet.Health.{timer_job_units, tracked_jobs, queried_timers}

-- `v` is a timer that was queried and that fires one of the one-shots.
abbrev pub fires : GoMap UnitStatus → GoMap UnitStatus → String → Bool
fires statuses jobs v =
    has v statuses
    && is_timer_unit v
    && any (λ j. timer_triggered_oneshot j.1 && contains v j.1.triggered_by) jobs

abbrev is_job : GoMap UnitStatus → String → Bool
is_job jobs v = any (λ j. v == j.0 && timer_triggered_oneshot j.1) jobs

contains-queried_timers :
    (statuses : GoMap UnitStatus) (triggers tracked : List String) (v : String)
    → contains v (queried_timers statuses triggers tracked)
      ≡ (contains v tracked || (has v statuses && is_timer_unit v && contains v triggers))
unfolding queried_timers
contains-queried_timers statuses [] tracked v = ground arith
contains-queried_timers statuses (t ∷ rest) tracked v = ground (
  arith,
  contains-queried_timers statuses rest tracked v,
  contains-queried_timers statuses rest (add t tracked) v,
  eq_iff v t,
  eq_iff t v,
)

contains-tracked_jobs :
    (statuses jobs : GoMap UnitStatus) (tracked : List String) (v : String)
    → contains v (tracked_jobs statuses jobs tracked)
      ≡ (contains v tracked || is_job jobs v || fires statuses jobs v)
unfolding tracked_jobs
contains-tracked_jobs statuses [] tracked v = ground arith
contains-tracked_jobs statuses ((u, s) ∷ rest) tracked v =
    let more = queried_timers statuses s.triggered_by (add u tracked) in
    ground (
      arith,
      contains-tracked_jobs statuses rest tracked v,
      contains-tracked_jobs statuses rest more v,
      contains-queried_timers statuses s.triggered_by (add u tracked) v,
      eq_iff v u,
      eq_iff u v,
    )

-- A unit gets run bookkeeping exactly when it is a one-shot that a timer fires, or a timer with a
-- status of its own that fires such a one-shot.
pub timer_job_units_exact :
    (statuses : GoMap UnitStatus) (v : String)
    → contains v (timer_job_units statuses)
      ≡ (any (λ j. v == j.0 && timer_triggered_oneshot j.1) statuses || fires statuses statuses v)
unfolding timer_job_units
timer_job_units_exact statuses v = ground (
  arith,
  contains-sort v (tracked_jobs statuses statuses []),
  contains-tracked_jobs statuses statuses [] v,
)
