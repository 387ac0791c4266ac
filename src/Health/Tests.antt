-- ===== src/Health/Tests.antt =====
-- The theorems of this component at a small fleet.
use picolet.Prelude.{
  ℕ, ◌*◌, String, ◌≡◌, refl, true, false, ◌&&◌, ◌||◌, ◌==◌, none, some, [], ◌∷◌, if◌then◌else◌,
  arith, ltb, eqb, contains, any, length, sort,
}
use picolet.GoMap.{GoMap, get}
use picolet.Config.Category.{spec_for}
use picolet.State.{State, new_state}
use picolet.Systemd.{UnitStatus, timer_triggered_oneshot, is_passive_unit, externally_activated}
use picolet.Health.{
  Env, enforce, begin, unit_names, all_failed, timer_job_units, activity, files_restartable,
  cooling, restore_restarts, prune_restarts,
}
use picolet.Health.Tally.{reported, answering}
use picolet.Health.Classes.{well, at_rest, unwell, answers, enforce_classes}
use picolet.Health.Outcome.{will_restart, is_due, pending_after, enforce_outcome}
use picolet.Health.Cooldown.{cooldown_survives}
use picolet.Health.Jobs.{fires, timer_job_units_exact}

abbrev status_in : String → UnitStatus
status_in active_state = record {
  active_state = active_state;
  sub_state = "";
  unit_file_state = "generated";
  triggered_by = [];
  service_type = "simple";
  result = "success";
  last_run_started_at = 0;
  last_run_finished_at = 0;
  last_trigger_at = 0;
}

abbrev minute : ℕ
minute = 60_000_000_000

-- `db` runs, `web` has failed and cannot be restarted, `lost` does not answer.
abbrev world : ℕ → Env
world now = record {
  status_of = λ u.
      if u == "db.service"
      then some (status_in "active")
      else if u == "web.service"
      then some (status_in "failed")
      else none;
  restarts = λ u. false;
  asked_at = λ u. now;
  restarted_at = λ u. now;
}

abbrev fleet : State
fleet = record new_state {
  service_names =
      ("/q/web.container", "web.service")
      ∷ ("/q/db.container", "db.service")
      ∷ ("/q/lost.container", "lost.service")
      ∷ [];
}

enforce_classes_example :
    let r = (enforce (world minute) fleet []).2 in
    let units = unit_names fleet.service_names in
    let status = (world minute).status_of "web.service" in
    (contains "web.service" r.healthy
      ≡ (contains "web.service" units && answers well "web.service" status))
    × (contains "web.service" r.inactive
        ≡ (contains "web.service" units && answers at_rest "web.service" status))
    × (contains "web.service" r.unhealthy
        ≡ (contains "web.service" units && answers unwell "web.service" status))
    × (r.managed ≡ sort units)
    × (reported r ≡ answering (world minute) r.managed)
    × (all_failed r ≡ (ltb 0 (length r.managed) && eqb (answering (world minute) r.managed) 0))
enforce_classes_example = enforce_classes (world minute) fleet [] "web.service"

web_fails :
    will_restart
      (world minute)
      fleet
      "web.service"
      (get "web.service" fleet.pending_units)
      (get "web.service" (begin fleet []).last_restart)
    ≡ true
unfolding will_restart begin is_due is_passive_unit activity externally_activated files_restartable
    spec_for get new_state cooling restore_restarts prune_restarts
web_fails = refl

cooldown_survives_example :
    contains "web.service"
      (enforce (world (3 * minute)) (enforce (world minute) fleet []).1 []).2.restarted
    ≡ false
unfolding unit_names
cooldown_survives_example =
    cooldown_survives (world minute) (world (3 * minute)) fleet [] [] "web.service" refl web_fails
      refl (omega arith) (omega arith)

abbrev jobs : GoMap UnitStatus
jobs =
    (
      "job.service",
      record (status_in "inactive") { service_type = "oneshot"; triggered_by = "job.timer" ∷ [] },
    )
    ∷ ("job.timer", status_in "active")
    ∷ []

timer_job_units_exact_example : contains "job.timer" (timer_job_units jobs) ≡ (
    any (λ j. "job.timer" == j.0 && timer_triggered_oneshot j.1) jobs
    || fires jobs jobs "job.timer")
timer_job_units_exact_example = timer_job_units_exact jobs "job.timer"

enforce_outcome_example :
    let (last', st', r) = enforce (world minute) fleet [] in
    let last = get "web.service" (begin fleet []).last_restart in
    let managed = contains "web.service" (unit_names fleet.service_names) in
    let pending = if managed then get "web.service" fleet.pending_units else none in
    (contains "web.service" r.restarted
      ≡ (managed && will_restart (world minute) fleet "web.service" pending last && false))
    × (get "web.service" last' ≡ (
        if managed && will_restart (world minute) fleet "web.service" pending last
        then some minute
        else last))
    × (get "web.service" st'.pending_units
        ≡ (if managed then pending_after (world minute) fleet "web.service" pending last else none))
enforce_outcome_example = enforce_outcome (world minute) fleet [] "web.service"
