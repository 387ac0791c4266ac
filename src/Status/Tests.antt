-- ===== src/Status/Tests.antt =====
-- The status store on concrete histories.
use picolet.Prelude.{
  ℕ, String, ◌-◌, none, ◌≡◌, ◌≤◌, refl, true, Option, some, List, [], ◌∷◌, length,
}
use picolet.GoMap.{get, put}
use picolet.Status.{
  RunObservation, UnitRun, new_store, observe_run, observed_run, newly_succeeded, prune_runs,
  keep_runs, add_event,
}
use picolet.Status.Ops.{StoreOp, observe, prune_to, no_units, event, step, run_ops}
use picolet.Status.Ring.{latest, added, events_lem}
use picolet.Status.Runs.{follow, runs_lem}
use picolet.Status.LastSuccess.{is_backed, clean_end, last_success_lem}

abbrev ended : ℕ → String → RunObservation
ended t outcome = record {
  started_at = t - 1;
  finished_at = t;
  outcome = outcome;
  triggered_at = 0;
}

-- A run that succeeds, a cleared pass, a failed run, and a pruning that keeps the job.
abbrev nights : List StoreOp
nights =
    observe "job.service" (ended 5 "success")
    ∷ no_units
    ∷ event (record { at = 6; outcome = "success"; sha = "a1"; message = "" })
    ∷ observe "job.service" (ended 9 "exit-code")
    ∷ prune_to ("job.service" ∷ [])
    ∷ []

abbrev last_success : Option UnitRun → ℕ
last_success none = 0
last_success (some run) = run.succeeded_at

keeps_last_success : last_success (get "job.service" (run_ops nights new_store).snapshot.runs) ≡ 5
unfolding run_ops step observe_run observed_run newly_succeeded prune_runs keep_runs add_event get
    put
keeps_last_success = refl

events_lem_example :
    (length (run_ops nights new_store).snapshot.events ≤ 50)
    × ((run_ops nights new_store).snapshot.events ≡ latest 50 (added nights))
events_lem_example = events_lem nights

runs_lem_example :
    get "job.service" (run_ops nights new_store).snapshot.runs
    ≡ follow "job.service" nights (get "job.service" new_store.snapshot.runs)
runs_lem_example = runs_lem "job.service" nights new_store

last_success_lem_example :
    is_backed
      (λ t. clean_end "job.service" t 0 nights)
      (get "job.service" (run_ops nights new_store).snapshot.runs)
    ≡ true
last_success_lem_example = last_success_lem "job.service" nights
