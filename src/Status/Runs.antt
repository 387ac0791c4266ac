-- ===== src/Status/Runs.antt =====
-- pkg/status/status.go: the run records, which outlive what happens to the units' statuses.
use picolet.Prelude.{
  String, ◌≡◌, refl, ap, ◌∙◌, Option, none, some, List, [], ◌∷◌, ◌==◌, arith, if◌then◌else◌,
  contains, or_else, eq_iff, eq_sound, Bool-cases, inl, inr,
}
use picolet.GoMap.{GoMap, get, put, get-put}
use picolet.Status.{
  RunObservation, UnitRun, Store, zero_run, observed_run, observe_run, keep_runs, prune_runs,
  add_event,
}
use picolet.Status.Ops.{StoreOp, observe, prune_to, step, run_ops}

-- What an operation does to the record of one unit: its observation replaces it, and a pruning that
-- does not keep the unit drops it.
unfoldable pub follow_step : String → StoreOp → Option UnitRun → Option UnitRun
follow_step u (observe v obs) run =
    if v == u then some (observed_run obs (or_else run zero_run)) else run
follow_step u (prune_to keep) run = if contains u keep then run else none
follow_step u _ run = run

unfoldable pub follow : String → List StoreOp → Option UnitRun → Option UnitRun
unfolding follow_step
follow u [] run = run
follow u (op ∷ ops) run = follow u ops (follow_step u op run)

get-keep_runs :
    (u : String) (keep : List String) (runs : GoMap UnitRun)
    → get u (keep_runs keep runs) ≡ (if contains u keep then get u runs else none)
unfolding get keep_runs
get-keep_runs u keep [] = ground arith
get-keep_runs u keep ((v, run) ∷ rest) = ground (arith, get-keep_runs u keep rest, eq_iff u v)

get-observed :
    (u v : String) (obs : RunObservation) (runs : GoMap UnitRun)
    → get u (put v (observed_run obs (or_else (get v runs) zero_run)) runs)
      ≡ (if v == u then some (observed_run obs (or_else (get u runs) zero_run)) else get u runs)
get-observed u v obs runs =
    let run = λ (w : String). observed_run obs (or_else (get w runs) zero_run) in
    get-put u v (run v) runs ∙ (elim (Bool-cases (v == u)) [
      | inl same ↦ rw same (ap (λ w. some (run w)) (eq_sound v u same))
      | inr other ↦ rw other refl
    ])

-- The store keeps, for each unit, the record of that unit's own observations and prunings: setting,
-- deleting and clearing unit statuses and every other operation leave it.
pub runs_lem :
    (u : String) (ops : List StoreOp) (s : Store)
    → get u (run_ops ops s).snapshot.runs ≡ follow u ops (get u s.snapshot.runs)
unfolding run_ops follow follow_step step observe_run prune_runs add_event
runs_lem u [] s = refl
runs_lem u (observe v obs ∷ ops) s =
    runs_lem u ops (observe_run v obs s) ∙ ap (follow u ops) (get-observed u v obs s.snapshot.runs)
runs_lem u (prune_to keep ∷ ops) s =
    runs_lem u ops (prune_runs keep s) ∙ ap (follow u ops) (get-keep_runs u keep s.snapshot.runs)
runs_lem u (op ∷ ops) s = runs_lem u ops (step op s)
