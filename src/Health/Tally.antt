-- ===== src/Health/Tally.antt =====
-- How many units a report lists, and when all of a pass has failed.
use picolet.Prelude.{
  ℕ, ◌+◌, String, ◌≡◌, refl, false, ◌&&◌, some, List, [], ◌∷◌, ◌++◌, if◌then◌else◌, arith, ltb, eqb,
  is_some, length, count_if, length-snoc, Option-cases, ◌∙◌, suc, inl, inr, sort,
}
use picolet.GoMap.{GoMap, put}
use picolet.State.{State}
use picolet.Systemd.{UnitStatus}
use picolet.Health.{
  Env, CheckResult, Pass, status_failed, all_failed, enforce_status, enforce_unit, enforce_units,
  enforce, begin, maybe_restart, unit_names, settle_broken,
}

-- The units that answered their query, as the report shows them.
abbrev pub reported : CheckResult → ℕ
reported r = length r.healthy + length r.unhealthy + length r.inactive

-- How many of the units answer.
abbrev pub answering : Env → List String → ℕ
answering env units = count_if (λ u. is_some (env.status_of u)) units

restart_tally :
    (env : Env) (st : State) (u : String) (p : Pass)
    → (reported (maybe_restart env st u p).report ≡ reported p.report)
      × ((maybe_restart env st u p).report.managed ≡ p.report.managed)
unfolding maybe_restart
restart_tally env st u p = ground arith

settle_broken_tally :
    (env : Env) (st : State) (u : String) (status : UnitStatus) (p : Pass)
    → (reported (settle_broken env st u status p).report ≡ reported p.report + 1)
      × ((settle_broken env st u status p).report.managed ≡ p.report.managed)
unfolding settle_broken
settle_broken_tally env st u status p =
    let q = record p { report = record p.report { unhealthy = p.report.unhealthy ++ u ∷ [] } } in
    ground (arith, length-snoc p.report.unhealthy u, restart_tally env st u q)

answer_tally :
    (env : Env) (st : State) (u : String) (status : UnitStatus) (p : Pass)
    → (reported (enforce_status env st u (some status) p).report ≡ reported p.report + 1)
      × ((enforce_status env st u (some status) p).report.managed ≡ p.report.managed)
unfolding enforce_status
answer_tally env st u status p =
    let q = record p { report = record p.report { statuses = put u status p.report.statuses } } in
    ground (
      arith,
      length-snoc p.report.healthy u,
      length-snoc p.report.inactive u,
      settle_broken_tally env st u status q,
    )

unit_tally :
    (env : Env) (st : State) (u : String) (p : Pass)
    → (reported (enforce_unit env st u p).report
        ≡ reported p.report + (if is_some (env.status_of u) then 1 else 0))
      × ((enforce_unit env st u p).report.managed ≡ p.report.managed)
      × (is_some (env.status_of u) ≡ false
          → length (enforce_unit env st u p).report.errors ≡ suc (length p.report.errors))
unfolding enforce_unit enforce_status
unit_tally env st u p = elim (Option-cases (env.status_of u)) [
  | inl failed ↦
      rw (failed, enforce_status)
        (omega arith, refl, λ _. length-snoc p.report.errors (status_failed u))
  | inr (status, e) ↦
      rw e ((answer_tally env st u status p).0, (answer_tally env st u status p).1, λ h. cc)
]

units_tally :
    (env : Env) (st : State) (units : List String) (p : Pass)
    → (reported (enforce_units env st units p).report ≡ reported p.report + answering env units)
      × ((enforce_units env st units p).report.managed ≡ p.report.managed)
      × (answering env units ≡ 0
          → length (enforce_units env st units p).report.errors
            ≡ length p.report.errors + length units)
unfolding enforce_units
units_tally env st [] p = (omega arith, refl, λ _. omega arith)
units_tally env st (u ∷ rest) p =
    let now = unit_tally env st u p in
    let later = units_tally env st rest (enforce_unit env st u p) in
    (omega (arith, now.0, later.0), later.1 ∙ now.1, λ h. ground (arith, now.2, later.2, h))

-- The report's managed units are the state's, sorted. The three lists together have as many entries as
-- there are managed units that answer their query; and `all_failed` holds exactly when there is a
-- managed unit and none answers, whatever restarts failed.
pub enforce_tally :
    (env : Env) (st : State) (last_restart : GoMap ℕ)
    → let r = (enforce env st last_restart).2 in
      (r.managed ≡ sort (unit_names st.service_names))
      × (reported r ≡ answering env r.managed)
      × (all_failed r ≡ (ltb 0 (length r.managed) && eqb (answering env r.managed) 0))
unfolding enforce begin all_failed
enforce_tally env st last_restart =
    let units = sort (unit_names st.service_names) in
    let t = units_tally env st units (begin st last_restart) in
    (t.1, rw t.1 (omega (arith, t.0)), rw t.1 (ground (arith, t.0, t.2)))
