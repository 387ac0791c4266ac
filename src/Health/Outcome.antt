-- ===== src/Health/Outcome.antt =====
-- Which units a pass restarts, and what it leaves in the restart times and the pending units.
use picolet.Prelude.{
  ℕ, ◌+◌, String, ◌≡◌, refl, Bool, true, false, not, ◌&&◌, ◌||◌, ◌==◌, Option, none, some, List, [],
  ◌∷◌, if◌then◌else◌, arith, eqb, is_some, or_else, Bool-cases, inl, inr, sort, contains,
  contains-append, eq_iff, IsUnique, add, sort-IsUnique, contains-sort,
}
use picolet.GoMap.{GoMap, get, get-put, get-remove}
use picolet.State.{State, PendingUnit, truncate_second}
use picolet.Systemd.{UnitStatus, is_passive_unit, externally_activated}
use picolet.Health.{
  Env, Pass, enforce_status, Activity, broken, enforce_unit, enforce_units, enforce, begin,
  prune_pending, maybe_restart, unit_names, settle_broken, settle_healthy, settle_inactive,
  activity, cooling, restartable_by_health, files_restartable, record_pending,
}

abbrev pub is_broken : Activity → Bool
is_broken broken = true
is_broken _ = false

-- The unit is broken and picolet's to restart.
unfoldable pub is_due : State → String → UnitStatus → Bool → Bool
is_due st u s is_pending =
    not (is_passive_unit u)
    && is_broken (activity s.active_state)
    && not (externally_activated s)
    && files_restartable u is_pending st.service_names st.managed_files

-- The pass restarts the unit: it is due, and no cooldown runs.
unfoldable pub will_restart : Env → State → String → Option PendingUnit → Option ℕ → Bool
will_restart env st u pending last = elim (env.status_of u) [
  | none ↦ false
  | some s ↦ is_due st u s (is_some pending) && not (cooling (env.asked_at u) last)
]

-- The pending record after a failed restart.
unfoldable pub failed_again : String → ℕ → Option PendingUnit → PendingUnit
failed_again sha now old =
    let pu =
      or_else old (record { sha = ""; attempts = 0; first_failed_at = 0; last_attempt_at = 0 }) in
    record {
      sha = sha;
      attempts = pu.attempts + 1;
      first_failed_at =
          if eqb pu.first_failed_at 0 then truncate_second now else pu.first_failed_at;
      last_attempt_at = truncate_second now;
    }

-- The pending record that a pass leaves: kept where the query fails, where the cooldown holds the
-- restart back or where it succeeds, renewed where it fails, and dropped in all other cases.
unfoldable pub pending_after :
    Env → State → String → Option PendingUnit → Option ℕ → Option PendingUnit
pending_after env st u pending last = elim (env.status_of u) [
  | none ↦ pending
  | some s ↦
      if is_due st u s (is_some pending)
      then (if not (cooling (env.asked_at u) last) && not (env.restarts u)
          then some (failed_again st.applied_sha (env.restarted_at u) pending)
          else pending)
      else none
]

-- What one unit's check does to the entries of any unit `v`.
unit_effect :
    (env : Env) (st : State) (u : String) (p : Pass) (v : String)
    → (contains v (enforce_unit env st u p).report.restarted ≡ (
        contains v p.report.restarted
        || (v == u
            && will_restart env st u (get u p.pending) (get u p.last_restart)
            && env.restarts u)))
      × (get v (enforce_unit env st u p).last_restart ≡ (
          if v == u && will_restart env st u (get u p.pending) (get u p.last_restart)
          then some (env.restarted_at u)
          else get v p.last_restart))
      × (get v (enforce_unit env st u p).pending ≡ (
          if v == u
          then pending_after env st u (get u p.pending) (get u p.last_restart)
          else get v p.pending))
unfolding enforce_unit enforce_status maybe_restart settle_broken settle_healthy settle_inactive
    restartable_by_health record_pending is_due will_restart failed_again pending_after
unit_effect env st u p v =
    let pu = failed_again st.applied_sha (env.restarted_at u) (get u p.pending) in
    (
      ground (arith, contains-append v p.report.restarted (u ∷ [])),
      ground (arith, get-put v u (env.restarted_at u) p.last_restart, eq_iff u v, eq_iff v u),
      ground (arith, get-put v u pu p.pending, get-remove v u p.pending, eq_iff u v, eq_iff v u),
    )

units_effect :
    (env : Env) (st : State) (units : List String) (p : Pass) (v : String)
    → IsUnique units
    → (contains v (enforce_units env st units p).report.restarted ≡ (
        contains v p.report.restarted
        || (contains v units
            && will_restart env st v (get v p.pending) (get v p.last_restart)
            && env.restarts v)))
      × (get v (enforce_units env st units p).last_restart ≡ (
          if contains v units && will_restart env st v (get v p.pending) (get v p.last_restart)
          then some (env.restarted_at v)
          else get v p.last_restart))
      × (get v (enforce_units env st units p).pending ≡ (
          if contains v units
          then pending_after env st v (get v p.pending) (get v p.last_restart)
          else get v p.pending))
unfolding enforce_units
units_effect env st [] p v s = (ground arith, refl, refl)
units_effect env st (u ∷ rest) p v s =
    let now = unit_effect env st u p v in
    let later = units_effect env st rest (enforce_unit env st u p) v s.1 in
    elim (Bool-cases (v == u)) [
      | inl same ↦
          let e = (eq_iff v u).0 same in
          let gone : contains v rest ≡ false = rw e s.0 in
          (
            ground (arith, now, later.0, same, e, gone),
            ground (arith, now, later.1, same, e, gone),
            ground (arith, now, later.2, same, e, gone),
          )
      | inr other ↦ (
        ground (arith, now, later.0, other),
        ground (arith, now, later.1, other),
        ground (arith, now, later.2, other),
      )
    ]

contains-add :
    (v u : String) (units : List String) → contains v (add u units) ≡ (v == u || contains v units)
contains-add v u units = ground (arith, eq_iff v u)

unit_names-IsUnique : (names : GoMap String) → IsUnique (unit_names names)
unfolding unit_names
unit_names-IsUnique [] = tt
unit_names-IsUnique ((path, name) ∷ rest) = ground (arith, unit_names-IsUnique rest)

pub get-prune_pending :
    (units : List String) (v : String) (m : GoMap PendingUnit)
    → get v (prune_pending units m) ≡ (if contains v units then get v m else none)
unfolding prune_pending get
get-prune_pending units v [] = ground arith
get-prune_pending units v ((u, p) ∷ rest) =
    ground (arith, get-prune_pending units v rest, eq_iff v u)

-- For every unit `v`, with the pending record and the restart time that the pass begins with: it is
-- reported as restarted exactly when it is managed, the pass restarts it and the restart succeeds; its
-- restart time is renewed exactly when it is managed and restarted; its pending record is the one of
-- `pending_after` if it is managed, and gone if it is not.
pub enforce_outcome :
    (env : Env) (st : State) (last_restart : GoMap ℕ) (v : String)
    → let (last', st', r) = enforce env st last_restart in
      let last = get v (begin st last_restart).last_restart in
      let managed = contains v (unit_names st.service_names) in
      let pending = if managed then get v st.pending_units else none in
      (contains v r.restarted ≡ (managed && will_restart env st v pending last && env.restarts v))
      × (get v last' ≡ (
          if managed && will_restart env st v pending last
          then some (env.restarted_at v)
          else last))
      × (get v st'.pending_units ≡ (if managed then pending_after env st v pending last else none))
unfolding enforce
enforce_outcome env st last_restart v =
    let names = unit_names st.service_names in
    let p = begin st last_restart in
    let e =
      units_effect env st (sort names) p v
        (sort-IsUnique names (unit_names-IsUnique st.service_names)) in
    let pend : get v p.pending ≡ (if contains v names then get v st.pending_units else none) =
      unfold begin in get-prune_pending names v st.pending_units in
    let none_yet : contains v p.report.restarted ≡ false = unfold begin in refl in
    let same = contains-sort v names in
    (
      ground (arith, e.0, pend, none_yet, same),
      ground (arith, e.1, pend, same),
      ground (arith, e.2, pend, same),
    )
