-- ===== src/Health/Cooldown.antt =====
-- The restart cooldown holds between passes, also over a restart of the agent.
use picolet.Prelude.{
  ℕ, ◌+◌, ◌≤◌, ◌<◌, String, ◌≡◌, true, false, Option, some, List, [], ◌∷◌, arith, or_else, contains,
  eq_iff,
}
use picolet.GoMap.{GoMap, get, put, get-put}
use picolet.State.{State, PendingUnit, truncate_second}
use picolet.Health.{
  Env, enforce, begin, unit_names, cooling, restore_restarts, prune_restarts, restart_cooldown,
}
use picolet.Health.Outcome.{will_restart, pending_after, failed_again, enforce_outcome}

-- A restored restart time is not before the one in the pending record, nor before the old one.
restore_restarts_ge :
    (units : List String) (pending : GoMap PendingUnit) (last : GoMap ℕ) (v : String)
    → or_else (get v last) 0 ≤ or_else (get v (restore_restarts units pending last)) 0
unfolding restore_restarts
restore_restarts_ge units [] last v = omega arith
restore_restarts_ge units ((u, p) ∷ rest) last v =
    let last' = put u p.last_attempt_at last in
    ground (
      arith,
      restore_restarts_ge units rest last v,
      restore_restarts_ge units rest last' v,
      get-put v u p.last_attempt_at last,
      eq_iff u v,
      eq_iff v u,
    )

restore_restarts_pending :
    (units : List String) (pending : GoMap PendingUnit) (last : GoMap ℕ) (v : String)
    (pu : PendingUnit)
    → contains v units ≡ true
    → get v pending ≡ some pu
    → pu.last_attempt_at ≤ or_else (get v (restore_restarts units pending last)) 0
unfolding restore_restarts get
restore_restarts_pending units [] last v pu m h = cc
restore_restarts_pending units ((u, p) ∷ rest) last v pu m h =
    let last' = put u p.last_attempt_at last in
    ground (
      arith,
      restore_restarts_ge units rest last v,
      restore_restarts_ge units rest last' v,
      restore_restarts_pending units rest last v pu m,
      restore_restarts_pending units rest last' v pu m,
      get-put v u p.last_attempt_at last,
      eq_iff u v,
      eq_iff v u,
    )

-- No restart while the clock is within the cooldown of a pending record's last attempt.
pending_holds :
    (env : Env) (st : State) (last_restart : GoMap ℕ) (v : String) (pu : PendingUnit)
    → contains v (unit_names st.service_names) ≡ true
    → get v st.pending_units ≡ some pu
    → 0 < pu.last_attempt_at
    → env.asked_at v < pu.last_attempt_at + restart_cooldown
    → contains v (enforce env st last_restart).2.restarted ≡ false
pending_holds env st last_restart v pu m h pos early =
    let last = get v (begin st last_restart).last_restart in
    let late : pu.last_attempt_at ≤ or_else last 0 =
      unfold begin in
      restore_restarts_pending (unit_names st.service_names) st.pending_units
        (prune_restarts (unit_names st.service_names) last_restart) v pu m h in
    let cold : cooling (env.asked_at v) last ≡ true =
      unfold cooling in ground (arith, late, pos, early) in
    let kept : will_restart env st v (get v st.pending_units) last ≡ false =
      unfold will_restart in ground (arith, cold) in
    ground (arith, (enforce_outcome env st last_restart v).0, m, kept)

failed_restart_pending :
    (env : Env) (st : State) (v : String) (pending : Option PendingUnit) (last : Option ℕ)
    → will_restart env st v pending last ≡ true
    → env.restarts v ≡ false
    → pending_after env st v pending last
      ≡ some (failed_again st.applied_sha (env.restarted_at v) pending)
unfolding will_restart pending_after
failed_restart_pending env st v pending last w r = ground (arith, w, r)

-- A pass that restarts a managed unit in vain (and not in the first second of the clock) leaves a
-- pending record such that the next pass over the new state does not restart the unit before five
-- minutes have gone by since that attempt, taken in whole seconds: whatever restart times its checker
-- remembers, those of a new agent process included.
pub cooldown_survives :
    (env next : Env) (st : State) (last_restart remembered : GoMap ℕ) (v : String)
    → contains v (unit_names st.service_names) ≡ true
    → will_restart env st v (get v st.pending_units) (get v (begin st last_restart).last_restart)
      ≡ true
    → env.restarts v ≡ false
    → 1_000_000_000 ≤ env.restarted_at v
    → next.asked_at v < truncate_second (env.restarted_at v) + restart_cooldown
    → contains v (enforce next (enforce env st last_restart).1 remembered).2.restarted ≡ false
cooldown_survives env next st last_restart remembered v m w r pos early =
    let last = get v (begin st last_restart).last_restart in
    let old = get v st.pending_units in
    let pu = failed_again st.applied_sha (env.restarted_at v) old in
    let kept : get v (enforce env st last_restart).1.pending_units ≡ some pu = ground (
      arith,
      (enforce_outcome env st last_restart v).2,
      m,
      failed_restart_pending env st v old last w r,
    ) in
    let names : contains v (unit_names (enforce env st last_restart).1.service_names) ≡ true =
      unfold enforce in m in
    pending_holds next (enforce env st last_restart).1 remembered v pu names kept
      (unfold failed_again in omega arith) (unfold failed_again in omega arith)
