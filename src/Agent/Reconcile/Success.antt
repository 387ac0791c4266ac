-- ===== src/Agent/Reconcile/Success.antt =====
-- pkg/agent/agent.go: which ends of a reconciliation move the time of the last success.
use picolet.Prelude.{
  String, ◌≡◌, refl, ◌∙◌, Bool, true, false, not, ◌&&◌, Option, none, some, List, [], ◌∷◌, arith,
  ◌==◌, if◌then◌else◌,
}
use picolet.GoMap.{GoMap}
use picolet.Status.{Store, UnitDependencies, delete_unit}
use picolet.Changeset.{Change, Changeset, has_changes, is_delete}
use picolet.Reconciler.{diff}
use picolet.Disk.{Disk, Access}
use picolet.Applier.Types.{Env, Applier}
use picolet.Applier.Hooks.{is_empty}
use picolet.Agent.Record.Progress.{save_partial_state_lem}
use picolet.Agent.Retry.{retry_pending_hooks}
use picolet.Agent.Rollout.{Outcome, complete, incomplete, rolled_back, no_snapshot}
use picolet.Agent.Reconcile.{
  World, Cycle, save_failed, End, done, retry_later, failed, save_then, mark_or_verify,
  wait_or_done, retry_ends, checked, forget_deleted, conclude, reconcile_no_changes,
  reconcile_retry, reconcile_changes, reconcile_resolved,
}
use picolet.Agent.Reconcile.Ends.{either_if}

-- A result, or the error of a failed save.
abbrev pub reaches_save : End → Bool
reaches_save (done changed) = true
reaches_save retry_later = false
reaches_save (failed save_failed) = true
reaches_save (failed _) = false

-- Neither the state nor the status store has a new time of success.
abbrev pub SameSuccess : World → World → Type 0
SameSuccess w w' =
    (w'.state.last_successful_at ≡ w.state.last_successful_at)
    × (w'.status.snapshot.verified_at ≡ w.status.snapshot.verified_at)

abbrev Quiet : World → World × End → Type 0
Quiet w r = reaches_save r.1 ≡ false → SameSuccess w r.0

forget_deleted-verified :
    (cs : List Change) (s : Store)
    → (forget_deleted cs s).snapshot.verified_at ≡ s.snapshot.verified_at
forget_deleted-verified [] s = refl
forget_deleted-verified (c ∷ rest) s =
    forget_deleted-verified rest
      (if is_delete c.action && not (c.service_name == "") then delete_unit c.service_name s else s)
    ∙ one (is_delete c.action && not (c.service_name == ""))
  where
    one :
        (b : Bool)
        → (if b then delete_unit c.service_name s else s).snapshot.verified_at
          ≡ s.snapshot.verified_at
    one true = refl
    one false = refl

save_then-success : (b c : Bool) (w : World) → reaches_save (save_then b c w).1 ≡ true
save_then-success true c w = refl
save_then-success false c w = refl

mark_or_verify-success :
    (b c d : Bool) (m v : World) → reaches_save (mark_or_verify b c d m v).1 ≡ true
mark_or_verify-success true c d m v = save_then-success d false m
mark_or_verify-success false true d m v = save_then-success d false v
mark_or_verify-success false false d m v = refl

if_success : (w : World) (r : World × End) → reaches_save r.1 ≡ true → Quiet w r
if_success w r k h = ground (arith, h, k)

wait_or_done-Quiet : (w v : World) (b c : Bool) → SameSuccess w v → Quiet w (wait_or_done b c v)
wait_or_done-Quiet w v true c s = λ h. s
wait_or_done-Quiet w v false c s = λ h. s

retry_ends-Quiet : (w v : World) (b c d e : Bool) → SameSuccess w v → Quiet w (retry_ends b c d e v)
retry_ends-Quiet w v true c d e s = wait_or_done-Quiet w v d e s
retry_ends-Quiet w v false true d e s = wait_or_done-Quiet w (record v { saved = v.state }) d e s
retry_ends-Quiet w v false false d e s = λ h. s

conclude-Quiet :
    (a : Applier) (cycle : Cycle) (cs : Changeset) (deps : GoMap UnitDependencies) (w : World)
    (out : Disk × Outcome)
    → Quiet w (conclude a cycle cs deps w out)
unfolding conclude
conclude-Quiet a cycle cs deps w (disk, complete res) =
    if_success w (conclude a cycle cs deps w (disk, complete res))
      (save_then-success cycle.can_save true _)
conclude-Quiet a cycle cs deps w (disk, incomplete res why) = λ h. (
  (save_partial_state_lem a.hooks cs res cycle.head_sha cycle.now w.state "").2,
  forget_deleted-verified cs.changes w.status,
)
conclude-Quiet a cycle cs deps w (disk, rolled_back errs problems) = λ h. (refl, refl)
conclude-Quiet a cycle cs deps w (disk, no_snapshot) = λ h. (refl, refl)

checked-Quiet : (b : Bool) (w : World) (r : World × End) → Quiet w r → Quiet w (checked b w r)
checked-Quiet true w r h = h
checked-Quiet false w r h = λ k. (refl, refl)

changes-Quiet :
    (env : Env) (a : Applier) (access : Access) (reload_ok : Bool) (cycle : Cycle)
    (deps : Option (GoMap UnitDependencies)) (cs : Changeset) (w : World)
    → Quiet w (reconcile_changes deps env a access reload_ok cycle cs w)
unfolding reconcile_changes
changes-Quiet env a access reload_ok cycle none cs w = λ h. (refl, refl)
changes-Quiet env a access reload_ok cycle (some deps) cs w =
    checked-Quiet cycle.self_config_ok w _ (conclude-Quiet a cycle cs deps w _)

no_changes-Quiet :
    (cycle : Cycle) (deps : Option (GoMap UnitDependencies)) (cs : Changeset) (w : World)
    → Quiet w (reconcile_no_changes deps cycle cs w)
unfolding reconcile_no_changes
no_changes-Quiet cycle none cs w = λ h. (refl, refl)
no_changes-Quiet cycle (some deps) cs w =
    if_success w (reconcile_no_changes (some deps) cycle cs w)
      (mark_or_verify-success _ _ cycle.can_save _ _)

retry-Quiet :
    (env : Env) (a : Applier) (cycle : Cycle) (w : World) → Quiet w (reconcile_retry env a cycle w)
unfolding reconcile_retry retry_pending_hooks
retry-Quiet env a cycle w = retry_ends-Quiet w _ _ cycle.can_save _ _ (refl, refl)

-- A reconciliation that ends with `ErrApplyIncomplete`, or with another error than that of a failed
-- save, does not move the time of the last success, neither the state's nor the one that the status
-- store reports.
pub unfinished_is_no_success :
    (hash : String → String) (env : Env) (a : Applier) (access : Access) (reload_ok : Bool)
    (cycle : Cycle) (w : World)
    → reaches_save (reconcile_resolved hash env a access reload_ok cycle w).1 ≡ false
    → ((reconcile_resolved hash env a access reload_ok cycle w).0.state.last_successful_at
        ≡ w.state.last_successful_at)
      × ((reconcile_resolved hash env a access reload_ok cycle w).0.status.snapshot.verified_at
          ≡ w.status.snapshot.verified_at)
unfolding reconcile_resolved
unfinished_is_no_success hash env a access reload_ok cycle w =
    let cs = diff hash cycle.files w.state in
    let quiet = reconcile_no_changes cycle.analysis cycle cs w in
    let retry = reconcile_retry env a cycle w in
    either_if (Quiet w) (has_changes cs)
      (reconcile_changes cycle.analysis env a access reload_ok cycle cs w)
      (if not (is_empty w.state.pending_hooks) then retry else quiet)
      (changes-Quiet env a access reload_ok cycle cycle.analysis cs w)
      (either_if (Quiet w) (not (is_empty w.state.pending_hooks)) retry quiet
        (retry-Quiet env a cycle w) (no_changes-Quiet cycle cycle.analysis cs w))
