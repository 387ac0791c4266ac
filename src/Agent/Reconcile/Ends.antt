-- ===== src/Agent/Reconcile/Ends.antt =====
-- pkg/agent/agent.go: what each end of a reconciliation leaves.
use picolet.Prelude.{
  String, ◌≡◌, refl, Bool, true, false, not, Option, none, some, arith, if◌then◌else◌,
}
use picolet.GoMap.{GoMap}
use picolet.Status.{UnitDependencies}
use picolet.Changeset.{Changeset, has_changes}
use picolet.Reconciler.{diff}
use picolet.Disk.{Disk, Access}
use picolet.Applier.Types.{Env, Applier}
use picolet.Applier.Hooks.{is_empty}
use picolet.Agent.Rollout.{Outcome, complete, incomplete, rolled_back, no_snapshot}
use picolet.Agent.Reconcile.{
  World, Cycle, save_failed, End, failed, save_then, mark_or_verify, wait_or_done, retry_ends,
  checked, conclude, reconcile_no_changes, reconcile_retry, reconcile_changes, reconcile_resolved,
}

-- The end is an error from before the first save.
abbrev pub is_refused : End → Bool
is_refused (failed save_failed) = false
is_refused (failed _) = true
is_refused _ = false

-- A test of the state and its file, as they were.
abbrev pub Untouched : World → World → Type 0
Untouched w w' = (w'.state ≡ w.state) × (w'.saved ≡ w.saved)

pub either_if :
    (R : World × End → Type 0) (b : Bool) (x y : World × End) → R x → R y → R (if b then x else y)
either_if R true x y h k = h
either_if R false x y h k = k

-- An error from before the first save leaves what it found.
abbrev LeavesState : World → World × End → Type 0
LeavesState w r = is_refused r.1 ≡ true → Untouched w r.0

unless_refused : (w : World) (r : World × End) → is_refused r.1 ≡ false → LeavesState w r
unless_refused w r k h = ground (arith, h, k)

save_then-passes : (b c : Bool) (w : World) → is_refused (save_then b c w).1 ≡ false
save_then-passes true c w = refl
save_then-passes false c w = refl

wait_or_done-passes : (b c : Bool) (w : World) → is_refused (wait_or_done b c w).1 ≡ false
wait_or_done-passes true c w = refl
wait_or_done-passes false c w = refl

retry_ends-passes : (b c d e : Bool) (w : World) → is_refused (retry_ends b c d e w).1 ≡ false
retry_ends-passes true c d e w = wait_or_done-passes d e w
retry_ends-passes false true d e w = wait_or_done-passes d e (record w { saved = w.state })
retry_ends-passes false false d e w = refl

mark_or_verify-passes :
    (b c d : Bool) (m v : World) → is_refused (mark_or_verify b c d m v).1 ≡ false
mark_or_verify-passes true c d m v = save_then-passes d false m
mark_or_verify-passes false true d m v = save_then-passes d false v
mark_or_verify-passes false false d m v = refl

conclude-LeavesState :
    (a : Applier) (cycle : Cycle) (cs : Changeset) (deps : GoMap UnitDependencies) (w : World)
    (out : Disk × Outcome)
    → LeavesState w (conclude a cycle cs deps w out)
unfolding conclude
conclude-LeavesState a cycle cs deps w (disk, complete res) =
    unless_refused w (conclude a cycle cs deps w (disk, complete res))
      (save_then-passes cycle.can_save true _)
conclude-LeavesState a cycle cs deps w (disk, incomplete res why) =
    unless_refused w (conclude a cycle cs deps w (disk, incomplete res why)) refl
conclude-LeavesState a cycle cs deps w (disk, rolled_back errs problems) = λ h. (refl, refl)
conclude-LeavesState a cycle cs deps w (disk, no_snapshot) = λ h. (refl, refl)

checked-LeavesState :
    (b : Bool) (w : World) (r : World × End) → LeavesState w r → LeavesState w (checked b w r)
checked-LeavesState true w r h = h
checked-LeavesState false w r h = λ k. (refl, refl)

module _ (env : Env) (a : Applier) (access : Access) (reload_ok : Bool) (cycle : Cycle) where
  changes-LeavesState :
      (deps : Option (GoMap UnitDependencies)) (cs : Changeset) (w : World)
      → LeavesState w (reconcile_changes deps env a access reload_ok cycle cs w)
  unfolding reconcile_changes
  changes-LeavesState none cs w = λ h. (refl, refl)
  changes-LeavesState (some deps) cs w =
      checked-LeavesState cycle.self_config_ok w _ (conclude-LeavesState a cycle cs deps w _)

  no_changes-LeavesState :
      (deps : Option (GoMap UnitDependencies)) (cs : Changeset) (w : World)
      → LeavesState w (reconcile_no_changes deps cycle cs w)
  unfolding reconcile_no_changes
  no_changes-LeavesState none cs w = λ h. (refl, refl)
  no_changes-LeavesState (some deps) cs w =
      unless_refused w (reconcile_no_changes (some deps) cycle cs w)
        (mark_or_verify-passes _ _ cycle.can_save _ _)

  retry-LeavesState : (w : World) → LeavesState w (reconcile_retry env a cycle w)
  unfolding reconcile_retry
  retry-LeavesState w =
      unless_refused w (reconcile_retry env a cycle w) (retry_ends-passes _ cycle.can_save _ _ _)

-- A reconciliation that ends with an error before its first save (validation, the agent's own config,
-- the snapshot or an apply that was rolled back) leaves the state and its file as they were.
pub refused_leaves_state :
    (hash : String → String) (env : Env) (a : Applier) (access : Access) (reload_ok : Bool)
    (cycle : Cycle) (w : World)
    → is_refused (reconcile_resolved hash env a access reload_ok cycle w).1 ≡ true
    → ((reconcile_resolved hash env a access reload_ok cycle w).0.state ≡ w.state)
      × ((reconcile_resolved hash env a access reload_ok cycle w).0.saved ≡ w.saved)
unfolding reconcile_resolved
refused_leaves_state hash env a access reload_ok cycle w =
    let cs = diff hash cycle.files w.state in
    let quiet = reconcile_no_changes cycle.analysis cycle cs w in
    let retry = reconcile_retry env a cycle w in
    either_if (LeavesState w) (has_changes cs)
      (reconcile_changes cycle.analysis env a access reload_ok cycle cs w)
      (if not (is_empty w.state.pending_hooks) then retry else quiet)
      (changes-LeavesState env a access reload_ok cycle cycle.analysis cs w)
      (either_if (LeavesState w) (not (is_empty w.state.pending_hooks)) retry quiet
        (retry-LeavesState env a access reload_ok cycle w)
        (no_changes-LeavesState env a access reload_ok cycle cycle.analysis cs w))
