-- ===== src/Agent/Reconcile/Once.antt =====
-- pkg/agent/agent.go: a changeset is written once.
use picolet.Prelude.{
  String, ◌≡◌, refl, Bool, true, false, not, ◌&&◌, Option, none, some, arith, if◌then◌else◌,
}
use picolet.GoMap.{GoMap}
use picolet.State.{State}
use picolet.Status.{UnitDependencies}
use picolet.Changeset.{has_changes}
use picolet.Reconciler.{diff}
use picolet.Disk.{Disk, Access}
use picolet.Applier.Types.{Env, Applier}
use picolet.Bookkeeping.Converge.{IsDistinct}
use picolet.Agent.Record.Progress.{applied_once}
use picolet.Agent.Rollout.{Outcome, complete, incomplete, rolled_back, no_snapshot}
use picolet.Agent.Reconcile.{
  World, Cycle, End, done, retry_later, failed, save_then, checked, conclude, reconcile_changes,
  reconcile_resolved,
}

-- The files are on the disk: the result, or the error that asks for a retry.
abbrev pub is_applied : End → Bool
is_applied (done changed) = true
is_applied retry_later = true
is_applied (failed why) = false

when_true :
    (R : World × End → Type 0) (b : Bool) (x y : World × End)
    → b ≡ true
    → R x
    → R (if b then x else y)
when_true R true x y h k = k
when_true R false x y h k = ground (arith, h)

module _ (hash : String → String) (cycle : Cycle) (w : World) where
  -- The files have changes against this state.
  abbrev pending : State → Bool
  pending st = has_changes (diff hash cycle.files st)

  -- The next diff of the same files is empty, and so is the one against the state's file, unless the
  -- save failed.
  abbrev IsSettled : World → Type 0
  IsSettled v =
      (pending v.state ≡ false) × (pending v.saved ≡ (not cycle.can_save && pending w.saved))

  -- Where the reconciliation applied the files, they are settled.
  abbrev Settles : World × End → Type 0
  Settles r = is_applied r.1 ≡ true → IsSettled r.0

  -- A state without changes, saved where it can be.
  saved-IsSettled :
      (b : Bool) (st old : State)
      → pending st ≡ false
      → pending (if b then st else old) ≡ (not b && pending old)
  saved-IsSettled true st old h = h
  saved-IsSettled false st old h = refl

  save_then-Settles :
      (b : Bool) (v : World)
      → b ≡ cycle.can_save
      → pending v.state ≡ false
      → Settles (save_then b true v)
  save_then-Settles true v e h = λ k. (h, rw (← e) h)
  save_then-Settles false v e h = λ k. ground (arith, k)

  conclude-Settles :
      (a : Applier) (deps : GoMap UnitDependencies) (out : Disk × Outcome)
      → IsDistinct cycle.files
      → Settles (conclude a cycle (diff hash cycle.files w.state) deps w out)
  unfolding conclude
  conclude-Settles a deps (disk, complete res) d =
      save_then-Settles cycle.can_save _ refl
        (applied_once hash cycle.files w.state a.hooks res cycle.head_sha cycle.now d).0
  conclude-Settles a deps (disk, incomplete res why) d = λ h.
      let once = applied_once hash cycle.files w.state a.hooks res cycle.head_sha cycle.now d in
      (once.1, saved-IsSettled cycle.can_save _ w.saved once.1)
  conclude-Settles a deps (disk, rolled_back errs problems) d = λ h. ground (arith, h)
  conclude-Settles a deps (disk, no_snapshot) d = λ h. ground (arith, h)

  checked-Settles : (b : Bool) (r : World × End) → Settles r → Settles (checked b w r)
  checked-Settles true r h = h
  checked-Settles false r h = λ k. ground (arith, k)

  changes-Settles :
      (env : Env) (a : Applier) (access : Access) (reload_ok : Bool)
      (deps : Option (GoMap UnitDependencies))
      → IsDistinct cycle.files
      → Settles
          (reconcile_changes deps env a access reload_ok cycle (diff hash cycle.files w.state) w)
  unfolding reconcile_changes
  changes-Settles env a access reload_ok none d = λ h. ground (arith, h)
  changes-Settles env a access reload_ok (some deps) d =
      checked-Settles cycle.self_config_ok _ (conclude-Settles a deps _ d)

-- Where the files to be had differ from the state and no two of them share a path, a reconciliation
-- that applies them, completely or with restarts or hooks left to retry, leaves a state against which
-- the same files have no changes. Nor have they against the state's file, which the next tick loads,
-- unless the save failed: then exactly the changes against the old file are left.
pub written_once :
    (hash : String → String) (env : Env) (a : Applier) (access : Access) (reload_ok : Bool)
    (cycle : Cycle) (w : World)
    → IsDistinct cycle.files
    → has_changes (diff hash cycle.files w.state) ≡ true
    → is_applied (reconcile_resolved hash env a access reload_ok cycle w).1 ≡ true
    → (has_changes
          (diff hash cycle.files (reconcile_resolved hash env a access reload_ok cycle w).0.state)
        ≡ false)
      × (has_changes
            (diff hash cycle.files (reconcile_resolved hash env a access reload_ok cycle w).0.saved)
          ≡ (not cycle.can_save && has_changes (diff hash cycle.files w.saved)))
unfolding reconcile_resolved
written_once hash env a access reload_ok cycle w d changed applied =
    when_true (Settles hash cycle w) (has_changes (diff hash cycle.files w.state)) _ _ changed
      (changes-Settles hash cycle w env a access reload_ok cycle.analysis d) applied
