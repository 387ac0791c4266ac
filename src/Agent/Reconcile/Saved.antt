-- ===== src/Agent/Reconcile/Saved.antt =====
-- pkg/agent/agent.go: which ends of a reconciliation move the time of the last success
-- in the state's file.
use picolet.Prelude.{◌≡◌, Bool, true, false}
use picolet.GoMap.{GoMap}
use picolet.State.{State}
use picolet.Changeset.{Changeset}
use picolet.Disk.{Disk}
use picolet.Applier.Types.{Applier}
use picolet.Agent.Reconcile.{World, End, done}

abbrev pub is_result : End → Bool
is_result (done changed) = true
is_result _ = false

-- The file has the time that it had, unless the reconciliation returns a result.
abbrev KeepsFile : World → World × End → Type 0
KeepsFile w r = is_result r.1 ≡ false → r.0.saved.last_successful_at ≡ w.saved.last_successful_at
