-- ===== src/Agent/Record.antt =====
-- pkg/agent/agent.go: what an apply leaves in the state. `recordApply`, and the ends of a complete and
-- of an incomplete apply.
pub mod Progress
use picolet.Prelude.{ℕ, String, List}
use picolet.Config.Hook.{Hook}
use picolet.State.{State, mark_applied, mark_applied_incomplete}
use picolet.Changeset.{Changeset}
use picolet.Bookkeeping.{update_state}
use picolet.Applier.Types.{ApplyResult}
use picolet.Agent.Pending.{
  merge_pending_hooks, enforce_retry_budget, merge_pending_units, prune_pending_units,
}

-- `recordApply`
unfoldable pub record_apply : List Hook → Changeset → ApplyResult → String → ℕ → State → State
record_apply hooks cs res head_sha now st =
    let st' = update_state st cs in
    record st' {
      pending_hooks = enforce_retry_budget hooks (merge_pending_hooks st'.pending_hooks res);
      pending_units =
          prune_pending_units st'.service_names
            (merge_pending_units st'.pending_units res head_sha now);
    }

-- The state that `finalizeApply` saves.
unfoldable pub finalize_apply : List Hook → Changeset → ApplyResult → String → ℕ → State → State
unfolding record_apply
finalize_apply hooks cs res head_sha now st =
    mark_applied head_sha now (record_apply hooks cs res head_sha now st)

-- The state that `savePartialState` saves.
unfoldable pub save_partial_state : List Hook → Changeset → ApplyResult → String → ℕ → State → State
unfolding record_apply
save_partial_state hooks cs res head_sha now st =
    mark_applied_incomplete head_sha now (record_apply hooks cs res head_sha now st)
