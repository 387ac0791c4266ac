-- ===== src/Agent/Retry.antt =====
-- `retryPendingHooks` of pkg/agent/agent.go: the tick that finds no changed file but pending hooks.
pub mod Settled
use picolet.Prelude.{Bool, true, false, not, List}
use picolet.Config.Hook.{Hook}
use picolet.State.{State}
use picolet.Applier.Types.{Env, Applier, Run}
use picolet.Applier.Hooks.{is_empty, run_pending_hooks}
use picolet.Agent.Pending.{merge_pending_hooks, enforce_retry_budget, pending_hook_names}

-- `retryPendingHooks`: the state, the retry's run, and whether the apply is still incomplete. The maps
-- that Go does not replace since they are equal are the same by key.
unfoldable pub retry_pending_hooks : Env → Applier → State → Run → State × Run × Bool
retry_pending_hooks env a st r =
    let tried = run_pending_hooks env a (pending_hook_names st.pending_hooks) r in
    (
      record st {
        pending_hooks =
            enforce_retry_budget a.hooks (merge_pending_hooks st.pending_hooks tried.result);
      },
      tried,
      not (is_empty tried.result.retryable_errors),
    )
