-- ===== src/Agent/Retry/Settled.antt =====
-- Which hooks wait after a retry.
use picolet.Prelude.{
  ◌+◌, String, ◌≡◌, none, some, arith, if◌then◌else◌, or_else, contains, contains-sort, IsUnique,
}
use picolet.GoMap.{get, keys, contains-keys}
use picolet.State.{State}
use picolet.Applier.Types.{Env, Applier, Run}
use picolet.Applier.Hooks.{run_pending_hooks}
use picolet.Applier.Retry.{retry_attempts_pending}
use picolet.Agent.Pending.{merge_pending_hooks, pending_hook_names}
use picolet.Agent.Pending.Hooks.{merge_pending_hooks_lem, kept, get-enforce_retry_budget}
use picolet.Agent.Pending.Budget.{merge_pending_hooks-IsUnique}
use picolet.Agent.Retry.{retry_pending_hooks}

-- Where the pending map has each name once, as Go's maps have: after a retry a hook waits exactly where
-- it failed in that retry and its budget is not used up, with one failure more than before.
pub retry_settles :
    (env : Env) (a : Applier) (st : State) (r : Run) (name : String)
    → IsUnique (keys st.pending_hooks)
    → get name (retry_pending_hooks env a st r).0.pending_hooks ≡ (
        if contains name (retry_pending_hooks env a st r).1.result.pending_hook_names
        then kept a.hooks name (some (or_else (get name st.pending_hooks) 0 + 1))
        else none)
unfolding retry_pending_hooks pending_hook_names
retry_settles env a st r name u =
    let waiting = pending_hook_names st.pending_hooks in
    let res = (run_pending_hooks env a waiting r).result in
    let merged = merge_pending_hooks st.pending_hooks res in
    ground (
      arith,
      get-enforce_retry_budget name a.hooks merged
          (merge_pending_hooks-IsUnique st.pending_hooks res u),
      merge_pending_hooks_lem name st.pending_hooks res,
      retry_attempts_pending env a waiting r name,
      contains-sort name (keys st.pending_hooks),
      contains-keys name st.pending_hooks,
    )
