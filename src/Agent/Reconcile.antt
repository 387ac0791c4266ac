-- ===== src/Agent/Reconcile.antt =====
-- `reconcileResolved` of pkg/agent/agent.go: one reconciliation, from the resolved files to the saved
-- state. The resolve, the analysis of the units, the check of the agent's own config and the save are
-- given by their outcomes; the counts of secrets, events and metrics are output.
pub mod Ends
pub mod Once
pub mod Success
pub mod Saved
mod Tests
use picolet.Prelude.{
  ℕ, String, Bool, true, false, not, ◌&&◌, ◌||◌, Option, none, some, List, [], ◌∷◌, ◌++◌, ◌==◌, eqb,
  if◌then◌else◌,
}
use picolet.GoMap.{GoMap, get, keys}
use picolet.State.{State, mark_applied}
use picolet.Status.{
  Store, UnitDependencies, set_dependencies, set_failed_sha_count, set_verified_at, delete_unit,
}
use picolet.Changeset.{ResolvedFile, Change, Changeset, has_changes, is_delete}
use picolet.Reconciler.{diff}
use picolet.Bookkeeping.{refresh_noops}
use picolet.Disk.{Disk, Access}
use picolet.Applier.Types.{Env, Applier, Run, ApplyResult, empty_apply_result}
use picolet.Applier.Hooks.{is_empty}
use picolet.Agent.Pending.{pending_hook_names}
use picolet.Agent.Record.{finalize_apply, save_partial_state}
use picolet.Agent.Retry.{retry_pending_hooks}
use picolet.Agent.Rollout.{
  Outcome, complete, incomplete, rolled_back, no_snapshot, apply_with_rollback,
}

-- The state in memory and in its file, the disk, and the status store.
pub record World : Type 0 where
  pub state : State
  pub saved : State
  pub disk : Disk
  pub status : Store

-- What the reconciliation is given: the resolved files, and how its checks and its save end.
pub record Cycle : Type 0 where
  pub files : List ResolvedFile
  pub head_sha : String
  pub now : ℕ
  pub analysis : Option (GoMap UnitDependencies)
  pub self_config_ok : Bool
  pub can_save : Bool

pub data Failure : Type 0 where
  validation_failed self_config_failed snapshot_failed apply_failed save_failed : Failure

-- The result with its `HasChanges`, `ErrApplyIncomplete`, or another error.
pub data End : Type 0 where
  done : Bool → End
  retry_later : End
  failed : Failure → End

-- `store.Save`, and the end that follows it.
abbrev pub save_then : Bool → Bool → World → World × End
save_then can_save changed w =
    if can_save then (record w { saved = w.state }, done changed) else (w, failed save_failed)

abbrev pub forget_deleted : List Change → Store → Store
forget_deleted [] s = s
forget_deleted (c ∷ rest) s =
    forget_deleted rest
      (if is_delete c.action && not (c.service_name == "") then delete_unit c.service_name s else s)

-- The save of a changed state; an unchanged one is not saved.
abbrev pub save_if : Bool → Bool → World → World × End
save_if true can_save w = save_then can_save false w
save_if false can_save w = (w, done false)

-- The end for a new SHA, which is marked as applied, and for the one applied before.
abbrev pub mark_or_verify : Bool → Bool → Bool → World → World → World × End
mark_or_verify true refreshed can_save marked verified = save_then can_save false marked
mark_or_verify false refreshed can_save marked verified = save_if refreshed can_save verified

-- `reconcileNoChanges`, by the analysis.
unfoldable pub reconcile_no_changes :
    Option (GoMap UnitDependencies) → Cycle → Changeset → World → World × End
unfolding refresh_noops mark_applied
reconcile_no_changes none cycle cs w = (w, failed validation_failed)
reconcile_no_changes (some deps) cycle cs w =
    let (st, refreshed) = refresh_noops cs w.state in
    let marked = mark_applied cycle.head_sha cycle.now st in
    let known = set_dependencies deps w.status in
    mark_or_verify (not (cycle.head_sha == st.applied_sha)) refreshed cycle.can_save
      (record w {
        state = marked;
        status = set_verified_at marked.last_successful_at (set_failed_sha_count 0 known);
      })
      (record w {
        state = record st { last_successful_at = cycle.now };
        status = set_verified_at cycle.now known;
      })

-- `maps.Equal`: the two maps answer alike at the keys of both.
unfoldable pub same_counts : GoMap ℕ → GoMap ℕ → Bool
unfolding get keys
same_counts m n = agree (keys m ++ keys n)
  where
    same : Option ℕ → Option ℕ → Bool
    same none none = true
    same (some a) (some b) = eqb a b
    same _ _ = false

    agree : List String → Bool
    agree [] = true
    agree (k ∷ rest) = same (get k m) (get k n) && agree rest

abbrev pub wait_or_done : Bool → Bool → World → World × End
wait_or_done true restarted w = (w, retry_later)
wait_or_done false restarted w = (w, done restarted)

-- The state is saved where the retry changed it.
abbrev pub retry_ends : Bool → Bool → Bool → Bool → World → World × End
retry_ends true can_save waiting restarted w = wait_or_done waiting restarted w
retry_ends false true waiting restarted w =
    wait_or_done waiting restarted (record w { saved = w.state })
retry_ends false false waiting restarted w = (w, failed save_failed)

-- `retryPendingHooks` with its save.
unfoldable pub reconcile_retry : Env → Applier → Cycle → World → World × End
unfolding retry_pending_hooks same_counts
reconcile_retry env a cycle w =
    let (st, tried, waiting) =
      retry_pending_hooks env a w.state (record { history = []; result = empty_apply_result }) in
    let idle =
      is_empty tried.result.restarted_units && is_empty tried.result.fallback_restarted_units in
    retry_ends (same_counts w.state.pending_hooks st.pending_hooks) cycle.can_save waiting
      (not idle) (record w { state = st })

-- What follows `applyWithRollback`, on the disk that it leaves.
unfoldable pub conclude :
    Applier → Cycle → Changeset → GoMap UnitDependencies → World → Disk × Outcome → World × End
unfolding finalize_apply save_partial_state
conclude a cycle cs deps w (disk, complete res) =
    let st = finalize_apply a.hooks cs res cycle.head_sha cycle.now w.state in
    let known = set_dependencies deps (forget_deleted cs.changes w.status) in
    save_then cycle.can_save true (record w {
      state = st;
      disk = disk;
      status = set_verified_at st.last_successful_at (set_failed_sha_count 0 known);
    })
conclude a cycle cs deps w (disk, incomplete res why) =
    let st = save_partial_state a.hooks cs res cycle.head_sha cycle.now w.state in
    (
      record w {
        state = st;
        saved = if cycle.can_save then st else w.saved;
        disk = disk;
        status =
            set_dependencies deps (set_failed_sha_count 0 (forget_deleted cs.changes w.status));
      },
      retry_later,
    )
conclude a cycle cs deps w (disk, rolled_back errs problems) =
    (record w { disk = disk }, failed apply_failed)
conclude a cycle cs deps w (disk, no_snapshot) = (w, failed snapshot_failed)

-- The check of the agent's own config, before the apply.
abbrev pub checked : Bool → World → World × End → World × End
checked true w applied = applied
checked false w applied = (w, failed self_config_failed)

-- The reconciliation of a changeset with changes, by the analysis, which gives the apply its
-- dependencies.
unfoldable pub reconcile_changes :
    Option (GoMap UnitDependencies)
    → Env
    → Applier
    → Access
    → Bool
    → Cycle
    → Changeset
    → World
    → World × End
unfolding conclude apply_with_rollback pending_hook_names
reconcile_changes none env a access reload_ok cycle cs w = (w, failed validation_failed)
reconcile_changes (some deps) env a access reload_ok cycle cs w = checked cycle.self_config_ok w (
    conclude a cycle cs deps w (
      apply_with_rollback env (record a { deps = deps }) access reload_ok cs
        (pending_hook_names w.state.pending_hooks) w.disk))

-- `reconcileResolved`
unfoldable pub reconcile_resolved :
    (String → String) → Env → Applier → Access → Bool → Cycle → World → World × End
unfolding diff reconcile_no_changes reconcile_retry reconcile_changes
reconcile_resolved hash env a access reload_ok cycle w =
    let cs = diff hash cycle.files w.state in
    if has_changes cs
    then reconcile_changes cycle.analysis env a access reload_ok cycle cs w
    else if not (is_empty w.state.pending_hooks)
    then reconcile_retry env a cycle w
    else reconcile_no_changes cycle.analysis cycle cs w
