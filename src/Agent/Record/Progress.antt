-- ===== src/Agent/Record/Progress.antt =====
-- What the next tick finds after an apply.
use picolet.Prelude.{
  ℕ, String, ◌≡◌, refl, ap, ◌∙◌, false, none, List, [], ◌∷◌, arith, if◌then◌else◌, contains,
}
use picolet.GoMap.{get}
use picolet.Config.Hook.{Hook}
use picolet.State.{
  State, mark_applied, mark_applied_incomplete, truncate_second, clear_failure_gate, mark,
}
use picolet.Changeset.{ResolvedFile, Change, Changeset, has_changes}
use picolet.Reconciler.{diff}
use picolet.Bookkeeping.{update_state, record_change, record_changes}
use picolet.Bookkeeping.Converge.{IsDistinct, update_state-diff, converged, hash_of, file_record}
use picolet.Applier.Types.{ApplyResult}
use picolet.Agent.Pending.{is_managed, merge_pending_units}
use picolet.Agent.Pending.Units.{
  prune_pending_units_lem, merge_pending_units_lem, after_failures, times,
}
use picolet.Agent.Record.{record_apply, finalize_apply, save_partial_state}

record_changes_frame :
    (cs : List Change) (st : State)
    → ((record_changes cs st).last_successful_at ≡ st.last_successful_at)
      × ((record_changes cs st).pending_units ≡ st.pending_units)
unfolding record_changes record_change
record_changes_frame [] st = (refl, refl)
record_changes_frame (c ∷ rest) st = ground (arith, record_changes_frame rest (record_change c st))

update_state_frame :
    (st : State) (cs : Changeset)
    → ((update_state st cs).last_successful_at ≡ st.last_successful_at)
      × ((update_state st cs).pending_units ≡ st.pending_units)
unfolding update_state
update_state_frame st cs =
    record_changes_frame cs.changes (record st { managed_files = []; service_names = [] })

-- After an apply of the changeset of a diff, complete or not, the next diff has no changes: an
-- incomplete apply writes its files once.
pub applied_once :
    (hash : String → String) (desired : List ResolvedFile) (st : State) (hooks : List Hook)
    (res : ApplyResult) (head_sha : String) (now : ℕ)
    → IsDistinct desired
    → (has_changes
          (diff hash desired (finalize_apply hooks (diff hash desired st) res head_sha now st))
        ≡ false)
      × (has_changes (
            diff hash desired (save_partial_state hooks (diff hash desired st) res head_sha now st))
          ≡ false)
unfolding finalize_apply save_partial_state record_apply mark_applied mark_applied_incomplete mark
    clear_failure_gate
applied_once hash desired st hooks res head_sha now d =
    let cs = diff hash desired st in
    let known : (p : String)
        → hash_of (get p (update_state st cs).managed_files)
          ≡ hash_of (file_record hash desired p) =
      λ p. ap hash_of (update_state-diff hash desired st p d).0 in
    (
      converged hash desired (finalize_apply hooks cs res head_sha now st) d known,
      converged hash desired (save_partial_state hooks cs res head_sha now st) d known,
    )

-- An incomplete apply records its SHA and clears the count of failures, leaves the time of the last
-- success alone, and keeps a record of a failed restart exactly for the units that a managed file
-- names: the old record, none where the unit restarted, and one attempt more for each failure.
pub save_partial_state_lem :
    (hooks : List Hook) (cs : Changeset) (res : ApplyResult) (head_sha : String) (now : ℕ)
    (st : State) (u : String)
    → ((save_partial_state hooks cs res head_sha now st).applied_sha ≡ head_sha)
      × ((save_partial_state hooks cs res head_sha now st).failed_count ≡ 0)
      × ((save_partial_state hooks cs res head_sha now st).last_successful_at
          ≡ st.last_successful_at)
      × (get u (save_partial_state hooks cs res head_sha now st).pending_units ≡ (
          if is_managed u (update_state st cs).service_names
          then after_failures head_sha
              (truncate_second now)
              (times u res.failed_restart_units)
              (if contains u res.restarted_units then none else get u st.pending_units)
          else none))
unfolding save_partial_state record_apply mark_applied_incomplete mark clear_failure_gate
save_partial_state_lem hooks cs res head_sha now st u =
    let kept = update_state_frame st cs in
    (
      refl,
      refl,
      kept.0,
      prune_pending_units_lem u (update_state st cs).service_names
            (merge_pending_units (update_state st cs).pending_units res head_sha now)
          ∙ rw (kept.1, merge_pending_units_lem u head_sha now st.pending_units res) refl,
    )
