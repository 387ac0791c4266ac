-- ===== src/Applier/Tests.antt =====
-- The theorems of this component at a changeset of three files.
use picolet.Prelude.{◌≡◌, ◌≢◌, refl, true, false, List, [], ◌∷◌, arith}
use picolet.Applier.Triggers.{triggered_builds}
use picolet.Applier.Types.{ApplyError, reload_failed}
use picolet.Config.Category.{Category, uses_rel_path}
use picolet.Changeset.{update, Changeset}
use picolet.Applier.Phase.{
  goes_to_secret, apply_changes, apply_step, apply_change, record_applied, restart_policy,
}
use picolet.Applier.SelfUnits.{endings}
use picolet.Applier.SelfUnits.Spared.{apply_spares_self}
use picolet.Applier.Phase.{is_self_unit}
use picolet.Applier.Fixtures.{change, three, host, plain, fresh_run, old_files}
use picolet.Applier.Apply.{apply_with_pending, apply_without_restarts}
use picolet.Applier.Started.{starts}
use picolet.Applier.Failure.{failed_apply_starts_only_builds}
use picolet.Applier.DryRun.{to_make, counted, dry_run_lem}
use picolet.Applier.Files.{disk_of, overlay}
use picolet.Applier.Files.Written.{apply_frame, apply_writes_changeset}

dry_run_lem_example :
    (apply_with_pending (host true) (plain true) three [] fresh_run
      ≡ (record { history = []; result = counted (to_make three.changes) }, []))
    × (apply_without_restarts (host true) (plain true) three fresh_run
        ≡ (record { history = []; result = counted (to_make three.changes) }, []))
dry_run_lem_example = dry_run_lem (host true) (plain true) three [] fresh_run refl

an_error : (xs : List ApplyError) (e : ApplyError) → xs ≡ e ∷ [] → xs ≢ []
an_error xs e h = ground (arith, h)

reload_fails :
    (apply_with_pending (host false) (plain false) three [] fresh_run).1 ≡ reload_failed ∷ []
unfolding apply_with_pending apply_changes apply_step apply_change goes_to_secret record_applied
    restart_policy uses_rel_path
reload_fails = refl

failed_apply_starts_only_builds_example :
    starts
      (triggered_builds (plain false) three.changes).0
      (apply_with_pending (host false) (plain false) three [] fresh_run).0.history
    ≡ starts (triggered_builds (plain false) three.changes).0 fresh_run.history
failed_apply_starts_only_builds_example =
    failed_apply_starts_only_builds (host false) (plain false) three [] fresh_run
      (an_error _ reload_failed reload_fails)

apply_writes_changeset_example :
    disk_of
      (λ p. true)
      (apply_with_pending (host true) (plain false) three [] fresh_run).0.history
      old_files
      "/q/web.container"
    ≡ overlay three.changes "/q/web.container" (old_files "/q/web.container")
unfolding apply_with_pending goes_to_secret apply_changes apply_step apply_change record_applied
    restart_policy uses_rel_path triggered_builds
apply_writes_changeset_example =
    apply_writes_changeset (host true) (plain false) three [] fresh_run (λ p. true) old_files
      "/q/web.container" refl (refl, (refl, (refl, tt))) refl

apply_frame_example :
    disk_of
      (λ p. true)
      (apply_with_pending (host false) (plain false) three [] fresh_run).0.history
      old_files
      "/q/other.container"
    ≡ old_files "/q/other.container"
unfolding goes_to_secret
apply_frame_example =
    apply_frame (host false) (plain false) three [] fresh_run (λ p. true) old_files
      "/q/other.container" refl

-- The agent's own unit is among the changes.
abbrev own_change : Changeset
own_change = record three {
  changes =
      change "/q/picolet.container" Category.container update "picolet.service" ∷ three.changes;
}

apply_spares_self_example :
    endings "picolet.service"
      (apply_with_pending (host true) (plain false) own_change [] fresh_run).0.history
    ≡ 0
unfolding is_self_unit restart_policy
apply_spares_self_example =
    apply_spares_self "picolet.service" (host true) (plain false) own_change [] fresh_run refl refl
