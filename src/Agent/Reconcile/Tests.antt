-- ===== src/Agent/Reconcile/Tests.antt =====
-- One reconciliation of one new file.
use picolet.Prelude.{String, ◌≡◌, refl, sort, true, false, not, ◌&&◌, Option, none, some, [], ◌∷◌}
use picolet.GoMap.{GoMap}
use picolet.Config.Category.{Category, uses_rel_path}
use picolet.State.{new_state}
use picolet.Status.{UnitDependencies, new_store}
use picolet.Changeset.{ResolvedFile, has_changes}
use picolet.Reconciler.{diff, seen}
use picolet.Disk.{Access}
use picolet.Applier.Phase.{
  apply_changes, apply_step, apply_change, goes_to_secret, record_applied, restart_policy,
  prepare_delete,
}
use picolet.Applier.Triggers.{triggered_builds}
use picolet.Applier.Fixtures.{host, plain}
use picolet.Agent.Reconcile.{World, Cycle, reconcile_changes, reconcile_resolved}
use picolet.Agent.Reconcile.Ends.{refused_leaves_state}
use picolet.Agent.Reconcile.Once.{written_once}
use picolet.Agent.Reconcile.Success.{unfinished_is_no_success}

abbrev web : ResolvedFile
web = record {
  dest_path = "/q/web.container";
  content = "Image=web:2";
  category = Category.container;
  service_name = "web.service";
  rel_path = "";
  sops_values = false;
}

abbrev plain_hash : String → String
plain_hash s = s

abbrev cycle : Option (GoMap UnitDependencies) → Cycle
cycle analysis = record {
  files = web ∷ [];
  head_sha = "abc";
  now = 7;
  analysis = analysis;
  self_config_ok = true;
  can_save = true;
}

abbrev start : World
start = record { state = new_state; saved = new_state; disk = λ p. none; status = new_store }

abbrev open_access : Access
open_access = record {
  can_read = λ p. true;
  can_write = λ p. true;
  can_rename = λ p. false;
  can_remove = λ p. true;
}

-- The reconciliation where validation ends like this.
abbrev after : Option (GoMap UnitDependencies) → World
after analysis =
    (reconcile_resolved plain_hash (host true) (plain false) open_access true (cycle analysis)
      start).0

refused_leaves_state_example : ((after none).state ≡ new_state) × ((after none).saved ≡ new_state)
unfolding reconcile_resolved has_changes diff reconcile_changes new_state
refused_leaves_state_example =
    refused_leaves_state plain_hash (host true) (plain false) open_access true (cycle none) start
      refl

unfinished_is_no_success_example :
    ((after none).state.last_successful_at ≡ start.state.last_successful_at)
    × ((after none).status.snapshot.verified_at ≡ start.status.snapshot.verified_at)
unfolding reconcile_resolved has_changes diff reconcile_changes new_state
unfinished_is_no_success_example =
    unfinished_is_no_success plain_hash (host true) (plain false) open_access true (cycle none)
      start refl

written_once_example :
    (has_changes (diff plain_hash (web ∷ []) (after (some [])).state) ≡ false)
    × (has_changes (diff plain_hash (web ∷ []) (after (some [])).saved)
        ≡ (not true && has_changes (diff plain_hash (web ∷ []) new_state)))
unfolding reconcile_resolved has_changes diff reconcile_changes seen new_state apply_changes
    apply_step apply_change goes_to_secret record_applied restart_policy uses_rel_path sort
    triggered_builds prepare_delete
written_once_example =
    written_once plain_hash (host true) (plain false) open_access true (cycle (some [])) start
      (refl, tt) refl refl
