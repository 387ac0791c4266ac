-- ===== src/Agent/Tests.antt =====
-- The theorems of this component at concrete inputs.
use picolet.Prelude.{
  ◌-◌, String, ◌≡◌, refl, true, false, ◌&&◌, none, some, [], ◌∷◌, arith, if◌then◌else◌, ltb, leb,
  contains,
}
use picolet.Prelude.Int.{pos}
use picolet.GoMap.{get, keys}
use picolet.Config.Category.{Category}
use picolet.Config.Hook.{Hook}
use picolet.State.{State, new_state, truncate_second}
use picolet.Changeset.{ResolvedFile}
use picolet.Disk.{Access}
use picolet.Rollback.{is_secret}
use picolet.Applier.Types.{ApplyResult, empty_apply_result}
use picolet.Applier.Phase.{goes_to_secret}
use picolet.Agent.Retry.{retry_pending_hooks}
use picolet.Agent.Retry.Settled.{retry_settles}
use picolet.Prelude.{or_else, ◌+◌}
use picolet.Applier.Fixtures.{fresh_run, three, host, plain, old_files}
use picolet.Agent.Pending.{merge_pending_units, max_by_name, retry_limit}
use picolet.Agent.Pending.Hooks.{kept}
use picolet.Agent.Pending.Units.{merge_pending_units_lem, after_failures, times}
use picolet.Agent.Pending.Budget.{after_applies, counted_up_to, retries_end_at_limit}
use picolet.Agent.Rollout.{apply_with_rollback}
use picolet.Agent.Rollout.AllOrNothing.{promised, all_or_nothing}
use picolet.Agent.Gate.{Poll, Work, held_back, work_of, failed_sha_expiry}
use picolet.Agent.Gate.Failures.{last_of, after_failed_ticks, held_back_after_failures}

abbrev web : ResolvedFile
web = record {
  dest_path = "/q/web.container";
  content = "Image=web:2";
  category = Category.container;
  service_name = "web.service";
  rel_path = "";
  sops_values = false;
}

abbrev plain_hash : String → String
plain_hash s = s

abbrev reload : Hook
reload = record {
  name = "reload";
  secrets = "token" ∷ [];
  manifests = [];
  files = [];
  unit = "web.service";
  action = "http";
  method = "POST";
  url = "http://localhost/reload";
  health_url = "";
  container = "";
  signal = "";
  on_failure = "keep_running";
  max_retries = pos 2;
}

-- The hook and the unit fail.
abbrev failing : ApplyResult
failing = record empty_apply_result {
  pending_hook_names = "reload" ∷ [];
  attempted_hook_names = "reload" ∷ [];
  failed_restart_units = "web.service" ∷ [];
}

retries_end_at_limit_example :
    get "reload" (after_applies (reload ∷ []) (failing ∷ failing ∷ []) [])
    ≡ counted_up_to (retry_limit (pos 2)) 2
unfolding max_by_name retry_limit get keys
retries_end_at_limit_example =
    retries_end_at_limit "reload" (reload ∷ []) (pos 2) failing (failing ∷ []) [] refl tt
      (refl, (refl, tt)) refl (omega arith)

merge_pending_units_lem_example :
    get "web.service" (merge_pending_units [] failing "abc" 5_000_000_001)
    ≡ after_failures "abc"
        (truncate_second 5_000_000_001)
        (times "web.service" failing.failed_restart_units)
        (if contains "web.service" failing.restarted_units then none else none)
unfolding get
merge_pending_units_lem_example =
    merge_pending_units_lem "web.service" "abc" 5_000_000_001 [] failing

abbrev new_commit : Poll
new_commit = record {
  head_sha = "abc";
  changed = true;
  op_refresh_due = false;
  pp_refresh_due = false;
}

held_back_after_failures_example :
    work_of new_commit 40 (after_failed_ticks "abc" (10 ∷ 20 ∷ 30 ∷ []) new_state) ≡ (
      if leb 3 3 && ltb (40 - last_of 10 (20 ∷ 30 ∷ [])) failed_sha_expiry
      then held_back
      else Work.reconcile)
unfolding new_state
held_back_after_failures_example =
    held_back_after_failures new_commit 10 (20 ∷ 30 ∷ []) 40 new_state refl refl

abbrev open_access : Access
open_access = record {
  can_read = λ p. true;
  can_write = λ p. true;
  can_rename = λ p. false;
  can_remove = λ p. true;
}

all_or_nothing_example :
    (apply_with_rollback (host false) (plain false) open_access true three [] old_files).0
      "/q/web.container"
    ≡ promised three old_files "/q/web.container"
        (apply_with_rollback (host false) (plain false) open_access true three [] old_files).1
unfolding is_secret goes_to_secret
all_or_nothing_example =
    all_or_nothing (host false) (plain false) open_access true three [] old_files "/q/web.container"
      refl (refl, (refl, (refl, tt))) (refl, (refl, (refl, tt)))
      ((λ e. cc), ((λ e. cc), ((λ e. cc), tt))) (λ q t. ground arith) refl

-- The hook waits for a second try.
abbrev waiting : State
waiting = record new_state { pending_hooks = ("reload", 1) ∷ [] }

retry_settles_example :
    get "reload" (retry_pending_hooks (host true) (plain false) waiting fresh_run).0.pending_hooks
    ≡ (if contains "reload"
          (retry_pending_hooks
            (host true)
            (plain false)
            waiting
            fresh_run).1.result.pending_hook_names
        then kept [] "reload" (some (or_else (get "reload" waiting.pending_hooks) 0 + 1))
        else none)
unfolding keys
retry_settles_example =
    retry_settles (host true) (plain false) waiting fresh_run "reload" (refl, tt)
