-- ===== src/Applier/Types.antt =====
-- pkg/applier/applier.go: the calls that an apply makes, its result, and the sets it collects.
use picolet.Prelude.{ℕ, String, Bool, false, Option, List, [], ◌∷◌, ◌++◌}
use picolet.GoMap.{GoMap}
use picolet.Config.Category.{Category}
use picolet.Config.Hook.{Hook}
use picolet.Systemd.{UnitStatus}
use picolet.Status.{UnitDependencies}
use picolet.BuildUnit.{BuildKeys}

pub data Op : Type 0 where
  enable disable start restart : Op

-- The methods of `SystemdManager`, `PodmanClient` and `FileWriter` that change something, and the
-- operations on the agent's own units that run after the apply (`later_…`).
pub data Call : Type 0 where
  daemon_reload : Call
  unit_op : Op → String → Call
  stop_unit : String → Call
  run_build_unit : String → Call
  restart_ignoring_dependencies : String → Call
  secret_create : String → String → Bool → Call
  secret_remove : String → Call
  container_kill : String → String → Call
  http_request : String → String → Call
  health_wait : Call
  image_tag : String → String → Call
  image_untag : String → Call
  mkdir_all : String → Call
  write_file : String → String → Call
  remove_file : String → Call
  later_restart : String → Call
  later_stop : String → Call
  later_restart_ignoring : String → Call

-- Calls with their outcomes, the newest first.
abbrev pub History : Type 0
History = List (Call × Bool)

pub record Env : Type 0 where
  pub succeeds : History → Call → Bool
  pub status_of : History → String → Option UnitStatus
  -- Podman's answer to `ImageID`, `some ""` where no image has the tag.
  pub image_of : History → String → Option String
  -- The status of the response to a request, `none` where the request fails.
  pub status_code : History → String → String → Option ℕ

-- What picolet asks of a unit file that Podman's parser has read.
pub record UnitFile : Type 0 where
  pub has_install : Bool
  pub service_type : String
  pub pod : String
  pub start_with_pod : Bool
  pub build : BuildKeys
  pub image_tags : List String

pub data ApplyError : Type 0 where
  op_failed : Op → String → ApplyError
  restart_failed : String → ApplyError
  status_failed : String → ApplyError
  hook_failed : String → ApplyError
  hook_fallback : String → ApplyError
  change_failed : String → ApplyError
  reload_failed : ApplyError
  build_failed : String → ApplyError
  image_failed : ApplyError

pub data OpResult : Type 0 where
  success error skipped : OpResult

pub record UnitOp : Type 0 where
  pub unit : String
  pub operation : Op
  pub outcome : OpResult

pub data HookResult : Type 0 where
  hook_success hook_failure hook_fallback_restart hook_skipped : HookResult

pub record HookOutcome : Type 0 where
  pub name : String
  pub action : String
  pub outcome : HookResult

pub record ApplyResult : Type 0 where
  pub applied : ℕ
  pub errors : List ApplyError
  pub retryable_errors : List ApplyError
  pub needs_self_restart : Bool
  pub self_config_changed : Bool
  pub restarted_units : List String
  pub deferred_self_stops : List String
  pub failed_restart_units : List String
  pub pending_hook_names : List String
  pub fallback_restarted_units : List String
  pub attempted_hook_names : List String
  pub hook_outcomes : List HookOutcome
  pub systemd_unit_ops : List UnitOp

-- `parse` is Podman's parser, `none` where it refuses the content. `health_delay` is the hooks'
-- delay before a health check, `is_quadlet_url` Quadlet's pattern of a URL.
pub record Applier : Type 0 where
  pub dry_run : Bool
  pub hooks : List Hook
  pub self_units : List String
  pub self_config_unit : String
  pub self_config_secret : String
  pub deps : GoMap UnitDependencies
  pub parse : String → String → Option UnitFile
  pub health_delay : ℕ
  pub data_dir : String
  pub host_data_dir : String
  pub is_quadlet_url : String → Bool

-- What the changes of an apply collect for its later steps. `changed_rels` is the map from categories
-- to sets of relative paths, as its pairs.
pub record Phase : Type 0 where
  pub changed_units : List String
  pub changed_secrets : List String
  pub changed_rels : List (Category × String)
  pub activations : List (String × Op)
  pub oneshot_units : List String
  pub changed_pods : GoMap String
  pub pod_members : GoMap String
  pub builds : List String
  pub build_tags : List String
  pub needs_reload : Bool

pub record Run : Type 0 where
  pub history : History
  pub result : ApplyResult

abbrev pub empty_phase : Phase
empty_phase = record {
  changed_units = [];
  changed_secrets = [];
  changed_rels = [];
  activations = [];
  oneshot_units = [];
  changed_pods = [];
  pod_members = [];
  builds = [];
  build_tags = [];
  needs_reload = false;
}

abbrev pub empty_apply_result : ApplyResult
empty_apply_result = record {
  applied = 0;
  errors = [];
  retryable_errors = [];
  needs_self_restart = false;
  self_config_changed = false;
  restarted_units = [];
  deferred_self_stops = [];
  failed_restart_units = [];
  pending_hook_names = [];
  fallback_restarted_units = [];
  attempted_hook_names = [];
  hook_outcomes = [];
  systemd_unit_ops = [];
}

-- Make a call: its outcome is the environment's answer, and it joins the history.
unfoldable pub call : Env → Call → Run → Run × Bool
call env c r = let ok = env.succeeds r.history c in (record r { history = (c, ok) ∷ r.history }, ok)

abbrev pub add_error : ApplyError → ApplyResult → ApplyResult
add_error e res = record res { errors = res.errors ++ e ∷ [] }

abbrev pub add_unit_op : String → Op → OpResult → ApplyResult → ApplyResult
add_unit_op unit op outcome res = record res {
  systemd_unit_ops =
      res.systemd_unit_ops ++ (record { unit = unit; operation = op; outcome = outcome }) ∷ [];
}
