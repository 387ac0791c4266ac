-- ===== src/Config/Hook/Tests.antt =====
-- A hook of each action.
use picolet.Prelude.{String, ◌≡◌, refl, true, ◌&&◌, Option, some, [], ◌∷◌}
use picolet.Prelude.Int.{pos}
use picolet.FilePath.{cut_prefix}
use picolet.Config.Hook.{Hook}
use picolet.Config.Hook.Normalize.{
  passed, refused, field_set, refuse_if, normalize_secrets, normalize_paths, any_set,
  normalize_signal_action, normalize_restart_action, normalize_on_failure, normalize_action,
  normalize_rest, normalize,
}
use picolet.Config.Hook.Runnable.{all_passed, is_complete, knows_failure, normalize_lem}

abbrev reload : Hook
reload = record {
  name = "reload";
  secrets = "secret:token" ∷ [];
  manifests = [];
  files = [];
  unit = "web.service";
  action = "signal";
  method = "";
  url = "";
  health_url = "";
  container = "web";
  signal = "";
  on_failure = "";
  max_retries = pos 0;
}

abbrev no_url : String → Option (String × String)
no_url raw = some ("", "")

normalizes_signal :
    normalize no_url reload
    ≡ passed (record reload {
      secrets = "token" ∷ [];
      signal = "HUP";
      on_failure = "keep_running";
      max_retries = pos 10;
    })
unfolding normalize normalize_rest normalize_secrets normalize_paths normalize_action
    normalize_signal_action normalize_on_failure any_set refuse_if cut_prefix
normalizes_signal = refl

refuses_foreign_field : normalize no_url (record reload { action = "restart" }) ≡ refused field_set
unfolding normalize normalize_rest normalize_secrets normalize_paths normalize_action
    normalize_restart_action normalize_on_failure any_set refuse_if cut_prefix
refuses_foreign_field = refl

normalize_lem_example :
    all_passed (λ k. is_complete no_url k && knows_failure k) (normalize no_url reload) ≡ true
normalize_lem_example = normalize_lem no_url reload
