-- ===== src/Applier/Fixtures.antt =====
-- A changeset of three files, a host and a disk, to run the apply on.
use picolet.Prelude.{String, Bool, true, false, none, some, [], ◌∷◌, ◌==◌, if◌then◌else◌}
use picolet.Config.Category.{Category}
use picolet.Changeset.{Action, update, delete, noop, Change, Changeset}
use picolet.Disk.{Disk}
use picolet.Applier.Types.{Env, Applier, Run, Call, daemon_reload, empty_apply_result}

abbrev pub change : String → Category → Action → String → Change
change path category action service = record {
  dest_path = path;
  category = category;
  action = action;
  new_content = "new";
  old_hash = "";
  new_hash = "";
  service_name = service;
  old_service_name = "";
  rel_path = "";
  sops_values = false;
}

abbrev pub three : Changeset
three = record {
  changes =
      change "/q/web.container" Category.container update "web.service"
      ∷ change "/q/old.volume" Category.volume delete "old-volume.service"
      ∷ change "/q/app.network" Category.network noop "app-network.service"
      ∷ [];
  summary = record { creates = 0; updates = 1; deletes = 1; noops = 1 };
}

abbrev is_reload : Call → Bool
is_reload daemon_reload = true
is_reload _ = false

-- Every call succeeds but the daemon-reload, which does as told.
abbrev pub host : Bool → Env
host reloads = record {
  succeeds = λ h c. if is_reload c then reloads else true;
  status_of = λ h u. none;
  image_of = λ h t. some "";
  status_code = λ h m u. some 204;
}

abbrev pub plain : Bool → Applier
plain dry = record {
  dry_run = dry;
  hooks = [];
  self_units = "picolet.service" ∷ [];
  self_config_unit = "";
  self_config_secret = "";
  deps = [];
  parse = λ f c. none;
  health_delay = 0;
  data_dir = "/data";
  host_data_dir = "/data";
  is_quadlet_url = λ p. false;
}

abbrev pub fresh_run : Run
fresh_run = record { history = []; result = empty_apply_result }

abbrev pub old_files : Disk
old_files p =
    if p == "/q/web.container" then some "old" else if p == "/q/old.volume" then some "v" else none
