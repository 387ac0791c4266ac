-- ===== src/Config/Host/Tests.antt =====
-- A Host with the Fleet's port.
use picolet.Prelude.{String, ◌≡◌, refl, Bool, true, false, not, none, [], ◌∷◌, ◌==◌}
use picolet.Prelude.Int.{ℤ, pos}
use picolet.GoMap.{GoMap, get}
use picolet.Config.Host.{
  HostConfig, rootful, valid_port, validate_user, validate_machine, validate, apply_defaults,
  holds_of_configured, configured,
}
use picolet.Config.Host.Sound.{is_reachable, apply_defaults_lem}

abbrev pi : HostConfig
pi = record {
  hostname = "pi-1";
  role = "edge";
  features = [];
  machine = "";
  user = "";
  listen_port = pos 0;
  declared_listen_port = none;
  retired = false;
}

abbrev ports : GoMap ℤ
ports = ("picolet_metrics", pos 9417) ∷ ("picolet_system_metrics", pos 9418) ∷ []

abbrev is_name : String → Bool
is_name s = not (s == "")

rootful_port :
    apply_defaults ports pi ≡ configured (record pi { machine = "pi-1"; listen_port = pos 9418 })
unfolding apply_defaults rootful valid_port get
rootful_port = refl

apply_defaults_lem_example :
    holds_of_configured (is_reachable is_name) (apply_defaults ports pi) ≡ true
unfolding validate validate_user validate_machine
apply_defaults_lem_example = apply_defaults_lem is_name is_name none ports pi refl
