-- ===== src/Config/Host.antt =====
-- pkg/config/host.go: a Host's configuration, its checks and its defaults. `is_user_name` and
-- `is_label` stand for the matches of the two regular expressions.
pub mod Sound
mod Tests
use picolet.Prelude.{
  String, Bool, true, false, not, ◌&&◌, ◌||◌, Option, none, some, List, ◌==◌, if◌then◌else◌, leb,
}
use picolet.Prelude.Int.{ℤ, pos, negsuc}
use picolet.GoMap.{GoMap, get}

-- The fields that the checks below read; `retired` is that a key of an older schema is present. Go's
-- `*int` is an option.
pub record HostConfig : Type 0 where
  pub hostname : String
  pub role : String
  pub features : List String
  pub machine : String
  pub user : String
  pub listen_port : ℤ
  pub declared_listen_port : Option ℤ
  pub retired : Bool

pub data HostError : Type 0 where
  retired_key hostname_missing role_missing user_root user_invalid machine_invalid
        listen_port_invalid listen_port_missing fleet_port_invalid :
      HostError

-- `Rootful`
unfoldable pub rootful : HostConfig → Bool
rootful h = h.user == ""

unfoldable pub valid_port : ℤ → Bool
valid_port (pos p) = leb 1 p && leb p 65_535
valid_port (negsuc p) = false

abbrev pub is_invalid_port : Option ℤ → Bool
is_invalid_port none = false
is_invalid_port (some p) = not (valid_port p)

-- The first of the two errors.
abbrev pub or_next : Option HostError → Option HostError → Option HostError
or_next (some e) next = some e
or_next none next = next

module _ (is_user_name : String → Bool) (is_label : String → Bool) where
  unfoldable pub validate_user : HostConfig → Option HostError
  validate_user h =
      if h.user == "root"
      then some user_root
      else if not (h.user == "") && not (is_user_name h.user)
      then some user_invalid
      else none

  unfoldable pub validate_machine : HostConfig → Option HostError
  validate_machine h =
      if h.machine == "" && not (is_label h.hostname)
      then some machine_invalid
      else if not (h.machine == "") && not (is_label h.machine)
      then some machine_invalid
      else none

  -- `Validate`; `bootstrap_error` is what the check of the `bootstrap:` block finds.
  unfoldable pub validate : Option HostError → HostConfig → Option HostError
  validate bootstrap_error h =
      if h.retired
      then some retired_key
      else if h.hostname == ""
      then some hostname_missing
      else if h.role == ""
      then some role_missing
      else or_next (validate_user h) (
          or_next (validate_machine h) (
            if is_invalid_port h.declared_listen_port
            then some listen_port_invalid
            else bootstrap_error))

-- A Host's configuration with its defaults, or an error.
pub data Defaulted : Type 0 where
  configured : HostConfig → Defaulted
  rejected : HostError → Defaulted

-- The port from the Fleet's `ports`, `none` where the key is missing.
abbrev pub with_fleet_port : Option ℤ → HostConfig → Defaulted
with_fleet_port none h = rejected listen_port_missing
with_fleet_port (some p) h =
    if valid_port p then configured (record h { listen_port = p }) else rejected fleet_port_invalid

-- `applyDefaults`, without the `bootstrap:` block.
unfoldable pub apply_defaults : GoMap ℤ → HostConfig → Defaulted
unfolding rootful get
apply_defaults ports host =
    let h : HostConfig = record host {
      machine = if host.machine == "" then host.hostname else host.machine;
    } in
    let key = if rootful h then "picolet_system_metrics" else "picolet_metrics" in
    elim h.declared_listen_port [
      | some p ↦ configured (record h { listen_port = p })
      | none ↦ with_fleet_port (get key ports) h
    ]

-- The test holds of an accepted configuration.
abbrev pub holds_of_configured : (HostConfig → Bool) → Defaulted → Bool
holds_of_configured p (configured h) = p h
holds_of_configured p (rejected e) = true
