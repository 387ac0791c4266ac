-- ===== src/Config/Host/Sound.antt =====
-- pkg/config/host.go: a Host that passes its checks and gets its defaults.
use picolet.Prelude.{
  String, ◌≡◌, refl, Bool, true, false, ◌&&◌, Option, none, some, ◌==◌, arith, if◌then◌else◌,
  Bool-cases, Option-cases, inl, inr,
}
use picolet.Prelude.Int.{ℤ}
use picolet.GoMap.{GoMap}
use picolet.Config.Host.{
  HostConfig, HostError, retired_key, hostname_missing, role_missing, listen_port_invalid,
  valid_port, validate_machine, validate, apply_defaults, holds_of_configured, with_fleet_port,
  is_invalid_port, or_next,
}

-- The Host has a Machine whose name is a hostname label, and its Agent a port to listen on.
abbrev pub is_reachable : (String → Bool) → HostConfig → Bool
is_reachable is_label h = is_label h.machine && valid_port h.listen_port

module _ (is_user_name : String → Bool) (is_label : String → Bool) where
  machine_valid :
      (h : HostConfig)
      → validate_machine is_user_name is_label h ≡ none
      → is_label (if h.machine == "" then h.hostname else h.machine) ≡ true
  unfolding validate_machine
  machine_valid h v = elim (Bool-cases (h.machine == "")) [
    | inl absent ↦ rw absent (ground (arith, v, absent))
    | inr given ↦ rw given (ground (arith, v, given))
  ]

or_next-none :
    (first next : Option HostError) → or_next first next ≡ none → (first ≡ none) × (next ≡ none)
or_next-none none next h = (refl, h)
or_next-none (some e) next h = ground (arith, h)

if_none :
    (b : Bool) (e : HostError) (next : Option HostError)
    → (if b then some e else next) ≡ none
    → (b ≡ false) × (next ≡ none)
if_none true e next h = ground (arith, h)
if_none false e next h = (refl, h)

module _ (is_user_name : String → Bool) (is_label : String → Bool) where
  validated :
      (bootstrap_error : Option HostError) (h : HostConfig)
      → validate is_user_name is_label bootstrap_error h ≡ none
      → (validate_machine is_user_name is_label h ≡ none)
        × (is_invalid_port h.declared_listen_port ≡ false)
  unfolding validate
  validated bootstrap_error h v =
      let current = (if_none h.retired retired_key _ v).1 in
      let named = (if_none (h.hostname == "") hostname_missing _ current).1 in
      let ranked = (if_none (h.role == "") role_missing _ named).1 in
      let machine =
        or_next-none (validate_machine is_user_name is_label h) _ (or_next-none _ _ ranked).1 in
      (
        machine.0,
        (if_none (is_invalid_port h.declared_listen_port) listen_port_invalid bootstrap_error
            machine.1).0,
      )

with_fleet_port_valid :
    (is_label : String → Bool) (port : Option ℤ) (h : HostConfig)
    → is_label h.machine ≡ true
    → holds_of_configured (is_reachable is_label) (with_fleet_port port h) ≡ true
with_fleet_port_valid is_label none h m = refl
with_fleet_port_valid is_label (some p) h m = elim (Bool-cases (valid_port p)) [
  | inl valid ↦ rw valid (ground (arith, m, valid))
  | inr invalid ↦ rw invalid refl
]

-- A Host that passes its checks and gets its defaults has a Machine whose name is a hostname label,
-- also where that is its own hostname, and a listen port from 1 to 65535, also where the port is
-- the Fleet's.
pub apply_defaults_lem :
    (is_user_name is_label : String → Bool) (bootstrap_error : Option HostError) (ports : GoMap ℤ)
    (h : HostConfig)
    → validate is_user_name is_label bootstrap_error h ≡ none
    → holds_of_configured (is_reachable is_label) (apply_defaults ports h) ≡ true
unfolding apply_defaults
apply_defaults_lem is_user_name is_label bootstrap_error ports h v =
    let (machine, port) = validated is_user_name is_label bootstrap_error h v in
    let labelled = machine_valid is_user_name is_label h machine in
    elim (Option-cases h.declared_listen_port) [
      | inl absent ↦ rw absent (with_fleet_port_valid is_label _ _ labelled)
      | inr (p, declared) ↦ rw declared (ground (arith, labelled, port, declared))
    ]
