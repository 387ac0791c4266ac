-- ===== src/Config/Topology/Tests.antt =====
-- Two Hosts on one Machine.
use picolet.Prelude.{String, ◌≡◌, refl, false, ◌&&◌, none, [], ◌∷◌, length, eqb, sort}
use picolet.Prelude.Int.{pos}
use picolet.GoMap.{GoMap, get, keys}
use picolet.Config.Host.{HostConfig}
use picolet.Config.Topology.{
  share_hostname, share_user, share_port, first_sharing, collisions, hosts_of, validate_topology,
}
use picolet.Config.Topology.Distinct.{are_apart, validate_topology_lem}

abbrev host : String → String → String → HostConfig
host hostname machine user = record {
  hostname = hostname;
  role = "edge";
  features = [];
  machine = machine;
  user = user;
  listen_port = pos 9417;
  declared_listen_port = none;
  retired = false;
}

-- They share the port and the Machine, but neither the user nor the hostname.
abbrev pair : GoMap HostConfig
pair = ("b", host "pi-2" "vps" "app") ∷ ("a", host "pi-1" "vps" "") ∷ []

one_collision : length (validate_topology (λ s. s) pair) ≡ 1
unfolding validate_topology collisions hosts_of first_sharing get keys sort
one_collision = refl

validate_topology_lem_example : eqb (length (validate_topology (λ s. s) pair)) 0 ≡ (
    are_apart share_hostname (hosts_of pair (sort (keys pair)))
    && are_apart (share_user (λ s. s)) (hosts_of pair (sort (keys pair)))
    && are_apart (share_port (λ s. s)) (hosts_of pair (sort (keys pair))))
validate_topology_lem_example = validate_topology_lem (λ s. s) pair
