-- ===== src/Config/Assignments/Tests.antt =====
-- The entries of one Host.
use picolet.Prelude.{String, ◌≡◌, refl, false, ◌||◌, none, List, [], ◌∷◌, any, contains, sort}
use picolet.Prelude.Int.{pos}
use picolet.GoMap.{get}
use picolet.Config.Lists.{sorted_unique, compact}
use picolet.Config.Host.{HostConfig}
use picolet.Config.Assignments.{
  AssignmentGroup, Assignments, merge, merge_found, merge_features, resolve,
}
use picolet.Config.Assignments.Merged.{service_entry, listed_by, merged, assigns, resolve_lem}

abbrev group : List String → AssignmentGroup
group services = record { paths = []; secrets = []; services = services; retired = [] }

abbrev fleet : Assignments
fleet = record {
  base = group ("proxy" ∷ []);
  roles = ("edge", group ("dns" ∷ "proxy" ∷ [])) ∷ ("core", group ("db" ∷ [])) ∷ [];
  features = ("vpn", group ("wg" ∷ [])) ∷ [];
  retired_pi_types = false;
}

abbrev edge_host : HostConfig
edge_host = record {
  hostname = "pi-1";
  role = "edge";
  features = "vpn" ∷ "gpu" ∷ [];
  machine = "";
  user = "";
  listen_port = pos 9417;
  declared_listen_port = none;
  retired = false;
}

edge_services : (resolve fleet edge_host).services ≡ "dns" ∷ "proxy" ∷ "wg" ∷ []
unfolding resolve merge merge_found merge_features get sorted_unique compact sort
edge_services = refl

resolve_lem_example : contains "db" (merged service_entry (resolve fleet edge_host)) ≡ (
    contains "db" (listed_by service_entry fleet.base)
    || (assigns service_entry "db" fleet.roles edge_host.role
        || any (assigns service_entry "db" fleet.features) edge_host.features))
resolve_lem_example = resolve_lem service_entry "db" fleet edge_host
