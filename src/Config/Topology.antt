-- ===== src/Config/Topology.antt =====
-- pkg/config/topology.go: the Hosts of a Fleet that would collide on one Machine. `lower` stands for
-- `strings.ToLower`, by which Machines are compared.
pub mod Distinct
mod Tests
use picolet.Prelude.{
  String, Bool, true, false, ◌&&◌, Option, none, some, List, [], ◌∷◌, ◌++◌, ◌==◌, if◌then◌else◌,
  sort,
}
use picolet.Prelude.Int.{ℤ, same_int}
use picolet.GoMap.{GoMap, get, keys}
use picolet.Config.Host.{HostConfig}

-- Each names the directory of the earlier Host and that of the later.
pub data Collision : Type 0 where
  same_hostname same_user same_port : String → String → Collision

abbrev pub HostDir : Type 0
HostDir = String × HostConfig

abbrev pub share_hostname : HostConfig → HostConfig → Bool
share_hostname g h = g.hostname == h.hostname

module _ (lower : String → String) where
  abbrev pub share_user : HostConfig → HostConfig → Bool
  share_user g h = lower g.machine == lower h.machine && g.user == h.user

  abbrev pub share_port : HostConfig → HostConfig → Bool
  share_port g h = lower g.machine == lower h.machine && same_int g.listen_port h.listen_port

-- One of the maps from a key to the first directory with it, as the Hosts that it was filled from.
unfoldable pub first_sharing :
    (HostConfig → HostConfig → Bool) → HostConfig → List HostDir → Option String
first_sharing share h [] = none
first_sharing share h ((dir, g) ∷ rest) =
    let others = first_sharing share h rest in if share g h then some dir else others

abbrev pub noted : Option String → HostDir → List HostDir → List HostDir
noted none h firsts = h ∷ firsts
noted (some dir) h firsts = firsts

abbrev pub collision :
    (String → String → Collision) → Option String → String → List Collision → List Collision
collision kind none dir rest = rest
collision kind (some first) dir rest = kind first dir ∷ rest

module _ (lower : String → String) where
  -- The loop of `validateTopology`, with its three maps.
  unfoldable pub collisions :
      List HostDir → List HostDir → List HostDir → List HostDir → List Collision
  unfolding first_sharing
  collisions by_hostname by_user by_port [] = []
  collisions by_hostname by_user by_port ((dir, h) ∷ rest) =
      let hostname = first_sharing share_hostname h by_hostname in
      let user = first_sharing (share_user lower) h by_user in
      let port = first_sharing (share_port lower) h by_port in
      collision same_hostname hostname dir (
        collision same_user user dir (
          collision same_port port dir (
            collisions (noted hostname (dir, h) by_hostname) (noted user (dir, h) by_user)
              (noted port (dir, h) by_port) rest)))

-- The Hosts of these directories.
unfoldable pub hosts_of : GoMap HostConfig → List String → List HostDir
unfolding get
hosts_of hosts [] = []
hosts_of hosts (dir ∷ dirs) = elim (get dir hosts) [
  | none ↦ hosts_of hosts dirs
  | some h ↦ (dir, h) ∷ hosts_of hosts dirs
]

module _ (lower : String → String) where
  -- `validateTopology`: no collision is no error.
  unfoldable pub validate_topology : GoMap HostConfig → List Collision
  unfolding collisions hosts_of sort keys
  validate_topology hosts = collisions lower [] [] [] (hosts_of hosts (sort (keys hosts)))
