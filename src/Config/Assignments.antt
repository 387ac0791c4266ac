-- ===== src/Config/Assignments.antt =====
-- pkg/config/assignments.go: the entries that a Host gets from its role and features.
pub mod Merged
mod Tests
use Prim.Native.String.{◌++◌ as ◌++s◌}
use picolet.Prelude.{String, Option, none, some, List, [], ◌∷◌, ◌++◌, Bool, if◌then◌else◌, sort}
use picolet.GoMap.{GoMap, get, keys}
use picolet.Config.Lists.{sorted_unique}
use picolet.Config.Host.{HostConfig}

-- `retired` holds the keys of the retired typed lists that are present, in the source's order.
pub record AssignmentGroup : Type 0 where
  pub paths : List String
  pub secrets : List String
  pub services : List String
  pub retired : List String

pub record Assignments : Type 0 where
  pub base : AssignmentGroup
  pub roles : GoMap AssignmentGroup
  pub features : GoMap AssignmentGroup
  pub retired_pi_types : Bool

pub record ResolvedFileSet : Type 0 where
  pub paths : List String
  pub secrets : List String
  pub services : List String

-- `merge`
unfoldable pub merge : AssignmentGroup → ResolvedFileSet → ResolvedFileSet
merge g r = record {
  paths = r.paths ++ g.paths;
  secrets = r.secrets ++ g.secrets;
  services = r.services ++ g.services;
}

-- A group that may be missing.
unfoldable pub merge_found : Option AssignmentGroup → ResolvedFileSet → ResolvedFileSet
unfolding merge
merge_found none r = r
merge_found (some g) r = merge g r

unfoldable pub merge_features :
    GoMap AssignmentGroup → List String → ResolvedFileSet → ResolvedFileSet
unfolding merge_found get
merge_features groups [] r = r
merge_features groups (feature ∷ rest) r =
    merge_features groups rest (merge_found (get feature groups) r)

abbrev pub no_entries : ResolvedFileSet
no_entries = record { paths = []; secrets = []; services = [] }

abbrev pub sorted : ResolvedFileSet → ResolvedFileSet
sorted r = record {
  paths = sorted_unique r.paths;
  secrets = sorted_unique r.secrets;
  services = sorted_unique r.services;
}

-- `Resolve`
unfoldable pub resolve : Assignments → HostConfig → ResolvedFileSet
unfolding merge merge_found merge_features get sorted_unique
resolve a host =
    let with_role = merge_found (get host.role a.roles) (merge a.base no_entries) in
    sorted (merge_features a.features host.features with_role)

-- `retiredListErrors`: the group and the key of each retired list.
unfoldable pub retired_list_errors : String → List String → List (String × String)
retired_list_errors group [] = []
retired_list_errors group (key ∷ rest) = (group, key) ∷ retired_list_errors group rest

abbrev retired_of : Option AssignmentGroup → List String
retired_of none = []
retired_of (some g) = g.retired

-- The retired lists of the groups of these names.
unfoldable pub retired_in : String → GoMap AssignmentGroup → List String → List (String × String)
unfolding retired_list_errors get
retired_in prefix groups [] = []
retired_in prefix groups (name ∷ rest) =
    retired_list_errors (prefix ++s name) (retired_of (get name groups))
    ++ retired_in prefix groups rest

pub data AssignmentsError : Type 0 where
  retired_pi_types_key : AssignmentsError
  retired_lists : List (String × String) → AssignmentsError

abbrev joined : List (String × String) → Option AssignmentsError
joined [] = none
joined (e ∷ es) = some (retired_lists (e ∷ es))

-- `Validate`
unfoldable pub validate : Assignments → Option AssignmentsError
unfolding retired_list_errors retired_in sort keys
validate a =
    if a.retired_pi_types
    then some retired_pi_types_key
    else joined (
        retired_list_errors "base" a.base.retired
        ++ retired_in "roles." a.roles (sort (keys a.roles))
        ++ retired_in "features." a.features (sort (keys a.features)))
