-- ===== src/Config/Assignments/Merged.antt =====
-- pkg/config/assignments.go: whose entries a Host gets.
use picolet.Prelude.{
  String, ◌≡◌, refl, ◌∙◌, Bool, false, ◌||◌, Option, none, some, List, [], ◌∷◌, arith, any,
  contains, contains-append,
}
use picolet.GoMap.{GoMap, get}
use picolet.Config.Lists.{contains-sorted_unique}
use picolet.Config.Host.{HostConfig}
use picolet.Config.Assignments.{
  AssignmentGroup, Assignments, ResolvedFileSet, merge, merge_found, merge_features, resolve,
  sorted, no_entries,
}

-- A kind of entry: how a group lists it, and how the merged set does.
pub data Kind : Type 0 where
  path_entry secret_entry service_entry : Kind

abbrev pub listed_by : Kind → AssignmentGroup → List String
listed_by path_entry g = g.paths
listed_by secret_entry g = g.secrets
listed_by service_entry g = g.services

abbrev pub merged : Kind → ResolvedFileSet → List String
merged path_entry r = r.paths
merged secret_entry r = r.secrets
merged service_entry r = r.services

abbrev group_lists : Kind → String → Option AssignmentGroup → Bool
group_lists kind entry none = false
group_lists kind entry (some g) = contains entry (listed_by kind g)

-- The group of this name, if there is one, lists the entry.
abbrev pub assigns : Kind → String → GoMap AssignmentGroup → String → Bool
assigns kind entry groups name = group_lists kind entry (get name groups)

contains-merge :
    (kind : Kind) (entry : String) (g : AssignmentGroup) (r : ResolvedFileSet)
    → contains entry (merged kind (merge g r))
      ≡ (contains entry (merged kind r) || contains entry (listed_by kind g))
unfolding merge
contains-merge path_entry entry g r = contains-append entry r.paths g.paths
contains-merge secret_entry entry g r = contains-append entry r.secrets g.secrets
contains-merge service_entry entry g r = contains-append entry r.services g.services

contains-merge_found :
    (kind : Kind) (entry : String) (g : Option AssignmentGroup) (r : ResolvedFileSet)
    → contains entry (merged kind (merge_found g r))
      ≡ (contains entry (merged kind r) || group_lists kind entry g)
unfolding merge_found
contains-merge_found kind entry none r = ground arith
contains-merge_found kind entry (some g) r = contains-merge kind entry g r

contains-merge_features :
    (kind : Kind) (entry : String) (groups : GoMap AssignmentGroup) (names : List String)
    (r : ResolvedFileSet)
    → contains entry (merged kind (merge_features groups names r))
      ≡ (contains entry (merged kind r) || any (assigns kind entry groups) names)
unfolding merge_features
contains-merge_features kind entry groups [] r = ground arith
contains-merge_features kind entry groups (name ∷ rest) r =
    contains-merge_features kind entry groups rest (merge_found (get name groups) r)
    ∙ ground (arith, contains-merge_found kind entry (get name groups) r)

contains-sorted :
    (kind : Kind) (entry : String) (r : ResolvedFileSet)
    → contains entry (merged kind (sorted r)) ≡ contains entry (merged kind r)
contains-sorted path_entry entry r = contains-sorted_unique entry r.paths
contains-sorted secret_entry entry r = contains-sorted_unique entry r.secrets
contains-sorted service_entry entry r = contains-sorted_unique entry r.services

nothing_merged : (kind : Kind) (entry : String) → contains entry (merged kind no_entries) ≡ false
nothing_merged path_entry entry = refl
nothing_merged secret_entry entry = refl
nothing_merged service_entry entry = refl

-- A Host's merged set holds a path, a secret or a service exactly where the base group lists it, or
-- the group of its role, or that of one of its features.
pub resolve_lem :
    (kind : Kind) (entry : String) (a : Assignments) (host : HostConfig)
    → contains entry (merged kind (resolve a host)) ≡ (
        contains entry (listed_by kind a.base)
        || (assigns kind entry a.roles host.role
            || any (assigns kind entry a.features) host.features))
unfolding resolve
resolve_lem kind entry a host =
    let based = merge a.base no_entries in
    let with_role = merge_found (get host.role a.roles) based in
    let r = merge_features a.features host.features with_role in
    contains-sorted kind entry r
    ∙ contains-merge_features kind entry a.features host.features with_role
    ∙ ground (
      arith,
      contains-merge_found kind entry (get host.role a.roles) based,
      contains-merge kind entry a.base no_entries,
      nothing_merged kind entry,
    )
