-- ===== src/Config/Placement.antt =====
-- pkg/config/categories.go: the category of a Fleet file, from where it lies and what it is called.
pub mod Segments
mod Tests
use picolet.Prelude.{
  ℕ, suc, String, ◌≡◌, refl, Bool, true, false, not, ◌&&◌, ◌||◌, Option, none, some, List, [], ◌∷◌,
  ◌++◌, ◌==◌, if◌then◌else◌, contains, is_some,
}
use picolet.FilePath.{ext}
use picolet.FilePath.Clean.{split, join}
use picolet.Config.Category.{
  Category, Spec, Destination, dest_data, dest_secret, Check, check_unsupported, categories,
  network, volume, container, kube, image, artifact, build, pod, systemd,
}

abbrev is_placed : Destination → Bool
is_placed dest_data = true
is_placed dest_secret = true
is_placed _ = false

placed_in : String → List Spec → Option Category
placed_in seg [] = none
placed_in seg (s ∷ rest) =
    let others = placed_in seg rest in
    if is_placed s.dest && seg == s.subdir then some s.category else others

-- `segmentCategories[seg]`
unfoldable pub segment_category : String → Option Category
unfolding placed_in categories
segment_category seg = placed_in seg categories

-- `extensions[ext]`, which `CategoryForExtension` returns.
unfoldable pub category_for_extension : String → Option Category
category_for_extension e =
    if e == ".network"
    then some network
    else if e == ".volume"
    then some volume
    else if e == ".container"
    then some container
    else if e == ".kube"
    then some kube
    else if e == ".image"
    then some image
    else if e == ".artifact"
    then some artifact
    else if e == ".build"
    then some build
    else if e == ".pod"
    then some pod
    else if e == ".service" || e == ".timer" || e == ".socket" || e == ".target" || e == ".path"
    then some systemd
    else none

pub data PlacementError : Type 0 where
  two_segments : String → String → PlacementError
  deep_segment : String → PlacementError
  no_extension : PlacementError
  unknown_extension : String → PlacementError

-- A category, no category, or an error.
pub data Placement : Type 0 where
  placed : Category → Placement
  unplaced : Placement
  misplaced : PlacementError → Placement

abbrev pub named_once : String → List String → List String
named_once seg named = if contains seg named then named else (named ++ seg ∷ [])

-- The loop of `categoryForSegment`, from the second segment on: the names met and the first of them
-- that is too deep.
unfoldable pub deep_segments : List String → List String → String → List String × String
deep_segments [] named deep = (named, deep)
deep_segments (seg ∷ rest) named deep =
    let others = deep_segments rest (named_once seg named) (if deep == "" then seg else deep) in
    let skipped = deep_segments rest named deep in
    if is_some (segment_category seg) then others else skipped

abbrev pub place_of : Option Category → Placement
place_of none = unplaced
place_of (some c) = placed c

-- The switch of `categoryForSegment`.
unfoldable pub judge_segments : List String × String → Placement
judge_segments ([], deep) = if deep == "" then unplaced else misplaced (deep_segment deep)
judge_segments (seg ∷ [], deep) =
    if deep == "" then place_of (segment_category seg) else misplaced (deep_segment deep)
judge_segments (seg ∷ other ∷ rest, deep) = misplaced (two_segments seg other)

-- `categoryForSegment`, on the segments of a directory.
unfoldable pub category_for_segment : List String → Placement
unfolding deep_segments judge_segments
category_for_segment [] = unplaced
category_for_segment (seg ∷ rest) =
    judge_segments (deep_segments rest (if is_some (segment_category seg) then seg ∷ [] else []) "")

-- `strings.TrimSuffix`
unfoldable pub trim_suffix : String → String → String
trim_suffix suffix String.[] = ""
trim_suffix suffix (String.◌∷◌ c s) =
    let rest = trim_suffix suffix s in if String.◌∷◌ c s == suffix then "" else String.◌∷◌ c rest

-- `categoryForFileName`
unfoldable pub category_for_file_name : String → Placement
unfolding trim_suffix ext category_for_extension
category_for_file_name file =
    let name = trim_suffix ".tmpl" file in
    let e = ext name in
    elim (category_for_extension e) [
      | some c ↦ placed c
      | none ↦ misplaced (if e == "" || e == name then no_extension else unknown_extension e)
    ]

abbrev last_of : String → List String → String
last_of only [] = only
last_of first (e ∷ es) = last_of e es

-- The elements before the last; a path without a slash has the directory "", which is one segment.
abbrev before_last : String → List String → List String
before_last only [] = []
before_last first (e ∷ es) = first ∷ before_last e es

abbrev pub segments_of : List String → List String
segments_of [] = "" ∷ []
segments_of (e ∷ es) = elim (before_last e es) [ [] ↦ "" ∷ [] | d ∷ ds ↦ d ∷ ds ]

abbrev pub file_of : List String → String
file_of [] = ""
file_of (e ∷ es) = last_of e es

abbrev pub or_by_name : Placement → Placement → Placement
or_by_name unplaced by_name = by_name
or_by_name p by_name = p

-- `CategoryForPath`
unfoldable pub category_for_path : String → Placement
unfolding split category_for_segment category_for_file_name
category_for_path logical =
    let es = split logical in
    or_by_name (category_for_segment (segments_of es)) (category_for_file_name (file_of es))

abbrev is_deployed : Check → Bool
is_deployed check_unsupported = false
is_deployed _ = true

deployed : List Spec → List Category
deployed [] = []
deployed (s ∷ rest) =
    let others = deployed rest in if is_deployed s.check then s.category ∷ others else others

-- `Deployable`
unfoldable pub deployable : List Category
unfolding deployed categories
deployable = deployed categories

-- `DataPath`
unfoldable pub data_path : Spec → String → String → String
unfolding join
data_path s data_dir rel_path = join (join data_dir s.subdir) rel_path
