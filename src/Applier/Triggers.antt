-- ===== src/Applier/Triggers.antt =====
-- `triggeredBuilds` of pkg/applier/build.go: the image builds that a changeset makes due, and the tags
-- that they write.
pub mod Due
mod Tests
use picolet.Prelude.{
  ℕ, String, Bool, true, false, not, ◌&&◌, ◌||◌, Option, none, some, List, [], ◌∷◌, ◌++◌, ◌==◌,
  if◌then◌else◌, any, contains, sort,
}
use picolet.FilePath.{base}
use picolet.FilePath.Clean.{rel, print, join, backs_up}
use picolet.BuildUnit.{Paths, resolve}
use picolet.Config.Lists.{compact}
use picolet.Config.Category.{Category, RestartPolicy, restart_rebuild}
use picolet.Changeset.{Change, Action, create, update, delete, noop, is_noop}
use picolet.Applier.Types.{Applier, UnitFile}
use picolet.Applier.Phase.{goes_to_secret, restart_policy}

-- A relative path that is neither "." nor leads out of its base.
abbrev pub stays_inside : Option (List String) → Bool
stays_inside none = false
stays_inside (some []) = false
stays_inside (some (e ∷ es)) = not (backs_up e)

-- `isWithin`
unfoldable pub is_within : String → String → Bool
unfolding rel
is_within path dir = not (dir == "") && stays_inside (rel dir path)

abbrev or_here : Option (List String) → List String
or_here none = []
or_here (some es) = es

-- `hostPath`
unfoldable pub host_path : Applier → String → String
unfolding is_within rel print join
host_path a path =
    if a.data_dir == a.host_data_dir || not (is_within path a.data_dir)
    then path
    else join a.host_data_dir (print false (or_here (rel a.data_dir path)))

unfoldable pub changes_file : Change → Bool
unfolding goes_to_secret
changes_file c = not (is_noop c.action) && not (goes_to_secret c.category)

unfoldable pub changed_paths : Applier → List Change → List String
unfolding changes_file host_path
changed_paths a [] = []
changed_paths a (c ∷ rest) =
    let others = changed_paths a rest in
    if changes_file c then host_path a c.dest_path ∷ others else others

abbrev pub is_input : Paths → String → Bool
is_input inputs p = contains p inputs.containerfiles || is_within p inputs.context

-- An unchanged .build of this parse: one of its inputs is among the changed paths.
unfoldable pub input_changed : Applier → String → List String → Option UnitFile → Bool
unfolding resolve is_within
input_changed a path changed none = false
input_changed a path changed (some u) =
    any (is_input (resolve a.is_quadlet_url u.build path)) changed

-- `buildTriggered`
unfoldable pub build_triggered : Applier → Change → List String → Bool
unfolding input_changed
build_triggered a c changed = elim c.action [
  | create ↦ true
  | update ↦ true
  | delete ↦ false
  | noop ↦ input_changed a c.dest_path changed (a.parse (base c.dest_path) c.new_content)
]

abbrev pub is_rebuild : RestartPolicy → Bool
is_rebuild restart_rebuild = true
is_rebuild _ = false

abbrev pub tags_of : Option UnitFile → List String
tags_of none = []
tags_of (some u) = u.image_tags

-- The second loop of `triggeredBuilds`.
unfoldable pub collect_builds : Applier → List String → List Change → List String × List String
unfolding build_triggered restart_policy
collect_builds a changed [] = ([], [])
collect_builds a changed (c ∷ rest) =
    let (builds, tags) = collect_builds a changed rest in
    if is_rebuild (restart_policy c.category)
      && not (c.service_name == "")
      && build_triggered a c changed
    then (c.service_name ∷ builds, tags_of (a.parse (base c.dest_path) c.new_content) ++ tags)
    else (builds, tags)

-- `triggeredBuilds`
unfoldable pub triggered_builds : Applier → List Change → List String × List String
unfolding collect_builds changed_paths sort compact
triggered_builds a cs =
    let (builds, tags) = collect_builds a (changed_paths a cs) cs in
    (compact (sort builds), compact (sort tags))
