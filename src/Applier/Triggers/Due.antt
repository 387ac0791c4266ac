-- ===== src/Applier/Triggers/Due.antt =====
-- pkg/applier/build.go: which image builds a changeset makes due.
use picolet.Prelude.{
  String, ◌≡◌, refl, ap, ◌∙◌, Bool, true, false, not, ◌&&◌, ◌||◌, Option, none, some, List, [], ◌∷◌,
  ◌==◌, arith, if◌then◌else◌, any, any-when, contains, sort, contains-sort,
}
use picolet.FilePath.{base}
use picolet.BuildUnit.{resolve}
use picolet.Config.Lists.{contains-compact}
use picolet.Changeset.{Change, Action, create, update, delete, noop, is_noop, is_write}
use picolet.Applier.Types.{Applier, UnitFile}
use picolet.Applier.Phase.{restart_policy}
use picolet.Applier.Triggers.{
  changes_file, host_path, changed_paths, is_input, input_changed, build_triggered, is_rebuild,
  collect_builds, triggered_builds,
}

any-changed_paths :
    (f : String → Bool) (a : Applier) (cs : List Change)
    → any f (changed_paths a cs) ≡ any (λ d. changes_file d && f (host_path a d.dest_path)) cs
unfolding changed_paths
any-changed_paths f a [] = refl
any-changed_paths f a (c ∷ rest) =
    any-when f (changes_file c) (host_path a c.dest_path) (changed_paths a rest)
    ∙ ap (λ y. changes_file c && f (host_path a c.dest_path) || y) (any-changed_paths f a rest)

-- An unchanged unit of this parse reads a file that the changeset changes.
abbrev pub reads_changed : Applier → List Change → String → Option UnitFile → Bool
reads_changed a cs path none = false
reads_changed a cs path (some u) =
    any
      (λ d.
        changes_file d
        && is_input (resolve a.is_quadlet_url u.build path) (host_path a d.dest_path))
      cs

-- The change is of a build unit whose service is `s`, and its build is due: the unit's own file is
-- written, or the file is unchanged and one of its inputs is not.
abbrev pub makes_due : Applier → List Change → String → Change → Bool
makes_due a cs s c =
    is_rebuild (restart_policy c.category)
    && not (c.service_name == "")
    && s == c.service_name
    && (is_write c.action
        || (is_noop c.action
            && reads_changed a cs c.dest_path (a.parse (base c.dest_path) c.new_content)))

input_changed_lem :
    (a : Applier) (cs : List Change) (path : String) (u : Option UnitFile)
    → input_changed a path (changed_paths a cs) u ≡ reads_changed a cs path u
unfolding input_changed
input_changed_lem a cs path none = refl
input_changed_lem a cs path (some u) =
    any-changed_paths (is_input (resolve a.is_quadlet_url u.build path)) a cs

build_triggered_lem :
    (a : Applier) (cs : List Change) (c : Change)
    → build_triggered a c (changed_paths a cs) ≡ (
        is_write c.action
        || (is_noop c.action
            && reads_changed a cs c.dest_path (a.parse (base c.dest_path) c.new_content)))
unfolding build_triggered
build_triggered_lem a cs c =
    by_action c.action
      (input_changed_lem a cs c.dest_path (a.parse (base c.dest_path) c.new_content))
  where
    by_action :
        (action : Action) {x y : Bool}
        → x ≡ y
        → elim action [ create ↦ true | update ↦ true | delete ↦ false | noop ↦ x ]
          ≡ (is_write action || (is_noop action && y))
    by_action create h = refl
    by_action update h = refl
    by_action delete h = refl
    by_action noop h = h

contains-if :
    (s service : String) (r n : Bool) {t t' : Bool}
    → t ≡ t'
    → (tags : List String) (acc : List String × List String) {x : Bool} → contains s acc.0 ≡ x
    → contains s (if r && n && t then (service ∷ acc.0, tags) else acc).0
      ≡ (r && n && s == service && t' || x)
contains-if s service r n h tags acc k = ground (arith, h, k)

contains-collect_builds :
    (s : String) (a : Applier) (cs rest : List Change)
    → contains s (collect_builds a (changed_paths a cs) rest).0 ≡ any (makes_due a cs s) rest
unfolding collect_builds
contains-collect_builds s a cs [] = refl
contains-collect_builds s a cs (c ∷ rest) =
    contains-if s c.service_name (is_rebuild (restart_policy c.category))
      (not (c.service_name == "")) (build_triggered_lem a cs c) _
      (collect_builds a (changed_paths a cs) rest) (contains-collect_builds s a cs rest)

-- A build runs exactly when the changeset makes it due: some change is of a build unit of that
-- service, and writes the unit's file or leaves it while a change writes or deletes a file, as the
-- host sees its path, that the unit reads as a Containerfile or finds under its build context.
pub triggered_builds_lem :
    (s : String) (a : Applier) (cs : List Change)
    → contains s (triggered_builds a cs).0 ≡ any (makes_due a cs s) cs
unfolding triggered_builds
triggered_builds_lem s a cs =
    let found = (collect_builds a (changed_paths a cs) cs).0 in
    ground (
      arith,
      contains-compact s (sort found),
      contains-sort s found,
      contains-collect_builds s a cs cs,
    )
