-- ===== src/Applier/Triggers/Tests.antt =====
-- A changed Containerfile under the build context of an unchanged unit.
use picolet.Prelude.{◌≡◌, refl, false, some, List, [], ◌∷◌, any, contains, sort}
use picolet.FilePath.{base, dir}
use picolet.FilePath.Clean.{
  join, rel, rel_elements, clean, elements, clean_elements, clean_element, split, is_abs, print,
}
use picolet.FilePath.Text.{has_prefix, has_code, lowers_to}
use picolet.BuildUnit.{
  resolve, handle_set_working_directory, unit_relative, abs_path, without_context, with_context,
  reads_elsewhere, second_candidate,
}
use picolet.Config.Category.{Category, spec_for, categories, same_category}
use picolet.Config.Lists.{compact}
use picolet.Changeset.{Change, update, noop}
use picolet.Applier.Types.{Applier}
use picolet.Applier.Phase.{goes_to_secret, restart_policy}
use picolet.Applier.Fixtures.{change, plain}
use picolet.Applier.Triggers.{
  is_within, host_path, changes_file, changed_paths, input_changed, build_triggered, collect_builds,
  triggered_builds,
}
use picolet.Applier.Triggers.Due.{makes_due, triggered_builds_lem}

abbrev applier : Applier
applier = record (plain false) {
  parse = λ f c. some (record {
    has_install = false;
    service_type = "";
    pod = "";
    start_with_pod = false;
    build = record {
      file = "/srv/files/app/Containerfile";
      set_working_directory = "file";
      working_directory = "";
    };
    image_tags = "localhost/app" ∷ [];
  });
  host_data_dir = "/srv";
}

abbrev changes : List Change
changes =
    change "/q/app.build" Category.build noop "app-build.service"
    ∷ change "/data/files/app/run.sh" Category.file update ""
    ∷ []

app_is_due : triggered_builds applier changes ≡ ("app-build.service" ∷ [], "localhost/app" ∷ [])
unfolding triggered_builds collect_builds changed_paths changes_file host_path is_within
    input_changed build_triggered goes_to_secret restart_policy spec_for categories same_category
    compact sort resolve handle_set_working_directory unit_relative abs_path without_context
    with_context reads_elsewhere second_candidate has_prefix has_code lowers_to base dir join rel
    rel_elements clean elements clean_elements clean_element split is_abs print
app_is_due = refl

triggered_builds_lem_example :
    contains "app-build.service" (triggered_builds applier changes).0
    ≡ any (makes_due applier changes "app-build.service") changes
triggered_builds_lem_example = triggered_builds_lem "app-build.service" applier changes
