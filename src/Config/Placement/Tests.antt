-- ===== src/Config/Placement/Tests.antt =====
-- Where Fleet files belong.
use picolet.Prelude.{◌≡◌, refl, none, some, [], ◌∷◌, if◌then◌else◌, any}
use picolet.FilePath.{ext}
use picolet.FilePath.Clean.{split}
use picolet.Config.Category.{
  Category, categories, container, network, systemd, volume, image, build, kube, pod, manifest,
  file, secret,
}
use picolet.Config.Placement.{
  placed, misplaced, deep_segment, segment_category, deep_segments, judge_segments,
  category_for_segment, trim_suffix, category_for_extension, category_for_file_name,
  category_for_path, deployable,
}
use picolet.Config.Placement.Segments.{is_special, outcome, category_for_segment_lem}

template_under_manifests : category_for_path "manifests/app/web.yml.tmpl" ≡ placed Category.manifest
unfolding category_for_path split category_for_segment deep_segments judge_segments segment_category
    categories
template_under_manifests = refl

template_by_name : category_for_path "web/web.container.tmpl" ≡ placed container
unfolding category_for_path split category_for_segment deep_segments judge_segments segment_category
    categories category_for_file_name trim_suffix ext category_for_extension
template_by_name = refl

deep_files : category_for_path "web/files/a.yml" ≡ misplaced (deep_segment "files")
unfolding category_for_path split category_for_segment deep_segments judge_segments segment_category
    categories
deep_files = refl

deployable_categories :
    deployable
    ≡ network ∷ systemd ∷ volume ∷ image ∷ build ∷ container ∷ kube ∷ pod ∷ manifest ∷ file ∷ secret
      ∷ []
unfolding deployable categories
deployable_categories = refl

category_for_segment_lem_example :
    outcome (category_for_segment ("files" ∷ "app" ∷ "files" ∷ []))
    ≡ (if any is_special ("app" ∷ "files" ∷ []) then none else some (segment_category "files"))
category_for_segment_lem_example = category_for_segment_lem "files" ("app" ∷ "files" ∷ [])
