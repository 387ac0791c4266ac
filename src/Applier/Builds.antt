-- ===== src/Applier/Builds.antt =====
-- `runBuilds` of pkg/applier/build.go: the triggered image builds, and the image tags put back where
-- one fails.
use picolet.Prelude.{
  String, Bool, true, false, ◌&&◌, Option, none, some, List, [], ◌∷◌, ◌==◌, if◌then◌else◌, or_else,
}
use picolet.GoMap.{GoMap, get, put}
use picolet.Applier.Types.{
  Env, Run, ApplyError, build_failed, image_failed, call, run_build_unit, image_tag, image_untag,
}
use picolet.Applier.Hooks.{is_empty}
use picolet.Applier.Restart.{add_restarted}

-- `imageIDs`; `none` where a query fails.
unfoldable pub image_ids : Env → List String → GoMap String → Run → Option (GoMap String)
image_ids env [] ids r = some ids
image_ids env (tag ∷ rest) ids r = elim (env.image_of r.history tag) [
  | none ↦ none
  | some id ↦ image_ids env rest (put tag id ids) r
]

-- A turn of `restoreTags`, and whether it succeeded.
unfoldable pub restore_tag : Env → GoMap String → String → Run → Run × Bool
unfolding call
restore_tag env before tag r = elim (env.image_of r.history tag) [
  | none ↦ (r, false)
  | some now ↦
      let old = or_else (get tag before) "" in
      if now == old
      then (r, true)
      else if old == ""
      then call env (image_untag tag) r
      else call env (image_tag old tag) r
]

-- `restoreTags`: every tag, errors or not.
unfoldable pub restore_tags : Env → GoMap String → List String → Run → Run × Bool
unfolding restore_tag
restore_tags env before [] r = (r, true)
restore_tags env before (tag ∷ rest) r =
    let (r', ok) = restore_tag env before tag r in
    let (r'', rest_ok) = restore_tags env before rest r' in (r'', ok && rest_ok)

-- The loop of `runBuilds`; the first failure ends it.
unfoldable pub run_each_build :
    Env → GoMap String → List String → List String → Run → Run × List ApplyError
unfolding call restore_tags
run_each_build env before tags [] r = (r, [])
run_each_build env before tags (unit ∷ rest) r =
    let (r', ok) = call env (run_build_unit unit) r in
    let (restored, tags_ok) = restore_tags env before tags r' in
    if ok
    then run_each_build env before tags rest (record r' { result = add_restarted unit r'.result })
    else (restored, build_failed unit ∷ (if tags_ok then [] else image_failed ∷ []))

-- The builds once the image tags are recorded.
unfoldable pub run_recorded :
    Env → List String → List String → Option (GoMap String) → Run → Run × List ApplyError
unfolding run_each_build
run_recorded env builds tags none r = (r, image_failed ∷ [])
run_recorded env builds tags (some before) r = run_each_build env before tags builds r

-- `runBuilds`; the errors are those that `errors.Join` joins, none on success.
unfoldable pub run_builds : Env → List String → List String → Run → Run × List ApplyError
unfolding image_ids run_recorded
run_builds env builds tags r =
    if is_empty builds then (r, []) else run_recorded env builds tags (image_ids env tags [] r) r
