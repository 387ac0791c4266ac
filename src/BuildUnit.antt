-- ===== src/BuildUnit.antt =====
-- pkg/buildunit/buildunit.go: the local paths that an image build reads. `is_url` stands for Quadlet's
-- pattern of a URL.
use picolet.Prelude.{
  String, Bool, true, false, not, ◌&&◌, ◌||◌, Option, none, some, List, [], ◌∷◌, ◌++◌, ◌==◌,
  if◌then◌else◌,
}
use picolet.FilePath.{dir}
use picolet.FilePath.Clean.{is_abs, clean, join}
use picolet.FilePath.Text.{has_prefix, has_code, lowers_to}

-- The keys of a .build unit that its paths depend on; a missing key reads as "".
pub record BuildKeys : Type 0 where
  pub file : String
  pub set_working_directory : String
  pub working_directory : String

pub record Paths : Type 0 where
  pub context : String
  pub named_context : Bool
  pub containerfiles : List String
  pub containerfiles_complete : Bool

abbrev pub no_paths : Paths
no_paths = record {
  context = "";
  named_context = false;
  containerfiles = [];
  containerfiles_complete = false;
}

unfoldable pub reads_elsewhere : String → Bool
reads_elsewhere p =
    p == "-"
    || has_prefix "http://" p
    || has_prefix "https://" p
    || has_prefix "git://" p
    || has_prefix "github.com/" p

unfoldable pub unit_relative : String → String → String
unit_relative p unit_dir = if has_prefix "%" p || is_abs p then p else join unit_dir p

-- `none` where the unit does not determine the path.
unfoldable pub abs_path : String → String → Option String
abs_path p work_dir =
    if has_code b'%' p
    then none
    else if is_abs p
    then some (clean p)
    else if not (is_abs work_dir) || has_code b'%' work_dir
    then none
    else some (join work_dir p)

-- The context argument and the service's working directory.
unfoldable pub handle_set_working_directory :
    (String → Bool) → String → String → String → String → String × String
unfolding unit_relative
handle_set_working_directory is_url set_work_dir work_dir file unit_dir =
    if set_work_dir == ""
    then ("", work_dir)
    else if lowers_to set_work_dir "file"
    then (
      "",
      if work_dir == "" && not (file == "")
          then clean (dir (unit_relative file unit_dir))
          else work_dir,
    )
    else if lowers_to set_work_dir "unit"
    then ("", if work_dir == "" then unit_dir else work_dir)
    else if is_abs set_work_dir || is_url set_work_dir
    then (set_work_dir, work_dir)
    else if not (work_dir == "")
    then ("", work_dir)
    else (set_work_dir, unit_dir)

unfoldable pub without_context : String → String → Paths
unfolding reads_elsewhere abs_path
without_context file work_dir =
    if file == "" || reads_elsewhere file then no_paths else elim (abs_path file work_dir) [
      | none ↦ no_paths
      | some f ↦ record {
        context = dir f;
        named_context = false;
        containerfiles = f ∷ [];
        containerfiles_complete = true;
      }
    ]

abbrev pub or_empty : Option String → String
or_empty none = ""
or_empty (some s) = s

abbrev pub optional : Option String → List String
optional none = []
optional (some s) = s ∷ []

abbrev pub is_known : Option String → Bool
is_known none = false
is_known (some s) = true

-- The Containerfile joined to the context, unless it is the first candidate already.
unfoldable pub second_candidate : String → String → String → List String
second_candidate file context first =
    let joined = join context file in
    if not (has_prefix context file) && not (joined == first) then joined ∷ [] else []

unfoldable pub with_context : String → String → String → Paths
unfolding reads_elsewhere abs_path second_candidate
with_context file context_arg work_dir =
    let context =
      if reads_elsewhere context_arg then "" else or_empty (abs_path context_arg work_dir) in
    let first = abs_path file work_dir in
    let p = record no_paths { context = context } in
    if file == ""
    then (if context == "" then p else record p {
      containerfiles = join context "Containerfile" ∷ join context "Dockerfile" ∷ [];
      containerfiles_complete = true;
    })
    else if reads_elsewhere file
    then p
    else if context == "" || has_code b'%' file
    then record p { containerfiles = optional first }
    else record p {
      containerfiles = optional first ++ second_candidate file context (or_empty first);
      containerfiles_complete = is_known first;
    }

-- `Resolve`
unfoldable pub resolve : (String → Bool) → BuildKeys → String → Paths
unfolding handle_set_working_directory without_context with_context
resolve is_url u unit_path =
    let (arg, work_dir) =
      handle_set_working_directory is_url u.set_working_directory u.working_directory u.file
        (clean (dir unit_path)) in
    let named = not (arg == "") in
    let context_arg =
      if not named && not (has_prefix "%" u.file) && not (is_abs u.file) && not (is_url u.file)
      then work_dir
      else arg in
    if context_arg == ""
    then without_context u.file work_dir
    else let p = with_context u.file context_arg work_dir in
      record p { named_context = named && not (p.context == "") }
