-- ===== src/Config/RelPath.antt =====
-- pkg/config/relpath.go: relative paths that stay below the directory they are joined to.
use Prim.Native.Char.{Char, code}
use picolet.Prelude.{
  ℕ, String, ◌≡◌, refl, Bool, not, ◌&&◌, ◌||◌, Option, none, some, ◌==◌, eqb, leb, if◌then◌else◌,
}
use picolet.FilePath.Clean.{is_abs, clean, elements, clean_elements, clean_element, split, print}
use picolet.FilePath.Text.{has_prefix}

-- `unicode.IsSpace`
abbrev pub is_space : ℕ → Bool
is_space n =
    leb 9 n && leb n 13
    || eqb n 32
    || eqb n 133
    || eqb n 160
    || eqb n 5760
    || leb 8192 n && leb n 8202
    || eqb n 8232
    || eqb n 8233
    || eqb n 8239
    || eqb n 8287
    || eqb n 12_288

unfoldable pub trim_left : String → String
trim_left String.[] = ""
trim_left (String.◌∷◌ c s) =
    let rest = trim_left s in if is_space (code c) then rest else String.◌∷◌ c s

abbrev push_unless_blank : Char → String → String
push_unless_blank c String.[] = if is_space (code c) then "" else String.◌∷◌ c ""
push_unless_blank c (String.◌∷◌ d s) = String.◌∷◌ c (String.◌∷◌ d s)

unfoldable pub trim_right : String → String
trim_right String.[] = ""
trim_right (String.◌∷◌ c s) = push_unless_blank c (trim_right s)

-- `strings.TrimSpace`
unfoldable pub trim_space : String → String
unfolding trim_left trim_right
trim_space s = trim_right (trim_left s)

-- `ValidateRelPath`, `none` for its error.
unfoldable pub validate_rel_path : String → Option String
unfolding trim_space clean has_prefix
validate_rel_path raw =
    let trimmed = trim_space raw in
    let cleaned = clean trimmed in
    if trimmed == ""
      || not (trimmed == cleaned)
      || cleaned == "."
      || cleaned == ".."
      || has_prefix "/" cleaned
      || has_prefix "../" cleaned
    then none
    else some cleaned

accepts_nested : validate_rel_path " app/conf.d/a.yml " ≡ some "app/conf.d/a.yml"
unfolding validate_rel_path trim_space trim_left trim_right clean elements clean_elements
    clean_element split is_abs print has_prefix
accepts_nested = refl

refuses_escape : validate_rel_path "app/../../etc" ≡ none
unfolding validate_rel_path trim_space trim_left trim_right clean elements clean_elements
    clean_element split is_abs print has_prefix
refuses_escape = refl
