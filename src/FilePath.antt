-- ===== src/FilePath.antt =====
-- The parts of Go's `path`, `path/filepath` and `strings` that picolet asks of file and unit names.
pub mod Clean
pub mod Text
use Prim.Native.Char.{Char, code}
use Prim.Native.String.{[], ◌∷◌}
use picolet.Prelude.{String, ◌≡◌, refl, Option, none, some, eqb, if◌then◌else◌}

-- What a walk from the end of a name has met: a suffix that begins with the last dot of the last
-- element, a slash before any dot, or neither yet.
pub data Scan : Type 0 where
  dotted : String → Scan
  slashed : Scan
  plain : Scan

step_ext : Char → String → Scan → Scan
step_ext c rest (dotted e) = dotted e
step_ext c rest slashed = slashed
step_ext c rest plain =
    if eqb (code c) b'/' then slashed else if eqb (code c) b'.' then dotted (c ∷ rest) else plain

scan_ext : String → Scan
unfolding step_ext
scan_ext [] = plain
scan_ext (c ∷ rest) = step_ext c rest (scan_ext rest)

found_ext : Scan → String
found_ext (dotted e) = e
found_ext _ = ""

-- `filepath.Ext`
unfoldable pub ext : String → String
unfolding found_ext scan_ext
ext name = found_ext (scan_ext name)

-- The text behind the last slash, of a text without slashes at its end.
after_slash : String → Option String
after_slash [] = none
after_slash (c ∷ rest) = elim (after_slash rest) [
  | some t ↦ some t
  | none ↦ if eqb (code c) b'/' then some rest else none
]

drop_slashes : String → String
drop_slashes [] = ""
drop_slashes (c ∷ rest) = elim (drop_slashes rest) [
  | [] ↦ if eqb (code c) b'/' then "" else (c ∷ [])
  | d ∷ more ↦ c ∷ d ∷ more
]

element : String → Option String → String
element [] _ = "/"
element (c ∷ rest) none = c ∷ rest
element (c ∷ rest) (some t) = t

-- `filepath.Base`
unfoldable pub base : String → String
unfolding element after_slash drop_slashes
base [] = "."
base (c ∷ rest) = let trimmed = drop_slashes (c ∷ rest) in element trimmed (after_slash trimmed)

-- The text up to and with the last slash.
to_slash : String → String
to_slash [] = ""
to_slash (c ∷ rest) = elim (to_slash rest) [
  | [] ↦ if eqb (code c) b'/' then c ∷ [] else ""
  | d ∷ more ↦ c ∷ d ∷ more
]

directory : String → String → String
directory path [] = elim path [ [] ↦ "." | _ ∷ _ ↦ "/" ]
directory path (c ∷ rest) = c ∷ rest

-- `filepath.Dir` of a clean path.
unfoldable pub dir : String → String
unfolding directory to_slash drop_slashes
dir path = let up = to_slash path in directory up (drop_slashes up)

-- `strings.CutPrefix`
unfoldable pub cut_prefix : String → String → Option String
cut_prefix [] s = some s
cut_prefix (c ∷ p) [] = none
cut_prefix (c ∷ p) (d ∷ s) =
    let rest = cut_prefix p s in if eqb (code c) (code d) then rest else none

base_tests : base "/etc/systemd/web.timer" ≡ "web.timer"
unfolding base
base_tests = refl

base_slash : base "a/b//" ≡ "b"
unfolding base
base_slash = refl

ext_tests : ext "web.d/job.tar.timer" ≡ ".timer"
unfolding ext
ext_tests = refl

ext_none : ext "web.d/job" ≡ ""
unfolding ext
ext_none = refl

cut_prefix_test : cut_prefix "secret:" "secret:token" ≡ some "token"
unfolding cut_prefix
cut_prefix_test = refl

dir_tests : dir "/etc/containers/web.pod" ≡ "/etc/containers"
unfolding dir
dir_tests = refl

dir_root : dir "/web.pod" ≡ "/"
unfolding dir
dir_root = refl

dir_none : dir "web.pod" ≡ "."
unfolding dir
dir_none = refl
