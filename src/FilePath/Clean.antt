-- ===== src/FilePath/Clean.antt =====
-- `path.Clean`, `filepath.Join` and `filepath.Rel` of Go's library for paths with slashes. A path is
-- split into its elements, which the functions walk in order.
use Prim.Native.Char.{Char, code}
use Prim.Native.String.{◌++◌ as ◌++s◌}
use picolet.Prelude.{
  String, ◌≡◌, refl, Bool, true, false, not, ◌&&◌, ◌||◌, Option, none, some, List, [], ◌∷◌, ◌++◌,
  ◌==◌, eqb, if◌then◌else◌,
}

abbrev pub is_slash : Char → Bool
is_slash c = eqb (code c) b'/'

-- Put a character before the first element; a slash ends an element.
abbrev pub push_char : Char → List String → List String
push_char c [] = (String.◌∷◌ c String.[]) ∷ []
push_char c (e ∷ es) = if is_slash c then "" ∷ e ∷ es else (String.◌∷◌ c e) ∷ es

-- The elements of a path: the texts between its slashes.
unfoldable pub split : String → List String
split String.[] = "" ∷ []
split (String.◌∷◌ c s) = push_char c (split s)

abbrev pub join_slash : List String → String
join_slash [] = ""
join_slash (e ∷ []) = e
join_slash (e ∷ f ∷ es) = e ++s "/" ++s join_slash (f ∷ es)

unfoldable pub is_abs : String → Bool
is_abs String.[] = false
is_abs (String.◌∷◌ c s) = is_slash c

abbrev pub backs_up : String → Bool
backs_up e = e == ".."

-- One element, on the elements kept so far, the last one first.
unfoldable pub clean_element : Bool → String → List String → List String
clean_element rooted e kept =
    if e == "" || e == "." then kept else if not (backs_up e) then e ∷ kept else elim kept [
      | [] ↦ if rooted then [] else ".." ∷ []
      | top ∷ rest ↦ if backs_up top then ".." ∷ top ∷ rest else rest
    ]

unfoldable pub clean_elements : Bool → List String → List String → List String
unfolding clean_element
clean_elements rooted [] kept = kept
clean_elements rooted (e ∷ es) kept = clean_elements rooted es (clean_element rooted e kept)

abbrev pub backwards : List String → List String → List String
backwards [] out = out
backwards (e ∷ es) out = backwards es (e ∷ out)

-- The elements of the cleaned path.
unfoldable pub elements : String → List String
unfolding clean_elements
elements path = backwards (clean_elements (is_abs path) (split path) []) []

unfoldable pub print : Bool → List String → String
print rooted [] = if rooted then "/" else "."
print rooted (e ∷ es) = if rooted then "/" ++s join_slash (e ∷ es) else join_slash (e ∷ es)

-- `filepath.Clean`
unfoldable pub clean : String → String
unfolding elements print is_abs
clean path = print (is_abs path) (elements path)

-- `filepath.Join` of two elements.
unfoldable pub join : String → String → String
unfolding clean
join a b =
    if a == "" && b == ""
    then ""
    else if a == ""
    then clean b
    else if b == ""
    then clean a
    else clean (a ++s "/" ++s b)

abbrev pub ups : List String → List String
ups [] = []
ups (e ∷ es) = ".." ∷ ups es

-- The elements of the relative path, where both paths are rooted or both are not.
unfoldable pub rel_elements : List String → List String → Option (List String)
rel_elements [] targ = some targ
rel_elements (b ∷ base) [] = if backs_up b then none else some (ups (b ∷ base))
rel_elements (b ∷ base) (t ∷ targ) = elim (b == t) [
  | true ↦ rel_elements base targ
  | false ↦ if backs_up b then none else some (ups (b ∷ base) ++ t ∷ targ)
]

-- `filepath.Rel`, by the elements of its result: none of them is the path ".".
unfoldable pub rel : String → String → Option (List String)
unfolding elements rel_elements is_abs
rel base targ =
    let same = (is_abs base && is_abs targ) || (not (is_abs base) && not (is_abs targ)) in
    if same then rel_elements (elements base) (elements targ) else none

clean_tests : clean "/a//b/../c/./d/" ≡ "/a/c/d"
unfolding clean elements clean_elements clean_element split is_abs print
clean_tests = refl

clean_up : clean "a/../../b" ≡ "../b"
unfolding clean elements clean_elements clean_element split is_abs print
clean_up = refl

clean_root : clean "/.." ≡ "/"
unfolding clean elements clean_elements clean_element split is_abs print
clean_root = refl

rel_tests : rel "/data" "/data/files/a" ≡ some ("files" ∷ "a" ∷ [])
unfolding rel rel_elements elements clean_elements clean_element split is_abs
rel_tests = refl

rel_up : rel "/data/x" "/data/y" ≡ some (".." ∷ "y" ∷ [])
unfolding rel rel_elements elements clean_elements clean_element split is_abs
rel_up = refl
