-- ===== src/FilePath/Text.antt =====
-- `strings.HasPrefix`, `strings.Contains` of one character and a lower-case comparison.
use Prim.Native.Char.{code}
use picolet.Prelude.{
  ℕ, ◌+◌, String, ◌≡◌, refl, Bool, true, false, ◌&&◌, ◌||◌, eqb, leb, if◌then◌else◌,
}

unfoldable pub has_prefix : String → String → Bool
has_prefix String.[] s = true
has_prefix (String.◌∷◌ c p) String.[] = false
has_prefix (String.◌∷◌ c p) (String.◌∷◌ d s) = eqb (code c) (code d) && has_prefix p s

-- The text holds a character of this code.
unfoldable pub has_code : ℕ → String → Bool
has_code n String.[] = false
has_code n (String.◌∷◌ c s) = eqb (code c) n || has_code n s

-- Go's lower case of a code, where that is a letter of ASCII: beside A to Z, those of U+0130 and
-- U+212A are i and k.
abbrev pub lower_code : ℕ → ℕ
lower_code n =
    if leb 65 n && leb n 90
    then n + 32
    else if eqb n 304
    then 105
    else if eqb n 8490
    then 107
    else n

-- `strings.ToLower(s) == t`, for a `t` in ASCII.
unfoldable pub lowers_to : String → String → Bool
lowers_to String.[] String.[] = true
lowers_to String.[] (String.◌∷◌ d t) = false
lowers_to (String.◌∷◌ c s) String.[] = false
lowers_to (String.◌∷◌ c s) (String.◌∷◌ d t) = eqb (lower_code (code c)) (code d) && lowers_to s t

lowers_to_test : lowers_to "FiLe" "file" ≡ true
unfolding lowers_to
lowers_to_test = refl
