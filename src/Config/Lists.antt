-- ===== src/Config/Lists.antt =====
-- `slices.Compact`, and `SortedUnique` of pkg/config/config.go.
use picolet.Prelude.{
  String, ◌≡◌, refl, ◌∙◌, List, [], ◌∷◌, ◌==◌, if◌then◌else◌, sort, contains, contains-sort, arith,
  eq_iff,
}

-- `slices.Compact`
unfoldable pub compact : List String → List String
compact [] = []
compact (x ∷ []) = x ∷ []
compact (x ∷ y ∷ rest) = let others = compact (y ∷ rest) in if x == y then others else x ∷ others

pub contains-compact : (s : String) (xs : List String) → contains s (compact xs) ≡ contains s xs
unfolding compact
contains-compact s [] = refl
contains-compact s (x ∷ []) = refl
contains-compact s (x ∷ y ∷ rest) = ground (arith, contains-compact s (y ∷ rest), eq_iff x y)

-- `SortedUnique`
unfoldable pub sorted_unique : List String → List String
unfolding compact sort
sorted_unique values = compact (sort values)

pub contains-sorted_unique :
    (s : String) (values : List String) → contains s (sorted_unique values) ≡ contains s values
unfolding sorted_unique
contains-sorted_unique s values = contains-compact s (sort values) ∙ contains-sort s values
