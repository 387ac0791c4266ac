-- ===== src/Prelude/Sets.antt =====
-- Sorted lists of strings (`slices.Sorted`, `slices.Sort`), and lists with no repeated member.
use Prim.Native.Nat.{suc, Ordering}
use Prim.Native.String.{String, compare}
use mathlib.Core.Path.{◌≡◌, refl}
use mathlib.Core.Bool.{Bool, true, false, ◌||◌}
use mathlib.Core.List.{List, [], ◌∷◌}
use native.Mathlib.Omega.{arith}
use text.Mathlib.Text.{◌==◌}
use text.Mathlib.TextEquality.{eq_iff}
use picolet.Prelude.Tests.{if◌then◌else◌}
use picolet.Prelude.Lists.{contains, length}

abbrev pub str_leb : String → String → Bool
str_leb a b = elim (compare a b) [ Ordering.gt ↦ false | _ ↦ true ]

unfoldable pub insert_sorted : String → List String → List String
insert_sorted k [] = k ∷ []
insert_sorted k (x ∷ xs) = if str_leb k x then k ∷ x ∷ xs else x ∷ insert_sorted k xs

unfoldable pub sort : List String → List String
unfolding insert_sorted
sort [] = []
sort (x ∷ xs) = insert_sorted x (sort xs)

abbrev pub IsUnique : List String → Type 0
IsUnique [] = Unit
IsUnique (x ∷ xs) = (contains x xs ≡ false) × IsUnique xs

contains-insert_sorted :
    (j k : String) (xs : List String) → contains j (insert_sorted k xs) ≡ (j == k || contains j xs)
unfolding insert_sorted
contains-insert_sorted j k [] = refl
contains-insert_sorted j k (x ∷ xs) = ground (arith, contains-insert_sorted j k xs)

pub contains-sort : (j : String) (xs : List String) → contains j (sort xs) ≡ contains j xs
unfolding sort
contains-sort j [] = refl
contains-sort j (x ∷ xs) = ground (arith, contains-insert_sorted j x (sort xs), contains-sort j xs)

insert_sorted-IsUnique :
    (k : String) (xs : List String)
    → contains k xs ≡ false
    → IsUnique xs
    → IsUnique (insert_sorted k xs)
unfolding insert_sorted
insert_sorted-IsUnique k [] h s = (refl, tt)
insert_sorted-IsUnique k (x ∷ xs) h s = ground (
  arith,
  h,
  s.0,
  s.1,
  insert_sorted-IsUnique k xs (ground (arith, h)) s.1,
  contains-insert_sorted x k xs,
  eq_iff k x,
  eq_iff x k,
)

pub sort-IsUnique : (xs : List String) → IsUnique xs → IsUnique (sort xs)
unfolding sort
sort-IsUnique [] s = tt
sort-IsUnique (x ∷ xs) s =
    insert_sorted-IsUnique x (sort xs) (ground (arith, s.0, contains-sort x xs))
      (sort-IsUnique xs s.1)

length-insert_sorted :
    (k : String) (xs : List String) → length (insert_sorted k xs) ≡ suc (length xs)
unfolding insert_sorted
length-insert_sorted k [] = refl
length-insert_sorted k (x ∷ xs) = ground (arith, length-insert_sorted k xs)

pub length-sort : (xs : List String) → length (sort xs) ≡ length xs
unfolding sort
length-sort [] = refl
length-sort (x ∷ xs) = ground (arith, length-insert_sorted x (sort xs), length-sort xs)
