-- ===== src/Applier/Sorted.antt =====
-- `sortedByCategory` of pkg/applier/applier.go keeps its changes.
use picolet.Prelude.{
  ◌≡◌, refl, ap, ◌∙◌, Bool, List, [], ◌∷◌, ◌||◌, arith, any, Bool-cases, inl, inr,
}
use picolet.Changeset.{Change}
use picolet.Applier.Phase.{sorted_by_category, insert_change, comes_first}

or_swap : (x y z : Bool) → (x || (y || z)) ≡ (y || (x || z))
or_swap x y z = ground arith

pub any-insert_change :
    (f : Change → Bool) (c : Change) (cs : List Change)
    → any f (insert_change c cs) ≡ (f c || any f cs)
unfolding insert_change
any-insert_change f c [] = refl
any-insert_change f c (d ∷ rest) = elim (Bool-cases (comes_first c d)) [
  | inl first ↦ rw (first) refl
  | inr later ↦ rw (later, any-insert_change f c rest) (or_swap (f d) (f c) (any f rest))
]

pub any-sorted_by_category :
    (f : Change → Bool) (cs : List Change) → any f (sorted_by_category cs) ≡ any f cs
unfolding sorted_by_category
any-sorted_by_category f [] = refl
any-sorted_by_category f (c ∷ rest) =
    any-insert_change f c (sorted_by_category rest)
    ∙ ap (λ b. f c || b) (any-sorted_by_category f rest)
