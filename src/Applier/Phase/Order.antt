-- ===== src/Applier/Phase/Order.antt =====
-- pkg/applier/applier.go: the order of the changes, and what their category says.
use picolet.Prelude.{
  ℕ, String, Bool, true, false, Option, none, some, List, [], ◌∷◌, if◌then◌else◌, leb, eqb, or_else,
  contains, str_leb,
}
use picolet.FilePath.{cut_prefix}
use picolet.Config.Category.{Category, Spec, dest_secret, RestartPolicy, restart_none, spec_for}
use picolet.Changeset.{Action, update, Change}
use picolet.Applier.Types.{Applier}

-- `applyRank`: a category that the table lacks has the largest int.
unfoldable pub apply_rank : Category → ℕ
unfolding spec_for
apply_rank c = elim (spec_for c) [ none ↦ 9_223_372_036_854_775_807 | some s ↦ s.apply_rank ]

unfoldable pub comes_first : Change → Change → Bool
unfolding apply_rank
comes_first x y =
    if eqb (apply_rank x.category) (apply_rank y.category)
    then str_leb x.dest_path y.dest_path
    else leb (apply_rank x.category) (apply_rank y.category)

unfoldable pub insert_change : Change → List Change → List Change
unfolding comes_first
insert_change c [] = c ∷ []
insert_change c (d ∷ rest) = if comes_first c d then c ∷ d ∷ rest else d ∷ insert_change c rest

-- `sortedByCategory`
unfoldable pub sorted_by_category : List Change → List Change
unfolding insert_change
sorted_by_category [] = []
sorted_by_category (c ∷ rest) = insert_change c (sorted_by_category rest)

abbrev pub is_secret_spec : Option Spec → Bool
is_secret_spec none = false
is_secret_spec (some s) = elim s.dest [ dest_secret ↦ true | _ ↦ false ]

-- `destination(category) == DestSecret`
unfoldable pub goes_to_secret : Category → Bool
unfolding spec_for
goes_to_secret c = is_secret_spec (spec_for c)

-- The restart policy of a category; one that the table lacks has Go's zero value.
unfoldable pub restart_policy : Category → RestartPolicy
unfolding spec_for
restart_policy c = elim (spec_for c) [ none ↦ restart_none | some s ↦ s.restart ]

-- `SecretNameFromPath` of pkg/reconciler
unfoldable pub secret_name : String → String
unfolding cut_prefix
secret_name path = or_else (cut_prefix "secret:" path) path

unfoldable pub is_self_unit : Applier → String → Bool
is_self_unit a unit = contains unit a.self_units

abbrev pub is_update : Action → Bool
is_update update = true
is_update _ = false
