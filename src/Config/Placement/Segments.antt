-- ===== src/Config/Placement/Segments.antt =====
-- pkg/config/categories.go: the rule of the first segment.
use picolet.Prelude.{
  String, ◌≡◌, refl, ap, sym, ◌∙◌, Bool, true, false, Option, none, some, List, [], ◌∷◌, ◌==◌,
  arith, if◌then◌else◌, any, is_some, eq_sound, Bool-cases, Option-cases, inl, inr,
}
use picolet.Config.Category.{Category}
use picolet.Config.Placement.{
  segment_category, Placement, placed, unplaced, misplaced, named_once, deep_segments, place_of,
  judge_segments, category_for_segment,
}

-- The segment is the directory of a category.
abbrev pub is_special : String → Bool
is_special seg = is_some (segment_category seg)

abbrev pub is_misplaced : Placement → Bool
is_misplaced (misplaced e) = true
is_misplaced _ = false

-- A name that is too deep stays so.
deep_stays :
    (rest named : List String) (deep : String)
    → (deep == "") ≡ false
    → is_misplaced (judge_segments (deep_segments rest named deep)) ≡ true
unfolding deep_segments judge_segments
deep_stays [] [] deep h = ground (arith, h)
deep_stays [] (seg ∷ []) deep h = ground (arith, h)
deep_stays [] (seg ∷ other ∷ more) deep h = refl
deep_stays (seg ∷ rest) named deep h = elim (Bool-cases (is_some (segment_category seg))) [
  | inl special ↦ rw (special, h) (deep_stays rest (named_once seg named) deep h)
  | inr plain ↦ rw plain (deep_stays rest named deep h)
]

-- The empty segment is no category's directory.
special_nonempty : (seg : String) → is_special seg ≡ true → (seg == "") ≡ false
unfolding segment_category
special_nonempty seg h = elim (Bool-cases (seg == "")) [
  | inl empty ↦
      let special : false ≡ true = sym (ap is_special (eq_sound seg "" empty)) ∙ h in
      ground (arith, special)
  | inr full ↦ full
]

deep_found :
    (rest named : List String)
    → any is_special rest ≡ true
    → is_misplaced (judge_segments (deep_segments rest named "")) ≡ true
unfolding deep_segments
deep_found [] named h = ground (arith, h)
deep_found (seg ∷ rest) named h = elim (Bool-cases (is_some (segment_category seg))) [
  | inl special ↦
      rw special (deep_stays rest (named_once seg named) seg (special_nonempty seg special))
  | inr plain ↦ rw plain (deep_found rest named (ground (arith, h, plain)))
]

none_deep :
    (rest named : List String)
    → any is_special rest ≡ false
    → deep_segments rest named "" ≡ (named, "")
unfolding deep_segments
none_deep [] named h = refl
none_deep (seg ∷ rest) named h = elim (Bool-cases (is_some (segment_category seg))) [
  | inl special ↦ ground (arith, h, special)
  | inr plain ↦ rw plain (none_deep rest named (ground (arith, h, plain)))
]

-- The outcome without the error's words: the category that the directory selects, if one, or nothing.
abbrev pub outcome : Placement → Option (Option Category)
outcome (misplaced e) = none
outcome unplaced = some none
outcome (placed c) = some (some c)

misplaced_outcome : (p : Placement) → is_misplaced p ≡ true → outcome p ≡ none
misplaced_outcome (misplaced e) h = refl
misplaced_outcome unplaced h = ground (arith, h)
misplaced_outcome (placed c) h = ground (arith, h)

place_of-outcome : (c : Option Category) → outcome (place_of c) ≡ some c
place_of-outcome none = refl
place_of-outcome (some c) = refl

first_alone :
    (seg : String)
    → outcome (judge_segments (if is_special seg then seg ∷ [] else [], ""))
      ≡ some (segment_category seg)
unfolding judge_segments
first_alone seg = elim (Option-cases (segment_category seg)) [
  | inl plain ↦ rw plain refl
  | inr (c, special) ↦ rw special (place_of-outcome (segment_category seg) ∙ ap some special)
]

-- The directory of a Fleet file decides: it is an error exactly where a category's directory
-- (manifests, files or secrets) stands below the first segment, the same one again included; else the
-- first segment alone selects the category, or none.
pub category_for_segment_lem :
    (seg : String) (rest : List String)
    → outcome (category_for_segment (seg ∷ rest))
      ≡ (if any is_special rest then none else some (segment_category seg))
unfolding category_for_segment
category_for_segment_lem seg rest =
    let named = if is_special seg then seg ∷ [] else [] in
    elim (Bool-cases (any is_special rest)) [
      | inl deep ↦ rw deep (
          misplaced_outcome (judge_segments (deep_segments rest named ""))
            (deep_found rest named deep))
      | inr fine ↦ rw (fine, none_deep rest named fine) (first_alone seg)
    ]
