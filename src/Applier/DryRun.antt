-- ===== src/Applier/DryRun.antt =====
-- A dry run of pkg/applier.
use picolet.Prelude.{
  ℕ, ◌+◌, String, ◌≡◌, refl, ap, true, none, List, [], ◌∷◌, arith, count_if, not, Bool-cases, inl,
  inr,
}
use picolet.Changeset.{Change, Changeset, is_noop}
use picolet.Applier.Types.{Env, Applier, Run, Phase, ApplyResult, empty_apply_result, empty_phase}
use picolet.Applier.Phase.{
  apply_step, apply_changes, apply_phase, sorted_by_category, insert_change, comes_first,
}
use picolet.Applier.Apply.{apply_with_pending, apply_without_restarts}

-- How many changes are to be made.
abbrev pub to_make : List Change → ℕ
to_make cs = count_if (λ c. not (is_noop c.action)) cs

-- The result of a run that has only counted changes.
abbrev pub counted : ℕ → ApplyResult
counted n = record empty_apply_result { applied = n }

to_make-insert_change :
    (c : Change) (cs : List Change) → to_make (insert_change c cs) ≡ to_make (c ∷ cs)
unfolding insert_change
to_make-insert_change c [] = refl
to_make-insert_change c (d ∷ rest) = elim (Bool-cases (comes_first c d)) [
  | inl first ↦ rw (first) refl
  | inr later ↦ rw (later) (omega (arith, to_make-insert_change c rest))
]

to_make-sorted_by_category : (cs : List Change) → to_make (sorted_by_category cs) ≡ to_make cs
unfolding sorted_by_category
to_make-sorted_by_category [] = refl
to_make-sorted_by_category (c ∷ rest) =
    rw (to_make-insert_change c (sorted_by_category rest), to_make-sorted_by_category rest) refl

abbrev tallied : ℕ → Run → Run
tallied n r = record r { result = record r.result { applied = r.result.applied + n } }

tallied_add : (m n : ℕ) (r : Run) → tallied n (tallied m r) ≡ tallied (m + n) r
tallied_add m n r = ap (λ k. record r { result = record r.result { applied = k } }) (omega arith)

tallied_zero : (r : Run) → r ≡ tallied 0 r
tallied_zero r = ap (λ k. record r { result = record r.result { applied = k } }) (omega arith)

apply_step-dry :
    (env : Env) (a : Applier) (c : Change) (p : Phase) (r : Run)
    → a.dry_run ≡ true
    → apply_step env a c p r ≡ ((p, tallied (to_make (c ∷ [])) r), none)
unfolding apply_step
apply_step-dry env a c p r dry = ground (arith, dry, tallied_zero r)

apply_changes-dry :
    (env : Env) (a : Applier) (cs : List Change) (p : Phase) (r : Run)
    → a.dry_run ≡ true
    → apply_changes env a cs p r ≡ ((p, tallied (to_make cs) r), none)
unfolding apply_changes
apply_changes-dry env a [] p r dry = ap (λ s. ((p, s), none)) (tallied_zero r)
apply_changes-dry env a (c ∷ rest) p r dry =
    let one = to_make (c ∷ []) in
    ground (
      arith,
      apply_step-dry env a c p r dry,
      apply_changes-dry env a rest p (tallied one r) dry,
      tallied_add one (to_make rest) r,
    )

-- A dry run makes no call, reports no error, and counts the changes that are not noops; and so does a
-- dry run that skips the restarts.
pub dry_run_lem :
    (env : Env) (a : Applier) (cs : Changeset) (pending : List String) (r : Run)
    → a.dry_run ≡ true
    → (apply_with_pending env a cs pending r
        ≡ (record { history = r.history; result = counted (to_make cs.changes) }, []))
      × (apply_without_restarts env a cs r
          ≡ (record { history = r.history; result = counted (to_make cs.changes) }, []))
unfolding apply_with_pending apply_without_restarts apply_phase
dry_run_lem env a cs pending r dry =
    let sorted = sorted_by_category cs.changes in
    let begun = record r { result = empty_apply_result } in
    let tally = apply_changes-dry env a sorted empty_phase begun dry in
    let n = to_make-sorted_by_category cs.changes in
    (ground (arith, tally, dry, n), ground (arith, tally, dry, n))
