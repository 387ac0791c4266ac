-- ===== src/Reconciler/Changes.antt =====
-- A changeset of `diff` as one list: the desired files in order, then the deletes.
use mathlib.Core.List.{append_assoc, append-nil}
use picolet.Prelude.{
  String, ◌≡◌, sym, ap, ◌∙◌, List, [], ◌∷◌, ◌++◌, map, if◌then◌else◌, Bool-cases, inl, inr,
}
use picolet.GoMap.{GoMap}
use picolet.State.{State, ManagedFile}
use picolet.Changeset.{ResolvedFile, Change, Changeset, add_change}
use picolet.Reconciler.{
  diff, add_desired, add_deletes, classify_file, delete_change, seen, empty_changeset,
}

unfoldable pub classified : (String → String) → List ResolvedFile → State → List Change
classified hash desired st = map (λ f. classify_file hash f st) desired

unfoldable pub deleted : List ResolvedFile → GoMap ManagedFile → State → List Change
deleted desired [] st = []
deleted desired ((p, mf) ∷ rest) st =
    let others = deleted desired rest st in
    if seen p desired then others else delete_change p mf st ∷ others

changes-add_desired :
    (hash : String → String) (desired : List ResolvedFile) (st : State) (cs : Changeset)
    → (add_desired hash desired st cs).changes ≡ cs.changes ++ classified hash desired st
unfolding add_desired add_change classified
changes-add_desired hash [] st cs = sym (append-nil cs.changes)
changes-add_desired hash (f ∷ rest) st cs =
    changes-add_desired hash rest st (add_change cs (classify_file hash f st))
    ∙ append_assoc cs.changes (classify_file hash f st ∷ []) (classified hash rest st)

changes-add_deletes :
    (desired : List ResolvedFile) (m : GoMap ManagedFile) (st : State) (cs : Changeset)
    → (add_deletes desired m st cs).changes ≡ cs.changes ++ deleted desired m st
unfolding add_deletes add_change deleted
changes-add_deletes desired [] st cs = sym (append-nil cs.changes)
changes-add_deletes desired ((p, mf) ∷ rest) st cs = elim (Bool-cases (seen p desired)) [
  | inl old ↦ rw (old, add_deletes) (changes-add_deletes desired rest st cs)
  | inr new ↦
      rw (new, add_deletes)
        (changes-add_deletes desired rest st (add_change cs (delete_change p mf st))
          ∙ append_assoc cs.changes (delete_change p mf st ∷ []) (deleted desired rest st))
]

pub changes-diff :
    (hash : String → String) (desired : List ResolvedFile) (st : State)
    → (diff hash desired st).changes
      ≡ classified hash desired st ++ deleted desired st.managed_files st
unfolding diff
changes-diff hash desired st =
    changes-add_deletes desired st.managed_files st (add_desired hash desired st empty_changeset)
    ∙ ap (λ (l : List Change). l ++ deleted desired st.managed_files st)
        (changes-add_desired hash desired st empty_changeset)
