-- ===== src/Reconciler/Diff.antt =====
-- What `diff` finds: a path is written, deleted or left alone exactly when the desired files and the
-- state say so, and the summary counts the changes.
use picolet.Prelude.{
  ℕ, ◌+◌, String, ◌≡◌, refl, Bool, true, false, not, ◌&&◌, ◌||◌, ◌==◌, List, [], ◌∷◌, ◌++◌, none,
  some, arith, Bool-cases, inl, inr, count_if, any, ltb, eq_iff, count_if-append,
}
use picolet.GoMap.{GoMap, get, has}
use picolet.State.{State, ManagedFile}
use picolet.Changeset.{
  Action, create, update, delete, noop, ResolvedFile, Change, Changeset, add_change, has_changes,
  deletes, writes, deletes_in, writes_in, is_noop,
}
use picolet.Reconciler.{
  diff, add_desired, add_deletes, classify_file, delete_change, seen, empty_changeset,
}
use picolet.Reconciler.Changes.{classified, deleted, changes-diff}

deletes_in-append :
    (p : String) (xs ys : List Change)
    → deletes_in (xs ++ ys) p ≡ (deletes_in xs p || deletes_in ys p)
unfolding deletes_in
deletes_in-append p [] ys = refl
deletes_in-append p (c ∷ xs) ys = ground (arith, deletes_in-append p xs ys)

writes_in-append :
    (p : String) (xs ys : List Change) → writes_in (xs ++ ys) p ≡ (writes_in xs p || writes_in ys p)
unfolding writes_in
writes_in-append p [] ys = refl
writes_in-append p (c ∷ xs) ys = ground (arith, writes_in-append p xs ys)

deletes_in-classified :
    (hash : String → String) (desired : List ResolvedFile) (st : State) (p : String)
    → deletes_in (classified hash desired st) p ≡ false
unfolding deletes_in classified classify_file
deletes_in-classified hash [] st p = refl
deletes_in-classified hash (f ∷ rest) st p = ground (arith, deletes_in-classified hash rest st p)

deletes_in-deleted :
    (desired : List ResolvedFile) (m : GoMap ManagedFile) (st : State) (p : String)
    → deletes_in (deleted desired m st) p ≡ (has p m && not (seen p desired))
unfolding deletes_in deleted delete_change get
deletes_in-deleted desired [] st p = refl
deletes_in-deleted desired ((j, mf) ∷ rest) st p =
    ground (arith, deletes_in-deleted desired rest st p, eq_iff p j, eq_iff j p)

writes_in-deleted :
    (desired : List ResolvedFile) (m : GoMap ManagedFile) (st : State) (p : String)
    → writes_in (deleted desired m st) p ≡ false
unfolding writes_in deleted delete_change
writes_in-deleted desired [] st p = refl
writes_in-deleted desired ((j, mf) ∷ rest) st p =
    ground (arith, writes_in-deleted desired rest st p)

-- The state records the content that `f` should have.
abbrev pub is_current : (String → String) → State → ResolvedFile → Bool
is_current hash st f = elim (get f.dest_path st.managed_files) [
  | none ↦ false
  | some mf ↦ mf.hash == hash f.content
]

-- Some desired file at `p` has content that the state does not record.
abbrev pub is_stale : (String → String) → List ResolvedFile → State → String → Bool
is_stale hash desired st p = any (λ f. f.dest_path == p && not (is_current hash st f)) desired

writes_in-classified :
    (hash : String → String) (desired : List ResolvedFile) (st : State) (p : String)
    → writes_in (classified hash desired st) p ≡ is_stale hash desired st p
unfolding writes_in classified classify_file
writes_in-classified hash [] st p = refl
writes_in-classified hash (f ∷ rest) st p = ground (arith, writes_in-classified hash rest st p)

-- For every path: the changeset writes it exactly when a desired file at it has content that the
-- state does not record, and deletes it exactly when it is managed and no desired file has it.
pub diff_exact :
    (hash : String → String) (desired : List ResolvedFile) (st : State) (p : String)
    → (writes (diff hash desired st) p ≡ is_stale hash desired st p)
      × (deletes (diff hash desired st) p ≡ (has p st.managed_files && not (seen p desired)))
unfolding writes deletes
diff_exact hash desired st p =
    let found = classified hash desired st in
    let gone = deleted desired st.managed_files st in
    (
      rw (changes-diff hash desired st) (
          ground (
            arith,
            writes_in-append p found gone,
            writes_in-classified hash desired st p,
            writes_in-deleted desired st.managed_files st p,
          )),
      rw (changes-diff hash desired st) (
          ground (
            arith,
            deletes_in-append p found gone,
            deletes_in-classified hash desired st p,
            deletes_in-deleted desired st.managed_files st p,
          )),
    )

abbrev same_action : Action → Action → Bool
same_action create create = true
same_action update update = true
same_action delete delete = true
same_action noop noop = true
same_action _ _ = false

abbrev pub tally : Action → List Change → ℕ
tally a changes = count_if (λ c. same_action a c.action) changes

-- The summary counts the changes of each action.
pub record IsTallied (cs : Changeset) : Type 0 where
  pub creates : cs.summary.creates ≡ tally create cs.changes
  pub updates : cs.summary.updates ≡ tally update cs.changes
  pub deletes : cs.summary.deletes ≡ tally delete cs.changes
  pub noops : cs.summary.noops ≡ tally noop cs.changes

tally_append : (a : Action) (xs ys : List Change) → tally a (xs ++ ys) ≡ tally a xs + tally a ys
tally_append a xs ys = count_if-append (λ (c : Change). same_action a c.action) xs ys

add_change-IsTallied : (cs : Changeset) (c : Change) → IsTallied cs → IsTallied (add_change cs c)
unfolding add_change
add_change-IsTallied cs c h = ground (
  arith,
  tally_append create cs.changes (c ∷ []),
  tally_append update cs.changes (c ∷ []),
  tally_append delete cs.changes (c ∷ []),
  tally_append noop cs.changes (c ∷ []),
)

add_desired-IsTallied :
    (hash : String → String) (desired : List ResolvedFile) (st : State) (cs : Changeset)
    → IsTallied cs
    → IsTallied (add_desired hash desired st cs)
unfolding add_desired
add_desired-IsTallied hash [] st cs h = h
add_desired-IsTallied hash (f ∷ rest) st cs h =
    add_desired-IsTallied hash rest st (add_change cs (classify_file hash f st))
      (add_change-IsTallied cs (classify_file hash f st) h)

add_deletes-IsTallied :
    (desired : List ResolvedFile) (m : GoMap ManagedFile) (st : State) (cs : Changeset)
    → IsTallied cs
    → IsTallied (add_deletes desired m st cs)
unfolding add_deletes
add_deletes-IsTallied desired [] st cs h = h
add_deletes-IsTallied desired ((p, mf) ∷ rest) st cs h = elim (Bool-cases (seen p desired)) [
  | inl old ↦ rw (old, add_deletes) (add_deletes-IsTallied desired rest st cs h)
  | inr new ↦
      rw (new, add_deletes)
        (add_deletes-IsTallied desired rest st (add_change cs (delete_change p mf st))
          (add_change-IsTallied cs (delete_change p mf st) h))
]

any_effective :
    (l : List Change)
    → any (λ c. not (is_noop c.action)) l
      ≡ (ltb 0 (tally create l) || ltb 0 (tally update l) || ltb 0 (tally delete l))
any_effective [] = refl
any_effective (c ∷ l) = ground (arith, any_effective l)

-- The summary of a diff counts its changes by action, and `has_changes` holds exactly when some
-- change is not a noop.
pub diff-IsTallied :
    (hash : String → String) (desired : List ResolvedFile) (st : State)
    → IsTallied (diff hash desired st)
      × (has_changes (diff hash desired st)
          ≡ any (λ c. not (is_noop c.action)) (diff hash desired st).changes)
unfolding diff has_changes
diff-IsTallied hash desired st =
    let cs = add_desired hash desired st empty_changeset in
    let t : IsTallied (diff hash desired st) =
      add_deletes-IsTallied desired st.managed_files st cs (
        add_desired-IsTallied hash desired st empty_changeset
          (record { creates = refl; updates = refl; deletes = refl; noops = refl })) in
    (t, ground (arith, t, any_effective (diff hash desired st).changes))
