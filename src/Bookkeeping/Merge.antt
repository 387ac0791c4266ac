-- ===== src/Bookkeeping/Merge.antt =====
-- `merge_changeset`, which bootstrap uses for partial applies: it leaves other paths alone, and on
-- the whole changeset of a diff it records the same contents as `update_state`.
use picolet.Prelude.{
  String, ◌≡◌, refl, sym, ap, ◌∙◌, true, false, not, ◌&&◌, ◌==◌, List, [], ◌∷◌, ◌++◌, none, some,
  if◌then◌else◌, arith, eq_iff, eq_self,
}
use picolet.GoMap.{GoMap, get, has, get-put, get-remove}
use picolet.State.{State, ManagedFile}
use picolet.Changeset.{
  ResolvedFile, Change, Changeset, has_changes, managed_file, is_noop, is_delete, writes_in,
  deletes_in, writes, deletes, delete,
}
use picolet.Reconciler.{diff, classify_file, delete_change, seen, old_hash_of}
use picolet.Bookkeeping.{update_state, merge_action, merge_changes, merge_changeset}
use picolet.Reconciler.Changes.{classified, deleted, changes-diff}
use picolet.Bookkeeping.Converge.{
  IsDistinct, file_record, hash_of, or_old, converged, file_record-unseen, seen-file_record,
  update_state-diff,
}

-- One change leaves every other path alone, and a noop leaves all paths alone.
merge_action_frame :
    (c : Change) (st : State) (p : String)
    → (get p (merge_action c.action c st).managed_files ≡ (
        if c.dest_path == p && not (is_noop c.action)
        then (if is_delete c.action then none else some (managed_file c))
        else get p st.managed_files))
      × ((c.dest_path == p && not (is_noop c.action)) ≡ false
          → get p (merge_action c.action c st).service_names ≡ get p st.service_names)
unfolding merge_action
merge_action_frame c st p =
    let files = get-put p c.dest_path (managed_file c) st.managed_files in
    let names = get-put p c.dest_path c.service_name st.service_names in
    let no_file = get-remove p c.dest_path st.managed_files in
    let no_name = get-remove p c.dest_path st.service_names in
    (ground (arith, files, no_file), λ other. ground (arith, names, no_name, other))

merge_changes_frame :
    (l : List Change) (st : State) (p : String)
    → writes_in l p ≡ false
    → deletes_in l p ≡ false
    → (get p (merge_changes l st).managed_files ≡ get p st.managed_files)
      × (get p (merge_changes l st).service_names ≡ get p st.service_names)
unfolding merge_changes writes_in deletes_in
merge_changes_frame [] st p w d = (refl, refl)
merge_changes_frame (c ∷ rest) st p w d =
    let st' = merge_action c.action c st in
    let ih = merge_changes_frame rest st' p (ground (arith, w)) (ground (arith, d)) in
    let (files, names) = merge_action_frame c st p in
    let other : (c.dest_path == p && not (is_noop c.action)) ≡ false = ground (arith, w, d) in
    (ground (arith, ih.0, files, other), ih.1 ∙ names other)

-- A path that a changeset neither writes nor deletes keeps its record and its unit name.
pub merge_changeset_frame :
    (st : State) (cs : Changeset) (p : String)
    → writes cs p ≡ false
    → deletes cs p ≡ false
    → (get p (merge_changeset st cs).managed_files ≡ get p st.managed_files)
      × (get p (merge_changeset st cs).service_names ≡ get p st.service_names)
unfolding merge_changeset writes deletes
merge_changeset_frame st cs p w d = merge_changes_frame cs.changes st p w d

merge_deleted :
    (desired : List ResolvedFile) (m : GoMap ManagedFile) (st s : State) (p : String)
    → get p (merge_changes (deleted desired m st) s).managed_files
      ≡ (if has p m && not (seen p desired) then none else get p s.managed_files)
unfolding merge_changes deleted delete_change get
merge_deleted desired [] st s p = refl
merge_deleted desired ((j, mf) ∷ rest) st s p =
    let s' = merge_action delete (delete_change j mf st) s in
    ground (
      arith,
      merge_deleted desired rest st s p,
      merge_deleted desired rest st s' p,
      (merge_action_frame (delete_change j mf st) s p).0,
      eq_iff p j,
      eq_iff j p,
    )

-- The record of a desired file's path, after the change of that file.
merge_classify_file :
    (hash : String → String) (f : ResolvedFile) (st s : State) (p : String)
    → get f.dest_path s.managed_files ≡ get f.dest_path st.managed_files
    → hash_of (
        get p
          (merge_action (classify_file hash f st).action (classify_file hash f st) s).managed_files)
      ≡ (if p == f.dest_path then some (hash f.content) else hash_of (get p s.managed_files))
unfolding classify_file managed_file
merge_classify_file hash f st s p same = ground (
  arith,
  same,
  (merge_action_frame (classify_file hash f st) s p).0,
  eq_iff p f.dest_path,
  eq_iff f.dest_path p,
  eq_iff (old_hash_of (get f.dest_path st.managed_files)) (hash f.content),
)

-- The change of a desired file leaves the paths of the others alone.
merge_classify_file_frame :
    (hash : String → String) (f : ResolvedFile) (rest : List ResolvedFile) (st s : State)
    (q : String)
    → seen f.dest_path rest ≡ false
    → seen q rest ≡ true
    → get q
        (merge_action (classify_file hash f st).action (classify_file hash f st) s).managed_files
      ≡ get q s.managed_files
unfolding classify_file
merge_classify_file_frame hash f rest st s q d sq =
    ground
      (arith, (merge_action_frame (classify_file hash f st) s q).0, eq_iff f.dest_path q, d, sq)

merge_classified :
    (hash : String → String) (desired : List ResolvedFile) (st s : State) (p : String)
    → IsDistinct desired
    → ((q : String) → seen q desired ≡ true → get q s.managed_files ≡ get q st.managed_files)
    → hash_of (get p (merge_changes (classified hash desired st) s).managed_files)
      ≡ or_old (hash_of (file_record hash desired p)) (hash_of (get p s.managed_files))
unfolding merge_changes classified seen
merge_classified hash [] st s p d same = refl
merge_classified hash (f ∷ rest) st s p d same =
    let c = classify_file hash f st in
    let s' = merge_action c.action c s in
    let here = same f.dest_path (ground (arith, eq_self f.dest_path)) in
    let same' : (q : String)
        → seen q rest ≡ true
        → get q s'.managed_files ≡ get q st.managed_files =
      λ q sq. merge_classify_file_frame hash f rest st s q d.0 sq ∙ same q (ground (arith, sq)) in
    ground (
      arith,
      merge_classified hash rest st s' p d.1 same',
      merge_classify_file hash f st s p here,
      file_record-unseen hash rest p,
      eq_iff p f.dest_path,
      d.0,
    )

merge_changes-append :
    (xs ys : List Change) (s : State)
    → merge_changes (xs ++ ys) s ≡ merge_changes ys (merge_changes xs s)
unfolding merge_changes
merge_changes-append [] ys s = refl
merge_changes-append (c ∷ xs) ys s = merge_changes-append xs ys (merge_action c.action c s)

hash-merge_changeset :
    (hash : String → String) (desired : List ResolvedFile) (st : State) (p : String)
    → IsDistinct desired
    → hash_of (get p (merge_changeset st (diff hash desired st)).managed_files)
      ≡ hash_of (file_record hash desired p)
unfolding merge_changeset
hash-merge_changeset hash desired st p d =
    let found = classified hash desired st in
    let gone = deleted desired st.managed_files st in
    rw (changes-diff hash desired st, merge_changes-append found gone st)
      (ground (
        arith,
        merge_deleted desired st.managed_files st (merge_changes found st) p,
        merge_classified hash desired st st p d (λ q _. refl),
        seen-file_record hash desired p,
      ))

-- Where no two desired files share a path: on the whole changeset of a diff the merge records, at each
-- path, the content hash that `update_state` records, and the next diff has no changes.
pub merge_changeset-diff :
    (hash : String → String) (desired : List ResolvedFile) (st : State)
    → IsDistinct desired
    → ((p : String)
        → hash_of (get p (merge_changeset st (diff hash desired st)).managed_files)
          ≡ hash_of (get p (update_state st (diff hash desired st)).managed_files))
      × (has_changes (diff hash desired (merge_changeset st (diff hash desired st))) ≡ false)
merge_changeset-diff hash desired st d = (
  λ p.
      hash-merge_changeset hash desired st p d
      ∙ sym (ap hash_of (update_state-diff hash desired st p d).0),
  converged hash desired (merge_changeset st (diff hash desired st)) d
      (λ p. hash-merge_changeset hash desired st p d),
)
