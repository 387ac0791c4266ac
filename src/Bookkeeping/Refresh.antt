-- ===== src/Bookkeeping/Refresh.antt =====
-- `refresh_noops`: the records of unchanged files are brought up to date, and it says whether any was.
use picolet.Prelude.{
  String, ◌≡◌, refl, ap, ◌∙◌, Bool, true, false, ◌&&◌, ◌==◌, List, [], ◌∷◌, Option, if◌then◌else◌,
  arith, or_else, eq_iff, Bool-cases, inl, inr,
}
use picolet.GoMap.{GoMap, get, get-put}
use picolet.Config.Category.{Category, unlisted, same_category}
use picolet.State.{zero_managed_file, State, ManagedFile}
use picolet.Changeset.{Change, Changeset, is_noop, managed_file}
use picolet.Bookkeeping.{
  refresh_noops, refresh_noops_in, refresh_noop, record_differs, same_managed_file, same_bool,
}

-- What Go reads at a path: a missing record is the zero one.
abbrev pub read : String → GoMap ManagedFile → ManagedFile
read p files = or_else (get p files) zero_managed_file

-- The record that a refresh leaves at a path: that of the last noop there, or the old one.
abbrev pub refreshed_record : List Change → String → ManagedFile → ManagedFile
refreshed_record [] p old = old
refreshed_record (c ∷ rest) p old =
    refreshed_record rest p (if p == c.dest_path && is_noop c.action then managed_file c else old)

same_category_sound : (a b : Category) → same_category a b ≡ true → a ≡ b
unfolding same_category
same_category_sound (unlisted s) (unlisted t) h = ap unlisted ((eq_iff s t).0 h)
same_category_sound _ _ h = ground arith

record_differs_sound :
    (o : Option ManagedFile) (mf : ManagedFile)
    → record_differs o mf ≡ false
    → or_else o zero_managed_file ≡ mf
unfolding record_differs same_managed_file same_bool
record_differs_sound o mf h =
    let old = or_else o zero_managed_file in
    ground (arith, eq_iff old.hash mf.hash, same_category_sound old.category mf.category)

read-refresh_noop :
    (c : Change) (files : GoMap ManagedFile) (flag : Bool) (p : String)
    → (read p (refresh_noop c (files, flag)).0
        ≡ (if p == c.dest_path && is_noop c.action then managed_file c else read p files))
      × ((refresh_noop c (files, flag)).1 ≡ false
          → ((refresh_noop c (files, flag)).0 ≡ files) × (flag ≡ false))
unfolding refresh_noop
read-refresh_noop c files flag p = (
  ground (
    arith,
    get-put p c.dest_path (managed_file c) files,
    eq_iff p c.dest_path,
    eq_iff c.dest_path p,
    record_differs_sound (get c.dest_path files) (managed_file c),
  ),
  λ h. ground (arith, h),
)

refresh_noops_in_lem :
    (l : List Change) (files : GoMap ManagedFile) (flag : Bool) (p : String)
    → (read p (refresh_noops_in l (files, flag)).0 ≡ refreshed_record l p (read p files))
      × ((refresh_noops_in l (files, flag)).1 ≡ false
          → ((refresh_noops_in l (files, flag)).0 ≡ files) × (flag ≡ false))
unfolding refresh_noops_in
refresh_noops_in_lem [] files flag p = (refl, λ h. (refl, h))
refresh_noops_in_lem (c ∷ rest) files flag p =
    let (files', flag') = refresh_noop c (files, flag) in
    let ih = refresh_noops_in_lem rest files' flag' p in
    let step = read-refresh_noop c files flag p in
    (
      ih.0 ∙ ap (refreshed_record rest p) step.0,
      λ h. let later = ih.1 h in let now = step.1 later.1 in (later.0 ∙ now.0, now.1),
    )

pub refresh_noops_whole :
    (cs : Changeset) (st : State)
    → ((p : String)
        → read p (refresh_noops cs st).0.managed_files
          ≡ refreshed_record cs.changes p (read p st.managed_files))
      × ((refresh_noops cs st).1 ≡ false → (refresh_noops cs st).0 ≡ st)
unfolding refresh_noops
refresh_noops_whole cs st = (
  λ p. (refresh_noops_in_lem cs.changes st.managed_files false p).0,
  λ h.
      ap (λ (m : GoMap ManagedFile). record st { managed_files = m })
        ((refresh_noops_in_lem cs.changes st.managed_files false "").1 h).0,
)

-- After a refresh the record read at each path is that of the last unchanged file there, or else
-- the old record; and where the refresh reports no change, the state is as it was.
pub refresh_noops_lem :
    (cs : Changeset) (st : State)
    → ((p : String)
        → read p (refresh_noops cs st).0.managed_files
          ≡ refreshed_record cs.changes p (read p st.managed_files))
      × ((refresh_noops cs st).0
          ≡ (if (refresh_noops cs st).1 then (refresh_noops cs st).0 else st))
refresh_noops_lem cs st = (
  (refresh_noops_whole cs st).0,
  elim (Bool-cases (refresh_noops cs st).1) [
    | inl changed ↦ rw changed refl
    | inr same ↦ rw same ((refresh_noops_whole cs st).1 same)
  ],
)
