-- ===== src/Bookkeeping/Converge.antt =====
-- After an apply: the state records exactly the desired files, and the next diff finds nothing to do.
use mathlib.Core.List.{append-nil}
use picolet.Prelude.{
  is_some, String, ◌≡◌, refl, ap, ◌∙◌, true, false, not, ◌||◌, ◌==◌, List, [], ◌∷◌, ◌++◌, Option,
  none, some, if◌then◌else◌, arith, any, eq_iff, eq_self,
}
use picolet.GoMap.{GoMap, get, has, put, get-put}
use picolet.State.{State, ManagedFile}
use picolet.Changeset.{ResolvedFile, Change, has_changes, is_noop}
use picolet.Reconciler.{diff, classify_file, delete_change, seen}
use picolet.Bookkeeping.{put_service, record_change, record_changes, update_state}
use picolet.Reconciler.Changes.{classified, deleted, changes-diff}
use picolet.Reconciler.Diff.{diff-IsTallied}

-- No two desired files share a destination: what `detectCollisions` of pkg/resolver requires of
-- files that come from different sources.
abbrev pub IsDistinct : List ResolvedFile → Type 0
IsDistinct [] = Unit
IsDistinct (f ∷ rest) = (seen f.dest_path rest ≡ false) × IsDistinct rest

-- What the state should record at a path.
abbrev pub file_record : (String → String) → List ResolvedFile → String → Option ManagedFile
file_record hash [] p = none
file_record hash (f ∷ rest) p =
    if p == f.dest_path
    then some (record { hash = hash f.content; category = f.category; sops_values = f.sops_values })
    else file_record hash rest p

-- The unit that the state should name for a path.
abbrev pub file_service : List ResolvedFile → String → Option String
file_service [] p = none
file_service (f ∷ rest) p =
    if p == f.dest_path
    then (if f.service_name == "" then none else some f.service_name)
    else file_service rest p

abbrev pub or_old {ℓ} : {A : Type ℓ} → Option A → Option A → Option A
or_old none old = old
or_old (some a) old = some a

pub or_old-none {ℓ} : {A : Type ℓ} (o : Option A) → or_old o none ≡ o
or_old-none none = refl
or_old-none (some a) = refl

pub file_record-unseen :
    (hash : String → String) (desired : List ResolvedFile) (p : String)
    → seen p desired ≡ false
    → (file_record hash desired p ≡ none) × (file_service desired p ≡ none)
unfolding seen
file_record-unseen hash [] p h = (refl, refl)
file_record-unseen hash (f ∷ rest) p h =
    let ih = file_record-unseen hash rest p in ground (arith, ih)

abbrev file_managed : (String → String) → ResolvedFile → ManagedFile
file_managed hash f = record {
  hash = hash f.content;
  category = f.category;
  sops_values = f.sops_values;
}

-- Every desired file is recorded, whatever its action.
record_change-classify_file :
    (hash : String → String) (f : ResolvedFile) (st s : State)
    → record_change (classify_file hash f st) s ≡ record s {
      managed_files = put f.dest_path (file_managed hash f) s.managed_files;
      service_names = put_service f.dest_path f.service_name s.service_names;
    }
unfolding record_change classify_file
record_change-classify_file hash f st s = ground arith

record_classified :
    (hash : String → String) (desired : List ResolvedFile) (st s : State) (p : String)
    → IsDistinct desired
    → (get p (record_changes (classified hash desired st) s).managed_files
        ≡ or_old (file_record hash desired p) (get p s.managed_files))
      × (get p (record_changes (classified hash desired st) s).service_names
          ≡ or_old (file_service desired p) (get p s.service_names))
unfolding record_changes classified
record_classified hash [] st s p d = (refl, refl)
record_classified hash (f ∷ rest) st s p d =
    let s' = record_change (classify_file hash f st) s in
    let ih = record_classified hash rest st s' p d.1 in
    let unseen = file_record-unseen hash rest p in
    let step = record_change-classify_file hash f st s in
    let files = get-put p f.dest_path (file_managed hash f) s.managed_files in
    let names = get-put p f.dest_path f.service_name s.service_names in
    (
      ground (
        arith,
        ih.0,
        unseen,
        d.0,
        ap (λ (t : State). get p t.managed_files) step,
        files,
        eq_iff p f.dest_path,
        eq_iff f.dest_path p,
      ),
      ground (
        arith,
        ih.1,
        unseen,
        d.0,
        ap (λ (t : State). get p t.service_names) step,
        names,
        eq_iff p f.dest_path,
        eq_iff f.dest_path p,
      ),
    )

record_deleted :
    (desired : List ResolvedFile) (m : GoMap ManagedFile) (st s : State)
    → record_changes (deleted desired m st) s ≡ s
unfolding record_changes deleted record_change delete_change
record_deleted desired [] st s = refl
record_deleted desired ((p, mf) ∷ rest) st s = ground (arith, record_deleted desired rest st s)

record_changes-append :
    (xs ys : List Change) (s : State)
    → record_changes (xs ++ ys) s ≡ record_changes ys (record_changes xs s)
unfolding record_changes
record_changes-append [] ys s = refl
record_changes-append (c ∷ xs) ys s = record_changes-append xs ys (record_change c s)

-- After the changeset of a diff is recorded, the state has at each path what the desired file there
-- says, and nothing anywhere else; the same holds of the unit names.
pub update_state-diff :
    (hash : String → String) (desired : List ResolvedFile) (st : State) (p : String)
    → IsDistinct desired
    → (get p (update_state st (diff hash desired st)).managed_files ≡ file_record hash desired p)
      × (get p (update_state st (diff hash desired st)).service_names ≡ file_service desired p)
unfolding update_state get
update_state-diff hash desired st p d =
    let blank = record st { managed_files = []; service_names = [] } in
    let found = classified hash desired st in
    let gone = deleted desired st.managed_files st in
    let after =
      record_changes-append found gone blank
      ∙ record_deleted desired st.managed_files st (record_changes found blank) in
    let whole =
      ap (λ (l : List Change). record_changes l blank) (changes-diff hash desired st) ∙ after in
    let kept = record_classified hash desired st blank p d in
    (
      ap (λ (t : State). get p t.managed_files) whole
          ∙ kept.0
          ∙ or_old-none (file_record hash desired p),
      ap (λ (t : State). get p t.service_names) whole
          ∙ kept.1
          ∙ or_old-none (file_service desired p),
    )

abbrev pub hash_of : Option ManagedFile → Option String
hash_of none = none
hash_of (some mf) = some mf.hash

-- The state records the content of every desired file.
abbrev IsRecorded : (String → String) → List ResolvedFile → State → Type 0
IsRecorded hash desired st =
    (p : String)
    → seen p desired ≡ true
    → hash_of (get p st.managed_files) ≡ hash_of (file_record hash desired p)

IsRecorded-tail :
    (hash : String → String) (f : ResolvedFile) (rest : List ResolvedFile) (st : State)
    → seen f.dest_path rest ≡ false
    → IsRecorded hash (f ∷ rest) st
    → IsRecorded hash rest st
unfolding seen
IsRecorded-tail hash f rest st d h p sp =
    let whole : (p == f.dest_path || seen p rest) ≡ true = ground (arith, sp) in
    ground (arith, h p whole, eq_iff p f.dest_path, sp, d)

quiet_classified :
    (hash : String → String) (desired : List ResolvedFile) (st : State)
    → IsDistinct desired
    → IsRecorded hash desired st
    → any (λ c. not (is_noop c.action)) (classified hash desired st) ≡ false
unfolding classified classify_file seen
quiet_classified hash [] st d h = refl
quiet_classified hash (f ∷ rest) st d h =
    let ih = quiet_classified hash rest st d.1 (IsRecorded-tail hash f rest st d.0 h) in
    let here : (f.dest_path == f.dest_path || seen f.dest_path rest) ≡ true =
      ground (arith, eq_self f.dest_path) in
    ground (arith, h f.dest_path here, eq_self f.dest_path, eq_self (hash f.content), ih)

quiet_deleted :
    (desired : List ResolvedFile) (m : GoMap ManagedFile) (st : State)
    → ((p : String) → has p m ≡ true → seen p desired ≡ true)
    → deleted desired m st ≡ []
unfolding deleted get
quiet_deleted desired [] st h = refl
quiet_deleted desired ((j, mf) ∷ rest) st h =
    rw (h j (ground (arith, eq_self j)), deleted)
      (quiet_deleted desired rest st (λ p found. h p (ground (arith, found))))

pub seen-file_record :
    (hash : String → String) (desired : List ResolvedFile) (p : String)
    → is_some (file_record hash desired p) ≡ seen p desired
unfolding seen
seen-file_record hash [] p = refl
seen-file_record hash (f ∷ rest) p = ground (arith, seen-file_record hash rest p)

-- A state that records the desired contents and nothing else needs no change.
pub converged :
    (hash : String → String) (desired : List ResolvedFile) (st : State)
    → IsDistinct desired
    → ((p : String) → hash_of (get p st.managed_files) ≡ hash_of (file_record hash desired p))
    → has_changes (diff hash desired st) ≡ false
converged hash desired st d recorded =
    let known : (p : String) → has p st.managed_files ≡ true → seen p desired ≡ true =
      λ p found. ground (arith, seen-file_record hash desired p, recorded p, found) in
    let quiet = quiet_classified hash desired st d (λ p _. recorded p) in
    let gone = quiet_deleted desired st.managed_files st known in
    (diff-IsTallied hash desired st).1 ∙ rw (changes-diff hash desired st, gone, append-nil) quiet

-- Convergence: where no two desired files share a path, the diff that follows the recorded changeset
-- of a diff has no changes.
pub diff-update_state :
    (hash : String → String) (desired : List ResolvedFile) (st : State)
    → IsDistinct desired
    → has_changes (diff hash desired (update_state st (diff hash desired st))) ≡ false
diff-update_state hash desired st d =
    converged hash desired (update_state st (diff hash desired st)) d
      (λ p. ap hash_of (update_state-diff hash desired st p d).0)
