-- ===== src/Rollback/Taken.antt =====
-- What a snapshot holds.
use picolet.Prelude.{
  String, ◌≡◌, refl, sym, ap, ◌∙◌, Bool, true, false, not, ◌&&◌, ◌||◌, ◌==◌, Option, none, List, [],
  ◌∷◌, arith, eq_iff, ◌≢◌, Bool-cases, inl, inr,
}
use picolet.GoMap.{put, has, get-put}
use picolet.Changeset.{Action, create, Change, is_noop}
use picolet.Disk.{Disk, store}
use picolet.Rollback.{Snapshot, is_secret, found, snapshot_change, snapshot_changes}

-- The snapshot holds what the disk held.
abbrev pub IsFaithful : Disk → Snapshot → Type 0
IsFaithful before [] = Unit
IsFaithful before ((p, v) ∷ rest) = (v ≡ before p) × IsFaithful before rest

put-IsFaithful :
    (before : Disk) (p : String) (v : Option String) (snap : Snapshot)
    → v ≡ before p
    → IsFaithful before snap
    → IsFaithful before (put p v snap)
unfolding put
put-IsFaithful before p v [] e h = (e, tt)
put-IsFaithful before p v ((q, w) ∷ rest) e h = elim (Bool-cases (p == q)) [
  | inl same ↦ rw (same, put) (e, h.1)
  | inr other ↦ rw (other, put) (h.0, put-IsFaithful before p v rest e h.1)
]

-- The files that the changeset creates are not there before.
abbrev pub IsFresh : Disk → List Change → Type 0
IsFresh before [] = Unit
IsFresh before (c ∷ rest) = (c.action ≡ create → before c.dest_path ≡ none) × IsFresh before rest

-- The changeset changes the file at a path: a change that is no noop and no secret.
abbrev pub touches : List Change → String → Bool
touches [] p = false
touches (c ∷ rest) p =
    (p == c.dest_path && not (is_noop c.action) && not (is_secret c.dest_path)) || touches rest p

found_lem : (a : Action) (read : Option String) → (a ≡ create → read ≡ none) → found a read ≡ read
unfolding found
found_lem create read h = sym (h refl)
found_lem _ read h = refl

snapshot_change-IsFaithful :
    (before : Disk) (c : Change) (snap : Snapshot)
    → (c.action ≡ create → before c.dest_path ≡ none)
    → IsFaithful before snap
    → IsFaithful before (snapshot_change before c snap)
unfolding snapshot_change
snapshot_change-IsFaithful before c snap f h =
    let v = found c.action (before c.dest_path) in
    let kept =
      put-IsFaithful before c.dest_path v snap (found_lem c.action (before c.dest_path) f) h in
    elim (Bool-cases (is_noop c.action)) [
      | inl quiet ↦ rw quiet h
      | inr loud ↦
          rw loud (elim (Bool-cases (is_secret c.dest_path)) [ inl s ↦ rw s h | inr s ↦ rw s kept ])
    ]

pub snapshot_changes-IsFaithful :
    (before : Disk) (l : List Change) (snap : Snapshot)
    → IsFresh before l
    → IsFaithful before snap
    → IsFaithful before (snapshot_changes before l snap)
unfolding snapshot_changes
snapshot_changes-IsFaithful before [] snap f h = h
snapshot_changes-IsFaithful before (c ∷ rest) snap f h =
    snapshot_changes-IsFaithful before rest (snapshot_change before c snap) f.1
      (snapshot_change-IsFaithful before c snap f.0 h)

-- The snapshot has an entry for each path that the changeset touches, and for no other.
pub has-snapshot_changes :
    (read : Disk) (l : List Change) (snap : Snapshot) (p : String)
    → has p (snapshot_changes read l snap) ≡ (has p snap || touches l p)
unfolding snapshot_changes snapshot_change
has-snapshot_changes read [] snap p = ground arith
has-snapshot_changes read (c ∷ rest) snap p =
    let v = found c.action (read c.dest_path) in
    ground (
      arith,
      has-snapshot_changes read rest snap p,
      has-snapshot_changes read rest (put c.dest_path v snap) p,
      get-put p c.dest_path v snap,
      eq_iff p c.dest_path,
      eq_iff c.dest_path p,
    )

-- A snapshot reads only the paths that are touched.
pub snapshot_change_congr :
    (r r' : Disk) (c : Change) (snap : Snapshot)
    → (touches (c ∷ []) c.dest_path ≡ true → c.action ≢ create → r c.dest_path ≡ r' c.dest_path)
    → snapshot_change r c snap ≡ snapshot_change r' c snap
unfolding snapshot_change found
snapshot_change_congr r r' c snap h = ground (arith, h, eq_iff c.dest_path c.dest_path)

pub snapshot_changes_congr :
    (r r' : Disk) (l : List Change) (snap : Snapshot)
    → ((p : String) → touches l p ≡ true → r p ≡ r' p)
    → snapshot_changes r l snap ≡ snapshot_changes r' l snap
unfolding snapshot_changes
snapshot_changes_congr r r' [] snap h = refl
snapshot_changes_congr r r' (c ∷ rest) snap h =
    ap (snapshot_changes r rest)
      (snapshot_change_congr r r' c snap (λ t _. h c.dest_path (ground (arith, t))))
    ∙ snapshot_changes_congr r r' rest (snapshot_change r' c snap) (λ p t. h p (ground (arith, t)))

pub IsFresh-store :
    (before : Disk) (path : String) (l : List Change)
    → IsFresh before l
    → IsFresh (store path none before) l
IsFresh-store before path [] f = tt
IsFresh-store before path (c ∷ rest) f =
    (λ e. ground (arith, f.0 e), IsFresh-store before path rest f.1)
