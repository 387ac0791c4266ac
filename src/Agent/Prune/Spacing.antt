-- ===== src/Agent/Prune/Spacing.antt =====
-- pkg/agent/prune.go: how far apart the attempts to prune images lie.
use picolet.Prelude.{
  ◌+◌, ◌≡◌, refl, ap, Bool, true, false, not, ◌&&◌, ◌||◌, eqb, List, [], ◌∷◌, arith, if◌then◌else◌,
  leb, Bool-cases, inl, inr,
}
use picolet.State.{State, truncate_second}
use picolet.Agent.Prune.{
  PruneConfig, Memory, Tick, prune_failure_cooldown, prune_due, attempted, maybe_prune_images,
  seed_prune, load_and_seed, save_later, prune_tick,
}

-- The ticks of a run that attempt a prune.
unfoldable pub attempts : PruneConfig → List Tick → Memory → List Tick
unfolding prune_due prune_tick load_and_seed
attempts cfg [] m = []
attempts cfg (t ∷ rest) m =
    let others = attempts cfg rest (prune_tick cfg m t) in
    if prune_due cfg t.now (load_and_seed m) then t ∷ others else others

-- The prune succeeded, and its time reached the state's file.
abbrev pub is_kept : Tick → Bool
is_kept t = not t.report.failed && (t.can_save || t.saves_later)

-- The second attempt comes an hour or more after the first and, where the first succeeded and was
-- saved, an interval or more after the end of it, in whole seconds.
abbrev pub well_after : PruneConfig → Tick → Tick → Bool
well_after cfg s t =
    leb (s.now + prune_failure_cooldown) t.now
    && (if is_kept s then leb (truncate_second s.done + cfg.interval) t.now else true)

unfoldable pub spaced_from : PruneConfig → Tick → List Tick → Bool
spaced_from cfg s [] = true
spaced_from cfg s (t ∷ rest) = well_after cfg s t && spaced_from cfg t rest

unfoldable pub all_spaced : PruneConfig → List Tick → Bool
unfolding spaced_from
all_spaced cfg [] = true
all_spaced cfg (t ∷ rest) = spaced_from cfg t rest

-- The memory holds at least what the attempt `s` left of its times.
abbrev remembers : Tick → Memory → Bool
remembers s m =
    leb s.now m.last_attempt_at
    && (if is_kept s then leb (truncate_second s.done) m.saved.last_pruned_at else true)

-- Loading and seeding keep the time of the last attempt and give the state of the file.
load_and_seed_lem :
    (m : Memory)
    → ((load_and_seed m).last_attempt_at ≡ m.last_attempt_at)
      × ((load_and_seed m).state ≡ m.saved)
      × ((load_and_seed m).saved ≡ m.saved)
unfolding load_and_seed seed_prune
load_and_seed_lem m = elim (Bool-cases (not m.seeded && not (eqb m.saved.last_pruned_at 0))) [
  | inl seeds ↦ rw seeds (refl, refl, refl)
  | inr rests ↦ rw rests (refl, refl, refl)
]

due_well_after :
    (cfg : PruneConfig) (s t : Tick) (m : Memory)
    → remembers s m ≡ true
    → prune_due cfg t.now (load_and_seed m) ≡ true
    → well_after cfg s t ≡ true
unfolding prune_due
due_well_after cfg s t m h d =
    let loaded = load_and_seed_lem m in
    let pruned : (load_and_seed m).state.last_pruned_at ≡ m.saved.last_pruned_at =
      ap (λ (st : State). st.last_pruned_at) loaded.1 in
    ground (arith, h, d, loaded.0, pruned)

-- A tick that attempts a prune remembers it, one that does not remembers the attempts before.
attempted-remembers :
    (t : Tick) (m : Memory) → remembers t (save_later t.saves_later (attempted t m)) ≡ true
unfolding attempted
attempted-remembers t m = elim (Bool-cases t.report.failed) [
  | inl failed ↦ rw failed (elim (Bool-cases t.saves_later) [
    | inl later ↦ rw later (ground arith)
    | inr never ↦ rw never (ground arith)
  ])
  | inr clean ↦ rw clean (elim (Bool-cases t.saves_later) [
    | inl later ↦ rw later (ground arith)
    | inr never ↦ rw never (ground arith)
  ])
]

idle-remembers :
    (s : Tick) (b : Bool) (m : Memory)
    → remembers s m ≡ true
    → remembers s (save_later b (load_and_seed m)) ≡ true
idle-remembers s true m h = let loaded = load_and_seed_lem m in rw (loaded.0, loaded.1) h
idle-remembers s false m h = let loaded = load_and_seed_lem m in rw (loaded.0, loaded.2) h

attempts-spaced :
    (cfg : PruneConfig) (s : Tick) (ticks : List Tick) (m : Memory)
    → remembers s m ≡ true
    → spaced_from cfg s (attempts cfg ticks m) ≡ true
unfolding attempts spaced_from prune_tick maybe_prune_images
attempts-spaced cfg s [] m h = refl
attempts-spaced cfg s (t ∷ rest) m h = elim (Bool-cases (prune_due cfg t.now (load_and_seed m))) [
  | inl due ↦ rw due (
      both (due_well_after cfg s t m h due) (
        attempts-spaced cfg t rest (save_later t.saves_later (attempted t (load_and_seed m)))
          (attempted-remembers t (load_and_seed m))))
  | inr idle ↦ rw idle (
      attempts-spaced cfg s rest (save_later t.saves_later (load_and_seed m))
        (idle-remembers s t.saves_later m h))
]
  where
    both : {a b : Bool} → a ≡ true → b ≡ true → (a && b) ≡ true
    both h k = ground (arith, h, k)

-- Over any ticks, whatever the clock does between them, whatever Podman answers and whichever saves of
-- the state fail, two attempts in a row to prune images are an hour or more apart, and an attempt that
-- follows a success whose time was saved, by the prune or later in its tick, comes no sooner than the
-- configured interval after that success, counted from its whole second.
pub prune_spacing :
    (cfg : PruneConfig) (ticks : List Tick) (m : Memory)
    → all_spaced cfg (attempts cfg ticks m) ≡ true
unfolding attempts all_spaced prune_tick maybe_prune_images
prune_spacing cfg [] m = refl
prune_spacing cfg (t ∷ rest) m = elim (Bool-cases (prune_due cfg t.now (load_and_seed m))) [
  | inl due ↦ rw due (
      attempts-spaced cfg t rest (save_later t.saves_later (attempted t (load_and_seed m)))
        (attempted-remembers t (load_and_seed m)))
  | inr idle ↦ rw idle (prune_spacing cfg rest (save_later t.saves_later (load_and_seed m)))
]
