-- ===== src/Agent/Prune/Reported.antt =====
-- pkg/agent/prune.go: the time of the last prune that the agent reports is the persisted one.
use picolet.Prelude.{
  ℕ, ◌≡◌, refl, Bool, true, false, ◌||◌, List, [], ◌∷◌, arith, if◌then◌else◌, eqb, Bool-cases, inl,
  inr, All,
}
use picolet.Agent.Prune.{
  PruneConfig, Memory, Tick, prune_due, attempted, maybe_prune_images, seed_prune, load_and_seed,
  save_later, prune_tick, restart_agent, PruneStep, ticks, restarts, prune_steps,
}

abbrev pub reported : Memory → ℕ
reported m = m.status.snapshot.prune.last_run_at

-- Once seeded, the agent reports the persisted time; before, it reports none.
abbrev pub IsSeedable : Memory → Type 0
IsSeedable m = reported m ≡ (if m.seeded then m.saved.last_pruned_at else 0)

-- The agent reports the persisted time, and is unseeded only where there is none to report.
abbrev Reports : Memory → Type 0
Reports m =
    (reported m ≡ m.saved.last_pruned_at)
    × (m.state.last_pruned_at ≡ m.saved.last_pruned_at)
    × ((m.seeded || eqb m.saved.last_pruned_at 0) ≡ true)

load_and_seed-Reports : (m : Memory) → IsSeedable m → Reports (load_and_seed m)
unfolding load_and_seed seed_prune
load_and_seed-Reports m h = elim (Bool-cases m.seeded) [
  | inl earlier ↦ rw earlier (ground (arith, h, earlier), refl, ground (arith, earlier))
  | inr fresh ↦ elim (Bool-cases (eqb m.saved.last_pruned_at 0)) [
    | inl never ↦ rw (fresh, never) (ground (arith, h, fresh, never), refl, ground (arith, never))
    | inr before ↦ rw (fresh, before) (refl, refl, refl)
  ]
]

-- A prune that succeeds in this tick is saved, by itself or later.
abbrev pub is_saved : Tick → Bool
is_saved t = t.report.failed || t.can_save || t.saves_later

attempted-Reports :
    (t : Tick) (m : Memory)
    → is_saved t ≡ true
    → Reports m
    → Reports (save_later t.saves_later (attempted t m))
unfolding attempted
attempted-Reports t m k h = elim (Bool-cases t.saves_later) [
  | inl later ↦ rw later (elim (Bool-cases t.report.failed) [
    | inl failed ↦ rw failed (ground (arith, h), refl, refl)
    | inr clean ↦ rw clean (refl, refl, refl)
  ])
  | inr never ↦ rw never (elim (Bool-cases t.report.failed) [
    | inl failed ↦ rw failed (ground (arith, h.0), h.1, refl)
    | inr clean ↦
        let able : t.can_save ≡ true = ground (arith, k, never, clean) in
        rw (clean, able) (refl, refl, refl)
  ])
]

save_later-Reports : (b : Bool) (m : Memory) → Reports m → Reports (save_later b m)
save_later-Reports true m h = (ground (arith, h), refl, ground (arith, h))
save_later-Reports false m h = h

prune_tick-Reports :
    (cfg : PruneConfig) (m : Memory) (t : Tick)
    → is_saved t ≡ true
    → IsSeedable m
    → Reports (prune_tick cfg m t)
unfolding prune_tick maybe_prune_images
prune_tick-Reports cfg m t k h =
    let loaded = load_and_seed-Reports m h in
    elim (Bool-cases (prune_due cfg t.now (load_and_seed m))) [
      | inl due ↦ rw due (attempted-Reports t (load_and_seed m) k loaded)
      | inr idle ↦ rw idle (save_later-Reports t.saves_later (load_and_seed m) loaded)
    ]

Reports-IsSeedable : (m : Memory) → Reports m → IsSeedable m
Reports-IsSeedable m h = ground (arith, h)

abbrev pub step_is_saved : PruneStep → Bool
step_is_saved (ticks t) = is_saved t
step_is_saved restarts = true

prune_steps-IsSeedable :
    (cfg : PruneConfig) (steps : List PruneStep) (m : Memory)
    → All (λ s. step_is_saved s ≡ true) steps
    → IsSeedable m
    → IsSeedable (prune_steps cfg m steps)
unfolding prune_steps restart_agent
prune_steps-IsSeedable cfg [] m k h = h
prune_steps-IsSeedable cfg (ticks t ∷ rest) m k h =
    prune_steps-IsSeedable cfg rest (prune_tick cfg m t) k.1
      (Reports-IsSeedable (prune_tick cfg m t) (prune_tick-Reports cfg m t k.0 h))
prune_steps-IsSeedable cfg (restarts ∷ rest) m k h =
    prune_steps-IsSeedable cfg rest (restart_agent m) k.1 refl

-- Over any sequence of ticks and restarts of the agent that ends with a tick, where the time of each
-- prune that succeeds reaches the state's file in its tick, the time of the last successful prune that
-- the agent reports is the one in the file. At the start the agent reports the file's time or, while it
-- is not seeded, none.
pub reported_lem :
    (cfg : PruneConfig) (steps : List PruneStep) (t : Tick) (m : Memory)
    → IsSeedable m
    → All (λ s. step_is_saved s ≡ true) steps
    → is_saved t ≡ true
    → reported (prune_tick cfg (prune_steps cfg m steps) t)
      ≡ (prune_tick cfg (prune_steps cfg m steps) t).saved.last_pruned_at
reported_lem cfg steps t m h k s =
    (prune_tick-Reports cfg (prune_steps cfg m steps) t s
      (prune_steps-IsSeedable cfg steps m k h)).0
