-- ===== src/Agent/Prune/Tests.antt =====
-- Ticks of an agent whose first prune fails.
use picolet.Prelude.{ℕ, ◌+◌, ◌-◌, ◌*◌, ◌≡◌, refl, Bool, true, false, List, [], ◌∷◌, length}
use picolet.State.{new_state}
use picolet.Status.{new_store}
use picolet.Agent.Prune.{
  PruneConfig, Memory, Tick, prune_due, attempted, maybe_prune_images, prune_tick, load_and_seed,
  seed_prune, PruneStep, ticks, restarts, prune_steps,
}
use picolet.Agent.Prune.Spacing.{attempts, all_spaced, prune_spacing}
use picolet.Agent.Prune.Reported.{reported, reported_lem}

-- The time at this minute of a day.
abbrev minute : ℕ → ℕ
minute n = (n + 1_000_000_000) * 60_000_000_000

abbrev weekly : PruneConfig
weekly = record { dry_run = false; enabled = true; interval = 604_800_000_000_000 }

abbrev started : Memory
started = record {
  last_attempt_at = 0;
  seeded = false;
  state = record new_state { last_pruned_at = minute 0 - 1_000_000_000_000_000 };
  saved = record new_state { last_pruned_at = minute 0 - 1_000_000_000_000_000 };
  status = new_store;
}

abbrev tick : ℕ → Bool → Tick
tick n failed = record {
  now = minute n;
  done = minute n;
  report = record { failed = failed; error = "socket"; images_removed = 1; reclaimed_bytes = 9 };
  can_save = true;
  saves_later = false;
}

-- The retry waits for the cooldown, and a success ends the attempts.
abbrev night : List Tick
night = tick 0 true ∷ tick 30 true ∷ tick 61 false ∷ tick 200 false ∷ []

two_attempts : length (attempts weekly night started) ≡ 2
unfolding attempts prune_due prune_tick load_and_seed seed_prune maybe_prune_images attempted
    new_state
two_attempts = refl

prune_spacing_example : all_spaced weekly (attempts weekly night started) ≡ true
prune_spacing_example = prune_spacing weekly night started

-- The agent prunes, starts again and ticks once more.
abbrev steps : List PruneStep
steps = ticks (tick 0 true) ∷ ticks (tick 61 false) ∷ restarts ∷ []

abbrev at_the_end : Memory
at_the_end = prune_tick weekly (prune_steps weekly started steps) (tick 200 false)

reported_lem_example : reported at_the_end ≡ at_the_end.saved.last_pruned_at
unfolding new_state
reported_lem_example =
    reported_lem weekly steps (tick 200 false) started refl (refl, (refl, (refl, tt))) refl
