-- ===== src/Agent/Prune.antt =====
-- `maybePruneImages` of pkg/agent/prune.go. A step takes one reading of the clock for its tests and
-- for the time of the attempt, and one for the end of the prune; Podman's answer is given, and so is
-- whether the saves of the state succeed. A tick reads the state from its file, so what was not saved
-- is gone with the tick. The counters of the metrics are left out.
pub mod Spacing
pub mod Reported
mod Tests
use picolet.Prelude.{
  ℕ, ◌-◌, String, Bool, true, false, not, ◌&&◌, ◌||◌, if◌then◌else◌, ltb, leb, eqb, List, [], ◌∷◌,
}
use picolet.State.{State, truncate_second}
use picolet.Status.{Store, PruneStatus, set_prune, new_store}

-- An hour, in nanoseconds.
abbrev pub prune_failure_cooldown : ℕ
prune_failure_cooldown = 3_600_000_000_000

-- The configuration's part: `enabled` is `PruneImagesEnabled`, and an interval of 0 is one that is not
-- positive.
pub record PruneConfig : Type 0 where
  pub dry_run : Bool
  pub enabled : Bool
  pub interval : ℕ

-- What the agent remembers between ticks, the state with its file, and the store it reports to.
pub record Memory : Type 0 where
  pub last_attempt_at : ℕ
  pub seeded : Bool
  pub state : State
  -- The state's file.
  pub saved : State
  pub status : Store

-- `error` is "" where the prune succeeds; it may have removed images where it fails.
pub record PruneReport : Type 0 where
  pub failed : Bool
  pub error : String
  pub images_removed : ℕ
  pub reclaimed_bytes : ℕ

-- `can_save`: the prune's own save of the state succeeds. `saves_later`: what the tick does after the
-- prune saves the state once more, with success.
pub record Tick : Type 0 where
  pub now : ℕ
  pub done : ℕ
  pub report : PruneReport
  pub can_save : Bool
  pub saves_later : Bool

abbrev no_report : PruneReport
no_report = record { failed = false; error = ""; images_removed = 0; reclaimed_bytes = 0 }

unfoldable pub prune_due : PruneConfig → ℕ → Memory → Bool
prune_due cfg now m =
    not (cfg.dry_run || not cfg.enabled || leb cfg.interval 0)
    && not (ltb (now - m.state.last_pruned_at) cfg.interval)
    && not (ltb (now - m.last_attempt_at) prune_failure_cooldown)

-- The status after a failure: what was reclaimed counts, and the last success stays.
abbrev pub failed_status : ℕ → PruneReport → PruneStatus → PruneStatus
failed_status done r before =
    let p : PruneStatus = record before { last_error_at = done; error = r.error } in
    if ltb 0 r.images_removed
    then record p { images_removed = r.images_removed; reclaimed_bytes = r.reclaimed_bytes }
    else p

abbrev pub succeeded_status : ℕ → PruneReport → PruneStatus
succeeded_status pruned_at r = record {
  last_run_at = pruned_at;
  images_removed = r.images_removed;
  reclaimed_bytes = r.reclaimed_bytes;
  last_error_at = 0;
  error = "";
}

-- What an attempt leaves.
unfoldable pub attempted : Tick → Memory → Memory
attempted t m =
    let pruned_at = truncate_second t.done in
    let tried : Memory = record m { last_attempt_at = t.now; seeded = true } in
    if t.report.failed
    then record tried {
      status = set_prune (failed_status t.done t.report m.status.snapshot.prune) m.status;
    }
    else record tried {
      state = record m.state { last_pruned_at = pruned_at };
      saved = if t.can_save then record m.state { last_pruned_at = pruned_at } else m.saved;
      status = set_prune (succeeded_status pruned_at t.report) m.status;
    }

-- `maybePruneImages`
unfoldable pub maybe_prune_images : PruneConfig → Tick → Memory → Memory
unfolding prune_due attempted
maybe_prune_images cfg t m = if prune_due cfg t.now m then attempted t m else m

-- The seed of the prune status in `tick`, once, from a persisted time.
unfoldable pub seed_prune : Memory → Memory
seed_prune m =
    if not m.seeded && not (eqb m.state.last_pruned_at 0)
    then record m {
      seeded = true;
      status = set_prune (succeeded_status m.state.last_pruned_at no_report) m.status;
    }
    else m

-- The tick up to the prune: the state is read from its file, and the status seeded.
unfoldable pub load_and_seed : Memory → Memory
unfolding seed_prune
load_and_seed m = seed_prune (record m { state = m.saved })

-- A later save of the tick.
abbrev pub save_later : Bool → Memory → Memory
save_later true m = record m { saved = m.state }
save_later false m = m

-- A tick's part in pruning: the load, the seed, the prune where it is due, and the later saves.
unfoldable pub prune_tick : PruneConfig → Memory → Tick → Memory
unfolding load_and_seed maybe_prune_images
prune_tick cfg m t = save_later t.saves_later (maybe_prune_images cfg t (load_and_seed m))

-- The agent starts again: all that it keeps is the file.
unfoldable pub restart_agent : Memory → Memory
restart_agent m = record {
  last_attempt_at = 0;
  seeded = false;
  state = m.saved;
  saved = m.saved;
  status = new_store;
}

pub data PruneStep : Type 0 where
  ticks : Tick → PruneStep
  restarts : PruneStep

unfoldable pub prune_steps : PruneConfig → Memory → List PruneStep → Memory
unfolding prune_tick restart_agent
prune_steps cfg m [] = m
prune_steps cfg m (ticks t ∷ rest) = prune_steps cfg (prune_tick cfg m t) rest
prune_steps cfg m (restarts ∷ rest) = prune_steps cfg (restart_agent m) rest
