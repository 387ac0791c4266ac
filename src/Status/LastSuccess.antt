-- ===== src/Status/LastSuccess.antt =====
-- pkg/status/status.go: the last success of a unit, against a reading of the whole history.
use picolet.Prelude.{
  ℕ, String, ◌≡◌, refl, ap, Bool, true, false, not, ◌&&◌, ◌||◌, Option, none, some, List, [], ◌∷◌,
  ◌==◌, arith, if◌then◌else◌, eqb, ltb, contains, or_else, Bool-cases, inl, inr,
}
use picolet.GoMap.{get}
use picolet.Status.{RunObservation, UnitRun, zero_run, observed_run, newly_succeeded, new_store}
use picolet.Status.Ops.{StoreOp, observe, prune_to, run_ops}
use picolet.Status.Runs.{follow_step, follow, runs_lem}

-- The observation shows a run that ended at `t` with success: it had not ended when the unit was
-- observed before, at which time its last run had ended at `before`, and none has started since.
abbrev pub shows_end : ℕ → ℕ → RunObservation → Bool
shows_end t before obs =
    eqb obs.finished_at t
    && not (eqb t before)
    && not (ltb obs.finished_at obs.started_at)
    && obs.outcome == "success"

-- Some observation of the history shows that a run of the unit ended at `t` with success. `before` is
-- the end that the previous observation of the unit showed; 0 where there was none, or where the unit
-- has been dropped since.
unfoldable pub clean_end : String → ℕ → ℕ → List StoreOp → Bool
clean_end u t before [] = false
clean_end u t before (observe v obs ∷ rest) =
    let others = clean_end u t (if v == u then obs.finished_at else before) rest in
    (v == u && shows_end t before obs) || others
clean_end u t before (prune_to keep ∷ rest) =
    clean_end u t (if contains u keep then before else 0) rest
clean_end u t before (_ ∷ rest) = clean_end u t before rest

-- The record's last success is none, or one of those seen.
abbrev pub is_backed : (ℕ → Bool) → Option UnitRun → Bool
is_backed seen none = true
is_backed seen (some run) = eqb run.succeeded_at 0 || seen run.succeeded_at

-- The end that the record shows.
abbrev last_end : Option UnitRun → ℕ
last_end run = (or_else run zero_run).observed.finished_at

weaker :
    (run : Option UnitRun) (seen seen' : ℕ → Bool)
    → ((t : ℕ) → seen t ≡ true → seen' t ≡ true)
    → is_backed seen run ≡ true
    → is_backed seen' run ≡ true
weaker none seen seen' h b = refl
weaker (some run) seen seen' h b = elim (Bool-cases (seen run.succeeded_at)) [
  | inl shown ↦ ground (arith, h run.succeeded_at shown)
  | inr hidden ↦ ground (arith, b, hidden)
]

-- An observation's record is backed by the successes seen before it and its own.
observed-is_backed :
    (obs : RunObservation) (seen : ℕ → Bool) (run : Option UnitRun)
    → is_backed seen run ≡ true
    → is_backed
        (λ t. shows_end t (last_end run) obs || seen t)
        (some (observed_run obs (or_else run zero_run)))
      ≡ true
unfolding observed_run newly_succeeded
observed-is_backed obs seen none h = ground arith
observed-is_backed obs seen (some run) h = ground (arith, h)

observed-end :
    (obs : RunObservation) (run : UnitRun)
    → last_end (some (observed_run obs run)) ≡ obs.finished_at
unfolding observed_run
observed-end obs run = ground arith

-- What backs the record after the rest of a history backs it after the whole.
abbrev Backed : String → List StoreOp → (ℕ → Bool) → Option UnitRun → Type 0
Backed u ops seen run =
    is_backed (λ t. clean_end u t (last_end run) ops || seen t) (follow u ops run) ≡ true

observe-Backed :
    (u v : String) (obs : RunObservation) (rest : List StoreOp) (seen : ℕ → Bool)
    (run : Option UnitRun)
    → ((seen' : ℕ → Bool) (run' : Option UnitRun)
        → is_backed seen' run' ≡ true
        → Backed u rest seen' run')
    → is_backed seen run ≡ true
    → Backed u (observe v obs ∷ rest) seen run
unfolding follow follow_step clean_end
observe-Backed u v obs rest seen run later h = elim (Bool-cases (v == u)) [
  | inl same ↦
      let run' : Option UnitRun = some (observed_run obs (or_else run zero_run)) in
      let seen' : ℕ → Bool = λ t. shows_end t (last_end run) obs || seen t in
      let ended : last_end run' ≡ obs.finished_at = observed-end obs (or_else run zero_run) in
      rw same (
        weaker (follow u rest run') (λ t. clean_end u t (last_end run') rest || seen' t)
          (λ t. (shows_end t (last_end run) obs || clean_end u t obs.finished_at rest) || seen t)
          (λ t k. ground (arith, k, ap (λ e. clean_end u t e rest) ended))
          (later seen' run' (observed-is_backed obs seen run h)))
  | inr other ↦ rw other (later seen run h)
]

prune-Backed :
    (u : String) (keep : List String) (rest : List StoreOp) (seen : ℕ → Bool) (run : Option UnitRun)
    → ((seen' : ℕ → Bool) (run' : Option UnitRun)
        → is_backed seen' run' ≡ true
        → Backed u rest seen' run')
    → is_backed seen run ≡ true
    → Backed u (prune_to keep ∷ rest) seen run
unfolding follow follow_step clean_end
prune-Backed u keep rest seen run later h = elim (Bool-cases (contains u keep)) [
  | inl kept ↦ rw kept (later seen run h)
  | inr dropped ↦ rw dropped (later seen none refl)
]

follow-Backed :
    (u : String) (ops : List StoreOp) (seen : ℕ → Bool) (run : Option UnitRun)
    → is_backed seen run ≡ true
    → Backed u ops seen run
unfolding follow follow_step clean_end
follow-Backed u [] seen run h = h
follow-Backed u (observe v obs ∷ rest) seen run h =
    observe-Backed u v obs rest seen run (follow-Backed u rest) h
follow-Backed u (prune_to keep ∷ rest) seen run h =
    prune-Backed u keep rest seen run (follow-Backed u rest) h
follow-Backed u (op ∷ rest) seen run h = follow-Backed u rest seen run h

-- After any history of a new store, the last success that the store reports for a unit is the end of a
-- run which an observation of that unit showed: its finish had moved since the observation before, it
-- had ended well, and no run had started after it.
pub last_success_lem :
    (u : String) (ops : List StoreOp)
    → is_backed (λ t. clean_end u t 0 ops) (get u (run_ops ops new_store).snapshot.runs) ≡ true
unfolding get
last_success_lem u ops = rw (runs_lem u ops new_store) (
    weaker (follow u ops none) (λ t. clean_end u t 0 ops || false) (λ t. clean_end u t 0 ops)
      (λ t k. ground (arith, k)) (follow-Backed u ops (λ t. false) none refl))
