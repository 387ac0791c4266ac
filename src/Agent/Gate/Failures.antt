-- ===== src/Agent/Gate/Failures.antt =====
-- When a tick holds a failing SHA back.
use picolet.Prelude.{
  ℕ, ◌+◌, ◌-◌, String, ◌≡◌, refl, true, false, ◌&&◌, List, [], ◌∷◌, ◌==◌, eq_iff, arith,
  if◌then◌else◌, ltb, leb, length,
}
use picolet.State.{State}
use picolet.Agent.Gate.{
  Poll, Work, held_back, failed_sha_expiry, is_held_back, work_of, record_failure,
}

-- The state after failures of one SHA at these times.
abbrev pub after_failed_ticks : String → List ℕ → State → State
after_failed_ticks head_sha [] st = st
after_failed_ticks head_sha (t ∷ rest) st =
    after_failed_ticks head_sha rest (record_failure head_sha t st)

abbrev pub last_of : ℕ → List ℕ → ℕ
last_of t [] = t
last_of t (u ∷ rest) = last_of u rest

failures_add :
    (head_sha : String) (ts : List ℕ) (st : State)
    → st.failed_sha ≡ head_sha
    → ((after_failed_ticks head_sha ts st).failed_count ≡ st.failed_count + length ts)
      × ((after_failed_ticks head_sha ts st).failed_sha ≡ head_sha)
      × ((after_failed_ticks head_sha ts st).failed_at ≡ last_of st.failed_at ts)
unfolding record_failure
failures_add head_sha [] st h = (omega arith, h, refl)
failures_add head_sha (t ∷ rest) st h =
    let more = failures_add head_sha rest (record_failure head_sha t st) refl in
    let same : (st.failed_sha == head_sha) ≡ true =
      ground (arith, h, eq_iff st.failed_sha head_sha) in
    (ground (arith, more.0, same), more.1, more.2)

-- A tick with work to reconcile, on a SHA that was not the failing one and has since failed at some
-- times, is held back exactly where there are three failures or more and the last of them is less than
-- an hour old.
pub held_back_after_failures :
    (poll : Poll) (first : ℕ) (rest : List ℕ) (now : ℕ) (st : State)
    → (poll.head_sha == st.failed_sha) ≡ false
    → poll.changed ≡ true
    → work_of poll now (after_failed_ticks poll.head_sha (first ∷ rest) st) ≡ (
        if leb 3 (1 + length rest) && ltb (now - last_of first rest) failed_sha_expiry
        then held_back
        else Work.reconcile)
unfolding work_of is_held_back record_failure
held_back_after_failures poll first rest now st new changed =
    let more = failures_add poll.head_sha rest (record_failure poll.head_sha first st) refl in
    ground (
      arith,
      changed,
      new,
      more.0,
      more.1,
      more.2,
      eq_iff poll.head_sha st.failed_sha,
      eq_iff st.failed_sha poll.head_sha,
      eq_iff poll.head_sha poll.head_sha,
    )
