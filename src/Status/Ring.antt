-- ===== src/Status/Ring.antt =====
-- pkg/status/status.go: the ring of the latest events.
use picolet.Prelude.{
  ℕ, zero, suc, ◌-◌, ◌≤◌, ◌+◌, ◌≡◌, refl, ap, ◌∙◌, sym, List, [], ◌∷◌, ◌++◌, arith, length, drop,
  leb, Bool-cases, inl, inr,
}
use picolet.Status.{ReconcileEvent, Store, add_event, observe_run, prune_runs, limit_of, new_store}
use picolet.Status.Ops.{StoreOp, event, step, run_ops}

-- The last `limit` elements.
unfoldable pub latest {ℓ} : {A : Type ℓ} → ℕ → List A → List A
latest limit xs = drop (length xs - limit) xs

module _ {ℓ} {A : Type ℓ} where
  length-append : (xs ys : List A) → length (xs ++ ys) ≡ length xs + length ys
  length-append [] ys = omega arith
  length-append (x ∷ xs) ys = omega (arith, length-append xs ys)

  append_assoc : (xs ys zs : List A) → ((xs ++ ys) ++ zs) ≡ (xs ++ (ys ++ zs))
  append_assoc [] ys zs = refl
  append_assoc (x ∷ xs) ys zs = ap (λ r. x ∷ r) (append_assoc xs ys zs)

  length-drop : (n : ℕ) (xs : List A) → length (drop n xs) ≡ length xs - n
  length-drop zero xs = omega arith
  length-drop (suc n) [] = omega arith
  length-drop (suc n) (x ∷ xs) = omega (arith, length-drop n xs)

  latest-short : (limit : ℕ) (xs : List A) → length xs ≤ limit → latest limit xs ≡ xs
  unfolding latest
  latest-short limit xs h =
      let none_over : length xs - limit ≡ 0 = omega arith in ap (λ n. drop n xs) none_over

  latest-cons :
      (limit : ℕ) (x : A) (xs : List A)
      → limit ≤ length xs
      → latest limit (x ∷ xs) ≡ latest limit xs
  unfolding latest
  latest-cons limit x xs h =
      let one_more : suc (length xs) - limit ≡ suc (length xs - limit) = omega arith in
      ap (λ n. drop n (x ∷ xs)) one_more

  -- Trimming after each addition comes to trimming once.
  latest-latest :
      (limit : ℕ) (xs ys : List A) → latest limit (latest limit xs ++ ys) ≡ latest limit (xs ++ ys)
  latest-latest limit [] ys = ap (λ r. latest limit (r ++ ys)) (latest-short limit [] (omega arith))
  latest-latest limit (x ∷ xs) ys = elim (Bool-cases (leb limit (length xs))) [
    | inl full ↦
        let more : limit ≤ length (xs ++ ys) = ground (arith, length-append xs ys, full) in
        rw (latest-cons limit x xs (ground (arith, full)), latest-cons limit x (xs ++ ys) more)
          (latest-latest limit xs ys)
    | inr room ↦
        ap (λ r. latest limit (r ++ ys)) (latest-short limit (x ∷ xs) (ground (arith, room)))
  ]

-- The events that a history adds, the oldest first.
unfoldable pub added : List StoreOp → List ReconcileEvent
added [] = []
added (event e ∷ ops) = e ∷ added ops
added (_ ∷ ops) = added ops

append-nil {ℓ} : {A : Type ℓ} (xs : List A) → (xs ++ []) ≡ xs
append-nil [] = refl
append-nil (x ∷ xs) = ap (λ r. x ∷ r) (append-nil xs)

add_event-latest :
    (e : ReconcileEvent) (s : Store) (xs : List ReconcileEvent)
    → s.snapshot.events ≡ latest (limit_of s) xs
    → (add_event e s).snapshot.events ≡ latest (limit_of s) (xs ++ e ∷ [])
unfolding add_event latest
add_event-latest e s xs h =
    ap (λ (es : List ReconcileEvent). latest (limit_of s) (es ++ e ∷ [])) h
    ∙ latest-latest (limit_of s) xs (e ∷ [])

events_from :
    (ops : List StoreOp) (s : Store) (xs : List ReconcileEvent)
    → s.snapshot.events ≡ latest (limit_of s) xs
    → (run_ops ops s).snapshot.events ≡ latest (limit_of s) (xs ++ added ops)
unfolding run_ops step added observe_run prune_runs add_event
events_from [] s xs h = h ∙ ap (latest (limit_of s)) (sym (append-nil xs))
events_from (event e ∷ ops) s xs h =
    events_from ops (add_event e s) (xs ++ e ∷ []) (add_event-latest e s xs h)
    ∙ ap (latest (limit_of s)) (append_assoc xs (e ∷ []) (added ops))
events_from (op ∷ ops) s xs h = events_from ops (step op s) xs h

-- After any history of a new store, its events are at most 50, and are the latest of those the
-- history added, in order.
pub events_lem :
    (ops : List StoreOp)
    → (length (run_ops ops new_store).snapshot.events ≤ 50)
      × ((run_ops ops new_store).snapshot.events ≡ latest 50 (added ops))
unfolding latest
events_lem ops =
    let kept : (run_ops ops new_store).snapshot.events ≡ latest 50 (added ops) =
      events_from ops new_store [] refl in
    let shortened : length (latest 50 (added ops)) ≤ 50 =
      omega (arith, length-drop (length (added ops) - 50) (added ops)) in
    (rw kept shortened, kept)
