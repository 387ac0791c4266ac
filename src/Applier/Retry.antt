-- ===== src/Applier/Retry.antt =====
-- `RunPendingHooks` of pkg/applier/applier.go tries every hook that waits.
use picolet.Prelude.{
  add, Bool-cases, inl, inr, String, ◌≡◌, refl, ap, ◌∙◌, Bool, false, Option, none, some, List, [],
  ◌∷◌, ◌++◌, ◌||◌, arith, any, contains, contains-append, eq_iff,
}
use picolet.Config.Hook.{Hook}
use picolet.Applier.Types.{Env, Applier, Run, ApplyResult, call, empty_apply_result}
use picolet.Applier.Hooks.{
  HookPass, Verdict, skipped, hook_execution_key, do_http, health_check, run_http, run_signal,
  run_hook, record_outcome, dispatch_hook_result, run_one_hook, hook_matches_change, run_triggered,
  triggered_names, hook_named, run_found_hook, run_pending_hook, run_pending,
  run_hooks_with_pending, restart_fallback_unit, restart_fallback_units, run_pending_hooks,
}

run_hook-result :
    (env : Env) (a : Applier) (h : Hook) (scheduled : List String) (r : Run)
    → (run_hook env a h scheduled r).0.result ≡ r.result
unfolding run_hook run_http health_check run_signal do_http call
run_hook-result env a h scheduled r = ground arith

record_outcome-attempted :
    (h : Hook) (wants : Bool) (v : Verdict) (res : ApplyResult)
    → (record_outcome h wants v res).attempted_hook_names ≡ res.attempted_hook_names
unfolding record_outcome
record_outcome-attempted h wants v res = ground arith

dispatch_hook_result-attempted :
    (h : Hook) (wants : Bool) (v : Verdict) (hp : HookPass) (res : ApplyResult)
    → (dispatch_hook_result h wants v (hp, res)).1.attempted_hook_names
      ≡ res.attempted_hook_names ++ h.name ∷ []
unfolding dispatch_hook_result
dispatch_hook_result-attempted h wants v hp res =
    record_outcome-attempted h wants v
      (record res { attempted_hook_names = res.attempted_hook_names ++ h.name ∷ [] })

run_one_hook-attempted :
    (env : Env) (a : Applier) (h : Hook) (hp : HookPass) (r : Run)
    → (run_one_hook env a h (hp, r)).1.result.attempted_hook_names
      ≡ r.result.attempted_hook_names ++ h.name ∷ []
unfolding run_one_hook
run_one_hook-attempted env a h hp r =
    let key = hook_execution_key h in
    let (r', (wants, v)) = run_hook env a h hp.restart_set r in
    elim (Bool-cases (contains key hp.executed)) [
      | inl redundant ↦ rw redundant (dispatch_hook_result-attempted h false skipped hp r.result)
      | inr fresh ↦ rw fresh (
          dispatch_hook_result-attempted h wants v (record hp { executed = add key hp.executed })
            r'.result
          ∙ ap (λ (res : ApplyResult). res.attempted_hook_names ++ h.name ∷ [])
              (run_hook-result env a h hp.restart_set r))
    ]

hook_named_lem :
    (name : String) (hooks : List Hook) (h : Hook) → hook_named name hooks ≡ some h → h.name ≡ name
unfolding hook_named
hook_named_lem name [] h e = cc
hook_named_lem name (g ∷ rest) h e =
    ground (arith, e, hook_named_lem name rest h, eq_iff name g.name)

run_found_hook-attempted :
    (env : Env) (a : Applier) (name : String) (found : Option Hook) (hp : HookPass) (r : Run)
    → ((h : Hook) → found ≡ some h → h.name ≡ name)
    → (run_found_hook env a name found (hp, r)).1.result.attempted_hook_names
      ≡ r.result.attempted_hook_names ++ name ∷ []
unfolding run_found_hook
run_found_hook-attempted env a name none hp r named = refl
run_found_hook-attempted env a name (some h) hp r named =
    run_one_hook-attempted env a h hp r
    ∙ ap (λ n. r.result.attempted_hook_names ++ n ∷ []) (named h refl)

run_pending_hook-attempted :
    (env : Env) (a : Applier) (name : String) (hp : HookPass) (r : Run)
    → (run_pending_hook env a [] name (hp, r)).1.result.attempted_hook_names
      ≡ r.result.attempted_hook_names ++ name ∷ []
unfolding run_pending_hook
run_pending_hook-attempted env a name hp r =
    run_found_hook-attempted env a name (hook_named name a.hooks) hp r (hook_named_lem name a.hooks)

run_pending-attempted :
    (env : Env) (a : Applier) (n : String) (names : List String) (acc : HookPass × Run)
    → contains n (run_pending env a [] names acc).1.result.attempted_hook_names
      ≡ (contains n acc.1.result.attempted_hook_names || contains n names)
unfolding run_pending
run_pending-attempted env a n [] acc = ground arith
run_pending-attempted env a n (name ∷ rest) (hp, r) = ground (
  arith,
  run_pending-attempted env a n rest (run_pending_hook env a [] name (hp, r)),
  run_pending_hook-attempted env a name hp r,
  contains-append n r.result.attempted_hook_names (name ∷ []),
)

any-false {ℓ} : {A : Type ℓ} (xs : List A) → any (λ x. false) xs ≡ false
any-false [] = refl
any-false (x ∷ xs) = any-false xs

matches_nothing : (h : Hook) → hook_matches_change h [] [] ≡ false
unfolding hook_matches_change
matches_nothing h = ground (arith, any-false h.secrets, any-false h.manifests, any-false h.files)

run_triggered_nothing :
    (env : Env) (a : Applier) (hooks : List Hook) (acc : HookPass × Run)
    → run_triggered env a hooks [] [] acc ≡ acc
unfolding run_triggered
run_triggered_nothing env a [] acc = refl
run_triggered_nothing env a (h ∷ rest) acc =
    ground (arith, matches_nothing h, run_triggered_nothing env a rest acc)

triggered_nothing : (hooks : List Hook) → triggered_names hooks [] [] ≡ []
unfolding triggered_names
triggered_nothing [] = refl
triggered_nothing (h ∷ rest) = ground (arith, matches_nothing h, triggered_nothing rest)

restart_fallback_units-attempted :
    (env : Env) (units : List String) (r : Run)
    → (restart_fallback_units env units r).result.attempted_hook_names
      ≡ r.result.attempted_hook_names
unfolding restart_fallback_units restart_fallback_unit call
restart_fallback_units-attempted env [] r = refl
restart_fallback_units-attempted env (u ∷ rest) r =
    ground (arith, restart_fallback_units-attempted env rest (restart_fallback_unit env u r))

-- The names that a retry lists as attempted are exactly those of the hooks that wait.
pub retry_attempts_pending :
    (env : Env) (a : Applier) (pending : List String) (r : Run) (n : String)
    → contains n (run_pending_hooks env a pending r).result.attempted_hook_names
      ≡ contains n pending
unfolding run_pending_hooks run_hooks_with_pending
retry_attempts_pending env a pending r n =
    let begin : HookPass = record { restart_set = []; executed = []; restart_units = [] } in
    let begun = record r { result = empty_apply_result } in
    let (hp, r') = run_pending env a [] pending (begin, begun) in
    ground (
      arith,
      run_triggered_nothing env a a.hooks (begin, begun),
      triggered_nothing a.hooks,
      run_pending-attempted env a n pending (begin, begun),
      restart_fallback_units-attempted env hp.restart_units r',
    )
