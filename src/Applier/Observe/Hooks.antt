-- ===== src/Applier/Observe/Hooks.antt =====
-- What running hooks leaves alone.
use picolet.Prelude.{String, ◌≡◌, refl, true, Option, none, some, List, [], ◌∷◌, arith}
use picolet.Config.Category.{Category}
use picolet.Config.Hook.{Hook}
use picolet.Applier.Types.{
  Env, Applier, Run, History, Call, call, health_wait, container_kill, http_request,
}
use picolet.Applier.Hooks.{
  HookPass, do_http, health_check, run_http, run_signal, run_hook, run_one_hook, run_triggered,
  run_found_hook, run_pending_hook, run_pending, hook_named, run_hooks_with_pending,
  triggered_names,
}
use picolet.Applier.Observe.{Ignores, is_hook_call}

module _ {X : Type 0} (O : History → X) (unseen : Ignores O is_hook_call) (env : Env)
    (a : Applier) where
  do_http-unseen :
      (method url : String) (r : Run) → O (do_http env method url r).0.history ≡ O r.history
  unfolding do_http
  do_http-unseen method url r = unseen (http_request method url) _ r.history refl

  call-unseen :
      (c : Call) (r : Run) → is_hook_call c ≡ true → O (call env c r).0.history ≡ O r.history
  unfolding call
  call-unseen c r h = unseen c _ r.history h

  health_check-unseen : (h : Hook) (r : Run) → O (health_check env a h r).0.history ≡ O r.history
  unfolding health_check call
  health_check-unseen h r = ground (
    arith,
    call-unseen health_wait r refl,
    do_http-unseen "GET" h.health_url r,
    do_http-unseen "GET" h.health_url (call env health_wait r).0,
  )

  run_http-unseen : (h : Hook) (r : Run) → O (run_http env a h r).0.history ≡ O r.history
  unfolding run_http
  run_http-unseen h r =
      let requested = (do_http env h.method h.url r).0 in
      ground (arith, do_http-unseen h.method h.url r, health_check-unseen h requested)

  run_signal-unseen : (h : Hook) (r : Run) → O (run_signal env h r).0.history ≡ O r.history
  unfolding run_signal
  run_signal-unseen h r = ground (arith, call-unseen (container_kill h.container h.signal) r refl)

  run_hook-unseen :
      (h : Hook) (scheduled : List String) (r : Run)
      → O (run_hook env a h scheduled r).0.history ≡ O r.history
  unfolding run_hook
  run_hook-unseen h scheduled r = ground (arith, run_http-unseen h r, run_signal-unseen h r)

  run_one_hook-unseen :
      (h : Hook) (acc : HookPass × Run) → O (run_one_hook env a h acc).1.history ≡ O acc.1.history
  unfolding run_one_hook
  run_one_hook-unseen h (hp, r) = ground (arith, run_hook-unseen h hp.restart_set r)

  run_triggered-unseen :
      (hooks : List Hook) (secrets : List String) (rels : List (Category × String))
      (acc : HookPass × Run)
      → O (run_triggered env a hooks secrets rels acc).1.history ≡ O acc.1.history
  unfolding run_triggered
  run_triggered-unseen [] secrets rels acc = refl
  run_triggered-unseen (h ∷ rest) secrets rels acc = ground (
    arith,
    run_triggered-unseen rest secrets rels acc,
    run_triggered-unseen rest secrets rels (run_one_hook env a h acc),
    run_one_hook-unseen h acc,
  )

  run_found_hook-unseen :
      (name : String) (found : Option Hook) (acc : HookPass × Run)
      → O (run_found_hook env a name found acc).1.history ≡ O acc.1.history
  unfolding run_found_hook
  run_found_hook-unseen name none acc = refl
  run_found_hook-unseen name (some h) acc = run_one_hook-unseen h acc

  run_pending_hook-unseen :
      (tried : List String) (name : String) (acc : HookPass × Run)
      → O (run_pending_hook env a tried name acc).1.history ≡ O acc.1.history
  unfolding run_pending_hook
  run_pending_hook-unseen tried name acc =
      ground (arith, run_found_hook-unseen name (hook_named name a.hooks) acc)

  run_pending-unseen :
      (tried names : List String) (acc : HookPass × Run)
      → O (run_pending env a tried names acc).1.history ≡ O acc.1.history
  unfolding run_pending
  run_pending-unseen tried [] acc = refl
  run_pending-unseen tried (name ∷ rest) acc = ground (
    arith,
    run_pending-unseen tried rest (run_pending_hook env a tried name acc),
    run_pending_hook-unseen tried name acc,
  )

  -- Running the hooks of an apply is unseen by what ignores the hooks' calls.
  pub run_hooks_with_pending-unseen :
      (secrets : List String) (rels : List (Category × String)) (scheduled pending : List String)
      (r : Run)
      → O (run_hooks_with_pending env a secrets rels scheduled pending r).1.history ≡ O r.history
  unfolding run_hooks_with_pending
  run_hooks_with_pending-unseen secrets rels scheduled pending r =
      let begin : HookPass = record {
        restart_set = scheduled;
        executed = [];
        restart_units = [];
      } in
      let first = run_triggered env a a.hooks secrets rels (begin, r) in
      ground (
        arith,
        run_triggered-unseen a.hooks secrets rels (begin, r),
        run_pending-unseen (triggered_names a.hooks secrets rels) pending first,
      )
