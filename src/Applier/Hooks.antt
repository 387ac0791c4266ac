-- ===== src/Applier/Hooks.antt =====
-- pkg/applier/hook.go and the hook part of pkg/applier/applier.go: running the hooks whose trigger
-- changed and the hooks that wait from an earlier apply, each side effect once.
mod Reloader
unfoldable pub use Reloader.*
use Prim.Native.String.{◌++◌ as ◌++s◌}
use picolet.Prelude.{
  ℕ, String, Bool, true, false, not, ◌&&◌, ◌||◌, Option, none, some, List, [], ◌∷◌, ◌++◌, ◌==◌,
  if◌then◌else◌, leb, ltb, any, contains, add,
}
use picolet.Config.Category.{Category, same_category}
use picolet.Config.Hook.{Hook, fallback_to_restart}
use picolet.Applier.Types.{
  restart, Env, Applier, Run, ApplyResult, hook_failed, hook_fallback, restart_failed, HookResult,
  hook_success, hook_failure, hook_fallback_restart, hook_skipped, call, add_error, unit_op,
  container_kill, http_request, health_wait, empty_apply_result,
}

-- The parts of a key, with the zero byte between them.
abbrev pub joined : String → List String → String
joined s [] = s
joined s (t ∷ rest) = joined (s ++s "\0" ++s t) rest

-- `hookExecutionKey`
unfoldable pub hook_execution_key : Hook → String
hook_execution_key h =
    if h.action == "http"
    then joined h.action (h.unit ∷ h.method ∷ h.url ∷ h.health_url ∷ [])
    else if h.action == "signal"
    then joined h.action (h.unit ∷ h.container ∷ h.signal ∷ [])
    else if h.action == "restart"
    then joined h.action (h.unit ∷ [])
    else h.name

abbrev pub is_changed_rel : List (Category × String) → Category → String → Bool
is_changed_rel rels c path = any (λ (d, p). same_category c d && path == p) rels

-- `hookMatchesChange`
unfoldable pub hook_matches_change : Hook → List String → List (Category × String) → Bool
hook_matches_change h secrets rels =
    any (λ s. contains s secrets) h.secrets
    || any (is_changed_rel rels Category.manifest) h.manifests
    || any (is_changed_rel rels Category.file) h.files

abbrev pub add_outcome : Hook → HookResult → ApplyResult → ApplyResult
add_outcome h outcome res = record res {
  hook_outcomes =
      res.hook_outcomes ++ (record { name = h.name; action = h.action; outcome = outcome }) ∷ [];
}

-- The switch of `dispatchHookResult`.
unfoldable pub record_outcome : Hook → Bool → Verdict → ApplyResult → ApplyResult
record_outcome h wants ran_well res = add_outcome h hook_success res
record_outcome h wants skipped res = add_outcome h hook_skipped res
record_outcome h wants failed res =
    if wants
    then add_outcome h hook_fallback_restart (record (add_error (hook_fallback h.unit) res) {
      fallback_restarted_units = res.fallback_restarted_units ++ h.unit ∷ [];
    })
    else add_outcome h hook_failure (record (add_error (hook_failed h.name) res) {
      retryable_errors = res.retryable_errors ++ hook_failed h.name ∷ [];
      pending_hook_names = res.pending_hook_names ++ h.name ∷ [];
    })

-- The maps that the hooks of one apply share: the units that restart anyway, the keys run so far, the
-- units that hooks want restarted.
pub record HookPass : Type 0 where
  pub restart_set : List String
  pub executed : List String
  pub restart_units : List String

-- `dispatchHookResult`
unfoldable pub dispatch_hook_result :
    Hook → Bool → Verdict → HookPass × ApplyResult → HookPass × ApplyResult
unfolding record_outcome
dispatch_hook_result h wants v (hp, res) = (
  if wants then record hp { restart_units = add h.unit hp.restart_units } else hp,
  record_outcome h wants v
      (record res { attempted_hook_names = res.attempted_hook_names ++ h.name ∷ [] }),
)

abbrev pub note_restart : Hook → Bool → HookPass → HookPass
note_restart h wants hp =
    if wants then record hp { restart_set = add h.unit hp.restart_set } else hp

-- `runOneHook`
unfoldable pub run_one_hook : Env → Applier → Hook → HookPass × Run → HookPass × Run
unfolding dispatch_hook_result run_hook hook_execution_key
run_one_hook env a h (hp, r) =
    let key = hook_execution_key h in
    let (redundant, redundant_res) = dispatch_hook_result h false skipped (hp, r.result) in
    let (r', (wants, v)) = run_hook env a h hp.restart_set r in
    let (hp', res') =
      dispatch_hook_result h wants v (record hp { executed = add key hp.executed }, r'.result) in
    if contains key hp.executed
    then (redundant, record r { result = redundant_res })
    else (note_restart h wants hp', record r' { result = res' })

-- The first pass, over the hooks of the configuration.
unfoldable pub run_triggered :
    Env
    → Applier
    → List Hook
    → List String
    → List (Category × String)
    → HookPass × Run
    → HookPass × Run
unfolding hook_matches_change run_one_hook
run_triggered env a [] secrets rels acc = acc
run_triggered env a (h ∷ rest) secrets rels acc =
    run_triggered env a rest secrets rels
      (if hook_matches_change h secrets rels then run_one_hook env a h acc else acc)

-- The names of the hooks that the first pass tries.
unfoldable pub triggered_names : List Hook → List String → List (Category × String) → List String
unfolding hook_matches_change
triggered_names [] secrets rels = []
triggered_names (h ∷ rest) secrets rels =
    let others = triggered_names rest secrets rels in
    if hook_matches_change h secrets rels then h.name ∷ others else others

-- `byName`: the last hook of a name counts.
unfoldable pub hook_named : String → List Hook → Option Hook
hook_named name [] = none
hook_named name (h ∷ rest) =
    let later = hook_named name rest in
    elim later [ some l ↦ some l | none ↦ if name == h.name then some h else none ]

-- A hook that the configuration has lost is marked attempted.
unfoldable pub run_found_hook :
    Env → Applier → String → Option Hook → HookPass × Run → HookPass × Run
unfolding run_one_hook
run_found_hook env a name (some h) acc = run_one_hook env a h acc
run_found_hook env a name none (hp, r) = (
  hp,
  record r {
    result = record r.result { attempted_hook_names = r.result.attempted_hook_names ++ name ∷ [] };
  },
)

-- A turn of the second pass.
unfoldable pub run_pending_hook :
    Env → Applier → List String → String → HookPass × Run → HookPass × Run
unfolding hook_named run_found_hook
run_pending_hook env a tried name acc =
    if contains name tried then acc else run_found_hook env a name (hook_named name a.hooks) acc

unfoldable pub run_pending :
    Env → Applier → List String → List String → HookPass × Run → HookPass × Run
unfolding run_pending_hook
run_pending env a tried [] acc = acc
run_pending env a tried (name ∷ rest) acc =
    run_pending env a tried rest (run_pending_hook env a tried name acc)

abbrev pub is_empty {ℓ} : {A : Type ℓ} → List A → Bool
is_empty [] = true
is_empty (x ∷ xs) = false

-- `runHooksWithPending`: the units that hooks want restarted.
unfoldable pub run_hooks_with_pending :
    Env
    → Applier
    → List String
    → List (Category × String)
    → List String
    → List String
    → Run
    → List String × Run
unfolding run_triggered triggered_names run_pending
run_hooks_with_pending env a secrets rels scheduled pending r =
    let begin : HookPass = record { restart_set = scheduled; executed = []; restart_units = [] } in
    let first = run_triggered env a a.hooks secrets rels (begin, r) in
    let (hp, r') = run_pending env a (triggered_names a.hooks secrets rels) pending first in
    if is_empty secrets && is_empty rels && is_empty pending
    then ([], r)
    else if is_empty a.hooks && is_empty pending
    then ([], r)
    else (hp.restart_units, r')

unfoldable pub restart_fallback_unit : Env → String → Run → Run
unfolding call
restart_fallback_unit env unit r =
    let (r', ok) = call env (unit_op restart unit) r in
    if ok
    then record r' {
      result = record r'.result { restarted_units = r'.result.restarted_units ++ unit ∷ [] };
    }
    else record r' { result = add_error (restart_failed unit) r'.result }

-- `restartFallbackUnits`
unfoldable pub restart_fallback_units : Env → List String → Run → Run
unfolding restart_fallback_unit
restart_fallback_units env [] r = r
restart_fallback_units env (u ∷ rest) r =
    restart_fallback_units env rest (restart_fallback_unit env u r)

-- `RunPendingHooks`
unfoldable pub run_pending_hooks : Env → Applier → List String → Run → Run
unfolding run_hooks_with_pending restart_fallback_units
run_pending_hooks env a pending before =
    let r = record before { result = empty_apply_result } in
    let (units, r') = run_hooks_with_pending env a [] [] [] pending r in
    if is_empty pending then r else if a.dry_run then r' else restart_fallback_units env units r'
