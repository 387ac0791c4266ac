-- ===== src/Applier/Hooks/Reloader.antt =====
-- pkg/applier/hook.go: running one hook.
use picolet.Prelude.{
  ℕ, String, Bool, true, false, not, ◌&&◌, ◌||◌, Option, none, some, List, ◌∷◌, ◌==◌, if◌then◌else◌,
  leb, ltb, contains,
}
use picolet.Config.Hook.{Hook, fallback_to_restart}
use picolet.Applier.Types.{Env, Applier, Run, call, container_kill, http_request, health_wait}

-- What `HookReloader.Run` reports beside whether to restart the unit: `nil`, `ErrHookSkipped` or
-- another error.
pub data Verdict : Type 0 where
  ran_well skipped failed : Verdict

abbrev pub is_success_status : Option ℕ → Bool
is_success_status none = false
is_success_status (some code) = not (ltb code 200 || leb 300 code)

-- `doHTTP`: any status outside 200 to 299 is an error, and so is a redirect.
unfoldable pub do_http : Env → String → String → Run → Run × Bool
do_http env method url r =
    let ok = is_success_status (env.status_code r.history method url) in
    (record r { history = (http_request method url, ok) ∷ r.history }, ok)

abbrev pub fallback : Hook → Run → Run × (Bool × Verdict)
fallback h r = (r, (fallback_to_restart h, failed))

abbrev pub ran : Run → Run × (Bool × Verdict)
ran r = (r, (false, ran_well))

-- The health check of `runHTTP`.
unfoldable pub health_check : Env → Applier → Hook → Run → Run × (Bool × Verdict)
unfolding call do_http
health_check env a h r =
    let (waited, in_time) = if ltb 0 a.health_delay then call env health_wait r else (r, true) in
    let (checked, ok) = do_http env "GET" h.health_url waited in
    if not in_time then fallback h waited else if ok then ran checked else fallback h checked

unfoldable pub run_http : Env → Applier → Hook → Run → Run × (Bool × Verdict)
unfolding do_http health_check
run_http env a h r =
    let (requested, ok) = do_http env h.method h.url r in
    if not ok
    then fallback h requested
    else if h.health_url == ""
    then ran requested
    else health_check env a h requested

unfoldable pub run_signal : Env → Hook → Run → Run × (Bool × Verdict)
unfolding call
run_signal env h r =
    let (killed, ok) = call env (container_kill h.container h.signal) r in
    if ok then ran killed else fallback h killed

-- `unitActive`
unfoldable pub unit_active : Env → Hook → Run → Bool
unit_active env h r = elim (env.status_of r.history h.unit) [
  | none ↦ false
  | some s ↦ s.active_state == "active" || s.active_state == "activating"
]

-- `HookReloader.Run`
unfoldable pub run_hook : Env → Applier → Hook → List String → Run → Run × (Bool × Verdict)
unfolding unit_active run_http run_signal fallback_to_restart
run_hook env a h scheduled r =
    if contains h.unit scheduled && not (h.action == "restart")
    then (r, (false, skipped))
    else if h.action == "restart"
    then (r, (true, ran_well))
    else if not (unit_active env h r)
    then fallback h r
    else if h.action == "http"
    then run_http env a h r
    else if h.action == "signal"
    then run_signal env h r
    else (r, (false, failed))
