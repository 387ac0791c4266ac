-- ===== src/Applier/Observe.antt =====
-- Kinds of calls, and that a step leaves alone what ignores the calls it makes.
pub mod Hooks
pub mod Steps
pub mod Restarts
use picolet.Prelude.{String, ◌≡◌, Bool, true, false, List, [], ◌∷◌, not}
use picolet.Applier.Types.{
  Op, disable, Call, History, unit_op, stop_unit, run_build_unit, restart_ignoring_dependencies,
  secret_create, secret_remove, container_kill, http_request, health_wait, image_tag, image_untag,
  mkdir_all, write_file, remove_file, daemon_reload, later_restart, later_stop,
  later_restart_ignoring,
}

abbrev pub is_hook_call : Call → Bool
is_hook_call (http_request m u) = true
is_hook_call health_wait = true
is_hook_call (container_kill c s) = true
is_hook_call _ = false

abbrev pub is_disable : Op → Bool
is_disable disable = true
is_disable _ = false

-- Stopping the unit of a deleted file.
abbrev pub is_stop_call : Call → Bool
is_stop_call (unit_op op u) = is_disable op
is_stop_call (stop_unit u) = true
is_stop_call _ = false

-- Writing secrets and files.
abbrev pub is_file_call : Call → Bool
is_file_call (secret_create n c b) = true
is_file_call (secret_remove n) = true
is_file_call (mkdir_all d) = true
is_file_call (write_file p c) = true
is_file_call (remove_file p) = true
is_file_call _ = false

-- Image builds, their tags and the daemon-reload.
abbrev pub is_prepare_call : Call → Bool
is_prepare_call daemon_reload = true
is_prepare_call (run_build_unit u) = true
is_prepare_call (image_tag i t) = true
is_prepare_call (image_untag t) = true
is_prepare_call _ = false

-- What starts, restarts or enables a unit, and what runs after the apply. The run of an image build,
-- which starts the build's unit and waits for it, is a preparing call and none of these.
abbrev pub is_start_call : Call → Bool
is_start_call (unit_op op u) = not (is_disable op)
is_start_call (restart_ignoring_dependencies u) = true
is_start_call (later_restart u) = true
is_start_call (later_stop u) = true
is_start_call (later_restart_ignoring u) = true
is_start_call _ = false

-- What the restarts call: an operation on a unit, now or after the apply.
abbrev pub is_unit_call : Call → Bool
is_unit_call (unit_op op u) = true
is_unit_call (restart_ignoring_dependencies u) = true
is_unit_call (later_restart u) = true
is_unit_call (later_stop u) = true
is_unit_call (later_restart_ignoring u) = true
is_unit_call _ = false

-- What an observer of the calls sees is the same with such a call as without it.
abbrev pub Ignores : {X : Type 0} → (History → X) → (Call → Bool) → Type 0
Ignores O kind = (c : Call) (ok : Bool) (h : History) → kind c ≡ true → O ((c, ok) ∷ h) ≡ O h
