-- ===== src/Applier/SelfUnits.antt =====
-- The agent's own units, and what writing the files does to them.
pub mod Spared
use picolet.Prelude.{
  ℕ, String, ◌≡◌, refl, ◌≢◌, ◌∙◌, Bool, true, false, Option, none, some, List, [], ◌∷◌, ◌++◌, arith,
  count_if, if◌then◌else◌, not, ◌==◌, ◌&&◌, ◌||◌, any, any-append, eq_iff, contains, sort,
  Bool-cases, inl, inr,
}
use picolet.FilePath.{base}
use picolet.Systemd.{is_passive_unit}
use picolet.Config.Category.{uses_rel_path}
use picolet.Changeset.{Change, Changeset, is_write}
use picolet.Applier.Types.{
  Op, restart, start, disable, enable, Env, Applier, Run, Phase, History, Call, ApplyError,
  ApplyResult, call, unit_op, stop_unit, restart_ignoring_dependencies, later_restart, later_stop,
  later_restart_ignoring, empty_apply_result, empty_phase,
}
use picolet.Applier.Phase.{
  run_systemd_op, is_self_unit, is_activate, restart_policy, stop_unit_for_delete, prepare_delete,
  unit_name_for_delete, apply_change, apply_step, apply_changes, apply_phase, sorted_by_category,
  insert_change, comes_first, record_applied, with_unit, activation_ops, unit_has_install,
  classify_systemd_activation, record_written_unit, record_changed_unit, record_changed_secret,
  record_changed_rel,
}
use picolet.Applier.Hooks.{run_hooks_with_pending, is_empty}
use picolet.Applier.Restart.{
  add_restarted, restart_by, restart_changed_unit, restart_consumer, restart_each,
  activate_systemd_units, schedule_restarts, schedule_stops, schedule_self_unit_ops, self_units_of,
  take_build_consumers, drop_pod_member_restarts, without_all,
}
use picolet.Applier.Builds.{run_builds}
use picolet.Applier.Apply.{
  reload_if_needed, restart_changed, restart_after_builds, restart_units, add_all,
  apply_after_files, apply_with_pending,
}
use picolet.Applier.Sorted.{any-sorted_by_category}
use picolet.Applier.Observe.{Ignores, is_file_call, is_hook_call, is_prepare_call}
use picolet.Applier.Observe.Hooks.{run_hooks_with_pending-unseen}
use picolet.Applier.Observe.Steps.{apply_change-unseen, reload_if_needed-unseen, run_builds-unseen}
use picolet.Applier.Started.{calls_of}
use picolet.Applier.Failure.{calls_of-Ignores}

abbrev pub is_restart : Op → Bool
is_restart restart = true
is_restart _ = false

-- The call ends the process of the unit before it returns.
abbrev pub ends : String → Call → Bool
ends u (unit_op op v) = is_restart op && u == v
ends u (stop_unit v) = u == v
ends u (restart_ignoring_dependencies v) = u == v
ends u _ = false

-- How often the unit's process was ended.
abbrev pub endings : String → History → ℕ
endings u = calls_of (ends u)

files_end_nothing : (u : String) (c : Call) → is_file_call c ≡ true → ends u c ≡ false
files_end_nothing u c h = ground (arith, h)

pub hooks_end_nothing : (u : String) (c : Call) → is_hook_call c ≡ true → ends u c ≡ false
hooks_end_nothing u c h = ground (arith, h)

pub builds_end_nothing : (u : String) (c : Call) → is_prepare_call c ≡ true → ends u c ≡ false
builds_end_nothing u c h = ground (arith, h)

pub call-endings :
    (u : String) (env : Env) (c : Call) (r : Run)
    → ends u c ≡ false
    → endings u (call env c r).0.history ≡ endings u r.history
unfolding call
call-endings u env c r h = ground (arith, h)

pub run_systemd_op-endings :
    (u : String) (env : Env) (v : String) (op : Op) (r : Run)
    → (is_restart op && u == v) ≡ false
    → endings u (run_systemd_op env v op r).history ≡ endings u r.history
unfolding run_systemd_op
run_systemd_op-endings u env v op r h = ground (arith, h, call-endings u env (unit_op op v) r h)

prepare_delete-endings :
    (u : String) (env : Env) (a : Applier) (c : Change) (r : Run)
    → is_self_unit a u ≡ true
    → endings u (prepare_delete env a c r).history ≡ endings u r.history
unfolding prepare_delete stop_unit_for_delete
prepare_delete-endings u env a c r self =
    let unit = unit_name_for_delete c in
    let disabled = run_systemd_op env unit disable r in
    ground (
      arith,
      self,
      run_systemd_op-endings u env unit disable r refl,
      call-endings u env (stop_unit unit) r,
      call-endings u env (stop_unit unit) disabled,
      eq_iff u unit,
    )

-- Some change activates a raw unit of this name.
abbrev pub activates : String → Change → Bool
activates u c = is_activate (restart_policy c.category) && u == base c.dest_path

abbrev pub names_unit : String → List (String × Op) → Bool
names_unit u ops = any (λ (v, op). u == v) ops

names_unit-with_unit :
    (u v : String) (ops : List Op) → (u == v) ≡ false → names_unit u (with_unit v ops) ≡ false
names_unit-with_unit u v [] h = refl
names_unit-with_unit u v (op ∷ rest) h = ground (arith, h, names_unit-with_unit u v rest h)

names_unit-classify :
    (u : String) (a : Applier) (c : Change) (p : Phase)
    → (u == base c.dest_path) ≡ false
    → names_unit u (classify_systemd_activation a c p).activations ≡ names_unit u p.activations
unfolding classify_systemd_activation
names_unit-classify u a c p h =
    let unit = base c.dest_path in
    let parsed = a.parse unit c.new_content in
    let enables = if unit_has_install parsed then enable ∷ [] else [] in
    let added = with_unit unit (enables ++ activation_ops c.action (is_passive_unit unit) parsed) in
    ground (
      arith,
      any-append (λ (v, op). u == v) p.activations added,
      names_unit-with_unit u unit (enables ++ activation_ops c.action (is_passive_unit unit) parsed)
          h,
    )

names_unit-written :
    (u : String) (a : Applier) (c : Change) (p : Phase)
    → activates u c ≡ false
    → names_unit u (record_written_unit a c p).activations ≡ names_unit u p.activations
unfolding record_written_unit record_changed_unit
names_unit-written u a c p h = ground (arith, h, names_unit-classify u a c p)

names_unit-applied :
    (u : String) (a : Applier) (c : Change) (p : Phase) (res : ApplyResult)
    → activates u c ≡ false
    → names_unit u (record_applied a c p res).0.activations ≡ names_unit u p.activations
unfolding record_applied record_changed_secret
names_unit-applied u a c p res h =
    let reloads = record p {
      changed_rels =
          if is_write c.action
          then record_changed_rel c.category c.rel_path p.changed_rels
          else p.changed_rels;
      needs_reload = p.needs_reload || not (uses_rel_path c.category);
    } in
    ground (arith, h, names_unit-written u a c reloads h)

pub apply_changes-endings :
    (u : String) (env : Env) (a : Applier) (cs : List Change) (p : Phase) (r : Run)
    → is_self_unit a u ≡ true
    → any (activates u) cs ≡ false
    → (endings u (apply_changes env a cs p r).0.1.history ≡ endings u r.history)
      × (names_unit u (apply_changes env a cs p r).0.0.activations ≡ names_unit u p.activations)
unfolding apply_changes apply_step
apply_changes-endings u env a [] p r self h = (refl, refl)
apply_changes-endings u env a (c ∷ rest) p r self h =
    let ((p', r'), err) = apply_step env a c p r in
    let prepared = prepare_delete env a c r in
    let writing = calls_of-Ignores (ends u) is_file_call (files_end_nothing u) in
    let wrote = apply_change-unseen (endings u) writing env c prepared in
    let later = apply_changes-endings u env a rest p' r' self in
    let applied = names_unit-applied u a c p (apply_change env c prepared).0.result in
    (
      ground (arith, h, prepare_delete-endings u env a c r self, wrote, later),
      ground (arith, h, later, applied),
    )
