-- ===== src/Systemd.antt =====
-- pkg/applier/applier.go: the runtime status of a unit, and what its name and status say about who
-- runs it.
use picolet.Prelude.{ℕ, String, Bool, false, not, ◌&&◌, ◌||◌, List, ◌==◌, if◌then◌else◌, any}
use picolet.FilePath.{ext}

pub record UnitStatus : Type 0 where
  pub active_state : String
  pub sub_state : String
  pub unit_file_state : String
  pub triggered_by : List String
  pub service_type : String
  pub result : String
  pub last_run_started_at : ℕ
  pub last_run_finished_at : ℕ
  pub last_trigger_at : ℕ

-- A unit type with no process: it only activates others.
unfoldable pub is_passive_unit : String → Bool
unfolding ext
is_passive_unit name =
    ext name == ".timer" || ext name == ".socket" || ext name == ".target" || ext name == ".path"

unfoldable pub is_timer_unit : String → Bool
unfolding ext
is_timer_unit name = ext name == ".timer"

unfoldable pub timer_triggered : UnitStatus → Bool
unfolding is_timer_unit
timer_triggered s = any is_timer_unit s.triggered_by

unfoldable pub timer_triggered_oneshot : UnitStatus → Bool
unfolding timer_triggered
timer_triggered_oneshot s = s.service_type == "oneshot" && timer_triggered s

-- systemd, not picolet, runs this one-shot job.
unfoldable pub externally_activated : UnitStatus → Bool
unfolding timer_triggered
externally_activated s =
    if not (s.service_type == "oneshot")
    then false
    else timer_triggered s || s.unit_file_state == "static"
