-- ===== src/Controller/Health/Meaning.antt =====
-- What the controller's reported state means.
use pktlab.Base.{
  ◌≡◌, refl, Bool, true, false, not, ◌&&◌, ◌||◌, Option, none, some, arith, if◌then◌else◌,
}
use pktlab.Error.{code_value}
use pktlab.State.{ControllerStateValue, DatapathStateValue}
use pktlab.Ipc.{DatapathErrorCode, datapath_code_value, HealthStateModel}
use pktlab.Process.{DatapathProcessStatus}
use pktlab.Controller.{ControllerRuntime}
use pktlab.Controller.Health.{
  report_health, recompute_controller_health, map_datapath_error_code, is_stopped,
}

-- A datapath that runs, answers over IPC and says that it is running.
abbrev pub reports_running : Option HealthStateModel → Bool
reports_running none = false
reports_running (some h) = elim h.state [ DatapathStateValue.running ↦ true | _ ↦ false ]

abbrev pub is_serving : DatapathProcessStatus → Bool
is_serving s = s.running && (s.reachable && reports_running s.health)

-- What the controller needs in order to be well: no failure on record, and the datapath as desired.
abbrev pub is_healthy : DatapathProcessStatus → ControllerRuntime → Bool
is_healthy s r =
    elim r.controller_override_message [ none ↦ true | some _ ↦ false ]
    && (not r.config.supervise_datapath
        || (if r.desired_state.desired_datapath_running then is_serving s else not s.running))

report_health-state :
    (h : HealthStateModel) (r : ControllerRuntime)
    → (report_health h r).controller_state ≡ (
        if reports_running (some h)
        then ControllerStateValue.running
        else ControllerStateValue.degraded)
unfolding report_health
report_health-state h r = ground arith

-- Unless the controller is not started and is reported as stopped, the recomputed state is
-- "running" when the controller is healthy and "degraded" when it is not, and nothing else.
pub recompute_controller_health-state :
    (s : DatapathProcessStatus) (r : ControllerRuntime)
    → (not r.started && is_stopped r.controller_state) ≡ false
    → (recompute_controller_health s r).controller_state
      ≡ (if is_healthy s r then ControllerStateValue.running else ControllerStateValue.degraded)
unfolding recompute_controller_health
recompute_controller_health-state s r h = ground (arith, h)

-- The recomputation changes the reported state and message and no other field.
pub recompute_controller_health_frame :
    (s : DatapathProcessStatus) (r : ControllerRuntime)
    → let r' = recompute_controller_health s r in
      r' ≡ record r {
        controller_state = r'.controller_state;
        controller_message = r'.controller_message;
      }
unfolding recompute_controller_health
recompute_controller_health_frame s r = ground arith

-- A daemon's error code reaches the controller's clients under the same name.
pub map_datapath_error_code-code_value :
    (c : DatapathErrorCode) → code_value (map_datapath_error_code c) ≡ datapath_code_value c
unfolding map_datapath_error_code code_value datapath_code_value
map_datapath_error_code-code_value DatapathErrorCode.invalid_request = refl
map_datapath_error_code-code_value _ = refl
