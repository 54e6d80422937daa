-- ===== src/Controller/Health.antt =====
-- The controller's own health: `_recompute_controller_health`, `_observed_from_datapath` and
-- `_map_datapath_error_code` of ctrld/pktlab_ctrld/app.py.
pub mod Meaning
use pktlab.Base.{
  String, Bool, true, false, not, ◌&&◌, Option, none, some, if◌then◌else◌, ◌<>◌, or_text,
}
use pktlab.Error.{
  ErrorCode, invalid_request, invalid_payload, unknown_command, rule_validation_error,
  port_init_error, state_conflict, internal_error, pktlab_error, end, Exn, typed,
}
use pktlab.Effect.{Outcome}
use pktlab.Types.{EffectiveDpdkRuntimeModel}
use pktlab.State.{ObservedState, ControllerStateValue, DatapathStateValue, make_observed}
use pktlab.Ipc.{DatapathErrorCode, DatapathErrorModel, HealthStateModel}
use pktlab.Process.{DatapathProcessStatus}
use pktlab.Controller.{ControllerRuntime}

abbrev pub state_text : DatapathStateValue → String
state_text DatapathStateValue.starting = "starting"
state_text DatapathStateValue.running = "running"
state_text DatapathStateValue.paused = "paused"
state_text DatapathStateValue.degraded = "degraded"
state_text DatapathStateValue.stopping = "stopping"
state_text DatapathStateValue.failed = "failed"

abbrev pub report : ControllerStateValue → String → ControllerRuntime → ControllerRuntime
report state message r = record r { controller_state = state; controller_message = message }

abbrev pub is_stopped : ControllerStateValue → Bool
is_stopped ControllerStateValue.stopped = true
is_stopped _ = false

-- The end of `_recompute_controller_health`, on the health of a reachable datapath.
unfoldable pub report_health : HealthStateModel → ControllerRuntime → ControllerRuntime
report_health h r = elim h.state [
  | DatapathStateValue.running ↦ report ControllerStateValue.running "controller ready" r
  | other ↦
      report ControllerStateValue.degraded
        ("datapath reported state " <> state_text other <> ": " <> h.message) r
]

-- What is reported of a supervised datapath that should be running.
unfoldable pub report_datapath : DatapathProcessStatus → ControllerRuntime → ControllerRuntime
unfolding report_health
report_datapath s r =
    if not s.running
    then report ControllerStateValue.degraded
        (or_text s.last_error "datapath process is not running") r
    else if not s.reachable
    then report ControllerStateValue.degraded (or_text s.last_error "datapath IPC is not reachable")
        r
    else elim s.health [
      | none ↦
          report ControllerStateValue.degraded
            (or_text s.last_error "datapath IPC is not reachable") r
      | some h ↦ report_health h r
    ]

-- What is reported without an override message.
unfoldable pub report_status : DatapathProcessStatus → ControllerRuntime → ControllerRuntime
unfolding report_datapath
report_status s r =
    if not r.started && is_stopped r.controller_state
    then record r { controller_message = "controller is not started" }
    else if not r.config.supervise_datapath
    then report ControllerStateValue.running "controller ready without datapath supervision" r
    else if not r.desired_state.desired_datapath_running
    then (if s.running
        then report ControllerStateValue.degraded
            "datapath process is running without an active topology" r
        else report ControllerStateValue.running "controller ready without active topology" r)
    else report_datapath s r

-- `_recompute_controller_health`
unfoldable pub recompute_controller_health :
    DatapathProcessStatus → ControllerRuntime → ControllerRuntime
unfolding report_status
recompute_controller_health s r = elim r.controller_override_message [
  | some message ↦ report ControllerStateValue.degraded message r
  | none ↦ report_status s r
]

-- `_observed_from_datapath`
unfoldable pub observed_from_datapath :
    ControllerRuntime
    → DatapathProcessStatus
    → Bool
    → Option EffectiveDpdkRuntimeModel
    → Outcome ObservedState
observed_from_datapath r s topology_applied effective = make_observed (record {
  datapath_health = elim s.health [ none ↦ none | some h ↦ some h.state ];
  applied_rules_version = elim s.health [ none ↦ none | some h ↦ some h.applied_rule_version ];
  dpdkd_pid = s.pid;
  effective_dpdk_config = effective;
  active_captures = r.observed_state.active_captures;
  topology_applied = topology_applied;
})

-- `_unmanaged_datapath_status`
abbrev pub unmanaged_datapath_status : ControllerRuntime → DatapathProcessStatus
unmanaged_datapath_status r = record {
  managed = r.config.supervise_datapath;
  socket_path = r.config.datapath_socket_path;
  pid = none;
  running = false;
  reachable = false;
  exit_code = none;
  last_error = none;
  version = none;
  health = none;
}

-- `_map_datapath_error_code`
unfoldable pub map_datapath_error_code : DatapathErrorCode → ErrorCode
map_datapath_error_code DatapathErrorCode.invalid_request = invalid_request
map_datapath_error_code DatapathErrorCode.invalid_payload = invalid_payload
map_datapath_error_code DatapathErrorCode.unknown_command = unknown_command
map_datapath_error_code DatapathErrorCode.rule_validation_error = rule_validation_error
map_datapath_error_code DatapathErrorCode.port_init_error = port_init_error
map_datapath_error_code DatapathErrorCode.state_conflict = state_conflict
map_datapath_error_code DatapathErrorCode.internal_error = internal_error

-- `_pktlab_error_from_datapath_error`
abbrev pub pktlab_error_from : DatapathErrorModel → Exn
pktlab_error_from e = typed (pktlab_error (map_datapath_error_code e.code) e.message end)
