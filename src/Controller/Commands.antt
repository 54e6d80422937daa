-- ===== src/Controller/Commands.antt =====
-- The snapshots and the datapath commands of `ControllerRuntime`, ctrld/pktlab_ctrld/app.py.
use pktlab.Base.{◌&&◌, [], if◌then◌else◌, is_some, on_option}
use pktlab.Error.{state_conflict, pktlab_error, end, Exn, typed}
use pktlab.Effect.{pure, raise, lift, ◌>>=◌, ◌>>◌}
use pktlab.Ipc.{CommandResult, unwrap, AckPayload, PortsPayload, StatsPayload}
use pktlab.Process.{DatapathProcessStatus}
use pktlab.Process.Supervisor
use pktlab.Process.Supervisor.{Method}
use pktlab.Controller.{
  ControllerRuntime, Env, ControllerHealthSnapshot, DatapathRuntimeStatusSnapshot,
  DatapathRuntimeStatsSnapshot, DatapathStatsResetResult, DatapathControlResult,
}
use pktlab.Controller.Health.{pktlab_error_from}
use pktlab.Controller.Parts.{
  OnPlant, runtime, on_supervisor, recompute, observe_again, current_datapath_status,
}

module _ {W : Type 0} (env : Env W) where
  abbrev pub snapshot : DatapathProcessStatus → ControllerRuntime → ControllerHealthSnapshot
  snapshot status r = record {
    controller_service = "pktlab-ctrld";
    controller_version = "0.1.0";
    controller_state = r.controller_state;
    controller_message = r.controller_message;
    desired_state = r.desired_state;
    observed_state = r.observed_state;
    datapath_status = status;
  }

  -- `health_snapshot`
  unfoldable pub health_snapshot : OnPlant W ControllerHealthSnapshot
  health_snapshot = do
    status ← current_datapath_status env
    r ← runtime
    if r.started && is_some r.supervisor
        then (do observe_again env status; recompute status)
        else pure tt
    r' ← runtime
    pure (snapshot status r')

  abbrev pub not_supervising : Exn
  not_supervising =
      typed (pktlab_error state_conflict "controller is not supervising a datapath process" end)

  -- A command of the supervisor: `none` where there is no supervisor.
  abbrev pub command : {P : Type 0} → Method W (CommandResult P) → OnPlant W (CommandResult P)
  command m p = on_option p.runtime.supervisor (raise not_supervising) (λ s. on_supervisor s m) p

  -- `if not result.ok: raise ...`, else the payload.
  unfoldable pub payload_of : {P : Type 0} → CommandResult P → OnPlant W P
  payload_of result =
      on_option result.error (lift (unwrap result)) (λ error. raise (pktlab_error_from error))

  abbrev pub sup_get_ports : Method W (CommandResult PortsPayload)
  sup_get_ports = Supervisor.get_ports env.chars env.shell env.processes env.sockets env.codec

  abbrev pub sup_get_stats : Method W (CommandResult StatsPayload)
  sup_get_stats = Supervisor.get_stats env.chars env.shell env.processes env.sockets env.codec

  abbrev pub sup_reset_stats : Method W (CommandResult AckPayload)
  sup_reset_stats = Supervisor.reset_stats env.chars env.shell env.processes env.sockets env.codec

  -- `datapath_status_snapshot`
  unfoldable pub datapath_status_snapshot : OnPlant W DatapathRuntimeStatusSnapshot
  unfolding health_snapshot
  datapath_status_snapshot = do
    controller_snapshot ← health_snapshot
    r ← runtime
    ports ←
        if is_some r.supervisor && controller_snapshot.datapath_status.reachable
        then (do result ← command sup_get_ports; payload ← payload_of result; pure payload.ports)
        else pure []
    pure (record { controller_snapshot = controller_snapshot; ports = ports })

  -- `datapath_stats_snapshot`
  unfoldable pub datapath_stats_snapshot : OnPlant W DatapathRuntimeStatsSnapshot
  datapath_stats_snapshot = do
    status ← current_datapath_status env
    result ← command sup_get_stats
    payload ← payload_of result
    pure (record { datapath_status = status; stats = payload.stats })

  abbrev pub demand_ok : {P : Type 0} → CommandResult P → OnPlant W Unit
  demand_ok result = on_option result.error (pure tt) (λ error. raise (pktlab_error_from error))

  -- `reset_datapath_stats`
  unfoldable pub reset_datapath_stats : OnPlant W DatapathStatsResetResult
  reset_datapath_stats = do
    reset_result ← command sup_reset_stats
    demand_ok reset_result
    status ← current_datapath_status env
    stats_result ← command sup_get_stats
    payload ← payload_of stats_result
    ack ← lift (unwrap reset_result)
    pure (record { datapath_status = status; stats = payload.stats; message = ack.message })

  -- `_run_datapath_control_command`
  unfoldable pub run_datapath_control_command :
      Method W (CommandResult AckPayload) → OnPlant W DatapathControlResult
  run_datapath_control_command m = do
    control_result ← command m
    demand_ok control_result
    status ← current_datapath_status env
    observe_again env status
    recompute status
    ack ← lift (unwrap control_result)
    pure (record { datapath_status = status; message = ack.message })

  unfoldable pub pause_datapath : OnPlant W DatapathControlResult
  unfolding run_datapath_control_command
  pause_datapath =
      run_datapath_control_command
        (Supervisor.pause_datapath env.chars env.shell env.processes env.sockets env.codec)

  unfoldable pub resume_datapath : OnPlant W DatapathControlResult
  unfolding run_datapath_control_command
  resume_datapath =
      run_datapath_control_command
        (Supervisor.resume_datapath env.chars env.shell env.processes env.sockets env.codec)
