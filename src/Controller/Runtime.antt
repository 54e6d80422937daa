-- ===== src/Controller/Runtime.antt =====
-- The life of `ControllerRuntime` and its topology methods, ctrld/pktlab_ctrld/app.py.
pub mod Frame
pub mod Ending
pub mod Starting
pub mod Destroying
pub mod Applying
use pktlab.Base.{
  ℕ, String, Bool, true, false, not, ◌&&◌, Option, none, some, List, [], ◌∷◌, if◌then◌else◌, ◌<>◌,
  is_some, on_option, CharTable, is_blank,
}
use pktlab.Error.{ErrorCode, state_conflict, pktlab_error, end, Exn, typed, value_error}
use pktlab.Effect.{Outcome, ok, raised, Action, pure, raise, lift, handle, catch, ◌>>=◌, ◌>>◌}
use pktlab.Types.{EffectiveDpdkRuntimeModel}
use pktlab.State.{DesiredState, ObservedState, ControllerStateValue, plain_desired, make_desired}
use pktlab.Config.{ValidatedTopologyConfig}
use pktlab.Util.{Shell}
use pktlab.Ipc.{
  CommandResult, DatapathErrorModel, unwrap, AckPayload, PortInfoModel, PortsPayload, StatsPayload,
}
use pktlab.Process.{
  DatapathProcessStatus, DpdkdSupervisor, Supervised, SupervisorConfig, make_supervisor_config,
  new_supervisor,
}
use pktlab.Process.Supervisor
use pktlab.Process.Supervisor.{Method}
use pktlab.Topology.Manager
use pktlab.Topology.Manager.{Managed, ManagerConfig, TopologyOperationResult, on_plant}
use pktlab.Controller.{
  ControllerRuntime, Plant, Env, ControllerHealthSnapshot, DatapathRuntimeStatusSnapshot,
  DatapathRuntimeStatsSnapshot, DatapathStatsResetResult, DatapathControlResult,
}
use pktlab.Controller.Health.{
  report, recompute_controller_health, observed_from_datapath, unmanaged_datapath_status,
  pktlab_error_from,
}
use pktlab.Controller.Args.{build_dpdk_runtime_args}
use pktlab.Controller.Parts.{
  plant_shell, OnPlant, Act, runtime, update, on_supervisor, on_world, has_applied_topology,
  recompute, enter, clear_override, override, sup_start, sup_stop, sup_status,
  build_supervisor_config, stop_topology_datapath, replace_supervisor, start_topology_datapath,
  manager_config, manager_apply, manager_destroy, current_datapath_status, observe, observe_again,
  desired_state_without_topology,
}

module _ {W : Type 0} (env : Env W) where
  abbrev pub start_supervisor : OnPlant W DatapathProcessStatus
  start_supervisor p =
      on_option p.runtime.supervisor (pure (unmanaged_datapath_status p.runtime))
        (λ s. on_supervisor s (sup_start env)) p

  -- `start`
  unfoldable pub start : OnPlant W Unit
  start p =
      if p.runtime.started
      then (ok tt, p)
      else (do
        enter ControllerStateValue.starting "starting controller runtime"
        update λ r. record r {
          desired_state = plain_desired ControllerStateValue.running r.config.supervise_datapath;
        }
        status ← start_supervisor
        observe_again env status
        update (λ r. record r { started = true })
        recompute status)
          p

  -- The teardown of `stop`: the topology with its datapath, or else the datapath alone.
  unfoldable pub stop_services : Act W Unit
  unfolding stop_topology_datapath
  stop_services s =
      (if is_some s.current
          then (do manager_destroy env; pure tt)
          else on_plant (stop_topology_datapath env))
        s

  unfoldable pub finish_stop : OnPlant W Unit
  unfolding observe
  finish_stop = do
    r ← runtime
    observe env (unmanaged_datapath_status r) false none
    update λ r. record r {
      desired_state = plain_desired ControllerStateValue.stopped false;
      controller_state = ControllerStateValue.stopped;
      controller_message = "controller stopped";
      started = false;
    }

  -- `stop`
  unfoldable pub stop : Act W Unit
  stop s =
      if s.plant.runtime.started
      then (do
        on_plant (enter ControllerStateValue.stopping "stopping controller runtime")
        stop_services
        on_plant finish_stop)
          s
      else (ok tt, s)

  -- The `except` clause of `apply_topology`.
  unfoldable pub record_failed_apply : Bool → String → OnPlant W Unit
  record_failed_apply has_topology config_path = do
    status ← current_datapath_status env
    if has_topology then observe_again env status else (do
      update (λ r. record r { desired_state = desired_state_without_topology env r })
      observe env status false none)
    override ("failed to apply topology from " <> config_path)
    recompute status

  abbrev pub fail_apply : String → Exn → Act W TopologyOperationResult
  fail_apply config_path e = do
    has_topology ← has_applied_topology
    on_plant (record_failed_apply has_topology config_path)
    raise e

  -- The part of `apply_topology` after the manager's success.
  unfoldable pub record_applied : TopologyOperationResult → OnPlant W Unit
  record_applied result = do
    clear_override
    desired ← lift (
        make_desired env.chars (record {
          topology_config_path = result.config_path;
          topology_name = result.topology_name;
          desired_rules_version = none;
          requested_dpdk_config = result.requested_dpdk_config;
          desired_controller_state = ControllerStateValue.running;
          desired_datapath_running = result.applied;
        }))
    update (λ r. record r { desired_state = desired })
    status ← current_datapath_status env
    observe env status result.applied result.effective_dpdk_config
    recompute status

  -- `apply_topology`
  unfoldable pub apply_topology : String → Act W TopologyOperationResult
  apply_topology config_path =
      if is_blank env.chars config_path
      then raise (value_error "config_path must be a non-empty string")
      else (do
        on_plant (enter ControllerStateValue.reconciling ("applying topology from " <> config_path))
        result ← catch (manager_apply env config_path) (fail_apply config_path)
        on_plant (record_applied result)
        pure result)

  -- The `except` clause of `destroy_topology`.
  unfoldable pub record_failed_destroy : OnPlant W Unit
  record_failed_destroy = do
    status ← current_datapath_status env
    observe_again env status
    override "failed to destroy topology"
    recompute status

  abbrev pub fail_destroy : Exn → Act W TopologyOperationResult
  fail_destroy e = do on_plant record_failed_destroy; raise e

  -- The part of `destroy_topology` after the datapath has been stopped.
  unfoldable pub record_destroyed : OnPlant W Unit
  unfolding current_datapath_status observe
  record_destroyed = do
    clear_override
    update (λ r. record r { desired_state = desired_state_without_topology env r })
    status ← current_datapath_status env
    observe env status false none
    recompute status

  -- `destroy_topology`
  unfoldable pub destroy_topology : Act W TopologyOperationResult
  destroy_topology = do
    on_plant (enter ControllerStateValue.reconciling "destroying topology")
    result ← catch (manager_destroy env) fail_destroy
    on_plant (stop_topology_datapath env)
    on_plant record_destroyed
    pure result
