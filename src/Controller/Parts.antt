-- ===== src/Controller/Parts.antt =====
-- What the methods of `ControllerRuntime` are made of, ctrld/pktlab_ctrld/app.py: its fields, its
-- supervisor and its topology manager.
use pktlab.Base.{
  String, Bool, false, Option, none, some, List, [], ◌∷◌, if◌then◌else◌, is_some, on_option,
}
use pktlab.Error.{state_conflict, pktlab_error, end, typed}
use pktlab.Effect.{ok, Action, pure, raise, lift, ◌>>=◌, ◌>>◌}
use pktlab.Types.{EffectiveDpdkRuntimeModel}
use pktlab.State.{DesiredState, ControllerStateValue, plain_desired}
use pktlab.Config.{ValidatedTopologyConfig}
use pktlab.Util.{Shell}
use pktlab.Process.{
  DatapathProcessStatus, DpdkdSupervisor, SupervisorConfig, make_supervisor_config, new_supervisor,
}
use pktlab.Process.Supervisor
use pktlab.Process.Supervisor.{Method}
use pktlab.Topology.Manager
use pktlab.Topology.Manager.{Managed, ManagerConfig, TopologyOperationResult, on_plant}
use pktlab.Controller.{ControllerRuntime, Plant, Env}
use pktlab.Controller.Health.{
  report, recompute_controller_health, observed_from_datapath, unmanaged_datapath_status,
}
use pktlab.Controller.Args.{build_dpdk_runtime_args}

-- The shell of the world, from the plant.
abbrev pub plant_shell : {W : Type 0} → Shell W → Shell (Plant W)
plant_shell shell = record {
  run = λ argv p. let (r, w) = shell.run argv p.world in (r, record p { world = w });
  monotonic = λ p. let (now, w) = shell.monotonic p.world in (now, record p { world = w });
  sleep = λ n p. record p { world = shell.sleep n p.world };
  describe = shell.describe;
}

-- A method on the controller's fields and the world, and one that calls the manager.
abbrev pub OnPlant : Type 0 → Type 0 → Type 0
OnPlant W A = Action (Plant W) A

abbrev pub Act : Type 0 → Type 0 → Type 0
Act W A = Action (Managed (Plant W)) A

module _ {W : Type 0} where
  abbrev pub runtime : OnPlant W ControllerRuntime
  runtime p = (ok p.runtime, p)

  abbrev pub update : (ControllerRuntime → ControllerRuntime) → OnPlant W Unit
  update f p = (ok tt, record p { runtime = f p.runtime })

  -- A method of the supervisor `s`, which stays the controller's supervisor.
  abbrev pub on_supervisor : {A : Type 0} → DpdkdSupervisor → Method W A → OnPlant W A
  on_supervisor s m p =
      let (r, s') = m (record { supervisor = s; world = p.world }) in
      (
        r,
        record { runtime = record p.runtime { supervisor = some s'.supervisor }; world = s'.world },
      )

  abbrev pub on_world : {A : Type 0} → Action W A → OnPlant W A
  on_world m p = let (r, w) = m p.world in (r, record p { world = w })

  -- `has_applied_topology`
  abbrev pub has_applied_topology : Act W Bool
  has_applied_topology s = (ok (is_some s.current), s)

  abbrev pub recompute : DatapathProcessStatus → OnPlant W Unit
  recompute status = update (recompute_controller_health status)

  -- `_clear_controller_override`, then a state and its message.
  abbrev pub enter : ControllerStateValue → String → OnPlant W Unit
  enter state message =
      update λ r. report state message (record r { controller_override_message = none })

  abbrev pub clear_override : OnPlant W Unit
  clear_override = update (λ r. record r { controller_override_message = none })

  abbrev pub override : String → OnPlant W Unit
  override message = update (λ r. record r { controller_override_message = some message })

module _ {W : Type 0} (env : Env W) where
  abbrev pub sup_start : Method W DatapathProcessStatus
  sup_start = Supervisor.start env.chars env.shell env.processes env.sockets env.codec

  abbrev pub sup_stop : Method W Unit
  sup_stop = Supervisor.stop env.chars env.shell env.processes env.sockets env.codec

  abbrev pub sup_status : Method W DatapathProcessStatus
  sup_status = Supervisor.status env.chars env.shell env.processes env.sockets env.codec

  -- `_build_supervisor_config`; the two intervals that it leaves out have the defaults 0.05 and 5 s.
  unfoldable pub build_supervisor_config :
      Option String → List String → ControllerRuntime → SupervisorConfig
  build_supervisor_config namespace extra_args r = record {
    dpdkd_binary = r.config.datapath_binary;
    socket_path = r.config.datapath_socket_path;
    launch_prefix = elim namespace [ none ↦ [] | some ns ↦ "ip" ∷ "netns" ∷ "exec" ∷ ns ∷ [] ];
    extra_args = extra_args;
    startup_timeout_seconds = r.config.datapath_startup_timeout_seconds;
    poll_interval_seconds = 50;
    shutdown_timeout_seconds = 5000;
  }

  -- `_stop_topology_datapath`
  unfoldable pub stop_topology_datapath : OnPlant W Unit
  stop_topology_datapath p =
      on_option p.runtime.supervisor (pure tt) (λ s. on_supervisor s sup_stop) p

  -- The new supervisor of `_start_topology_datapath`.
  unfoldable pub replace_supervisor : ValidatedTopologyConfig → OnPlant W DpdkdSupervisor
  replace_supervisor v = do
    args ← lift (build_dpdk_runtime_args v)
    r ← runtime
    config ← lift (
        make_supervisor_config env.chars
          (build_supervisor_config (some v.requested_dpdk_config.namespace) args r))
    update (λ r. record r { supervisor = some (new_supervisor config) })
    pure (new_supervisor config)

  -- `_start_topology_datapath`
  unfoldable pub start_topology_datapath : ValidatedTopologyConfig → OnPlant W DatapathProcessStatus
  unfolding stop_topology_datapath replace_supervisor
  start_topology_datapath v = do
    r ← runtime
    if r.config.supervise_datapath
        then (do stop_topology_datapath; s ← replace_supervisor v; on_supervisor s sup_start)
        else raise (
            typed (
              pktlab_error state_conflict
                "controller was started without datapath supervision, so topology apply cannot launch pktlab-dpdkd"
                end))

  -- The manager's arguments, its two intervals at their defaults of 5 and 0.05 s.
  abbrev pub manager_config : ManagerConfig (Plant W)
  manager_config = record {
    load_topology = λ path. on_world (env.load_topology path);
    validate_topology = env.validate_topology;
    start_datapath = some start_topology_datapath;
    stop_datapath = some stop_topology_datapath;
    tap_timeout_seconds = 5000;
    tap_poll_interval_seconds = 50;
  }

  abbrev pub manager_apply : String → Act W TopologyOperationResult
  manager_apply = Manager.apply env.chars (plant_shell env.shell) manager_config

  abbrev pub manager_destroy : Act W TopologyOperationResult
  manager_destroy = Manager.destroy env.chars (plant_shell env.shell) manager_config

  -- `_current_datapath_status_locked`
  unfoldable pub current_datapath_status : OnPlant W DatapathProcessStatus
  current_datapath_status p =
      (if p.runtime.started
          then on_option p.runtime.supervisor (pure (unmanaged_datapath_status p.runtime))
              (λ s. on_supervisor s sup_status)
          else pure (unmanaged_datapath_status p.runtime))
        p

  -- `self._observed_state = self._observed_from_datapath(...)`
  unfoldable pub observe :
      DatapathProcessStatus → Bool → Option EffectiveDpdkRuntimeModel → OnPlant W Unit
  observe status topology_applied effective = do
    r ← runtime
    observed ← lift (observed_from_datapath r status topology_applied effective)
    update (λ r. record r { observed_state = observed })

  -- The same with the topology fields kept.
  unfoldable pub observe_again : DatapathProcessStatus → OnPlant W Unit
  unfolding observe
  observe_again status = do
    r ← runtime
    observe status r.observed_state.topology_applied r.observed_state.effective_dpdk_config

  -- `_desired_state_without_topology`
  abbrev pub desired_state_without_topology : ControllerRuntime → DesiredState
  desired_state_without_topology r =
      plain_desired
        (if r.started then ControllerStateValue.running else ControllerStateValue.stopped) false
