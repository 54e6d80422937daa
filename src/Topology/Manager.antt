-- ===== src/Topology/Manager.antt =====
-- The topology manager: ctrld/pktlab_ctrld/topology/manager.py. A method is an action on the manager's
-- current topology and on the plant, which is all else: the controller's fields that the callbacks
-- change, and the world. The loader, the validator and the callbacks are the manager's arguments.
pub mod Outcomes
pub mod Teardown
pub mod Frame
use pktlab.Base.{
  ℕ, String, Bool, true, false, Option, none, some, List, [], ◌∷◌, ◌++◌, on_option, CharTable,
}
use pktlab.Error.{
  Value, Values, Context, cons, nil, end, entry, text, list, set_entry, to_dict, PktlabError,
  pktlab_error, state_conflict, topology_apply_error, topology_destroy_error, Exn, typed,
}
use pktlab.Effect.{Outcome, ok, raised, Action, pure, raise, handle, catch, ◌>>=◌, ◌>>◌}
use pktlab.Types.{TopologyConfigModel, DpdkProcessConfigModel, EffectiveDpdkRuntimeModel}
use pktlab.Config.{ValidatedTopologyConfig}
use pktlab.Util.{Shell}
use pktlab.Process.{DatapathProcessStatus}
use pktlab.Topology.{
  ensure_namespaces, ensure_links, ensure_bridges, reconcile_taps, bring_link_endpoints_up,
  ensure_routes, destroy_links_and_bridges, destroy_namespaces, dpdk_namespace,
}

pub data TopologyOperation : Type 0 where
  apply_operation destroy_operation : TopologyOperation

pub record TopologyOperationResult : Type 0 where
  pub operation : TopologyOperation
  pub topology_name : Option String
  pub config_path : Option String
  pub applied : Bool
  pub datapath_namespace : Option String
  pub datapath_running : Bool
  pub message : String
  pub requested_dpdk_config : Option DpdkProcessConfigModel
  pub effective_dpdk_config : Option EffectiveDpdkRuntimeModel

pub record AppliedTopology : Type 0 where
  pub config_path : String
  pub validated : ValidatedTopologyConfig

-- The manager's `_current`, beside the plant.
pub record Managed (V : Type 0) : Type 0 where
  pub current : Option AppliedTopology
  pub plant : V

-- The arguments of `TopologyManager(...)`.
pub record ManagerConfig (V : Type 0) : Type 0 where
  pub load_topology : String → Action V TopologyConfigModel
  pub validate_topology : TopologyConfigModel → Outcome ValidatedTopologyConfig
  pub start_datapath : Option (ValidatedTopologyConfig → Action V DatapathProcessStatus)
  pub stop_datapath : Option (Action V Unit)
  pub tap_timeout_seconds : ℕ
  pub tap_poll_interval_seconds : ℕ

-- `TopologyManager._result`
abbrev pub result :
    TopologyOperation
    → ValidatedTopologyConfig
    → String
    → Bool
    → Bool
    → String
    → TopologyOperationResult
result operation v path applied running message = record {
  operation = operation;
  topology_name = some v.topology.lab.name;
  config_path = some path;
  applied = applied;
  datapath_namespace = some (dpdk_namespace v);
  datapath_running = running;
  message = message;
  requested_dpdk_config = some v.requested_dpdk_config;
  effective_dpdk_config = some v.effective_dpdk_config;
}

abbrev pub destroyed : AppliedTopology → TopologyOperationResult
destroyed applied =
    result destroy_operation applied.validated applied.config_path false false "topology destroyed"

abbrev pub nothing_applied : TopologyOperationResult
nothing_applied = record {
  operation = destroy_operation;
  topology_name = none;
  config_path = none;
  applied = false;
  datapath_namespace = none;
  datapath_running = false;
  message = "no topology is currently applied";
  requested_dpdk_config = none;
  effective_dpdk_config = none;
}

-- `[error.to_dict() for error in errors]`
unfoldable pub to_dicts : List PktlabError → Values
to_dicts [] = nil
to_dicts (e ∷ rest) = cons (to_dict e) (to_dicts rest)

abbrev pub destroy_failed : ValidatedTopologyConfig → List PktlabError → PktlabError
destroy_failed v errors =
    pktlab_error topology_destroy_error "failed to destroy topology cleanly" (
      entry "topology_name" (text v.topology.lab.name)
        (entry "errors" (list (to_dicts errors)) end))

-- `_merge_cleanup_error`
unfoldable pub merge_cleanup_error : PktlabError → PktlabError → PktlabError
merge_cleanup_error error cleanup =
    pktlab_error error.code error.message
      (set_entry "cleanup_error" (to_dict cleanup) error.context)

module _ {V : Type 0} where
  -- A `try` around one stage of the teardown: a typed error is kept, any other exception goes on.
  abbrev pub keep_error : List PktlabError → Exn → Action V (List PktlabError)
  keep_error errors (typed e) = pure (errors ++ e ∷ [])
  keep_error errors e = raise e

  abbrev pub attempt : Action V Unit → List PktlabError → Action V (List PktlabError)
  attempt stage errors = catch (stage >> pure errors) (keep_error errors)

  abbrev pub typed_only : Exn → Action V (Option PktlabError)
  typed_only (typed e) = pure (some e)
  typed_only e = raise e

  abbrev pub on_plant : {A : Type 0} → Action V A → Action (Managed V) A
  on_plant m s = let (r, v) = m s.plant in (r, record s { plant = v })

  abbrev pub set_current : Option AppliedTopology → Action (Managed V) Unit
  set_current c s = (ok tt, record s { current = c })

  -- The two callbacks, where they are configured.
  abbrev pub stop_of : ManagerConfig V → Action V Unit
  stop_of config = on_option config.stop_datapath (pure tt) (λ stop. stop)

  abbrev pub start_of : ManagerConfig V → ValidatedTopologyConfig → Action V DatapathProcessStatus
  start_of config v =
      on_option config.start_datapath
        (raise (
          typed (
            pktlab_error state_conflict
              "topology manager cannot start pktlab-dpdkd because no datapath start callback is configured"
              end)))
        (λ start. start v)

module _ {V : Type 0} (t : CharTable) (shell : Shell V) (config : ManagerConfig V) where
  -- `_stop_datapath_locked`
  unfoldable pub stop_datapath_locked : Action V Unit
  stop_datapath_locked = stop_of config

  abbrev pub raise_errors : ValidatedTopologyConfig → List PktlabError → Action V Unit
  raise_errors v [] = pure tt
  raise_errors v (e ∷ rest) = raise (typed (destroy_failed v (e ∷ rest)))

  -- `_destroy_locked`
  unfoldable pub destroy_locked : ValidatedTopologyConfig → Action V Unit
  destroy_locked v = do
    stopping ← attempt stop_datapath_locked []
    links ← attempt (destroy_links_and_bridges t shell v) stopping
    all ← attempt (destroy_namespaces t shell v) links
    raise_errors v all

  -- `_cleanup_failed_apply`
  unfoldable pub cleanup_failed_apply : ValidatedTopologyConfig → Action V (Option PktlabError)
  cleanup_failed_apply v = catch (destroy_locked v >> pure none) typed_only

  -- `_start_datapath_locked`
  unfoldable pub start_datapath_locked : ValidatedTopologyConfig → Action V DatapathProcessStatus
  start_datapath_locked v = start_of config v

  -- The `try` body of `apply`.
  unfoldable pub set_up : ValidatedTopologyConfig → Action V DatapathProcessStatus
  set_up v = do
    ensure_namespaces t shell v
    ensure_links t shell v
    ensure_bridges t shell v
    status ← start_datapath_locked v
    reconcile_taps t shell config.tap_timeout_seconds config.tap_poll_interval_seconds v
    bring_link_endpoints_up t shell v
    ensure_routes t shell v
    pure status

  -- What `apply` raises after its body raised and the cleanup ended.
  unfoldable pub apply_failure : String → ValidatedTopologyConfig → Exn → Option PktlabError → Exn
  apply_failure path v (typed e) none = typed e
  apply_failure path v (typed e) (some cleanup) = typed (merge_cleanup_error e cleanup)
  apply_failure path v e none = typed (
      pktlab_error topology_apply_error "failed to apply topology" (
        entry "config_path" (text path) (
          entry "topology_name" (text v.topology.lab.name)
            (entry "detail" (text (shell.describe e)) end))))
  apply_failure path v e (some cleanup) = typed (
      pktlab_error topology_apply_error "failed to apply topology" (
        entry "config_path" (text path) (
          entry "topology_name" (text v.topology.lab.name) (
            entry "detail" (text (shell.describe e))
              (entry "cleanup_error" (to_dict cleanup) end)))))

  -- The `except` clause of `apply`.
  unfoldable pub roll_back : String → ValidatedTopologyConfig → Exn → Action V DatapathProcessStatus
  roll_back path v e = do cleanup ← cleanup_failed_apply v; raise (apply_failure path v e cleanup)

  -- `if current is not None: self._destroy_locked(current.validated); self._current = None`
  unfoldable pub drop_current : Action (Managed V) Unit
  drop_current s =
      on_option s.current (pure tt)
        (λ applied. do on_plant (destroy_locked applied.validated); set_current none) s

  -- Loading and validating, which come before anything is changed.
  unfoldable pub prepare : String → Action V ValidatedTopologyConfig
  prepare path = do loaded ← config.load_topology path; λ w. (config.validate_topology loaded, w)

  -- `apply`
  unfoldable pub apply : String → Action (Managed V) TopologyOperationResult
  apply path = do
    validated ← on_plant (prepare path)
    drop_current
    status ← on_plant (catch (set_up validated) (roll_back path validated))
    set_current (some (record { config_path = path; validated = validated }))
    pure (result apply_operation validated path true status.running "topology applied")

  -- `destroy`
  unfoldable pub destroy : Action (Managed V) TopologyOperationResult
  destroy s =
      on_option s.current (pure nothing_applied)
        (λ applied. do
          on_plant (destroy_locked applied.validated)
          set_current none
          pure (destroyed applied))
        s
