-- ===== src/Api/Models.antt =====
-- The response models of the HTTP API and how they are made from the controller's snapshots and
-- results: ctrld/pktlab_ctrld/api/models.py. A constructor whose fields declare constraints is a
-- function into `Outcome`, which raises pydantic's error where one of them fails.
use pktlab.Base.{
  ℕ, String, Bool, true, false, ◌&&◌, not, Option, none, some, List, [], ◌∷◌, ℤ, if◌then◌else◌,
  is_empty, on_option, leb, str_eq,
}
use pktlab.Error.{invalid_model}
use pktlab.Effect.{Outcome, ok, raised, and_then}
use pktlab.Types.{PortRole}
use pktlab.State.{ControllerStateValue, DatapathStateValue}
use pktlab.Ipc.{PortInfoModel, PortState}
use pktlab.Process.{DatapathProcessStatus}
use pktlab.Topology.Manager.{TopologyOperation, TopologyOperationResult}
use pktlab.Controller.{
  ControllerHealthSnapshot, DatapathRuntimeStatusSnapshot, DatapathRuntimeStatsSnapshot,
  DatapathStatsResetResult, DatapathControlResult,
}

pub record ControllerHealthModel : Type 0 where
  pub service : String
  pub version : String
  pub state : ControllerStateValue
  pub message : String

pub record DatapathHealthModel : Type 0 where
  pub managed : Bool
  pub reachable : Bool
  pub socket_path : String
  pub pid : Option ℕ
  pub exit_code : Option ℤ
  pub last_error : Option String
  pub service : Option String
  pub version : Option String
  pub dpdk_version : Option String
  pub state : Option DatapathStateValue
  pub message : Option String
  pub applied_rule_version : Option ℕ
  pub ports_ready : Bool
  pub paused : Bool

pub record DatapathPortModel : Type 0 where
  pub name : String
  pub port_id : ℕ
  pub role : PortRole
  pub state : PortState

pub record DatapathStatsModel : Type 0 where
  pub rx_packets : ℕ
  pub tx_packets : ℕ
  pub drop_packets : ℕ
  pub drop_parse_errors : ℕ
  pub drop_no_match : ℕ
  pub rx_bursts : ℕ
  pub tx_bursts : ℕ
  pub unsent_packets : ℕ
  pub rule_hits : List (String × ℤ)

pub record HealthResponseModel : Type 0 where
  pub controller : ControllerHealthModel
  pub datapath : DatapathHealthModel

pub record DatapathStatusResponseModel : Type 0 where
  pub controller : ControllerHealthModel
  pub datapath : DatapathHealthModel
  pub ports : List DatapathPortModel

pub record DatapathStatsResponseModel : Type 0 where
  pub datapath : DatapathHealthModel
  pub stats : DatapathStatsModel

pub record DatapathStatsResetResponseModel : Type 0 where
  pub datapath : DatapathHealthModel
  pub stats : DatapathStatsModel
  pub message : String

pub record DatapathControlResponseModel : Type 0 where
  pub datapath : DatapathHealthModel
  pub message : String

-- Its `config_path` is not empty.
pub record TopologyApplyRequestModel : Type 0 where
  pub config_path : String

pub record TopologyOperationResponseModel : Type 0 where
  pub operation : TopologyOperation
  pub topology_name : Option String
  pub config_path : Option String
  pub applied : Bool
  pub datapath_namespace : Option String
  pub datapath_running : Bool
  pub message : String

-- `Model(...)`: the value where its constraints hold.
abbrev pub constructed : {M : Type 0} → String → Bool → M → Outcome M
constructed name fits m = if fits then ok m else raised (invalid_model name)

unfoldable pub fits_controller_health : ControllerHealthModel → Bool
fits_controller_health m = not (is_empty m.version) && not (is_empty m.message)

abbrev pub positive_or_none : Option ℕ → Bool
positive_or_none o = on_option o true (leb 1)

-- The constraints of `DatapathHealthModel`: a socket path, a positive pid and the service's literal.
unfoldable pub fits_datapath_health : DatapathHealthModel → Bool
fits_datapath_health m =
    not (is_empty m.socket_path)
    && (positive_or_none m.pid && on_option m.service true (λ s. str_eq s "pktlab-dpdkd"))

-- The arguments of `_datapath_health_model_from_status`.
abbrev pub datapath_health_fields : DatapathProcessStatus → DatapathHealthModel
datapath_health_fields s = record {
  managed = s.managed;
  reachable = s.reachable;
  socket_path = s.socket_path;
  pid = s.pid;
  exit_code = s.exit_code;
  last_error = s.last_error;
  service = on_option s.version none (λ v. some v.service);
  version = on_option s.version none (λ v. some v.version);
  dpdk_version = on_option s.version none (λ v. some v.dpdk_version);
  state = on_option s.health none (λ h. some h.state);
  message = on_option s.health none (λ h. some h.message);
  applied_rule_version = on_option s.health none (λ h. some h.applied_rule_version);
  ports_ready = on_option s.health false (λ h. h.ports_ready);
  paused = on_option s.health false (λ h. h.paused);
}

-- `_datapath_health_model_from_status`
unfoldable pub datapath_health_model_from_status :
    DatapathProcessStatus → Outcome DatapathHealthModel
unfolding fits_datapath_health
datapath_health_model_from_status s =
    let fields = datapath_health_fields s in
    constructed "DatapathHealthModel" (fits_datapath_health fields) fields

-- `HealthResponseModel.from_snapshot`
unfoldable pub health_response : ControllerHealthSnapshot → Outcome HealthResponseModel
unfolding fits_controller_health
health_response snapshot =
    let controller : ControllerHealthModel = record {
      service = "pktlab-ctrld";
      version = snapshot.controller_version;
      state = snapshot.controller_state;
      message = snapshot.controller_message;
    } in
    and_then (constructed "ControllerHealthModel" (fits_controller_health controller) controller)
      λ c.
        and_then (datapath_health_model_from_status snapshot.datapath_status)
          λ d. ok (record { controller = c; datapath = d })

-- The ports of a status response, one after the other.
unfoldable pub port_models : List PortInfoModel → Outcome (List DatapathPortModel)
port_models [] = ok []
port_models (port ∷ rest) =
    let others = port_models rest in
    let model : DatapathPortModel = record {
      name = port.name;
      port_id = port.port_id;
      role = port.role;
      state = port.state;
    } in
    and_then (constructed "DatapathPortModel" (not (is_empty port.name)) model)
      λ p. and_then others λ ps. ok (p ∷ ps)

-- `DatapathStatusResponseModel.from_snapshot`
unfoldable pub status_response : DatapathRuntimeStatusSnapshot → Outcome DatapathStatusResponseModel
unfolding health_response port_models
status_response snapshot = and_then (health_response snapshot.controller_snapshot) λ health.
    and_then (port_models snapshot.ports) λ ports.
      ok (record { controller = health.controller; datapath = health.datapath; ports = ports })

-- `DatapathStatsModel.model_validate(stats.model_dump(mode="json"))`
abbrev pub copied_stats : pktlab.Ipc.DatapathStatsModel → DatapathStatsModel
copied_stats s = record {
  rx_packets = s.rx_packets;
  tx_packets = s.tx_packets;
  drop_packets = s.drop_packets;
  drop_parse_errors = s.drop_parse_errors;
  drop_no_match = s.drop_no_match;
  rx_bursts = s.rx_bursts;
  tx_bursts = s.tx_bursts;
  unsent_packets = s.unsent_packets;
  rule_hits = s.rule_hits;
}

-- `DatapathStatsResponseModel.from_snapshot`
unfoldable pub stats_response : DatapathRuntimeStatsSnapshot → Outcome DatapathStatsResponseModel
stats_response snapshot =
    and_then (datapath_health_model_from_status snapshot.datapath_status)
      λ d. ok (record { datapath = d; stats = copied_stats snapshot.stats })

-- `DatapathStatsResetResponseModel.from_result`
unfoldable pub stats_reset_response :
    DatapathStatsResetResult → Outcome DatapathStatsResetResponseModel
stats_reset_response result =
    and_then (datapath_health_model_from_status result.datapath_status) λ d.
      let model : DatapathStatsResetResponseModel = record {
        datapath = d;
        stats = copied_stats result.stats;
        message = result.message;
      } in
      constructed "DatapathStatsResetResponseModel" (not (is_empty result.message)) model

-- `DatapathControlResponseModel.from_result`
unfoldable pub control_response : DatapathControlResult → Outcome DatapathControlResponseModel
control_response result = and_then (datapath_health_model_from_status result.datapath_status) λ d.
    let model : DatapathControlResponseModel = record { datapath = d; message = result.message } in
    constructed "DatapathControlResponseModel" (not (is_empty result.message)) model

-- `TopologyOperationResponseModel.from_result`
unfoldable pub topology_response : TopologyOperationResult → Outcome TopologyOperationResponseModel
topology_response result =
    let model : TopologyOperationResponseModel = record {
      operation = result.operation;
      topology_name = result.topology_name;
      config_path = result.config_path;
      applied = result.applied;
      datapath_namespace = result.datapath_namespace;
      datapath_running = result.datapath_running;
      message = result.message;
    } in
    constructed "TopologyOperationResponseModel" (not (is_empty result.message)) model
