-- ===== src/Ctl/Schema.antt =====
-- The constraints that the models of ctl/pktlabctl/client.py declare, and what the client finds in a
-- response of the API: the same fields, an enumeration by its literal.
pub mod Compatible
use pktlab.Base.{
  ℕ, String, Bool, true, ◌&&◌, not, Option, none, some, List, [], ◌∷◌, map, is_empty, on_option,
  pos,
}
use pktlab.Types.{PortRole, ingress, egress}
use pktlab.State.{ControllerStateValue}
use pktlab.Ipc.{PortState, up, down}
use pktlab.Topology.Manager.{TopologyOperation, apply_operation, destroy_operation}
use pktlab.Controller.Health.{state_text}
use pktlab.Api.Models as Api
use pktlab.Api.Models.{ControllerHealthModel, DatapathHealthModel, positive_or_none}
use pktlab.Ctl.{
  ControllerStatusModel, DatapathStatusModel, DatapathPortModel, DatapathStatusResponseModel,
  DatapathStatsModel, DatapathStatsResponseModel, DatapathStatsResetResponseModel,
  DatapathControlResponseModel, TopologyOperationResponseModel,
}

unfoldable pub accepts_controller : ControllerStatusModel → Bool
accepts_controller m =
    not (is_empty m.service)
    && (not (is_empty m.version) && (not (is_empty m.state) && not (is_empty m.message)))

unfoldable pub accepts_datapath : DatapathStatusModel → Bool
accepts_datapath m = not (is_empty m.socket_path) && positive_or_none m.pid

unfoldable pub accepts_port : DatapathPortModel → Bool
accepts_port m = not (is_empty m.name) && (not (is_empty m.role) && not (is_empty m.state))

unfoldable pub accepts_ports : List DatapathPortModel → Bool
accepts_ports [] = true
accepts_ports (p ∷ rest) = accepts_port p && accepts_ports rest

unfoldable pub accepts_status : DatapathStatusResponseModel → Bool
accepts_status m =
    accepts_controller m.controller && (accepts_datapath m.datapath && accepts_ports m.ports)

unfoldable pub accepts_control : DatapathControlResponseModel → Bool
accepts_control m = accepts_datapath m.datapath && not (is_empty m.message)

unfoldable pub accepts_reset : DatapathStatsResetResponseModel → Bool
accepts_reset m = accepts_datapath m.datapath && not (is_empty m.message)

unfoldable pub accepts_topology : TopologyOperationResponseModel → Bool
accepts_topology m = not (is_empty m.operation) && not (is_empty m.message)

-- The literals of `ControllerState`.
abbrev pub controller_state_text : ControllerStateValue → String
controller_state_text ControllerStateValue.stopped = "stopped"
controller_state_text ControllerStateValue.starting = "starting"
controller_state_text ControllerStateValue.running = "running"
controller_state_text ControllerStateValue.degraded = "degraded"
controller_state_text ControllerStateValue.reconciling = "reconciling"
controller_state_text ControllerStateValue.stopping = "stopping"
controller_state_text ControllerStateValue.failed = "failed"

abbrev pub role_text : PortRole → String
role_text ingress = "ingress"
role_text egress = "egress"

abbrev pub port_state_text : PortState → String
port_state_text up = "up"
port_state_text down = "down"

abbrev pub operation_text : TopologyOperation → String
operation_text apply_operation = "apply"
operation_text destroy_operation = "destroy"

abbrev pub seen_controller : ControllerHealthModel → ControllerStatusModel
seen_controller m = record {
  service = m.service;
  version = m.version;
  state = controller_state_text m.state;
  message = m.message;
}

abbrev pub seen_datapath : DatapathHealthModel → DatapathStatusModel
seen_datapath m = record {
  managed = m.managed;
  reachable = m.reachable;
  socket_path = m.socket_path;
  pid = m.pid;
  exit_code = m.exit_code;
  last_error = m.last_error;
  service = m.service;
  version = m.version;
  dpdk_version = m.dpdk_version;
  state = on_option m.state none (λ s. some (state_text s));
  message = m.message;
  applied_rule_version = m.applied_rule_version;
  ports_ready = m.ports_ready;
  paused = m.paused;
}

abbrev pub seen_ports : List Api.DatapathPortModel → List DatapathPortModel
seen_ports [] = []
seen_ports (p ∷ rest) =
    record {
      name = p.name;
      port_id = p.port_id;
      role = role_text p.role;
      state = port_state_text p.state;
    }
    ∷ seen_ports rest

abbrev pub seen_stats : Api.DatapathStatsModel → DatapathStatsModel
seen_stats s = record {
  rx_packets = s.rx_packets;
  tx_packets = s.tx_packets;
  drop_packets = s.drop_packets;
  drop_parse_errors = s.drop_parse_errors;
  drop_no_match = s.drop_no_match;
  rx_bursts = s.rx_bursts;
  tx_bursts = s.tx_bursts;
  unsent_packets = s.unsent_packets;
  rule_hits = s.rule_hits;
}

abbrev pub seen_status : Api.DatapathStatusResponseModel → DatapathStatusResponseModel
seen_status m = record {
  controller = seen_controller m.controller;
  datapath = seen_datapath m.datapath;
  ports = seen_ports m.ports;
}

abbrev pub seen_control : Api.DatapathControlResponseModel → DatapathControlResponseModel
seen_control m = record { datapath = seen_datapath m.datapath; message = m.message }

abbrev pub seen_reset : Api.DatapathStatsResetResponseModel → DatapathStatsResetResponseModel
seen_reset m = record {
  datapath = seen_datapath m.datapath;
  stats = seen_stats m.stats;
  message = m.message;
}

abbrev pub seen_topology : Api.TopologyOperationResponseModel → TopologyOperationResponseModel
seen_topology m = record {
  operation = operation_text m.operation;
  topology_name = m.topology_name;
  config_path = m.config_path;
  applied = m.applied;
  datapath_namespace = m.datapath_namespace;
  datapath_running = m.datapath_running;
  message = m.message;
}
