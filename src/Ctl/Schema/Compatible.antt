-- ===== src/Ctl/Schema/Compatible.antt =====
-- Every response that the API makes satisfies the client's constraints.
use pktlab.Base.{◌≡◌, refl, String, Bool, true, false, not, List, [], ◌∷◌, is_empty, arith}
use pktlab.Effect.{Outcome, ok, raised, and_then}
use pktlab.Types.{PortRole, ingress, egress}
use pktlab.State.{ControllerStateValue}
use pktlab.Ipc.{PortState, up, down, PortInfoModel}
use pktlab.Process.{DatapathProcessStatus}
use pktlab.Topology.Manager.{
  TopologyOperation, apply_operation, destroy_operation, TopologyOperationResult,
}
use pktlab.Controller.{
  ControllerHealthSnapshot, DatapathRuntimeStatusSnapshot, DatapathStatsResetResult,
  DatapathControlResult,
}
use pktlab.Api.Models as Api
use pktlab.Api.Models.{
  ControllerHealthModel, DatapathHealthModel, constructed, datapath_health_model_from_status,
  datapath_health_fields, fits_datapath_health, fits_controller_health, health_response,
  port_models, status_response, control_response, stats_reset_response, topology_response,
  copied_stats,
}
use pktlab.Ctl.Schema.{
  accepts_controller, accepts_datapath, accepts_port, accepts_ports, accepts_status,
  accepts_control, accepts_reset, accepts_topology, seen_controller, seen_datapath, seen_ports,
  seen_status, seen_control, seen_reset, seen_topology, controller_state_text, role_text,
  port_state_text, operation_text,
}

-- `Q` of a response, if there is one.
abbrev pub Sent : {M : Type 0} → (M → Type 0) → Outcome M → Type 0
Sent Q (ok m) = Q m
Sent Q (raised e) = Unit

constructed-Sent :
    {M : Type 0} (Q : M → Type 0) (name : String) (b : Bool) (m : M)
    → (b ≡ true → Q m)
    → Sent Q (constructed name b m)
constructed-Sent Q name true m k = k refl
constructed-Sent Q name false m k = tt

and_then-Sent :
    {A B : Type 0} (P : A → Type 0) (Q : B → Type 0) (a : Outcome A) (f : A → Outcome B)
    → Sent P a
    → ((x : A) → P x → Sent Q (f x))
    → Sent Q (and_then a f)
and_then-Sent P Q (ok x) f p k = k x p
and_then-Sent P Q (raised e) f p k = tt

state-given : (s : ControllerStateValue) → is_empty (controller_state_text s) ≡ false
state-given ControllerStateValue.stopped = refl
state-given ControllerStateValue.starting = refl
state-given ControllerStateValue.running = refl
state-given ControllerStateValue.degraded = refl
state-given ControllerStateValue.reconciling = refl
state-given ControllerStateValue.stopping = refl
state-given ControllerStateValue.failed = refl

role-given : (r : PortRole) → is_empty (role_text r) ≡ false
role-given ingress = refl
role-given egress = refl

port_state-given : (s : PortState) → is_empty (port_state_text s) ≡ false
port_state-given up = refl
port_state-given down = refl

operation-given : (o : TopologyOperation) → is_empty (operation_text o) ≡ false
operation-given apply_operation = refl
operation-given destroy_operation = refl

abbrev DatapathFits : DatapathHealthModel → Type 0
DatapathFits d = accepts_datapath (seen_datapath d) ≡ true

fits-accepts : (d : DatapathHealthModel) → fits_datapath_health d ≡ true → DatapathFits d
unfolding fits_datapath_health accepts_datapath
fits-accepts d h = ground arith

datapath-Sent :
    (s : DatapathProcessStatus) → Sent DatapathFits (datapath_health_model_from_status s)
unfolding datapath_health_model_from_status
datapath-Sent s =
    constructed-Sent DatapathFits "DatapathHealthModel"
      (fits_datapath_health (datapath_health_fields s)) (datapath_health_fields s)
      (fits-accepts (datapath_health_fields s))

abbrev HealthFits : Api.HealthResponseModel → Type 0
HealthFits m = (accepts_controller (seen_controller m.controller) ≡ true) × DatapathFits m.datapath

controller-accepts :
    (c : ControllerHealthModel)
    → c.service ≡ "pktlab-ctrld"
    → fits_controller_health c ≡ true
    → accepts_controller (seen_controller c) ≡ true
unfolding fits_controller_health accepts_controller
controller-accepts c e h = rw (e, state-given c.state) h

health-Sent : (h : ControllerHealthSnapshot) → Sent HealthFits (health_response h)
unfolding health_response
health-Sent h =
    let c : ControllerHealthModel = record {
      service = "pktlab-ctrld";
      version = h.controller_version;
      state = h.controller_state;
      message = h.controller_message;
    } in
    and_then-Sent (λ m. accepts_controller (seen_controller m) ≡ true) HealthFits
      (constructed "ControllerHealthModel" (fits_controller_health c) c)
      (λ m.
        and_then (datapath_health_model_from_status h.datapath_status)
          λ d. ok (record { controller = m; datapath = d }))
      (constructed-Sent (λ m. accepts_controller (seen_controller m) ≡ true) "ControllerHealthModel"
        (fits_controller_health c) c (controller-accepts c refl))
      λ m p.
        and_then-Sent DatapathFits HealthFits (datapath_health_model_from_status h.datapath_status)
          (λ d. ok (record { controller = m; datapath = d })) (datapath-Sent h.datapath_status)
          λ d q. (p, q)

abbrev PortsFit : List Api.DatapathPortModel → Type 0
PortsFit ports = accepts_ports (seen_ports ports) ≡ true

ports-Sent : (ports : List PortInfoModel) → Sent PortsFit (port_models ports)
unfolding port_models accepts_ports accepts_port
ports-Sent [] = refl
ports-Sent (port ∷ rest) =
    let model : Api.DatapathPortModel = record {
      name = port.name;
      port_id = port.port_id;
      role = port.role;
      state = port.state;
    } in
    let named = λ (m : Api.DatapathPortModel). (not (is_empty m.name) ≡ true) in
    and_then-Sent named PortsFit (constructed "DatapathPortModel" (not (is_empty port.name)) model)
      (λ p. and_then (port_models rest) λ ps. ok (p ∷ ps))
      (constructed-Sent named "DatapathPortModel" (not (is_empty port.name)) model (λ h. h))
      λ p h.
        and_then-Sent PortsFit PortsFit (port_models rest) (λ ps. ok (p ∷ ps)) (ports-Sent rest)
          λ ps k. rw (h, role-given p.role, port_state-given p.state) k

status-Sent :
    (a : DatapathRuntimeStatusSnapshot)
    → Sent (λ m. accepts_status (seen_status m) ≡ true) (status_response a)
unfolding status_response accepts_status
status-Sent a =
    let Q = λ (m : Api.DatapathStatusResponseModel). accepts_status (seen_status m) ≡ true in
    and_then-Sent HealthFits Q (health_response a.controller_snapshot)
      (λ health. and_then (port_models a.ports) λ ports.
        ok (record { controller = health.controller; datapath = health.datapath; ports = ports }))
      (health-Sent a.controller_snapshot)
      λ health h.
        and_then-Sent PortsFit Q (port_models a.ports)
          (λ ports.
            ok (record {
              controller = health.controller;
              datapath = health.datapath;
              ports = ports;
            }))
          (ports-Sent a.ports) λ ports k. rw (h.0, h.1) k

-- A response of the datapath's health and a message.
reset-Sent :
    (b : DatapathStatsResetResult)
    → Sent (λ m. accepts_reset (seen_reset m) ≡ true) (stats_reset_response b)
unfolding stats_reset_response accepts_reset
reset-Sent b =
    let Q = λ (m : Api.DatapathStatsResetResponseModel). accepts_reset (seen_reset m) ≡ true in
    and_then-Sent DatapathFits Q (datapath_health_model_from_status b.datapath_status) _
      (datapath-Sent b.datapath_status)
      λ d h.
        constructed-Sent Q "DatapathStatsResetResponseModel" (not (is_empty b.message))
          (record { datapath = d; stats = copied_stats b.stats; message = b.message })
          (λ k. rw (h, k) refl)

control-Sent :
    (c : DatapathControlResult)
    → Sent (λ m. accepts_control (seen_control m) ≡ true) (control_response c)
unfolding control_response accepts_control
control-Sent c =
    let Q = λ (m : Api.DatapathControlResponseModel). accepts_control (seen_control m) ≡ true in
    and_then-Sent DatapathFits Q (datapath_health_model_from_status c.datapath_status) _
      (datapath-Sent c.datapath_status)
      λ d h.
        constructed-Sent Q "DatapathControlResponseModel" (not (is_empty c.message))
          (record { datapath = d; message = c.message }) (λ k. rw (h, k) refl)

topology-Sent :
    (d : TopologyOperationResult)
    → Sent (λ m. accepts_topology (seen_topology m) ≡ true) (topology_response d)
unfolding topology_response accepts_topology
topology-Sent d =
    constructed-Sent (λ m. accepts_topology (seen_topology m) ≡ true)
      "TopologyOperationResponseModel" (not (is_empty d.message)) _
      (λ k. rw (operation-given d.operation, k) refl)

-- Every response that the API makes of a snapshot or a result satisfies the constraints that the
-- client declares for it: the status, the reset of the statistics, pausing and resuming, and the
-- topology operations.
pub responses-Sent :
    (a : DatapathRuntimeStatusSnapshot) (b : DatapathStatsResetResult) (c : DatapathControlResult)
    (d : TopologyOperationResult)
    → Sent (λ m. accepts_status (seen_status m) ≡ true) (status_response a)
      × Sent (λ m. accepts_reset (seen_reset m) ≡ true) (stats_reset_response b)
      × Sent (λ m. accepts_control (seen_control m) ≡ true) (control_response c)
      × Sent (λ m. accepts_topology (seen_topology m) ≡ true) (topology_response d)
responses-Sent a b c d = (status-Sent a, reset-Sent b, control-Sent c, topology-Sent d)
