-- ===== src/Controller/Args.antt =====
-- The command line of the datapath: `build_dpdk_runtime_args` and `_port_name_for_role` of
-- ctrld/pktlab_ctrld/app.py.
pub mod Accepted
use pktlab.Base.{String, List, [], ◌∷◌, decimal, ◌<>◌, if◌then◌else◌}
use pktlab.Error.{value_error}
use pktlab.Effect.{Outcome, ok, raised, and_then}
use pktlab.Types.{DpdkPortModel, PortRole, ingress, egress, role_eq, EffectiveDpdkRuntimeModel}
use pktlab.Config.{ValidatedTopologyConfig}

-- `_port_name_for_role`; `role` is the text of the message.
unfoldable pub port_name_of : PortRole → String → List DpdkPortModel → Outcome String
port_name_of r role [] = raised (value_error ("expected a dpdk port with role " <> role))
port_name_of r role (port ∷ rest) =
    if role_eq port.role r then ok port.name else port_name_of r role rest

abbrev pub runtime_args : EffectiveDpdkRuntimeModel → String → String → List String
runtime_args m ingress_port_name egress_port_name =
    "--lcores"
    ∷ m.lcores
    ∷ "--hugepages-mb"
    ∷ decimal m.hugepages_mb
    ∷ "--burst-size"
    ∷ decimal m.burst_size
    ∷ "--rx-queue-size"
    ∷ decimal m.rx_queue_size
    ∷ "--tx-queue-size"
    ∷ decimal m.tx_queue_size
    ∷ "--mempool-size"
    ∷ decimal m.mempool_size
    ∷ "--ingress-port-name"
    ∷ ingress_port_name
    ∷ "--egress-port-name"
    ∷ egress_port_name
    ∷ []

unfoldable pub build_dpdk_runtime_args : ValidatedTopologyConfig → Outcome (List String)
build_dpdk_runtime_args v =
    and_then (port_name_of ingress "ingress" v.topology.dpdk_ports) λ in_port.
      and_then (port_name_of egress "egress" v.topology.dpdk_ports)
        λ out_port. ok (runtime_args v.effective_dpdk_config in_port out_port)
