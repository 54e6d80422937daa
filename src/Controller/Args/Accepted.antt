-- ===== src/Controller/Args/Accepted.antt =====
-- The command line of the datapath for a topology that validation accepted.
use pktlab.Base.{◌≡◌, refl, ap, List, [], ◌∷◌, String, if◌then◌else◌, CharTable, length}
use pktlab.Effect.{ok}
use pktlab.Types.{DpdkPortModel, PortRole, ingress, egress, role_eq, TopologyConfigModel}
use pktlab.Config.{ValidatedTopologyConfig}
use pktlab.Config.Addresses.{IpLibrary}
use pktlab.Config.Runtime.Resolved.{IsAccepted}
use pktlab.Config.Validation.{validate_topology_config}
use pktlab.Config.Validation.Accepted.{validate_topology_config-IsSound}
use pktlab.Topology.{port_name_for_role}
use pktlab.Topology.Accepted.{HasPort, accepted_topology-IsReady}
use pktlab.Controller.Args.{port_name_of, runtime_args, build_dpdk_runtime_args}

-- The two functions of that name are the same.
port_name_of-port_name_for_role :
    (r : PortRole) (role : String) (ports : List DpdkPortModel)
    → port_name_of r role ports ≡ port_name_for_role r role ports
unfolding port_name_of port_name_for_role
port_name_of-port_name_for_role r role [] = refl
port_name_of-port_name_for_role r role (port ∷ rest) =
    ap (λ o. if role_eq port.role r then ok port.name else o)
      (port_name_of-port_name_for_role r role rest)

module _ {N A : Type 0} (ip : IpLibrary N A) where
  -- For a topology that validation accepted, the controller builds the datapath's command line: it
  -- carries the effective profile, which is within the controller's limits, and names a declared
  -- ingress port and a declared egress port. It never raises.
  pub build_dpdk_runtime_args-IsAccepted :
      (t : CharTable) (config : TopologyConfigModel) (v : ValidatedTopologyConfig)
      → validate_topology_config ip t config ≡ ok v
      → (in_name : String) × (out_name : String) × (build_dpdk_runtime_args v
          ≡ ok (runtime_args v.effective_dpdk_config in_name out_name))
        × HasPort ingress in_name config.dpdk_ports
        × HasPort egress out_name config.dpdk_ports
        × IsAccepted (length config.dpdk_ports) v.effective_dpdk_config
  unfolding build_dpdk_runtime_args
  build_dpdk_runtime_args-IsAccepted t config v h =
      let (same, _, profile) = validate_topology_config-IsSound ip t config v h in
      let (_, (in_name, in_found, in_has), (out_name, out_found, out_has)) =
        accepted_topology-IsReady ip t config v h in
      (
        in_name,
        out_name,
        rw
            (
              port_name_of-port_name_for_role ingress "ingress" v.topology.dpdk_ports,
              in_found,
              port_name_of-port_name_for_role egress "egress" v.topology.dpdk_ports,
              out_found,
            )
            refl,
        rw same at in_has,
        rw same at out_has,
        profile,
      )
