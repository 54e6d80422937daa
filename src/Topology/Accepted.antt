-- ===== src/Topology/Accepted.antt =====
-- What the topology operations find in a topology that validation accepted: the ends of its links
-- and the ports of the two roles.
use pktlab.Base.{
  ◌≡◌, refl, sym, ◌∙◌, true, false, List, [], ◌∷◌, arith, Bool-cases, inl, inr, String, contains,
  All, Any, is_empty, CharTable,
}
use pktlab.Effect.{ok}
use pktlab.Types.{DpdkPortModel, LinkModel, PortRole, ingress, egress, role_eq, TopologyConfigModel}
use pktlab.Config.{ValidatedTopologyConfig}
use pktlab.Config.Names.{to_set}
use pktlab.Config.Names.Distinct.{contains-to_set}
use pktlab.Config.Addresses.{IpLibrary, Ref}
use pktlab.Config.Links.Endpoints.{IsRef}
use pktlab.Config.Links.Sound.{AllJoin}
use pktlab.Config.Ports.{count_role}
use pktlab.Config.Validation.{namespace_names, validate_topology_config}
use pktlab.Config.Validation.Accepted.{validate_topology_config-IsSound}
use pktlab.Topology.{split_ref, port_name_for_role}

-- The port of that role and name is in the list.
abbrev pub HasPort : PortRole → String → List DpdkPortModel → Type 0
HasPort r name = Any (λ port. (role_eq port.role r ≡ true) × (port.name ≡ name))

pub port_name_for_role-HasPort :
    (r : PortRole) (role : String) (ports : List DpdkPortModel)
    → count_role r ports ≡ 1
    → (name : String) × (port_name_for_role r role ports ≡ ok name) × HasPort r name ports
unfolding port_name_for_role count_role
port_name_for_role-HasPort r role [] h = absurd (omega (arith, h))
port_name_for_role-HasPort r role (port ∷ rest) h = elim (Bool-cases (role_eq port.role r)) [
  | inl e ↦ (port.name, rw e refl, inl (e, refl))
  | inr e ↦
      let left : count_role r rest ≡ 1 = ground (arith, e, h) in
      let (name, found, has) = port_name_for_role-HasPort r role rest left in
      (name, rw e found, inr has)
]

-- Both ends of the link are split into a namespace of the list and an interface with a name.
pub record IsSplit (namespaces : List String) (link : LinkModel) : Type 0 where
  pub a_declared : contains (split_ref link.a).0 namespaces ≡ true
  pub a_named : is_empty (split_ref link.a).1 ≡ false
  pub b_declared : contains (split_ref link.b).0 namespaces ≡ true
  pub b_named : is_empty (split_ref link.b).1 ≡ false

split_ref-IsRef : (value : String) (ref : Ref) → IsRef value ref → split_ref value ≡ ref
unfolding split_ref
split_ref-IsRef value ref h = ground (arith, h.spelled)

module _ {N A : Type 0} (ip : IpLibrary N A) where
  AllJoin-IsSplit :
      (names : List String) (links : List LinkModel) (known known' : List Ref)
      (networks networks' : List (String × N))
      → AllJoin ip (to_set names) links known networks known' networks'
      → All (IsSplit names) links
  AllJoin-IsSplit names [] known known' networks networks' h = tt
  AllJoin-IsSplit names (link ∷ rest) known known' networks networks' (a, b, more, j, others) =
      let split_a = split_ref-IsRef link.a a j.a_end in
      let split_b = split_ref-IsRef link.b b j.b_end in
      (
        record {
          a_declared = rw split_a (sym (contains-to_set a.0 names) ∙ j.a_declared);
          a_named = rw split_a j.a_end.interface_given;
          b_declared = rw split_b (sym (contains-to_set b.0 names) ∙ j.b_declared);
          b_named = rw split_b j.b_end.interface_given;
        },
        AllJoin-IsSplit names rest (b ∷ a ∷ known) known' more networks' others,
      )

  -- In a topology that validation accepted, the manager splits both ends of every link into a
  -- declared namespace and an interface with a name, and it finds the name of a port of either
  -- role, so that neither search raises.
  pub accepted_topology-IsReady :
      (t : CharTable) (config : TopologyConfigModel) (v : ValidatedTopologyConfig)
      → validate_topology_config ip t config ≡ ok v
      → All (IsSplit (namespace_names v.topology.namespaces)) v.topology.links
        × ((name : String) × (port_name_for_role ingress "ingress" v.topology.dpdk_ports ≡ ok name)
            × HasPort ingress name v.topology.dpdk_ports)
        × ((name : String) × (port_name_for_role egress "egress" v.topology.dpdk_ports ≡ ok name)
            × HasPort egress name v.topology.dpdk_ports)
  accepted_topology-IsReady t config v h =
      let (same, sound, _) = validate_topology_config-IsSound ip t config v h in
      rw same (
        AllJoin-IsSplit (namespace_names config.namespaces) config.links [] sound.link_interfaces []
            sound.connected sound.links,
        port_name_for_role-HasPort ingress "ingress" config.dpdk_ports sound.ports.one_ingress,
        port_name_for_role-HasPort egress "egress" config.dpdk_ports sound.ports.one_egress,
      )
