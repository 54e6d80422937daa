-- ===== src/Topology.antt =====
-- The package ctrld/pktlab_ctrld/topology: links, bridges, namespaces, routes and TAP interfaces,
-- each as a sequence of `ip` commands, and the manager that composes them (`Topology/Manager`).
pub mod Manager
pub mod Frame
pub mod Accepted
use pktlab.Base.{
  ℕ, String, Bool, Option, none, some, List, [], ◌∷◌, reverse, if◌then◌else◌, ◌<>◌, partition,
  CharTable,
}
use pktlab.Error.{Exn, value_error}
use pktlab.Effect.{Outcome, ok, raised, Action, pure, raise, lift, ◌>>=◌, ◌>>◌}
use pktlab.Types.{
  LinkModel, NamespaceModel, RouteModel, DpdkPortModel, PortRole, ingress, egress, role_eq,
}
use pktlab.Config.{ValidatedTopologyConfig}
use pktlab.Util.{Shell}
use pktlab.Util.Netns.{
  ensure_namespace, delete_namespace, link_exists, ensure_veth_pair, delete_link, ensure_bridge,
  replace_address, replace_route, attach_to_bridge, set_link_up,
}
use pktlab.Util.Time.{wait_until}

abbrev pub ingress_bridge_name : String
ingress_bridge_name = "br-in"

abbrev pub egress_bridge_name : String
egress_bridge_name = "br-out"

abbrev pub ingress_bridge_kernel_interface : String
ingress_bridge_kernel_interface = "veth-in-k"

abbrev pub egress_bridge_kernel_interface : String
egress_bridge_kernel_interface = "veth-out-k"

-- `_split_ref`: what stands before and after the first colon; all of it and nothing without one.
unfoldable pub split_ref : String → String × String
split_ref value = elim (partition b':' value) [ none ↦ (value, "") | some parts ↦ parts ]

abbrev pub dpdk_namespace : ValidatedTopologyConfig → String
dpdk_namespace v = v.requested_dpdk_config.namespace

-- `_port_name_for_role`; `role` is the text of the message.
unfoldable pub port_name_for_role : PortRole → String → List DpdkPortModel → Outcome String
port_name_for_role r role [] = raised (value_error ("expected a dpdk port with role " <> role))
port_name_for_role r role (port ∷ rest) =
    if role_eq port.role r then ok port.name else port_name_for_role r role rest

-- `for x in items: body(x)`
unfoldable pub for_each : {W A : Type 0} → (A → Action W Unit) → List A → Action W Unit
for_each body [] = pure tt
for_each body (x ∷ rest) = body x >> for_each body rest

module _ {W : Type 0} (t : CharTable) (shell : Shell W) where
  abbrev pub address_end : String → String → Option String → Action W Unit
  address_end ns interface none = pure tt
  address_end ns interface (some cidr) = replace_address t shell ns interface cidr

  unfoldable pub ensure_link : LinkModel → Action W Unit
  ensure_link link =
      let (ns_a, if_a) = split_ref link.a in
      let (ns_b, if_b) = split_ref link.b in
      do
        ensure_veth_pair t shell ns_a if_a ns_b if_b
        address_end ns_a if_a link.ip_a
        address_end ns_b if_b link.ip_b

  unfoldable pub ensure_links : ValidatedTopologyConfig → Action W Unit
  ensure_links v = for_each ensure_link v.topology.links

  unfoldable pub ensure_bridges : ValidatedTopologyConfig → Action W Unit
  ensure_bridges v = do
    ensure_bridge t shell (dpdk_namespace v) ingress_bridge_name
    ensure_bridge t shell (dpdk_namespace v) egress_bridge_name

  unfoldable pub bring_link_up : LinkModel → Action W Unit
  bring_link_up link =
      let (ns_a, if_a) = split_ref link.a in
      let (ns_b, if_b) = split_ref link.b in
      do set_link_up t shell ns_a if_a; set_link_up t shell ns_b if_b

  unfoldable pub bring_link_endpoints_up : ValidatedTopologyConfig → Action W Unit
  bring_link_endpoints_up v = for_each bring_link_up v.topology.links

  unfoldable pub destroy_link : LinkModel → Action W Unit
  destroy_link link = let (ns_a, if_a) = split_ref link.a in delete_link t shell ns_a if_a

  unfoldable pub destroy_links_and_bridges : ValidatedTopologyConfig → Action W Unit
  destroy_links_and_bridges v = do
    delete_link t shell (dpdk_namespace v) egress_bridge_name
    delete_link t shell (dpdk_namespace v) ingress_bridge_name
    for_each destroy_link (reverse v.topology.links)

  unfoldable pub ensure_namespaces : ValidatedTopologyConfig → Action W Unit
  ensure_namespaces v =
      for_each (λ (n : NamespaceModel). ensure_namespace t shell n.name) v.topology.namespaces

  unfoldable pub destroy_namespaces : ValidatedTopologyConfig → Action W Unit
  destroy_namespaces v =
      for_each (λ (n : NamespaceModel). delete_namespace t shell n.name)
        (reverse v.topology.namespaces)

  unfoldable pub ensure_routes : ValidatedTopologyConfig → Action W Unit
  ensure_routes v =
      for_each (λ (r : RouteModel). replace_route t shell r.namespace r.dst r.via) v.topology.routes

  abbrev wait_for_interface : ℕ → ℕ → String → String → Action W Unit
  wait_for_interface timeout_seconds interval ns interface =
      wait_until shell (link_exists t shell ns interface) (interface <> " in namespace " <> ns)
        timeout_seconds interval

  unfoldable pub reconcile_taps : ℕ → ℕ → ValidatedTopologyConfig → Action W Unit
  reconcile_taps timeout_seconds interval v =
      let ns = dpdk_namespace v in
      do
        in_port ← lift (port_name_for_role ingress "ingress" v.topology.dpdk_ports)
        out_port ← lift (port_name_for_role egress "egress" v.topology.dpdk_ports)
        wait_for_interface timeout_seconds interval ns in_port
        wait_for_interface timeout_seconds interval ns out_port
        attach_to_bridge t shell ns ingress_bridge_kernel_interface ingress_bridge_name
        attach_to_bridge t shell ns in_port ingress_bridge_name
        attach_to_bridge t shell ns out_port egress_bridge_name
        attach_to_bridge t shell ns egress_bridge_kernel_interface egress_bridge_name
        for_each (set_link_up t shell ns) (
            ingress_bridge_kernel_interface ∷ in_port ∷ out_port ∷ egress_bridge_kernel_interface
            ∷ ingress_bridge_name ∷ egress_bridge_name ∷ [])
