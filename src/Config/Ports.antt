-- ===== src/Config/Ports.antt =====
-- Validation of datapath ports, routes, capture points and bridge interfaces:
-- `_collect_dpdk_port_issues`, `_collect_route_issues`, `_collect_capture_point_issues` and
-- `_collect_bridge_side_interface_issues` of ctrld/pktlab_ctrld/config/validation.py.
pub mod Sound
use pktlab.Base.{
  ℕ, suc, ◌+◌, String, Bool, true, false, ◌&&◌, ◌||◌, not, Option, none, some, List, [], ◌∷◌, ◌++◌,
  ◌==◌, if◌then◌else◌, ◌<>◌, str_eq, contains, on_option, is_nil, map,
}
use pktlab.Types.{DpdkPortModel, RouteModel, CapturePointModel, PortRole, ingress, egress, role_eq}
use pktlab.Config.{ValidationIssue, issue, issue_if}
use pktlab.Config.Names.{member, at_index, collect_duplicate_names}
use pktlab.Config.Addresses.{IpLibrary, Ref, parse_address, parse_network}
use pktlab.Config.Links.{ref_eq, unknown_namespace}

-- `roles[role]` of the counter.
unfoldable pub count_role : PortRole → List DpdkPortModel → ℕ
count_role role [] = 0
count_role role (port ∷ rest) = (if role_eq port.role role then 1 else 0) + count_role role rest

abbrev pub bridge_side_interfaces : List String
bridge_side_interfaces = "veth-in-k" ∷ "veth-out-k" ∷ []

-- The loop over the ports, on the interfaces so far; the interfaces after it are the second part.
unfoldable pub port_loop :
    List String → String → ℕ → List DpdkPortModel → List Ref → List ValidationIssue × List Ref
port_loop namespaces dpdk index [] interfaces = ([], interfaces)
port_loop namespaces dpdk index (port ∷ rest) interfaces =
    let path = at_index "dpdk_ports" index in
    let ref : Ref = (port.namespace, port.name) in
    let known = member ref_eq ref interfaces in
    let declared = contains port.namespace namespaces in
    let (more, interfaces') =
      port_loop namespaces dpdk (suc index) rest
        (if declared && not known then ref ∷ interfaces else interfaces) in
    (
      (if declared
            then issue_if (not (str_eq port.namespace dpdk)) (path <> ".namespace")
                "port_namespace_mismatch"
                ("dpdk port '" <> port.name <> "' must live in the datapath namespace '" <> dpdk
                  <> "', not '" <> port.namespace <> "'")
              ++ issue_if known (path <> ".name") "interface_name_conflict" (
                  "interface name '" <> port.name <> "' is already used in namespace '"
                  <> port.namespace <> "'")
            else unknown_namespace (path <> ".namespace") port.namespace)
          ++ more,
      interfaces',
    )

abbrev pub role_issues : List DpdkPortModel → List ValidationIssue
role_issues ports =
    issue_if (not (count_role ingress ports == 1) || not (count_role egress ports == 1))
      "dpdk_ports" "invalid_port_roles"
      "dpdk_ports must declare exactly one ingress port and one egress port for the MVP"

abbrev pub port_names : List DpdkPortModel → List String
port_names [] = []
port_names (port ∷ rest) = port.name ∷ port_names rest

-- `_collect_dpdk_port_issues`; the names that it returns are those of the ports.
unfoldable pub collect_dpdk_port_issues :
    List String → String → List DpdkPortModel → List Ref → List ValidationIssue × List Ref
collect_dpdk_port_issues namespaces dpdk ports interfaces =
    let (is, interfaces') = port_loop namespaces dpdk 0 ports interfaces in
    (
      collect_duplicate_names "dpdk_ports" (port_names ports) ++ (role_issues ports ++ is),
      interfaces',
    )

module _ {N A : Type 0} (ip : IpLibrary N A) where
  -- `connected_networks_by_namespace.get(namespace, ())`
  unfoldable pub networks_of : String → List (String × N) → List N
  networks_of namespace [] = []
  networks_of namespace ((other, network) ∷ rest) =
      let found = networks_of namespace rest in
      if str_eq other namespace then network ∷ found else found

  -- `any(via in network for network in networks)`
  unfoldable pub any_contains : A → List N → Bool
  any_contains via [] = false
  any_contains via (network ∷ rest) = ip.is_in via network || any_contains via rest

  -- The test of the gateway, once it has been parsed.
  unfoldable pub gateway_issues : String → RouteModel → List N → Option A → List ValidationIssue
  unfolding any_contains
  gateway_issues path route networks none = []
  gateway_issues path route networks (some via) =
      if is_nil networks
      then issue path "unreachable_gateway" (
          "namespace '" <> route.namespace
          <> "' has no directly addressed links that can reach route via " <> route.via)
      else issue_if (not (any_contains via networks)) (path <> ".via") "unreachable_gateway" (
          "gateway '" <> route.via <> "' is not reachable from any addressed link in namespace '"
          <> route.namespace <> "'")

  -- `_collect_route_issues`
  unfoldable pub collect_route_issues :
      List String → List (String × N) → ℕ → List RouteModel → List ValidationIssue
  unfolding networks_of gateway_issues
  collect_route_issues namespaces connected index [] = []
  collect_route_issues namespaces connected index (route ∷ rest) =
      let path = at_index "routes" index in
      let (via, is) = parse_address ip (path <> ".via") false (some route.via) in
      (if contains route.namespace namespaces
        then (parse_network ip (path <> ".dst") false (some route.dst)).1
          ++ (is ++ gateway_issues path route (networks_of route.namespace connected) via)
        else unknown_namespace (path <> ".namespace") route.namespace)
      ++ collect_route_issues namespaces connected (suc index) rest

-- The loop over the capture points.
unfoldable pub capture_loop :
    List String → List Ref → ℕ → List CapturePointModel → List ValidationIssue
capture_loop namespaces interfaces index [] = []
capture_loop namespaces interfaces index (point ∷ rest) =
    let path = at_index "capture_points" index in
    (if contains point.namespace namespaces
      then issue_if (not (member ref_eq (point.namespace, point.interface) interfaces))
          (path <> ".interface") "unknown_interface"
          ("interface '" <> point.interface <> "' is not declared in namespace '" <> point.namespace
            <> "' through links or dpdk_ports")
      else unknown_namespace (path <> ".namespace") point.namespace)
    ++ capture_loop namespaces interfaces (suc index) rest

abbrev pub capture_names : List CapturePointModel → List String
capture_names [] = []
capture_names (point ∷ rest) = point.name ∷ capture_names rest

-- `_collect_capture_point_issues`
unfoldable pub collect_capture_point_issues :
    List String → List Ref → List CapturePointModel → List ValidationIssue
unfolding capture_loop
collect_capture_point_issues namespaces interfaces points =
    collect_duplicate_names "capture_points" (capture_names points)
    ++ capture_loop namespaces interfaces 0 points

-- `_collect_bridge_side_interface_issues`
unfoldable pub collect_bridge_side_interface_issues :
    String → List Ref → List String → List ValidationIssue
collect_bridge_side_interface_issues dpdk interfaces [] = []
collect_bridge_side_interface_issues dpdk interfaces (name ∷ rest) =
    issue_if (not (member ref_eq (dpdk, name) interfaces)) "links" "missing_bridge_side_interface" (
      "dpdk namespace '" <> dpdk <> "' must define bridge-side interface '" <> name
      <> "' through the topology links")
    ++ collect_bridge_side_interface_issues dpdk interfaces rest
