-- ===== src/Config/Ports/Sound.antt =====
-- What datapath ports, routes and capture points without issues satisfy.
use pktlab.Base.{
  ℕ, suc, ◌≡◌, refl, true, false, ◌||◌, not, some, List, [], ◌∷◌, ◌++◌, ◌==◌, arith, Bool-cases,
  inl, inr, String, is_nil, contains, ◌<>◌, str_eq, eq_iff, All, Any,
}
use pktlab.Types.{DpdkPortModel, RouteModel, CapturePointModel, ingress, egress}
use pktlab.Config.Names.{member, at_index, collect_duplicate_names}
use pktlab.Config.Names.Distinct.{
  append_nil, issue_if_nil, NoRepeats, collect_duplicate_names-NoRepeats,
}
use pktlab.Config.Addresses.{Ref, ipv4, IpLibrary, parse_address, parse_network}
use pktlab.Config.Rules.Valid.{checked-ipv4}
use pktlab.Config.Links.{ref_eq}
use pktlab.Config.Ports.{
  count_role, port_loop, role_issues, port_names, collect_dpdk_port_issues, networks_of,
  any_contains, gateway_issues, collect_route_issues, capture_loop, capture_names,
  collect_capture_point_issues, collect_bridge_side_interface_issues, bridge_side_interfaces,
}

module _ (namespaces : List String) (dpdk : String) where
  -- Every port is in the datapath's namespace, which is declared, and is a new interface there;
  -- and the interfaces after the ports.
  abbrev pub AllPlaced : List DpdkPortModel → List Ref → List Ref → Type 0
  AllPlaced [] known known' = known' ≡ known
  AllPlaced (port ∷ rest) known known' =
      (contains port.namespace namespaces ≡ true)
      × (port.namespace ≡ dpdk)
      × (member ref_eq (port.namespace, port.name) known ≡ false)
      × AllPlaced rest ((port.namespace, port.name) ∷ known) known'

  port_loop-AllPlaced :
      (index : ℕ) (ports : List DpdkPortModel) (known : List Ref)
      → is_nil (port_loop namespaces dpdk index ports known).0 ≡ true
      → AllPlaced ports known (port_loop namespaces dpdk index ports known).1
  unfolding port_loop
  port_loop-AllPlaced index [] known h = refl
  port_loop-AllPlaced index (port ∷ rest) known h =
      let ref : Ref = (port.namespace, port.name) in
      let parts : (contains port.namespace namespaces ≡ true)
          × (str_eq port.namespace dpdk ≡ true)
          × (member ref_eq ref known ≡ false)
          × (is_nil (port_loop namespaces dpdk (suc index) rest (ref ∷ known)).0 ≡ true) =
        ground arith in
      (
        parts.0,
        (eq_iff port.namespace dpdk).0 parts.1,
        parts.2,
        rw (parts.0, parts.2) (port_loop-AllPlaced (suc index) rest (ref ∷ known) parts.3),
      )

  -- The ports have distinct names and one of each role, and every port is placed.
  pub record ArePorts (ports : List DpdkPortModel) (known known' : List Ref) : Type 0 where
    pub names : NoRepeats (port_names ports)
    pub one_ingress : count_role ingress ports ≡ 1
    pub one_egress : count_role egress ports ≡ 1
    pub placed : AllPlaced ports known known'

  pub collect-ArePorts :
      (ports : List DpdkPortModel) (known : List Ref)
      → is_nil (collect_dpdk_port_issues namespaces dpdk ports known).0 ≡ true
      → ArePorts ports known (collect_dpdk_port_issues namespaces dpdk ports known).1
  unfolding collect_dpdk_port_issues
  collect-ArePorts ports known h =
      let loop = port_loop namespaces dpdk 0 ports known in
      let parts =
        append_nil (collect_duplicate_names "dpdk_ports" (port_names ports))
          (role_issues ports ++ loop.0) h in
      let more = append_nil (role_issues ports) loop.0 parts.1 in
      let roles : not (count_role ingress ports == 1) || not (count_role egress ports == 1)
          ≡ false =
        issue_if_nil _ "dpdk_ports" "invalid_port_roles"
          "dpdk_ports must declare exactly one ingress port and one egress port for the MVP"
          more.0 in
      record {
        names = (collect_duplicate_names-NoRepeats "dpdk_ports" (port_names ports)).0 parts.0;
        one_ingress = ground arith;
        one_egress = ground arith;
        placed = port_loop-AllPlaced 0 ports known more.1;
      }

module _ {N A : Type 0} (ip : IpLibrary N A) (namespaces : List String) where
  -- A route of a declared namespace whose gateway is in the network of a link of that namespace.
  pub record IsReachable (connected : List (String × N)) (route : RouteModel) : Type 0 where
    pub declared : contains route.namespace namespaces ≡ true
    pub network : N
    pub destination : ip.ip_network route.dst ≡ ipv4 network
    pub gateway : A
    pub via : ip.ip_address route.via ≡ ipv4 gateway
    pub reached : Any (λ c. (c.0 ≡ route.namespace) × (ip.is_in gateway c.1 ≡ true)) connected

  any_contains-Any :
      (namespace : String) (gateway : A) (connected : List (String × N))
      → any_contains ip gateway (networks_of ip namespace connected) ≡ true
      → Any (λ c. (c.0 ≡ namespace) × (ip.is_in gateway c.1 ≡ true)) connected
  unfolding any_contains networks_of
  any_contains-Any namespace gateway [] h = cc h
  any_contains-Any namespace gateway ((other, network) ∷ rest) h =
      let later = any_contains-Any namespace gateway rest in
      elim (Bool-cases (str_eq other namespace)) [
        | inl e ↦ elim (Bool-cases (ip.is_in gateway network)) [
          | inl i ↦ inl ((eq_iff other namespace).0 e, i)
          | inr i ↦ inr (later (ground (arith, e, i, h)))
        ]
        | inr e ↦ inr (later (ground (arith, e, h)))
      ]

  gateway-reached :
      (path : String) (route : RouteModel) (gateway : A) (connected : List (String × N))
      → is_nil
          (gateway_issues ip path route (networks_of ip route.namespace connected) (some gateway))
        ≡ true
      → any_contains ip gateway (networks_of ip route.namespace connected) ≡ true
  unfolding gateway_issues
  gateway-reached path route gateway connected h = ground arith

  route-IsReachable :
      (path : String) (route : RouteModel) (connected : List (String × N))
      → contains route.namespace namespaces ≡ true
      → is_nil (parse_network ip (path <> ".dst") false (some route.dst)).1 ≡ true
      → is_nil (parse_address ip (path <> ".via") false (some route.via)).1 ≡ true
      → is_nil (
          gateway_issues ip path route
            (networks_of ip route.namespace connected)
            (parse_address ip (path <> ".via") false (some route.via)).0)
        ≡ true
      → IsReachable connected route
  unfolding parse_network parse_address
  route-IsReachable path route connected declared hd hv hg =
      let (network, destination, _) =
        checked-ipv4 (path <> ".dst") "invalid_ipv4_network" "IPv4 network with prefix length"
          "networks" route.dst (ip.ip_network route.dst) hd in
      let (gateway, via, read) =
        checked-ipv4 (path <> ".via") "invalid_ipv4_address" "IPv4 address" "addresses" route.via
          (ip.ip_address route.via) hv in
      record {
        declared = declared;
        network = network;
        destination = destination;
        gateway = gateway;
        via = via;
        reached =
            any_contains-Any route.namespace gateway connected
              (gateway-reached path route gateway connected (rw read at hg));
      }

  pub collect-IsReachable :
      (connected : List (String × N)) (index : ℕ) (routes : List RouteModel)
      → is_nil (collect_route_issues ip namespaces connected index routes) ≡ true
      → All (IsReachable connected) routes
  unfolding collect_route_issues
  collect-IsReachable connected index [] h = tt
  collect-IsReachable connected index (route ∷ rest) h =
      let path = at_index "routes" index in
      let dst = (parse_network ip (path <> ".dst") false (some route.dst)).1 in
      let via = parse_address ip (path <> ".via") false (some route.via) in
      let gate = gateway_issues ip path route (networks_of ip route.namespace connected) via.0 in
      let later = collect_route_issues ip namespaces connected (suc index) rest in
      let parts : (contains route.namespace namespaces ≡ true)
          × (is_nil ((dst ++ (via.1 ++ gate)) ++ later) ≡ true) =
        ground arith in
      let first = append_nil (dst ++ (via.1 ++ gate)) later parts.1 in
      let second = append_nil dst (via.1 ++ gate) first.0 in
      let third = append_nil via.1 gate second.1 in
      (
        route-IsReachable path route connected parts.0 second.0 third.0 third.1,
        collect-IsReachable connected (suc index) rest first.1,
      )

module _ (namespaces : List String) (interfaces : List Ref) where
  -- The capture points are on interfaces of declared namespaces.
  abbrev pub IsCapturable : CapturePointModel → Type 0
  IsCapturable point =
      (contains point.namespace namespaces ≡ true)
      × (member ref_eq (point.namespace, point.interface) interfaces ≡ true)

  capture_loop-IsCapturable :
      (index : ℕ) (points : List CapturePointModel)
      → is_nil (capture_loop namespaces interfaces index points) ≡ true
      → All IsCapturable points
  unfolding capture_loop
  capture_loop-IsCapturable index [] h = tt
  capture_loop-IsCapturable index (point ∷ rest) h =
      let parts : IsCapturable point
          × (is_nil (capture_loop namespaces interfaces (suc index) rest) ≡ true) =
        ground arith in
      (parts.0, capture_loop-IsCapturable (suc index) rest parts.1)

  pub collect-IsCapturable :
      (points : List CapturePointModel)
      → is_nil (collect_capture_point_issues namespaces interfaces points) ≡ true
      → NoRepeats (capture_names points) × All IsCapturable points
  unfolding collect_capture_point_issues
  collect-IsCapturable points h =
      let parts =
        append_nil (collect_duplicate_names "capture_points" (capture_names points))
          (capture_loop namespaces interfaces 0 points) h in
      (
        (collect_duplicate_names-NoRepeats "capture_points" (capture_names points)).0 parts.0,
        capture_loop-IsCapturable 0 points parts.1,
      )

pub bridge_sides-known :
    (dpdk : String) (interfaces : List Ref)
    → is_nil (collect_bridge_side_interface_issues dpdk interfaces bridge_side_interfaces) ≡ true
    → (member ref_eq (dpdk, "veth-in-k") interfaces ≡ true)
      × (member ref_eq (dpdk, "veth-out-k") interfaces ≡ true)
unfolding collect_bridge_side_interface_issues
bridge_sides-known dpdk interfaces h = ground arith
