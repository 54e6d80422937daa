-- ===== src/Config/Validation/Accepted.antt =====
-- What a topology that validation accepts satisfies.
use pktlab.Base.{
  ◌≡◌, refl, sym, ◌∙◌, true, not, some, List, [], ◌++◌, arith, Bool-cases, inl, inr, String, is_nil,
  contains, All, length, CharTable,
}
use pktlab.Effect.{ok, and_then-eq-ok}
use pktlab.Types.{TopologyConfigModel, EffectiveDpdkRuntimeModel}
use pktlab.Config.{ValidationIssue, ValidatedTopologyConfig}
use pktlab.Config.Names.{member, to_set}
use pktlab.Config.Names.Distinct.{
  append_nil, issue_if_nil, NoRepeats, collect_duplicate_names-NoRepeats, contains-to_set,
}
use pktlab.Config.Addresses.{Ref, IpLibrary}
use pktlab.Config.Rules.Valid.{IsValidRules, collect-IsValidRules}
use pktlab.Config.Links.{ref_eq, nothing_found, use_links}
use pktlab.Config.Links.Sound.{AllJoin, use_links-AllJoin}
use pktlab.Config.Ports.{collect_dpdk_port_issues, port_names, capture_names}
use pktlab.Config.Ports.Sound.{
  ArePorts, collect-ArePorts, IsReachable, collect-IsReachable, IsCapturable, collect-IsCapturable,
  bridge_sides-known,
}
use pktlab.Config.Runtime.{resolve_effective_dpdk_runtime}
use pktlab.Config.Runtime.Resolved.{IsAccepted, resolve-Resolved, Resolved-IsAccepted}
use pktlab.Config.Validation.{
  namespace_names, link_names, survey, accepted, conclude, validate_topology_config, make_validated,
}

module _ {N A : Type 0} (ip : IpLibrary N A) where
  -- The parts of a sound topology fit together: every link, port, route, capture point and rule
  -- refers only to what is declared.
  pub record IsSound (config : TopologyConfigModel) : Type 0 where
    pub namespaces : NoRepeats (namespace_names config.namespaces)
    pub dpdk_declared :
        contains config.processes.dpdkd.namespace (namespace_names config.namespaces) ≡ true
    pub link_names : NoRepeats (link_names config.links)
    pub link_interfaces : List Ref
    pub connected : List (String × N)
    pub links :
        AllJoin ip
          (to_set (namespace_names config.namespaces))
          config.links
          []
          []
          link_interfaces
          connected
    pub interfaces : List Ref
    pub ports :
        ArePorts
          (to_set (namespace_names config.namespaces))
          config.processes.dpdkd.namespace
          config.dpdk_ports
          link_interfaces
          interfaces
    pub routes :
        All (IsReachable ip (to_set (namespace_names config.namespaces)) connected) config.routes
    pub capture_names : NoRepeats (capture_names config.capture_points)
    pub captures :
        All
          (IsCapturable (to_set (namespace_names config.namespaces)) interfaces)
          config.capture_points
    pub ingress_bridge :
        member ref_eq (config.processes.dpdkd.namespace, "veth-in-k") interfaces ≡ true
    pub egress_bridge :
        member ref_eq (config.processes.dpdkd.namespace, "veth-out-k") interfaces ≡ true
    pub rules : IsValidRules ip (some (port_names config.dpdk_ports)) config.rules

  survey-IsSound :
      (config : TopologyConfigModel) → is_nil (survey ip config).issues ≡ true → IsSound config
  unfolding survey
  survey-IsSound config h =
      let names = namespace_names config.namespaces in
      let namespaces = to_set names in
      let dpdk = config.processes.dpdkd.namespace in
      let links = use_links ip namespaces 0 config.links nothing_found in
      let ports = collect_dpdk_port_issues namespaces dpdk config.dpdk_ports links.1.interfaces in
      let a = append_nil _ _ h in
      let b = append_nil _ _ a.1 in
      let c = append_nil _ _ b.1 in
      let d = append_nil _ _ c.1 in
      let e = append_nil _ _ d.1 in
      let f = append_nil _ _ e.1 in
      let g = append_nil _ _ f.1 in
      let i = append_nil _ _ g.1 in
      let undeclared = issue_if_nil (not (contains dpdk namespaces)) _ _ _ b.0 in
      let captures = collect-IsCapturable namespaces ports.1 config.capture_points g.0 in
      let bridges = bridge_sides-known dpdk ports.1 i.0 in
      record {
        namespaces = (collect_duplicate_names-NoRepeats "namespaces" names).0 a.0;
        dpdk_declared = sym (contains-to_set dpdk names) ∙ ground arith;
        link_names = (collect_duplicate_names-NoRepeats "links" (link_names config.links)).0 c.0;
        link_interfaces = links.1.interfaces;
        connected = links.1.networks;
        links = use_links-AllJoin ip namespaces 0 config.links nothing_found (refl, tt) d.0;
        interfaces = ports.1;
        ports = collect-ArePorts namespaces dpdk config.dpdk_ports links.1.interfaces e.0;
        routes = collect-IsReachable ip namespaces links.1.networks 0 config.routes f.0;
        capture_names = captures.0;
        captures = captures.1;
        ingress_bridge = bridges.0;
        egress_bridge = bridges.1;
        rules =
            collect-IsValidRules ip config.rules (some "rules")
              (some (port_names config.dpdk_ports)) i.1;
      }

  conclude-ok :
      (config : TopologyConfigModel) (r : EffectiveDpdkRuntimeModel × List ValidationIssue)
      (v : ValidatedTopologyConfig)
      → conclude ip config r ≡ ok v
      → (is_nil ((survey ip config).issues ++ r.1) ≡ true) × (v ≡ accepted ip config r.0)
  conclude-ok config r v h = elim (Bool-cases (is_nil ((survey ip config).issues ++ r.1))) [
    | inl e ↦ (e, cc (rw e at h))
    | inr e ↦ absurd (cc (rw e at h))
  ]

  -- A topology that `validate_topology_config` returns is the one it was given; all that its parts
  -- refer to is declared in it, its names, interfaces and rule identifiers are distinct, its
  -- gateways are in the network of a link, and its datapath profile is within the controller's
  -- limits.
  pub validate_topology_config-IsSound :
      (t : CharTable) (config : TopologyConfigModel) (v : ValidatedTopologyConfig)
      → validate_topology_config ip t config ≡ ok v
      → (v.topology ≡ config)
        × IsSound config
        × IsAccepted (length config.dpdk_ports) v.effective_dpdk_config
  unfolding validate_topology_config make_validated
  validate_topology_config-IsSound t config v h =
      let q = config.processes.dpdkd in
      let p = length config.dpdk_ports in
      let (r, resolved, concluded) =
        and_then-eq-ok (resolve_effective_dpdk_runtime t q p "processes.dpdkd") (conclude ip config)
          h in
      let (none_left, same) = conclude-ok config r v concluded in
      let parts = append_nil (survey ip config).issues r.1 none_left in
      let profile =
        Resolved-IsAccepted t q p "processes.dpdkd" r.0 r.1
          (resolve-Resolved t q p "processes.dpdkd" r.0 r.1 resolved) parts.1 in
      (rw same refl, survey-IsSound config parts.0, rw same profile)
