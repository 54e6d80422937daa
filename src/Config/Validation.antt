-- ===== src/Config/Validation.antt =====
-- `validate_topology_config` of ctrld/pktlab_ctrld/config/validation.py.
pub mod Accepted
use pktlab.Base.{
  String, Bool, not, none, some, List, [], ◌∷◌, ◌++◌, if◌then◌else◌, ◌<>◌, str_eq, contains, is_nil,
  length, map, CharTable,
}
use pktlab.Error.{topology_validation_error, validation_error, typed}
use pktlab.Effect.{Outcome, ok, raised, and_then}
use pktlab.Types.{TopologyConfigModel, NamespaceModel, LinkModel, EffectiveDpdkRuntimeModel}
use pktlab.Config.{ValidationIssue, issue_if, issues_to_dicts, ValidatedTopologyConfig}
use pktlab.Config.Names.{collect_duplicate_names, to_set, sort_set}
use pktlab.Config.Addresses.{IpLibrary, Ref}
use pktlab.Config.Rules.{collect_ruleset_issues}
use pktlab.Config.Links.{Found, nothing_found, use_links}
use pktlab.Config.Ports.{
  collect_dpdk_port_issues, collect_route_issues, collect_capture_point_issues,
  collect_bridge_side_interface_issues, bridge_side_interfaces, port_names,
}
use pktlab.Config.Runtime.{resolve_effective_dpdk_runtime}

abbrev pub namespace_names : List NamespaceModel → List String
namespace_names [] = []
namespace_names (n ∷ rest) = n.name ∷ namespace_names rest

abbrev pub link_names : List LinkModel → List String
link_names [] = []
link_names (l ∷ rest) = l.name ∷ link_names rest

-- The interfaces of one namespace.
unfoldable pub interfaces_of : String → List Ref → List String
interfaces_of namespace [] = []
interfaces_of namespace ((other, interface) ∷ rest) =
    let found = interfaces_of namespace rest in
    if str_eq other namespace then interface ∷ found else found

-- `ValidatedTopologyConfig(...)` with its `__post_init__`, which sorts the sets of interfaces.
unfoldable pub make_validated : ValidatedTopologyConfig → ValidatedTopologyConfig
make_validated v = record v {
  namespace_interfaces = map (λ (ns, names). (ns, sort_set names)) v.namespace_interfaces;
}

-- What the checks have found, and their issues in the order in which the code appends them.
pub record Survey : Type 0 where
  pub namespaces : List String
  pub interfaces : List Ref
  pub issues : List ValidationIssue

module _ {N A : Type 0} (ip : IpLibrary N A) where
  -- The checks before the runtime profile is derived.
  unfoldable pub survey : TopologyConfigModel → Survey
  survey config =
      let names = namespace_names config.namespaces in
      let namespaces = to_set names in
      let dpdk = config.processes.dpdkd.namespace in
      let (link_issues, found) = use_links ip namespaces 0 config.links nothing_found in
      let (port_issues, interfaces) =
        collect_dpdk_port_issues namespaces dpdk config.dpdk_ports found.interfaces in
      record {
        namespaces = namespaces;
        interfaces = interfaces;
        issues =
            collect_duplicate_names "namespaces" names
            ++ (issue_if (not (contains dpdk namespaces)) "processes.dpdkd.namespace"
                  "unknown_namespace"
                  ("dpdkd namespace '" <> dpdk <> "' is not declared in namespaces")
                ++ (collect_duplicate_names "links" (link_names config.links)
                    ++ (link_issues
                        ++ (port_issues
                            ++ (collect_route_issues ip namespaces found.networks 0 config.routes
                                ++ (collect_capture_point_issues namespaces interfaces
                                      config.capture_points
                                    ++ (collect_bridge_side_interface_issues dpdk interfaces
                                          bridge_side_interfaces
                                        ++ collect_ruleset_issues ip config.rules (some "rules")
                                            (some (port_names config.dpdk_ports)))))))));
      }

  abbrev pub accepted : TopologyConfigModel → EffectiveDpdkRuntimeModel → ValidatedTopologyConfig
  accepted config effective =
      let s = survey config in
      make_validated (record {
        topology = config;
        requested_dpdk_config = config.processes.dpdkd;
        effective_dpdk_config = effective;
        namespace_names = s.namespaces;
        dpdk_port_names = to_set (port_names config.dpdk_ports);
        namespace_interfaces =
            map (λ (ns : String). (ns, sort_set (interfaces_of ns s.interfaces))) s.namespaces;
      })

  -- The end of the validation, on the derived profile and its issues.
  abbrev pub conclude :
      TopologyConfigModel
      → EffectiveDpdkRuntimeModel × List ValidationIssue
      → Outcome ValidatedTopologyConfig
  conclude config (effective, runtime_issues) =
      let issues = (survey config).issues ++ runtime_issues in
      if is_nil issues
      then ok (accepted config effective)
      else raised (
          typed (
            validation_error "topology config failed semantic validation" topology_validation_error
              (issues_to_dicts issues)))

  unfoldable pub validate_topology_config :
      CharTable → TopologyConfigModel → Outcome ValidatedTopologyConfig
  validate_topology_config t config =
      and_then
        (resolve_effective_dpdk_runtime t config.processes.dpdkd (length config.dpdk_ports)
          "processes.dpdkd")
        (conclude config)
