-- ===== src/Tests/Validating.antt =====
-- A valid topology, and examples of validation and of loading.
use pktlab.Base.{
  ℕ, ◌+◌, ◌≡◌, refl, ◌↔◌, ◌&&◌, some, none, [], ◌∷◌, String, str_eq, if◌then◌else◌, partition, All,
}
use pktlab.Effect.{ok}
use pktlab.Types.{
  TopologyConfigModel, RulesetModel, RuleActionType, RuleProtocol, ingress, egress,
  fits_effective_model,
}
use pktlab.Config.{ValidatedTopologyConfig}
use pktlab.Config.Names.{
  member, first_index, setdefault, to_set, duplicate_names, collect_duplicate_names,
}
use pktlab.Config.Addresses.{
  ParsedIp, malformed, ipv4, IpLibrary, parse_interface_ref, checked, parse_interface_address,
  parse_address, parse_network,
}
use pktlab.Config.Rules.{
  path_with_prefix, validate_rule_action, validate_rule_match, entry_issues, collect_ruleset_issues,
  validate_ruleset,
}
use pktlab.Config.Rules.Valid.{IsValidRules}
use pktlab.Config.Rules.Exact.{validate_ruleset-IsValidRules}
use pktlab.Config.Links.{use_endpoint, use_addresses, use_link, use_links}
use pktlab.Config.Ports.{
  count_role, port_loop, collect_dpdk_port_issues, networks_of, any_contains, gateway_issues,
  collect_route_issues, capture_loop, collect_capture_point_issues,
  collect_bridge_side_interface_issues,
}
use pktlab.Config.Runtime.{
  resolve_effective_dpdk_runtime, build_effective_model, resolve_sizes, size_issues, ceil_mb,
  recommended_mempool_size, recommended_hugepages_mb, round_up_power_of_two, round_up_to_multiple,
  bit_length,
}
use pktlab.Config.Runtime.Resolved.{IsAccepted}
use pktlab.Config.Validation.{survey, accepted, validate_topology_config, namespace_names}
use pktlab.Config.Validation.Accepted.{IsSound, validate_topology_config-IsSound}
use pktlab.Error.{value_error}
use pktlab.Config.Loading.{
  content, unreadable, not_read, Yaml, mapping, valid, invalid, Loaders, load_topology_config,
  load_rules_config,
}
use pktlab.Config.Loading.Failures.{IsFileOutcome, load_config-IsFileOutcome}
use pktlab.Topology.{port_name_for_role}
use pktlab.Topology.Accepted.{IsSplit, HasPort, accepted_topology-IsReady}
use pktlab.Controller.Args.{build_dpdk_runtime_args, runtime_args}
use pktlab.Controller.Args.Accepted.{build_dpdk_runtime_args-IsAccepted}
use pktlab.Tests.{ascii}
use pktlab.Tests.Sizing.{ranged, ranged_profile, parsed_range}

-- The texts of one network, read by their spelling.
abbrev read_network : String → ParsedIp String
read_network s =
    if str_eq s "10.0.0.1/24"
    then ipv4 "10.0.0.0/24"
    else if str_eq s "10.0.0.2/24"
    then ipv4 "10.0.0.0/24"
    else if str_eq s "10.0.1.0/24"
    then ipv4 "10.0.1.0/24"
    else malformed

abbrev ip : IpLibrary String String
ip = record {
  ip_interface = read_network;
  ip_address = λ s. if str_eq s "10.0.0.2" then ipv4 s else malformed;
  ip_network = read_network;
  same_network = str_eq;
  is_in = λ a n. str_eq a "10.0.0.2" && str_eq n "10.0.0.0/24";
}

abbrev rules : RulesetModel
rules = record {
  version = 1;
  default_action = record { type = RuleActionType.drop; port = none };
  entries =
      record {
        id = 7;
        priority = 1;
        match = record {
          proto = some RuleProtocol.tcp;
          src_ip = none;
          dst_ip = some "10.0.0.2";
          src_cidr = some "10.0.1.0/24";
          dst_cidr = none;
          src_port = none;
          dst_port = some 80;
        };
        action = record { type = RuleActionType.forward; port = some "out0" };
      }
      ∷ [];
}

-- Two hosts on the two sides of a datapath.
abbrev pub two_hosts : TopologyConfigModel
two_hosts = record {
  lab = record { name = "lab" };
  processes = record { dpdkd = ranged; ctrld = none };
  namespaces = record { name = "a" } ∷ record { name = "b" } ∷ record { name = "dp" } ∷ [];
  links =
      record {
        name = "in";
        a = "a:eth0";
        b = "dp:veth-in-k";
        ip_a = some "10.0.0.1/24";
        ip_b = some "10.0.0.2/24";
      }
      ∷ record { name = "out"; a = "b:eth0"; b = "dp:veth-out-k"; ip_a = none; ip_b = none }
      ∷ [];
  dpdk_ports =
      record { name = "in0"; namespace = "dp"; role = ingress }
      ∷ record { name = "out0"; namespace = "dp"; role = egress }
      ∷ [];
  routes = record { namespace = "a"; dst = "10.0.1.0/24"; via = "10.0.0.2" } ∷ [];
  rules = rules;
  capture_points = record { name = "tap"; namespace = "a"; interface = "eth0" } ∷ [];
}

accepted_rules :
    validate_ruleset ip rules (some ("in0" ∷ "out0" ∷ []))
    ≡ ok (record { rules = rules; allowed_port_names = "in0" ∷ "out0" ∷ [] })
unfolding validate_ruleset collect_ruleset_issues entry_issues setdefault first_index
    validate_rule_match validate_rule_action parse_address parse_network checked path_with_prefix
    to_set
accepted_rules = refl

no_issues : (survey ip two_hosts).issues ≡ []
unfolding survey to_set collect_duplicate_names duplicate_names setdefault first_index use_links
    use_link use_endpoint use_addresses parse_interface_ref partition parse_interface_address
    checked collect_dpdk_port_issues port_loop count_role member collect_route_issues networks_of
    any_contains gateway_issues parse_address parse_network collect_capture_point_issues
    capture_loop collect_bridge_side_interface_issues collect_ruleset_issues entry_issues
    validate_rule_match validate_rule_action path_with_prefix
no_issues = refl

abbrev pub validated_hosts : ValidatedTopologyConfig
validated_hosts = accepted ip two_hosts ranged_profile

resolved : resolve_effective_dpdk_runtime ascii ranged 2 "processes.dpdkd" ≡ ok (ranged_profile, [])
unfolding resolve_effective_dpdk_runtime build_effective_model resolve_sizes size_issues
    fits_effective_model recommended_mempool_size recommended_hugepages_mb round_up_power_of_two
    round_up_to_multiple bit_length ceil_mb
resolved = rw parsed_range refl

accepted_hosts : validate_topology_config ip ascii two_hosts ≡ ok validated_hosts
unfolding validate_topology_config
accepted_hosts = rw (resolved, no_issues) refl

validate_topology_config-IsSound_example :
    (validated_hosts.topology ≡ two_hosts)
    × IsSound ip two_hosts
    × IsAccepted 2 validated_hosts.effective_dpdk_config
validate_topology_config-IsSound_example =
    validate_topology_config-IsSound ip ascii two_hosts validated_hosts accepted_hosts

accepted_topology-IsReady_example :
    All
      (IsSplit (namespace_names validated_hosts.topology.namespaces))
      validated_hosts.topology.links
    × ((name : String) × (port_name_for_role ingress "ingress" validated_hosts.topology.dpdk_ports
          ≡ ok name)
        × HasPort ingress name validated_hosts.topology.dpdk_ports)
    × ((name : String) × (port_name_for_role egress "egress" validated_hosts.topology.dpdk_ports
          ≡ ok name)
        × HasPort egress name validated_hosts.topology.dpdk_ports)
accepted_topology-IsReady_example =
    accepted_topology-IsReady ip ascii two_hosts validated_hosts accepted_hosts

build_dpdk_runtime_args-IsAccepted_example :
    (in_name : String) × (out_name : String) × (build_dpdk_runtime_args validated_hosts
      ≡ ok (runtime_args validated_hosts.effective_dpdk_config in_name out_name))
    × HasPort ingress in_name two_hosts.dpdk_ports
    × HasPort egress out_name two_hosts.dpdk_ports
    × IsAccepted 2 validated_hosts.effective_dpdk_config
build_dpdk_runtime_args-IsAccepted_example =
    build_dpdk_runtime_args-IsAccepted ip ascii two_hosts validated_hosts accepted_hosts

validate_ruleset-IsValidRules_example :
    (validate_ruleset ip rules (some ("in0" ∷ "out0" ∷ []))
      ≡ ok (record { rules = rules; allowed_port_names = to_set ("in0" ∷ "out0" ∷ []) }))
    ↔ IsValidRules ip (some ("in0" ∷ "out0" ∷ [])) rules
validate_ruleset-IsValidRules_example =
    validate_ruleset-IsValidRules ip rules (some ("in0" ∷ "out0" ∷ []))

-- Files by their paths: one that is not UTF-8, one that is missing, and one with a topology.
abbrev loaders : Loaders ℕ TopologyConfigModel
loaders = record {
  path_text = λ path. path;
  read_text = λ path w. (
    if str_eq path "binary"
        then not_read (value_error "invalid start byte")
        else if str_eq path "missing"
        then unreadable "No such file or directory"
        else content path,
    w + 1,
  );
  safe_load = λ s. if str_eq s "lab.yaml" then mapping two_hosts else Yaml.malformed "tabs";
  validate_topology_model = λ d. valid d;
  validate_ruleset_model = λ d. invalid [];
}

load_config-IsFileOutcome_example :
    IsFileOutcome "lab.yaml" loaders.safe_load
      (content "lab.yaml")
      (load_topology_config loaders "lab.yaml" 0).0
    × IsFileOutcome "lab.yaml" loaders.safe_load
        (content "lab.yaml")
        (load_rules_config loaders "lab.yaml" 0).0
load_config-IsFileOutcome_example = load_config-IsFileOutcome loaders "lab.yaml" 0
