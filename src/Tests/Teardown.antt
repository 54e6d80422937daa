-- ===== src/Tests/Teardown.antt =====
-- Examples of applying and destroying a topology.
use pktlab.Base.{ℕ, ◌+◌, ◌≡◌, refl, none, some, [], ◌∷◌, ◌++◌, split_lines, first_word}
use pktlab.Util.{execute}
use pktlab.Util.Netns.{
  delete_link, link_exists, run_ip, run_quiet, delete_namespace, namespace_exists, list_namespaces,
  first_words, ensure_namespace, ensure_bridge,
}
use pktlab.Error.{
  state_conflict, internal_error, PktlabError, pktlab_error, end, typed, timeout_expired,
  value_error,
}
use pktlab.Effect.{Action, ok, raised}
use pktlab.Types.{TopologyConfigModel, RuleActionType}
use pktlab.Config.{ValidatedTopologyConfig}
use pktlab.Topology.{
  destroy_links_and_bridges, destroy_namespaces, ensure_namespaces, ensure_links, ensure_bridges,
  for_each,
}
use pktlab.Topology.Manager.{
  Managed, ManagerConfig, apply, destroy, destroy_locked, stop_datapath_locked, prepare, set_up,
  cleanup_failed_apply, start_datapath_locked,
}
use pktlab.Topology.Manager.Teardown.{
  AfterDestroy, errors_of, teardown_outcome, destroy_locked_attempts_all, destroy-current,
}
use pktlab.Topology.Manager.Outcomes.{AfterApply, apply-current, apply_rolls_back}
use pktlab.Tests.{ascii, quiet, plain_request, plain_profile}

abbrev pub topology : TopologyConfigModel
topology = record {
  lab = record { name = "lab" };
  processes = record { dpdkd = plain_request; ctrld = none };
  namespaces = record { name = "dp" } ∷ record { name = "client" } ∷ [];
  links = [];
  dpdk_ports =
      record { name = "dtap0"; namespace = "dp"; role = pktlab.Types.PortRole.ingress }
      ∷ record { name = "dtap1"; namespace = "dp"; role = pktlab.Types.PortRole.egress }
      ∷ [];
  routes = [];
  rules = record {
    version = 1;
    default_action = record { type = RuleActionType.drop; port = none };
    entries = [];
  };
  capture_points = [];
}

abbrev pub validated : ValidatedTopologyConfig
validated = record {
  topology = topology;
  requested_dpdk_config = plain_request;
  effective_dpdk_config = plain_profile;
  namespace_names = "dp" ∷ "client" ∷ [];
  dpdk_port_names = "dtap0" ∷ "dtap1" ∷ [];
  namespace_interfaces = [];
}

-- A manager without a callback that starts the datapath, and whose datapath is stopped by `stop`.
abbrev manager : Action ℕ Unit → ManagerConfig ℕ
manager stop = record {
  load_topology = λ path w. (ok topology, w + 1);
  validate_topology = λ loaded. ok validated;
  start_datapath = none;
  stop_datapath = some stop;
  tap_timeout_seconds = 10;
  tap_poll_interval_seconds = 1;
}

abbrev stubborn : PktlabError
stubborn = pktlab_error internal_error "the datapath does not stop" end

-- Stopping that succeeds, that raises a typed error, and that runs out of time.
abbrev stops : ManagerConfig ℕ
stops = manager (λ w. (ok tt, w + 1))

abbrev resists : ManagerConfig ℕ
resists = manager (λ w. (raised (typed stubborn), w + 1))

abbrev hangs : ManagerConfig ℕ
hangs = manager (λ w. (raised timeout_expired, w + 1))

-- A manager whose loader refuses the file.
abbrev refusing : ManagerConfig ℕ
refusing = record stops { load_topology = λ path w. (raised (value_error "no"), w) }

abbrev empty : Managed ℕ
empty = record { current = none; plant = 0 }

abbrev applied : Managed ℕ
applied = record {
  current = some (record { config_path = "lab.yaml"; validated = validated });
  plant = 0;
}

destroy_locked_attempts_all_example :
    let stopping = stop_datapath_locked ascii quiet resists 0 in
    let links = destroy_links_and_bridges ascii quiet validated stopping.1 in
    let namespaces = destroy_namespaces ascii quiet validated links.1 in
    destroy_locked ascii quiet resists validated 0 ≡ (
      teardown_outcome validated
          ((errors_of stopping.0 ++ errors_of links.0) ++ errors_of namespaces.0),
      namespaces.1,
    )
unfolding stop_datapath_locked destroy_links_and_bridges destroy_namespaces delete_link link_exists
    run_ip execute run_quiet for_each delete_namespace namespace_exists list_namespaces first_words
    split_lines first_word
destroy_locked_attempts_all_example =
    destroy_locked_attempts_all ascii quiet resists validated 0 tt tt tt

destroy-current_example :
    AfterDestroy ascii quiet stops applied.current (destroy ascii quiet stops applied)
destroy-current_example = destroy-current ascii quiet stops applied

apply-current_example :
    AfterApply ascii quiet stops "lab.yaml" empty (apply ascii quiet stops "lab.yaml" empty)
apply-current_example = apply-current ascii quiet stops "lab.yaml" empty

abbrev cannot_start : PktlabError
cannot_start =
    pktlab_error state_conflict
      "topology manager cannot start pktlab-dpdkd because no datapath start callback is configured"
      end

-- The time at which the setup stops, and the one at which its cleanup ends.
abbrev setup_end : ℕ
setup_end = (set_up ascii quiet stops validated 1).1

abbrev cleanup_end : ℕ
cleanup_end = (cleanup_failed_apply ascii quiet stops validated setup_end).1

set_up_fails : set_up ascii quiet stops validated 1 ≡ (raised (typed cannot_start), setup_end)
unfolding set_up ensure_namespaces for_each ensure_namespace namespace_exists list_namespaces run_ip
    execute first_words split_lines first_word run_quiet ensure_links ensure_bridges ensure_bridge
    link_exists start_datapath_locked
set_up_fails = refl

cleanup_ends : cleanup_failed_apply ascii quiet stops validated setup_end ≡ (ok none, cleanup_end)
unfolding cleanup_failed_apply destroy_locked stop_datapath_locked destroy_links_and_bridges
    delete_link link_exists run_ip execute run_quiet for_each destroy_namespaces delete_namespace
    namespace_exists list_namespaces first_words split_lines first_word
cleanup_ends = refl

apply_rolls_back_example :
    (x : PktlabError) × (apply ascii quiet stops "lab.yaml" empty
      ≡ (raised (typed x), record { current = none; plant = cleanup_end }))
    × (x.code ≡ state_conflict)
unfolding prepare
apply_rolls_back_example =
    apply_rolls_back ascii quiet stops "lab.yaml" 0 1 setup_end cleanup_end validated
      (typed cannot_start) none refl set_up_fails cleanup_ends
