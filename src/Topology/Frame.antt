-- ===== src/Topology/Frame.antt =====
-- What the topology functions and the manager leave alone: a property of the plant that running a
-- command, the clock and the callbacks keep is kept by all of them.
use pktlab.Base.{ℕ, zero, suc, String, Bool, Option, none, some, List, [], ◌∷◌, CharTable}
use pktlab.Error.{Exn}
use pktlab.Effect.{Action}
use pktlab.Effect.Keeps.{
  Keeps, Keeps-on_option, Keeps-pure, Keeps-raise, Keeps-lift, Keeps-if, Keeps-catch, Keeps-bind,
}
use pktlab.Types.{LinkModel}
use pktlab.Config.{ValidatedTopologyConfig}
use pktlab.Util.{Shell, execute}
use pktlab.Util.Netns.{
  run_ip, run_quiet, list_namespaces, namespace_exists, ensure_namespace, delete_namespace,
  link_exists, ensure_veth_pair, delete_link, ensure_bridge, replace_address, replace_route,
  attach_to_bridge, set_link_up,
}
use pktlab.Util.Time.{read_clock, sleep_for, wait_loop, wait_until}
use pktlab.Topology.{
  for_each, ensure_link, ensure_links, ensure_bridges, bring_link_up, bring_link_endpoints_up,
  destroy_link, destroy_links_and_bridges, ensure_namespaces, destroy_namespaces, ensure_routes,
  reconcile_taps, address_end,
}

-- The shell keeps a property of the state that it acts on.
pub record ShellKeeps {W : Type 0} (P : W → Type 0) (shell : Shell W) : Type 0 where
  pub commands : (argv : List String) → Keeps P (shell.run argv)
  pub clock : (w : W) → P w → P (shell.monotonic w).1
  pub sleeping : (n : ℕ) (w : W) → P w → P (shell.sleep n w)

ruleset rules =
    (Keeps-pure, Keeps-raise, Keeps-lift, Keeps-if, Keeps-catch, Keeps-bind, Keeps-on_option)

module _ {W : Type 0} (P : W → Type 0) (t : CharTable) (shell : Shell W)
    (k : ShellKeeps P shell) where
  execute-Keeps : (allowed : List ℕ) (argv : List String) → Keeps P (execute shell allowed argv)
  unfolding execute
  execute-Keeps allowed argv = let c = k.commands argv in search rules depth 20

  run_ip-Keeps :
      (ns : Option String) (allowed : List ℕ) (arguments : List String)
      → Keeps P (run_ip t shell ns allowed arguments)
  unfolding run_ip
  run_ip-Keeps ns allowed arguments = execute-Keeps allowed _

  run_quiet-Keeps :
      (ns : Option String) (arguments : List String) → Keeps P (run_quiet t shell ns arguments)
  unfolding run_quiet
  run_quiet-Keeps ns arguments = search (rules, run_ip-Keeps) depth 20

  link_exists-Keeps : (ns interface : String) → Keeps P (link_exists t shell ns interface)
  unfolding link_exists
  link_exists-Keeps ns interface = search (rules, run_ip-Keeps) depth 20

  namespace_exists-Keeps : (ns : String) → Keeps P (namespace_exists t shell ns)
  unfolding namespace_exists list_namespaces
  namespace_exists-Keeps ns = search (rules, run_ip-Keeps) depth 20

  ensure_namespace-Keeps : (ns : String) → Keeps P (ensure_namespace t shell ns)
  unfolding ensure_namespace
  ensure_namespace-Keeps ns = search (rules, namespace_exists-Keeps, run_quiet-Keeps) depth 20

  delete_namespace-Keeps : (ns : String) → Keeps P (delete_namespace t shell ns)
  unfolding delete_namespace
  delete_namespace-Keeps ns = search (rules, namespace_exists-Keeps, run_quiet-Keeps) depth 20

  ensure_veth_pair-Keeps : (a b c d : String) → Keeps P (ensure_veth_pair t shell a b c d)
  unfolding ensure_veth_pair
  ensure_veth_pair-Keeps a b c d = search (rules, link_exists-Keeps, run_quiet-Keeps) depth 20

  delete_link-Keeps : (ns interface : String) → Keeps P (delete_link t shell ns interface)
  unfolding delete_link
  delete_link-Keeps ns interface = search (rules, link_exists-Keeps, run_quiet-Keeps) depth 20

  ensure_bridge-Keeps : (ns bridge : String) → Keeps P (ensure_bridge t shell ns bridge)
  unfolding ensure_bridge
  ensure_bridge-Keeps ns bridge = search (rules, link_exists-Keeps, run_quiet-Keeps) depth 20

  replace_address-Keeps : (a b c : String) → Keeps P (replace_address t shell a b c)
  unfolding replace_address
  replace_address-Keeps a b c = run_quiet-Keeps _ _

  replace_route-Keeps : (a b c : String) → Keeps P (replace_route t shell a b c)
  unfolding replace_route
  replace_route-Keeps a b c = run_quiet-Keeps _ _

  attach_to_bridge-Keeps : (a b c : String) → Keeps P (attach_to_bridge t shell a b c)
  unfolding attach_to_bridge
  attach_to_bridge-Keeps a b c = run_quiet-Keeps _ _

  set_link_up-Keeps : (a b : String) → Keeps P (set_link_up t shell a b)
  unfolding set_link_up
  set_link_up-Keeps a b = run_quiet-Keeps _ _

  read_clock-Keeps : Keeps P (read_clock shell)
  read_clock-Keeps = record { at = λ w h. k.clock w h }

  sleep_for-Keeps : (n : ℕ) → Keeps P (sleep_for shell n)
  sleep_for-Keeps n = record { at = λ w h. k.sleeping n w h }

  wait_loop-Keeps :
      (fuel deadline interval : ℕ) (expired : Exn) (m : Action W Bool)
      → Keeps P m
      → Keeps P (wait_loop shell fuel deadline interval expired m)
  unfolding wait_loop
  wait_loop-Keeps zero deadline interval expired m h = search rules
  wait_loop-Keeps (suc fuel) deadline interval expired m h =
      let again = wait_loop-Keeps fuel deadline interval expired m h in
      search (rules, read_clock-Keeps, sleep_for-Keeps) depth 20

  wait_until-Keeps :
      (m : Action W Bool) (d : String) (a b : ℕ) → Keeps P m → Keeps P (wait_until shell m d a b)
  unfolding wait_until
  wait_until-Keeps m d a b h = search (rules, read_clock-Keeps, wait_loop-Keeps) depth 20

  for_each-Keeps :
      {A : Type 0} (body : A → Action W Unit) (xs : List A)
      → ((x : A) → Keeps P (body x))
      → Keeps P (for_each body xs)
  unfolding for_each
  for_each-Keeps body [] h = search rules
  for_each-Keeps body (x ∷ xs) h = let rest = for_each-Keeps body xs h in search rules depth 20

  pub ensure_namespaces-Keeps :
      (v : ValidatedTopologyConfig) → Keeps P (ensure_namespaces t shell v)
  unfolding ensure_namespaces
  ensure_namespaces-Keeps v = search (for_each-Keeps, ensure_namespace-Keeps)

  pub destroy_namespaces-Keeps :
      (v : ValidatedTopologyConfig) → Keeps P (destroy_namespaces t shell v)
  unfolding destroy_namespaces
  destroy_namespaces-Keeps v = search (for_each-Keeps, delete_namespace-Keeps)

  address_end-Keeps :
      (ns interface : String) (o : Option String) → Keeps P (address_end t shell ns interface o)
  address_end-Keeps ns interface none = search rules
  address_end-Keeps ns interface (some cidr) = replace_address-Keeps ns interface cidr

  ensure_link-Keeps : (l : LinkModel) → Keeps P (ensure_link t shell l)
  unfolding ensure_link
  ensure_link-Keeps l = search (rules, ensure_veth_pair-Keeps, address_end-Keeps) depth 20

  pub ensure_links-Keeps : (v : ValidatedTopologyConfig) → Keeps P (ensure_links t shell v)
  unfolding ensure_links
  ensure_links-Keeps v = search (for_each-Keeps, ensure_link-Keeps)

  pub ensure_bridges-Keeps : (v : ValidatedTopologyConfig) → Keeps P (ensure_bridges t shell v)
  unfolding ensure_bridges
  ensure_bridges-Keeps v = search (rules, ensure_bridge-Keeps) depth 20

  bring_link_up-Keeps : (l : LinkModel) → Keeps P (bring_link_up t shell l)
  unfolding bring_link_up
  bring_link_up-Keeps l = search (rules, set_link_up-Keeps) depth 20

  pub bring_link_endpoints_up-Keeps :
      (v : ValidatedTopologyConfig) → Keeps P (bring_link_endpoints_up t shell v)
  unfolding bring_link_endpoints_up
  bring_link_endpoints_up-Keeps v = search (for_each-Keeps, bring_link_up-Keeps)

  destroy_link-Keeps : (l : LinkModel) → Keeps P (destroy_link t shell l)
  unfolding destroy_link
  destroy_link-Keeps l = delete_link-Keeps _ _

  pub destroy_links_and_bridges-Keeps :
      (v : ValidatedTopologyConfig) → Keeps P (destroy_links_and_bridges t shell v)
  unfolding destroy_links_and_bridges
  destroy_links_and_bridges-Keeps v =
      search (rules, delete_link-Keeps, for_each-Keeps, destroy_link-Keeps) depth 20

  pub ensure_routes-Keeps : (v : ValidatedTopologyConfig) → Keeps P (ensure_routes t shell v)
  unfolding ensure_routes
  ensure_routes-Keeps v = search (for_each-Keeps, replace_route-Keeps)

  pub reconcile_taps-Keeps :
      (a b : ℕ) (v : ValidatedTopologyConfig) → Keeps P (reconcile_taps t shell a b v)
  unfolding reconcile_taps
  reconcile_taps-Keeps a b v =
      search
        (
          rules, wait_until-Keeps, link_exists-Keeps, attach_to_bridge-Keeps, set_link_up-Keeps,
          for_each-Keeps,
        )
        depth 30
