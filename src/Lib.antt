-- ===== src/Lib.antt =====
-- pktlab: a network lab whose controller, ctrld/pktlab_ctrld, sets up network namespaces, links
-- and bridges with the `ip` command, runs the datapath daemon, and talks to it over a Unix socket.
-- This library models the controller, its HTTP API and the command line client, ctl/pktlabctl, all
-- in Python.
--
-- The parts and how they interact. The runtime (ctrld/pktlab_ctrld/app.py, `ControllerRuntime`)
-- owns a topology manager (ctrld/pktlab_ctrld/topology/manager.py) and a datapath supervisor
-- (ctrld/pktlab_ctrld/process/supervisor.py). The manager loads and validates a topology, issues
-- the `ip` commands of the modules beside the manager through ctrld/pktlab_ctrld/util/netns.py and
-- ctrld/pktlab_ctrld/util/subprocess.py, and starts and stops the datapath by callbacks of the
-- runtime. The supervisor starts the process and talks to it with the client of
-- ctrld/pktlab_ctrld/dpdk_client/client.py, whose frames and messages are those of
-- ctrld/pktlab_ctrld/dpdk_client/protocol.py and ctrld/pktlab_ctrld/dpdk_client/models.py. The
-- runtime keeps a desired and an observed state (ctrld/pktlab_ctrld/state/desired.py,
-- ctrld/pktlab_ctrld/state/observed.py); ctrld/pktlab_ctrld/state/reconcile.py plans from the two.
-- ctrld/pktlab_ctrld/config/topology.py and ctrld/pktlab_ctrld/config/rules.py load configuration
-- files; ctrld/pktlab_ctrld/config/validation.py validates them and derives the datapath's profile
-- from what a topology requests. The routes of ctrld/pktlab_ctrld/api call the runtime and make
-- responses of its results; the client sends requests to them and renders the responses.
--
-- Files, with what each models:
--   Base: tests, texts and lists that the others share. Effect: a method as a function from a
--     state to an outcome and a state, and rules for what such an action keeps, returns and
--     establishes.
--   Error (ctrld/pktlab_ctrld/error.py): the typed errors, their contexts, and the exceptions of
--     Python that the code lets pass. Types (ctrld/pktlab_ctrld/types.py): the configuration
--     models.
--   State (ctrld/pktlab_ctrld/state/desired.py, ctrld/pktlab_ctrld/state/observed.py) and
--     State.Reconcile (ctrld/pktlab_ctrld/state/reconcile.py).
--   Config, Config.Lcores, Config.Runtime (ctrld/pktlab_ctrld/config/validation.py):
--     `derive_effective_dpdk_runtime`, `_parse_lcore_spec` and the arithmetic of sizes. A function
--     that appends to `issues` returns what it appends.
--   Config.Names, Config.Addresses, Config.Rules, Config.Links, Config.Ports, Config.Validation
--     (ctrld/pktlab_ctrld/config/validation.py): `validate_topology_config`, `validate_ruleset` and
--     the `_collect_*` functions. A dictionary is the list of its pairs, a set a list; a loop over
--     links is a step on what has been found so far.
--   Config.Loading (ctrld/pktlab_ctrld/config/topology.py, ctrld/pktlab_ctrld/config/rules.py).
--   Ipc (ctrld/pktlab_ctrld/dpdk_client/models.py), Ipc.Protocol
--     (ctrld/pktlab_ctrld/dpdk_client/protocol.py), Ipc.Client
--     (ctrld/pktlab_ctrld/dpdk_client/client.py).
--   Util (ctrld/pktlab_ctrld/util/subprocess.py), Util.Netns (ctrld/pktlab_ctrld/util/netns.py),
--     Util.Time (ctrld/pktlab_ctrld/util/time.py).
--   Topology (ctrld/pktlab_ctrld/topology/links.py, ctrld/pktlab_ctrld/topology/namespaces.py,
--     ctrld/pktlab_ctrld/topology/taps.py, ctrld/pktlab_ctrld/topology/routes.py),
--     Topology.Manager (ctrld/pktlab_ctrld/topology/manager.py).
--   Process, Process.Fields, Process.Supervisor (ctrld/pktlab_ctrld/process/supervisor.py).
--   Controller, Controller.Args, Controller.Health, Controller.Parts, Controller.Runtime,
--     Controller.Commands (ctrld/pktlab_ctrld/app.py).
--   Api (ctrld/pktlab_ctrld/api/app.py, ctrld/pktlab_ctrld/api/routes_health.py,
--     ctrld/pktlab_ctrld/api/routes_datapath.py, ctrld/pktlab_ctrld/api/routes_topology.py),
--     Api.Models (ctrld/pktlab_ctrld/api/models.py). A route is a function from a request and a
--     state to a response and a state.
--   Ctl, Ctl.Client, Ctl.Schema (ctl/pktlabctl/client.py), Ctl.Output (ctl/pktlabctl/output.py),
--     Ctl.Commands (ctl/pktlabctl/commands, ctl/pktlabctl/cli.py).
--   The other children of these hold theorems; Tests holds concrete values and examples.
--
-- State. A method is an action on the fields that it can reach and on a world, which is a
-- parameter: a `Supervised` state for the supervisor, a `Plant` for the callbacks of the runtime,
-- a `Managed` state for the manager and the methods of the runtime that call it. An action returns
-- the state beside its result or its exception, so what was assigned before a `raise` stays
-- assigned.
--
-- Parameters. `Shell`: `subprocess.run`, the clock and `sleep`. `Sockets` and `Codec`: sockets,
-- JSON and pydantic. `Processes`: `subprocess.Popen`. `CharTable`: `isspace`, `isdigit` and `int`
-- of Python's texts. `Env`: all of them, with the loader and the validator of topologies.
-- `IpLibrary`: the module `ipaddress`. `Loaders`: files, YAML and pydantic. `Services`: httpx, JSON
-- and pydantic of the client. What a theorem needs of them is a named hypothesis: `IsStream`,
-- `IsClock`, `ShellKeeps`, `CallbacksKeep`, `AreHttp`.
--
-- Bounds. Times are natural numbers of ticks. A wait has one unit of fuel for each tick of its
-- timeout, and one more: each round ends with a sleep of at least one tick. A read of n bytes has
-- n units, as each chunk has a byte. `bit_length` of n has n units, as each round halves.
--
-- Not modelled. The locks, as each method and each request runs alone; FastAPI's parsing of
-- requests and writing of responses, and the parsing of command lines (`build_parser`), which are
-- those of third-party packages; the entry point (ctrld/pktlab_ctrld/main.py), which starts a
-- server; the datapath daemon (dpdkd), which is in C. The constraints of pydantic models are
-- modelled where this code constructs the model, not where a model is read from a document.
pub mod Base
pub mod Error
pub mod Effect
pub mod Types
pub mod State
pub mod Config
pub mod Ipc
pub mod Util
pub mod Topology
pub mod Process
pub mod Controller
pub mod Api
pub mod Ctl
pub mod Tests
